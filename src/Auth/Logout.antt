-- ===== src/Auth/Logout.antt =====
-- src/modules/auth/services/auth.service.ts: what `logout` ends.
use kuybi.Sessions.AccessCache.{
  AccessCache, AccessStep, IsStored, IsFreshStep, stale_until, run_steps, invalidated,
  cached_status,
}
use kuybi.Prelude.Table.{find, find-modify_found, find_sound, count-modify, modify, count-and_some}
use kuybi.Sessions.Statements.{IsClosed, revoke_session-IsClosed}
use kuybi.Prelude.Method.{is_ok}
use kuybi.Auth.{Account, AccessTokenPayload}
use kuybi.Auth.Ended.{HasOneRow, validate-HasOneRow, closed_ends}
use kuybi.Prelude.{
  List, String, ℕ, Bool, ◌≡◌, Option, some, Option-cases, true, none, inl, arith, All, inr, eq_iff,
  Bool-cases, ◌==◌, false, refl, string_eq, if◌then◌else◌, ◌≤◌, leb, ltb, ◌-◌,
}
use kuybi.Sessions.Service.{SessionsConfig, CachedReads, Token}
use kuybi.Auth.Tokens.{
  logout_parts, logout_of, validate_access, PresentedToken, BlacklistEntry, refresh_parts,
}
use kuybi.Sessions.{
  revoke_all_user_sessions, validate_session, validate_found, find_by_id, touch, Session, has_id,
  is_open_of, revoked_row, touched_row, is_open, activity_write_interval_ms,
}

module _ {M : Type 0} where
  validated_row :
      (now : ℕ) (id : String) (rows : List (Session M)) (s : Session M)
      → (validate_session now id rows).1 ≡ some s
      → find_by_id id (validate_session now id rows).0 ≡ some s
  unfolding validate_session validate_found touch find_by_id
  validated_row now id rows s h = elim (Option-cases (find (has_id id) rows)) [
    | inl e ↦ absurd (ground (arith, e, h))
    | inr (x, e) ↦ elim (Bool-cases (is_open x)) [
      | inr off ↦ absurd (ground (arith, e, h, off))
      | inl live ↦ elim (Bool-cases (leb x.expires_at now)) [
        | inl over ↦ absurd (ground (arith, e, h, live, over))
        | inr on ↦ elim (Bool-cases (ltb activity_write_interval_ms (now - x.last_activity_at))) [
          | inr idle ↦ ground (arith, e, h, live, on, idle)
          | inl busy ↦ ground (
            arith,
            e,
            h,
            live,
            on,
            busy,
            find_sound (has_id id) rows e,
            eq_iff x.id x.id,
            find-modify_found (has_id id) (has_id x.id) (touched_row now) rows (λ y k. refl) e,
          )
        ]
      ]
    ]
  ]

  pub revoked_all-IsClosed :
      (now : ℕ) (id user_id reason : String) (rows : List (Session M)) (s : Session M)
      → HasOneRow id rows
      → find_by_id id rows ≡ some s
      → s.user_id ≡ user_id
      → IsClosed id (revoke_all_user_sessions now user_id none reason rows).0
  unfolding revoke_all_user_sessions find_by_id
  revoked_all-IsClosed now id user_id reason rows s u f o =
      let f' =
        find-modify_found (has_id id) (is_open_of user_id none) (revoked_row now reason) rows
          (λ x e. refl) f in
      let u' =
        count-modify (has_id id) (is_open_of user_id none) (revoked_row now reason) rows
          (λ x e. refl) in
      let rows' = modify (is_open_of user_id none) (revoked_row now reason) rows in
      let s' = if is_open_of user_id none s then revoked_row now reason s else s in
      ground (
        arith,
        count-and_some (has_id id) is_open rows' {a = s'} f' (omega (arith, u, u')),
        o,
        eq_iff s.user_id user_id,
      )

  logout_of-IsClosed :
      (now : ℕ) (all : Bool) (reason id user_id : String) (rows : List (Session M)) (s : Session M)
      → HasOneRow id rows
      → find_by_id id rows ≡ some s
      → s.user_id ≡ user_id
      → IsClosed id (logout_of now all reason id user_id rows).0
  unfolding logout_of
  logout_of-IsClosed now true reason id user_id rows s u f o =
      revoked_all-IsClosed now id user_id reason rows s u f o
  logout_of-IsClosed now false reason id user_id rows s u f o =
      revoke_session-IsClosed now id reason rows

  logout-IsClosed :
      (verify_secret : String → String → Bool) (kept : Bool) (now : ℕ) (user_id : String)
      (all : Bool) (reason : String) (token : Option PresentedToken) (id secret : String)
      (rows : List (Session M)) (entries : List BlacklistEntry)
      → HasOneRow id rows
      → is_ok
          (logout_parts verify_secret kept now user_id all reason token
            (some (id, secret))
            (rows, entries)).1
        ≡ true
      → IsClosed id
          (logout_parts verify_secret kept now user_id all reason token
            (some (id, secret))
            (rows, entries)).0.0
  unfolding logout_parts
  logout-IsClosed verify_secret kept now user_id all reason token id secret rows entries u h =
      let rows' = (validate_session now id rows).0 in
      elim (Option-cases (validate_session now id rows).1) [
        | inl e ↦ absurd (ground (arith, e, h))
        | inr (s, e) ↦ elim (Bool-cases (s.user_id == user_id)) [
          | inr o ↦ absurd (ground (arith, e, h, o))
          | inl o ↦ elim (Bool-cases (verify_secret secret s.refresh_token_hash)) [
            | inr v ↦ absurd (ground (arith, e, h, o, v))
            | inl v ↦ ground (
              arith,
              e,
              o,
              v,
              logout_of-IsClosed now all reason id user_id rows' s
                  (validate-HasOneRow now id rows u) (validated_row now id rows s e)
                  ((eq_iff s.user_id user_id).0 o),
            )
          ]
        ]
      ]

  -- A logout that succeeds, of one session or of all, with an access token or without one, where the
  -- session id has at most one row and goes to no new session, and no cached status was stored later
  -- than the logout: whatever statements and checks of access tokens come afterwards, every later
  -- refresh with that session id is refused. So is every access token of that session: from then on
  -- where the logout drops the cached statuses, and from 30 s after it where it does not. (A check
  -- loads and stores a status at once.)
  pub logout_ends :
      (config : SessionsConfig) (reads : List (Session M) → CachedReads M)
      (verify_secret : String → String → Bool) (kept : Bool) (seen : String → Option Account)
      (fresh : Token) (now later again : ℕ) (user_id : String) (all : Bool) (reason : String)
      (token : Option PresentedToken) (successor : M → M) (id secret secret' : String)
      (rows : List (Session M)) (listed entries : List BlacklistEntry) (dropped : Bool)
      (cache : AccessCache) (cs : List (AccessStep M)) (accounts : List Account)
      (token_hash : String) (payload : AccessTokenPayload)
      → HasOneRow id rows
      → is_ok
          (logout_parts verify_secret kept now user_id all reason token
            (some (id, secret))
            (rows, listed)).1
        ≡ true
      → IsStored now cache
      → All (IsFreshStep id) cs
      → payload.sid ≡ some id
      → stale_until dropped now ≤ later
      → let ended =
          (logout_parts verify_secret kept now user_id all reason token
            (some (id, secret))
            (rows, listed)).0.0 in
        let (rows', cache') = run_steps cs (ended, invalidated dropped cache) in
        (is_ok
            (refresh_parts config reads verify_secret seen fresh again successor
              (some (id, secret'))
              rows').1
          ≡ false)
        × (is_ok (
              validate_access later entries
                (cached_status later rows' cache')
                accounts
                token_hash
                payload)
            ≡ false)
  logout_ends config reads verify_secret kept seen fresh now later again user_id all reason token
        successor id secret secret' rows listed entries dropped cache cs accounts token_hash payload
        u h k f p l =
      let out =
        logout_parts verify_secret kept now user_id all reason token (some (id, secret))
          (rows, listed) in
      closed_ends config reads verify_secret seen fresh now later again successor id secret' out.0.0
        dropped cache cs entries accounts token_hash payload
        (logout-IsClosed verify_secret kept now user_id all reason token id secret rows listed u h)
        k f p l
