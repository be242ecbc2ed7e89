-- ===== src/Auth/Ended.antt =====
-- src/modules/auth/services/auth.service.ts: what presenting a refresh token ends.
use kuybi.Sessions.AccessCache.{
  AccessCache, IsSettled, AccessStep, cached_status, IsStored, IsFreshStep, stale_until, run_steps,
  invalidated,
}
use kuybi.Sessions.Access.{
  closed_unusable, settled_unusable, run_steps-IsSettled, invalidated-IsSettled,
}
use kuybi.Sessions.Rotation.{create-IsClosed}
use kuybi.Sessions.Statements.{IsClosed, revoke_session-IsClosed}
use kuybi.Prelude.Method.{Result, err, ok, is_ok}
use kuybi.Prelude.Table.{count, find, count-and_none, count-and_some, count-modify, find_sound}
use kuybi.Auth.{Account, AccessTokenPayload}
use kuybi.Sessions.Service.{
  refresh_with, refresh_session, SessionsConfig, CachedReads, Token, RefreshError, rotated,
}
use kuybi.Prelude.{
  String, List, Option, ℕ, ◌≡◌, none, Bool, Option-cases, some, ◌≢◌, ◌≤◌, inl, Bool-cases, false,
  arith, refl, inr, eq_iff, All,
}
use kuybi.Sessions.{
  find_by_id, validate_session, revoke_session, Session, touch, is_open_id, revoked_row,
  touched_row, has_id, is_open, validate_found,
}
use kuybi.Auth.Tokens.{
  rotated_token, refresh_parts, refresh_session_of, user_refusal, validate_access, BlacklistEntry,
}

module _ {M : Type 0} where
  abbrev pub HasOneRow : String → List (Session M) → Type 0
  HasOneRow id rows = count (has_id id) rows ≤ 1

  IsClosed-row :
      (id : String) (rows : List (Session M)) (s : Session M)
      → HasOneRow id rows
      → find_by_id id rows ≡ some s
      → is_open s ≡ false
      → IsClosed id rows
  unfolding find_by_id
  IsClosed-row id rows s u f h = ground (arith, h, count-and_some (has_id id) is_open rows f u)

  IsClosed-missing :
      (id : String) (rows : List (Session M)) → find_by_id id rows ≡ none → IsClosed id rows
  unfolding find_by_id
  IsClosed-missing id rows f = count-and_none (has_id id) is_open rows f

  refresh_read-IsClosed :
      (config : SessionsConfig) (reads : List (Session M) → CachedReads M) (token : Token) (now : ℕ)
      (successor : M → M) (id : String) (s : Session M) (rows : List (Session M))
      → HasOneRow id rows
      → find_by_id id rows ≡ some s
      → token.token_id ≢ id
      → IsClosed id (refresh_with config reads token now successor id (some s) rows).0
  unfolding refresh_with
  refresh_read-IsClosed config reads token now successor id s rows u f n =
      let gone = revoke_session now id "refreshed" rows in
      let closed = revoke_session-IsClosed now id "refreshed" rows in
      elim (Bool-cases s.is_active) [
        | inr off ↦ ground (arith, off, IsClosed-row id rows s u f (ground (arith, off)))
        | inl live ↦ ground (
          arith,
          live,
          closed,
          revoke_session-IsClosed now id "expired" rows,
          create-IsClosed config (reads gone.0) token now (rotated successor s) id gone.0 n closed,
        )
      ]

  refresh-IsClosed :
      (config : SessionsConfig) (reads : List (Session M) → CachedReads M) (token : Token) (now : ℕ)
      (successor : M → M) (id : String) (rows : List (Session M))
      → HasOneRow id rows
      → token.token_id ≢ id
      → IsClosed id (refresh_session config reads token now successor id rows).0
  unfolding refresh_session
  refresh-IsClosed config reads token now successor id rows u n =
      elim (Option-cases (find_by_id id rows)) [
        | inl e ↦ unfold refresh_with in ground (arith, e, IsClosed-missing id rows e)
        | inr (s, e) ↦
            ground
              (arith, e, refresh_read-IsClosed config reads token now successor id s rows u e n)
      ]

  rotated-rows :
      (user : Option Account) (r : List (Session M) × Result RefreshError (Session M))
      → (rotated_token user r).0 ≡ r.0
  unfolding rotated_token
  rotated-rows none (rows, r) = refl
  rotated-rows (some user) (rows, err e) = refl
  rotated-rows (some user) (rows, ok t) = refl

  refresh_of-IsClosed :
      (config : SessionsConfig) (reads : List (Session M) → CachedReads M)
      (verify_secret : String → String → Bool) (seen : String → Option Account) (token : Token)
      (now : ℕ) (successor : M → M) (id secret : String) (s : Session M) (rows : List (Session M))
      → HasOneRow id rows
      → token.token_id ≢ id
      → IsClosed id
          (refresh_session_of config reads verify_secret seen token now successor id secret s
            rows).0
  unfolding refresh_session_of
  refresh_of-IsClosed config reads verify_secret seen token now successor id secret s rows u n =
      elim (Bool-cases (verify_secret secret s.refresh_token_hash)) [
        | inr e ↦ ground (arith, e, revoke_session-IsClosed now id "invalid_token_secret" rows)
        | inl e ↦ elim (Option-cases (user_refusal s (seen s.user_id))) [
          | inl f ↦ ground (
            arith,
            e,
            f,
            refresh-IsClosed config reads token now successor id rows u n,
            rotated-rows (seen s.user_id)
                (refresh_session config reads token now successor id rows),
          )
          | inr ((reason, x), f) ↦ ground (arith, e, f, revoke_session-IsClosed now id reason rows)
        ]
      ]

  pub validate-HasOneRow :
      (now : ℕ) (id : String) (rows : List (Session M))
      → HasOneRow id rows
      → HasOneRow id (validate_session now id rows).0
  unfolding validate_session validate_found revoke_session touch
  validate-HasOneRow now id rows u = elim (Option-cases (find_by_id id rows)) [
    | inl e ↦ ground (arith, e, u)
    | inr (s, e) ↦ ground (
      arith,
      e,
      u,
      count-modify (has_id id) (is_open_id s.id) (revoked_row now "expired") rows (λ x h. refl),
      count-modify (has_id id) (has_id s.id) (touched_row now) rows (λ x h. refl),
    )
  ]

  validate_none-IsClosed :
      (now : ℕ) (id : String) (rows : List (Session M))
      → HasOneRow id rows
      → (validate_session now id rows).1 ≡ none
      → IsClosed id (validate_session now id rows).0
  unfolding validate_session validate_found find_by_id
  validate_none-IsClosed now id rows u h = elim (Option-cases (find (has_id id) rows)) [
    | inl e ↦ ground (arith, e, IsClosed-missing id rows e)
    | inr (s, e) ↦ elim (Bool-cases (is_open s)) [
      | inr off ↦ ground (arith, e, off, IsClosed-row id rows s u e off)
      | inl live ↦ ground (
        arith,
        e,
        live,
        h,
        find_sound (has_id id) rows e,
        eq_iff s.id id,
        revoke_session-IsClosed now s.id "expired" rows,
      )
    ]
  ]

  presented-IsClosed :
      (config : SessionsConfig) (reads : List (Session M) → CachedReads M)
      (verify_secret : String → String → Bool) (seen : String → Option Account) (token : Token)
      (now : ℕ) (successor : M → M) (id secret : String) (rows : List (Session M))
      → HasOneRow id rows
      → token.token_id ≢ id
      → IsClosed id
          (refresh_parts config reads verify_secret seen token now successor
            (some (id, secret))
            rows).0
  unfolding refresh_parts
  presented-IsClosed config reads verify_secret seen token now successor id secret rows u n =
      let rows' = (validate_session now id rows).0 in
      elim (Option-cases (validate_session now id rows).1) [
        | inl e ↦ ground (arith, e, validate_none-IsClosed now id rows u e)
        | inr (s, e) ↦ ground (
          arith,
          e,
          refresh_of-IsClosed config reads verify_secret seen token now successor id secret s rows'
              (validate-HasOneRow now id rows u) n,
        )
      ]

  pub closed_refused :
      (config : SessionsConfig) (reads : List (Session M) → CachedReads M)
      (verify_secret : String → String → Bool) (seen : String → Option Account) (token : Token)
      (now : ℕ) (successor : M → M) (id secret : String) (rows : List (Session M))
      → IsClosed id rows
      → is_ok
          (refresh_parts config reads verify_secret seen token now successor
            (some (id, secret))
            rows).1
        ≡ false
  unfolding refresh_parts
  closed_refused config reads verify_secret seen token now successor id secret rows h =
      let (x, e) = closed_unusable id "" now rows h in ground (arith, e)

  pub closed_no_access :
      (t now : ℕ) (entries : List BlacklistEntry) (accounts : List Account) (token_hash id : String)
      (payload : AccessTokenPayload) (rows : List (Session M)) (cache : AccessCache)
      → payload.sid ≡ some id
      → IsClosed id rows
      → IsSettled id t cache
      → t ≤ now
      → is_ok
          (validate_access now entries (cached_status now rows cache) accounts token_hash payload)
        ≡ false
  unfolding validate_access
  closed_no_access t now entries accounts token_hash id payload rows cache p c h l =
      ground (arith, p, settled_unusable id payload.sub t now rows cache c h l)

  -- Where a session is closed by a call at `now`, and the statuses were stored by then.
  pub closed_ends :
      (config : SessionsConfig) (reads : List (Session M) → CachedReads M)
      (verify_secret : String → String → Bool) (seen : String → Option Account) (token : Token)
      (now later again : ℕ) (successor : M → M) (id secret : String) (rows : List (Session M))
      (dropped : Bool) (cache : AccessCache) (cs : List (AccessStep M))
      (entries : List BlacklistEntry) (accounts : List Account) (token_hash : String)
      (payload : AccessTokenPayload)
      → IsClosed id rows
      → IsStored now cache
      → All (IsFreshStep id) cs
      → payload.sid ≡ some id
      → stale_until dropped now ≤ later
      → let (rows', cache') = run_steps cs (rows, invalidated dropped cache) in
        (is_ok
            (refresh_parts config reads verify_secret seen token again successor
              (some (id, secret))
              rows').1
          ≡ false)
        × (is_ok (
              validate_access later entries
                (cached_status later rows' cache')
                accounts
                token_hash
                payload)
            ≡ false)
  closed_ends config reads verify_secret seen token now later again successor id secret rows dropped
        cache cs entries accounts token_hash payload c k f p l =
      let (rows', cache') = run_steps cs (rows, invalidated dropped cache) in
      let (c', h) =
        run_steps-IsSettled id (stale_until dropped now) cs rows (invalidated dropped cache) f c
          (invalidated-IsSettled id now dropped cache k) in
      (
        closed_refused config reads verify_secret seen token again successor id secret rows' c',
        closed_no_access (stale_until dropped now) later entries accounts token_hash id payload
            rows' cache' p c' h l,
      )

  -- A refresh with a token of the two-part form, however it ends (rotated, wrong secret, inactive
  -- user, outdated credentials, expired, unknown session), where the session id has at most one row
  -- and goes to no new session, and no cached status was stored later than the call: whatever
  -- statements and checks of access tokens come afterwards, every later refresh with that session id is
  -- refused, whatever its secret. So is every access token of that session: from then on where the
  -- call drops the cached statuses, and from 30 s after it where it does not. (A check loads and
  -- stores a status at once.)
  pub presented_token_ends :
      (config : SessionsConfig) (reads reads' : List (Session M) → CachedReads M)
      (verify_secret : String → String → Bool) (seen seen' : String → Option Account)
      (token token' : Token) (now later again : ℕ) (successor : M → M) (id secret secret' : String)
      (rows : List (Session M)) (dropped : Bool) (cache : AccessCache) (cs : List (AccessStep M))
      (entries : List BlacklistEntry) (accounts : List Account) (token_hash : String)
      (payload : AccessTokenPayload)
      → HasOneRow id rows
      → token.token_id ≢ id
      → IsStored now cache
      → All (IsFreshStep id) cs
      → payload.sid ≡ some id
      → stale_until dropped now ≤ later
      → let first =
          refresh_parts config reads verify_secret seen token now successor
            (some (id, secret))
            rows in
        let (rows', cache') = run_steps cs (first.0, invalidated dropped cache) in
        (is_ok
            (refresh_parts config reads' verify_secret seen' token' again successor
              (some (id, secret'))
              rows').1
          ≡ false)
        × (is_ok (
              validate_access later entries
                (cached_status later rows' cache')
                accounts
                token_hash
                payload)
            ≡ false)
  presented_token_ends config reads reads' verify_secret seen seen' token token' now later again
        successor id secret secret' rows dropped cache cs entries accounts token_hash payload u n k
        f p l =
      let first =
        refresh_parts config reads verify_secret seen token now successor (some (id, secret))
          rows in
      closed_ends config reads' verify_secret seen' token' now later again successor id secret'
        first.0 dropped cache cs entries accounts token_hash payload
        (presented-IsClosed config reads verify_secret seen token now successor id secret rows u n)
        k f p l
