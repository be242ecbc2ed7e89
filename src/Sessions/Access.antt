-- ===== src/Sessions/Access.antt =====
-- src/modules/auth/repositories/session.repository.ts: which sessions may be used, and what revoking
-- and extending them does to that.
use kuybi.Sessions.AccessCache.{
  cached_status, run_steps, access_step, AccessCache, check_access, status_of, entry_of, IsStored,
  IsSettled, AccessStep, stale_until, IsBy, IsFreshStep, invalidated, writes, checks, no_entries,
}
use kuybi.Sessions.Statements.{IsClosed, revoke_session-IsClosed, apply, apply-IsClosed, revoke}
use kuybi.Sessions.Service.{extend_session, max_extended_days}
use kuybi.Sessions.{
  access_status, update_expiry, is_usable_for_access, validate_session, find_by_id, validate_found,
  Session, session_state, has_id, is_open, active, revoke_session, extended_row, day_ms,
}
use kuybi.Prelude.Table.{find, count, find-modify_found, find-modify_other}
use kuybi.Prelude.{
  ℕ, String, List, ◌≡◌, false, some, All, ◌≤◌, is_some, none, ◌+◌, arith, Option-cases, ◌↔◌, ◌∷◌,
  ◌*◌, inl, true, Bool-cases, inr, [], ◌≢◌, eq_iff, min, ◌∙◌, refl, Bool,
}

pub invalidated-IsSettled :
    (id : String) (now : ℕ) (dropped : Bool) (cache : AccessCache)
    → IsStored now cache
    → IsSettled id (stale_until dropped now) (invalidated dropped cache)
invalidated-IsSettled id now true cache h u = refl
invalidated-IsSettled id now false cache h u = ground (arith, h id u)

module _ {M : Type 0} where
  IsClosed-row :
      (id : String) (rows : List (Session M)) (s : Session M)
      → find (has_id id) rows ≡ some s
      → IsClosed id rows
      → is_open s ≡ false
  unfolding find count
  IsClosed-row id [] s e h = absurd (ground (arith, e))
  IsClosed-row id (x ∷ rows) s e h = elim (Bool-cases (has_id id x)) [
    | inl t ↦ ground (arith, e, h, t)
    | inr n ↦ IsClosed-row id rows s (ground (arith, e, n)) (ground (arith, h, n))
  ]

  pub closed_unusable :
      (id user_id : String) (now : ℕ) (rows : List (Session M))
      → IsClosed id rows
      → (is_usable_for_access now (access_status id user_id rows) ≡ false)
        × ((validate_session now id rows).1 ≡ none)
  unfolding access_status is_usable_for_access validate_session validate_found find_by_id
  closed_unusable id user_id now rows h = elim (Option-cases (find (has_id id) rows)) [
    | inl e ↦ (ground (arith, e), ground (arith, e))
    | inr (s, e) ↦
        let shut = IsClosed-row id rows s e h in (ground (arith, e, shut), ground (arith, e, shut))
  ]

  closed_status :
      (id user_id : String) (rows : List (Session M))
      → IsClosed id rows
      → (access_status id user_id rows).usable ≡ false
  unfolding access_status find_by_id
  closed_status id user_id rows h = elim (Option-cases (find (has_id id) rows)) [
    | inl e ↦ ground (arith, e)
    | inr (s, e) ↦ ground (arith, e, IsClosed-row id rows s e h)
  ]

  pub run_steps-IsStored :
      (t : ℕ) (cs : List (AccessStep M)) (rows : List (Session M)) (cache : AccessCache)
      → All (IsBy t) cs
      → IsStored t cache
      → IsStored t (run_steps cs (rows, cache)).1
  unfolding run_steps access_step check_access entry_of
  run_steps-IsStored t [] rows cache b h = h
  run_steps-IsStored t (writes dropped c ∷ cs) rows cache (b, bs) h =
      run_steps-IsStored t cs (apply c rows) (invalidated dropped cache) bs
        (λ i u. ground (arith, h i u))
  run_steps-IsStored t (checks now id user_id ∷ cs) rows cache (b, bs) h =
      run_steps-IsStored t cs rows (check_access now id user_id (rows, cache)).0 bs
        (λ i u. ground (arith, b, h i u, h id user_id))

  pub run_steps-IsSettled :
      (id : String) (t : ℕ) (cs : List (AccessStep M)) (rows : List (Session M))
      (cache : AccessCache)
      → All (IsFreshStep id) cs
      → IsClosed id rows
      → IsSettled id t cache
      → IsClosed id (run_steps cs (rows, cache)).0 × IsSettled id t (run_steps cs (rows, cache)).1
  unfolding run_steps access_step check_access entry_of
  run_steps-IsSettled id t [] rows cache f c h = (c, h)
  run_steps-IsSettled id t (writes dropped w ∷ cs) rows cache (f, fs) c h =
      run_steps-IsSettled id t cs (apply w rows) (invalidated dropped cache) fs
        (apply-IsClosed id w rows f c) (λ u. ground (arith, h u))
  run_steps-IsSettled id t (checks now i user_id ∷ cs) rows cache (f, fs) c h =
      run_steps-IsSettled id t cs rows (check_access now i user_id (rows, cache)).0 fs c (λ u.
        ground
          (arith, h u, h user_id, closed_status id user_id rows c, eq_iff id i, eq_iff u user_id))

  pub settled_unusable :
      (id user_id : String) (t now : ℕ) (rows : List (Session M)) (cache : AccessCache)
      → IsClosed id rows
      → IsSettled id t cache
      → t ≤ now
      → is_usable_for_access now (cached_status now rows cache id user_id) ≡ false
  unfolding cached_status status_of is_usable_for_access
  settled_unusable id user_id t now rows cache c h l = elim (Option-cases (cache id user_id)) [
    | inl e ↦ ground (arith, e, closed_status id user_id rows c)
    | inr (x, e) ↦ ground (arith, e, h user_id, l, closed_status id user_id rows c)
  ]

  -- A session is revoked after any writes and checks of access tokens, no check later than that, and
  -- with any of both afterwards, its id being given to no new session. Its validation finds no session
  -- at any time. No user's access token can be used with it from then on where the revocation drops
  -- the cached statuses, and from 30 s after it where the cache takes no notice of the revocation.
  -- (A check loads and stores a status at once.)
  pub revoked_stays_out :
      (now later any_time : ℕ) (id user_id reason : String) (rows : List (Session M))
      (before after : List (AccessStep M)) (dropped : Bool)
      → All (IsBy now) before
      → All (IsFreshStep id) after
      → stale_until dropped now ≤ later
      → let (rows', cache') = run_steps after (
          access_step
            (writes dropped (revoke now id reason))
            (run_steps before (rows, no_entries))) in
        (is_usable_for_access later (cached_status later rows' cache' id user_id) ≡ false)
        × ((validate_session any_time id rows').1 ≡ none)
  unfolding access_step apply
  revoked_stays_out now later any_time id user_id reason rows before after dropped b f l =
      let (rows', cache') = run_steps before (rows, no_entries) in
      let (c, h) =
        run_steps-IsSettled id (stale_until dropped now) after
          (revoke_session now id reason rows').0 (invalidated dropped cache') f
          (revoke_session-IsClosed now id reason rows')
          (invalidated-IsSettled id now dropped cache'
            (run_steps-IsStored now before rows no_entries b (λ i u. refl))) in
      let (rows'', cache'') =
        run_steps after ((revoke_session now id reason rows').0, invalidated dropped cache') in
      (
        settled_unusable id user_id (stale_until dropped now) later rows'' cache'' c h l,
        (closed_unusable id user_id any_time rows'' c).1,
      )

  -- At a time that all its readings share, the check of an access token's session for its owner,
  -- the validation of the session and its listed state agree: a session is found by the validation
  -- exactly when it is usable, and exactly when its state is `active`.
  pub checks_agree :
      (now : ℕ) (id : String) (rows : List (Session M)) (s : Session M)
      → find_by_id id rows ≡ some s
      → (is_usable_for_access now (access_status id s.user_id rows)
          ≡ is_some (validate_session now id rows).1)
        × ((session_state now s ≡ active) ↔ (is_some (validate_session now id rows).1 ≡ true))
  unfolding access_status is_usable_for_access validate_session validate_found session_state
  checks_agree now id rows s f = (
    ground (arith, f, eq_iff s.user_id s.user_id),
    (λ h. ground (arith, f, h), λ h. ground (arith, f, h)),
  )

  -- Extending a session: the expiry that is returned is at most 30 days from now, is never past the
  -- old expiry by more than the days asked for, and is the one stored with the row, all else of which
  -- stands; no other id's row changes.
  pub extension_bound :
      (now days : ℕ) (rows : List (Session M)) (s : Session M) (id : String)
      → find_by_id s.id rows ≡ some s
      → id ≢ s.id
      → let (rows', t) = extend_session now s days rows in
        (t ≤ now + 30 * 86400000)
        × (t ≤ s.expires_at + days * 86400000)
        × (find_by_id s.id rows' ≡ some (extended_row t s))
        × (find_by_id id rows' ≡ find_by_id id rows)
  unfolding extend_session update_expiry find_by_id
  extension_bound now days rows s id f n =
      let t = min (s.expires_at + days * day_ms) (now + max_extended_days * day_ms) in
      (
        omega arith,
        omega arith,
        find-modify_found (has_id s.id) (has_id s.id) (extended_row t) rows (λ x e. refl) f
            ∙ ground (arith, eq_iff s.id s.id),
        find-modify_other (has_id id) (has_id s.id) (extended_row t) rows
            (λ x e. ground (arith, e, eq_iff x.id s.id, eq_iff x.id id))
            (λ x e. ground (arith, e, eq_iff x.id s.id, eq_iff x.id id)),
      )
