-- ===== src/Sessions/Rotation.antt =====
-- src/modules/auth/services/sessions.service.ts: what a session that has ended can still be used for.
use kuybi.Prelude.Table.Untouched.{modify_untouched}
use kuybi.Sessions.Statements.{
  IsClosed, Statement, apply-IsClosed, IsFresh, add, revoke_session-IsClosed, revoke, run,
  run-IsClosed, apply,
}
use kuybi.Sessions.{revoke_session, Session, is_open_id, revoked_row, insert}
use kuybi.Prelude.{
  List, true, false, ℕ, String, Option, ◌≡◌, some, arith, none, refl, ◌∷◌, ◌≢◌, All, take, length,
  [],
}
use kuybi.Sessions.Service.{
  refresh_with, SessionsConfig, CachedReads, Token, revoke_each, create_session, make_room,
  CreateSessionOptions, rotated, new_session, excess_end, oldest_first,
}
use kuybi.Prelude.Method.{is_ok}

module _ {M : Type 0} where
  refresh_closed :
      (config : SessionsConfig) (reads : List (Session M) → CachedReads M) (token : Token) (now : ℕ)
      (successor : M → M) (id : String) (read : Option (Session M)) (rows : List (Session M))
      → IsClosed id rows
      → (refresh_with config reads token now successor id read rows).0 ≡ rows
  unfolding refresh_with revoke_session
  refresh_closed config reads token now successor id none rows h = refl
  refresh_closed config reads token now successor id (some s) rows h = ground (
    arith,
    h,
    modify_untouched (is_open_id id) (revoked_row now "refreshed") rows h,
    modify_untouched (is_open_id id) (revoked_row now "expired") rows h,
  )

  refresh_refused :
      (config : SessionsConfig) (reads : List (Session M) → CachedReads M) (token : Token) (now : ℕ)
      (successor : M → M) (id : String) (read : Option (Session M)) (rows : List (Session M))
      → IsClosed id rows
      → is_ok (refresh_with config reads token now successor id read rows).1 ≡ false
  unfolding refresh_with revoke_session
  refresh_refused config reads token now successor id none rows h = refl
  refresh_refused config reads token now successor id (some s) rows h = ground (arith, h)

  revoke_each-IsClosed :
      (now : ℕ) (reason id : String) (ss rows : List (Session M))
      → IsClosed id rows
      → IsClosed id (revoke_each now reason ss rows)
  unfolding revoke_each revoke_session apply
  revoke_each-IsClosed now reason id [] rows h = h
  revoke_each-IsClosed now reason id (s ∷ ss) rows h =
      revoke_each-IsClosed now reason id ss (revoke_session now s.id reason rows).0
        (apply-IsClosed id (revoke now s.id reason) rows tt h)

  pub create-IsClosed :
      (config : SessionsConfig) (reads : CachedReads M) (token : Token) (now : ℕ)
      (options : CreateSessionOptions M) (id : String) (rows : List (Session M))
      → token.token_id ≢ id
      → IsClosed id rows
      → IsClosed id (create_session config reads token now options rows).0
  unfolding create_session make_room insert apply
  create-IsClosed config reads token now options id rows f h =
      apply-IsClosed id (add (new_session config token now options))
        (make_room config reads now rows) f
        (ground (
          arith,
          h,
          revoke_each-IsClosed now "concurrent_limit_exceeded" id
              (take (excess_end (length reads.active_sessions) config.max_concurrent_sessions)
                (oldest_first reads.active_sessions))
              rows h,
        ))

  refreshed-IsClosed :
      (config : SessionsConfig) (reads : List (Session M) → CachedReads M) (token : Token) (now : ℕ)
      (successor : M → M) (id : String) (read : Option (Session M)) (rows : List (Session M))
      → is_ok (refresh_with config reads token now successor id read rows).1 ≡ true
      → token.token_id ≢ id
      → IsClosed id (refresh_with config reads token now successor id read rows).0
  unfolding refresh_with
  refreshed-IsClosed config reads token now successor id none rows h n = absurd (ground (arith, h))
  refreshed-IsClosed config reads token now successor id (some s) rows h n =
      let gone = revoke_session now id "refreshed" rows in
      ground (
        arith,
        h,
        create-IsClosed config (reads gone.0) token now (rotated successor s) id gone.0 n
            (revoke_session-IsClosed now id "refreshed" rows),
      )

  -- A refresh that gives a new session, the random id of the new session being another one: whatever
  -- statements run afterwards, any later refresh with the old id is refused and changes no row,
  -- whatever row it had read, also when it had read it before the first refresh.
  pub refreshes_once :
      (config : SessionsConfig) (reads reads' : List (Session M) → CachedReads M)
      (token token' : Token) (now later : ℕ) (successor : M → M) (id : String)
      (read read' : Option (Session M)) (rows : List (Session M)) (cs : List (Statement M))
      → is_ok (refresh_with config reads token now successor id read rows).1 ≡ true
      → token.token_id ≢ id
      → All (IsFresh id) cs
      → let rows' = run cs (refresh_with config reads token now successor id read rows).0 in
        ((refresh_with config reads' token' later successor id read' rows').0 ≡ rows')
        × (is_ok (refresh_with config reads' token' later successor id read' rows').1 ≡ false)
  refreshes_once config reads reads' token token' now later successor id read read' rows cs ok' n
        f =
      let first = refresh_with config reads token now successor id read rows in
      let closed =
        run-IsClosed id cs first.0 f
          (refreshed-IsClosed config reads token now successor id read rows ok' n) in
      (
        refresh_closed config reads' token' later successor id read' (run cs first.0) closed,
        refresh_refused config reads' token' later successor id read' (run cs first.0) closed,
      )
