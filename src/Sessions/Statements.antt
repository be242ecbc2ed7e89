-- ===== src/Sessions/Statements.antt =====
-- src/modules/auth/repositories/session.repository.ts: the statements that requests and the cleanup
-- job send to the table sessions, interleaved in any order.
use kuybi.Prelude.Table.{count, count-modify_zero, count-modify_le, count-remove_le, count-modify}
use kuybi.Prelude.{List, ℕ, String, ◌≢◌, Option, ◌∷◌, All, arith, [], ◌≡◌, ◌-◌, ◌*◌, eq_iff, refl}
use kuybi.Sessions.{
  revoke_session, Session, revoke_all_user_sessions, cleanup_expired, is_open_id, update_expiry,
  revoked_row, touch, is_open_of, insert, is_over, day_ms, has_id, extended_row, touched_row,
}

pub data Statement (M : Type 0) : Type 0 where
  revoke : ℕ → String → String → Statement M
  revoke_all : ℕ → String → Option String → String → Statement M
  cleanup : ℕ → ℕ → Statement M
  set_expiry : String → ℕ → Statement M
  set_activity : String → ℕ → Statement M
  add : Session M → Statement M

module _ {M : Type 0} where
  unfoldable pub apply : Statement M → List (Session M) → List (Session M)
  apply (revoke now id reason) rows = (revoke_session now id reason rows).0
  apply (revoke_all now user_id exclude reason) rows =
      (revoke_all_user_sessions now user_id exclude reason rows).0
  apply (cleanup now days) rows = (cleanup_expired now days rows).0
  apply (set_expiry id t) rows = update_expiry id t rows
  apply (set_activity id t) rows = touch id t rows
  apply (add s) rows = insert s rows

  unfoldable pub run : List (Statement M) → List (Session M) → List (Session M)
  run [] rows = rows
  run (c ∷ cs) rows = run cs (apply c rows)

  -- The id of a new session is a uuid that was not drawn before.
  abbrev pub IsFresh : String → Statement M → Type 0
  IsFresh id (add s) = s.id ≢ id
  IsFresh id _ = Unit

  -- No row with this id is open.
  abbrev pub IsClosed : String → List (Session M) → Type 0
  IsClosed id rows = count (is_open_id id) rows ≡ 0

  pub apply-IsClosed :
      (id : String) (c : Statement M) (rows : List (Session M))
      → IsFresh id c
      → IsClosed id rows
      → IsClosed id (apply c rows)
  unfolding apply
  apply-IsClosed id (revoke now i reason) rows f h =
      unfold revoke_session in
      omega (
        arith,
        h,
        count-modify_le (is_open_id id) (is_open_id i) (revoked_row now reason) rows
            (λ x e k. ground (arith, e, k)),
      )
  apply-IsClosed id (revoke_all now u x reason) rows f h =
      unfold revoke_all_user_sessions in
      omega (
        arith,
        h,
        count-modify_le (is_open_id id) (is_open_of u x) (revoked_row now reason) rows
            (λ x e k. ground (arith, e, k)),
      )
  apply-IsClosed id (cleanup now days) rows f h =
      unfold cleanup_expired in
      omega (arith, h, count-remove_le (is_open_id id) (is_over (now - days * day_ms)) rows)
  apply-IsClosed id (set_expiry i t) rows f h =
      unfold update_expiry in
      omega (arith, h, count-modify (is_open_id id) (has_id i) (extended_row t) rows (λ x e. refl))
  apply-IsClosed id (set_activity i t) rows f h =
      unfold touch in
      omega (arith, h, count-modify (is_open_id id) (has_id i) (touched_row t) rows (λ x e. refl))
  apply-IsClosed id (add s) rows f h =
      unfold insert in unfold count in ground (arith, h, f, eq_iff s.id id)

  -- A closed session is never open again.
  pub run-IsClosed :
      (id : String) (cs : List (Statement M)) (rows : List (Session M))
      → All (IsFresh id) cs
      → IsClosed id rows
      → IsClosed id (run cs rows)
  unfolding run
  run-IsClosed id [] rows f h = h
  run-IsClosed id (c ∷ cs) rows (f, fs) h =
      run-IsClosed id cs (apply c rows) fs (apply-IsClosed id c rows f h)

  pub revoke_session-IsClosed :
      (now : ℕ) (id reason : String) (rows : List (Session M))
      → IsClosed id (revoke_session now id reason rows).0
  unfolding revoke_session
  revoke_session-IsClosed now id reason rows =
      count-modify_zero (is_open_id id) (is_open_id id) (revoked_row now reason) rows
        (λ x e. ground arith) (λ x e. e)
