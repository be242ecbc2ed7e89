-- ===== src/Lockout/Holds.antt =====
-- src/modules/auth/services/account-lockout.service.ts: what the automatic operations cannot undo.
use mathlib.Core.Option
use kuybi.Prelude.{
  ℕ, ◌≤◌, String, ◌≡◌, refl, ap, ◌∙◌, Bool, true, false, ◌&&◌, some, List, arith, if◌then◌else◌,
  ◌∷◌, Option, none, [],
}
use kuybi.Prelude.Method.{Keeps, Keeps-runs, keeps_rules, Keeps-bind}
use kuybi.Users.{
  User, Lock, has_id, lock_ended, lockable, still_at, find_by_id, counted_row, forgiven_row,
  unlocked_row, locked_row, increment_failed_login_attempts, lock_if_unlocked, unlock_if_expired,
  reset_failed_attempts_if, update, update_where,
}
use kuybi.Users.Laws.{find-update_where, find-update}
use kuybi.Lockout.{
  AccountLockoutConfig, Effect, Clock, World, statement, emit, auto_unlock, unlock_found,
  unlock_each, unlock_account, lock_account, record_failed_attempt, is_account_locked,
  forget_failed_attempts, reset_failed_attempts, unlock_expired_accounts,
}

pub record SameLock (u v : User) : Type 0 where
  pub is_locked : v.is_locked ≡ u.is_locked
  pub locked_at : v.locked_at ≡ u.locked_at
  pub locked_until : v.locked_until ≡ u.locked_until
  pub lock_reason : v.lock_reason ≡ u.lock_reason

-- The row of `id` has the lock of `u`.
abbrev pub HasLock : String → User → List User → Type 0
HasLock id u users = (v : User) × (find_by_id id users ≡ some v) × SameLock u v

lock_ended_mono : (s t : ℕ) (u : User) → s ≤ t → lock_ended t u ≡ false → lock_ended s u ≡ false
lock_ended_mono s t u h e = ground arith

module _ (id : String) (u : User) (t : ℕ) (locked : u.is_locked ≡ true)
    (lasting : lock_ended t u ≡ false) where
  -- a statement that leaves the lock of such a row alone
  HasLock-update_where :
      (j : String) (cond : User → Bool) (f : User → User) (users : List User)
      → ((v : User) → (f v).id ≡ v.id)
      → ((v : User) → SameLock u v → cond v ≡ true → SameLock v (f v))
      → HasLock id u users
      → HasLock id u (update_where j cond f users).0
  HasLock-update_where j cond f users k same (v, found, s) = (
    if has_id j v && cond v then f v else v,
    find-update_where f k id j cond users ∙ ap (Option.map _) found,
    ground (arith, same v s, s),
  )

  HasLock-update :
      (j : String) (f : User → User) (users : List User)
      → ((v : User) → (f v).id ≡ v.id)
      → ((v : User) → SameLock v (f v))
      → HasLock id u users
      → HasLock id u (update j f users)
  HasLock-update j f users k same (v, found, s) = (
    if has_id j v then f v else v,
    find-update f k id j users ∙ ap (Option.map _) found,
    ground (arith, same v, s),
  )

  abbrev pub Holds : World → Type 0
  Holds w = HasLock id u w.users

  pub increment-Holds : (j : String) → Keeps Holds (statement (increment_failed_login_attempts j))
  unfolding increment_failed_login_attempts update
  increment-Holds j = Keeps-runs _ (λ w h.
      HasLock-update j counted_row w.users (λ v. refl)
        (λ v. record {
          is_locked = refl;
          locked_at = refl;
          locked_until = refl;
          lock_reason = refl;
        })
        h)

  pub lock-Holds : (j : String) (lock : Lock) → Keeps Holds (statement (lock_if_unlocked j lock))
  unfolding lock_if_unlocked
  lock-Holds j lock = Keeps-runs _ (λ w h.
      HasLock-update_where j lockable (locked_row lock) w.users (λ v. refl)
        (λ v s e. cc (s.is_locked, locked)) h)

  not_ended : (now : ℕ) (v : User) → now ≤ t → SameLock u v → lock_ended now v ≡ true → ⊥
  not_ended now v le s e =
      let same : lock_ended now v ≡ lock_ended now u =
        rw (s.is_locked, s.lock_reason, s.locked_until) refl in
      cc (lock_ended_mono now t u le lasting, same)

  pub unlock-Holds :
      (now : ℕ) (j : String) → now ≤ t → Keeps Holds (statement (unlock_if_expired now j))
  unfolding unlock_if_expired
  unlock-Holds now j le = Keeps-runs _ (λ w h.
      HasLock-update_where j (lock_ended now) unlocked_row w.users (λ v. refl)
        (λ v s e. absurd (not_ended now v le s e)) h)

  pub reset_if-Holds : (j : String) (n : ℕ) → Keeps Holds (statement (reset_failed_attempts_if j n))
  unfolding reset_failed_attempts_if
  reset_if-Holds j n = Keeps-runs _ (λ w h.
      HasLock-update_where j (still_at n) forgiven_row w.users (λ v. refl)
        (λ v s e. record {
          is_locked = refl;
          locked_at = refl;
          locked_until = refl;
          lock_reason = refl;
        })
        h)

  module _ (config : AccountLockoutConfig) (clock : Clock) (past : clock.db ≤ t) where
    pub emit-Holds : (e : Effect) → Keeps Holds (emit e)
    emit-Holds e = Keeps-runs _ (λ w h. h)

    unlock_found-Holds :
        (j : String) (v : User) → Keeps Holds (unlock_found config clock j auto_unlock v)
    unfolding unlock_found
    unlock_found-Holds j v =
        Keeps-bind (unlock-Holds clock.db j past)
          λ lifted. search (Keeps-bind, keeps_rules, emit-Holds) depth 8

    pub unlock_account-Holds :
        (j : String) → Keeps Holds (unlock_account config clock j auto_unlock)
    unfolding unlock_account
    unlock_account-Holds j = search (keeps_rules, unlock_found-Holds) depth 8

    pub lock_account-Holds : (j : String) (n : ℕ) → Keeps Holds (lock_account config clock j n)
    unfolding lock_account
    lock_account-Holds j n =
        search (keeps_rules, lock-Holds, unlock_account-Holds, emit-Holds) depth 12

    pub record_failed_attempt-Holds :
        (j : String) → Keeps Holds (record_failed_attempt config clock j)
    unfolding record_failed_attempt
    record_failed_attempt-Holds j =
        search (keeps_rules, increment-Holds, lock_account-Holds, emit-Holds)

    pub is_account_locked-Holds : (j : String) → Keeps Holds (is_account_locked config clock j)
    unfolding is_account_locked
    is_account_locked-Holds j = search (keeps_rules, unlock_account-Holds)

    pub forget_failed_attempts-Holds :
        (j : String) (n : Option ℕ) → Keeps Holds (forget_failed_attempts config j n)
    unfolding forget_failed_attempts
    forget_failed_attempts-Holds j none = search keeps_rules
    forget_failed_attempts-Holds j (some n) = reset_if-Holds j n

    pub reset_failed_attempts-Holds : (j : String) → Keeps Holds (reset_failed_attempts config j)
    unfolding reset_failed_attempts
    reset_failed_attempts-Holds j = Keeps-runs _ (λ w h.
        HasLock-update j forgiven_row w.users (λ v. refl)
          (λ v. record {
            is_locked = refl;
            locked_at = refl;
            locked_until = refl;
            lock_reason = refl;
          })
          h)

    unlock_each-Holds : (users : List User) (n : ℕ) → Keeps Holds (unlock_each config clock users n)
    unfolding unlock_each
    unlock_each-Holds [] n = search keeps_rules
    unlock_each-Holds (v ∷ users) n =
        Keeps-bind (unlock_account-Holds v.id) (λ lifted. unlock_each-Holds users _)

    pub unlock_expired_accounts-Holds : Keeps Holds (unlock_expired_accounts config clock)
    unfolding unlock_expired_accounts
    unlock_expired_accounts-Holds = search (keeps_rules, unlock_each-Holds)
