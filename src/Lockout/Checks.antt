-- ===== src/Lockout/Checks.antt =====
-- src/modules/auth/services/account-lockout.service.ts: what a login check answers, what a reset job
-- forgets, and concurrent locks.
use kuybi.Lockout.Attempts.{record_below, record-IsKey}
use kuybi.Users.Laws.{IsKey, update_where_found, update_where-affects}
use kuybi.Prelude.Method.{◌>>=◌, ok}
use kuybi.Prelude.Table.{count, modify}
use kuybi.Prelude.{
  Option, Bool, String, false, some, List, none, ◌≡◌, ◌∷◌, true, arith, Option-cases, [], inl,
  if◌then◌else◌, inr, Bool-cases, refl, ◌+◌, ◌<◌, ◌-◌,
}
use kuybi.Lockout.{
  AccountLockoutConfig, unlock_account, forget_failed_attempts, is_account_locked, Clock, World,
  auto_unlock, record_failed_attempt, get_account_lock_info, LockoutInfo, reset_failed_attempts,
}
use kuybi.Users.{
  lock_if_unlocked, User, unlock_if_expired, reset_failed_attempts_if, Lock, find_by_id, lock_ended,
  unlocked_row, counted_row, still_at, forgiven_row, is_before,
}

-- the lock as a fresh read shows it; a missing user is not locked
abbrev pub locked_now : Option User → Bool
locked_now none = false
locked_now (some u) = u.is_locked

module _ (config : AccountLockoutConfig) where
  pub check_free :
      (clock : Clock) (id : String) (w : World) {u : User}
      → find_by_id id w.users ≡ some u
      → u.is_locked ≡ false
      → is_account_locked config clock id w ≡ (ok false, w)
  unfolding is_account_locked ◌>>=◌
  check_free clock id w {u} found free = ground (arith, found, free)

  pub check_locked :
      (clock : Clock) (id : String) (w : World) {u : User}
      → find_by_id id w.users ≡ some u
      → u.is_locked ≡ true
      → is_before clock.app u.locked_until ≡ false
      → is_account_locked config clock id w ≡ (ok true, w)
  unfolding is_account_locked ◌>>=◌
  check_locked clock id w {u} found locked on = ground (arith, found, locked, on)

  pub info_keeps : (id : String) (w : World) → (get_account_lock_info config id w).1 ≡ w
  unfolding get_account_lock_info ◌>>=◌
  info_keeps id w = elim (Option-cases (find_by_id id w.users)) [
    | inl e ↦ ground (arith, e)
    | inr (u, e) ↦ ground (arith, e)
  ]

  abbrev pub info_of : User → LockoutInfo
  info_of user = record {
    is_locked = user.is_locked;
    failed_attempts = user.failed_login_attempts;
    max_attempts = config.max_attempts;
    locked_at = user.locked_at;
    locked_until = user.locked_until;
    lock_reason = user.lock_reason;
    remaining_attempts = config.max_attempts - user.failed_login_attempts;
  }

  pub info_found :
      (id : String) (w : World) {u : User}
      → find_by_id id w.users ≡ some u
      → get_account_lock_info config id w ≡ (ok (info_of u), w)
  unfolding get_account_lock_info ◌>>=◌
  info_found id w {u} found = ground (arith, found)

module _ (config : AccountLockoutConfig) where
  unlock_found_found :
      (clock : Clock) (id : String) (w : World) {u : User}
      → IsKey id w.users
      → find_by_id id w.users ≡ some u
      → u.is_locked ≡ true
      → ((unlock_account config clock id auto_unlock w).0 ≡ ok (lock_ended clock.db u))
        × (find_by_id id (unlock_account config clock id auto_unlock w).1.users
            ≡ some (if lock_ended clock.db u then unlocked_row u else u))
  unfolding unlock_account ◌>>=◌ unlock_if_expired
  unlock_found_found clock id w {u} key found locked = ground (
    arith,
    update_where_found id (lock_ended clock.db) unlocked_row w.users (λ v. refl) found,
    update_where-affects id (lock_ended clock.db) unlocked_row w.users key found,
  )

  -- What `isAccountLocked` answers is what the account's row says once it has answered, whether the
  -- user is missing, unlocked, locked, or unlocked on the way.
  pub check_agrees :
      (clock : Clock) (id : String) (w : World)
      → IsKey id w.users
      → (is_account_locked config clock id w).0
        ≡ ok (locked_now (find_by_id id (is_account_locked config clock id w).1.users))
  unfolding is_account_locked ◌>>=◌
  check_agrees clock id w key = elim (Option-cases (find_by_id id w.users)) [
    | inl missing ↦ ground (arith, missing)
    | inr (u, found) ↦ elim (Bool-cases u.is_locked) [
      | inl locked ↦ ground (arith, found, locked, unlock_found_found clock id w key found locked)
      | inr free ↦ ground (arith, found, free)
    ]
  ]

  -- A reset that was scheduled at some count of failed logins forgets nothing once another failed
  -- login has been counted (here: one that does not lock).
  pub quiet_period_restarts :
      (clock : Clock) (id : String) (w : World) (u : User)
      → config.enabled ≡ true
      → IsKey id w.users
      → find_by_id id w.users ≡ some u
      → u.failed_login_attempts + 1 < config.max_attempts
      → let w' = (record_failed_attempt config clock id w).1 in
        ((forget_failed_attempts config id (some u.failed_login_attempts) w').0 ≡ ok false)
        × (find_by_id id
              (forget_failed_attempts config id (some u.failed_login_attempts) w').1.users
            ≡ some (counted_row u))
  unfolding forget_failed_attempts ◌>>=◌ reset_failed_attempts_if
  quiet_period_restarts clock id w u on key found h =
      let w' = (record_failed_attempt config clock id w).1 in
      let counted = record_below config clock id w on found h in
      let key' = record-IsKey config clock id w found h key in
      (
        ground (
          arith,
          update_where-affects id (still_at u.failed_login_attempts) forgiven_row w'.users key'
              counted,
        ),
        ground (
          arith,
          update_where_found id (still_at u.failed_login_attempts) forgiven_row w'.users (λ v. refl)
              counted,
        ),
      )

-- Of two locks of an account, the one that comes second finds it locked: it changes no row and is
-- told so, whatever the first found.
pub locks_once :
    (id : String) (first second : Lock) (users : List User)
    → lock_if_unlocked id second (lock_if_unlocked id first users).0
      ≡ ((lock_if_unlocked id first users).0, false)
unfolding lock_if_unlocked count modify
locks_once id first second [] = refl
locks_once id first second (u ∷ users) = ground (arith, locks_once id first second users)

pub reset_returns :
    (config : AccountLockoutConfig) (id : String) (w : World)
    → (reset_failed_attempts config id w).0 ≡ ok tt
unfolding reset_failed_attempts ◌>>=◌
reset_returns config id w = refl
