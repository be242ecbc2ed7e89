-- ===== src/Lockout/Automatic.antt =====
-- src/modules/auth/services/account-lockout.service.ts: the operations that run with no admin, in any
-- order.
use kuybi.Prelude.{ℕ, ◌≤◌, String, ◌≡◌, true, false, List, ◌∷◌, Option, All, [], some, refl}
use kuybi.Lockout.Holds.{SameLock}
use kuybi.Users.{User, lock_ended}
use kuybi.Lockout.{
  AccountLockoutConfig, Clock, World, auto_unlock, unlock_account, record_failed_attempt,
  is_account_locked, forget_failed_attempts, reset_failed_attempts, unlock_expired_accounts,
  find_by_id,
}
use kuybi.Lockout.Holds.{
  HasLock, record_failed_attempt-Holds, reset_failed_attempts-Holds, is_account_locked-Holds,
  unlock_account-Holds, forget_failed_attempts-Holds, unlock_expired_accounts-Holds,
}

-- What runs with no admin: failed and successful logins, the checks at a login, the jobs and the
-- sweep, each with its own readings of the clocks.
pub data Automatic : Type 0 where
  failed_login successful_login login_check unlock_job_due : Clock → String → Automatic
  quiet_period : Clock → String → Option ℕ → Automatic
  sweep : Clock → Automatic

abbrev pub clock_of : Automatic → Clock
clock_of (failed_login c _) = c
clock_of (successful_login c _) = c
clock_of (login_check c _) = c
clock_of (unlock_job_due c _) = c
clock_of (quiet_period c _ _) = c
clock_of (sweep c) = c

pub run_automatic : AccountLockoutConfig → Automatic → World → World
run_automatic config (failed_login c id) w = (record_failed_attempt config c id w).1
run_automatic config (successful_login c id) w = (reset_failed_attempts config id w).1
run_automatic config (login_check c id) w = (is_account_locked config c id w).1
run_automatic config (unlock_job_due c id) w = (unlock_account config c id auto_unlock w).1
run_automatic config (quiet_period c id n) w = (forget_failed_attempts config id n w).1
run_automatic config (sweep c) w = (unlock_expired_accounts config c w).1

pub run_all : AccountLockoutConfig → List Automatic → World → World
unfolding run_automatic
run_all config [] w = w
run_all config (a ∷ rest) w = run_all config rest (run_automatic config a w)

module _ (config : AccountLockoutConfig) (id : String) (u : User) (t : ℕ)
    (locked : u.is_locked ≡ true) (lasting : lock_ended t u ≡ false) where
  run_automatic-HasLock :
      (a : Automatic) (w : World)
      → (clock_of a).db ≤ t
      → HasLock id u w.users
      → HasLock id u (run_automatic config a w).users
  unfolding run_automatic
  run_automatic-HasLock (failed_login c j) w p h =
      (record_failed_attempt-Holds id u t locked lasting config c p j).at w h
  run_automatic-HasLock (successful_login c j) w p h =
      (reset_failed_attempts-Holds id u t locked lasting config c p j).at w h
  run_automatic-HasLock (login_check c j) w p h =
      (is_account_locked-Holds id u t locked lasting config c p j).at w h
  run_automatic-HasLock (unlock_job_due c j) w p h =
      (unlock_account-Holds id u t locked lasting config c p j).at w h
  run_automatic-HasLock (quiet_period c j n) w p h =
      (forget_failed_attempts-Holds id u t locked lasting config c p j n).at w h
  run_automatic-HasLock (sweep c) w p h =
      (unlock_expired_accounts-Holds id u t locked lasting config c p).at w h

  run_all-HasLock :
      (actions : List Automatic) (w : World)
      → All (λ a. (clock_of a).db ≤ t) actions
      → HasLock id u w.users
      → HasLock id u (run_all config actions w).users
  unfolding run_all
  run_all-HasLock [] w p h = h
  run_all-HasLock (a ∷ rest) w (p, ps) h =
      run_all-HasLock rest (run_automatic config a w) ps (run_automatic-HasLock a w p h)

-- A lock that has not ended by the database's time `t` (an admin's lock at any `t`; a failed-login
-- lock at a `t` before its end) stands, unchanged, after any failed and successful logins of any
-- users, login checks, unlock and reset jobs and sweeps that run no later than `t`.
pub lock_lasts :
    (config : AccountLockoutConfig) (id : String) (u : User) (t : ℕ) (actions : List Automatic)
    (w : World)
    → find_by_id id w.users ≡ some u
    → u.is_locked ≡ true
    → lock_ended t u ≡ false
    → All (λ a. (clock_of a).db ≤ t) actions
    → (v : User) × (find_by_id id (run_all config actions w).users ≡ some v) × SameLock u v
lock_lasts config id u t actions w found locked lasting past =
    run_all-HasLock config id u t locked lasting actions w past (
      u,
      found,
      record { is_locked = refl; locked_at = refl; locked_until = refl; lock_reason = refl },
    )
