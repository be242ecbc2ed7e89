-- ===== src/Lockout/Attempts.antt =====
-- src/modules/auth/services/account-lockout.service.ts: failed logins up to the lock.
use kuybi.Users.{
  User, find_by_id, counted_row, lock_if_unlocked, Lock, failed_attempts_lock, locked_row,
  increment_failed_login_attempts, lockable,
}
use kuybi.Prelude.{
  String, ◌≡◌, true, some, ◌+◌, ◌<◌, arith, ℕ, List, false, ◌∷◌, ◌≤◌, [], refl, length, suc, ◌∙◌,
  ap,
}
use kuybi.Prelude.Method.{◌>>=◌}
use kuybi.Lockout.{AccountLockoutConfig, record_failed_attempt, Clock, World, lock_account}
use kuybi.Users.Laws.{
  increment_found, increment_counts, IsKey, update_where_found, IsKey-increment,
  update_where-affects,
}

module _ (config : AccountLockoutConfig) where
  pub record_below :
      (clock : Clock) (id : String) (w : World) {u : User}
      → config.enabled ≡ true
      → find_by_id id w.users ≡ some u
      → u.failed_login_attempts + 1 < config.max_attempts
      → find_by_id id (record_failed_attempt config clock id w).1.users ≡ some (counted_row u)
  unfolding record_failed_attempt ◌>>=◌
  record_below clock id w {u} on found h =
      ground (arith, increment_found id w.users found, increment_counts id w.users found)

  abbrev lock_at : ℕ → Lock
  lock_at now = record {
    locked_at = now;
    locked_until = now + config.lock_duration;
    lock_reason = failed_attempts_lock;
  }

  lock_account_found :
      (clock : Clock) (id : String) (n : ℕ) (w : World) {u : User}
      → IsKey id w.users
      → find_by_id id w.users ≡ some u
      → u.is_locked ≡ false
      → clock.later < clock.app + config.lock_duration
      → find_by_id id (lock_account config clock id n w).1.users
        ≡ some (locked_row (lock_at clock.app) u)
  unfolding lock_account ◌>>=◌ lock_if_unlocked
  lock_account_found clock id n w {u} key found free h = ground (
    arith,
    free,
    update_where_found id lockable (locked_row (lock_at clock.app)) w.users (λ v. refl) found,
    update_where-affects id lockable (locked_row (lock_at clock.app)) w.users key found,
  )

  record_locks :
      (clock : Clock) (id : String) (w : World) {u : User}
      → config.enabled ≡ true
      → IsKey id w.users
      → find_by_id id w.users ≡ some u
      → u.is_locked ≡ false
      → config.max_attempts ≤ u.failed_login_attempts + 1
      → clock.later < clock.app + config.lock_duration
      → find_by_id id (record_failed_attempt config clock id w).1.users
        ≡ some (locked_row (lock_at clock.app) (counted_row u))
  unfolding record_failed_attempt ◌>>=◌
  record_locks clock id w {u} on key found free h k = ground (
    arith,
    increment_counts id w.users found,
    lock_account_found clock id (u.failed_login_attempts + 1)
        (record w { users = (increment_failed_login_attempts id w.users).0 }) {u = counted_row u}
        (IsKey-increment id w.users key) (increment_found id w.users found) free k,
  )

  -- failed logins one after another
  unfoldable pub fail_all : List Clock → String → World → World
  fail_all [] id w = w
  fail_all (c ∷ cs) id w = fail_all cs id (record_failed_attempt config c id w).1

  abbrev failed_row : ℕ → User → User
  failed_row n u = record u { failed_login_attempts = u.failed_login_attempts + n }

  failed_row-suc : (n : ℕ) (u : User) → failed_row n (counted_row u) ≡ failed_row (suc n) u
  failed_row-suc n u = ground arith

  pub record-IsKey :
      (clock : Clock) (id : String) (w : World) {u : User}
      → find_by_id id w.users ≡ some u
      → u.failed_login_attempts + 1 < config.max_attempts
      → IsKey id w.users
      → IsKey id (record_failed_attempt config clock id w).1.users
  unfolding record_failed_attempt ◌>>=◌
  record-IsKey clock id w {u} found h key =
      ground (arith, increment_counts id w.users found, IsKey-increment id w.users key)

  fail_all_below :
      (cs : List Clock) (id : String) (w : World) {u : User}
      → config.enabled ≡ true
      → IsKey id w.users
      → find_by_id id w.users ≡ some u
      → u.failed_login_attempts + length cs < config.max_attempts
      → (find_by_id id (fail_all cs id w).users ≡ some (failed_row (length cs) u))
        × IsKey id (fail_all cs id w).users
  unfolding fail_all
  fail_all_below [] id w {u} on key found h = (ground (arith, found), key)
  fail_all_below (c ∷ cs) id w {u} on key found h =
      let below : u.failed_login_attempts + 1 < config.max_attempts = omega arith in
      let (row, key') =
        fail_all_below cs id (record_failed_attempt config c id w).1 {u = counted_row u} on
          (record-IsKey c id w found below key) (record_below c id w on found below)
          (omega arith) in
      (row ∙ ap some (failed_row-suc (length cs) u), key')

  -- From an unlocked account, failed logins one after another only count while the counter stays
  -- below `maxAttempts`; the one that reaches it locks the account until `lockDuration` after it,
  -- for FAILED_ATTEMPTS. (The lockout is on, the id is a key, and the lock ends after the service's
  -- second reading of the clock.)
  pub attempts_lock :
      (cs : List Clock) (last : Clock) (id : String) (w : World) (u : User)
      → config.enabled ≡ true
      → IsKey id w.users
      → find_by_id id w.users ≡ some u
      → u.is_locked ≡ false
      → u.failed_login_attempts + length cs + 1 ≡ config.max_attempts
      → last.later < last.app + config.lock_duration
      → (find_by_id id (fail_all cs id w).users
          ≡ some (record u { failed_login_attempts = u.failed_login_attempts + length cs }))
        × (find_by_id id (record_failed_attempt config last id (fail_all cs id w)).1.users
            ≡ some (record u {
              failed_login_attempts = config.max_attempts;
              is_locked = true;
              locked_at = some last.app;
              locked_until = some (last.app + config.lock_duration);
              lock_reason = some failed_attempts_lock;
            }))
  attempts_lock cs last id w u on key found free h k =
      let (row, key') = fail_all_below cs id w on key found (omega arith) in
      let locked =
        record_locks last id (fail_all cs id w) {u = failed_row (length cs) u} on key' row free
          (omega arith) k in
      (row, ground (arith, locked))
