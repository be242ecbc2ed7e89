-- ===== src/Lockout.antt =====
-- src/modules/auth/services/account-lockout.service.ts: `AccountLockoutService` over the users table.
-- The jobs and emails that a method queues are the effects that it appends. An email that cannot be
-- queued is caught by the source and changes nothing else; logging is left out. The service reads its
-- own clock (twice when it locks) and the statements read the database's: all are arguments.
pub mod Attempts
pub mod Automatic
pub mod Checks
pub mod Holds
mod Tests
use kuybi.Prelude.{
  ℕ, ◌+◌, ◌-◌, String, Bool, true, false, not, Option, none, some, List, [], ◌∷◌, ◌++◌, leb, ◌&&◌,
  if◌then◌else◌,
}
use kuybi.Prelude.Table.{select}
use kuybi.Prelude.Method.{Method, pure, throw, reads, runs, given, ◌>>=◌, ◌>>◌}
use kuybi.Users.{
  User, failed_attempts_lock, is_before, expired_lock, unlocked_row, forgiven_row, find_by_id,
  increment_failed_login_attempts, lock_if_unlocked, unlock_if_expired, reset_failed_attempts_if,
  update,
}

pub record AccountLockoutConfig : Type 0 where
  pub enabled : Bool
  pub max_attempts : ℕ
  pub lock_duration : ℕ
  pub reset_attempts_period : ℕ
  pub notify_on_lockout : Bool
  pub notify_on_unlock : Bool

pub data UnlockReason : Type 0 where
  auto_unlock admin_unlock : UnlockReason

pub data Effect : Type 0 where
  -- user, delay
  unlock_job : String → ℕ → Effect
  -- user, counter, delay; a delayed job of the same user is replaced
  reset_job : String → ℕ → ℕ → Effect
  -- address, end of the lock, attempts
  locked_email : String → ℕ → ℕ → Effect
  -- address, attempts before
  unlocked_email : String → ℕ → Effect

pub record Clock : Type 0 where
  pub app : ℕ
  pub later : ℕ  -- the service's second reading
  pub db : ℕ
  pub answer : ℕ  -- the reading for the answer about a locked account

pub record World : Type 0 where
  pub users : List User
  pub effects : List Effect

-- `remainingAttempts` is `Math.max(0, …)` of a difference: the difference on ℕ
pub record LockoutInfo : Type 0 where
  pub is_locked : Bool
  pub failed_attempts : ℕ
  pub max_attempts : ℕ
  pub locked_at : Option ℕ
  pub locked_until : Option ℕ
  pub lock_reason : Option String
  pub remaining_attempts : ℕ

-- `NotFoundException`
pub data Error : Type 0 where
  user_not_found : String → Error

abbrev pub Service : Type 0 → Type 0
Service A = Method World Error A

-- a statement on the users table
abbrev pub statement : {A : Type 0} → (List User → List User × A) → Service A
statement f = runs (λ w. (record w { users = (f w.users).0 }, (f w.users).1))

abbrev pub emit : Effect → Service Unit
emit e = runs (λ w. (record w { effects = w.effects ++ e ∷ [] }, tt))

abbrev pub emit_if : Bool → Effect → Service Unit
emit_if b e = if b then emit e else pure tt

module _ (config : AccountLockoutConfig) where
  unlock_found : Clock → String → UnlockReason → User → Service Bool
  unlock_found clock id auto_unlock user = do
    lifted ← statement (unlock_if_expired clock.db id)
    if lifted
        then (do
          emit_if config.notify_on_unlock (unlocked_email user.email user.failed_login_attempts)
          pure true)
        else pure false
  unlock_found clock id admin_unlock user = do
    statement (λ users. (update id unlocked_row users, tt))
    emit_if config.notify_on_unlock (unlocked_email user.email user.failed_login_attempts)
    pure true

  pub unlock_account : Clock → String → UnlockReason → Service Bool
  unfolding unlock_found
  unlock_account clock id reason = do
    found ← reads (λ w. find_by_id id w.users)
    given found (throw (user_not_found id))
        λ user. if user.is_locked then unlock_found clock id reason user else pure false

  schedule_unlock : Clock → String → ℕ → Service Unit
  schedule_unlock clock id unlock_at =
      if leb unlock_at clock.later
      then (do unlock_account clock id auto_unlock; pure tt)
      else emit (unlock_job id (unlock_at - clock.later + 1000))

  notify_lock : String → ℕ → ℕ → Service Unit
  notify_lock id until attempts =
      if config.notify_on_lockout
      then (do
        found ← reads (λ w. find_by_id id w.users)
        given found (pure tt) (λ user. emit (locked_email user.email until attempts)))
      else pure tt

  pub lock_account : Clock → String → ℕ → Service Unit
  unfolding schedule_unlock notify_lock
  lock_account clock id attempts = do
    let until = clock.app + config.lock_duration
    locked ← statement (
        lock_if_unlocked id (record {
          locked_at = clock.app;
          locked_until = until;
          lock_reason = failed_attempts_lock;
        }))
    if locked then (do schedule_unlock clock id until; notify_lock id until attempts) else pure tt

  pub record_failed_attempt : Clock → String → Service Unit
  unfolding lock_account
  record_failed_attempt clock id =
      if config.enabled
      then (do
        counter ← statement (increment_failed_login_attempts id)
        given counter (throw (user_not_found id)) λ n.
            if leb config.max_attempts n
            then lock_account clock id n
            else emit (reset_job id n config.reset_attempts_period))
      else pure tt

  -- a job from before the counter was stored carries none
  pub forget_failed_attempts : String → Option ℕ → Service Bool
  forget_failed_attempts id none = pure false
  forget_failed_attempts id (some n) = statement (reset_failed_attempts_if id n)

  pub is_account_locked : Clock → String → Service Bool
  is_account_locked clock id = do
    found ← reads (λ w. find_by_id id w.users)
    given found (pure false) λ user.
        if user.is_locked && is_before clock.app user.locked_until
        then (do lifted ← unlock_account clock id auto_unlock; pure (not lifted))
        else pure user.is_locked

  -- after a successful login
  pub reset_failed_attempts : String → Service Unit
  reset_failed_attempts id = statement (λ users. (update id forgiven_row users, tt))

  -- the loop of `unlockExpiredAccounts`
  unlock_each : Clock → List User → ℕ → Service ℕ
  unlock_each clock [] unlocked = pure unlocked
  unlock_each clock (user ∷ rest) unlocked = do
    lifted ← unlock_account clock user.id auto_unlock
    unlock_each clock rest (if lifted then unlocked + 1 else unlocked)

  pub unlock_expired_accounts : Clock → Service ℕ
  unfolding unlock_each
  unlock_expired_accounts clock = do
    expired ← reads (λ w. select (expired_lock clock.app) w.users)
    unlock_each clock expired 0

  pub get_account_lock_info : String → Service LockoutInfo
  get_account_lock_info id = do
    found ← reads (λ w. find_by_id id w.users)
    given found (throw (user_not_found id)) λ user. pure (record {
      is_locked = user.is_locked;
      failed_attempts = user.failed_login_attempts;
      max_attempts = config.max_attempts;
      locked_at = user.locked_at;
      locked_until = user.locked_until;
      lock_reason = user.lock_reason;
      remaining_attempts = config.max_attempts - user.failed_login_attempts;
    })
