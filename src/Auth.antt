-- ===== src/Auth.antt =====
-- src/modules/auth/services/auth.service.ts: `validateUser` and `login`, over the account lockout. The
-- columns of the users table that the lockout does not touch stand in a table of their own,
-- `accounts`, with the same ids. Signing is left out: an access token is its payload. The password
-- hasher is an argument; `hash` gives `none` when it fails, which the source catches. The hashing that is
-- spent on an unknown email, to take as long, is left out.
pub mod Tokens
pub mod Reset
pub mod Ended
pub mod Logout
pub mod Voids
pub mod Guesses
mod Tests
use kuybi.Prelude.Table.{find, modify}
use kuybi.Prelude.Method.{Method, Result, runs, ◌>>=◌, ok, err, reads, ◌>>◌, given, throw, pure}
use kuybi.Prelude.{
  String, List, Bool, some, Option, ◌==◌, ◌++◌, if◌then◌else◌, ℕ, not, ◌∷◌, string_eq, [], ◌&&◌,
  none, ◌-◌, ◌/◌,
}
use kuybi.Lockout.{
  Clock, World, Service, LockoutInfo, AccountLockoutConfig, Error, get_account_lock_info,
  is_account_locked, reset_failed_attempts, record_failed_attempt,
}

pub record Account : Type 0 where
  pub id : String
  pub email : String
  pub password_hash : Option String
  pub is_active : Bool
  pub force_password_change : Bool
  pub credentials_version : ℕ

pub record PasswordHasher : Type 0 where
  pub verify : String → Option String → Bool
  pub needs_rehash : String → Bool
  pub hash : String → Option String

pub data LoginFailure : Type 0 where
  no_user wrong_password user_locked not_active : LoginFailure

pub data LoginError : Type 0 where
  invalid_credentials account_inactive : LoginError
  -- with the seconds until the account unlocks
  account_locked : LockoutInfo → ℕ → LoginError
  lockout_error : Error → LoginError

-- `failures` are the refusals that `recordFailedLogin` has counted and reported.
pub record AuthState : Type 0 where
  pub world : World
  pub accounts : List Account
  pub failures : List LoginFailure

pub record AccessTokenPayload : Type 0 where
  pub sub : String
  pub sid : Option String
  pub temp_password_change : Bool
  pub cv : Option ℕ

abbrev pub has_account_id : String → Account → Bool
has_account_id id a = a.id == id

abbrev pub has_email : String → Account → Bool
has_email email a = a.email == email

abbrev pub rehashed : String → Account → Account
rehashed hash a = record a { password_hash = some hash }

unfoldable pub find_account : String → List Account → Option Account
find_account id = find (has_account_id id)

unfoldable pub find_by_email : String → List Account → Option Account
find_by_email email = find (has_email email)

-- a lockout method on the state
unfoldable pub lockout_result :
    {A : Type 0} → AuthState → Result Error A × World → Result LoginError A × AuthState
lockout_result s (ok a, w) = (ok a, record s { world = w })
lockout_result s (err e, w) = (err (lockout_error e), record s { world = w })

abbrev pub in_lockout : {A : Type 0} → Service A → Method AuthState LoginError A
in_lockout m s = lockout_result s (m s.world)

abbrev pub record_failed_login : LoginFailure → Method AuthState LoginError Unit
record_failed_login f = runs (λ s. (record s { failures = s.failures ++ f ∷ [] }, tt))

-- `getPasswordHash`, of the row that is found
abbrev pub stored_hash : Option Account → Option String
stored_hash none = none
stored_hash (some a) = a.password_hash

-- `upgradePasswordHash`
unfoldable pub upgrade_password_hash :
    PasswordHasher → String → String → Option String → AuthState → AuthState
upgrade_password_hash hasher id password none s = s
upgrade_password_hash hasher id password (some stored) s =
    if not (stored == "") && hasher.needs_rehash stored
    then elim (hasher.hash password) [
      | none ↦ s
      | some hash ↦ record s { accounts = modify (has_account_id id) (rehashed hash) s.accounts }
    ]
    else s

-- whole seconds, 0 once the lock is over
unfoldable pub unlock_in_seconds : ℕ → Option ℕ → ℕ
unlock_in_seconds now none = 0
unlock_in_seconds now (some locked_until) = (locked_until - now) / 1000

abbrev pub account_locked_exception : ℕ → LockoutInfo → LoginError
account_locked_exception now info = account_locked info (unlock_in_seconds now info.locked_until)

module _ (config : AccountLockoutConfig) (hasher : PasswordHasher) where
  pub refuse_locked : Clock → String → Method AuthState LoginError Account
  unfolding ◌>>=◌
  refuse_locked clock id = do
    info ← in_lockout (get_account_lock_info config id)
    record_failed_login user_locked
    throw (account_locked_exception clock.answer info)

  unfoldable pub refuse_password : Clock → String → Method AuthState LoginError Account
  unfolding ◌>>=◌
  refuse_password clock id = do
    in_lockout (record_failed_attempt config clock id)
    info ← in_lockout (get_account_lock_info config id)
    record_failed_login wrong_password
    throw
        (if info.is_locked then account_locked_exception clock.answer info else invalid_credentials)

  unfoldable pub accept : Account → String → Option String → Method AuthState LoginError Account
  unfolding ◌>>=◌
  accept user password stored = do
    in_lockout (reset_failed_attempts config user.id)
    runs (λ s. (upgrade_password_hash hasher user.id password stored s, tt))
    pure user

  -- the part for a user who is found; `getPasswordHash` reads the row again
  unfoldable pub validate_credentials :
      Clock → Account → String → Method AuthState LoginError Account
  unfolding ◌>>=◌ refuse_locked refuse_password accept
  validate_credentials clock user password = do
    locked ← in_lockout (is_account_locked config clock user.id)
    if locked then refuse_locked clock user.id else (do
      row ← reads (λ s. find_account user.id s.accounts)
      let stored = stored_hash row
      if hasher.verify password stored
          then (if user.is_active
              then accept user password stored
              else (do record_failed_login not_active; throw account_inactive))
          else refuse_password clock user.id)

  unfoldable pub validate_user : Clock → String → String → Method AuthState LoginError Account
  unfolding ◌>>=◌ validate_credentials
  validate_user clock email password = do
    found ← reads (λ s. find_by_email email s.accounts)
    given found (do record_failed_login no_user; throw invalid_credentials)
        λ user. validate_credentials clock user password
