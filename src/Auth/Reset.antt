-- ===== src/Auth/Reset.antt =====
-- src/modules/auth/services/password-reset.service.ts, with the tables that its transaction writes. A
-- transaction that throws changes nothing; the email that it queues in the outbox is left out. `token`
-- is the hash that the table holds.
use kuybi.Sessions.{Session, revoke_all_user_sessions}
use kuybi.Prelude.Method.{Result, is_ok, err, ok}
use kuybi.Prelude.Table.{remove, count, find, modify}
use kuybi.Auth.{Account, has_account_id}
use kuybi.Passwords.{PolicyError, Entry, assert_acceptable, record_password, Order}
use kuybi.Prelude.{
  ℕ, String, List, true, ◌*◌, Option, Bool, some, ltb, ◌==◌, ◌&&◌, ◌+◌, string_eq, none,
  if◌then◌else◌, not, false, ◌∷◌,
}

pub record PasswordReset : Type 0 where
  pub id : String
  pub user_id : String
  pub email : String
  pub token : String
  pub expires_at : ℕ
  pub used : Bool

pub data ResetError : Type 0 where
  invalid_token token_expired token_used no_active_user : ResetError
  not_acceptable : PolicyError → ResetError

pub record ResetState (M : Type 0) : Type 0 where
  pub resets : List PasswordReset
  pub accounts : List Account
  pub sessions : List (Session M)
  pub history : List Entry

abbrev pub reset_token_expiry : ℕ
reset_token_expiry = 60 * 60 * 1000

abbrev pub is_expired : ℕ → PasswordReset → Bool
is_expired now r = ltb r.expires_at now

abbrev pub has_token : String → PasswordReset → Bool
has_token token r = r.token == token

-- the user's links that `invalidateUserResetTokens` expires
abbrev pub is_pending_of : ℕ → String → PasswordReset → Bool
is_pending_of now user_id r = r.user_id == user_id && not r.used && ltb now r.expires_at

abbrev pub expired_at : ℕ → PasswordReset → PasswordReset
expired_at now r = record r { expires_at = now }

-- `{ id, used: false }`
abbrev pub is_unclaimed : String → PasswordReset → Bool
is_unclaimed id r = r.id == id && not r.used

abbrev pub claimed_row : PasswordReset → PasswordReset
claimed_row r = record r { used = true }

abbrev pub changed_credentials : String → Account → Account
changed_credentials hash a = record a {
  password_hash = some hash;
  credentials_version = a.credentials_version + 1;
}

unfoldable pub find_by_token : String → List PasswordReset → Option PasswordReset
find_by_token token = find (has_token token)

-- the checks on the link and its user
unfoldable pub check_link :
    ℕ → Option PasswordReset → Option Account → Result ResetError (PasswordReset × Account)
check_link now none user = err invalid_token
check_link now (some r) user =
    if is_expired now r
    then err token_expired
    else (if r.used then err token_used else elim user [
      | none ↦ err no_active_user
      | some a ↦ if a.is_active then ok (r, a) else err no_active_user
    ])

unfoldable pub validate_reset_token : ℕ → Option PasswordReset → Option Account → Bool
validate_reset_token now r user = is_ok (check_link now r user)

module _ {M : Type 0} where
  -- `found` is the user with the email that was sent; the answer is the same in every case.
  unfoldable pub request_password_reset :
      ℕ → String → String → Option Account → ResetState M → ResetState M
  request_password_reset now id token none s = s
  request_password_reset now id token (some user) s =
      let row : PasswordReset = record {
        id = id;
        user_id = user.id;
        email = user.email;
        token = token;
        expires_at = now + reset_token_expiry;
        used = false;
      } in
      if user.is_active
      then record s { resets = row ∷ modify (is_pending_of now user.id) (expired_at now) s.resets }
      else s

  -- the transaction
  unfoldable pub commit_reset :
      Order
      → ℕ
      → PasswordReset
      → Account
      → String
      → Option String
      → ResetState M
      → ResetState M × Result ResetError ℕ
  commit_reset order now r user hash current s =
      let (sessions, n) = revoke_all_user_sessions now user.id none "Password reset" s.sessions in
      if ltb 0 (count (is_unclaimed r.id) s.resets)
      then (
        record {
          resets = modify (is_unclaimed r.id) claimed_row s.resets;
          accounts = modify (has_account_id user.id) (changed_credentials hash) s.accounts;
          sessions = sessions;
          history = record_password order user.id hash now current s.history;
        },
        ok n,
      )
      else (s, err token_used)

  -- `read` and `user` are the link and its user as they were read, `current` the hash that is then
  -- read, and `hash` the new one.
  unfoldable pub reset_password :
      Order
      → (String → Bool)
      → (String → String → Bool)
      → ℕ
      → String
      → String
      → Option PasswordReset
      → Option Account
      → Option String
      → ResetState M
      → ResetState M × Result ResetError ℕ
  reset_password order strong verify now password hash read user current s =
      elim (check_link now read user) [
        | err e ↦ (s, err e)
        | ok (r, a) ↦ elim (assert_acceptable order strong verify a.id password current s.history) [
          | err e ↦ (s, err (not_acceptable e))
          | ok x ↦ commit_reset order now r a hash current s
        ]
      ]

unfoldable pub cleanup_expired_tokens : ℕ → List PasswordReset → List PasswordReset × ℕ
cleanup_expired_tokens cutoff rows =
    (remove (is_expired cutoff) rows, count (is_expired cutoff) rows)
