-- ===== src/Passwords.antt =====
-- src/modules/auth/services/password-policy.service.ts and
-- src/modules/auth/repositories/password-history.repository.ts. The history is the list of its rows, in
-- no order. A read sorts by `createdAt` alone, which the rows of one transaction share (it is the
-- transaction's time), so how the database orders rows is an argument, `order`. `strong` is the answer of
-- the strength check and `verify` the password hasher.
pub mod Reads
pub mod History
mod Tests
use kuybi.Prelude.Table.{select}
use kuybi.Prelude.Method.{Result, err, ok}
use kuybi.Prelude.{
  ℕ, String, List, Option, Bool, ◌∷◌, ◌==◌, take, some, false, string_eq, if◌then◌else◌, not, ◌&&◌,
  suc, ◌||◌, [], any, none, zero, ◌++◌,
}

pub record Entry : Type 0 where
  pub user_id : String
  pub password_hash : String
  pub created_at : ℕ

pub data PolicyError : Type 0 where
  too_weak recently_used : PolicyError

abbrev pub password_history_depth : ℕ
password_history_depth = 5

abbrev pub is_of : String → Entry → Bool
is_of user_id e = e.user_id == user_id

-- `ORDER BY "createdAt" DESC`
abbrev pub Order : Type 0
Order = List Entry → List Entry

unfoldable pub find_by_user : Order → String → ℕ → List Entry → List Entry
find_by_user order user_id limit rows = take limit (order (select (is_of user_id) rows))

-- deletes the user's rows behind the first `keep`
unfoldable pub cleanup_old_passwords : Order → String → ℕ → List Entry → List Entry
cleanup_old_passwords order user_id keep rows =
    select (λ e. not (is_of user_id e)) rows ++ take keep (order (select (is_of user_id) rows))

unfoldable pub add_password_history : Order → String → String → ℕ → ℕ → List Entry → List Entry
add_password_history order user_id hash now keep rows =
    let row : Entry = record { user_id = user_id; password_hash = hash; created_at = now } in
    cleanup_old_passwords order user_id keep (row ∷ rows)

-- a previous hash that is missing or empty is not recorded
unfoldable pub records_previous : Order → String → Option String → List Entry → Bool
records_previous order user_id none rows = false
records_previous order user_id (some previous) rows =
    not (previous == "")
    && not (
        any (λ e. e.password_hash == previous)
          (find_by_user order user_id password_history_depth rows))

unfoldable pub record_previous : Order → String → ℕ → Option String → List Entry → List Entry
record_previous order user_id now none rows = rows
record_previous order user_id now (some previous) rows =
    if records_previous order user_id (some previous) rows
    then add_password_history order user_id previous now password_history_depth rows
    else rows

-- `record`, in the transaction of the time `now`
unfoldable pub record_password :
    Order → String → String → ℕ → Option String → List Entry → List Entry
record_password order user_id hash now previous rows =
    add_password_history order user_id hash now password_history_depth
      (record_previous order user_id now previous rows)

unfoldable pub matches_current : (String → String → Bool) → String → Option String → Bool
matches_current verify password none = false
matches_current verify password (some hash) = not (hash == "") && verify password hash

unfoldable pub assert_acceptable :
    Order
    → (String → Bool)
    → (String → String → Bool)
    → String
    → String
    → Option String
    → List Entry
    → Result PolicyError Unit
assert_acceptable order strong verify user_id password current rows =
    if strong password
    then (if matches_current verify password current
          || any (λ e. not (e.password_hash == "") && verify password e.password_hash)
              (find_by_user order user_id password_history_depth rows)
        then err recently_used
        else ok tt)
    else err too_weak
