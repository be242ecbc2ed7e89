-- ===== src/Passwords/History.antt =====
-- src/modules/auth/services/password-policy.service.ts: how long a password is remembered.
use kuybi.Prelude.{String, ℕ, List, ◌<◌, ◌≤◌, ◌∷◌, Option, [], some, if◌then◌else◌, string_eq}
use kuybi.Passwords.Reads.{IsOrder, is_since, is_row}
use kuybi.Prelude.Table.{count}
use kuybi.Passwords.{Entry, Order, records_previous, record_password}

-- A row of the user with the hash and of the time `t` or later, and at most `n` rows of the user from
-- `t` on.
record IsAmong (user_id hash : String) (t n : ℕ) (rows : List Entry) : Type 0 where
  there : 0 < count (is_row user_id hash t) rows
  few : count (is_since user_id t) rows ≤ n

module _ (order : Order) (o : IsOrder order) (user_id : String) where
  abbrev also : Option String → List Entry → ℕ
  also previous rows = if records_previous order user_id previous rows then 1 else 0

-- Further changes of the user's password, each in a transaction of its time, and with the hash that it
-- replaces as the previous one.
unfoldable pub change_all : Order → String → String → List (ℕ × String) → List Entry → List Entry
change_all order user_id last [] rows = rows
change_all order user_id last ((now, h) ∷ hs) rows =
    change_all order user_id h hs (record_password order user_id h now (some last) rows)

-- each later than the one before
abbrev pub IsLater : ℕ → List (ℕ × String) → Type 0
IsLater t [] = Unit {0}
IsLater t ((now, h) ∷ hs) = (t < now) × IsLater now hs
