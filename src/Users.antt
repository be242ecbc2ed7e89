-- ===== src/Users.antt =====
-- src/modules/users: the lock columns of the users table (entities/user.entity.ts) and the statements
-- of repositories/user.repository.ts on them. Each statement is one atomic step. `now` is the clock
-- that the statement reads: the database's, or the caller's `new Date()`. The cache is left out: the
-- lock state is read fresh.
pub mod Laws
use kuybi.Prelude.{
  ℕ, ◌+◌, String, Bool, true, false, ◌&&◌, not, Option, none, some, List, ltb, leb, ◌==◌, nat_eq,
  string_eq,
}
use kuybi.Prelude.Table.{find, count, modify}

pub record User : Type 0 where
  pub id : String
  pub email : String
  pub name : String
  pub failed_login_attempts : ℕ
  pub is_locked : Bool
  pub locked_at : Option ℕ
  pub locked_until : Option ℕ
  pub lock_reason : Option String

abbrev pub failed_attempts_lock : String
failed_attempts_lock = "FAILED_ATTEMPTS"

abbrev pub has_id : String → User → Bool
has_id id user = user.id == id

-- A column that may be NULL, compared with a value: NULL meets no condition.
abbrev pub is_reason : String → Option String → Bool
is_reason reason none = false
is_reason reason (some r) = r == reason

abbrev pub is_before : ℕ → Option ℕ → Bool
is_before now none = false
is_before now (some t) = ltb t now

abbrev pub is_over : ℕ → Option ℕ → Bool
is_over now none = false
is_over now (some t) = leb t now

pub record Lock : Type 0 where
  pub locked_at : ℕ
  pub locked_until : ℕ
  pub lock_reason : String

abbrev pub unlocked_row : User → User
unlocked_row user = record user {
  is_locked = false;
  failed_login_attempts = 0;
  locked_at = none;
  locked_until = none;
  lock_reason = none;
}

abbrev pub locked_row : Lock → User → User
locked_row lock user = record user {
  is_locked = true;
  locked_at = some lock.locked_at;
  locked_until = some lock.locked_until;
  lock_reason = some lock.lock_reason;
}

abbrev pub counted_row : User → User
counted_row user = record user { failed_login_attempts = user.failed_login_attempts + 1 }

abbrev pub forgiven_row : User → User
forgiven_row user = record user { failed_login_attempts = 0 }

-- `findById` with `bypassCache`, and `findLockState`
unfoldable pub find_by_id : String → List User → Option User
find_by_id id = find (has_id id)

-- `incrementFailedLoginAttempts`: the count that the UPDATE returns
unfoldable pub increment_failed_login_attempts : String → List User → List User × Option ℕ
unfolding find_by_id
increment_failed_login_attempts id users =
    let users' = modify (has_id id) counted_row users in
    (users', elim (find_by_id id users') [ none ↦ none | some u ↦ some u.failed_login_attempts ])

-- the WHERE clauses, behind `id = :id`
abbrev pub lockable : User → Bool
lockable user = not user.is_locked

abbrev pub lock_ended : ℕ → User → Bool
lock_ended now user =
    user.is_locked
    && is_reason failed_attempts_lock user.lock_reason
    && is_over now user.locked_until

abbrev pub still_at : ℕ → User → Bool
still_at expected user = user.failed_login_attempts == expected && not user.is_locked

-- `UPDATE users SET … WHERE id = :id AND …`; whether a row was affected
abbrev pub update_where : String → (User → Bool) → (User → User) → List User → List User × Bool
update_where id cond f users =
    (modify (λ u. has_id id u && cond u) f users, ltb 0 (count (λ u. has_id id u && cond u) users))

unfoldable pub lock_if_unlocked : String → Lock → List User → List User × Bool
lock_if_unlocked id lock = update_where id lockable (locked_row lock)

unfoldable pub unlock_if_expired : ℕ → String → List User → List User × Bool
unlock_if_expired now id = update_where id (lock_ended now) unlocked_row

unfoldable pub reset_failed_attempts_if : String → ℕ → List User → List User × Bool
reset_failed_attempts_if id expected = update_where id (still_at expected) forgiven_row

-- `findExpiredLocks`: the condition of the SELECT
abbrev pub expired_lock : ℕ → User → Bool
expired_lock now user =
    user.is_locked
    && is_reason failed_attempts_lock user.lock_reason
    && is_before now user.locked_until

-- `update(id, …)` by the primary key alone
unfoldable pub update : String → (User → User) → List User → List User
update id f = modify (has_id id) f
