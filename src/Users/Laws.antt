-- ===== src/Users/Laws.antt =====
-- src/modules/users/repositories/user.repository.ts: what a reader by id sees after a statement.
use mathlib.Core.Option
use kuybi.Prelude.{
  ◌≤◌, String, ◌≡◌, Bool, true, ◌&&◌, some, List, arith, string_eq, if◌then◌else◌, ◌∙◌, none, ap,
  ◌+◌, refl,
}
use kuybi.Prelude.Table.{count, find-modify, find_sound, count-and_some, modify, count-modify}
use kuybi.Users.{
  User, has_id, find_by_id, update_where, update, increment_failed_login_attempts, counted_row,
}

-- No other row has this id: it is the primary key.
abbrev pub IsKey : String → List User → Type 0
IsKey id users = count (has_id id) users ≤ 1

module _ (f : User → User) (same_id : (u : User) → (f u).id ≡ u.id) where
  has_id-f : (id : String) (u : User) → has_id id (f u) ≡ has_id id u
  has_id-f id u = rw (same_id u)

  pub find-update_where :
      (id j : String) (cond : User → Bool) (users : List User)
      → find_by_id id (update_where j cond f users).0
        ≡ Option.map (λ u. if has_id j u && cond u then f u else u) (find_by_id id users)
  unfolding find_by_id
  find-update_where id j cond users = find-modify (has_id id) _ f users (λ u h. has_id-f id u)

  pub find-update :
      (id j : String) (users : List User)
      → find_by_id id (update j f users)
        ≡ Option.map (λ u. if has_id j u then f u else u) (find_by_id id users)
  unfolding find_by_id update
  find-update id j users = find-modify (has_id id) _ f users (λ u h. has_id-f id u)

pub find_by_id_sound :
    (id : String) (users : List User) {u : User} → find_by_id id users ≡ some u → has_id id u ≡ true
unfolding find_by_id
find_by_id_sound id users e = find_sound (has_id id) users e

-- Whether a conditional UPDATE of a key affects a row: exactly if the row meets the condition.
pub update_where-affects :
    (id : String) (cond : User → Bool) (f : User → User) (users : List User) {u : User}
    → IsKey id users
    → find_by_id id users ≡ some u
    → (update_where id cond f users).1 ≡ cond u
unfolding find_by_id
update_where-affects id cond f users {u} k e =
    ground (arith, count-and_some (has_id id) cond users {a = u})

-- A conditional UPDATE of a key, as a reader of that key sees it.
pub update_where_found :
    (id : String) (cond : User → Bool) (f : User → User) (users : List User) {u : User}
    → ((v : User) → (f v).id ≡ v.id)
    → find_by_id id users ≡ some u
    → find_by_id id (update_where id cond f users).0 ≡ some (if cond u then f u else u)
update_where_found id cond f users {u} k e =
    find-update_where f k id id cond users
    ∙ ap (Option.map _) e
    ∙ rw (find_by_id_sound id users e) refl

pub update_where_missing :
    (id : String) (cond : User → Bool) (f : User → User) (users : List User)
    → ((v : User) → (f v).id ≡ v.id)
    → find_by_id id users ≡ none
    → find_by_id id (update_where id cond f users).0 ≡ none
update_where_missing id cond f users k e =
    find-update_where f k id id cond users ∙ ap (Option.map _) e

pub update_found :
    (id : String) (f : User → User) (users : List User) {u : User}
    → ((v : User) → (f v).id ≡ v.id)
    → find_by_id id users ≡ some u
    → find_by_id id (update id f users) ≡ some (f u)
update_found id f users {u} k e =
    find-update f k id id users ∙ ap (Option.map _) e ∙ rw (find_by_id_sound id users e) refl

pub increment_found :
    (id : String) (users : List User) {u : User}
    → find_by_id id users ≡ some u
    → find_by_id id (increment_failed_login_attempts id users).0 ≡ some (counted_row u)
unfolding increment_failed_login_attempts update
increment_found id users e = update_found id counted_row users (λ v. refl) e

pub increment_counts :
    (id : String) (users : List User) {u : User}
    → find_by_id id users ≡ some u
    → (increment_failed_login_attempts id users).1 ≡ some (u.failed_login_attempts + 1)
unfolding increment_failed_login_attempts update
increment_counts id users e = ground (arith, update_found id counted_row users (λ v. refl) e)

-- Updates keep the key a key.
pub IsKey-modify :
    (id : String) (p : User → Bool) (f : User → User) (users : List User)
    → ((v : User) → (f v).id ≡ v.id)
    → IsKey id users
    → IsKey id (modify p f users)
IsKey-modify id p f users k h =
    omega (arith, count-modify (has_id id) p f users (λ v e. has_id-f f k id v), h)

pub IsKey-increment :
    (id : String) (users : List User)
    → IsKey id users
    → IsKey id (increment_failed_login_attempts id users).0
unfolding increment_failed_login_attempts
IsKey-increment id users h = IsKey-modify id (has_id id) counted_row users (λ v. refl) h
