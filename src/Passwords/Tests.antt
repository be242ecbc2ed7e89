-- ===== src/Passwords/Tests.antt =====
-- A password that comes back after four changes, where the database gives rows of one time with the
-- last one first, and the other way round.
use kuybi.Prelude.{
  [], Bool, true, List, false, String, if◌then◌else◌, ◌∷◌, ◌==◌, some, ℕ, ◌≡◌, ltb, string_eq, refl,
  ◌||◌, ◌&&◌, leb,
}
use kuybi.Prelude.Table.{select}
use kuybi.Passwords.History.{change_all}
use kuybi.Passwords.{
  assert_acceptable, matches_current, find_by_user, record_password, record_previous,
  add_password_history, cleanup_old_passwords, records_previous, Entry,
}
use kuybi.Prelude.Method.{is_ok}

-- `later`: whether a row goes before one of the same time
unfoldable place : Bool → Entry → List Entry → List Entry
place later e [] = e ∷ []
place later e (x ∷ xs) =
    let rest = place later e xs in
    if ltb x.created_at e.created_at || (later && leb x.created_at e.created_at)
    then e ∷ x ∷ xs
    else x ∷ rest

unfoldable by_time : Bool → List Entry → List Entry
by_time later [] = []
by_time later (e ∷ es) = place later e (by_time later es)

abbrev verify : String → String → Bool
verify password hash = password == hash

abbrev strong : String → Bool
strong password = true

abbrev changes : List (ℕ × String)
changes = (2, "b") ∷ (3, "c") ∷ (4, "d") ∷ []

abbrev fourth : List (ℕ × String)
fourth = (2, "b") ∷ (3, "c") ∷ (4, "d") ∷ (5, "e") ∷ []

-- whether the password is accepted after the fourth change
abbrev accepted_again : Bool → Bool
accepted_again later = is_ok (
    assert_acceptable (by_time later) strong verify "u1" "a" (some "e") (
      change_all (by_time later) "u1" "a" fourth
        (record_password (by_time later) "u1" "a" 1 (some "z") [])))

-- it depends on the order of the two rows of the first change
depends_on_order : (accepted_again true ≡ false) × (accepted_again false ≡ true)
unfolding assert_acceptable matches_current find_by_user change_all record_password record_previous
    records_previous add_password_history cleanup_old_passwords select place by_time
depends_on_order = (refl, refl)
