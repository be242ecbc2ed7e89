-- ===== src/Categories/Tests.antt =====
-- Three categories: two live ones, and a deleted one whose slug is held again.
use kuybi.Categories.Late.{late_update}
use kuybi.Categories.Taken.{held_elsewhere, taken_slug}
use kuybi.Prelude.Method.{ok, err, is_ok}
use kuybi.Categories.{
  chosen_slug, remove_category, same_text, Category, CreateCategory, create, find_by_id, clashes,
  UpdateCategory, update, has_id, slug_exists, deleted_id, restore, is_live, updated_row,
  removed_row, slug_taken,
}
use kuybi.Prelude.Table.{count, find}
use kuybi.Prelude.{
  String, List, ◌≢◌, All, [], ◌≡◌, arith, ◌<◌, ℕ, true, eq_iff, false, ◌∷◌, some, none, refl, ◌+◌,
}

abbrev ab : List ℕ
ab = b'a' ∷ b'b' ∷ []

abbrev xy : List ℕ
xy = b'x' ∷ b'y' ∷ []

abbrev first : Category ℕ
first = record {
  id = "c1";
  name = ab;
  slug = ab;
  is_active = true;
  created_by = none;
  updated_by = none;
  deleted_by = none;
  deleted_at = none;
  version = 1;
  content = 0;
}

abbrev gone : Category ℕ
gone = record first { id = "c2"; deleted_at = some 5; deleted_by = some "u1" }

abbrev second : Category ℕ
second = record first { id = "c3"; name = xy; slug = xy }

abbrev rows : List (Category ℕ)
rows = first ∷ gone ∷ second ∷ []

abbrev lower : List ℕ → List ℕ
lower cs = cs

abbrev wanted : CreateCategory ℕ
wanted = record { name = ab; slug = some ab; is_active = none; content = 0 }

abbrev change : UpdateCategory ℕ
change = record {
  name = none;
  slug = some ab;
  is_active = none;
  version = none;
  content = λ n. n + 1;
}

-- what the checks have read: nothing yet
abbrev nothing : List (Category ℕ)
nothing = []

held_by_first : (id : String) → ◌≢◌ "c1" id → 0 < count (held_elsewhere ab id) rows
unfolding count same_text
held_by_first id other = ground (arith, eq_iff "c1" id, other)

c1-c3 : ◌≢◌ {A = String} "c1" "c3"
c1-c3 e = ground (arith, eq_iff "c1" "c3", e)

c1-c2 : ◌≢◌ {A = String} "c1" "c2"
c1-c2 e = ground (arith, eq_iff "c1" "c2", e)

chosen : chosen_slug lower lower [] wanted nothing ≡ ok ab
unfolding chosen_slug slug_exists count
chosen = refl

c3_live : All (λ c. has_id "c3" c ≡ true → is_live c ≡ true) rows
c3_live = (λ e. refl, (λ e. ground (arith, e), (λ e. refl, tt)))

c2_had : All (λ c. deleted_id "c2" c ≡ true → same_text c.slug ab ≡ true) rows
unfolding same_text
c2_had = (λ e. refl, (λ e. refl, (λ e. ground (arith, e), tt)))

taken_slug_example :
    let created = create lower lower [] "c9" "u1" wanted nothing rows in
    let updated = update lower "c3" change "u1" (some second) nothing rows in
    let restored = restore "c2" rows in
    (created ≡ (rows, err slug_taken))
    × ((updated.0 ≡ rows) × (is_ok updated.1 ≡ false))
    × ((restored.0 ≡ rows) × (is_ok restored.1 ≡ false))
taken_slug_example =
    taken_slug lower lower [] "c9" "c3" "c2" "u1" wanted change (some second) nothing rows ab
      (held_by_first "c3" c1-c3) (held_by_first "c2" c1-c2) chosen refl c3_live c2_had

abbrev renamed : UpdateCategory ℕ
renamed = record { name = some xy; slug = none; is_active = none; version = none; content = λ n. n }

found_first : find_by_id "c1" rows ≡ some first
unfolding find_by_id find
found_first = refl

rows_agree : clashes rows ≡ false
unfolding clashes count same_text
rows_agree = refl

late_update_example :
    let rows' = (remove_category 9 "c1" "u1" rows).0 in
    let (rows'', r) = update lower "c1" renamed "u2" (some first) rows rows' in
    let late = updated_row "u2" renamed (removed_row 9 "u1" first) in
    (r ≡ ok late) × (find_by_id "c1" rows'' ≡ some late) × (late.deleted_at ≡ some 9)
late_update_example =
    late_update lower 9 "c1" "u1" "u2" renamed first rows rows found_first refl refl refl rows_agree
