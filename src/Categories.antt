-- ===== src/Categories.antt =====
-- src/modules/categories/services/categories.service.ts over src/modules/categories/repositories/category.repository.ts
-- and the partial unique index of src/modules/categories/entities/category.entity.ts. Texts are lists of
-- code points. `fold` is the folding of the slugs and `lower` lower case; `read` are the rows that the
-- check of a slug sees, and `seen` the row that `findOne` has read, apart from the rows of the write.
pub mod Taken
pub mod Late
mod Tests
use kuybi.Slugs.{unique_slug, default_slug_max_length, slugify, is_empty}
use kuybi.Prelude.Table.{find, count, modify, remove}
use kuybi.Prelude.Method.{Result, ok, err}
use kuybi.Prelude.{
  String, none, Option, List, ℕ, get_or_else, Bool, ◌==◌, some, ◌∷◌, false, ltb, true, is_none, [],
  string_eq, if◌then◌else◌, not, ◌+◌, ◌&&◌, ◌||◌, is_some, nat_beq,
}

pub record Category (C : Type 0) : Type 0 where
  pub id : String
  pub name : List ℕ
  pub slug : List ℕ
  pub is_active : Bool
  pub created_by : Option String
  pub updated_by : Option String
  pub deleted_by : Option String
  pub deleted_at : Option ℕ
  pub version : ℕ
  pub content : C

pub record CreateCategory (C : Type 0) : Type 0 where
  pub name : List ℕ
  pub slug : Option (List ℕ)
  pub is_active : Option Bool
  pub content : C

pub record UpdateCategory (C : Type 0) : Type 0 where
  pub name : Option (List ℕ)
  pub slug : Option (List ℕ)
  pub is_active : Option Bool
  pub version : Option ℕ
  pub content : C → C

pub data CategoryError : Type 0 where
  not_found slug_taken no_slug version_conflict : CategoryError

abbrev pub category_text : List ℕ
category_text = b'c' ∷ b'a' ∷ b't' ∷ b'e' ∷ b'g' ∷ b'o' ∷ b'r' ∷ b'y' ∷ []

unfoldable pub same_text : List ℕ → List ℕ → Bool
same_text [] [] = true
same_text [] (b ∷ bs) = false
same_text (a ∷ as_) [] = false
same_text (a ∷ as_) (b ∷ bs) = let rest = same_text as_ bs in nat_beq a b && rest

module _ {C : Type 0} where
  abbrev pub has_id : String → Category C → Bool
  has_id id c = c.id == id

  abbrev pub is_live : Category C → Bool
  is_live c = is_none c.deleted_at

  abbrev pub live_id : String → Category C → Bool
  live_id id c = c.id == id && is_none c.deleted_at

  abbrev pub deleted_id : String → Category C → Bool
  deleted_id id c = c.id == id && is_some c.deleted_at

  abbrev pub has_version : String → ℕ → Category C → Bool
  has_version id version c = c.id == id && nat_beq c.version version

  -- what the index compares
  abbrev pub holds_slug : List ℕ → Category C → Bool
  holds_slug slug c = is_none c.deleted_at && same_text c.slug slug

  -- two live rows with one slug
  unfoldable pub clashes : List (Category C) → Bool
  clashes [] = false
  clashes (c ∷ cs) =
      let rest = clashes cs in (is_live c && ltb 0 (count (holds_slug c.slug) cs)) || rest

  -- a write under the index, which may refuse it: `slugSafe`
  unfoldable pub slug_safe :
      {A : Type 0}
      → List (Category C)
      → List (Category C) × Result CategoryError A
      → List (Category C) × Result CategoryError A
  slug_safe rows (rows', r) = if clashes rows' then (rows, err slug_taken) else (rows', r)

  unfoldable pub find_by_id : String → List (Category C) → Option (Category C)
  find_by_id id = find (has_id id)

  unfoldable pub find_by_slug : (List ℕ → List ℕ) → List ℕ → List (Category C) → Option (Category C)
  find_by_slug lower slug = find (holds_slug (lower slug))

  abbrev pub is_other : Option String → Category C → Bool
  is_other none c = true
  is_other (some id) c = not (c.id == id)

  unfoldable pub slug_exists : (List ℕ → List ℕ) → List ℕ → Option String → List (Category C) → Bool
  slug_exists lower slug exclude rows = ltb 0 (
      count
        (λ c. same_text (lower c.slug) (lower slug) && is_none c.deleted_at && is_other exclude c)
        rows)

  -- `findOne`, of the row that `findById` gives
  unfoldable pub find_one : Option (Category C) → Result CategoryError (Category C)
  find_one none = err not_found
  find_one (some c) = if is_some c.deleted_at then err not_found else ok c

  unfoldable pub insert :
      String
      → String
      → CreateCategory C
      → List ℕ
      → List (Category C)
      → List (Category C) × Result CategoryError (Category C)
  insert id created_by dto slug rows =
      let c : Category C = record {
        id = id;
        name = dto.name;
        slug = slug;
        is_active = get_or_else dto.is_active true;
        created_by = some created_by;
        updated_by = none;
        deleted_by = none;
        deleted_at = none;
        version = 1;
        content = dto.content;
      } in
      slug_safe rows (c ∷ rows, ok c)

  -- the slug of a new category: the one that is asked for, if it is free, or one from the name
  unfoldable pub chosen_slug :
      (List ℕ → List ℕ)
      → (List ℕ → List ℕ)
      → List (List ℕ)
      → CreateCategory C
      → List (Category C)
      → Result CategoryError (List ℕ)
  chosen_slug fold lower randoms dto read =
      let made : Result CategoryError (List ℕ) =
        elim (unique_slug default_slug_max_length (λ s. slug_exists lower s none read)
          (slugify fold default_slug_max_length category_text dto.name) randoms) [
            | ok slug ↦ ok slug
            | err e ↦ err no_slug
          ] in
      elim dto.slug [
        | none ↦ made
        | some slug ↦
            if is_empty slug
            then made
            else (if slug_exists lower slug none read then err slug_taken else ok slug)
      ]

  unfoldable pub create :
      (List ℕ → List ℕ)
      → (List ℕ → List ℕ)
      → List (List ℕ)
      → String
      → String
      → CreateCategory C
      → List (Category C)
      → List (Category C)
      → List (Category C) × Result CategoryError (Category C)
  create fold lower randoms id created_by dto read rows =
      elim (chosen_slug fold lower randoms dto read) [
        | err e ↦ (rows, err e)
        | ok slug ↦ insert id created_by dto slug rows
      ]

  abbrev pub updated_row : String → UpdateCategory C → Category C → Category C
  updated_row updated_by dto c = record c {
    name = get_or_else dto.name c.name;
    slug = get_or_else dto.slug c.slug;
    is_active = get_or_else dto.is_active c.is_active;
    content = dto.content c.content;
    updated_by = some updated_by;
    version = c.version + 1;
  }

  -- `updateIfVersion`
  unfoldable pub update_if_version :
      String
      → ℕ
      → (Category C → Category C)
      → List (Category C)
      → List (Category C) × Result CategoryError (Category C)
  update_if_version id version f rows =
      let rows' = modify (has_version id version) f rows in
      if ltb 0 (count (has_version id version) rows)
      then (rows', elim (find_by_id id rows') [ none ↦ err version_conflict | some c ↦ ok c ])
      else (rows, err version_conflict)

  unfoldable pub update :
      (List ℕ → List ℕ)
      → String
      → UpdateCategory C
      → String
      → Option (Category C)
      → List (Category C)
      → List (Category C)
      → List (Category C) × Result CategoryError (Category C)
  update lower id dto updated_by seen read rows = elim (find_one seen) [
    | err e ↦ (rows, err e)
    | ok existing ↦
        let slug = get_or_else dto.slug existing.slug in
        if not (same_text slug existing.slug) && slug_exists lower slug (some id) read
        then (rows, err slug_taken)
        else slug_safe rows (
            update_if_version id (get_or_else dto.version existing.version)
              (updated_row updated_by dto) rows)
  ]

  abbrev pub removed_row : ℕ → String → Category C → Category C
  removed_row now deleted_by c = record c { deleted_at = some now; deleted_by = some deleted_by }

  unfoldable pub remove_category :
      ℕ → String → String → List (Category C) → List (Category C) × Result CategoryError Unit
  remove_category now id deleted_by rows =
      if ltb 0 (count (live_id id) rows)
      then (modify (live_id id) (removed_row now deleted_by) rows, ok tt)
      else (rows, err not_found)

  unfoldable pub hard_delete :
      String → List (Category C) → List (Category C) × Result CategoryError Unit
  hard_delete id rows =
      if ltb 0 (count (has_id id) rows)
      then (remove (has_id id) rows, ok tt)
      else (rows, err not_found)

  abbrev pub restored_row : Category C → Category C
  restored_row c = record c { deleted_at = none; deleted_by = none }

  unfoldable pub restore :
      String → List (Category C) → List (Category C) × Result CategoryError (Category C)
  restore id rows =
      let rows' = modify (deleted_id id) restored_row rows in
      slug_safe rows (
        if ltb 0 (count (deleted_id id) rows)
        then (rows', elim (find_by_id id rows') [ none ↦ err not_found | some c ↦ ok c ])
        else (rows, err not_found))
