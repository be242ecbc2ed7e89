-- ===== src/Tags.antt =====
-- src/modules/tags/services/tags.service.ts over src/modules/tags/repositories/tag.repository.ts and the
-- partial unique index of src/modules/tags/entities/tag.entity.ts. `normalize` is the stored form of a
-- name; `read` are the rows in which the check of a name looks, and `seen` the row that was read before.
pub mod System
mod Tests
use kuybi.Prelude.Method.{Result, err, ok}
use kuybi.Prelude.Table.{find, modify, remove, count}
use kuybi.Prelude.{
  String, Option, ℕ, Bool, List, none, ◌==◌, some, nat_beq, false, if◌then◌else◌, ◌∷◌, get_or_else,
  ◌&&◌, not, ◌+◌, is_none, ltb, is_some, string_eq, ◌||◌, [],
}

pub record Tag (C : Type 0) : Type 0 where
  pub id : ℕ
  pub name : String
  pub created_by : Option String
  pub updated_by : Option String
  pub deleted_by : Option String
  pub deleted_at : Option ℕ
  pub sort_order : ℕ
  pub is_system : Bool
  pub version : ℕ
  pub content : C

-- who changes tags
pub record TagEditor : Type 0 where
  pub id : String
  pub manages_system_tags : Bool

pub record CreateTag (C : Type 0) : Type 0 where
  pub name : String
  pub sort_order : Option ℕ
  pub is_system : Option Bool
  pub content : C

pub record UpdateTag (C : Type 0) : Type 0 where
  pub name : Option String
  pub sort_order : Option ℕ
  pub is_system : Option Bool
  pub version : Option ℕ
  pub content : C → C

pub data TagError : Type 0 where
  not_found forbidden name_taken version_conflict : TagError

module _ {C : Type 0} where
  abbrev pub has_id : ℕ → Tag C → Bool
  has_id id t = nat_beq t.id id

  abbrev pub is_system_tag : Tag C → Bool
  is_system_tag t = t.is_system

  abbrev pub has_version : ℕ → ℕ → Tag C → Bool
  has_version id version t = nat_beq t.id id && nat_beq t.version version

  abbrev pub holds_name : String → Tag C → Bool
  holds_name name t = t.name == name && is_none t.deleted_at

  -- two live rows with one name
  unfoldable pub clashes : List (Tag C) → Bool
  clashes [] = false
  clashes (t ∷ ts) =
      let rest = clashes ts in
      (is_none t.deleted_at && ltb 0 (count (holds_name t.name) ts)) || rest

  -- a write under the index, which may refuse it
  unfoldable pub name_safe :
      {A : Type 0}
      → List (Tag C)
      → List (Tag C) × Result TagError A
      → List (Tag C) × Result TagError A
  name_safe rows (rows', r) = if clashes rows' then (rows, err name_taken) else (rows', r)

  unfoldable pub find_by_id : ℕ → List (Tag C) → Option (Tag C)
  find_by_id id = find (has_id id)

  unfoldable pub find_by_name : (String → String) → String → List (Tag C) → Option (Tag C)
  find_by_name normalize name = find (holds_name (normalize name))

  unfoldable pub find_one : Option (Tag C) → Result TagError (Tag C)
  find_one none = err not_found
  find_one (some t) = if is_some t.deleted_at then err not_found else ok t

  abbrev pub new_tag : (String → String) → ℕ → CreateTag C → TagEditor → Tag C
  new_tag normalize id dto editor = record {
    id = id;
    name = normalize dto.name;
    created_by = some editor.id;
    updated_by = none;
    deleted_by = none;
    deleted_at = none;
    sort_order = get_or_else dto.sort_order 0;
    is_system = get_or_else dto.is_system false;
    version = 1;
    content = dto.content;
  }

  unfoldable pub create :
      (String → String)
      → ℕ
      → CreateTag C
      → TagEditor
      → List (Tag C)
      → List (Tag C)
      → List (Tag C) × Result TagError (Tag C)
  create normalize id dto editor read rows =
      let t = new_tag normalize id dto editor in
      if get_or_else dto.is_system false && not editor.manages_system_tags
      then (rows, err forbidden)
      else (if is_some (find_by_name normalize dto.name read)
          then (rows, err name_taken)
          else name_safe rows (t ∷ rows, ok t))

  abbrev pub updated_row : (String → String) → String → UpdateTag C → Tag C → Tag C
  updated_row normalize updated_by dto t = record t {
    name = elim dto.name as (λ x. String) [ none ↦ t.name | some name ↦ normalize name ];
    sort_order = get_or_else dto.sort_order t.sort_order;
    is_system = get_or_else dto.is_system t.is_system;
    content = dto.content t.content;
    updated_by = some updated_by;
    version = t.version + 1;
  }

  unfoldable pub update_if_version :
      ℕ → ℕ → (Tag C → Tag C) → List (Tag C) → List (Tag C) × Result TagError (Tag C)
  update_if_version id version f rows =
      let rows' = modify (has_version id version) f rows in
      if ltb 0 (count (has_version id version) rows)
      then (rows', elim (find_by_id id rows') [ none ↦ err version_conflict | some t ↦ ok t ])
      else (rows, err version_conflict)

  -- another name that is taken
  unfoldable pub takes_name : (String → String) → Option String → Tag C → List (Tag C) → Bool
  takes_name normalize none t read = false
  takes_name normalize (some name) t read =
      not (normalize name == t.name) && is_some (find_by_name normalize name read)

  unfoldable pub update :
      (String → String)
      → ℕ
      → UpdateTag C
      → TagEditor
      → Option (Tag C)
      → List (Tag C)
      → List (Tag C)
      → List (Tag C) × Result TagError (Tag C)
  update normalize id dto editor seen read rows = elim (find_one seen) [
    | err e ↦ (rows, err e)
    | ok t ↦
        if (t.is_system || is_some dto.is_system) && not editor.manages_system_tags
        then (rows, err forbidden)
        else (if takes_name normalize dto.name t read
            then (rows, err name_taken)
            else name_safe rows (
                update_if_version id (get_or_else dto.version t.version)
                  (updated_row normalize editor.id dto) rows))
  ]

  abbrev pub removed_row : ℕ → String → Tag C → Tag C
  removed_row now deleted_by t = record t { deleted_at = some now; deleted_by = some deleted_by }

  unfoldable pub remove_tag :
      ℕ → ℕ → TagEditor → Option (Tag C) → List (Tag C) → List (Tag C) × Result TagError Unit
  remove_tag now id editor seen rows = elim (find_one seen) [
    | err e ↦ (rows, err e)
    | ok t ↦
        if t.is_system && not editor.manages_system_tags
        then (rows, err forbidden)
        else (modify (has_id id) (removed_row now editor.id) rows, ok tt)
  ]

  -- `seen` is read afresh
  unfoldable pub hard_delete :
      ℕ → TagEditor → Option (Tag C) → List (Tag C) → List (Tag C) × Result TagError Unit
  hard_delete id editor seen rows = elim seen [
    | none ↦ (rows, err not_found)
    | some t ↦
        if t.is_system && not editor.manages_system_tags
        then (rows, err forbidden)
        else (remove (has_id id) rows, ok tt)
  ]
