-- ===== src/Contents.antt =====
-- src/modules/post-types: the entries of a post type, `update`, `publish`, `schedule`, `remove` and
-- `publishDue` of services/content.service.ts, the access checks of services/content-access.policy.ts and
-- the statements of repositories/post-content.repository.ts. The columns that these do not look at are
-- `content`. The field data is a list of names and JSON texts; `merged` is what its validation and the
-- sanitizing of rich text give. `seen` is the entry that was read; a save writes all its columns.
pub mod Publishing
mod Tests
use kuybi.Prelude.Method.{Result, err, ok}
use kuybi.Prelude.Table.{modify, select, find, count}
use kuybi.Prelude.{
  String, Bool, ℕ, Option, ◌+◌, List, some, ◌==◌, ◌&&◌, none, ◌||◌, true, false, if◌then◌else◌,
  get_or_else, ◌∷◌, is_none, ltb, string_eq, leb, not, is_some, nat_beq, [],
}

pub data ContentStatus : Type 0 where
  draft pending_review published scheduled archived deleted : ContentStatus

pub data Action : Type 0 where
  update_it publish_it : Action

pub data ContentError : Type 0 where
  use_delete no_publish not_in_future version_conflict : ContentError
  invalid_fields duplicates : List String → ContentError

pub record Entry (C : Type 0) : Type 0 where
  pub id : String
  pub post_type_id : String
  pub status : ContentStatus
  pub field_data : List (String × String)
  pub published_at : Option ℕ
  pub scheduled_at : Option ℕ
  pub deleted_at : Option ℕ
  pub updated_by : Option String
  pub version : ℕ
  pub content : C

pub record ContentInput (C : Type 0) : Type 0 where
  pub field_data : Option (List (String × String))
  pub status : Option ContentStatus
  pub scheduled_at : Option ℕ
  pub version : Option ℕ
  pub content : C → C

abbrev pub is_published : ContentStatus → Bool
is_published published = true
is_published _ = false

abbrev pub is_scheduled : ContentStatus → Bool
is_scheduled scheduled = true
is_scheduled _ = false

abbrev pub is_deleted : ContentStatus → Bool
is_deleted deleted = true
is_deleted _ = false

-- PUBLISHING
abbrev pub is_publishing : ContentStatus → Bool
is_publishing status = is_published status || is_scheduled status

abbrev pub status_index : ContentStatus → ℕ
status_index draft = 0
status_index pending_review = 1
status_index published = 2
status_index scheduled = 3
status_index archived = 4
status_index deleted = 5

-- whether a status is given and is another one
abbrev pub moves_status : Option ContentStatus → ContentStatus → Bool
moves_status none status = false
moves_status (some to) status = not (nat_beq (status_index to) (status_index status))

unfoldable pub value_of : String → List (String × String) → Option String
value_of name [] = none
value_of name ((n, v) ∷ rest) =
    let other = value_of name rest in if n == name then some v else other

module _ {C : Type 0} where
  abbrev pub has_id : String → Entry C → Bool
  has_id id e = e.id == id

  abbrev pub has_version : String → ℕ → Entry C → Bool
  has_version id version e = e.id == id && nat_beq e.version version

  unfoldable pub find_by_id : String → List (Entry C) → Option (Entry C)
  find_by_id id = find (has_id id)

  -- what `assertCanSetStatus` throws
  unfoldable pub assert_can_set_status :
      (Action → Entry C → Bool) → ContentStatus → Entry C → Option ContentError
  assert_can_set_status can status e =
      if is_deleted status
      then some use_delete
      else (if is_publishing status && not (can publish_it e) then some no_publish else none)

  -- another live entry of the type with the same value in a field
  abbrev pub holds_value : Entry C → String → String → Entry C → Bool
  holds_value entry name value e =
      e.post_type_id == entry.post_type_id
      && is_none e.deleted_at
      && get_or_else (value_of name e.field_data) "" == value
      && is_some (value_of name e.field_data)
      && not (e.id == entry.id)

  -- the fields in conflict, among those that are not empty
  unfoldable pub conflicts_of :
      (String → Bool) → List String → Entry C → List (Entry C) → List String
  conflicts_of is_empty unique entry rows =
      select
        (λ name. elim (value_of name entry.field_data) [
          | none ↦ false
          | some v ↦ not (is_empty v) && ltb 0 (count (holds_value entry name v) rows)
        ])
        unique

  abbrev pub saved_row : Entry C → Entry C → Entry C
  saved_row entry row = record entry { version = row.version + 1 }

  -- `saveUnlessDuplicate` of an entry that is there, and what `saveUnique` makes of its answer
  unfoldable pub save_unique :
      (String → Bool)
      → List String
      → ℕ
      → Entry C
      → List (Entry C)
      → List (Entry C) × Result ContentError Unit
  save_unique is_empty unique expected entry rows =
      let names = conflicts_of is_empty unique entry rows in
      elim names [
        | name ∷ rest ↦ (rows, err (duplicates (name ∷ rest)))
        | [] ↦ elim (find_by_id entry.id rows) [
          | none ↦ (rows, err version_conflict)
          | some row ↦
              if nat_beq row.version expected
              then (modify (has_id entry.id) (saved_row entry) rows, ok tt)
              else (rows, err version_conflict)
        ]
      ]

  -- the entry as it is read, with the changes
  abbrev pub changed_entry :
      ℕ → String → ContentInput C → List (String × String) → Bool → Entry C → Entry C
  changed_entry now editor input merged moves e = record e {
    status = get_or_else input.status e.status;
    published_at =
        if moves && is_published (get_or_else input.status e.status)
        then some now
        else e.published_at;
    scheduled_at = elim input.scheduled_at as (λ x. Option ℕ) [
      | none ↦ e.scheduled_at
      | some t ↦ some t
    ];
    field_data = elim input.field_data as (λ x. List (String × String)) [
      | none ↦ e.field_data
      | some d ↦ merged
    ];
    updated_by = some editor;
    content = input.content e.content;
  }

  -- `merged` is an error where the validation finds one
  unfoldable pub update :
      (Action → Entry C → Bool)
      → (String → Bool)
      → List String
      → ℕ
      → String
      → ContentInput C
      → Result ContentError (List (String × String))
      → Entry C
      → List (Entry C)
      → List (Entry C) × Result ContentError Unit
  update can is_empty unique now editor input merged seen rows =
      let moves = moves_status input.status seen.status in
      let expected = get_or_else input.version seen.version in
      let refusal = assert_can_set_status can (get_or_else input.status seen.status) seen in
      let write = λ (fields : List (String × String)).
        save_unique is_empty (if is_some input.field_data then unique else []) expected
          (changed_entry now editor input fields moves seen) rows in
      elim (if moves then refusal else none) [
        | some e ↦ (rows, err e)
        | none ↦ elim merged [
          | ok fields ↦ write fields
          | err e ↦ if is_some input.field_data then (rows, err e) else write []
        ]
      ]

  -- `statusChange`
  unfoldable pub status_change :
      (Entry C → Entry C) → Entry C → List (Entry C) → List (Entry C) × Result ContentError Unit
  status_change f seen rows =
      if ltb 0 (count (has_version seen.id seen.version) rows)
      then (modify (has_version seen.id seen.version) f rows, ok tt)
      else (rows, err version_conflict)

  abbrev pub published_row : ℕ → Entry C → Entry C
  published_row now e = record e {
    status = published;
    published_at = some now;
    version = e.version + 1;
  }

  unfoldable pub publish : ℕ → Entry C → List (Entry C) → List (Entry C) × Result ContentError Unit
  publish now seen rows = status_change (published_row now) seen rows

  abbrev pub scheduled_row : ℕ → Entry C → Entry C
  scheduled_row at e = record e {
    status = scheduled;
    scheduled_at = some at;
    version = e.version + 1;
  }

  unfoldable pub schedule :
      (Action → Entry C → Bool)
      → ℕ
      → ℕ
      → Entry C
      → List (Entry C)
      → List (Entry C) × Result ContentError Unit
  schedule can now at seen rows = elim (assert_can_set_status can scheduled seen) [
    | some e ↦ (rows, err e)
    | none ↦
        if leb at now then (rows, err not_in_future) else status_change (scheduled_row at) seen rows
  ]

  -- `markDeleted`
  abbrev pub deleted_row : ℕ → Entry C → Entry C
  deleted_row now e = record e { status = deleted; deleted_at = some now }

  unfoldable pub remove_entry : ℕ → String → List (Entry C) → List (Entry C)
  remove_entry now id rows = modify (has_id id) (deleted_row now) rows

  -- `publishScheduledBefore`
  abbrev pub is_due : ℕ → Entry C → Bool
  is_due now e =
      is_scheduled e.status
      && elim e.scheduled_at [ none ↦ false | some t ↦ leb t now ]
      && is_none e.deleted_at

  abbrev pub due_row : Entry C → Entry C
  due_row e = record e {
    status = published;
    published_at = e.scheduled_at;
    version = e.version + 1;
  }

  unfoldable pub publish_due : ℕ → List (Entry C) → List (Entry C) × ℕ
  publish_due now rows = (modify (is_due now) due_row rows, count (is_due now) rows)
