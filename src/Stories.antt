-- ===== src/Stories.antt =====
-- src/modules/stories: the status rules, the access checks and the lifecycle of stories, over the rows
-- of the table stories; src/core/database/repositories/base.repository.ts: `update`,
-- `updateIfVersion` and `delete`. A row carries the columns that the lifecycle writes. The story that
-- an operation has read (perhaps from a cache) is an argument, apart from the rows that it writes.
-- `can` is the ability of the user, which CASL decides.
pub mod Status
pub mod Versions
pub mod Threads
pub mod Lineage
pub mod Acyclic
pub mod Parents
mod Tests
use kuybi.Prelude.Table.{remove, modify, find, count}
use kuybi.Prelude.Method.{Result, err, ok}
use kuybi.Prelude.{
  String, Option, Bool, ℕ, true, List, if◌then◌else◌, nat_beq, some, none, ◌||◌, ◌+◌, ◌&&◌, false,
  not, ltb, is_some,
}

pub data StoryStatus : Type 0 where
  draft pending_review in_review approved rejected published archived deleted suspended flagged :
      StoryStatus
  under_investigation : StoryStatus

pub data Action : Type 0 where
  read update delete restore publish : Action

pub data StoryError : Type 0 where
  not_found forbidden not_deleted use_delete no_revert only_draft version_conflict : StoryError
  no_parent parent_cycle no_country no_categories : StoryError

pub record Story (C : Type 0) : Type 0 where
  pub id : ℕ
  pub user_id : String
  pub status : StoryStatus
  pub version : ℕ
  pub deleted_at : Option ℕ
  pub deleted_by : Option String
  pub deletion_reason : Option String
  pub updated_by : Option String
  pub last_modified_by : Option String
  pub parent_id : Option ℕ
  pub country_id : Option ℕ
  pub content : C

abbrev pub is_deleted_status : StoryStatus → Bool
is_deleted_status deleted = true
is_deleted_status _ = false

abbrev pub is_published : StoryStatus → Bool
is_published published = true
is_published _ = false

abbrev pub is_draft : StoryStatus → Bool
is_draft draft = true
is_draft _ = false

-- the place of a status in the enum
abbrev pub status_index : StoryStatus → ℕ
status_index draft = 0
status_index pending_review = 1
status_index in_review = 2
status_index approved = 3
status_index rejected = 4
status_index published = 5
status_index archived = 6
status_index deleted = 7
status_index suspended = 8
status_index flagged = 9
status_index under_investigation = 10

abbrev pub same_status : StoryStatus → StoryStatus → Bool
same_status a b = nat_beq (status_index a) (status_index b)

-- AUTHOR_STATUSES
unfoldable pub is_author_status : StoryStatus → Bool
is_author_status draft = true
is_author_status pending_review = true
is_author_status _ = false

-- what `assertStatusTransition` throws
unfoldable pub assert_status_transition : Option StoryStatus → StoryStatus → Option StoryError
assert_status_transition from to =
    if is_deleted_status to
    then some use_delete
    else (if elim from [ none ↦ false | some f ↦ is_published f ] && is_draft to
        then some no_revert
        else (if elim from [ none ↦ false | some f ↦ is_deleted_status f ] && not (is_draft to)
            then some only_draft
            else none))

module _ {C : Type 0} where
  abbrev pub has_id : ℕ → Story C → Bool
  has_id id s = nat_beq s.id id

  abbrev pub has_version : ℕ → ℕ → Story C → Bool
  has_version id version s = nat_beq s.id id && nat_beq s.version version

  abbrev pub removed_row : ℕ → String → Option String → Story C → Story C
  removed_row now user_id reason s = record s {
    deleted_at = some now;
    deleted_by = some user_id;
    deletion_reason = reason;
    status = deleted;
  }

  abbrev pub restored_row : String → Story C → Story C
  restored_row user_id s = record s {
    deleted_at = none;
    deleted_by = none;
    deletion_reason = none;
    status = draft;
    updated_by = some user_id;
    last_modified_by = some user_id;
  }

  abbrev pub status_row : String → StoryStatus → Story C → Story C
  status_row user_id status s = record s {
    status = status;
    updated_by = some user_id;
    last_modified_by = some user_id;
    version = s.version + 1;
  }

  unfoldable pub find_by_id : ℕ → List (Story C) → Option (Story C)
  find_by_id id = find (has_id id)

  -- `update(id, …)`
  unfoldable pub update_row : ℕ → (Story C → Story C) → List (Story C) → List (Story C)
  update_row id f = modify (has_id id) f

  unfoldable pub update_if_version :
      ℕ → ℕ → (Story C → Story C) → List (Story C) → List (Story C) × Option (Story C)
  update_if_version id version f rows =
      let rows' = modify (has_version id version) f rows in
      if ltb 0 (count (has_version id version) rows)
      then (rows', find_by_id id rows')
      else (rows', none)

  -- `findOne`, of the row that `findById` gives
  unfoldable pub live : Option (Story C) → Result StoryError (Story C)
  live none = err not_found
  live (some s) = if is_some s.deleted_at then err not_found else ok s

  -- what `assertCanChange` throws
  unfoldable pub assert_can_change :
      (Action → Story C → Bool) → Action → Story C → Option StoryError
  assert_can_change can action s =
      if can read s then (if can action s then none else some forbidden) else some not_found

  -- what `assertCanSetStatus` throws
  unfoldable pub assert_can_set_status :
      (Action → Story C → Bool) → StoryStatus → Story C → Option StoryError
  assert_can_set_status can status s =
      if is_author_status status || can publish s then none else some forbidden

  unfoldable pub remove_story :
      (Action → Story C → Bool)
      → ℕ
      → String
      → Option String
      → ℕ
      → Option (Story C)
      → List (Story C)
      → List (Story C) × Result StoryError Unit
  remove_story can now user_id reason id seen rows = elim (live seen) [
    | err e ↦ (rows, err e)
    | ok s ↦ elim (assert_can_change can delete s) [
      | some e ↦ (rows, err e)
      | none ↦ (update_row id (removed_row now user_id reason) rows, ok tt)
    ]
  ]

  -- `manages_all`: whether the user's ability is unrestricted
  unfoldable pub hard_delete : Bool → ℕ → List (Story C) → List (Story C) × Result StoryError Unit
  hard_delete manages_all id rows =
      if manages_all
      then (
        remove (has_id id) rows,
        (if ltb 0 (count (has_id id) rows) then ok tt else err not_found),
      )
      else (rows, err forbidden)

  unfoldable pub restore_found :
      (Action → Story C → Bool)
      → String
      → ℕ
      → Story C
      → List (Story C)
      → List (Story C) × Result StoryError (Option (Story C))
  restore_found can user_id id s rows =
      let rows' = update_row id (restored_row user_id) rows in
      elim (assert_can_change can restore s) [
        | some e ↦ (rows, err e)
        | none ↦
            if is_some s.deleted_at
            then (rows', ok (find_by_id id rows'))
            else (rows, err not_deleted)
      ]

  unfoldable pub restore_story :
      (Action → Story C → Bool)
      → String
      → ℕ
      → Option (Story C)
      → List (Story C)
      → List (Story C) × Result StoryError (Option (Story C))
  restore_story can user_id id seen rows = elim seen [
    | none ↦ (rows, err not_found)
    | some s ↦ restore_found can user_id id s rows
  ]

  -- from the transition on
  unfoldable pub set_status :
      String
      → ℕ
      → StoryStatus
      → Story C
      → List (Story C)
      → List (Story C) × Result StoryError (Story C)
  set_status user_id id status s rows =
      let (rows', updated) = update_if_version id s.version (status_row user_id status) rows in
      elim (assert_status_transition (some s.status) status) [
        | some e ↦ (rows, err e)
        | none ↦ (rows', elim updated [ none ↦ err version_conflict | some t ↦ ok t ])
      ]

  unfoldable pub update_status :
      (Action → Story C → Bool)
      → String
      → ℕ
      → StoryStatus
      → Option (Story C)
      → List (Story C)
      → List (Story C) × Result StoryError (Story C)
  update_status can user_id id status seen rows = elim (live seen) [
    | err e ↦ (rows, err e)
    | ok s ↦ elim (assert_can_change can publish s) [
      | some e ↦ (rows, err e)
      | none ↦ set_status user_id id status s rows
    ]
  ]
