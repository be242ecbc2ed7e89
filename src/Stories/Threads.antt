-- ===== src/Stories/Threads.antt =====
-- src/modules/stories/services/stories.service.ts: `update`, with the checks of a new parent and of a new
-- country, and src/modules/stories/repositories/story.repository.ts: `findSelfAndAncestorIds`. What
-- `findOne`, the look-ups of the parent and the country, and the resolved tags and categories give are
-- arguments, and so are the rows that the query of the ancestors reads, apart from those that the
-- transaction writes. The automatic version that is recorded afterwards is left out.
use kuybi.Prelude.Table.{modify}
use kuybi.Prelude.Method.{Result, err, ok}
use kuybi.Stories.{
  Action, Story, StoryStatus, StoryError, live, no_country, same_status, has_id, assert_can_change,
  no_parent, find_by_id, assert_status_transition, assert_can_set_status, not_found, parent_cycle,
  update, version_conflict,
}
use kuybi.Prelude.{
  false, String, List, ℕ, Option, get_or_else, some, length, Bool, [], suc, if◌then◌else◌, ◌+◌,
  none, any, true, nat_beq, ◌∷◌, not, zero, is_some,
}

-- the changes of an update; of `parent_id` and `country_id` the outer `none` is a field that is not
-- given, the inner one null; ids are at least 1, which the DTO checks
pub record UpdateStory (C : Type 0) : Type 0 where
  pub version : Option ℕ
  pub status : Option StoryStatus
  pub parent_id : Option (Option ℕ)
  pub country_id : Option (Option ℕ)
  pub content : C → C

abbrev pub elem : ℕ → List ℕ → Bool
elem x xs = any (λ y. nat_beq y x) xs

-- the id in a field that is given, not null and another than the story's
abbrev pub changed_id : Option (Option ℕ) → Option ℕ → Option ℕ
changed_id none old = none
changed_id (some none) old = none
changed_id (some (some new)) none = some new
changed_id (some (some new)) (some old) = if nat_beq new old then none else some new

module _ {C : Type 0} where
  -- the recursive query: `seen` are the rows that its UNION holds already
  unfoldable pub chain : ℕ → List (Story C) → ℕ → List ℕ → List ℕ
  chain zero rows id seen = []
  chain (suc n) rows id seen = elim (elem id seen) [
    | true ↦ []
    | false ↦ elim (find_by_id id rows) [
      | none ↦ []
      | some s ↦ id ∷ elim s.parent_id [ none ↦ [] | some p ↦ chain n rows p (id ∷ seen) ]
    ]
  ]

  unfoldable pub find_self_and_ancestor_ids : List (Story C) → ℕ → List ℕ
  find_self_and_ancestor_ids rows id = chain (length rows + 1) rows id []

  -- what `assertParentExists` throws, for a story that is given a new parent
  unfoldable pub assert_parent_exists :
      Option (Story C) → List (Story C) → ℕ → ℕ → Option StoryError
  assert_parent_exists parent rows parent_id child_id = elim (live parent) [
    | err e ↦ some no_parent
    | ok s ↦
        if elem child_id (find_self_and_ancestor_ids rows parent_id)
        then some parent_cycle
        else none
  ]

  -- what a status in the update throws, if it is another one
  unfoldable pub status_refusal :
      (Action → Story C → Bool) → Option StoryStatus → Story C → Option StoryError
  status_refusal can none s = none
  status_refusal can (some to) s =
      if same_status to s.status then none else elim (assert_status_transition (some s.status) to) [
        | some e ↦ some e
        | none ↦ assert_can_set_status can to s
      ]

  -- what the checks of an update throw, in their order
  unfoldable pub update_refusal :
      (Action → Story C → Bool)
      → (ℕ → Option (Story C))
      → (ℕ → Bool)
      → List (Story C)
      → ℕ
      → UpdateStory C
      → Story C
      → Option StoryError
  update_refusal can found usable rows id dto s =
      let bad_country = elim (changed_id dto.country_id s.country_id) as (λ x. Option StoryError) [
        | none ↦ none
        | some c ↦ if usable c then none else some no_country
      ] in
      let bad_parent = elim (changed_id dto.parent_id s.parent_id) as (λ x. Option StoryError) [
        | none ↦ bad_country
        | some p ↦ elim (assert_parent_exists (found p) rows p id) [
          | some e ↦ some e
          | none ↦ bad_country
        ]
      ] in
      elim (assert_can_change can update s) [
        | some e ↦ some e
        | none ↦ elim (status_refusal can dto.status s) [ some e ↦ some e | none ↦ bad_parent ]
      ]

  -- the row that the transaction saves
  unfoldable pub updated_row : String → UpdateStory C → (C → C) → Story C → Story C
  updated_row user_id dto links s = record s {
    status = get_or_else dto.status s.status;
    parent_id = get_or_else dto.parent_id s.parent_id;
    country_id = get_or_else dto.country_id s.country_id;
    content = links (dto.content s.content);
    updated_by = some user_id;
    last_modified_by = some user_id;
    version = s.version + 1;
  }

  -- the transaction; the row is locked from the version check on
  unfoldable pub write_update :
      String
      → ℕ
      → ℕ
      → UpdateStory C
      → (C → C)
      → List (Story C)
      → List (Story C) × Result StoryError (Story C)
  write_update user_id id expected dto links rows =
      let rows' = modify (has_id id) (updated_row user_id dto links) rows in
      elim (find_by_id id rows) [
        | none ↦ (rows, err not_found)
        | some s ↦
            if not (nat_beq s.version expected)
            then (rows, err version_conflict)
            else (if is_some s.deleted_at
                then (rows, err not_found)
                else (rows', live (find_by_id id rows')))
      ]

  -- `seen` is what `findOne` has read, and `links` the tags and categories that were resolved
  unfoldable pub update_story :
      (Action → Story C → Bool)
      → (ℕ → Option (Story C))
      → (ℕ → Bool)
      → List (Story C)
      → String
      → ℕ
      → UpdateStory C
      → Result StoryError (C → C)
      → Option (Story C)
      → List (Story C)
      → List (Story C) × Result StoryError (Story C)
  update_story can found usable lineage_rows user_id id dto links seen rows = elim (live seen) [
    | err e ↦ (rows, err e)
    | ok s ↦ elim (update_refusal can found usable lineage_rows id dto s) [
      | some e ↦ (rows, err e)
      | none ↦ elim links [
        | err e ↦ (rows, err e)
        | ok f ↦ write_update user_id id (get_or_else dto.version s.version) dto f rows
      ]
    ]
  ]
