-- ===== src/Stories/Tests.antt =====
-- A story in review, that two editors work on.
use kuybi.Stories.Parents.{update_story-IsAcyclic, crossing_updates}
use kuybi.Stories.Lineage.{Reaches, lineage_exact}
use kuybi.Stories.Threads.{
  update_story, UpdateStory, update_refusal, elem, status_refusal, find_self_and_ancestor_ids,
  assert_parent_exists, chain, write_update, updated_row,
}
use kuybi.Stories.Acyclic.{IsAcyclic}
use kuybi.Stories.Versions.{one_change_wins}
use kuybi.Prelude.Method.{is_ok, ok}
use kuybi.Stories.Status.{IsConsistent, lifecycle-IsConsistent, late_change}
use kuybi.Prelude.Table.{count, find, modify, find-All}
use kuybi.Prelude.{
  All, ◌≡◌, List, some, String, ◌∷◌, ◌≤◌, refl, Bool, none, arith, true, [], false, ℕ, Option, ◌↔◌,
  length, ◌+◌,
}
use kuybi.Stories.{
  find_by_id, update_status, Action, Story, assert_status_transition, live, has_id, published,
  assert_can_change, rejected, remove_story, status_row, in_review, set_status, update_if_version,
  removed_row, restore_story,
}

abbrev story : Story String
story = record {
  id = 7;
  user_id = "u1";
  status = in_review;
  version = 3;
  deleted_at = none;
  deleted_by = none;
  deletion_reason = none;
  updated_by = none;
  last_modified_by = none;
  parent_id = none;
  country_id = none;
  content = "text";
}

abbrev rows : List (Story String)
rows = record story { id = 6 } ∷ story ∷ []

abbrev allow_all : Action → Story String → Bool
allow_all a s = true

found_story : find_by_id 7 rows ≡ some story
unfolding find_by_id find
found_story = refl

one_story : count (has_id 7) rows ≤ 1
unfolding count
one_story = omega arith

publishes : is_ok (update_status allow_all "e1" 7 published (some story) rows).1 ≡ true
unfolding update_status live assert_can_change set_status update_if_version assert_status_transition
    count modify find_by_id find
publishes = refl

one_change_wins_example :
    let rows' = (update_status allow_all "e1" 7 published (some story) rows).0 in
    ((update_status allow_all "e2" 7 rejected (some story) rows').0 ≡ rows')
    × (is_ok (update_status allow_all "e2" 7 rejected (some story) rows').1 ≡ false)
one_change_wins_example =
    one_change_wins allow_all allow_all "e1" "e2" 7 published rejected story rows publishes

lifecycle-IsConsistent_example :
    All IsConsistent (remove_story allow_all 50 "e1" none 7 (some story) rows).0
    × All IsConsistent (restore_story allow_all "e1" 7 (some story) rows).0
    × All IsConsistent (update_status allow_all "e1" 7 published (find_by_id 7 rows) rows).0
lifecycle-IsConsistent_example =
    lifecycle-IsConsistent allow_all 50 "e1" none 7 published (some story) rows (refl, (refl, tt))
      one_story

may_publish : assert_status_transition (some in_review) published ≡ none
unfolding assert_status_transition
may_publish = refl

late_change_example :
    let (rows', answer) =
      update_status allow_all "e2" 7 published
        (some story)
        (remove_story allow_all 50 "e1" none 7 (some story) rows).0 in
    let late = status_row "e2" published (removed_row 50 "e1" none story) in
    (answer ≡ ok late) × (find_by_id 7 rows' ≡ some late)
late_change_example =
    late_change allow_all 50 "e1" "e2" none 7 published story rows found_story refl refl refl refl
      may_publish

-- two roots have no cycle
no_parents : All (λ s. s.parent_id ≡ none) rows
no_parents = (refl, (refl, tt))

rows-IsAcyclic : IsAcyclic rows
unfolding IsAcyclic find_by_id
rows-IsAcyclic id p s f g r =
    absurd (ground (arith, find-All (λ t. t.parent_id ≡ none) (has_id id) rows no_parents f, g))

abbrev under : ℕ → UpdateStory String
under p = record {
  version = none;
  status = none;
  parent_id = some (some p);
  country_id = none;
  content = λ c. c;
}

abbrev lookup : ℕ → Option (Story String)
lookup id = some story

abbrev any_country : ℕ → Bool
any_country id = true

lineage_exact_example :
    ((x : ℕ) → (elem x (find_self_and_ancestor_ids rows 7) ≡ true) ↔ Reaches rows 7 x)
    × ((n : ℕ) → chain (length rows + 1 + n) rows 7 [] ≡ find_self_and_ancestor_ids rows 7)
lineage_exact_example = lineage_exact rows 7

update_story-IsAcyclic_example :
    IsAcyclic
      (update_story allow_all lookup any_country rows "e1" 7
        (under 6)
        (ok (λ c. c))
        (find_by_id 7 rows)
        rows).0
update_story-IsAcyclic_example =
    update_story-IsAcyclic allow_all lookup any_country "e1" 7 (under 6) (ok (λ c. c)) rows
      rows-IsAcyclic

abbrev other_story : Story String
other_story = record story { id = 6 }

found_other : find_by_id 6 rows ≡ some other_story
unfolding find_by_id find
found_other = refl

under_six :
    is_ok
      (update_story allow_all lookup any_country rows "e1" 7
        (under 6)
        (ok (λ c. c))
        (some story)
        rows).1
    ≡ true
unfolding update_story live update_refusal assert_can_change status_refusal assert_parent_exists
    find_self_and_ancestor_ids chain find_by_id find write_update updated_row modify
under_six = refl

under_seven :
    is_ok
      (update_story allow_all lookup any_country rows "e2" 6
        (under 7)
        (ok (λ c. c))
        (some other_story)
        rows).1
    ≡ true
unfolding update_story live update_refusal assert_can_change status_refusal assert_parent_exists
    find_self_and_ancestor_ids chain find_by_id find write_update updated_row modify
under_seven = refl

crossing_updates_example :
    let (rows', first) =
      update_story allow_all lookup any_country rows "e1" 7
        (under 6)
        (ok (λ c. c))
        (some story)
        rows in
    let (rows'', second) =
      update_story allow_all lookup any_country rows "e2" 6
        (under 7)
        (ok (λ c. c))
        (some other_story)
        rows' in
    (is_ok second ≡ true) × Reaches rows'' 7 6 × Reaches rows'' 6 7 × (IsAcyclic rows'' → ⊥)
crossing_updates_example =
    crossing_updates allow_all lookup any_country "e1" "e2" 7 6 (under 6) (under 7) (λ c. c)
      (λ c. c) story other_story rows refl found_story found_other refl refl under_six under_seven
