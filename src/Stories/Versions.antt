-- ===== src/Stories/Versions.antt =====
-- src/modules/stories/services/story-lifecycle.service.ts: status changes against the version that was
-- read.
use kuybi.Prelude.Table.Untouched.{modify_untouched}
use kuybi.Prelude.Table.{count, modify, count-modify_zero}
use kuybi.Prelude.Method.{is_ok}
use kuybi.Stories.{
  update_status, set_status, Action, update_if_version, Story, live, StoryStatus, has_version,
  status_row,
}
use kuybi.Prelude.{ℕ, String, Bool, List, some, ◌≡◌, false, true, arith}

module _ {C : Type 0} where
  moved_on :
      (id v : ℕ) (user_id : String) (status : StoryStatus) (rows : List (Story C))
      → count (has_version id v) (modify (has_version id v) (status_row user_id status) rows) ≡ 0
  moved_on id v user_id status rows =
      count-modify_zero (has_version id v) (has_version id v) (status_row user_id status) rows
        (λ x h. ground (arith, h)) (λ x h. h)

  set_status_stale :
      (user_id : String) (id : ℕ) (status : StoryStatus) (s : Story C) (rows : List (Story C))
      → count (has_version id s.version) rows ≡ 0
      → ((set_status user_id id status s rows).0 ≡ rows)
        × (is_ok (set_status user_id id status s rows).1 ≡ false)
  unfolding set_status update_if_version
  set_status_stale user_id id status s rows h = (
    ground
        (arith, h, modify_untouched (has_version id s.version) (status_row user_id status) rows h),
    ground (arith, h),
  )

  update_status_stale :
      (can : Action → Story C → Bool) (user_id : String) (id : ℕ) (status : StoryStatus)
      (s : Story C) (rows : List (Story C))
      → count (has_version id s.version) rows ≡ 0
      → ((update_status can user_id id status (some s) rows).0 ≡ rows)
        × (is_ok (update_status can user_id id status (some s) rows).1 ≡ false)
  unfolding update_status live
  update_status_stale can user_id id status s rows h =
      let (r, e) = set_status_stale user_id id status s rows h in
      (ground (arith, r), ground (arith, e))

  update_status_moves :
      (can : Action → Story C → Bool) (user_id : String) (id : ℕ) (status : StoryStatus)
      (s : Story C) (rows : List (Story C))
      → is_ok (update_status can user_id id status (some s) rows).1 ≡ true
      → count (has_version id s.version) (update_status can user_id id status (some s) rows).0 ≡ 0
  unfolding update_status live set_status update_if_version
  update_status_moves can user_id id status s rows h =
      ground (arith, h, moved_on id s.version user_id status rows)

  -- Of two status changes made from the same read of a story, by any users and to any statuses, the
  -- second fails and changes no row once the first has succeeded.
  pub one_change_wins :
      (can can' : Action → Story C → Bool) (user_id user_id' : String) (id : ℕ)
      (status status' : StoryStatus) (s : Story C) (rows : List (Story C))
      → is_ok (update_status can user_id id status (some s) rows).1 ≡ true
      → let rows' = (update_status can user_id id status (some s) rows).0 in
        ((update_status can' user_id' id status' (some s) rows').0 ≡ rows')
        × (is_ok (update_status can' user_id' id status' (some s) rows').1 ≡ false)
  one_change_wins can can' user_id user_id' id status status' s rows h =
      update_status_stale can' user_id' id status' s
        (update_status can user_id id status (some s) rows).0
        (update_status_moves can user_id id status s rows h)
