-- ===== src/Stories/Status.antt =====
-- src/modules/stories: the status of a story and its soft deletion.
use kuybi.Prelude.Table.Untouched.{only_row}
use kuybi.Prelude.Method.{is_ok, ok}
use kuybi.Prelude.Table.{modify, count, find_sound, count-and_some, find-modify_found, find}
use kuybi.Prelude.{
  ℕ, is_some, Bool, ◌≡◌, List, String, Option, All, none, some, false, arith, true, ◌∷◌, Bool-cases,
  ◌≤◌, [], inl, Option-cases, refl, inr, ◌&&◌, nat_beq, ◌<◌,
}
use kuybi.Stories.{
  Action, Story, set_status, remove_story, update_status, restore_story, update_row, live,
  restore_found, update_if_version, StoryStatus, find_by_id, assert_status_transition,
  assert_can_change, is_deleted_status, has_id, removed_row, restored_row, has_version, status_row,
  read, delete, is_published, publish, is_draft,
}

module _ {C : Type 0} where
  abbrev pub IsConsistent : Story C → Type 0
  IsConsistent s = is_some s.deleted_at ≡ is_deleted_status s.status

  modify-All :
      (P : Story C → Type 0) (p : Story C → Bool) (f : Story C → Story C) (rows : List (Story C))
      → All (λ x. p x ≡ true → P (f x)) rows
      → All P rows
      → All P (modify p f rows)
  unfolding modify
  modify-All P p f [] k h = tt
  modify-All P p f (x ∷ rows) (k, ks) (h, hs) = elim (Bool-cases (p x)) [
    | inl e ↦ ground (arith, e, k e, modify-All P p f rows ks hs)
    | inr e ↦ ground (arith, e, h, modify-All P p f rows ks hs)
  ]

  modify-All_always :
      (p : Story C → Bool) (f : Story C → Story C) (rows : List (Story C))
      → ((x : Story C) → IsConsistent (f x))
      → All IsConsistent rows
      → All IsConsistent (modify p f rows)
  modify-All_always p f rows k h = modify-All IsConsistent p f rows (all_of rows) h
    where
      all_of : (xs : List (Story C)) → All (λ x. p x ≡ true → IsConsistent (f x)) xs
      all_of [] = tt
      all_of (x ∷ xs) = (λ e. k x, all_of xs)

  -- After a status change whose read was up to date, or not: if it succeeds, with the row of the id
  -- unique, that row had the version that was read, has the new status, the next version and the
  -- user's name, and all else as before; the new status is not DELETED, and the change is not from
  -- PUBLISHED to DRAFT.
  pub changed_row :
      (can : Action → Story C → Bool) (user_id : String) (id : ℕ) (status : StoryStatus)
      (s r : Story C) (rows : List (Story C))
      → find_by_id id rows ≡ some r
      → count (has_id id) rows ≤ 1
      → is_ok (update_status can user_id id status (some s) rows).1 ≡ true
      → (r.version ≡ s.version)
        × (find_by_id id (update_status can user_id id status (some s) rows).0
            ≡ some (status_row user_id status r))
        × (is_deleted_status status ≡ false)
        × ((is_published s.status && is_draft status) ≡ false)
  unfolding update_status live set_status update_if_version find_by_id assert_status_transition
  changed_row can user_id id status s r rows f u h =
      let c = count-and_some (has_id id) (λ x. nat_beq x.version s.version) rows f u in
      let m =
        find-modify_found (has_id id) (has_version id s.version) (status_row user_id status) rows
          (λ x e. refl) f in
      let i = find_sound (has_id id) rows f in
      (ground (arith, h, c), ground (arith, h, c, m, i), ground (arith, h), ground (arith, h))

  fresh-IsConsistent :
      (id : ℕ) (status : StoryStatus) (user_id : String) (s : Story C) (rows : List (Story C))
      → is_deleted_status status ≡ false
      → s.deleted_at ≡ none
      → All (λ x. has_id id x ≡ true → x ≡ s) rows
      → All
          (λ x. has_version id s.version x ≡ true → IsConsistent (status_row user_id status x))
          rows
  fresh-IsConsistent id status user_id s [] d n h = tt
  fresh-IsConsistent id status user_id s (x ∷ rows) d n (h, hs) = (
    λ e. ground (arith, d, n, h (ground (arith, e))),
    fresh-IsConsistent id status user_id s rows d n hs,
  )

  remove-IsConsistent :
      (can : Action → Story C → Bool) (now : ℕ) (user_id : String) (reason : Option String) (id : ℕ)
      (seen : Option (Story C)) (rows : List (Story C))
      → All IsConsistent rows
      → All IsConsistent (remove_story can now user_id reason id seen rows).0
  unfolding remove_story update_row live
  remove-IsConsistent can now user_id reason id none rows h = h
  remove-IsConsistent can now user_id reason id (some s) rows h =
      ground (
        arith,
        h,
        modify-All_always (has_id id) (removed_row now user_id reason) rows (λ x. refl) h,
      )

  restore-IsConsistent :
      (can : Action → Story C → Bool) (user_id : String) (id : ℕ) (seen : Option (Story C))
      (rows : List (Story C))
      → All IsConsistent rows
      → All IsConsistent (restore_story can user_id id seen rows).0
  unfolding restore_story restore_found update_row
  restore-IsConsistent can user_id id none rows h = h
  restore-IsConsistent can user_id id (some s) rows h =
      ground (arith, h, modify-All_always (has_id id) (restored_row user_id) rows (λ x. refl) h)

  set-IsConsistent :
      (user_id : String) (id : ℕ) (status : StoryStatus) (s : Story C) (rows : List (Story C))
      → s.deleted_at ≡ none
      → find_by_id id rows ≡ some s
      → All IsConsistent rows
      → count (has_id id) rows ≤ 1
      → All IsConsistent (set_status user_id id status s rows).0
  unfolding set_status update_if_version assert_status_transition find_by_id
  set-IsConsistent user_id id status s rows n f h u = elim (Bool-cases (is_deleted_status status)) [
    | inl d ↦ ground (arith, d, h)
    | inr d ↦ ground (
      arith,
      h,
      modify-All IsConsistent (has_version id s.version) (status_row user_id status) rows
          (fresh-IsConsistent id status user_id s rows d n (only_row (has_id id) rows f u)) h,
    )
  ]

  status-IsConsistent :
      (can : Action → Story C → Bool) (user_id : String) (id : ℕ) (status : StoryStatus)
      (rows : List (Story C))
      → All IsConsistent rows
      → count (has_id id) rows ≤ 1
      → All IsConsistent (update_status can user_id id status (find_by_id id rows) rows).0
  unfolding update_status live
  status-IsConsistent can user_id id status rows h u = elim (Option-cases (find_by_id id rows)) [
    | inl e ↦ ground (arith, e, h)
    | inr (s, e) ↦ elim (Option-cases s.deleted_at) [
      | inl n ↦ ground (arith, e, h, n, set-IsConsistent user_id id status s rows n e h u)
      | inr (t, n) ↦ ground (arith, e, n, h)
    ]
  ]

  -- Where a story has DELETED as its status exactly when it has a deletion date, in every row:
  -- removing and restoring keep that, whatever was read; and a status change keeps it when it read
  -- the row that it writes, the id being unique.
  pub lifecycle-IsConsistent :
      (can : Action → Story C → Bool) (now : ℕ) (user_id : String) (reason : Option String) (id : ℕ)
      (status : StoryStatus) (seen : Option (Story C)) (rows : List (Story C))
      → All IsConsistent rows
      → count (has_id id) rows ≤ 1
      → All IsConsistent (remove_story can now user_id reason id seen rows).0
        × All IsConsistent (restore_story can user_id id seen rows).0
        × All IsConsistent (update_status can user_id id status (find_by_id id rows) rows).0
  lifecycle-IsConsistent can now user_id reason id status seen rows h u = (
    remove-IsConsistent can now user_id reason id seen rows h,
    restore-IsConsistent can user_id id seen rows h,
    status-IsConsistent can user_id id status rows h u,
  )

  version-counts :
      (id version : ℕ) (rows : List (Story C)) (s : Story C)
      → find (has_id id) rows ≡ some s
      → s.version ≡ version
      → 0 < count (has_version id version) rows
  unfolding find count
  version-counts id version [] s f v = absurd (ground (arith, f))
  version-counts id version (x ∷ rows) s f v = elim (Bool-cases (has_id id x)) [
    | inl e ↦ ground (arith, f, v, e)
    | inr e ↦ ground (arith, e, version-counts id version rows s (ground (arith, f, e)) v)
  ]

  set_status-writes :
      (user_id : String) (id : ℕ) (status : StoryStatus) (s t : Story C) (rows : List (Story C))
      → find_by_id id rows ≡ some t
      → t.version ≡ s.version
      → assert_status_transition (some s.status) status ≡ none
      → let (rows', answer) = set_status user_id id status s rows in
        (answer ≡ ok (status_row user_id status t))
        × (find_by_id id rows' ≡ some (status_row user_id status t))
  unfolding set_status update_if_version find_by_id
  set_status-writes user_id id status s t rows f v pass =
      let i = find_sound (has_id id) rows f in
      let n = version-counts id s.version rows t f v in
      let m =
        find-modify_found (has_id id) (has_version id s.version) (status_row user_id status) rows
          {a = t} (λ x e. refl) f in
      (ground (arith, pass, n, m, i, v), ground (arith, pass, m, i, v))

  -- A status change that has read a live story, and is allowed, before the story is removed, and
  -- writes after that: it succeeds and returns the row that it leaves, which has a deletion date and
  -- the new status.
  pub late_change :
      (can : Action → Story C → Bool) (now : ℕ) (remover user_id : String) (reason : Option String)
      (id : ℕ) (status : StoryStatus) (s : Story C) (rows : List (Story C))
      → find_by_id id rows ≡ some s
      → s.deleted_at ≡ none
      → can read s ≡ true
      → can delete s ≡ true
      → can publish s ≡ true
      → assert_status_transition (some s.status) status ≡ none
      → let (rows', answer) =
          update_status can user_id id status
            (some s)
            (remove_story can now remover reason id (some s) rows).0 in
        let late = status_row user_id status (removed_row now remover reason s) in
        (answer ≡ ok late) × (find_by_id id rows' ≡ some late)
  unfolding update_status live find_by_id remove_story update_row assert_can_change
  late_change can now remover user_id reason id status s rows f l cr cd cp t =
      let f' =
        find-modify_found (has_id id) (has_id id) (removed_row now remover reason) rows
          (λ x e. refl) f in
      let i = find_sound (has_id id) rows f in
      let gone = (remove_story can now remover reason id (some s) rows).0 in
      let (a, r) =
        set_status-writes user_id id status s (removed_row now remover reason s) gone
          (ground (arith, l, cr, cd, f', i)) refl t in
      (ground (arith, l, cr, cp, a), ground (arith, l, cr, cp, r))
