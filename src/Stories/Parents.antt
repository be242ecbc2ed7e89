-- ===== src/Stories/Parents.antt =====
-- src/modules/stories/services/stories.service.ts: `update` keeps the threads free of cycles, one update
-- after another; two at once may form one.
use kuybi.Stories.Acyclic.{modified_found, IsAcyclic, modified-SameBut, IsAcyclic-step}
use kuybi.Prelude.Method.{is_ok, Result, ok, err}
use kuybi.Stories.Threads.{
  write_update, UpdateStory, updated_row, update_refusal, assert_parent_exists, changed_id, elem,
  find_self_and_ancestor_ids, update_story,
}
use kuybi.Prelude.Table.{modify}
use mathlib.Core.Path.{subst}
use kuybi.Stories.Lineage.{Reaches, here, up, lineage_exact}
use kuybi.Stories.{Story, find_by_id, has_id, Action, live, StoryError}
use kuybi.Prelude.{
  List, ℕ, nat_beq, ◌≡◌, false, some, Bool-cases, inl, inr, sym, ◌∙◌, arith, ◌⊎◌, true, ap, String,
  Option-cases, is_some, Option, get_or_else, Bool, none, refl,
}

-- the parent that an update writes
parent-cases :
    (dto : Option (Option ℕ)) (old : Option ℕ) (p : ℕ)
    → get_or_else dto old ≡ some p
    → (old ≡ some p) ⊎ (changed_id dto old ≡ some p)
parent-cases none old p h = inl (ground (arith, h))
parent-cases (some none) old p h = absurd (ground (arith, h))
parent-cases (some (some q)) none p h = inr (ground (arith, h))
parent-cases (some (some q)) (some o) p h = elim (Bool-cases (nat_beq q o)) [
  | inl e ↦ inl (ground (arith, h, e))
  | inr e ↦ inr (ground (arith, h, e))
]

module _ {C : Type 0} where
  write-cases :
      (user_id : String) (id expected : ℕ) (dto : UpdateStory C) (links : C → C)
      (rows : List (Story C))
      → ((write_update user_id id expected dto links rows).0 ≡ rows)
        ⊎ ((write_update user_id id expected dto links rows).0
            ≡ modify (has_id id) (updated_row user_id dto links) rows)
  unfolding write_update
  write-cases user_id id expected dto links rows = elim (Option-cases (find_by_id id rows)) [
    | inl f ↦ inl (ground (arith, f))
    | inr (s, f) ↦ elim (Bool-cases (nat_beq s.version expected)) [
      | inr e ↦ inl (ground (arith, f, e))
      | inl e ↦ elim (Bool-cases (is_some s.deleted_at)) [
        | inl d ↦ inl (ground (arith, f, e, d))
        | inr d ↦ inr (ground (arith, f, e, d))
      ]
    ]
  ]

  -- An update that is not refused has looked at what is above a new parent.
  lineage_checked :
      (can : Action → Story C → Bool) (found : ℕ → Option (Story C)) (usable : ℕ → Bool)
      (rows : List (Story C)) (id : ℕ) (dto : UpdateStory C) (s : Story C) (p : ℕ)
      → update_refusal can found usable rows id dto s ≡ none
      → changed_id dto.parent_id s.parent_id ≡ some p
      → elem id (find_self_and_ancestor_ids rows p) ≡ false
  unfolding update_refusal assert_parent_exists
  lineage_checked can found usable rows id dto s p h c =
      elim (Bool-cases (elem id (find_self_and_ancestor_ids rows p))) [
        | inr e ↦ e
        | inl e ↦ absurd (ground (arith, h, c, e))
      ]

  modified-IsAcyclic :
      (can : Action → Story C → Bool) (found : ℕ → Option (Story C)) (usable : ℕ → Bool)
      (user_id : String) (id : ℕ) (dto : UpdateStory C) (links : C → C) (s : Story C)
      (rows : List (Story C))
      → find_by_id id rows ≡ some s
      → update_refusal can found usable rows id dto s ≡ none
      → IsAcyclic rows
      → IsAcyclic (modify (has_id id) (updated_row user_id dto links) rows)
  unfolding updated_row IsAcyclic
  modified-IsAcyclic can found usable user_id id dto links s rows f h acyclic =
      let g = updated_row user_id dto links in
      IsAcyclic-step (modify (has_id id) g rows) (modified-SameBut id g rows (λ t. refl)) f
        (modified_found id g rows (λ t. refl) f)
        (λ p k r. elim (parent-cases dto.parent_id s.parent_id p k) [
          | inl old ↦ acyclic id p s f old r
          | inr new ↦
              let away = lineage_checked can found usable rows id dto s p h new in
              let there = ((lineage_exact rows p).0 id).1 r in absurd (ground (arith, away, there))
        ])
        acyclic

  -- An update changes nothing, or it has passed its checks and changes the row.
  update-cases :
      (can : Action → Story C → Bool) (found : ℕ → Option (Story C)) (usable : ℕ → Bool)
      (read : List (Story C)) (user_id : String) (id : ℕ) (dto : UpdateStory C)
      (links : Result StoryError (C → C)) (seen : Option (Story C)) (rows : List (Story C))
      → let rows' = (update_story can found usable read user_id id dto links seen rows).0 in
        (rows' ≡ rows)
        ⊎ ((s : Story C) × (g : C → C) × (seen ≡ some s)
            × (update_refusal can found usable read id dto s ≡ none)
            × (rows' ≡ modify (has_id id) (updated_row user_id dto g) rows))
  unfolding update_story live
  update-cases can found usable read user_id id dto links none rows = inl (ground arith)
  update-cases can found usable read user_id id dto (err e) (some s) rows = inl (ground arith)
  update-cases can found usable read user_id id dto (ok g) (some s) rows =
      elim (Bool-cases (is_some s.deleted_at)) [
        | inl d ↦ inl (ground (arith, d))
        | inr d ↦ elim (Option-cases (update_refusal can found usable read id dto s)) [
          | inr (e, h) ↦ inl (ground (arith, d, h))
          | inl h ↦ elim (write-cases user_id id (get_or_else dto.version s.version) dto g rows) [
            | inl w ↦ inl (ground (arith, d, h, w))
            | inr w ↦ inr (s, g, refl, h, ground (arith, d, h, w))
          ]
        ]
      ]

  -- An update keeps the threads free of cycles, whatever it changes and however it ends, if nothing else
  -- runs between its reads and its write.
  pub update_story-IsAcyclic :
      (can : Action → Story C → Bool) (found : ℕ → Option (Story C)) (usable : ℕ → Bool)
      (user_id : String) (id : ℕ) (dto : UpdateStory C) (links : Result StoryError (C → C))
      (rows : List (Story C))
      → IsAcyclic rows
      → IsAcyclic
          (update_story can found usable rows user_id id dto links (find_by_id id rows) rows).0
  update_story-IsAcyclic can found usable user_id id dto links rows acyclic =
      elim (update-cases can found usable rows user_id id dto links (find_by_id id rows) rows) [
        | inl e ↦ subst IsAcyclic (sym e) acyclic
        | inr (s, g, f, h, e) ↦
            subst IsAcyclic (sym e)
              (modified-IsAcyclic can found usable user_id id dto g s rows f h acyclic)
      ]

  written :
      (user_id : String) (id expected : ℕ) (dto : UpdateStory C) (links : C → C)
      (rows rows2 : List (Story C))
      → find_by_id id rows2 ≡ find_by_id id rows
      → is_ok (write_update user_id id expected dto links rows).1 ≡ true
      → let u = write_update user_id id expected dto links rows2 in
        (u.0 ≡ modify (has_id id) (updated_row user_id dto links) rows2) × (is_ok u.1 ≡ true)
  unfolding write_update updated_row live
  written user_id id expected dto links rows rows2 same h =
      elim (Option-cases (find_by_id id rows)) [
        | inl f ↦ absurd (ground (arith, f, h))
        | inr (s, f) ↦ elim (Bool-cases (nat_beq s.version expected)) [
          | inr e ↦ absurd (ground (arith, f, e, h))
          | inl e ↦ elim (Bool-cases (is_some s.deleted_at)) [
            | inl d ↦ absurd (ground (arith, f, e, d, h))
            | inr d ↦
                let found =
                  modified_found id (updated_row user_id dto links) rows2 {s = s} (λ t. refl)
                    (same ∙ f) in
                (ground (arith, same, f, e, d), ground (arith, same, f, e, d, found))
          ]
        ]
      ]

  -- An update that is accepted is accepted on other rows too, if its own is the same.
  accepted :
      (can : Action → Story C → Bool) (found : ℕ → Option (Story C)) (usable : ℕ → Bool)
      (read : List (Story C)) (user_id : String) (id : ℕ) (dto : UpdateStory C) (g : C → C)
      (s : Story C) (rows rows2 : List (Story C))
      → find_by_id id rows2 ≡ find_by_id id rows
      → is_ok (update_story can found usable read user_id id dto (ok g) (some s) rows).1 ≡ true
      → let u = update_story can found usable read user_id id dto (ok g) (some s) rows2 in
        (u.0 ≡ modify (has_id id) (updated_row user_id dto g) rows2) × (is_ok u.1 ≡ true)
  unfolding update_story live
  accepted can found usable read user_id id dto g s rows rows2 same h =
      elim (Bool-cases (is_some s.deleted_at)) [
        | inl d ↦ absurd (ground (arith, d, h))
        | inr d ↦ elim (Option-cases (update_refusal can found usable read id dto s)) [
          | inr (e, k) ↦ absurd (ground (arith, d, h, k))
          | inl k ↦
              let w =
                written user_id id (get_or_else dto.version s.version) dto g rows rows2 same
                  (ground (arith, d, h, k)) in
              (ground (arith, d, k, w), ground (arith, d, k, w))
        ]
      ]

  new_parent :
      (user_id : String) (dto : UpdateStory C) (f : C → C) (s : Story C) (p : ℕ)
      → dto.parent_id ≡ some (some p)
      → (updated_row user_id dto f s).parent_id ≡ some p
  unfolding updated_row
  new_parent user_id dto f s p h = ground (arith, h)

  cyclic :
      (rows : List (Story C)) {a b : ℕ} {s : Story C}
      → find_by_id a rows ≡ some s
      → s.parent_id ≡ some b
      → Reaches rows b a
      → IsAcyclic rows
      → ⊥
  unfolding IsAcyclic
  cyclic rows {a} {b} {s} f g r acyclic = acyclic a b s f g r

  -- Of two stories, let an update give each the other as its parent, and let each be accepted where
  -- only it runs. Where both read before either writes, both are accepted, each story is above the
  -- other, and the threads have a cycle.
  pub crossing_updates :
      (can : Action → Story C → Bool) (found : ℕ → Option (Story C)) (usable : ℕ → Bool)
      (user_id user_id' : String) (a b : ℕ) (dto dto' : UpdateStory C) (f g : C → C) (s t : Story C)
      (rows : List (Story C))
      → nat_beq a b ≡ false
      → find_by_id a rows ≡ some s
      → find_by_id b rows ≡ some t
      → dto.parent_id ≡ some (some b)
      → dto'.parent_id ≡ some (some a)
      → is_ok (update_story can found usable rows user_id a dto (ok f) (some s) rows).1 ≡ true
      → is_ok (update_story can found usable rows user_id' b dto' (ok g) (some t) rows).1 ≡ true
      → let (rows', first) =
          update_story can found usable rows user_id a dto (ok f) (some s) rows in
        let (rows'', second) =
          update_story can found usable rows user_id' b dto' (ok g) (some t) rows' in
        (is_ok second ≡ true) × Reaches rows'' a b × Reaches rows'' b a × (IsAcyclic rows'' → ⊥)
  unfolding updated_row
  crossing_updates can found usable user_id user_id' a b dto dto' f g s t rows other fa fb pa pb
        first second =
      let h = updated_row user_id dto f in
      let k = updated_row user_id' dto' g in
      let one = accepted can found usable rows user_id a dto f s rows rows refl first in
      let rows' = (update_story can found usable rows user_id a dto (ok f) (some s) rows).0 in
      let other' : nat_beq b a ≡ false = ground (arith, other) in
      let kept : find_by_id b rows' ≡ find_by_id b rows =
        ap (find_by_id b) one.0 ∙ modified-SameBut a h rows (λ u. refl) b other' in
      let two = accepted can found usable rows user_id' b dto' g t rows rows' kept second in
      let rows'' = (update_story can found usable rows user_id' b dto' (ok g) (some t) rows').0 in
      let fb' : find_by_id b rows'' ≡ some (k t) =
        ap (find_by_id b) two.0 ∙ modified_found b k rows' (λ u. refl) (kept ∙ fb) in
      let fa' : find_by_id a rows'' ≡ some (h s) =
        ap (find_by_id a) two.0
        ∙ modified-SameBut b k rows' (λ u. refl) a other
        ∙ ap (find_by_id a) one.0
        ∙ modified_found a h rows (λ u. refl) fa in
      let ha = new_parent user_id dto f s b pa in
      let hb = new_parent user_id' dto' g t a pb in
      (
        two.1,
        up fa' ha (here fb'),
        up fb' hb (here fa'),
        cyclic rows'' fa' ha (up fb' hb (here fa')),
      )
