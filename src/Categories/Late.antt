-- ===== src/Categories/Late.antt =====
-- src/modules/categories/services/categories.service.ts: an update that read its category before the
-- category was removed.
use kuybi.Categories.Taken.{same_text_refl}
use kuybi.Prelude.Method.{ok}
use kuybi.Prelude.Table.{modify, count, find_sound, count_found, find-modify_found}
use kuybi.Categories.{
  remove_category, Category, clashes, UpdateCategory, update, find_one, holds_slug, live_id,
  has_version, slug_safe, removed_row, updated_row, update_if_version, is_live, find_by_id, has_id,
}
use kuybi.Prelude.{
  String, ℕ, List, Bool, ◌≡◌, All, true, ◌≤◌, false, ◌∷◌, arith, [], Bool-cases, some, refl, inl,
  none, inr, ◌<◌,
}

module _ {C : Type 0} where
  -- what a statement changes is deleted afterwards
  abbrev IsEnded : (Category C → Bool) → (Category C → Category C) → List (Category C) → Type 0
  IsEnded p f = All (λ c. p c ≡ true → is_live (f c) ≡ false)

  ended_holders :
      (slug : List ℕ) (p : Category C → Bool) (f : Category C → Category C)
      (rows : List (Category C))
      → IsEnded p f rows
      → count (holds_slug slug) (modify p f rows) ≤ count (holds_slug slug) rows
  unfolding count modify
  ended_holders slug p f [] h = omega arith
  ended_holders slug p f (c ∷ cs) h = elim (Bool-cases (p c)) [
    | inl e ↦ ground (arith, e, h.0 e, ended_holders slug p f cs h.1)
    | inr e ↦ ground (arith, e, ended_holders slug p f cs h.1)
  ]

  no_clash :
      (p : Category C → Bool) (f : Category C → Category C) (rows : List (Category C))
      → IsEnded p f rows
      → clashes rows ≡ false
      → clashes (modify p f rows) ≡ false
  unfolding clashes modify
  no_clash p f [] h k = refl
  no_clash p f (c ∷ cs) h k = elim (Bool-cases (p c)) [
    | inl e ↦ ground (arith, e, h.0 e, k, no_clash p f cs h.1)
    | inr e ↦ ground (arith, e, k, no_clash p f cs h.1, ended_holders c.slug p f cs h.1)
  ]

  removed-IsEnded :
      (now : ℕ) (id deleted_by : String) (rows : List (Category C))
      → IsEnded (live_id id) (removed_row now deleted_by) rows
  removed-IsEnded now id deleted_by [] = tt
  removed-IsEnded now id deleted_by (c ∷ cs) = (λ e. refl, removed-IsEnded now id deleted_by cs)

  late-IsEnded :
      (now : ℕ) (id deleted_by updated_by : String) (version : ℕ) (change : UpdateCategory C)
      (rows : List (Category C))
      → IsEnded
          (has_version id version)
          (updated_row updated_by change)
          (modify (live_id id) (removed_row now deleted_by) rows)
  unfolding modify
  late-IsEnded now id deleted_by updated_by version change [] = tt
  late-IsEnded now id deleted_by updated_by version change (c ∷ cs) = (
    λ e. elim (Bool-cases (live_id id c)) [
      | inl l ↦ ground (arith, l)
      | inr l ↦ ground (arith, l, e)
    ],
    late-IsEnded now id deleted_by updated_by version change cs,
  )

  -- An update that read its live category before it was removed, and that keeps its slug, is not
  -- refused: it changes the removed row, which stays deleted. (The look-up of the id finds the
  -- category, no two live rows share a slug, and no version is sent along.)
  pub late_update :
      (lower : List ℕ → List ℕ) (now : ℕ) (id deleted_by updated_by : String)
      (change : UpdateCategory C) (c : Category C) (read rows : List (Category C))
      → find_by_id id rows ≡ some c
      → c.deleted_at ≡ none
      → change.slug ≡ none
      → change.version ≡ none
      → clashes rows ≡ false
      → let rows' = (remove_category now id deleted_by rows).0 in
        let (rows'', r) = update lower id change updated_by (some c) read rows' in
        let late = updated_row updated_by change (removed_row now deleted_by c) in
        (r ≡ ok late) × (find_by_id id rows'' ≡ some late) × (late.deleted_at ≡ some now)
  unfolding remove_category update find_one slug_safe update_if_version find_by_id
  late_update lower now id deleted_by updated_by change c read rows f live no_slug no_version free =
      let i = find_sound (has_id id) rows f in
      let gone = modify (live_id id) (removed_row now deleted_by) rows in
      let some_live : 0 < count (live_id id) rows =
        count_found (has_id id) (live_id id) rows f (ground (arith, i, live)) in
      let f' =
        find-modify_found (has_id id) (live_id id) (removed_row now deleted_by) rows (λ x e. refl)
          f in
      let m =
        find-modify_found (has_id id) (has_version id c.version) (updated_row updated_by change)
          gone {a = removed_row now deleted_by c} (λ x e. refl) (ground (arith, f', i, live)) in
      let found_version : 0 < count (has_version id c.version) gone =
        count_found (has_id id) (has_version id c.version) gone {a = removed_row now deleted_by c}
          (ground (arith, f', i, live)) (ground (arith, i)) in
      let ok1 =
        no_clash (live_id id) (removed_row now deleted_by) rows
          (removed-IsEnded now id deleted_by rows) free in
      let ok2 =
        no_clash (has_version id c.version) (updated_row updated_by change) gone
          (late-IsEnded now id deleted_by updated_by c.version change rows) ok1 in
      (
        ground (
          arith,
          live,
          no_slug,
          no_version,
          some_live,
          found_version,
          m,
          i,
          ok2,
          same_text_refl c.slug,
        ),
        ground (
          arith,
          live,
          no_slug,
          no_version,
          some_live,
          found_version,
          m,
          i,
          ok2,
          same_text_refl c.slug,
        ),
        refl,
      )
