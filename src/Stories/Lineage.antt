-- ===== src/Stories/Lineage.antt =====
-- src/modules/stories/repositories/story.repository.ts: `findSelfAndAncestorIds` against the stories above
-- one, whatever the parents form, cycles included.
use mathlib.Core.Path.{subst}
use kuybi.Prelude.Table.{find, count, count_le}
use kuybi.Stories.{find_by_id, Story}
use kuybi.Stories.Threads.{chain, elem, find_self_and_ancestor_ids}
use kuybi.Prelude.{
  List, ℕ, Bool, ◌≡◌, true, not, false, some, arith, ◌∷◌, ◌<◌, suc, Bool-cases, nat_beq, inl, inr,
  Option-cases, [], zero, ◌⊎◌, ap, refl, sym, ◌∙◌, ◌↔◌, length, ◌+◌, ◌≤◌,
}

module _ {C : Type 0} where
  -- a story or one above it, each with a row
  pub data Reaches (rows : List (Story C)) : ℕ → ℕ → Type 0 where
    here : {id : ℕ} {s : Story C} → find_by_id id rows ≡ some s → Reaches rows id id
    up :
        {id p x : ℕ} {s : Story C}
        → find_by_id id rows ≡ some s
        → s.parent_id ≡ some p
        → Reaches rows p x
        → Reaches rows id x

  abbrev unseen : List ℕ → Story C → Bool
  unseen seen s = not (elem s.id seen)

  -- an unseen story that is seen is one unseen story less
  count-unseen :
      (id : ℕ) (seen : List ℕ) (rows : List (Story C)) {s : Story C}
      → elem id seen ≡ false
      → find_by_id id rows ≡ some s
      → count (unseen (id ∷ seen)) rows < count (unseen seen) rows
  unfolding find_by_id find count
  count-unseen id seen [] {s} new f = absurd (ground (arith, f))
  count-unseen id seen (r ∷ rows) {s} new f = elim (Bool-cases (nat_beq r.id id)) [
    | inl e ↦
        let same : r.id ≡ id = ground (arith, e) in
        ground (
          arith,
          e,
          new,
          ap (λ k. elem k seen) same,
          count_le (unseen (id ∷ seen)) (unseen seen) rows (λ x h. ground (arith, h)),
        )
    | inr e ↦ ground (arith, e, new, count-unseen id seen rows {s = s} new (ground (arith, f, e)))
  ]

  chain_sound :
      (n : ℕ) (rows : List (Story C)) (id : ℕ) (seen : List ℕ) (x : ℕ)
      → elem x (chain n rows id seen) ≡ true
      → Reaches rows id x
  unfolding chain
  chain_sound zero rows id seen x h = absurd (ground (arith, h))
  chain_sound (suc n) rows id seen x h = elim (Bool-cases (elem id seen)) [
    | inl e ↦ absurd (ground (arith, e, h))
    | inr e ↦ elim (Option-cases (find_by_id id rows)) [
      | inl f ↦ absurd (ground (arith, e, f, h))
      | inr (s, f) ↦ elim (Bool-cases (nat_beq id x)) [
        | inl same ↦ let eq : id ≡ x = ground (arith, same) in subst (Reaches rows id) eq (here f)
        | inr other ↦ elim (Option-cases s.parent_id) [
          | inl g ↦ absurd (ground (arith, e, f, g, h, other))
          | inr (p, g) ↦
              up f g (chain_sound n rows p (id ∷ seen) x (ground (arith, e, f, g, h, other)))
        ]
      ]
    ]
  ]

  stepped :
      {rows : List (Story C)} {id x : ℕ}
      → Reaches rows id x
      → ((s : Story C) × (find_by_id id rows ≡ some s) × (x ≡ id))
        ⊎ ((s : Story C) × (p : ℕ) × (find_by_id id rows ≡ some s)
            × (s.parent_id ≡ some p)
            × Reaches rows p x)
  stepped (here {s = s} f) = inl (s, f, refl)
  stepped (up {p = p} {s = s} f g r) = inr (s, p, f, g, r)

  -- The parents of what is seen are seen, or are the story that is next.
  abbrev IsClosed : List (Story C) → ℕ → List ℕ → Type 0
  IsClosed rows id seen =
      (y : ℕ) (s : Story C) (q : ℕ)
      → elem y seen ≡ true
      → find_by_id y rows ≡ some s
      → s.parent_id ≡ some q
      → (elem q seen ≡ true) ⊎ (q ≡ id)

  IsClosed-step :
      (rows : List (Story C)) (id p : ℕ) (seen : List ℕ) {s : Story C}
      → find_by_id id rows ≡ some s
      → s.parent_id ≡ some p
      → IsClosed rows id seen
      → IsClosed rows p (id ∷ seen)
  IsClosed-step rows id p seen {s} f g closed y t q k f' g' = elim (Bool-cases (nat_beq id y)) [
    | inl same ↦
        let eq : id ≡ y = ground (arith, same) in
        let row : some s ≡ some t = sym f ∙ ap (λ z. find_by_id z rows) eq ∙ f' in
        inr (ground (arith, row, g, g'))
    | inr other ↦ elim (closed y t q (ground (arith, k, other)) f' g') [
      | inl h ↦ inl (ground (arith, h))
      | inr h ↦ inl (ground (arith, h))
    ]
  ]

  -- What is above a story that is seen was seen before, if what is seen is closed but for that story.
  seen_above :
      (rows : List (Story C)) (id : ℕ) (seen : List ℕ) {a x : ℕ}
      → IsClosed rows id seen
      → elem id seen ≡ true
      → elem a seen ≡ true
      → Reaches rows a x
      → elem x seen ≡ true
  seen_above rows id seen closed h k (here f) = k
  seen_above rows id seen closed h k (up {p = p} f g r) = elim (closed _ _ _ k f g) [
    | inl q ↦ seen_above rows id seen closed h q r
    | inr q ↦ seen_above rows id seen closed h (subst (λ z. elem z seen ≡ true) (sym q) h) r
  ]

  chain_complete :
      (n : ℕ) (rows : List (Story C)) (id : ℕ) (seen : List ℕ) (x : ℕ)
      → count (unseen seen) rows < n
      → IsClosed rows id seen
      → Reaches rows id x
      → (elem x seen ≡ true) ⊎ (elem x (chain n rows id seen) ≡ true)
  unfolding chain
  chain_complete zero rows id seen x l closed r = absurd (omega (arith, l))
  chain_complete (suc n) rows id seen x l closed r = elim (Bool-cases (elem id seen)) [
    | inl e ↦ inl (seen_above rows id seen closed e e r)
    | inr e ↦ elim (stepped r) [
      | inl (s, f, eq) ↦ inr (ground (arith, e, f, eq))
      | inr (s, p, f, g, t) ↦
          elim (chain_complete n rows p (id ∷ seen) x
            (omega (arith, l, count-unseen id seen rows e f))
            (IsClosed-step rows id p seen f g closed) t) [
              | inl h ↦ elim (Bool-cases (nat_beq id x)) [
                | inl same ↦ inr (ground (arith, e, f, same))
                | inr other ↦ inl (ground (arith, h, other))
              ]
              | inr h ↦ inr (ground (arith, e, f, g, h))
            ]
    ]
  ]

  -- Fuel beyond the unseen stories adds nothing.
  chain_enough :
      (n m : ℕ) (rows : List (Story C)) (id : ℕ) (seen : List ℕ)
      → count (unseen seen) rows < n
      → n ≤ m
      → chain m rows id seen ≡ chain n rows id seen
  unfolding chain
  chain_enough zero m rows id seen l h = absurd (omega (arith, l))
  chain_enough (suc n) zero rows id seen l h = absurd (omega (arith, h))
  chain_enough (suc n) (suc m) rows id seen l h = elim (Bool-cases (elem id seen)) [
    | inl e ↦ ground (arith, e)
    | inr e ↦ elim (Option-cases (find_by_id id rows)) [
      | inl f ↦ ground (arith, e, f)
      | inr (s, f) ↦ elim (Option-cases s.parent_id) [
        | inl g ↦ ground (arith, e, f, g)
        | inr (p, g) ↦
            let ih =
              chain_enough n m rows p (id ∷ seen) (omega (arith, l, count-unseen id seen rows e f))
                (omega (arith, h)) in
            ground (arith, e, f, g, ih)
      ]
    ]
  ]

  count_le-length : (p : Story C → Bool) (rows : List (Story C)) → count p rows ≤ length rows
  unfolding count
  count_le-length p [] = omega arith
  count_le-length p (r ∷ rows) = ground (arith, count_le-length p rows)

  -- The query of a story and the ones above it ends and is exact, also where the parents form a cycle:
  -- it gives the ids that can be reached from the story, and no others; rounds beyond one for each row
  -- and one more change nothing.
  pub lineage_exact :
      (rows : List (Story C)) (id : ℕ)
      → let ids = find_self_and_ancestor_ids rows id in
        ((x : ℕ) → (elem x ids ≡ true) ↔ Reaches rows id x)
        × ((n : ℕ) → chain (length rows + 1 + n) rows id [] ≡ ids)
  unfolding find_self_and_ancestor_ids
  lineage_exact rows id =
      let few : count (unseen []) rows < length rows + 1 =
        omega (arith, count_le-length (unseen []) rows) in
      (
        λ x. (
          chain_sound (length rows + 1) rows id [] x,
          λ r.
              elim (chain_complete (length rows + 1) rows id [] x few
                (λ y s q h. absurd (ground (arith, h))) r) [
                  | inl h ↦ absurd (ground (arith, h))
                  | inr h ↦ h
                ],
        ),
        λ n. chain_enough (length rows + 1) (length rows + 1 + n) rows id [] few (omega arith),
      )
