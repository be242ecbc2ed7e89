-- ===== src/Stories/Acyclic.antt =====
-- Stories without cycles of parents, when the parent of one story changes.
use kuybi.Prelude.Table.{modify, find-modify_found, find-modify_other, find_sound}
use mathlib.Core.Path.{subst}
use kuybi.Stories.Lineage.{Reaches, here, up}
use kuybi.Stories.{Story, find_by_id, has_id}
use kuybi.Prelude.{
  List, ℕ, nat_beq, ◌≡◌, false, some, Bool-cases, inl, inr, sym, ◌∙◌, arith, ◌⊎◌, true, ap,
}

module _ {C : Type 0} where
  -- no story is above itself
  unfoldable pub IsAcyclic : List (Story C) → Type 0
  IsAcyclic rows =
      (id p : ℕ) (s : Story C)
      → find_by_id id rows ≡ some s
      → s.parent_id ≡ some p
      → Reaches rows p id
      → ⊥

  Reaches-trans :
      {rows : List (Story C)} {a b c : ℕ} → Reaches rows a b → Reaches rows b c → Reaches rows a c
  Reaches-trans (here f) r = r
  Reaches-trans (up f g q) r = up f g (Reaches-trans q r)

  -- the row that is found, with its parent changed
  abbrev pub SameBut : ℕ → List (Story C) → List (Story C) → Type 0
  SameBut c rows rows' = (id : ℕ) → nat_beq id c ≡ false → find_by_id id rows' ≡ find_by_id id rows

  at_child :
      {rows : List (Story C)} {a c : ℕ} {s : Story C}
      → find_by_id c rows ≡ some s
      → nat_beq a c ≡ true
      → Reaches rows a c
  at_child {rows} {a} {c} k e =
      let eq : a ≡ c = ground (arith, e) in subst (λ z. Reaches rows z c) (sym eq) (here k)

  module _ {c : ℕ} {rows : List (Story C)} (rows' : List (Story C)) {s s' : Story C}
      (same : SameBut c rows rows') (k : find_by_id c rows ≡ some s)
      (k' : find_by_id c rows' ≡ some s') where
    -- a path from what did not reach `c`
    old_path : {a x : ℕ} → (Reaches rows a c → ⊥) → Reaches rows' a x → Reaches rows a x
    old_path {a} avoid (here f) = elim (Bool-cases (nat_beq a c)) [
      | inl e ↦ absurd (avoid (at_child k e))
      | inr e ↦ here (sym (same a e) ∙ f)
    ]
    old_path {a} avoid (up f g r) = elim (Bool-cases (nat_beq a c)) [
      | inl e ↦ absurd (avoid (at_child k e))
      | inr e ↦ let f' = sym (same a e) ∙ f in up f' g (old_path (λ q. avoid (up f' g q)) r)
    ]

    -- A new path is an old one, or goes through the new parent of `c`.
    path-cases :
        {a x : ℕ}
        → Reaches rows' a x
        → Reaches rows a x
          ⊎ (Reaches rows a c × ((p : ℕ) × (s'.parent_id ≡ some p) × Reaches rows' p x))
    path-cases {a} {x} (here f) = elim (Bool-cases (nat_beq a c)) [
      | inl e ↦
          let eq : a ≡ c = ground (arith, e) in inl (subst (Reaches rows a) (sym eq) (at_child k e))
      | inr e ↦ inl (here (sym (same a e) ∙ f))
    ]
    path-cases {a} {x} (up {p = p} {s = t} f g r) = elim (Bool-cases (nat_beq a c)) [
      | inl e ↦
          let eq : a ≡ c = ground (arith, e) in
          let row : some t ≡ some s' = sym f ∙ ap (λ z. find_by_id z rows') eq ∙ k' in
          inr (at_child k e, (p, ground (arith, row, g), r))
      | inr e ↦
          let f' = sym (same a e) ∙ f in
          elim (path-cases r) [ inl q ↦ inl (up f' g q) | inr (q, rest) ↦ inr (up f' g q, rest) ]
    ]

    pub IsAcyclic-step :
        ((p : ℕ) → s'.parent_id ≡ some p → Reaches rows p c → ⊥) → IsAcyclic rows → IsAcyclic rows'
    unfolding IsAcyclic
    IsAcyclic-step avoid acyclic id q t f g r = elim (Bool-cases (nat_beq id c)) [
      | inl e ↦
          let eq : id ≡ c = ground (arith, e) in
          let row : some t ≡ some s' = sym f ∙ ap (λ z. find_by_id z rows') eq ∙ k' in
          let away = avoid q (ground (arith, row, g)) in
          away (subst (Reaches rows q) eq (old_path away r))
      | inr e ↦
          let f' = sym (same id e) ∙ f in
          elim (path-cases r) [
            | inl path ↦ acyclic id q t f' g path
            | inr (q', (p, g', r')) ↦
                avoid p g' (Reaches-trans (old_path (avoid p g') r') (up f' g q'))
          ]
    ]

  pub modified-SameBut :
      (id : ℕ) (f : Story C → Story C) (rows : List (Story C))
      → ((s : Story C) → (f s).id ≡ s.id)
      → SameBut id rows (modify (has_id id) f rows)
  unfolding find_by_id
  modified-SameBut id f rows same x other =
      find-modify_other (has_id x) (has_id id) f rows (λ s e. ground (arith, e, other))
        (λ s e. ground (arith, e, other, same s))

  pub modified_found :
      (id : ℕ) (f : Story C → Story C) (rows : List (Story C)) {s : Story C}
      → ((s : Story C) → (f s).id ≡ s.id)
      → find_by_id id rows ≡ some s
      → find_by_id id (modify (has_id id) f rows) ≡ some (f s)
  unfolding find_by_id
  modified_found id f rows {s} same k = ground (
    arith,
    find-modify_found (has_id id) (has_id id) f rows {a = s} (λ x e. ground (arith, same x)) k,
    find_sound (has_id id) rows k,
  )
