-- ===== src/Categories/Taken.antt =====
-- src/modules/categories/services/categories.service.ts: a slug that a live category holds.
use kuybi.Prelude.Method.{ok, err, is_ok, Result}
use kuybi.Categories.{
  clashes, same_text, CreateCategory, Category, UpdateCategory, has_id, holds_slug, create, update,
  restore, chosen_slug, slug_taken, deleted_id, insert, restored_row, slug_safe, CategoryError,
  update_if_version, find_one, is_live, updated_row, has_version, slug_exists,
}
use kuybi.Prelude.Table.{count, modify, count_le}
use kuybi.Prelude.{
  String, List, ℕ, ◌≡◌, true, ◌≤◌, Bool, ◌∷◌, Option, arith, ◌&&◌, ◌<◌, Bool-cases, not, ◌+◌, [],
  refl, inl, ◌==◌, inr, ap, string_eq, some, All, none, false, ltb, ◌⊎◌, All-map, is_some,
  get_or_else,
}

pub same_text_refl : (a : List ℕ) → same_text a a ≡ true
unfolding same_text
same_text_refl [] = refl
same_text_refl (x ∷ xs) = ground (arith, same_text_refl xs)

same_text-eq : (a b : List ℕ) → same_text a b ≡ true → a ≡ b
unfolding same_text
same_text-eq [] [] h = refl
same_text-eq [] (b ∷ bs) h = absurd (ground (arith, h))
same_text-eq (a ∷ as_) [] h = absurd (ground (arith, h))
same_text-eq (a ∷ as_) (b ∷ bs) h = ground (arith, h, same_text-eq as_ bs)

module _ {C : Type 0} where
  two_clash :
      (slug : List ℕ) (rows : List (Category C))
      → 2 ≤ count (holds_slug slug) rows
      → clashes rows ≡ true
  unfolding clashes count
  two_clash slug [] h = absurd (omega (arith, h))
  two_clash slug (c ∷ cs) h = elim (Bool-cases (holds_slug slug c)) [
    | inl e ↦
        let eq : c.slug ≡ slug = same_text-eq c.slug slug (ground (arith, e)) in
        let n : count (holds_slug c.slug) cs ≡ count (holds_slug slug) cs =
          ap (λ s. count (holds_slug s) cs) eq in
        ground (arith, h, e, n)
    | inr e ↦ ground (arith, h, e, two_clash slug cs)
  ]

  -- the categories that hold a slug, but for the one with an id
  abbrev pub held_elsewhere : List ℕ → String → Category C → Bool
  held_elsewhere slug id c = holds_slug slug c && not (c.id == id)

  kept_holders :
      (slug : List ℕ) (id : String) (p : Category C → Bool) (f : Category C → Category C)
      (rows : List (Category C))
      → ((c : Category C) → p c ≡ true → has_id id c ≡ true)
      → count (held_elsewhere slug id) rows ≤ count (holds_slug slug) (modify p f rows)
  unfolding count modify
  kept_holders slug id p f [] h = omega arith
  kept_holders slug id p f (c ∷ cs) h = ground (arith, h c, kept_holders slug id p f cs h)

  -- A changed row that takes the slug is one holder more.
  one_more :
      (slug : List ℕ) (id : String) (p : Category C → Bool) (f : Category C → Category C)
      (rows : List (Category C))
      → ((c : Category C) → p c ≡ true → has_id id c ≡ true)
      → All (λ c. p c ≡ true → holds_slug slug (f c) ≡ true) rows
      → 0 < count p rows
      → count (held_elsewhere slug id) rows + 1 ≤ count (holds_slug slug) (modify p f rows)
  unfolding count modify
  one_more slug id p f [] h k n = absurd (omega (arith, n))
  one_more slug id p f (c ∷ cs) h k n = elim (Bool-cases (p c)) [
    | inl e ↦ ground (arith, e, h c e, k.0 e, kept_holders slug id p f cs h)
    | inr e ↦ ground (arith, e, n, one_more slug id p f cs h k.1)
  ]

  taken_clashes :
      (slug : List ℕ) (id : String) (p : Category C → Bool) (f : Category C → Category C)
      (rows : List (Category C))
      → ((c : Category C) → p c ≡ true → has_id id c ≡ true)
      → All (λ c. p c ≡ true → holds_slug slug (f c) ≡ true) rows
      → 0 < count p rows
      → 0 < count (held_elsewhere slug id) rows
      → clashes (modify p f rows) ≡ true
  taken_clashes slug id p f rows h k n m =
      two_clash slug (modify p f rows) (omega (arith, m, one_more slug id p f rows h k n))

  -- A write under the index changes nothing if it makes two holders, or had not changed a row itself.
  safe_refused :
      {A : Type 0} (rows : List (Category C)) (w : List (Category C) × Result CategoryError A)
      → (clashes w.0 ≡ true) ⊎ ((w.0 ≡ rows) × (is_ok w.1 ≡ false))
      → ((slug_safe rows w).0 ≡ rows) × (is_ok (slug_safe rows w).1 ≡ false)
  unfolding slug_safe
  safe_refused rows (rows', r) (inl h) = (ground (arith, h), ground (arith, h))
  safe_refused rows (rows', r) (inr (e, k)) = elim (Bool-cases (clashes rows')) [
    | inl h ↦ (ground (arith, h), ground (arith, h))
    | inr h ↦ (ground (arith, h, e), ground (arith, h, k))
  ]

  holders_le :
      (slug : List ℕ) (id : String) (rows : List (Category C))
      → count (held_elsewhere slug id) rows ≤ count (holds_slug slug) rows
  holders_le slug id rows =
      count_le (held_elsewhere slug id) (holds_slug slug) rows (λ c e. ground (arith, e))

  insert_refused :
      (id user_id : String) (dto : CreateCategory C) (slug : List ℕ) (rows : List (Category C))
      → 0 < count (holds_slug slug) rows
      → insert id user_id dto slug rows ≡ (rows, err slug_taken)
  unfolding insert slug_safe clashes
  insert_refused id user_id dto slug rows m = ground (arith, m)

  restore_refused :
      (id : String) (slug : List ℕ) (rows : List (Category C))
      → 0 < count (held_elsewhere slug id) rows
      → All (λ c. deleted_id id c ≡ true → same_text c.slug slug ≡ true) rows
      → ((restore id rows).0 ≡ rows) × (is_ok (restore id rows).1 ≡ false)
  unfolding restore
  restore_refused id slug rows m k =
      safe_refused rows _ (elim (Bool-cases (ltb 0 (count (deleted_id id) rows))) [
        | inl n ↦
            let clash =
              taken_clashes slug id (deleted_id id) restored_row rows (λ c e. ground (arith, e))
                (All-map rows (λ c h e. ground (arith, h e)) k) (ground (arith, n)) m in
            inl (ground (arith, n, clash))
        | inr n ↦ inr (ground (arith, n), ground (arith, n))
      ])

  update_refused :
      (id : String) (slug : List ℕ) (version : ℕ) (dto : UpdateCategory C) (user_id : String)
      (rows : List (Category C))
      → 0 < count (held_elsewhere slug id) rows
      → dto.slug ≡ some slug
      → All (λ c. has_id id c ≡ true → is_live c ≡ true) rows
      → let w = slug_safe rows (update_if_version id version (updated_row user_id dto) rows) in
        (w.0 ≡ rows) × (is_ok w.1 ≡ false)
  unfolding update_if_version
  update_refused id slug version dto user_id rows m s k =
      safe_refused rows _ (elim (Bool-cases (ltb 0 (count (has_version id version) rows))) [
        | inl n ↦
            let clash =
              taken_clashes slug id (has_version id version) (updated_row user_id dto) rows
                (λ c e. ground (arith, e))
                (All-map rows
                  (λ c h e. ground (arith, h (ground (arith, e)), s, same_text_refl slug)) k)
                (ground (arith, n)) m in
            inl (ground (arith, n, clash))
        | inr n ↦ inr (ground (arith, n), ground (arith, n))
      ])

  update_ends :
      (lower : List ℕ → List ℕ) (id user_id : String) (change : UpdateCategory C)
      (seen : Option (Category C)) (read rows : List (Category C)) (slug : List ℕ)
      → 0 < count (held_elsewhere slug id) rows
      → change.slug ≡ some slug
      → All (λ c. has_id id c ≡ true → is_live c ≡ true) rows
      → let updated = update lower id change user_id seen read rows in
        (updated.0 ≡ rows) × (is_ok updated.1 ≡ false)
  unfolding update find_one
  update_ends lower id user_id change none read rows slug m s live = (ground arith, ground arith)
  update_ends lower id user_id change (some c) read rows slug m s live =
      elim (Bool-cases (is_some c.deleted_at)) [
        | inl d ↦ (ground (arith, d), ground (arith, d))
        | inr d ↦
            elim (Bool-cases
              (not (same_text slug c.slug) && slug_exists lower slug (some id) read)) [
                | inl t ↦ (ground (arith, d, s, t), ground (arith, d, s, t))
                | inr t ↦
                    let w =
                      update_refused id slug (get_or_else change.version c.version) change user_id
                        rows m s live in
                    (ground (arith, d, s, t, w.0), ground (arith, d, s, t, w.1))
              ]
      ]

  -- A slug that a live category holds is not taken by another one, whatever the checks had read: a new
  -- category that has chosen it, an update to it of a category whose row is live, and the restoring of
  -- a deleted category that had it are refused, and no row changes.
  pub taken_slug :
      (fold lower : List ℕ → List ℕ) (randoms : List (List ℕ)) (new id gone user_id : String)
      (dto : CreateCategory C) (change : UpdateCategory C) (seen : Option (Category C))
      (read rows : List (Category C)) (slug : List ℕ)
      → 0 < count (held_elsewhere slug id) rows
      → 0 < count (held_elsewhere slug gone) rows
      → chosen_slug fold lower randoms dto read ≡ ok slug
      → change.slug ≡ some slug
      → All (λ c. has_id id c ≡ true → is_live c ≡ true) rows
      → All (λ c. deleted_id gone c ≡ true → same_text c.slug slug ≡ true) rows
      → let created = create fold lower randoms new user_id dto read rows in
        let updated = update lower id change user_id seen read rows in
        let restored = restore gone rows in
        (created ≡ (rows, err slug_taken))
        × ((updated.0 ≡ rows) × (is_ok updated.1 ≡ false))
        × ((restored.0 ≡ rows) × (is_ok restored.1 ≡ false))
  unfolding create update find_one
  taken_slug fold lower randoms new id gone user_id dto change seen read rows slug m n chosen s live
        had =
      (
        ground (
          arith,
          chosen,
          insert_refused new user_id dto slug rows (omega (arith, m, holders_le slug id rows)),
        ),
        update_ends lower id user_id change seen read rows slug m s live,
        restore_refused gone slug rows n had,
      )
