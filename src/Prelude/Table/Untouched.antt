-- ===== src/Prelude/Table/Untouched.antt =====
-- A statement whose condition no row meets leaves the rows as they are; one that deletes the one row
-- of a key leaves none.
use kuybi.Prelude.{
  Bool, List, ◌≡◌, ◌∷◌, Bool-cases, inl, arith, inr, [], refl, some, true, ◌≤◌, none, All,
}
use kuybi.Prelude.Table.{count, remove, modify, find, find-eq-none_of_count, count-remove_le}

module _ {ℓ} {A : Type ℓ} where
  pub modify_untouched :
      (p : A → Bool) (f : A → A) (xs : List A) → count p xs ≡ 0 → modify p f xs ≡ xs
  unfolding count modify
  modify_untouched p f [] h = refl
  modify_untouched p f (x ∷ xs) h = elim (Bool-cases (p x)) [
    | inl t ↦ absurd (ground (arith, h, t))
    | inr n ↦ ground (arith, n, modify_untouched p f xs (ground (arith, h, n)))
  ]

  pub remove_untouched : (p : A → Bool) (xs : List A) → count p xs ≡ 0 → remove p xs ≡ xs
  unfolding count remove
  remove_untouched p [] h = refl
  remove_untouched p (x ∷ xs) h = elim (Bool-cases (p x)) [
    | inl t ↦ absurd (ground (arith, h, t))
    | inr n ↦ ground (arith, n, remove_untouched p xs (ground (arith, h, n)))
  ]

  pub count_of_find : (p : A → Bool) (xs : List A) {a : A} → find p xs ≡ some a → 1 ≤ count p xs
  unfolding find count
  count_of_find p [] {a} h = absurd (ground (arith, h))
  count_of_find p (x ∷ xs) {a} h = elim (Bool-cases (p x)) [
    | inl t ↦ ground (arith, t)
    | inr f ↦ ground (arith, f, count_of_find p xs {a = a} (ground (arith, h, f)))
  ]

  pub removed_none :
      (q p : A → Bool) (xs : List A) {a : A}
      → find q xs ≡ some a
      → p a ≡ true
      → count q xs ≤ 1
      → find q (remove p xs) ≡ none
  unfolding find remove count
  removed_none q p [] {a} f h u = refl
  removed_none q p (x ∷ xs) {a} f h u = elim (Bool-cases (q x)) [
    | inl t ↦ ground (
      arith,
      t,
      f,
      h,
      find-eq-none_of_count q (remove p xs) (ground (arith, t, u, count-remove_le q p xs)),
    )
    | inr n ↦ elim (Bool-cases (p x)) [
      | inl g ↦
          ground (
            arith,
            n,
            g,
            removed_none q p xs {a = a} (ground (arith, n, f)) h (ground (arith, n, u)),
          )
      | inr g ↦
          ground (
            arith,
            n,
            g,
            removed_none q p xs {a = a} (ground (arith, n, f)) h (ground (arith, n, u)),
          )
    ]
  ]

  none_meets :
      (p : A → Bool) (xs : List A) (a : A) → count p xs ≡ 0 → All (λ x. p x ≡ true → x ≡ a) xs
  unfolding count
  none_meets p [] a u = tt
  none_meets p (x ∷ xs) a u = elim (Bool-cases (p x)) [
    | inl t ↦ absurd (ground (arith, u, t))
    | inr n ↦ (λ h. absurd (ground (arith, n, h)), none_meets p xs a (ground (arith, u, n)))
  ]

  pub only_row :
      (p : A → Bool) (xs : List A) {a : A}
      → find p xs ≡ some a
      → count p xs ≤ 1
      → All (λ x. p x ≡ true → x ≡ a) xs
  unfolding find count
  only_row p [] {a} f u = tt
  only_row p (x ∷ xs) {a} f u = elim (Bool-cases (p x)) [
    | inl t ↦ (λ h. ground (arith, f, t), none_meets p xs a (ground (arith, u, t)))
    | inr n ↦ (
      λ h. absurd (ground (arith, n, h)),
      only_row p xs {a = a} (ground (arith, f, n)) (ground (arith, u, n)),
    )
  ]
