-- ===== src/Prelude/Table.antt =====
-- A database table as a list of rows: `SELECT`, `UPDATE … WHERE`, `DELETE … WHERE` and `COUNT`
-- with the condition as a Boolean function.
pub mod Untouched
use kuybi.Prelude.{◌∙◌, ap, ◌<◌}
use Prim.Native.Nat.{ℕ, suc, ◌+◌, ◌≤◌}
use mathlib.Core.Path.{◌≡◌, refl}
use mathlib.Core.Bool.{Bool, true, false, ◌&&◌}
use mathlib.Core.Option
use mathlib.Core.Option.{Option, none, some}
use mathlib.Core.List.{List, [], ◌∷◌, ◌++◌}
use native.Mathlib.Omega.{arith}
use kuybi.Prelude.Tests.{if◌then◌else◌, Bool-cases}
use kuybi.Prelude.Lists.{All}
use mathlib.Core.Logic.{inl, inr}

module _ {ℓ} {A : Type ℓ} where
  -- the first row that meets the condition
  unfoldable pub find : (A → Bool) → List A → Option A
  find p [] = none
  find p (x ∷ xs) = if p x then some x else find p xs

  -- `COUNT(*)`, and the rows that an `UPDATE` or `DELETE` affects
  unfoldable pub count : (A → Bool) → List A → ℕ
  count p [] = 0
  count p (x ∷ xs) = let rest = count p xs in if p x then suc rest else rest

  -- the rows that meet the condition
  unfoldable pub select : (A → Bool) → List A → List A
  select p [] = []
  select p (x ∷ xs) = let rest = select p xs in if p x then x ∷ rest else rest

  unfoldable pub modify : (A → Bool) → (A → A) → List A → List A
  modify p f [] = []
  modify p f (x ∷ xs) = (if p x then f x else x) ∷ modify p f xs

  unfoldable pub remove : (A → Bool) → List A → List A
  remove p [] = []
  remove p (x ∷ xs) = let rest = remove p xs in if p x then rest else x ∷ rest

  pub find_sound : (p : A → Bool) (xs : List A) {a : A} → find p xs ≡ some a → p a ≡ true
  unfolding find
  find_sound p [] h = ground arith
  find_sound p (x ∷ xs) {a} h = elim (Bool-cases (p x)) [
    | inl t ↦ ground arith
    | inr f ↦ find_sound p xs (ground arith)
  ]

  pub find-eq-none_of_count : (p : A → Bool) (xs : List A) → count p xs ≡ 0 → find p xs ≡ none
  unfolding find count
  find-eq-none_of_count p [] h = refl
  find-eq-none_of_count p (x ∷ xs) h = ground (arith, find-eq-none_of_count p xs)

  pub count_of_find-eq-none : (p : A → Bool) (xs : List A) → find p xs ≡ none → count p xs ≡ 0
  unfolding find count
  count_of_find-eq-none p [] h = refl
  count_of_find-eq-none p (x ∷ xs) h = ground (arith, count_of_find-eq-none p xs)

  pub find-All {κ} :
      (P : A → Type κ) (p : A → Bool) (xs : List A) {a : A} → All P xs → find p xs ≡ some a → P a
  unfolding find
  find-All P p [] h e = absurd (ground arith)
  find-All P p (x ∷ xs) h e = elim (Bool-cases (p x)) [
    | inl t ↦ ground arith
    | inr f ↦ find-All P p xs h.1 (ground arith)
  ]

  pub count-append : (p : A → Bool) (xs ys : List A) → count p (xs ++ ys) ≡ count p xs + count p ys
  unfolding count
  count-append p [] ys = omega arith
  count-append p (x ∷ xs) ys = ground (arith, count-append p xs ys)

  pub count_middle :
      (p : A → Bool) (xs ys : List A) (x : A) → count p (xs ++ x ∷ ys) ≡ count p (x ∷ (xs ++ ys))
  unfolding count
  count_middle p [] ys x = refl
  count_middle p (y ∷ xs) ys x = ground (arith, count_middle p xs ys x)

  pub find-modify :
      (q p : A → Bool) (f : A → A) (xs : List A)
      → ((x : A) → p x ≡ true → q (f x) ≡ q x)
      → find q (modify p f xs) ≡ Option.map (λ x. if p x then f x else x) (find q xs)
  unfolding find modify
  find-modify q p f [] h = refl
  find-modify q p f (x ∷ xs) h = ground (arith, h x, find-modify q p f xs h)

  pub count-modify :
      (q p : A → Bool) (f : A → A) (xs : List A)
      → ((x : A) → p x ≡ true → q (f x) ≡ q x)
      → count q (modify p f xs) ≡ count q xs
  unfolding count modify
  count-modify q p f [] h = refl
  count-modify q p f (x ∷ xs) h = ground (arith, h x, count-modify q p f xs h)

  -- The rows changed leave the condition `q`, which only they met.
  pub count-modify_zero :
      (q p : A → Bool) (f : A → A) (xs : List A)
      → ((x : A) → p x ≡ true → q (f x) ≡ false)
      → ((x : A) → q x ≡ true → p x ≡ true)
      → count q (modify p f xs) ≡ 0
  unfolding count modify
  count-modify_zero q p f [] h k = refl
  count-modify_zero q p f (x ∷ xs) h k = ground (arith, h x, k x, count-modify_zero q p f xs h k)

  pub count-modify_le :
      (q p : A → Bool) (f : A → A) (xs : List A)
      → ((x : A) → p x ≡ true → q (f x) ≡ true → q x ≡ true)
      → count q (modify p f xs) ≤ count q xs
  unfolding count modify
  count-modify_le q p f [] h = omega arith
  count-modify_le q p f (x ∷ xs) h = ground (arith, h x, count-modify_le q p f xs h)

  pub find-remove :
      (q p : A → Bool) (xs : List A)
      → ((x : A) → q x ≡ true → p x ≡ false)
      → find q (remove p xs) ≡ find q xs
  unfolding find remove
  find-remove q p [] h = refl
  find-remove q p (x ∷ xs) h = ground (arith, h x, find-remove q p xs h)

  pub count-remove_le : (q p : A → Bool) (xs : List A) → count q (remove p xs) ≤ count q xs
  unfolding count remove
  count-remove_le q p [] = omega arith
  count-remove_le q p (x ∷ xs) = ground (arith, count-remove_le q p xs)

  pub count-remove_zero :
      (q p : A → Bool) (xs : List A)
      → ((x : A) → q x ≡ true → p x ≡ true)
      → count q (remove p xs) ≡ 0
  unfolding count remove
  count-remove_zero q p [] h = refl
  count-remove_zero q p (x ∷ xs) h = ground (arith, h x, count-remove_zero q p xs h)

  pub count_le :
      (p q : A → Bool) (xs : List A) → ((x : A) → p x ≡ true → q x ≡ true) → count p xs ≤ count q xs
  unfolding count
  count_le p q [] h = omega arith
  count_le p q (x ∷ xs) h = ground (arith, h x, count_le p q xs h)

  pub count_congr : (p q : A → Bool) (xs : List A) → ((x : A) → p x ≡ q x) → count p xs ≡ count q xs
  unfolding count
  count_congr p q [] h = refl
  count_congr p q (x ∷ xs) h = ground (arith, h x, count_congr p q xs h)

  module _ {κ} (P : A → Type κ) where
    pub All-modify :
        (p : A → Bool) (f : A → A) (xs : List A)
        → ((x : A) → p x ≡ true → P x → P (f x))
        → All P xs
        → All P (modify p f xs)
    unfolding modify
    All-modify p f [] k h = tt
    All-modify p f (x ∷ xs) k (hx, h) = elim (Bool-cases (p x)) [
      | inl t ↦ rw t (k x t hx, All-modify p f xs k h)
      | inr t ↦ rw t (hx, All-modify p f xs k h)
    ]

    pub All-remove : (p : A → Bool) (xs : List A) → All P xs → All P (remove p xs)
    unfolding remove
    All-remove p [] h = tt
    All-remove p (x ∷ xs) (hx, h) = elim (Bool-cases (p x)) [
      | inl t ↦ rw t (All-remove p xs h)
      | inr t ↦ rw t (hx, All-remove p xs h)
    ]

  -- A condition added to one that at most one row meets.
  pub count-and_some :
      (p q : A → Bool) (xs : List A) {a : A}
      → find p xs ≡ some a
      → count p xs ≤ 1
      → count (λ x. p x && q x) xs ≡ (if q a then 1 else 0)
  unfolding find count
  count-and_some p q [] e h = absurd (ground arith)
  count-and_some p q (x ∷ xs) {a} e h = elim (Bool-cases (p x)) [
    | inl t ↦
        let none_left : count p xs ≡ 0 = ground arith in
        let first : x ≡ a = ground arith in
        ground (arith, t, first, count_le (λ y. p y && q y) p xs (λ y k. ground arith), none_left)
    | inr f ↦ ground (arith, f, count-and_some p q xs {a = a})
  ]

  pub count-and_none :
      (p q : A → Bool) (xs : List A) → find p xs ≡ none → count (λ x. p x && q x) xs ≡ 0
  unfolding find count
  count-and_none p q [] e = refl
  count-and_none p q (x ∷ xs) e = ground (arith, count-and_none p q xs)

  pub find-modify_other :
      (q p : A → Bool) (f : A → A) (xs : List A)
      → ((x : A) → p x ≡ true → q x ≡ false)
      → ((x : A) → p x ≡ true → q (f x) ≡ false)
      → find q (modify p f xs) ≡ find q xs
  unfolding find modify
  find-modify_other q p f [] h k = refl
  find-modify_other q p f (x ∷ xs) h k = ground (arith, h x, k x, find-modify_other q p f xs h k)

module _ {ℓ} {A : Type ℓ} where
  -- The first row that meets a condition stays the first if it is not removed.
  pub find-remove_kept :
      (q p : A → Bool) (xs : List A) {a : A}
      → find q xs ≡ some a
      → p a ≡ false
      → find q (remove p xs) ≡ some a
  unfolding find remove
  find-remove_kept q p [] e h = e
  find-remove_kept q p (x ∷ xs) {a} e h = elim (Bool-cases (q x)) [
    | inl t ↦
        let first : x ≡ a = ground arith in
        let stays : p x ≡ false = rw first h in ground (arith, t, first, stays)
    | inr f ↦
        let later : find q (remove p xs) ≡ some a = find-remove_kept q p xs (ground (arith, f)) h in
        ground (arith, f, later)
  ]

  pub find-modify_found :
      (q p : A → Bool) (f : A → A) (xs : List A) {a : A}
      → ((x : A) → p x ≡ true → q (f x) ≡ q x)
      → find q xs ≡ some a
      → find q (modify p f xs) ≡ some (if p a then f a else a)
  find-modify_found q p f xs h e = find-modify q p f xs h ∙ ap (Option.map _) e

  -- A row that is found is counted under what else it meets.
  pub count_found :
      (p q : A → Bool) (xs : List A) {a : A} → find p xs ≡ some a → q a ≡ true → 0 < count q xs
  unfolding find count
  count_found p q [] e h = absurd (ground (arith, e))
  count_found p q (x ∷ xs) {a} e h = elim (Bool-cases (p x)) [
    | inl t ↦
        let first : x ≡ a = ground (arith, e, t) in
        let meets : q x ≡ true = ap q first ∙ h in ground (arith, meets)
    | inr f ↦ ground (arith, count_found p q xs {a = a} (ground (arith, e, f)) h)
  ]
