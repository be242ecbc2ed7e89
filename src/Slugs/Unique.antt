-- ===== src/Slugs/Unique.antt =====
-- src/shared/utils/slug.util.ts: `uniqueSlug`.
use kuybi.Prelude.Method.{ok, err}
use kuybi.Prelude.Table.{find, find-All}
use kuybi.Slugs.{
  trim_start, trim_end, first_free, is_slug_char, trim_hyphens, hyphen, is_empty, no_free_slug,
  with_suffix, candidates, unique_slug, numbered_suffixes, slice_to, numbered_suffix,
  numbered_attempts,
}
use kuybi.Slugs.Shape.{
  matches_from, is_spaced, is_kebab, trim_hyphens_matches, take_spaced, length-trim_hyphens,
  length-take_le,
}
use kuybi.Prelude.{
  List, ℕ, Bool, all, false, ◌≡◌, ◌∷◌, ◌<◌, true, ◌++◌, not, ◌==◌, arith, some, Bool-cases, [],
  refl, ◌&&◌, take, ◌⊎◌, inl, suc, inr, nat_eq, zero, length, ◌≤◌, All, ◌-◌, All-append, All-map,
  leb, length-append, map,
}

module _ (exists : List ℕ → Bool) where
  first_free-cases :
      (cs : List (List ℕ))
      → ((c : List ℕ) × (first_free exists cs ≡ ok c)
          × (exists c ≡ false)
          × (find (λ x. not (exists x)) cs ≡ some c))
        ⊎ ((first_free exists cs ≡ err no_free_slug) × (all exists cs ≡ true))
  unfolding first_free find
  first_free-cases [] = inr (refl, refl)
  first_free-cases (c ∷ cs) = elim (Bool-cases (exists c)) [
    | inr e ↦ inl (c, ground (arith, e), e, ground (arith, e))
    | inl e ↦ elim (first_free-cases cs) [
      | inl (x, f, g, h) ↦ inl (x, ground (arith, e, f), g, ground (arith, e, h))
      | inr (f, g) ↦ inr (ground (arith, e, f), ground (arith, e, g))
    ]
  ]

-- what is appended to a slug
unfoldable pub is_suffix : List ℕ → Bool
is_suffix [] = false
is_suffix (c ∷ cs) = c == hyphen && not (is_empty cs) && all is_slug_char cs

all_matches : (cs : List ℕ) → all is_slug_char cs ≡ true → matches_from true cs ≡ true
unfolding matches_from
all_matches [] h = refl
all_matches (c ∷ cs) h = ground (arith, h, all_matches cs)

suffix_matches : (cs : List ℕ) → is_suffix cs ≡ true → matches_from true cs ≡ true
unfolding matches_from is_suffix
suffix_matches [] h = absurd (ground (arith, h))
suffix_matches (c ∷ []) h = absurd (ground (arith, h))
suffix_matches (c ∷ d ∷ cs) h = ground (arith, h, all_matches cs)

append_matches :
    (a : Bool) (xs ys : List ℕ)
    → matches_from a xs ≡ true
    → matches_from true ys ≡ true
    → matches_from a (xs ++ ys) ≡ true
unfolding matches_from
append_matches a [] ys h k = ground (arith, h, k)
append_matches a (x ∷ xs) ys h k = ground (arith, h, append_matches (is_slug_char x) xs ys)

matches_spaced : (a : Bool) (cs : List ℕ) → matches_from a cs ≡ true → is_spaced (not a) cs ≡ true
unfolding matches_from is_spaced
matches_spaced a [] h = refl
matches_spaced a (c ∷ cs) h = elim (Bool-cases (is_slug_char c)) [
  | inl e ↦ ground (arith, e, h, matches_spaced true cs)
  | inr e ↦ ground (arith, e, h, matches_spaced false cs)
]

-- The start of a slug, trimmed, is a slug.
cut_matches :
    (n : ℕ) (base : List ℕ)
    → 0 < n
    → is_kebab base ≡ true
    → is_kebab (trim_hyphens (take n base)) ≡ true
unfolding matches_from trim_start trim_end
cut_matches zero base l h = absurd (omega (arith, l))
cut_matches (suc n) [] l h = absurd (ground (arith, h))
cut_matches (suc n) (c ∷ cs) l h =
    elim (trim_hyphens_matches true (take (suc n) (c ∷ cs))
      (take_spaced (suc n) true (c ∷ cs) (matches_spaced false (c ∷ cs) h))) [
        | inr e ↦ e
        | inl e ↦ absurd (ground (arith, h, e))
      ]

-- what the theorem below says of each candidate
abbrev Fits : ℕ → List ℕ → Type 0
Fits max_length c = (is_kebab c ≡ true) × (length c ≤ max_length)

with_suffix-Fits :
    (max_length : ℕ) (base suffix : List ℕ)
    → is_kebab base ≡ true
    → is_suffix suffix ≡ true
    → length suffix < max_length
    → Fits max_length (with_suffix max_length base suffix)
unfolding with_suffix slice_to
with_suffix-Fits max_length base suffix b s l =
    let cut = take (max_length - length suffix) base in
    let short : leb (length suffix) max_length ≡ true = ground (arith, l) in
    let kebab =
      append_matches false (trim_hyphens cut) suffix
        (cut_matches (max_length - length suffix) base (omega (arith, l)) b)
        (suffix_matches suffix s) in
    let long : length (trim_hyphens cut ++ suffix) ≤ max_length = omega (
      arith,
      l,
      length-append (trim_hyphens cut) suffix,
      length-trim_hyphens cut,
      length-take_le (max_length - length suffix) base,
    ) in
    (ground (arith, short, kebab), ground (arith, short, long))

abbrev pub IsRandom : List ℕ → Type 0
IsRandom r = (all is_slug_char r ≡ true) × (length r ≡ 6)

abbrev IsShort : List ℕ → Type 0
IsShort s = (is_suffix s ≡ true) × (length s ≤ 7)

numbered-IsShort : All IsShort (numbered_suffixes numbered_attempts 2)
unfolding numbered_suffixes numbered_suffix is_suffix
numbered-IsShort = ground arith

random-IsShort : (r : List ℕ) → IsRandom r → IsShort (hyphen ∷ r)
unfolding is_suffix
random-IsShort [] (a, l) = absurd (omega (arith, l))
random-IsShort (c ∷ cs) (a, l) = (ground (arith, a), omega (arith, l))

mapped :
    (P : List ℕ → Type 0) (f : List ℕ → List ℕ) (xs : List (List ℕ))
    → All (λ x. P (f x)) xs
    → All P (map f xs)
mapped P f [] h = tt
mapped P f (x ∷ xs) (p, h) = (p, mapped P f xs h)

candidates-Fits :
    (max_length : ℕ) (base : List ℕ) (randoms : List (List ℕ))
    → 7 < max_length
    → Fits max_length base
    → All IsRandom randoms
    → All (Fits max_length) (candidates max_length base randoms)
unfolding candidates
candidates-Fits max_length base randoms l b r = (
  b,
  All-append (Fits max_length)
      (map (with_suffix max_length base) (numbered_suffixes numbered_attempts 2))
      (map (λ s. with_suffix max_length base (hyphen ∷ s)) randoms)
      (mapped (Fits max_length) (with_suffix max_length base)
        (numbered_suffixes numbered_attempts 2)
        (All-map {P = IsShort} (numbered_suffixes numbered_attempts 2)
          (λ s h. with_suffix-Fits max_length base s b.0 h.0 (omega (arith, l, h.1)))
          numbered-IsShort))
      (mapped (Fits max_length) (λ s. with_suffix max_length base (hyphen ∷ s)) randoms
        (All-map {P = IsRandom} randoms
          (λ s h.
            let k = random-IsShort s h in
            with_suffix-Fits max_length base (hyphen ∷ s) b.0 k.0 (omega (arith, l, k.1)))
          r)),
)

-- From a slug of at most `maxLength` characters (more than seven) and random texts of six letters or
-- digits: `uniqueSlug` gives the first candidate that is not taken, which is again a slug of at most
-- `maxLength` characters; or, where each of the candidates is taken, the conflict.
pub unique_slug-cases :
    (exists : List ℕ → Bool) (max_length : ℕ) (base : List ℕ) (randoms : List (List ℕ))
    → 7 < max_length
    → is_kebab base ≡ true
    → length base ≤ max_length
    → All IsRandom randoms
    → let made = unique_slug max_length exists base randoms in
      let tried = candidates max_length base randoms in
      ((slug : List ℕ) × (made ≡ ok slug)
        × (exists slug ≡ false)
        × (find (λ c. not (exists c)) tried ≡ some slug)
        × (is_kebab slug ≡ true)
        × (length slug ≤ max_length))
      ⊎ ((made ≡ err no_free_slug) × (all exists tried ≡ true))
unfolding unique_slug
unique_slug-cases exists max_length base randoms l k n r =
    elim (first_free-cases exists (candidates max_length base randoms)) [
      | inl (slug, e, free, first) ↦
          let fit =
            find-All (Fits max_length) (λ c. not (exists c)) (candidates max_length base randoms)
              (candidates-Fits max_length base randoms l (k, n) r) first in
          inl (slug, e, free, first, fit.0, fit.1)
      | inr (e, taken) ↦ inr (e, taken)
    ]
