-- ===== src/Slugs/Shape.antt =====
-- src/shared/utils/slug.util.ts: what a slug looks like, `[a-z0-9]+(-[a-z0-9]+)*`.
use kuybi.Slugs.{
  hyphenate, trim_start, trim_end, is_slug_char, is_empty, hyphen, trim_hyphens, slugify,
  transliterate,
}
use kuybi.Prelude.{
  ℕ, Bool, List, false, ◌≡◌, true, ◌∷◌, take, not, Bool-cases, ◌||◌, ◌==◌, inl, suc, ◌⊎◌, arith,
  ◌&&◌, inr, zero, refl, [], nat_eq, length, ◌≤◌,
}

-- the pattern, read from the left: `after` tells that a letter or digit comes before
unfoldable pub matches_from : Bool → List ℕ → Bool
matches_from after [] = after
matches_from after (c ∷ cs) =
    let rest = matches_from (is_slug_char c) cs in
    (is_slug_char c || (c == hyphen && after)) && rest

abbrev pub is_kebab : List ℕ → Bool
is_kebab = matches_from false

-- letters, digits and hyphens, no two hyphens side by side; `hyphened` tells that one comes before
unfoldable pub is_spaced : Bool → List ℕ → Bool
is_spaced hyphened [] = true
is_spaced hyphened (c ∷ cs) =
    let rest = is_spaced (not (is_slug_char c)) cs in
    (is_slug_char c || (c == hyphen && not hyphened)) && rest

hyphenate_spaced : (r : Bool) (cs : List ℕ) → is_spaced r (hyphenate r cs) ≡ true
unfolding is_spaced hyphenate
hyphenate_spaced r [] = refl
hyphenate_spaced r (c ∷ cs) = elim (Bool-cases (is_slug_char c)) [
  | inl e ↦ ground (arith, e, hyphenate_spaced false cs)
  | inr e ↦ elim (Bool-cases r) [
    | inl x ↦ ground (arith, e, x, hyphenate_spaced true cs)
    | inr x ↦ ground (arith, e, x, hyphenate_spaced true cs)
  ]
]

-- without a hyphen before it, too
is_spaced_weaken : (h : Bool) (cs : List ℕ) → is_spaced h cs ≡ true → is_spaced false cs ≡ true
unfolding is_spaced
is_spaced_weaken h [] e = refl
is_spaced_weaken h (c ∷ cs) e = elim (Bool-cases (is_slug_char c)) [
  | inl x ↦ ground (arith, e, x)
  | inr x ↦ ground (arith, e, x)
]

pub take_spaced :
    (n : ℕ) (h : Bool) (cs : List ℕ) → is_spaced h cs ≡ true → is_spaced h (take n cs) ≡ true
unfolding is_spaced
take_spaced zero h cs e = refl
take_spaced (suc n) h [] e = refl
take_spaced (suc n) h (c ∷ cs) e = ground (arith, e, take_spaced n (not (is_slug_char c)) cs)

trim_start_spaced :
    (h : Bool) (cs : List ℕ) → is_spaced h cs ≡ true → is_spaced true (trim_start cs) ≡ true
unfolding is_spaced trim_start
trim_start_spaced h [] e = refl
trim_start_spaced h (c ∷ cs) e = elim (Bool-cases (c == hyphen)) [
  | inl x ↦ ground (arith, e, x, trim_start_spaced true cs)
  | inr x ↦ ground (arith, e, x)
]

pub empty-eq : (cs : List ℕ) → is_empty cs ≡ true → cs ≡ []
empty-eq [] e = refl
empty-eq (c ∷ cs) e = absurd (ground (arith, e))

pub matches_some : (cs : List ℕ) → matches_from false cs ≡ true → is_empty cs ≡ false
unfolding matches_from
matches_some [] e = absurd (ground (arith, e))
matches_some (c ∷ cs) e = refl

-- A text that is spaced ends, once trimmed, empty or like the pattern.
trim_end_matches :
    (h : Bool) (cs : List ℕ)
    → is_spaced h cs ≡ true
    → (is_empty (trim_end cs) ≡ true) ⊎ (matches_from (not h) (trim_end cs) ≡ true)
unfolding is_spaced trim_end matches_from
trim_end_matches h [] e = inl refl
trim_end_matches h (c ∷ cs) e = elim (Bool-cases (is_slug_char c)) [
  | inl x ↦ elim (trim_end_matches false cs (ground (arith, e, x))) [
    | inl y ↦ inr (ground (arith, x, empty-eq (trim_end cs) y))
    | inr y ↦ inr (ground (arith, x, y))
  ]
  | inr x ↦ elim (trim_end_matches true cs (ground (arith, e, x))) [
    | inl y ↦ inl (ground (arith, e, x, y))
    | inr y ↦ inr (ground (arith, e, x, y, matches_some (trim_end cs) y))
  ]
]

pub trim_hyphens_matches :
    (h : Bool) (cs : List ℕ)
    → is_spaced h cs ≡ true
    → (is_empty (trim_hyphens cs) ≡ true) ⊎ (is_kebab (trim_hyphens cs) ≡ true)
trim_hyphens_matches h cs e = trim_end_matches true (trim_start cs) (trim_start_spaced h cs e)

trim_end_spaced :
    (h : Bool) (cs : List ℕ) → is_spaced h cs ≡ true → is_spaced h (trim_end cs) ≡ true
unfolding is_spaced trim_end
trim_end_spaced h [] e = refl
trim_end_spaced h (c ∷ cs) e = ground (arith, e, trim_end_spaced (not (is_slug_char c)) cs)

length-trim_start : (cs : List ℕ) → length (trim_start cs) ≤ length cs
unfolding trim_start
length-trim_start [] = omega arith
length-trim_start (c ∷ cs) = ground (arith, length-trim_start cs)

length-trim_end : (cs : List ℕ) → length (trim_end cs) ≤ length cs
unfolding trim_end
length-trim_end [] = omega arith
length-trim_end (c ∷ cs) = ground (arith, length-trim_end cs)

pub length-trim_hyphens : (cs : List ℕ) → length (trim_hyphens cs) ≤ length cs
length-trim_hyphens cs = omega (arith, length-trim_end (trim_start cs), length-trim_start cs)

pub length-take_le : (n : ℕ) (cs : List ℕ) → length (take n cs) ≤ n
length-take_le zero cs = omega arith
length-take_le (suc n) [] = omega arith
length-take_le (suc n) (c ∷ cs) = omega (arith, length-take_le n cs)

-- A slug is the fallback, or it has the pattern `[a-z0-9]+(-[a-z0-9]+)*` and at most `maxLength`
-- characters, whatever the input and whatever the runtime folds.
pub slugify-matches :
    (fold : List ℕ → List ℕ) (max_length : ℕ) (fallback input : List ℕ)
    → let slug = slugify fold max_length fallback input in
      (slug ≡ fallback) ⊎ ((is_kebab slug ≡ true) × (length slug ≤ max_length))
unfolding slugify
slugify-matches fold max_length fallback input =
    let words = trim_hyphens (hyphenate false (fold (transliterate input))) in
    let spaced : is_spaced true words ≡ true =
      trim_end_spaced true (trim_start (hyphenate false (fold (transliterate input)))) (
        trim_start_spaced false (hyphenate false (fold (transliterate input)))
          (hyphenate_spaced false (fold (transliterate input)))) in
    elim (trim_hyphens_matches true (take max_length words)
      (take_spaced max_length true words spaced)) [
        | inl e ↦ inl (ground (arith, e))
        | inr e ↦ inr (
          ground (arith, e, matches_some (trim_hyphens (take max_length words)) e),
          ground (
            arith,
            e,
            matches_some (trim_hyphens (take max_length words)) e,
            length-trim_hyphens (take max_length words),
            length-take_le max_length words,
          ),
        )
      ]
