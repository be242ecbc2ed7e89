-- ===== src/Slugs/Fixed.antt =====
-- src/shared/utils/slug.util.ts: what is a slug already stays as it is.
use kuybi.Slugs.Shape.{matches_from, is_kebab, matches_some}
use kuybi.Slugs.{
  trim_start, latin_of, hyphenate, trim_end, arabic_to_latin, slugify, transliterate, trim_hyphens,
  is_slug_char,
}
use kuybi.Prelude.{
  ℕ, all, List, ltb, length, Bool, ◌≤◌, ◌≡◌, true, take, false, ◌∷◌, refl, not, [], arith,
  Bool-cases, suc, inl, ap, inr, zero, ◌∙◌,
}

-- a table whose characters all come after `z`
latin_of_ascii :
    (table : List (ℕ × List ℕ)) (c : ℕ)
    → all (λ e. ltb b'z' e.0) table ≡ true
    → c ≤ b'z'
    → latin_of table c ≡ c ∷ []
unfolding latin_of
latin_of_ascii [] c h l = refl
latin_of_ascii ((from, to) ∷ rest) c h l = ground (arith, h, l, latin_of_ascii rest c)

after_z : all (λ e. ltb b'z' e.0) arabic_to_latin ≡ true
unfolding arabic_to_latin
after_z = refl

transliterate_same : (a : Bool) (cs : List ℕ) → matches_from a cs ≡ true → transliterate cs ≡ cs
unfolding transliterate matches_from
transliterate_same a [] h = refl
transliterate_same a (c ∷ cs) h =
    let small : c ≤ b'z' = ground (arith, h) in
    ground (
      arith,
      h,
      small,
      latin_of_ascii arabic_to_latin c after_z small,
      transliterate_same (is_slug_char c) cs,
    )

hyphenate_same : (a : Bool) (cs : List ℕ) → matches_from a cs ≡ true → hyphenate (not a) cs ≡ cs
unfolding hyphenate matches_from
hyphenate_same a [] h = refl
hyphenate_same a (c ∷ cs) h = elim (Bool-cases (is_slug_char c)) [
  | inl e ↦ ground (arith, e, h, hyphenate_same true cs)
  | inr e ↦ ground (arith, e, h, hyphenate_same false cs)
]

hyphenate_kebab : (cs : List ℕ) → is_kebab cs ≡ true → hyphenate false cs ≡ cs
unfolding hyphenate matches_from
hyphenate_kebab [] h = refl
hyphenate_kebab (c ∷ cs) h = ground (arith, h, hyphenate_same true cs)

trim_end_same : (a : Bool) (cs : List ℕ) → matches_from a cs ≡ true → trim_end cs ≡ cs
unfolding trim_end matches_from
trim_end_same a [] h = refl
trim_end_same a (c ∷ cs) h = elim (Bool-cases (is_slug_char c)) [
  | inl e ↦ ground (arith, e, h, trim_end_same true cs)
  | inr e ↦ ground (arith, e, h, trim_end_same false cs, matches_some cs)
]

trim_hyphens_same : (cs : List ℕ) → is_kebab cs ≡ true → trim_hyphens cs ≡ cs
unfolding trim_start matches_from
trim_hyphens_same [] h = absurd (ground (arith, h))
trim_hyphens_same (c ∷ cs) h = ground (arith, h, trim_end_same false (c ∷ cs) h)

take_all : (n : ℕ) (cs : List ℕ) → length cs ≤ n → take n cs ≡ cs
take_all zero [] h = refl
take_all zero (c ∷ cs) h = absurd (omega (arith, h))
take_all (suc n) [] h = refl
take_all (suc n) (c ∷ cs) h = ap (◌∷◌ c) (take_all n cs (omega (arith, h)))

-- A text that has the pattern of a slug and is not too long is its own slug, where the runtime's
-- folding leaves it alone.
pub slugify_same :
    (fold : List ℕ → List ℕ) (max_length : ℕ) (fallback slug : List ℕ)
    → is_kebab slug ≡ true
    → length slug ≤ max_length
    → fold slug ≡ slug
    → slugify fold max_length fallback slug ≡ slug
unfolding slugify
slugify_same fold max_length fallback slug k l f =
    let raw : hyphenate false (fold (transliterate slug)) ≡ slug =
      ap (λ x. hyphenate false (fold x)) (transliterate_same false slug k)
      ∙ ap (hyphenate false) f
      ∙ hyphenate_kebab slug k in
    let words : trim_hyphens (hyphenate false (fold (transliterate slug))) ≡ slug =
      ap trim_hyphens raw ∙ trim_hyphens_same slug k in
    let cut : trim_hyphens
          (take max_length (trim_hyphens (hyphenate false (fold (transliterate slug)))))
        ≡ slug =
      ap (λ x. trim_hyphens (take max_length x)) words
      ∙ ap trim_hyphens (take_all max_length slug l)
      ∙ trim_hyphens_same slug k in
    ground (arith, cut, matches_some slug k)
