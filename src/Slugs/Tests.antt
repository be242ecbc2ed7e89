-- ===== src/Slugs/Tests.antt =====
-- The slug of a title, and a name that is taken.
use kuybi.Slugs.Unique.{unique_slug-cases}
use kuybi.Prelude.Table.{find}
use kuybi.Prelude.Method.{ok, err}
use kuybi.Slugs.Shape.{matches_from, is_kebab, slugify-matches}
use kuybi.Slugs.{
  unique_slug, slugify, first_free, transliterate, candidates, numbered_suffixes, latin_of,
  arabic_to_latin, numbered_suffix, with_suffix, hyphenate, trim_start, slice_to, trim_end,
  no_free_slug,
}
use kuybi.Prelude.{
  List, ◌≡◌, ℕ, true, Bool, ◌∷◌, ◌⊎◌, if◌then◌else◌, refl, arith, [], nat_beq, false, length, leb,
  ◌≤◌, not, ◌&&◌, some, ◌+◌, ◌++◌, all,
}

-- lower case for Latin letters, and no other folding
abbrev lower : List ℕ → List ℕ
lower [] = []
lower (c ∷ cs) = (if leb b'A' c && leb c b'Z' then c + 32 else c) ∷ lower cs

abbrev item : List ℕ
item = b'i' ∷ b't' ∷ b'e' ∷ b'm' ∷ []

abbrev title : List ℕ
title = 0x645 ∷ 0x642 ∷ b' ' ∷ b'!' ∷ b'A' ∷ b' ' ∷ 0x663 ∷ b'?' ∷ []

abbrev slug : List ℕ
slug = b'm' ∷ b'q' ∷ b'-' ∷ b'a' ∷ b'-' ∷ b'3' ∷ []

slug_of_title : slugify lower 120 item title ≡ slug
unfolding slugify transliterate latin_of arabic_to_latin hyphenate trim_start trim_end
slug_of_title = refl

is_a_slug : is_kebab slug ≡ true
unfolding matches_from
is_a_slug = refl

slugify-matches_example :
    (slugify lower 120 item title ≡ item)
    ⊎ ((is_kebab (slugify lower 120 item title) ≡ true)
        × (length (slugify lower 120 item title) ≤ 120))
slugify-matches_example = slugify-matches lower 120 item title

-- every text of six characters is taken
abbrev taken : List ℕ → Bool
taken cs = nat_beq (length cs) 6

abbrev randoms : List (List ℕ)
randoms = (b'k' ∷ b'3' ∷ b'x' ∷ b'9' ∷ b'q' ∷ b'2' ∷ []) ∷ []

second_is_free : unique_slug 120 taken slug randoms ≡ ok (slug ++ b'-' ∷ b'2' ∷ [])
unfolding unique_slug first_free candidates numbered_suffixes numbered_suffix with_suffix slice_to
    trim_start trim_end
second_is_free = refl

unique_slug-cases_example :
    let made = unique_slug 120 taken slug randoms in
    let tried = candidates 120 slug randoms in
    ((s : List ℕ) × (made ≡ ok s)
      × (taken s ≡ false)
      × (find (λ c. not (taken c)) tried ≡ some s)
      × (is_kebab s ≡ true)
      × (length s ≤ 120))
    ⊎ ((made ≡ err no_free_slug) × (all taken tried ≡ true))
unique_slug-cases_example =
    unique_slug-cases taken 120 slug randoms (omega arith) is_a_slug (omega arith)
      ((refl, refl), tt)
