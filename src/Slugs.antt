-- ===== src/Slugs.antt =====
-- src/shared/utils/slug.util.ts. A string is the list of its code points. `fold` stands for the Unicode
-- part that the source leaves to the runtime: NFKD, without the combining marks, in lower case.
pub mod Shape
pub mod Unique
pub mod Fixed
mod Tests
use kuybi.Prelude.Method.{Result, err, ok}
use kuybi.Prelude.{
  Bool, ℕ, List, false, ◌∷◌, length, [], if◌then◌else◌, leb, true, ◌++◌, take, not, ◌+◌, ◌==◌, ◌&&◌,
  suc, map, ◌||◌, nat_eq, ◌-◌, zero, ◌/◌, ◌%◌,
}

abbrev pub default_slug_max_length : ℕ
default_slug_max_length = 120

abbrev pub hyphen : ℕ
hyphen = b'-'

unfoldable pub arabic_to_latin : List (ℕ × List ℕ)
arabic_to_latin =
    (0x621, [])
    ∷ (0x622, b'a' ∷ [])
    ∷ (0x623, b'a' ∷ [])
    ∷ (0x625, b'e' ∷ [])
    ∷ (0x627, b'a' ∷ [])
    ∷ (0x624, b'o' ∷ [])
    ∷ (0x626, b'e' ∷ [])
    ∷ (0x649, b'a' ∷ [])
    ∷ (0x629, b'a' ∷ [])
    ∷ (0x628, b'b' ∷ [])
    ∷ (0x62a, b't' ∷ [])
    ∷ (0x62b, b't' ∷ b'h' ∷ [])
    ∷ (0x62c, b'j' ∷ [])
    ∷ (0x62d, b'h' ∷ [])
    ∷ (0x62e, b'k' ∷ b'h' ∷ [])
    ∷ (0x62f, b'd' ∷ [])
    ∷ (0x630, b't' ∷ b'h' ∷ [])
    ∷ (0x631, b'r' ∷ [])
    ∷ (0x632, b'z' ∷ [])
    ∷ (0x633, b's' ∷ [])
    ∷ (0x634, b's' ∷ b'h' ∷ [])
    ∷ (0x635, b's' ∷ [])
    ∷ (0x636, b'd' ∷ [])
    ∷ (0x637, b't' ∷ [])
    ∷ (0x638, b'z' ∷ [])
    ∷ (0x639, b'a' ∷ [])
    ∷ (0x63a, b'g' ∷ b'h' ∷ [])
    ∷ (0x641, b'f' ∷ [])
    ∷ (0x642, b'q' ∷ [])
    ∷ (0x643, b'k' ∷ [])
    ∷ (0x644, b'l' ∷ [])
    ∷ (0x645, b'm' ∷ [])
    ∷ (0x646, b'n' ∷ [])
    ∷ (0x647, b'h' ∷ [])
    ∷ (0x648, b'w' ∷ [])
    ∷ (0x64a, b'y' ∷ [])
    ∷ (0x67e, b'p' ∷ [])
    ∷ (0x686, b'c' ∷ b'h' ∷ [])
    ∷ (0x698, b'z' ∷ b'h' ∷ [])
    ∷ (0x6af, b'g' ∷ [])
    ∷ (0x6a9, b'k' ∷ [])
    ∷ (0x6cc, b'y' ∷ [])
    ∷ (0x640, [])
    ∷ []

abbrev pub is_arabic_diacritic : ℕ → Bool
is_arabic_diacritic c = (leb 1611 c && leb c 1631) || c == 1648

-- `String(d.charCodeAt(0) - 0x0660)` and the like, a digit
abbrev pub latin_digit : ℕ → ℕ
latin_digit c =
    if leb 1632 c && leb c 1641
    then b'0' + (c - 1632)
    else (if leb 1776 c && leb c 1785 then b'0' + (c - 1776) else c)

-- `ARABIC_TO_LATIN[char] ?? char`
unfoldable pub latin_of : List (ℕ × List ℕ) → ℕ → List ℕ
latin_of [] c = c ∷ []
latin_of ((from, to) ∷ rest) c = let other = latin_of rest c in if from == c then to else other

unfoldable pub transliterate : List ℕ → List ℕ
transliterate [] = []
transliterate (c ∷ cs) =
    let rest = transliterate cs in
    if is_arabic_diacritic c then rest else latin_of arabic_to_latin (latin_digit c) ++ rest

abbrev pub is_slug_char : ℕ → Bool
is_slug_char c = (leb b'a' c && leb c b'z') || (leb b'0' c && leb c b'9')

-- runs of other characters become one hyphen; `in_run` tells that the one before was such
unfoldable pub hyphenate : Bool → List ℕ → List ℕ
hyphenate in_run [] = []
hyphenate in_run (c ∷ cs) =
    let rest = hyphenate (not (is_slug_char c)) cs in
    if is_slug_char c then c ∷ rest else (if in_run then rest else hyphen ∷ rest)

unfoldable pub trim_start : List ℕ → List ℕ
trim_start [] = []
trim_start (c ∷ cs) = let rest = trim_start cs in if c == hyphen then rest else c ∷ cs

abbrev pub is_empty : List ℕ → Bool
is_empty [] = true
is_empty (c ∷ cs) = false

unfoldable pub trim_end : List ℕ → List ℕ
trim_end [] = []
trim_end (c ∷ cs) = let rest = trim_end cs in if c == hyphen && is_empty rest then [] else c ∷ rest

-- without EDGE_HYPHENS_REGEX
abbrev pub trim_hyphens : List ℕ → List ℕ
trim_hyphens cs = trim_end (trim_start cs)

unfoldable pub slugify : (List ℕ → List ℕ) → ℕ → List ℕ → List ℕ → List ℕ
slugify fold max_length fallback input =
    let words = trim_hyphens (hyphenate false (fold (transliterate input))) in
    let slug = trim_hyphens (take max_length words) in if is_empty slug then fallback else slug

pub data SlugError : Type 0 where
  no_free_slug : SlugError

abbrev pub numbered_attempts : ℕ
numbered_attempts = 9

-- `base.slice(0, max - n)`: a negative end counts from the end of the text
unfoldable pub slice_to : ℕ → ℕ → List ℕ → List ℕ
slice_to max n base = if leb n max then take (max - n) base else take (length base - (n - max)) base

unfoldable pub with_suffix : ℕ → List ℕ → List ℕ → List ℕ
with_suffix max_length base suffix =
    trim_hyphens (slice_to max_length (length suffix) base) ++ suffix

-- `-2` to `-10`
unfoldable pub numbered_suffix : ℕ → List ℕ
numbered_suffix n =
    if leb n 9 then hyphen ∷ (b'0' + n) ∷ [] else hyphen ∷ (b'0' + n / 10) ∷ (b'0' + n % 10) ∷ []

unfoldable pub numbered_suffixes : ℕ → ℕ → List (List ℕ)
numbered_suffixes zero n = []
numbered_suffixes (suc k) n = numbered_suffix n ∷ numbered_suffixes k (n + 1)

-- `randoms` are the texts in base 36 of the random numbers, six characters each
unfoldable pub candidates : ℕ → List ℕ → List (List ℕ) → List (List ℕ)
candidates max_length base randoms =
    base
    ∷ (map (with_suffix max_length base) (numbered_suffixes numbered_attempts 2)
        ++ map (λ r. with_suffix max_length base (hyphen ∷ r)) randoms)

unfoldable pub first_free : (List ℕ → Bool) → List (List ℕ) → Result SlugError (List ℕ)
first_free exists [] = err no_free_slug
first_free exists (c ∷ cs) = let rest = first_free exists cs in if exists c then rest else ok c

-- `exists` is what the look-ups answer
unfoldable pub unique_slug :
    ℕ → (List ℕ → Bool) → List ℕ → List (List ℕ) → Result SlugError (List ℕ)
unique_slug max_length exists base randoms = first_free exists (candidates max_length base randoms)
