-- ===== src/Mock/Range.antt =====
-- `parseRangeHeader` of pkg/mock/handlers_image.go, and the header that the delta script sends.
pub mod Bounds
use nutanix_vma.Prelude.{
  ℕ, ◌+◌, ◌-◌, ◌*◌, ◌<◌, ◌≤◌, ◌==◌, ltb, leb, Bool, true, false, ◌&&◌, ◌||◌, Option, none, some,
  List, [], ◌∷◌, ◌++◌, if◌then◌else◌, half_word, codes,
}

-- `strings.TrimPrefix` after `strings.HasPrefix`.
unfoldable pub strip_prefix : (prefix text : List ℕ) → Option (List ℕ)
strip_prefix [] text = some text
strip_prefix (c ∷ prefix) [] = none
strip_prefix (c ∷ prefix) (d ∷ text) =
    let rest = strip_prefix prefix text in if c == d then rest else none

-- `strings.SplitN(s, sep, 2)`: what stands before the first separator and behind it, if there is one.
abbrev pub put_before : ℕ → Option (List ℕ × List ℕ) → Option (List ℕ × List ℕ)
put_before c none = none
put_before c (some (a, b)) = some (c ∷ a, b)

unfoldable pub split_at : (sep : ℕ) → List ℕ → Option (List ℕ × List ℕ)
split_at sep [] = none
split_at sep (c ∷ s) =
    let rest = put_before c (split_at sep s) in if c == sep then some ([], s) else rest

-- `strconv.ParseInt(s, 10, 64)`, without the sign.
unfoldable pub digits_value : ℕ → List ℕ → Option ℕ
digits_value n [] = some n
digits_value n (c ∷ s) =
    let rest = digits_value (n * 10 + (c - b'0')) s in
    if leb b'0' c && leb c b'9' then rest else none

abbrev pub below : ℕ → Option ℕ → Option ℕ
below limit none = none
below limit (some n) = if ltb n limit then some n else none

-- A text with digits.
abbrev pub unsigned : List ℕ → Option ℕ
unsigned [] = none
unsigned (c ∷ s) = digits_value 0 (c ∷ s)

-- A number from 0 on; nothing for a negative one other than -0, which no branch of the caller tells
-- from an error.
unfoldable pub parse_natural : List ℕ → Option ℕ
unfolding digits_value
parse_natural [] = none
parse_natural (c ∷ s) =
    if c == b'+'
    then below half_word (unsigned s)
    else if c == b'-'
    then (elim (unsigned s) [ none ↦ none | some n ↦ if n == 0 then some 0 else none ])
    else below half_word (unsigned (c ∷ s))

-- By the end that is named, from `start` on.
unfoldable pub bounded_end : (total start : ℕ) → (end_part : List ℕ) → Option (ℕ × ℕ)
unfolding parse_natural
bounded_end total start [] = some (start, total - 1)
bounded_end total start (c ∷ s) = elim (parse_natural (c ∷ s)) [
  | none ↦ none
  | some last ↦
      if ltb last start then none else some (start, if leb total last then total - 1 else last)
]

-- By what stands before and behind the "-".
unfoldable pub range_of : (total : ℕ) → Option (List ℕ × List ℕ) → Option (ℕ × ℕ)
unfolding bounded_end
range_of total none = none
range_of total (some ([], suffix)) = elim (parse_natural suffix) [
  | none ↦ none
  | some n ↦ if n == 0 then none else some (total - n, total - 1)
]
range_of total (some (c ∷ s, end_part)) = elim (parse_natural (c ∷ s)) [
  | none ↦ none
  | some start ↦ if leb total start then none else bounded_end total start end_part
]

unfoldable pub parse_range_header : (header : List ℕ) → (total : ℕ) → Option (ℕ × ℕ)
unfolding strip_prefix range_of split_at
parse_range_header header total = elim (strip_prefix (codes "bytes=") header) [
  | none ↦ none
  | some spec ↦ range_of total (split_at b'-' spec)
]
