-- ===== src/Mock/Range/Bounds.antt =====
-- The ranges that `parseRangeHeader` gives, and its reading of the header of the delta script.
use nutanix_vma.Prelude.{
  ℕ, ◌+◌, ◌-◌, ◌*◌, ◌<◌, ◌≤◌, ◌==◌, ltb, leb, leb→gt, ltb→ge, gt→leb, ge→ltb, lt→ltb, ne→==, Option,
  none, some, List, [], ◌∷◌, ◌++◌, if◌then◌else◌, half_word, codes, decimal64, All, ◌≡◌, ◌≢◌, refl,
  ap, ◌∙◌, inl, inr, Bool-cases, Option-cases, arith,
}
use nutanix_vma.Prelude.Digits.{
  IsDigit, number_from, number_from-decimal64, decimal64-IsDigit, decimal64-ne-nil,
}
use nutanix_vma.Transfer.Script.{Chunk, range_header}
use nutanix_vma.Mock.Range.{
  strip_prefix, split_at, digits_value, below, unsigned, parse_natural, bounded_end, range_of,
  parse_range_header,
}

abbrev Within : ℕ → Option (ℕ × ℕ) → Type 0
Within total none = Unit
Within total (some (start, last)) = (start ≤ last) × (last < total)

bounded_end-Within :
    (total start : ℕ) (end_part : List ℕ)
    → start < total
    → Within total (bounded_end total start end_part)
unfolding bounded_end
bounded_end-Within total start [] h = (omega (arith, h), omega (arith, h))
bounded_end-Within total start (c ∷ s) h = elim (Option-cases (parse_natural (c ∷ s))) [
  | inl n ↦ rw (n, bounded_end) tt
  | inr (last, e) ↦
      rw (e, bounded_end)
        (elim (Bool-cases (ltb last start)) [
          | inl l ↦ rw l tt
          | inr g ↦ rw g (elim (Bool-cases (leb total last)) [
            | inl b ↦ rw b (omega (arith, h), omega (arith, h))
            | inr b ↦ rw b (ltb→ge last start g, leb→gt total last b)
          ])
        ])
]

range_of-Within :
    (total : ℕ) (parts : Option (List ℕ × List ℕ)) → 0 < total → Within total (range_of total parts)
unfolding range_of
range_of-Within total none h = tt
range_of-Within total (some ([], suffix)) h = elim (Option-cases (parse_natural suffix)) [
  | inl n ↦ rw (n, range_of) tt
  | inr (k, e) ↦
      rw (e, range_of)
        (elim (Bool-cases (k == 0)) [
          | inl z ↦ rw z tt
          | inr z ↦ rw z (ground (arith, z), omega (arith, h))
        ])
]
range_of-Within total (some (c ∷ s, end_part)) h = elim (Option-cases (parse_natural (c ∷ s))) [
  | inl n ↦ rw (n, range_of) tt
  | inr (start, e) ↦
      rw (e, range_of)
        (elim (Bool-cases (leb total start)) [
          | inl b ↦ rw b tt
          | inr b ↦ rw b (bounded_end-Within total start end_part (leb→gt total start b))
        ])
]

Within-some :
    (total : ℕ) (o : Option (ℕ × ℕ)) (start last : ℕ)
    → o ≡ some (start, last)
    → Within total o
    → (start ≤ last) × (last < total)
Within-some total o start last e w = let q = (rw e at w) in q

-- A range that is accepted for a file that is not empty begins at or before its end, and ends in the
-- file.
pub parse_range_header-Within :
    (header : List ℕ) (total start last : ℕ)
    → 0 < total
    → parse_range_header header total ≡ some (start, last)
    → (start ≤ last) × (last < total)
unfolding parse_range_header
parse_range_header-Within header total start last h e =
    Within-some total (parse_range_header header total) start last e (any header)
  where
    any : (header : List ℕ) → Within total (parse_range_header header total)
    any header = elim (Option-cases (strip_prefix (codes "bytes=") header)) [
      | inl n ↦ rw (parse_range_header, n) tt
      | inr (spec, p) ↦ rw (parse_range_header, p) (range_of-Within total (split_at b'-' spec) h)
    ]

digits_value-number_from :
    (n : ℕ) (s : List ℕ) → All IsDigit s → digits_value n s ≡ some (number_from n s)
unfolding digits_value number_from
digits_value-number_from n [] h = refl
digits_value-number_from n (c ∷ s) h =
    ground (arith, h.0, digits_value-number_from (n * 10 + (c - b'0')) s h.1)

unsigned-number_from : (s : List ℕ) → s ≢ [] → All IsDigit s → unsigned s ≡ some (number_from 0 s)
unsigned-number_from [] ne h = absurd (ne refl)
unsigned-number_from (c ∷ s) ne h = digits_value-number_from 0 (c ∷ s) h

-- A text of digits has no sign.
parse_natural-unsigned :
    (s : List ℕ) → All IsDigit s → parse_natural s ≡ below half_word (unsigned s)
unfolding parse_natural
parse_natural-unsigned [] h = refl
parse_natural-unsigned (c ∷ s) h =
    rw
      (
        ne→== c b'+' (λ e. absurd (omega (arith, h.0, e))),
        ne→== c b'-' (λ e. absurd (omega (arith, h.0, e))),
      )
      refl

pub parse_natural-decimal64 : (n : ℕ) → n < half_word → parse_natural (codes (decimal64 n)) ≡ some n
parse_natural-decimal64 n h =
    rw
      (
        parse_natural-unsigned _ (decimal64-IsDigit n h),
        unsigned-number_from _ (decimal64-ne-nil n h) (decimal64-IsDigit n h),
        number_from-decimal64 n h,
        lt→ltb n half_word h,
      )
      refl

split_at-digits : (a b : List ℕ) → All IsDigit a → split_at b'-' (a ++ b'-' ∷ b) ≡ some (a, b)
unfolding split_at
split_at-digits [] b h = refl
split_at-digits (c ∷ a) b h = elim (Bool-cases (c == b'-')) [
  | inl e ↦ absurd (ground (arith, h.0))
  | inr e ↦ rw (e, split_at-digits a b h.1) refl
]

range_of-decimals :
    (total first last : ℕ)
    → first ≤ last
    → first < total
    → last < half_word
    → range_of total (some (codes (decimal64 first), codes (decimal64 last)))
      ≡ some (first, if leb total last then total - 1 else last)
unfolding range_of bounded_end
range_of-decimals total first last h inside small =
    range_of_parts (codes (decimal64 first)) (codes (decimal64 last))
      (decimal64-ne-nil first (omega (arith, h, small))) (decimal64-ne-nil last small)
      (parse_natural-decimal64 first (omega (arith, h, small))) (parse_natural-decimal64 last small)
  where
    range_of_parts :
        (a b : List ℕ)
        → a ≢ []
        → b ≢ []
        → parse_natural a ≡ some first
        → parse_natural b ≡ some last
        → range_of total (some (a, b)) ≡ some (first, if leb total last then total - 1 else last)
    range_of_parts [] b na nb pa pb = absurd (na refl)
    range_of_parts (c ∷ a) [] na nb pa pb = absurd (nb refl)
    range_of_parts (c ∷ a) (d ∷ b) na nb pa pb =
        rw (range_of, pa, gt→leb total first inside, bounded_end, pb, ge→ltb last first h) refl

-- The header by which the delta script fetches a chunk is read as the chunk's first and last byte, or
-- the last byte of the file where the chunk goes beyond its end, if the chunk is not empty and begins in
-- the file.
pub parse_range_header-range_header :
    (total : ℕ) (c : Chunk)
    → c.offset ≤ c.last
    → c.offset < total
    → c.last < half_word
    → parse_range_header (range_header c) total
      ≡ some (c.offset, if leb total c.last then total - 1 else c.last)
unfolding parse_range_header range_header strip_prefix
parse_range_header-range_header total c h inside small =
    ap (range_of total) (
      split_at-digits (codes (decimal64 c.offset)) (codes (decimal64 c.last))
        (decimal64-IsDigit c.offset (omega (arith, h, small))))
    ∙ range_of-decimals total c.offset c.last h inside small
