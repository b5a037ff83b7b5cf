-- ===== src/Transfer/Script/Regions.antt =====
-- The regions of `RegionsToText` that the script of the delta Pod copies.
use mathlib.Core.List.{append_assoc, append-nil}
use nutanix_vma.Prelude.{
  ℕ, ◌<◌, ◌==◌, Bool, true, List, [], ◌∷◌, ◌++◌, map, ◌≡◌, ◌≢◌, refl, ap, sym, ◌∙◌, inl, inr,
  Bool-cases, arith, All, All-append, codes, half_word, decimal64, concat,
}
use nutanix_vma.Prelude.Digits.{
  IsDigit, number_from, number_from-decimal64, decimal64-IsDigit, decimal64-ne-nil, codes-append,
}
use nutanix_vma.Api.{ChangedRegion}
use nutanix_vma.Transfer.{region_line, regions_to_text}
use nutanix_vma.Transfer.Script.{
  Chunk, chunk, ScriptRun, lines_from, split_fields, copy, run_line, run_lines, delta_script,
}

-- An offset and a length that are not negative.
abbrev pub Fits : ChangedRegion → Type 0
Fits r = (r.offset < half_word) × (r.length < half_word)

-- The copy of all regions in order, up to the first that fails.
unfoldable pub copy_regions : (copies : Chunk → Bool) → List ChangedRegion → ScriptRun
copy_regions copies [] = record { finished = true; written = [] }
copy_regions copies (r ∷ rest) = copy copies (chunk r.offset r.length) (copy_regions copies rest)

abbrev Plain : List ℕ → Type 0
Plain = All (λ c. c ≢ b'\n')

-- A line with its newline.
lines_from-line :
    (line body rest : List ℕ)
    → Plain body
    → lines_from line (body ++ b'\n' ∷ rest) ≡ (line ++ body) ∷ lines_from [] rest
unfolding lines_from
lines_from-line line [] rest h = ap (λ x. x ∷ lines_from [] rest) (sym (append-nil line))
lines_from-line line (c ∷ body) rest h = elim (Bool-cases (c == b'\n')) [
  | inl e ↦ absurd (h.0 (ground arith))
  | inr e ↦
      rw (e, lines_from)
        (lines_from-line (line ++ c ∷ []) body rest h.1
          ∙ ap (λ x. x ∷ lines_from [] rest) (append_assoc line (c ∷ []) body))
]

-- A last line without one.
lines_from-tail : (line body : List ℕ) → Plain body → lines_from line body ≡ []
unfolding lines_from
lines_from-tail line [] h = refl
lines_from-tail line (c ∷ body) h = elim (Bool-cases (c == b'\n')) [
  | inl e ↦ absurd (h.0 (ground arith))
  | inr e ↦ rw (e, lines_from) (lines_from-tail (line ++ c ∷ []) body h.1)
]

split_fields-colon : (a b : List ℕ) → All IsDigit a → split_fields (a ++ b':' ∷ b) ≡ (a, b)
unfolding split_fields
split_fields-colon [] b h = refl
split_fields-colon (c ∷ a) b h = elim (Bool-cases (c == b':')) [
  | inl e ↦ absurd (ground (arith, h.0))
  | inr e ↦ rw (e, split_fields-colon a b h.1) refl
]

digits-Plain : (s : List ℕ) → All IsDigit s → Plain s
digits-Plain [] h = tt
digits-Plain (c ∷ s) h = ((λ e. absurd (omega (arith, h.0, e))), digits-Plain s h.1)

-- The line of a region.
abbrev line : ChangedRegion → List ℕ
line r = codes (decimal64 r.offset) ++ b':' ∷ codes (decimal64 r.length)

codes-region_line : (r : ChangedRegion) → codes (region_line r) ≡ line r
unfolding region_line
codes-region_line r =
    codes-append (decimal64 r.offset) _
    ∙ ap (λ x. codes (decimal64 r.offset) ++ x)
        (codes-append ":" _
          ∙ ap (λ x. b':' ∷ x) (codes-append (decimal64 r.length) "" ∙ append-nil _))

line-Plain : (r : ChangedRegion) → Fits r → Plain (line r)
line-Plain r h =
    All-append (λ c. c ≢ b'\n') (codes (decimal64 r.offset)) (b':' ∷ codes (decimal64 r.length))
      (digits-Plain _ (decimal64-IsDigit r.offset h.0))
      ((λ e. absurd (omega (arith, e))), digits-Plain _ (decimal64-IsDigit r.length h.1))

-- Two lines or more.
codes-regions_to_text :
    (r s : ChangedRegion) (rest : List ChangedRegion)
    → codes (regions_to_text (r ∷ s ∷ rest)) ≡ line r ++ b'\n' ∷ codes (regions_to_text (s ∷ rest))
unfolding regions_to_text
codes-regions_to_text r s rest =
    codes-append (region_line r) _
    ∙ ap (λ x. x ++ codes (concat ("\n" ∷ regions_to_text (s ∷ rest) ∷ []))) (codes-region_line r)
    ∙ ap (λ x. line r ++ x)
        (codes-append "\n" _
          ∙ ap (λ x. b'\n' ∷ x) (codes-append (regions_to_text (s ∷ rest)) "" ∙ append-nil _))

codes-regions_to_text_one : (r : ChangedRegion) → codes (regions_to_text (r ∷ [])) ≡ line r
unfolding regions_to_text
codes-regions_to_text_one r = codes-region_line r

-- The script sees a line for each region but the last.
lines-but_last :
    (rs : List ChangedRegion) (r : ChangedRegion)
    → All Fits (rs ++ r ∷ [])
    → lines_from [] (codes (regions_to_text (rs ++ r ∷ []))) ≡ map line rs
lines-but_last [] r h =
    rw (codes-regions_to_text_one r) (lines_from-tail [] (line r) (line-Plain r h.0))
lines-but_last (s ∷ []) r h =
    rw
      (
        codes-regions_to_text s r [],
        lines_from-line [] (line s) (codes (regions_to_text (r ∷ []))) (line-Plain s h.0),
        lines-but_last [] r h.1,
      )
      refl
lines-but_last (s ∷ t ∷ rs) r h =
    rw
      (
        codes-regions_to_text s t (rs ++ r ∷ []),
        lines_from-line [] (line s) (codes (regions_to_text (t ∷ rs ++ r ∷ []))) (line-Plain s h.0),
        lines-but_last (t ∷ rs) r h.1,
      )
      refl

-- Behind the text with a newline it would see all.
lines_whole :
    (r : ChangedRegion) (rs : List ChangedRegion)
    → All Fits (r ∷ rs)
    → lines_from [] (codes (regions_to_text (r ∷ rs)) ++ b'\n' ∷ []) ≡ line r ∷ map line rs
lines_whole r [] h =
    rw (codes-regions_to_text_one r, lines_from-line [] (line r) [] (line-Plain r h.0))
      (unfold lines_from in refl)
lines_whole r (s ∷ rs) h =
    rw
      (
        codes-regions_to_text r s rs,
        append_assoc (line r) (b'\n' ∷ codes (regions_to_text (s ∷ rs))) (b'\n' ∷ []),
        lines_from-line [] (line r) (codes (regions_to_text (s ∷ rs)) ++ b'\n' ∷ [])
            (line-Plain r h.0),
        lines_whole s rs h.1,
      )
      refl

lines-snoc :
    (rs : List ChangedRegion) (r : ChangedRegion)
    → All Fits (rs ++ r ∷ [])
    → lines_from [] (codes (regions_to_text (rs ++ r ∷ [])) ++ b'\n' ∷ []) ≡ map line (rs ++ r ∷ [])
lines-snoc [] r h = lines_whole r [] h
lines-snoc (s ∷ rs) r h = lines_whole s (rs ++ r ∷ []) h

Fits-front : (rs : List ChangedRegion) (r : ChangedRegion) → All Fits (rs ++ r ∷ []) → All Fits rs
Fits-front [] r h = tt
Fits-front (s ∷ rs) r h = (h.0, Fits-front rs r h.1)

module _ (copies : Chunk → Bool) where
  run_line_lem :
      (a b : List ℕ) (rest : ScriptRun)
      → a ≢ []
      → run_line copies (a, b) rest ≡ copy copies (chunk (number_from 0 a) (number_from 0 b)) rest
  unfolding run_line
  run_line_lem [] b rest h = absurd (h refl)
  run_line_lem (c ∷ a) b rest h = refl

  run_lines-regions :
      (rs : List ChangedRegion)
      → All Fits rs
      → run_lines copies (map line rs) ≡ copy_regions copies rs
  unfolding run_lines copy_regions
  run_lines-regions [] h = refl
  run_lines-regions (r ∷ rs) h =
      rw
        (
          split_fields-colon (codes (decimal64 r.offset)) (codes (decimal64 r.length))
              (decimal64-IsDigit r.offset h.0.0),
          run_line_lem (codes (decimal64 r.offset)) (codes (decimal64 r.length))
              (run_lines copies (map line rs)) (decimal64-ne-nil r.offset h.0.0),
          number_from-decimal64 r.offset h.0.0,
          number_from-decimal64 r.length h.0.1,
          run_lines-regions rs h.1,
        )
        refl

  -- On the text of regions whose offsets and lengths are not negative, the script of the delta Pod
  -- copies each region but the last one, in order and up to the first copy that fails, and never the
  -- last one; if the text ended in a newline, it would copy all of them.
  pub delta_script-but_last :
      (rs : List ChangedRegion) (r : ChangedRegion)
      → All Fits (rs ++ r ∷ [])
      → (delta_script copies (codes (regions_to_text (rs ++ r ∷ []))) ≡ copy_regions copies rs)
        × (delta_script copies (codes (regions_to_text (rs ++ r ∷ [])) ++ b'\n' ∷ [])
            ≡ copy_regions copies (rs ++ r ∷ []))
  unfolding delta_script
  delta_script-but_last rs r h = (
    ap (run_lines copies) (lines-but_last rs r h) ∙ run_lines-regions rs (Fits-front rs r h),
    ap (run_lines copies) (lines-snoc rs r h) ∙ run_lines-regions (rs ++ r ∷ []) h,
  )
