-- ===== src/Transfer/Script/Synced.antt =====
-- What the delta script leaves on the disk of a VM.
use nutanix_vma.Prelude.{
  ℕ, ◌+◌, ◌-◌, ◌<◌, ltb, leb, Bool, true, false, ◌&&◌, ◌||◌, List, [], ◌∷◌, ◌++◌, ◌≡◌, refl, ap,
  ◌∙◌, ◌⊎◌, inl, inr, Bool-cases, arith, All, codes, half_word, if◌then◌else◌,
}
use nutanix_vma.Api.{ChangedRegion}
use nutanix_vma.Transfer.{regions_to_text}
use nutanix_vma.Transfer.Script.{Chunk, chunk, copy, delta_script}
use nutanix_vma.Transfer.Script.Regions.{Fits, copy_regions, delta_script-but_last}

-- A disk by its bytes.
abbrev pub Disk : Type 0
Disk = ℕ → ℕ

-- A region that is not empty, within the positive offsets.
abbrev pub Proper : ChangedRegion → Type 0
Proper r = (0 < r.length) × (r.offset + r.length < half_word)

abbrev pub in_region : ℕ → ChangedRegion → Bool
in_region p r = leb r.offset p && ltb p (r.offset + r.length)

abbrev pub covers : List ChangedRegion → ℕ → Bool
covers [] p = false
covers (r ∷ rs) p = in_region p r || covers rs p

-- The chunks that the script wrote, one after the other.
abbrev pub disk_after : (write : Chunk → Disk → Disk) → List Chunk → Disk → Disk
disk_after write [] disk = disk
disk_after write (c ∷ cs) disk = disk_after write cs (write c disk)

-- A copy that does not fail fetches the bytes of a range, with both its ends, and writes them at their
-- offset, and leaves the others.
abbrev pub Copies : (image : Disk) → (Chunk → Disk → Disk) → (Chunk → Bool) → Type 0
Copies image write copies =
    (c : Chunk) (disk : Disk) (p : ℕ)
    → copies c ≡ true
    → write c disk p ≡ (if leb c.offset p && leb p c.last then image p else disk p)

chunk-last :
    (r : ChangedRegion) → Proper r → (chunk r.offset r.length).last ≡ r.offset + r.length - 1
chunk-last r h = omega (arith, h.0, h.1)

in_chunk :
    (p : ℕ) (r : ChangedRegion)
    → Proper r
    → (leb r.offset p && leb p (chunk r.offset r.length).last) ≡ in_region p r
in_chunk p r h = rw (chunk-last r h) (ground (arith, h.0))

All-Fits : (rs : List ChangedRegion) → All Proper rs → All Fits rs
All-Fits [] h = tt
All-Fits (r ∷ rs) h = ((omega (arith, h.0.0, h.0.1), omega (arith, h.0.0, h.0.1)), All-Fits rs h.1)

All-front :
    (P : ChangedRegion → Type 0) (rs : List ChangedRegion) (r : ChangedRegion)
    → All P (rs ++ r ∷ [])
    → All P rs
All-front P [] r h = tt
All-front P (s ∷ rs) r h = (h.0, All-front P rs r h.1)

-- The regions before the first one that is not copied.
abbrev pub copied : (Chunk → Bool) → List ChangedRegion → List ChangedRegion
copied copies [] = []
copied copies (r ∷ rs) =
    let rest = copied copies rs in if copies (chunk r.offset r.length) then r ∷ rest else []

either :
    (a b : Bool) (x y : ℕ) → (if b then x else (if a then x else y)) ≡ (if a || b then x else y)
either true true x y = refl
either true false x y = refl
either false true x y = refl
either false false x y = refl

module _ (image : Disk) (write : Chunk → Disk → Disk) (copies : Chunk → Bool) where
  copy_regions-disk :
      (rs : List ChangedRegion) (old : Disk) (p : ℕ)
      → Copies image write copies
      → All Proper rs
      → disk_after write (copy_regions copies rs).written old p
        ≡ (if covers (copied copies rs) p then image p else old p)
  unfolding copy_regions copy
  copy_regions-disk [] old p writes h = refl
  copy_regions-disk (r ∷ rs) old p writes h =
      let c = chunk r.offset r.length in
      elim (Bool-cases (copies c)) [
        | inl y ↦ rw y (
            copy_regions-disk rs (write c old) p writes h.1
            ∙ rw (writes c old p y, in_chunk p r h.0)
                (either (in_region p r) (covers (copied copies rs) p) (image p) (old p)))
        | inr n ↦ rw n refl
      ]

  copied-whole :
      (rs : List ChangedRegion)
      → ((copy_regions copies rs).finished ≡ false) ⊎ (copied copies rs ≡ rs)
  unfolding copy_regions copy
  copied-whole [] = inr refl
  copied-whole (r ∷ rs) = elim (Bool-cases (copies (chunk r.offset r.length))) [
    | inl y ↦ elim (copied-whole rs) [
      | inl stopped ↦ inl (rw y stopped)
      | inr whole ↦ inr (rw y (ap (λ rest. r ∷ rest) whole))
    ]
    | inr n ↦ inl (rw n refl)
  ]

  -- Whichever copies fail, and the first that does ends the script and writes nothing, where the others
  -- write their range and the regions are not empty, end below 2 ^ 63, and cover what the disk before
  -- differs from the image in: on the text of the regions, the script of the delta Pod leaves the image's
  -- bytes in the regions before the first failing one, the last region never among them, and the old
  -- bytes everywhere else; if the text ended in a newline, the script would fail or leave the image.
  pub delta_script-synced :
      (rs : List ChangedRegion) (r : ChangedRegion) (old : Disk) (p : ℕ)
      → Copies image write copies
      → All Proper (rs ++ r ∷ [])
      → (covers (rs ++ r ∷ []) p ≡ false → old p ≡ image p)
      → let text = codes (regions_to_text (rs ++ r ∷ [])) in
        let ended = delta_script copies (text ++ b'\n' ∷ []) in
        (disk_after write (delta_script copies text).written old p
          ≡ (if covers (copied copies rs) p then image p else old p))
        × ((ended.finished ≡ false) ⊎ (disk_after write ended.written old p ≡ image p))
  delta_script-synced rs r old p writes proper outside =
      let (shown, whole) = delta_script-but_last copies rs r (All-Fits (rs ++ r ∷ []) proper) in
      (
        ap (λ run. disk_after write run.written old p) shown
            ∙ copy_regions-disk rs old p writes (All-front Proper rs r proper),
        elim (copied-whole (rs ++ r ∷ [])) [
          | inl stopped ↦ inl (ap (λ run. run.finished) whole ∙ stopped)
          | inr all ↦ inr (
              ap (λ run. disk_after write run.written old p) whole
              ∙ copy_regions-disk (rs ++ r ∷ []) old p writes proper
              ∙ ap (λ l. if covers l p then image p else old p) all
              ∙ elim (Bool-cases (covers (rs ++ r ∷ []) p)) [
                | inl y ↦ rw y refl
                | inr n ↦ rw n (outside n)
              ])
        ],
      )
