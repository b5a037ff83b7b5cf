-- ===== src/Transfer/Sizes.antt =====
-- The arithmetic of internal/transfer: `bytesToGiQuantity` and `DeltaBytes`.
use nutanix_vma.Prelude.{
  ℕ, ◌+◌, ◌*◌, ◌-◌, ◌%◌, ◌≤◌, ◌<◌, List, [], ◌∷◌, ◌≡◌, ◌∙◌, arith, add64, word, half_word,
}
use nutanix_vma.Api.{ChangedRegion}
use nutanix_vma.Transfer.{gib, bytes_to_gi_quantity, add_lengths, delta_bytes}

-- A size for which rounding up to a Gi does not overflow int64 gets the least positive number of Gi that
-- holds it; a larger one overflows, and gets 1 Gi.
pub bytes_to_gi_quantity-fits :
    (bytes : ℕ)
    → bytes < half_word
    → (bytes + gib ≤ half_word
        → (1 ≤ bytes_to_gi_quantity bytes)
          × (bytes ≤ bytes_to_gi_quantity bytes * gib)
          × (1 < bytes_to_gi_quantity bytes → (bytes_to_gi_quantity bytes - 1) * gib < bytes))
      × (half_word < bytes + gib → bytes_to_gi_quantity bytes ≡ 1)
unfolding bytes_to_gi_quantity
bytes_to_gi_quantity-fits bytes h = ground arith

-- The mathematical sum.
abbrev pub total_length : List ChangedRegion → ℕ
total_length [] = 0
total_length (r ∷ rest) = r.length + total_length rest

add_lengths-total :
    (t : ℕ) (regions : List ChangedRegion)
    → add_lengths (t % word) regions ≡ (t + total_length regions) % word
unfolding add_lengths
add_lengths-total t [] = omega arith
add_lengths-total t (r ∷ rest) =
    let same : add64 (t % word) r.length ≡ (t + r.length) % word = omega arith in
    rw (same, add_lengths-total (t + r.length) rest) (omega arith)

-- The bytes of a delta are the sum of the lengths of its regions, modulo 2 ^ 64.
pub delta_bytes-total :
    (regions : List ChangedRegion) → delta_bytes regions ≡ total_length regions % word
unfolding delta_bytes
delta_bytes-total regions = add_lengths-total 0 regions ∙ omega arith
