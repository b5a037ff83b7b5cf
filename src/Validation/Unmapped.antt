-- ===== src/Validation/Unmapped.antt =====
-- `checkUnmappedStorage` and `checkUnmappedNetwork`: what no error says of the references.
use nutanix_vma.Prelude.{
  String, Bool, true, false, ◌||◌, List, [], ◌∷◌, All, contains, str_eq, ◌≡◌, ◌≢◌, refl, sym, ◌∙◌,
  ap, inl, inr, Bool-cases, arith, eq_iff,
}
use nutanix_vma.Api.{Finding, Reference}
use nutanix_vma.Validation.{has_errors, ref_key, unmapped_from}

pub opposite : (b : Bool) → b ≡ true → b ≢ false
opposite b h k = cc

later : (a b : Bool) → a ≡ false → (a || b) ≡ true → b ≡ true
later a b h k = ground arith

-- A mapped reference has this key.
abbrev pub Covered : (Reference → Bool) → String → Type 0
Covered mapped k = (r : Reference) × (mapped r ≡ true) × (ref_key r ≡ k)

module _ (mapped : Reference → Bool) (finding : Reference → Finding) where
  pub unmapped_from-clean :
      (seen : List String) (refs : List Reference)
      → All (λ r. mapped r ≡ true) refs
      → has_errors (unmapped_from mapped finding seen refs) ≡ false
  unfolding unmapped_from has_errors
  unmapped_from-clean seen [] h = refl
  unmapped_from-clean seen (r ∷ rs) h = elim (Bool-cases (contains (ref_key r) seen)) [
    | inl e ↦ rw e (unmapped_from-clean seen rs h.1)
    | inr e ↦ rw (e, h.0) (unmapped_from-clean (ref_key r ∷ seen) rs h.1)
  ]

  module _ (seen : List String) (r : Reference) (rs : List Reference) where
    unmapped_from-known :
        contains (ref_key r) seen ≡ true
        → unmapped_from mapped finding seen (r ∷ rs) ≡ unmapped_from mapped finding seen rs
    unfolding unmapped_from
    unmapped_from-known e = rw e refl

    unmapped_from-mapped :
        contains (ref_key r) seen ≡ false
        → mapped r ≡ true
        → unmapped_from mapped finding seen (r ∷ rs)
          ≡ unmapped_from mapped finding (ref_key r ∷ seen) rs
    unfolding unmapped_from
    unmapped_from-mapped e m = rw (e, m) refl

    unmapped_from-error :
        contains (ref_key r) seen ≡ false
        → mapped r ≡ false
        → has_errors (unmapped_from mapped finding seen (r ∷ rs)) ≡ true
    unfolding unmapped_from has_errors
    unmapped_from-error e m = rw (e, m) refl

    -- One more key.
    Covered-more :
        ((k : String) → contains k seen ≡ true → Covered mapped k)
        → mapped r ≡ true
        → (k : String) → contains k (ref_key r ∷ seen) ≡ true
        → Covered mapped k
    Covered-more inv m k h = elim (Bool-cases (str_eq (ref_key r) k)) [
      | inl e ↦ (r, m, (eq_iff (ref_key r) k).0 e)
      | inr e ↦ inv k (later (str_eq (ref_key r) k) (contains k seen) e h)
    ]

  pub unmapped_from-covers :
      (seen : List String) (refs : List Reference)
      → ((k : String) → contains k seen ≡ true → Covered mapped k)
      → has_errors (unmapped_from mapped finding seen refs) ≡ false
      → All (λ r. Covered mapped (ref_key r)) refs
  unmapped_from-covers seen [] inv h = tt
  unmapped_from-covers seen (r ∷ rs) inv h = elim (Bool-cases (contains (ref_key r) seen)) [
    | inl e ↦ (
      inv (ref_key r) e,
      unmapped_from-covers seen rs inv (sym (ap has_errors (unmapped_from-known seen r rs e)) ∙ h),
    )
    | inr e ↦ elim (Bool-cases (mapped r)) [
      | inl m ↦ (
        (r, m, refl),
        unmapped_from-covers (ref_key r ∷ seen) rs (Covered-more seen r rs inv m)
            (sym (ap has_errors (unmapped_from-mapped seen r rs e m)) ∙ h),
      )
      | inr m ↦ absurd (opposite _ (unmapped_from-error seen r rs e m) h)
    ]
  ]
