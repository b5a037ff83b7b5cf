-- ===== src/Transfer/Mapping.antt =====
-- `FindStorageMapping` of internal/transfer/manager.go.
use nutanix_vma.Prelude.{
  true, false, none, some, List, [], ◌∷◌, ◌++◌, All, ◌≡◌, ◌⊎◌, refl, ap, ◌∙◌, inl, inr, Bool-cases,
  Option-cases,
}
use nutanix_vma.Api.{Disk, Reference, StoragePair}
use nutanix_vma.Transfer.{matches_source, find_pair, storage_ref, find_for, find_storage_mapping}

-- The first pair of a list that matches.
pub record First (ref : Reference) (pairs : List StoragePair) : Type 0 where
  pub before : List StoragePair
  pub pair : StoragePair
  pub after : List StoragePair
  pub split : pairs ≡ before ++ pair ∷ after
  pub missed : All (λ p. matches_source ref p ≡ false) before
  pub hit : matches_source ref pair ≡ true
  pub found : find_pair ref pairs ≡ some pair.destination

find_pair-First :
    (ref : Reference) (pairs : List StoragePair)
    → First ref pairs
      ⊎ (All (λ p. matches_source ref p ≡ false) pairs × (find_pair ref pairs ≡ none))
unfolding find_pair
find_pair-First ref [] = inr (tt, refl)
find_pair-First ref (p ∷ rest) = elim (Bool-cases (matches_source ref p)) [
  | inl h ↦ inl (record {
    before = [];
    pair = p;
    after = rest;
    split = refl;
    missed = tt;
    hit = h;
    found = rw h refl;
  })
  | inr m ↦ elim (find_pair-First ref rest) [
    | inl f ↦ inl (record {
      before = p ∷ f.before;
      pair = f.pair;
      after = f.after;
      split = rw f.split refl;
      missed = (m, f.missed);
      hit = f.hit;
      found = rw (m, f.found) refl;
    })
    | inr (none_hit, e) ↦ inr ((m, none_hit), rw (m, e) refl)
  ]
]

-- A disk with a container gets the destination of the first pair whose source has its ID or its name, no
-- earlier pair matching, and nothing exactly where no pair matches; a disk without one gets nothing.
pub find_storage_mapping-First :
    (disk : Disk) (pairs : List StoragePair)
    → ((storage_ref disk ≡ none) × (find_storage_mapping disk pairs ≡ none))
      ⊎ ((ref : Reference) × (storage_ref disk ≡ some ref)
          × (((f : First ref pairs) × (find_storage_mapping disk pairs ≡ some f.pair.destination))
              ⊎ (All (λ p. matches_source ref p ≡ false) pairs
                  × (find_storage_mapping disk pairs ≡ none))))
unfolding find_storage_mapping find_for
find_storage_mapping-First disk pairs = elim (Option-cases (storage_ref disk)) [
  | inl e ↦ inl (e, ap (λ o. find_for o pairs) e)
  | inr (ref, e) ↦ inr (
    ref,
    e,
    elim (find_pair-First ref pairs) [
      | inl f ↦ inl (f, ap (λ o. find_for o pairs) e ∙ f.found)
      | inr (m, n) ↦ inr (m, ap (λ o. find_for o pairs) e ∙ n)
    ],
  )
]
