-- ===== src/Validation/Sound.antt =====
-- Which VMs pass the rules on the source.
use nutanix_vma.Prelude.{
  ◌⊎◌, Option, none, some, ltb, length, String, Bool, true, false, not, ◌&&◌, ◌||◌, List, [], ◌∷◌,
  ◌++◌, All, contains, is_empty, ◌≡◌, ◌↔◌, refl, sym, ◌∙◌, inl, inr, Bool-cases, Option-cases,
  arith,
}
use nutanix_vma.Api.{Concern, Disk, Finding, Nic, Reference, Vm}
use nutanix_vma.Outside.{Env}
use nutanix_vma.Context.{is_cdrom, same_upper}
use nutanix_vma.Transfer.{storage_ref}
use nutanix_vma.Validation.{
  ValidationOptions, is_error, has_errors, ref_key, storage_refs, network_refs,
  check_unmapped_storage, check_unmapped_network, check_gpu, is_bare, check_volume_group_disks,
  check_nic_types, lookup_mac, check_mac_conflicts, is_ide, check_ide_disks, source_concerns,
  is_storage_mapped, is_network_mapped,
}
use nutanix_vma.Validation.Unmapped.{Covered, opposite, unmapped_from-clean, unmapped_from-covers}

has_errors-append : (a b : List Concern) → has_errors (a ++ b) ≡ (has_errors a || has_errors b)
unfolding has_errors
has_errors-append [] b = refl
has_errors-append (c ∷ a) b = elim (Bool-cases (is_error c.category)) [
  | inl e ↦ rw e refl
  | inr e ↦ rw e (has_errors-append a b)
]

check_gpu-clean : (vm : Vm) → has_errors (check_gpu vm) ≡ false
unfolding check_gpu has_errors
check_gpu-clean vm = elim (Bool-cases (ltb 0 (length vm.gpus))) [
  | inl e ↦ rw e refl
  | inr e ↦ rw e refl
]

check_ide_disks-clean : (ds : List Disk) → has_errors (check_ide_disks ds) ≡ false
unfolding check_ide_disks has_errors
check_ide_disks-clean [] = refl
check_ide_disks-clean (d ∷ ds) = elim (Bool-cases (not (is_cdrom d) && is_ide d.disk_address)) [
  | inl e ↦ rw e (check_ide_disks-clean ds)
  | inr e ↦ rw e (check_ide_disks-clean ds)
]

check_volume_group_disks-exact :
    (ds : List Disk)
    → (has_errors (check_volume_group_disks ds) ≡ false)
      ↔ All (λ d. (not (is_cdrom d) && is_bare d) ≡ false) ds
unfolding check_volume_group_disks has_errors
check_volume_group_disks-exact [] = (λ h. tt, λ h. refl)
check_volume_group_disks-exact (d ∷ ds) = elim (Bool-cases (not (is_cdrom d) && is_bare d)) [
  | inl e ↦ rw e (λ h. absurd (opposite true refl h), λ h. absurd (opposite true refl h.0))
  | inr e ↦ rw e (
    λ h. (refl, (check_volume_group_disks-exact ds).0 h),
    λ h. (check_volume_group_disks-exact ds).1 h.1,
  )
]

check_nic_types-exact :
    (ns : List Nic)
    → (has_errors (check_nic_types ns) ≡ false)
      ↔ All (λ n. same_upper n.nic_type "NETWORK_FUNCTION_NIC" ≡ false) ns
unfolding check_nic_types has_errors
check_nic_types-exact [] = (λ h. tt, λ h. refl)
check_nic_types-exact (n ∷ ns) =
    let (to, from) = check_nic_types-exact ns in
    elim (Bool-cases (same_upper n.nic_type "NETWORK_FUNCTION_NIC")) [
      | inl e ↦ rw e (λ h. absurd (opposite true refl h), λ h. absurd (opposite true refl h.0))
      | inr e ↦ elim (Bool-cases (same_upper n.nic_type "DIRECT_NIC")) [
        | inl d ↦ rw (e, d) (λ h. (refl, to h), λ h. from h.1)
        | inr d ↦ rw (e, d) (λ h. (refl, to h), λ h. from h.1)
      ]
    ]

check_mac_conflicts-clean :
    (env : Env) (macs : List (String × String)) (ns : List Nic)
    → has_errors (check_mac_conflicts env macs ns) ≡ false
unfolding check_mac_conflicts has_errors
check_mac_conflicts-clean env macs [] = refl
check_mac_conflicts-clean env macs (n ∷ ns) = elim (Bool-cases (is_empty n.mac_address)) [
  | inl e ↦ rw e (check_mac_conflicts-clean env macs ns)
  | inr e ↦ elim (Option-cases (lookup_mac (env.lower n.mac_address) macs)) [
    | inl m ↦ rw (e, m) (check_mac_conflicts-clean env macs ns)
    | inr (o, m) ↦ rw (e, m) (check_mac_conflicts-clean env macs ns)
  ]
]

or_false : (b : Bool) → (b || false) ≡ b
or_false b = ground arith

nothing_seen : (mapped : Reference → Bool) (k : String) → contains k [] ≡ true → Covered mapped k
nothing_seen mapped k h = absurd (opposite true refl (sym h))

either : (a b : Bool) → ((a || b) ≡ false) ↔ ((a ≡ false) × (b ≡ false))
either a b = ground arith

-- What holds of a reference, if there is one.
abbrev pub OfSome : (Reference → Type 0) → Option Reference → Type 0
OfSome P none = Unit
OfSome P (some r) = P r

-- Of the container that a disk stands in, unless it is a CD-ROM.
abbrev pub OfContainer : (Reference → Type 0) → Disk → Type 0
OfContainer P d = (is_cdrom d ≡ true) ⊎ OfSome P (storage_ref d)

-- The references that the rules go through are those of the disks and of the NICs.
storage_refs-OfContainer :
    (P : Reference → Type 0) (ds : List Disk) → All P (storage_refs ds) ↔ All (OfContainer P) ds
unfolding storage_refs
storage_refs-OfContainer P [] = (λ h. tt, λ h. tt)
storage_refs-OfContainer P (d ∷ ds) =
    let (to, from) = storage_refs-OfContainer P ds in
    elim (Bool-cases (is_cdrom d)) [
      | inl e ↦ rw e (λ h. (inl refl, to h), λ h. from h.1)
      | inr e ↦ elim (Option-cases (storage_ref d)) [
        | inl n ↦ rw (e, n) (λ h. (inr tt, to h), λ h. from h.1)
        | inr (r, n) ↦ rw (e, n) (λ h. (inr h.0, to h.1), λ h. (of_disk (P r) h.0, from h.1))
      ]
    ]
  where
    of_disk : (Q : Type 0) → (false ≡ true) ⊎ Q → Q
    of_disk Q (inl q) = absurd cc
    of_disk Q (inr q) = q

network_refs-OfSome :
    (P : Reference → Type 0) (ns : List Nic)
    → All P (network_refs ns) ↔ All (λ n. OfSome P n.network_ref) ns
unfolding network_refs
network_refs-OfSome P [] = (λ h. tt, λ h. tt)
network_refs-OfSome P (n ∷ ns) =
    let (to, from) = network_refs-OfSome P ns in
    elim (Option-cases n.network_ref) [
      | inl e ↦ rw e (λ h. (tt, to h), λ h. from h.1)
      | inr (r, e) ↦ rw e (λ h. (h.0, to h.1), λ h. (h.0, from h.1))
    ]

module _ (env : Env) (vm : Vm) (opts : ValidationOptions) where
  -- No disk stands in no container, and no NIC is a network function.
  abbrev pub Movable : Type 0
  Movable =
      All (λ d. (not (is_cdrom d) && is_bare d) ≡ false) vm.disks
      × All (λ n. same_upper n.nic_type "NETWORK_FUNCTION_NIC" ≡ false) vm.nics

  source_errors : has_errors (source_concerns env vm opts) ≡ (
      has_errors (check_unmapped_storage vm opts.storage_map)
      || (has_errors (check_unmapped_network vm opts.network_map)
          || (has_errors (check_volume_group_disks vm.disks)
              || has_errors (check_nic_types vm.nics))))
  unfolding source_concerns
  source_errors = simp (
    has_errors-append, check_gpu-clean, check_mac_conflicts-clean, check_ide_disks-clean, or_false,
  )

  abbrev pub StorageCovered : Reference → Type 0
  StorageCovered r = Covered (λ ref. is_storage_mapped ref opts.storage_map) (ref_key r)

  abbrev pub NetworkCovered : Reference → Type 0
  NetworkCovered r = Covered (λ ref. is_network_mapped ref opts.network_map) (ref_key r)

  abbrev pub StorageMapped : Reference → Type 0
  StorageMapped r = is_storage_mapped r opts.storage_map ≡ true

  abbrev pub NetworkMapped : Reference → Type 0
  NetworkMapped r = is_network_mapped r opts.network_map ≡ true

  -- Where the rules on the source give no error, each storage container of a disk that is not a CD-ROM has
  -- the key, made of ID and name, of a container that is mapped, each network of a NIC that of a network that
  -- is mapped, no disk but a CD-ROM stands in no container, and no NIC is a network function. Where the last
  -- two hold and each such container and network is itself mapped, they give no error.
  pub source_concerns-exact :
      (has_errors (source_concerns env vm opts) ≡ false
        → All (OfContainer StorageCovered) vm.disks
          × All (λ n. OfSome NetworkCovered n.network_ref) vm.nics
          × Movable)
      × (All (OfContainer StorageMapped) vm.disks
          → All (λ n. OfSome NetworkMapped n.network_ref) vm.nics
          → Movable
          → has_errors (source_concerns env vm opts) ≡ false)
  unfolding check_unmapped_storage check_unmapped_network
  source_concerns-exact = (
    λ h.
        let (a, h1) = (either _ _).0 (sym source_errors ∙ h) in
        let (b, h2) = (either _ _).0 h1 in
        let (c, d) = (either _ _).0 h2 in
        (
          (storage_refs-OfContainer StorageCovered vm.disks).0 (
              unmapped_from-covers _ Finding.unmapped_storage [] (storage_refs vm.disks)
                (nothing_seen _) a),
          (network_refs-OfSome NetworkCovered vm.nics).0 (
              unmapped_from-covers _ Finding.unmapped_network [] (network_refs vm.nics)
                (nothing_seen _) b),
          ((check_volume_group_disks-exact vm.disks).0 c, (check_nic_types-exact vm.nics).0 d),
        ),
    λ a b m.
        rw
          (
            source_errors,
            unmapped_from-clean _ Finding.unmapped_storage [] (storage_refs vm.disks)
                ((storage_refs-OfContainer StorageMapped vm.disks).1 a),
            unmapped_from-clean _ Finding.unmapped_network [] (network_refs vm.nics)
                ((network_refs-OfSome NetworkMapped vm.nics).1 b),
            (check_volume_group_disks-exact vm.disks).1 m.0,
            (check_nic_types-exact vm.nics).1 m.1,
          )
          refl,
  )
