-- ===== src/Validation.antt =====
-- internal/validation/validator.go: the rules on a source VM and on the target cluster.
pub mod Unmapped
pub mod Sound
pub mod Target
use nutanix_vma.Prelude.{
  ℕ, ltb, String, Bool, true, false, not, ◌&&◌, ◌||◌, Option, none, some, List, [], ◌∷◌, ◌++◌,
  str_eq, is_empty, if◌then◌else◌, concat, contains, length,
}
use nutanix_vma.Api.{
  ApiError, Concern, ConcernCategory, Disk, DiskAddress, Finding, NetworkDestination,
  NetworkDestinationType, NetworkPair, Nic, Reference, StoragePair, Vm,
}
use nutanix_vma.Outside.{Reply, Kind, Key, Call, Env}
use nutanix_vma.Context.{is_cdrom, same_upper}
use nutanix_vma.Transfer.{matches_source, storage_ref}

-- The client is always there in this model of the options.
pub record ValidationOptions : Type 0 where
  pub network_map : Option (List NetworkPair)
  pub storage_map : Option (List StoragePair)
  -- From lower-case addresses to VM names.
  pub existing_macs : List (String × String)
  pub target_namespace : String

abbrev pub error_of : Finding → Concern
error_of f = record { category = ConcernCategory.error; finding = f }

abbrev pub is_error : ConcernCategory → Bool
is_error ConcernCategory.error = true
is_error _ = false

unfoldable pub has_errors : List Concern → Bool
has_errors [] = false
has_errors (c ∷ cs) = is_error c.category || has_errors cs

unfoldable pub any_match : Reference → List StoragePair → Bool
any_match ref [] = false
any_match ref (pair ∷ rest) = matches_source ref pair || any_match ref rest

unfoldable pub is_storage_mapped : Reference → Option (List StoragePair) → Bool
unfolding any_match
is_storage_mapped ref none = false
is_storage_mapped ref (some pairs) = any_match ref pairs

unfoldable pub matches_network : Reference → NetworkPair → Bool
matches_network ref pair =
    not (is_empty pair.source.ext_id) && str_eq pair.source.ext_id ref.ext_id
    || not (is_empty pair.source.name) && str_eq pair.source.name ref.name

unfoldable pub find_network : Reference → List NetworkPair → Option NetworkDestination
unfolding matches_network
find_network ref [] = none
find_network ref (pair ∷ rest) =
    if matches_network ref pair then some pair.destination else find_network ref rest

unfoldable pub any_network : Reference → List NetworkPair → Bool
unfolding matches_network
any_network ref [] = false
any_network ref (pair ∷ rest) = matches_network ref pair || any_network ref rest

unfoldable pub is_network_mapped : Reference → Option (List NetworkPair) → Bool
unfolding any_network
is_network_mapped ref none = false
is_network_mapped ref (some pairs) = any_network ref pairs

-- The key of the sets `seen`.
abbrev pub ref_key : Reference → String
ref_key ref = concat (ref.ext_id ∷ "/" ∷ ref.name ∷ [])

-- The references that the loop of `checkUnmappedStorage` reaches, and that of `checkUnmappedNetwork`.
unfoldable pub storage_refs : List Disk → List Reference
storage_refs [] = []
storage_refs (d ∷ ds) =
    let rest = storage_refs ds in
    if is_cdrom d then rest else elim (storage_ref d) [ none ↦ rest | some ref ↦ ref ∷ rest ]

unfoldable pub network_refs : List Nic → List Reference
network_refs [] = []
network_refs (n ∷ ns) =
    let rest = network_refs ns in elim n.network_ref [ none ↦ rest | some ref ↦ ref ∷ rest ]

-- The rest of both loops: each key is looked at once.
module _ (mapped : Reference → Bool) (finding : Reference → Finding) where
  unfoldable pub unmapped_from : (seen : List String) → List Reference → List Concern
  unmapped_from seen [] = []
  unmapped_from seen (ref ∷ rest) =
      let known = contains (ref_key ref) seen in
      let found = if known || mapped ref then [] else error_of (finding ref) ∷ [] in
      found ++ unmapped_from (if known then seen else ref_key ref ∷ seen) rest

unfoldable pub check_unmapped_storage : Vm → Option (List StoragePair) → List Concern
unfolding storage_refs unmapped_from is_storage_mapped
check_unmapped_storage vm storage_map =
    unmapped_from (λ ref. is_storage_mapped ref storage_map) Finding.unmapped_storage []
      (storage_refs vm.disks)

unfoldable pub check_unmapped_network : Vm → Option (List NetworkPair) → List Concern
unfolding network_refs unmapped_from is_network_mapped
check_unmapped_network vm network_map =
    unmapped_from (λ ref. is_network_mapped ref network_map) Finding.unmapped_network []
      (network_refs vm.nics)

unfoldable pub check_gpu : Vm → List Concern
check_gpu vm =
    if ltb 0 (length vm.gpus)
    then record {
      category = ConcernCategory.warning;
      finding = Finding.gpus_attached (length vm.gpus);
    }
      ∷ []
    else []

abbrev pub is_bare : Disk → Bool
is_bare d = elim (storage_ref d) [ none ↦ true | some ref ↦ false ]

unfoldable pub check_volume_group_disks : List Disk → List Concern
check_volume_group_disks [] = []
check_volume_group_disks (d ∷ ds) =
    let rest = check_volume_group_disks ds in
    if not (is_cdrom d) && is_bare d then error_of (Finding.volume_group d.ext_id) ∷ rest else rest

unfoldable pub check_nic_types : List Nic → List Concern
check_nic_types [] = []
check_nic_types (n ∷ ns) =
    let rest = check_nic_types ns in
    if same_upper n.nic_type "NETWORK_FUNCTION_NIC"
    then error_of (Finding.network_function n.ext_id) ∷ rest
    else if same_upper n.nic_type "DIRECT_NIC"
    then record { category = ConcernCategory.warning; finding = Finding.direct_nic n.ext_id } ∷ rest
    else rest

unfoldable pub lookup_mac : String → List (String × String) → Option String
lookup_mac mac [] = none
lookup_mac mac ((m, owner) ∷ rest) = if str_eq m mac then some owner else lookup_mac mac rest

abbrev pub is_ide : Option DiskAddress → Bool
is_ide none = false
is_ide (some a) = same_upper a.bus_type "IDE"

unfoldable pub check_ide_disks : List Disk → List Concern
check_ide_disks [] = []
check_ide_disks (d ∷ ds) =
    let rest = check_ide_disks ds in
    if not (is_cdrom d) && is_ide d.disk_address
    then record { category = ConcernCategory.info; finding = Finding.ide_disk d.ext_id } ∷ rest
    else rest

module _ (env : Env) where
  -- Nothing is found in an empty map.
  unfoldable pub check_mac_conflicts : List (String × String) → List Nic → List Concern
  unfolding lookup_mac
  check_mac_conflicts macs [] = []
  check_mac_conflicts macs (n ∷ ns) =
      let rest = check_mac_conflicts macs ns in
      if is_empty n.mac_address then rest else elim (lookup_mac (env.lower n.mac_address) macs) [
        | none ↦ rest
        | some owner ↦
            record {
              category = ConcernCategory.warning;
              finding = Finding.mac_conflict n.mac_address n.ext_id owner;
            }
            ∷ rest
      ]

  unfoldable pub source_concerns : Vm → ValidationOptions → List Concern
  source_concerns vm opts =
      check_unmapped_storage vm opts.storage_map
      ++ (check_unmapped_network vm opts.network_map
          ++ (check_gpu vm
              ++ (check_volume_group_disks vm.disks
                  ++ (check_nic_types vm.nics
                      ++ (check_mac_conflicts opts.existing_macs vm.nics
                          ++ check_ide_disks vm.disks)))))
