-- ===== src/Validation/Target.antt =====
-- The rules of internal/validation/validator.go on the target cluster, and `Validate`.
use nutanix_vma.Prelude.{
  String, Bool, true, false, Option, none, some, List, [], ◌∷◌, ◌++◌, is_empty, if◌then◌else◌,
  concat, contains,
}
use nutanix_vma.Api.{
  ApiError, Concern, Finding, NetworkDestination, NetworkDestinationType, NetworkPair, Nic,
  Reference, StoragePair, Vm,
}
use nutanix_vma.Outside.{Reply, Kind, Key, Call, Env}
use nutanix_vma.Transfer.{matches_source}
use nutanix_vma.Validation.{
  ValidationOptions, error_of, find_network, storage_refs, source_concerns,
}

abbrev pub is_missing : Reply (Unit {0}) → Bool
is_missing (Reply.err ApiError.not_found) = true
is_missing _ = false

abbrev pub is_failure : Reply (Unit {0}) → Bool
is_failure (Reply.err e) = true
is_failure (Reply.ok u) = false

-- A rule that asks the cluster: its concerns, and the calls afterwards.
abbrev pub Rule : Type 0
Rule = List Call → List Concern × List Call

abbrev pub no_concern : Rule
no_concern calls = ([], calls)

-- One rule after the other.
abbrev pub and_then : Rule → Rule → Rule
and_then r q calls = let (cs, after) = r calls in let (ds, last) = q after in (cs ++ ds, last)

abbrev pub cluster_key : Kind → (namespace name : String) → Key
cluster_key kind namespace name = record { kind = kind; namespace = namespace; name = name }

-- The storage classes of all the pairs that match.
unfoldable pub add_classes : Reference → List StoragePair → List String → List String
add_classes ref [] needed = needed
add_classes ref (pair ∷ rest) needed =
    let sc = pair.destination.storage_class in
    add_classes ref rest (
      if matches_source ref pair
      then (if contains sc needed then needed else sc ∷ needed)
      else needed)

unfoldable pub needed_classes : List StoragePair → List Reference → List String → List String
unfolding add_classes
needed_classes pairs [] needed = needed
needed_classes pairs (ref ∷ rest) needed = needed_classes pairs rest (add_classes ref pairs needed)

module _ (env : Env) where
  -- One `Get`, and a concern if its answer is bad.
  unfoldable pub require : (Reply (Unit {0}) → Bool) → Finding → Key → Rule
  require bad f k calls =
      (if bad (env.found calls k) then error_of f ∷ [] else [], Call.get k ∷ calls)

  unfoldable pub check_namespace : String → Rule
  unfolding require
  check_namespace ns =
      require is_missing (Finding.namespace_missing ns) (cluster_key Kind.namespace "" ns)

  unfoldable pub check_classes : List String → Rule
  unfolding require
  check_classes [] = no_concern
  check_classes (sc ∷ rest) =
      and_then
        (require is_missing (Finding.storage_class_missing sc)
          (cluster_key Kind.storage_class "" sc))
        (check_classes rest)

  unfoldable pub check_storage_classes : Vm → Option (List StoragePair) → Rule
  unfolding check_classes needed_classes storage_refs
  check_storage_classes vm none = no_concern
  check_storage_classes vm (some pairs) =
      check_classes (env.range_keys (needed_classes pairs (storage_refs vm.disks) []))

  abbrev pub attachment_namespace : (target : String) → NetworkDestination → String
  attachment_namespace target dest = if is_empty dest.namespace then target else dest.namespace

  abbrev pub attachment_key : (target : String) → NetworkDestination → String
  attachment_key target dest = concat (attachment_namespace target dest ∷ "/" ∷ dest.name ∷ [])

  -- The network of a NIC that is checked: one with a destination of type multus.
  unfoldable pub multus_of : List NetworkPair → Option Reference → Option NetworkDestination
  unfolding find_network
  multus_of pairs none = none
  multus_of pairs (some ref) = elim (find_network ref pairs) [
    | none ↦ none
    | some dest ↦ elim dest.type [
      | NetworkDestinationType.multus ↦ some dest
      | NetworkDestinationType.pod ↦ none
    ]
  ]

  unfoldable pub multus_networks : List NetworkPair → List Nic → List NetworkDestination
  unfolding multus_of
  multus_networks pairs [] = []
  multus_networks pairs (n ∷ ns) =
      let rest = multus_networks pairs ns in
      elim (multus_of pairs n.network_ref) [ none ↦ rest | some dest ↦ dest ∷ rest ]

  -- Each key is looked up once.
  unfoldable pub check_attachments :
      (target : String) → (checked : List String) → List NetworkDestination → Rule
  unfolding require
  check_attachments target checked [] = no_concern
  check_attachments target checked (dest ∷ rest) =
      let ns = attachment_namespace target dest in
      let known = contains (attachment_key target dest) checked in
      and_then
        (if known
          then no_concern
          else require is_failure (Finding.attachment_missing dest.name ns)
              (cluster_key Kind.network_attachment ns dest.name))
        (check_attachments target (if known then checked else attachment_key target dest ∷ checked)
          rest)

  unfoldable pub check_multus_nads : Vm → Option (List NetworkPair) → (target : String) → Rule
  unfolding multus_networks check_attachments
  check_multus_nads vm none target = no_concern
  check_multus_nads vm (some pairs) target =
      check_attachments target [] (multus_networks pairs vm.nics)

  unfoldable pub check_cdi_installed : Rule
  unfolding require
  check_cdi_installed =
      require is_failure Finding.cdi_missing
        (cluster_key Kind.custom_resource "" "datavolumes.cdi.kubevirt.io")

  unfoldable pub check_kubevirt_installed : Rule
  unfolding require
  check_kubevirt_installed =
      require is_failure Finding.kubevirt_missing
        (cluster_key Kind.custom_resource "" "virtualmachines.kubevirt.io")

  unfoldable pub validate : Vm → ValidationOptions → Rule
  unfolding source_concerns check_namespace check_storage_classes check_multus_nads
      check_cdi_installed check_kubevirt_installed
  validate vm opts =
      and_then (λ calls. (source_concerns env vm opts, calls))
        (and_then (check_namespace opts.target_namespace) (
          and_then (check_storage_classes vm opts.storage_map) (
            and_then (check_multus_nads vm opts.network_map opts.target_namespace)
              (and_then check_cdi_installed check_kubevirt_installed))))
