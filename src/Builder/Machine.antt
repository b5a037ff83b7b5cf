-- ===== src/Builder/Machine.antt =====
-- internal/builder/vm.go: the KubeVirt VirtualMachine that is made of a Nutanix VM. The controller, its only
-- caller, passes no existing names.
pub mod Devices
use nutanix_vma.Prelude.{
  ℕ, ◌+◌, ◌*◌, ◌%◌, ◌^◌, ◌==◌, String, Bool, true, false, ◌&&◌, ◌||◌, Option, none, some, List, [],
  ◌∷◌, get_elem?, is_empty, if◌then◌else◌, concat, decimal, div64, word,
}
use nutanix_vma.Api.{
  BootConfig, Disk, DiskAddress, NetworkDestination, NetworkDestinationType, NetworkPair, Nic,
  Reference, Vm,
}
use nutanix_vma.Context.{is_cdrom, same_upper}
use nutanix_vma.Validation.{find_network}
use nutanix_vma.Target.{
  DiskBus, MachineDisk, Volume, Binding, Interface, NetworkSource, Network, Cpu, Firmware,
  VirtualMachine,
}
use nutanix_vma.Builder.Sanitize.{sanitize_name}

-- `uint32(n)`
abbrev pub to_uint32 : ℕ → ℕ
to_uint32 n = n % 2 ^ 32

unfoldable pub build_cpu : Vm → Cpu
build_cpu vm =
    let threads = to_uint32 vm.num_threads_per_core in
    record {
      sockets = to_uint32 vm.num_sockets;
      cores = to_uint32 vm.num_cores_per_socket;
      threads = if threads == 0 then 1 else threads;
    }

abbrev pub mib : ℕ
mib = 1024 * 1024

unfoldable pub build_memory : Vm → ℕ
build_memory vm = div64 vm.memory_size_bytes mib * mib % word

unfoldable pub build_machine : Vm → String
build_machine vm = if same_upper vm.machine_type "PC" then "pc" else "q35"

unfoldable pub build_firmware : Option BootConfig → Firmware
build_firmware none = Firmware.bios
build_firmware (some b) =
    if same_upper b.boot_type "UEFI"
    then Firmware.efi false
    else if same_upper b.boot_type "SECURE_BOOT"
    then Firmware.efi true
    else Firmware.bios

-- Whether the feature SMM is enabled.
unfoldable pub build_features : Option BootConfig → Bool
build_features none = false
build_features (some b) = same_upper b.boot_type "SECURE_BOOT"

unfoldable pub map_disk_bus : String → DiskBus
map_disk_bus bus =
    if same_upper bus "SCSI" || same_upper bus "PCI"
    then DiskBus.scsi
    else if same_upper bus "IDE" || same_upper bus "SATA"
    then DiskBus.sata
    else DiskBus.virtio

unfoldable pub bus_of : Option DiskAddress → DiskBus
unfolding map_disk_bus
bus_of none = DiskBus.virtio
bus_of (some a) = map_disk_bus a.bus_type

unfoldable pub has_disk_entry : List String → Bool
has_disk_entry [] = false
has_disk_entry (e ∷ rest) = same_upper e "DISK" || has_disk_entry rest

unfoldable pub is_boot_disk : Option BootConfig → Bool
unfolding has_disk_entry
is_boot_disk none = false
is_boot_disk (some b) = has_disk_entry b.boot_order

abbrev pub volume_name : ℕ → String
volume_name i = concat ("disk-" ∷ decimal i ∷ [])

-- The disks of the loop of `buildDisksAndVolumes` from index `i` on; `boot` says that the boot order is
-- still to be given.
unfoldable pub build_disks : ℕ → (boot : Bool) → List Disk → List MachineDisk
unfolding bus_of
build_disks i boot [] = []
build_disks i boot (d ∷ ds) =
    let rest = build_disks (i + 1) (boot && is_cdrom d) ds in
    if is_cdrom d
    then rest
    else record {
      name = volume_name i;
      bus = bus_of d.disk_address;
      boot_order = if boot then some 1 else none;
    }
      ∷ rest

-- Its volumes; `k` is `pvcIdx`.
unfoldable pub build_volumes : (pvc_names : List String) → (i k : ℕ) → List Disk → List Volume
build_volumes pvc_names i k [] = []
build_volumes pvc_names i k (d ∷ ds) =
    let rest = build_volumes pvc_names (i + 1) (if is_cdrom d then k else k + 1) ds in
    if is_cdrom d
    then rest
    else record { name = volume_name i; claim = get_elem? pvc_names k } ∷ rest

unfoldable pub find_network_mapping :
    Option Reference → List NetworkPair → Option NetworkDestination
unfolding find_network
find_network_mapping none network_map = none
find_network_mapping (some ref) network_map = find_network ref network_map

abbrev pub network_name : NetworkDestination → String
network_name dest =
    if is_empty dest.namespace then dest.name else concat (dest.namespace ∷ "/" ∷ dest.name ∷ [])

abbrev pub only_multus : NetworkDestination → NetworkDestinationType → Option String
only_multus dest NetworkDestinationType.multus = some (network_name dest)
only_multus dest NetworkDestinationType.pod = none

-- The name of the attachment, for a destination of type multus.
abbrev pub multus_name : Option NetworkDestination → Option String
multus_name none = none
multus_name (some dest) = only_multus dest dest.type

abbrev pub interface_name : ℕ → String
interface_name i = concat ("net-" ∷ decimal i ∷ [])

unfoldable pub interface_for : (i : ℕ) → Nic → Option String → Interface × Network
interface_for i nic none = (
  record { name = interface_name i; binding = Binding.masquerade; mac_address = "" },
  record { name = interface_name i; source = NetworkSource.pod },
)
interface_for i nic (some nad) = (
  record { name = interface_name i; binding = Binding.bridge; mac_address = nic.mac_address },
  record { name = interface_name i; source = NetworkSource.multus nad },
)

unfoldable pub build_interfaces_and_networks :
    List NetworkPair → (i : ℕ) → List Nic → List Interface × List Network
unfolding find_network_mapping interface_for
build_interfaces_and_networks network_map i [] = ([], [])
build_interfaces_and_networks network_map i (nic ∷ rest) =
    let (iface, net) =
      interface_for i nic (multus_name (find_network_mapping nic.network_ref network_map)) in
    let (ifaces, nets) = build_interfaces_and_networks network_map (i + 1) rest in
    (iface ∷ ifaces, net ∷ nets)

unfoldable pub build : Vm → List NetworkPair → (namespace : String) → List String → VirtualMachine
unfolding build_cpu build_memory build_machine build_firmware build_features is_boot_disk
    build_disks build_volumes build_interfaces_and_networks sanitize_name
build vm network_map namespace pvc_names =
    let (interfaces, networks) = build_interfaces_and_networks network_map 0 vm.nics in
    record {
      name = sanitize_name vm.name;
      namespace = namespace;
      source_uuid = vm.ext_id;
      source_name = sanitize_name vm.name;
      halted = true;
      cpu = build_cpu vm;
      guest_memory = build_memory vm;
      requested_memory = vm.memory_size_bytes;
      machine = build_machine vm;
      firmware = build_firmware vm.boot_config;
      smm = build_features vm.boot_config;
      disks = build_disks 0 (is_boot_disk vm.boot_config) vm.disks;
      volumes = build_volumes pvc_names 0 0 vm.disks;
      interfaces = interfaces;
      networks = networks;
    }
