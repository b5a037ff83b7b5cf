-- ===== src/Target.antt =====
-- The part of a KubeVirt VirtualMachine that internal/builder/vm.go fills in.
use nutanix_vma.Prelude.{ℕ, String, Bool, Option, List}

pub data DiskBus : Type 0 where
  virtio scsi sata : DiskBus

pub record MachineDisk : Type 0 where
  pub name : String
  pub bus : DiskBus
  pub boot_order : Option ℕ

-- Without a claim the volume has no source.
pub record Volume : Type 0 where
  pub name : String
  pub claim : Option String

pub data Binding : Type 0 where
  bridge masquerade : Binding

pub record Interface : Type 0 where
  pub name : String
  pub binding : Binding
  pub mac_address : String

pub data NetworkSource : Type 0 where
  pod : NetworkSource
  multus : (network_name : String) → NetworkSource

pub record Network : Type 0 where
  pub name : String
  pub source : NetworkSource

pub record Cpu : Type 0 where
  pub sockets : ℕ
  pub cores : ℕ
  pub threads : ℕ

pub data Firmware : Type 0 where
  bios : Firmware
  efi : (secure_boot : Bool) → Firmware

pub record VirtualMachine : Type 0 where
  pub name : String
  pub namespace : String
  pub source_uuid : String
  pub source_name : String
  pub halted : Bool
  pub cpu : Cpu
  pub guest_memory : ℕ
  pub requested_memory : ℕ
  pub machine : String
  pub firmware : Firmware
  pub smm : Bool
  pub disks : List MachineDisk
  pub volumes : List Volume
  pub interfaces : List Interface
  pub networks : List Network
