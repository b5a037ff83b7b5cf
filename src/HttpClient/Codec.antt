-- ===== src/HttpClient/Codec.antt =====
-- The bodies of requests, the data of answers (internal/nutanix/types.go), and encoding/json, which is a
-- parameter.
use nutanix_vma.Prelude.{ℕ, String, Option, List}
use nutanix_vma.Api.{Vm, CbtClusterInfo, ChangedRegions}
use nutanix_vma.HttpClient.Tasks.{Task}

-- `Status` of a recovery point and `ExpirationTime` are not read.
pub record RecoveryPoint : Type 0 where
  pub ext_id : String
  pub name : String
  pub status : String
  pub vm_ext_id : String
  pub recovery_point_type : String

pub record Image : Type 0 where
  pub ext_id : String
  pub name : String
  pub type : String
  pub size_bytes : ℕ  -- int64

pub record Subnet : Type 0 where
  pub ext_id : String
  pub name : String
  pub vlan_id : ℕ
  pub subnet_type : String

pub record StorageContainer : Type 0 where
  pub uuid : String
  pub name : String

pub record ClusterNetwork : Type 0 where
  pub external_address : String
  pub external_data_services_ip : String

pub record Cluster : Type 0 where
  pub ext_id : String
  pub name : String
  pub network : Option ClusterNetwork

-- A list response; `total` is `totalAvailableResults` of the metadata, if there is any. A negative
-- number reads as 0.
pub record Page {ℓ} (A : Type ℓ) : Type ℓ where
  pub items : List A
  pub total : Option ℕ

pub data RequestBody : Type 0 where
  create_image : (name disk cluster : String) → RequestBody
  create_recovery_point : (name vm : String) → RequestBody
  recover_vm : (vm_name : String) → RequestBody
  discover_cluster : (vm : String) → RequestBody

-- A decoder gives nothing where Go's gives an error. That of a task reference gives "" for a missing
-- one.
pub record Codec : Type 0 where
  pub marshal : RequestBody → String
  pub task_ref : String → Option String
  pub task : String → Option Task
  pub vm : String → Option Vm
  pub image : String → Option Image
  pub recovery_point : String → Option RecoveryPoint
  pub vms : String → Option (Page Vm)
  pub subnets : String → Option (Page Subnet)
  pub clusters : String → Option (Page Cluster)
  pub storage_containers : String → Option (List StorageContainer)
  pub cbt_cluster : String → Option CbtClusterInfo
  pub changed_regions : String → Option ChangedRegions
