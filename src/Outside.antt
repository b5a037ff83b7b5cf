-- ===== src/Outside.antt =====
-- What the controller calls: the interface `NutanixClient` of internal/nutanix/client.go, the Kubernetes
-- API and the clock. None of these is code of the controller, so their answers are a parameter, `Env`:
-- an answer may depend on every call made before.
use nutanix_vma.Prelude.{◌≡◌, ◌⊎◌, refl, inl, inr, ℕ, String, Option, List}
use nutanix_vma.Api.{
  ApiError, CbtClusterInfo, ChangedRegions, ChangedRegion, Hook, Job, PowerState, Vm, VolumeMode,
  AccessMode, VmStatus, MigrationPlan, StoragePair, NetworkPair,
}
use nutanix_vma.Target.{VirtualMachine}

pub data Reply {ℓ} (A : Type ℓ) : Type ℓ where
  ok : A → Reply A
  err : ApiError → Reply A

pub Reply-cases {ℓ} :
    {A : Type ℓ} (r : Reply A) → ((a : A) × (r ≡ Reply.ok a)) ⊎ ((e : ApiError) × (r ≡ Reply.err e))
Reply-cases (Reply.ok a) = inl (a, refl)
Reply-cases (Reply.err e) = inr (e, refl)

-- `cdiv1beta1.DataVolumePhase`, as far as the code tells the phases apart.
pub data DataVolumePhase : Type 0 where
  succeeded failed other : DataVolumePhase

pub data PodPhase : Type 0 where
  pending running succeeded failed unknown : PodPhase

pub data Kind : Type 0 where
  namespace storage_class network_attachment custom_resource : Kind
  secret config_map data_volume pod virtual_machine job hook : Kind
  migration migration_plan nutanix_provider network_map storage_map : Kind

pub record Key : Type 0 where
  pub kind : Kind
  pub namespace : String
  pub name : String

-- `transfer.DataVolumeOptions`; the owner is the Migration throughout.
pub record DataVolumeOptions : Type 0 where
  pub name : String
  pub namespace : String
  pub image_url : String
  pub disk_size_bytes : ℕ  -- int64
  pub storage_class : String
  pub volume_mode : VolumeMode
  pub access_mode : AccessMode
  pub secret_name : String
  pub cert_config_map : String

-- `transfer.DeltaPodOptions`, without the regions, which go into the ConfigMap.
pub record DeltaPod : Type 0 where
  pub name : String
  pub namespace : String
  pub pvc_name : String
  pub image_url : String
  pub secret_name : String
  pub config_map : String

pub record HookJob : Type 0 where
  pub name : String
  pub namespace : String
  pub hook_name : String
  pub image : String
  pub service_account : String
  pub config_map : String
  pub attempt : ℕ
  pub deadline : ℕ

pub data Object : Type 0 where
  secret : (namespace name username password : String) → Object
  ca_config_map : (namespace name cert : String) → Object
  regions_config_map : (namespace name : String) → List ChangedRegion → Object
  hook_config_map : (namespace name : String) → VmStatus → MigrationPlan → Object
  data_volume : DataVolumeOptions → (gibs : ℕ) → Object
  delta_pod : DeltaPod → Object
  virtual_machine : VirtualMachine → Object
  hook_job : HookJob → Object

pub data Call : Type 0 where
  now : Call
  get_vm_power_state power_off_vm power_on_vm get_vm : String → Call
  create_recovery_point : (vm name : String) → Call
  delete_recovery_point delete_image : String → Call
  create_image_from_disk : (name disk cluster : String) → Call
  discover_cluster_for_cbt : String → Call
  get_changed_regions : (url jwt vm snapshot base : String) → (offset length block_size : ℕ) → Call
  list_vms list_subnets list_clusters : Call
  list_storage_containers : (url : String) → Call
  list_plans : (namespace : String) → Call
  get update delete : Key → Call
  create : Object → Call
  update_status : Key → Call
  new_client : (host username password : String) → Call
  event : (reason : String) → Call
  -- The metrics of internal/observability.
  active_migrations_inc active_migrations_dec : Call
  migrations_total : (status : String) → Call

-- The fields of a NutanixProvider that are read.
pub record Provider : Type 0 where
  pub url : String
  pub namespace : String
  pub secret_ref : String

-- The keys "username" and "password" of a Secret; a missing key reads as "".
pub record Credentials : Type 0 where
  pub username : String
  pub password : String

pub record Env : Type 0 where
  pub clock : List Call → ℕ
  pub power_state : List Call → String → Reply PowerState
  pub power_off : List Call → String → Reply (Unit {0})
  pub power_on : List Call → String → Reply (Unit {0})
  pub vm : List Call → String → Reply Vm
  pub new_recovery_point : List Call → String → String → Reply String
  pub drop_recovery_point : List Call → String → Reply (Unit {0})
  pub new_image : List Call → String → String → String → Reply String
  pub drop_image : List Call → String → Reply (Unit {0})
  pub cbt_cluster : List Call → String → Reply CbtClusterInfo
  pub changed_regions : List Call → Call → Reply ChangedRegions
  pub created : List Call → Object → Reply (Unit {0})
  pub deleted : List Call → Key → Reply (Unit {0})
  pub updated : List Call → Key → Reply (Unit {0})
  pub status_updated : List Call → Key → Reply (Unit {0})
  pub plan : List Call → Key → Reply MigrationPlan
  pub provider : List Call → Key → Reply Provider
  pub credentials : List Call → Key → Reply Credentials
  pub client : List Call → String → String → String → Reply (Unit {0})
  pub network_map : List Call → Key → Reply (List NetworkPair)
  pub storage_map : List Call → Key → Reply (List StoragePair)
  pub virtual_machine : List Call → Key → Reply (Unit {0})
  pub data_volume : List Call → Key → Reply DataVolumePhase
  pub pod : List Call → Key → Reply PodPhase
  pub hook : List Call → Key → Reply Hook
  pub job : List Call → Key → Reply Job
  -- `time.ParseDuration`, in nanoseconds; a negative duration reads as 0.
  pub parse_duration : String → Option ℕ
  pub list_plans : List Call → (namespace : String) → Reply (List MigrationPlan)
  -- How many there are; of a cluster, the external address of its network.
  pub list_vms : List Call → Reply ℕ
  pub list_subnets : List Call → Reply ℕ
  pub list_clusters : List Call → Reply (List (Option String))
  pub list_storage_containers : List Call → (url : String) → Reply ℕ
  -- `Get` of an object of which only its existence is read.
  pub found : List Call → Key → Reply (Unit {0})
  -- The order in which a range over a Go map gives the keys.
  pub range_keys : List String → List String
  -- `strings.ToLower`
  pub lower : String → String
