-- ===== src/Api.antt =====
-- The custom resources of api/v1alpha1 (migration_types.go, migrationplan_types.go, storagemap_types.go,
-- networkmap_types.go, hook_types.go) and the Nutanix data of internal/nutanix/types.go, as far as the controllers read
-- them.
use nutanix_vma.Prelude.{ℕ, String, Bool, Option, List}

-- Any other text than the constants, the empty one included, is `unknown`.
pub data VmPhase : Type 0 where
  pending pre_hook store_power_state power_off wait_for_power_off create_snapshot : VmPhase
  export_disks import_disks create_vm start_vm post_hook cleanup : VmPhase
  bulk_copy wait_bulk_copy precopy final_sync : VmPhase
  completed failed cancelled : VmPhase
  unknown : VmPhase

-- `unset` is the empty text of a new object.
pub data MigrationPhase : Type 0 where
  unset pending running completed failed cancelled : MigrationPhase

-- `unset` is the empty text, `other` any text than the two constants.
pub data PowerState : Type 0 where
  unset on off other : PowerState

pub data MigrationType : Type 0 where
  cold warm : MigrationType

pub data TargetPowerState : Type 0 where
  unset running stopped : TargetPowerState

pub record Reference : Type 0 where
  pub ext_id : String
  pub name : String

pub record DiskBackingInfo : Type 0 where
  pub vm_disk_uuid : String
  pub storage_container_ref : Option Reference
  pub disk_size_bytes : ℕ  -- int64

pub record DiskAddress : Type 0 where
  pub bus_type : String
  pub index : ℕ

pub record Disk : Type 0 where
  pub ext_id : String
  pub disk_address : Option DiskAddress
  pub backing_info : Option DiskBackingInfo
  pub disk_size_bytes : ℕ  -- int64
  pub device_type : String

pub record Nic : Type 0 where
  pub ext_id : String
  pub network_ref : Option Reference
  pub nic_type : String
  pub mac_address : String

pub record Gpu : Type 0 where
  pub mode : String
  pub device_id : ℕ
  pub vendor : String

pub record BootConfig : Type 0 where
  pub boot_type : String
  pub boot_order : List String

pub record Vm : Type 0 where
  pub ext_id : String
  pub name : String
  pub power_state : PowerState
  pub num_sockets : ℕ
  pub num_cores_per_socket : ℕ
  pub num_threads_per_core : ℕ
  pub memory_size_bytes : ℕ  -- int64
  pub machine_type : String
  pub boot_config : Option BootConfig
  pub disks : List Disk
  pub nics : List Nic
  pub gpus : List Gpu
  pub cluster : Option Reference

pub record ChangedRegion : Type 0 where
  pub offset : ℕ  -- int64
  pub length : ℕ  -- int64

pub record ChangedRegions : Type 0 where
  pub regions : List ChangedRegion
  pub next_offset : Option ℕ

pub record CbtClusterInfo : Type 0 where
  pub prism_element_url : String
  pub jwt_token : String

pub record WarmStatus : Type 0 where
  pub precopy_rounds : ℕ
  pub cumulative_bytes : ℕ  -- int64
  pub last_delta_bytes : ℕ  -- int64
  pub base_snapshot_uuid : String
  pub base_image_uuids : List String
  pub last_precopy_time : Option ℕ
  pub delta_snapshot_uuid : String
  pub delta_image_uuids : List String
  pub delta_pod_name : String
  pub delta_disk_index : ℕ
  pub delta_bytes : ℕ  -- int64

-- A failure of a Nutanix or a Kubernetes call, as the code tells them apart.
pub data ApiError : Type 0 where
  not_found already_exists : ApiError
  other : String → ApiError

-- `fmt.Errorf` with and without a wrapped cause.
pub data Error : Type 0 where
  msg : String → Error
  wrap : String → ApiError → Error

pub record VmStatus : Type 0 where
  pub id : String
  pub name : String
  pub phase : VmPhase
  pub started : Option ℕ
  pub completed : Option ℕ
  pub error : Option Error
  pub snapshot_uuid : String
  pub image_uuids : List String
  pub data_volume_names : List String
  pub original_power_state : PowerState
  pub warm : Option WarmStatus

pub record PlanHookRef : Type 0 where
  pub hook_ref : String
  pub step : String

pub record PlanVm : Type 0 where
  pub id : String
  pub name : String
  pub hooks : List PlanHookRef

pub record WarmConfig : Type 0 where
  pub precopy_interval : String
  pub max_precopy_rounds : ℕ

pub record MigrationPlan : Type 0 where
  pub name : String
  pub provider_ref : String
  pub network_map_ref : String
  pub storage_map_ref : String
  pub target_namespace : String
  pub type : MigrationType
  pub vms : List PlanVm
  pub max_in_flight : ℕ
  pub target_power_state : TargetPowerState
  pub warm_config : Option WarmConfig

pub data VolumeMode : Type 0 where
  filesystem block : VolumeMode

pub data AccessMode : Type 0 where
  read_write_once read_write_many read_only_many : AccessMode

pub record StorageDestination : Type 0 where
  pub storage_class : String
  pub volume_mode : VolumeMode
  pub access_mode : AccessMode

pub record StoragePair : Type 0 where
  pub source : Reference
  pub destination : StorageDestination

-- `pod` stands for any type but multus.
pub data NetworkDestinationType : Type 0 where
  pod multus : NetworkDestinationType

pub record NetworkDestination : Type 0 where
  pub type : NetworkDestinationType
  pub name : String
  pub namespace : String

pub record NetworkPair : Type 0 where
  pub source : Reference
  pub destination : NetworkDestination

pub data ConcernCategory : Type 0 where
  error warning info : ConcernCategory

-- What a concern's message is formatted from.
pub data Finding : Type 0 where
  unmapped_storage unmapped_network : Reference → Finding
  gpus_attached : ℕ → Finding
  volume_group ide_disk : (disk : String) → Finding
  network_function direct_nic : (nic : String) → Finding
  mac_conflict : (mac nic owner : String) → Finding
  namespace_missing storage_class_missing : String → Finding
  attachment_missing : (name namespace : String) → Finding
  cdi_missing kubevirt_missing : Finding
  fetch_failed : ApiError → Finding

pub record Concern : Type 0 where
  pub category : ConcernCategory
  pub finding : Finding

pub record Hook : Type 0 where
  pub name : String
  pub image : String
  pub playbook : String
  pub deadline : String
  pub service_account : String

-- The counters of a Kubernetes Job, and the number that its attempt annotation reads as, if it has one.
pub record Job : Type 0 where
  pub succeeded : ℕ
  pub failures : ℕ
  pub attempt_annotation : Option ℕ

-- `condition` is the reason of the condition of type Ready.
pub record Migration : Type 0 where
  pub name : String
  pub namespace : String
  pub deleting : Bool
  pub finalizer : Bool
  pub plan_ref : String
  pub cutover : Option ℕ
  pub cancel : List String
  pub phase : MigrationPhase
  pub started : Option ℕ
  pub completed : Option ℕ
  pub vms : List VmStatus
  pub condition : String
