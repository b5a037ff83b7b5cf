-- ===== src/Tests.antt =====
-- An outside where every call succeeds, a plan with two VMs, and statuses in a given phase.
pub mod Reconciles
pub mod Handlers
pub mod Validations
pub mod Clients
pub mod Operations
pub mod Commands
pub mod Mocks
pub mod Served
use nutanix_vma.Prelude.{
  ◌≤◌, ◌<◌, true, false, none, some, List, [], ◌∷◌, ◌++◌, count, get_elem?, All, length, ◌≡◌, ◌≢◌,
  ◌↔◌, refl, arith,
}
use Prim.Native.Nat.{max}
use nutanix_vma.Api.{
  StoragePair, VolumeMode, AccessMode, VmPhase, MigrationPhase, PowerState, MigrationType,
  TargetPowerState, ApiError, Disk, Vm, VmStatus, MigrationPlan, Migration,
}
use nutanix_vma.Outside.{Reply, DataVolumePhase, PodPhase, Env}
use nutanix_vma.Session.{Session, ◌>>=◌}
use nutanix_vma.Context.{Context}
use nutanix_vma.Controller.Advance.{spinning, execute_phase, dispatch, advance_single_vm}
use nutanix_vma.Controller.Advance.Ends.{advance_single_vm-ends, advance_single_vm-spins}
use nutanix_vma.Controller.Sweep.{advance_vms, is_active, has_id, initialize_vm_statuses}
use nutanix_vma.Controller.Sweep.Flight.{advance_vms-le-max_in_flight}
use nutanix_vma.Controller.Sweep.Initialize.{initialize_vm_statuses-idempotent}
use nutanix_vma.Controller.Status.{overall_phase, completed_vms, failed_vms}
use nutanix_vma.Controller.Reconcile.{reconcile}
use nutanix_vma.Controller.Reconcile.Lasting.{reconcile-terminal}

abbrev pub disk : Disk
disk = record {
  ext_id = "disk-0";
  disk_address = none;
  backing_info = none;
  disk_size_bytes = 1024;
  device_type = "DISK";
}

abbrev pub pair : StoragePair
pair = record {
  source = record { ext_id = "c-1"; name = "" };
  destination = record {
    storage_class = "fast";
    volume_mode = VolumeMode.block;
    access_mode = AccessMode.read_write_many;
  };
}

abbrev pub backed : Disk
backed = record disk {
  backing_info = some (record {
    vm_disk_uuid = "u";
    storage_container_ref = some (record { ext_id = "c-1"; name = "ssd" });
    disk_size_bytes = 0;
  });
}

abbrev pub source : Vm
source = record {
  ext_id = "vm-1";
  name = "web";
  power_state = PowerState.on;
  num_sockets = 2;
  num_cores_per_socket = 1;
  num_threads_per_core = 0;
  memory_size_bytes = 2097153;
  machine_type = "PC";
  boot_config = some (record { boot_type = "UEFI"; boot_order = "DISK" ∷ [] });
  disks = disk ∷ [];
  nics = [];
  gpus = [];
  cluster = none;
}

abbrev pub plan : MigrationPlan
plan = record {
  name = "plan";
  provider_ref = "prism";
  network_map_ref = "net";
  storage_map_ref = "store";
  target_namespace = "vms";
  type = MigrationType.cold;
  vms =
      record { id = "vm-1"; name = "web"; hooks = [] }
      ∷ record { id = "vm-2"; name = "db"; hooks = [] }
      ∷ [];
  max_in_flight = 1;
  target_power_state = TargetPowerState.running;
  warm_config = none;
}

abbrev pub ctx : Context
ctx = record {
  plan = plan;
  migration_name = "migration-1";
  cutover = none;
  migration_namespace = "vma";
  network_map = [];
  storage_map = [];
  transfer_mgr = record { prism_url = "https://pc/"; username = "u"; password = "p"; ca_cert = "" };
}

abbrev pub env : Env
env = record {
  clock = λ calls. length calls;
  power_state = λ calls id. Reply.ok PowerState.on;
  power_off = λ calls id. Reply.ok tt;
  power_on = λ calls id. Reply.ok tt;
  vm = λ calls id. Reply.ok source;
  new_recovery_point = λ calls id name. Reply.ok "snap";
  drop_recovery_point = λ calls id. Reply.ok tt;
  new_image = λ calls name d c. Reply.ok "image";
  drop_image = λ calls id. Reply.ok tt;
  cbt_cluster = λ calls id. Reply.ok (record { prism_element_url = "https://pe"; jwt_token = "t" });
  changed_regions = λ calls c. Reply.ok (record { regions = []; next_offset = none });
  created = λ calls o. Reply.ok tt;
  deleted = λ calls k. Reply.ok tt;
  updated = λ calls k. Reply.ok tt;
  status_updated = λ calls k. Reply.ok tt;
  plan = λ calls k. Reply.ok plan;
  provider =
      λ calls k. Reply.ok (record { url = "https://pc/"; namespace = "vma"; secret_ref = "s" });
  credentials = λ calls k. Reply.ok (record { username = "u"; password = "p" });
  client = λ calls h u p. Reply.ok tt;
  network_map = λ calls k. Reply.ok [];
  storage_map = λ calls k. Reply.ok [];
  virtual_machine = λ calls k. Reply.err ApiError.not_found;
  data_volume = λ calls k. Reply.ok DataVolumePhase.succeeded;
  pod = λ calls k. Reply.ok PodPhase.succeeded;
  hook = λ calls k. Reply.err ApiError.not_found;
  job = λ calls k. Reply.err ApiError.not_found;
  parse_duration = λ s. none;
  found = λ calls k. Reply.ok tt;
  list_plans = λ calls ns. Reply.ok (plan ∷ []);
  list_vms = λ calls. Reply.ok 2;
  list_subnets = λ calls. Reply.ok 1;
  list_clusters = λ calls. Reply.ok [];
  list_storage_containers = λ calls url. Reply.ok 0;
  range_keys = λ keys. keys;
  lower = λ s. s;
}

abbrev pub vm_in : VmPhase → VmStatus
vm_in p = record {
  id = "vm-1";
  name = "web";
  phase = p;
  started = none;
  completed = none;
  error = none;
  snapshot_uuid = "";
  image_uuids = [];
  data_volume_names = [];
  original_power_state = PowerState.on;
  warm = none;
}

abbrev pub session_in : VmPhase → Session
session_in p = record { vm = vm_in p; calls = [] }

abbrev pub migration : Migration
migration = record {
  name = "migration-1";
  namespace = "vma";
  deleting = false;
  finalizer = true;
  plan_ref = "plan";
  cutover = none;
  cancel = [];
  phase = MigrationPhase.running;
  started = none;
  completed = none;
  vms = vm_in VmPhase.failed ∷ vm_in VmPhase.power_off ∷ [];
  condition = "Running";
}
