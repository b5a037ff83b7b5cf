-- ===== src/Mock.antt =====
-- pkg/mock: the state of the mock Nutanix server (store.go) and the bodies it answers with. Each
-- operation holds the store's lock, so that it is one step.
pub mod Range
pub mod Handlers
pub mod Objects
pub mod Lifecycle
pub mod Cbt
pub mod Server
use Prim.Native.String
use nutanix_vma.Prelude.{
  ℕ, zero, suc, ◌+◌, ◌-◌, ltb, leb, length, String, Bool, true, false, Option, none, some, List, [],
  ◌∷◌, str_eq, codes, if◌then◌else◌, concat, decimal,
}
use nutanix_vma.Api.{Vm, ChangedRegion, PowerState}
use nutanix_vma.HttpClient.Tasks.{Task, TaskEntity, TaskStatus}
use nutanix_vma.HttpClient.Codec.{RecoveryPoint, Image, Subnet, StorageContainer, Cluster}

-- A Go map by its pairs: a write goes in front, and hides those behind it.
module _ {V : Type 0} where
  unfoldable pub lookup : String → List (String × V) → Option V
  lookup k [] = none
  lookup k ((j, v) ∷ rest) = if str_eq j k then some v else lookup k rest

  unfoldable pub delete_key : String → List (String × V) → List (String × V)
  delete_key k [] = []
  delete_key k ((j, v) ∷ rest) =
      let kept = delete_key k rest in if str_eq j k then kept else (j, v) ∷ kept

-- `TaskState`
pub record TaskState : Type 0 where
  pub ext_id : String
  pub task : Task
  pub percent_complete : ℕ
  pub poll_count : ℕ
  pub target_polls : ℕ

pub record CbtConfig : Type 0 where
  pub changed_regions : List ChangedRegion
  pub jwt_token : String

pub record Store : Type 0 where
  pub vms : List Vm
  pub subnets : List Subnet
  pub storage_containers : List StorageContainer
  pub clusters : List Cluster
  pub tasks : List (String × TaskState)
  pub recovery_points : List (String × RecoveryPoint)
  pub images : List (String × Image)
  pub cbt_config : CbtConfig
  pub image_counter : ℕ
  pub task_counter : ℕ

abbrev pub new_store : Store
new_store = record {
  vms = [];
  subnets = [];
  storage_containers = [];
  clusters = [];
  tasks = [];
  recovery_points = [];
  images = [];
  cbt_config = record { changed_regions = []; jwt_token = "" };
  image_counter = 0;
  task_counter = 0;
}

abbrev pub zeros : ℕ → String
zeros zero = ""
zeros (suc n) = String.◌++◌ "0" (zeros n)

-- `%08d`
unfoldable pub padded : ℕ → String
padded n = String.◌++◌ (zeros (8 - length (codes (decimal n)))) (decimal n)

-- VMs.

unfoldable pub find_vm : String → List Vm → Option Vm
find_vm ext_id [] = none
find_vm ext_id (vm ∷ rest) = if str_eq vm.ext_id ext_id then some vm else find_vm ext_id rest

-- The first VM of that UUID; the result says whether there is one.
unfoldable pub set_power : String → PowerState → List Vm → List Vm × Bool
set_power ext_id state [] = ([], false)
set_power ext_id state (vm ∷ rest) =
    let (rest', found) = set_power ext_id state rest in
    if str_eq vm.ext_id ext_id
    then (record vm { power_state = state } ∷ rest, true)
    else (vm ∷ rest', found)

unfoldable pub remove_vm : String → List Vm → List Vm
remove_vm ext_id [] = []
remove_vm ext_id (vm ∷ rest) =
    let rest' = remove_vm ext_id rest in if str_eq vm.ext_id ext_id then rest else vm ∷ rest'

unfoldable pub set_vm_power_state : String → PowerState → Store → Store × Bool
unfolding set_power
set_vm_power_state ext_id state s =
    let (vms', found) = set_power ext_id state s.vms in (record s { vms = vms' }, found)

-- Recovery points and images; they share a counter.

unfoldable pub add_recovery_point : (name vm_ext_id type : String) → Store → String × Store
unfolding padded
add_recovery_point name vm_ext_id type s =
    let id = concat ("rp-" ∷ padded (s.image_counter + 1) ∷ []) in
    let rp : RecoveryPoint = record {
      ext_id = id;
      name = name;
      status = "COMPLETE";
      vm_ext_id = vm_ext_id;
      recovery_point_type = type;
    } in
    (
      id,
      record s {
        recovery_points = (id, rp) ∷ s.recovery_points;
        image_counter = s.image_counter + 1;
      },
    )

unfoldable pub delete_recovery_point : String → Store → Option Store
unfolding lookup delete_key
delete_recovery_point id s = elim (lookup id s.recovery_points) [
  | none ↦ none
  | some rp ↦ some (record s { recovery_points = delete_key id s.recovery_points })
]

unfoldable pub add_image : (name type : String) → (size : ℕ) → Store → String × Store
unfolding padded
add_image name type size s =
    let id = concat ("img-" ∷ padded (s.image_counter + 1) ∷ []) in
    let image : Image = record { ext_id = id; name = name; type = type; size_bytes = size } in
    (id, record s { images = (id, image) ∷ s.images; image_counter = s.image_counter + 1 })

unfoldable pub delete_image : String → Store → Option Store
unfolding lookup delete_key
delete_image id s = elim (lookup id s.images) [
  | none ↦ none
  | some image ↦ some (record s { images = delete_key id s.images })
]

-- Tasks.

abbrev pub queued_task : List TaskEntity → Task
queued_task entities = record {
  status = TaskStatus.queued;
  error_messages = [];
  entities_affected = entities;
}

unfoldable pub create_task : List TaskEntity → (target_polls : ℕ) → Store → String × Store
unfolding padded
create_task entities target_polls s =
    let id = concat ("task-" ∷ padded (s.task_counter + 1) ∷ []) in
    let state : TaskState = record {
      ext_id = id;
      task = queued_task entities;
      percent_complete = 0;
      poll_count = 0;
      target_polls = target_polls;
    } in
    (id, record s { tasks = (id, state) ∷ s.tasks; task_counter = s.task_counter + 1 })

-- The switch of `GetTask`, for a count that has been raised.
unfoldable pub advance : TaskState → TaskState
advance ts =
    if leb ts.target_polls ts.poll_count
    then record ts {
      task = record ts.task { status = TaskStatus.succeeded };
      percent_complete = 100;
    }
    else if leb 1 ts.poll_count
    then record ts { task = record ts.task { status = TaskStatus.running }; percent_complete = 50 }
    else ts

unfoldable pub poll : TaskState → TaskState
unfolding advance
poll ts = advance (record ts { poll_count = ts.poll_count + 1 })

-- The task is written back through its pointer.
unfoldable pub get_task : String → Store → Option (Task × Store)
unfolding lookup poll
get_task id s = elim (lookup id s.tasks) [
  | none ↦ none
  | some ts ↦ some ((poll ts).task, record s { tasks = (id, poll ts) ∷ s.tasks })
]
