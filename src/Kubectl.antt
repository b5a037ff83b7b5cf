-- ===== src/Kubectl.antt =====
-- cmd/kubectl-vma/main.go: what the commands of the kubectl plugin do with the cluster, and the cells that
-- they print. The answers of the cluster are arguments; the alignment of columns and the format of
-- times are left out.
pub mod Print
pub mod Cancel
use nutanix_vma.Prelude.{
  ℕ, suc, ◌+◌, ◌*◌, ◌/◌, ◌%◌, ◌==◌, length, String, Bool, true, false, not, Option, none, some,
  List, [], ◌∷◌, ◌++◌, map, str_eq, is_empty, contains, if◌then◌else◌, concat, decimal, decimal64,
  word,
}
use nutanix_vma.Api.{
  ApiError, Error, Disk, Vm, PowerState, ConcernCategory, Concern, Finding, VmStatus, VmPhase,
  MigrationPhase, MigrationType, Migration,
}
use nutanix_vma.Outside.{Reply, Provider, Credentials}
use nutanix_vma.HttpClient.{Transport, ClientError, Result}
use nutanix_vma.HttpClient.Config.{ClientConfig, HttpClient, new_client}
use nutanix_vma.HttpClient.Codec.{Codec}
use nutanix_vma.HttpClient.Lists.{list_vms}
use nutanix_vma.Kubectl.Print.{print_plan_status, print_migration_status}
use nutanix_vma.Plans.{Plan, PlanPhase, VmValidationStatus}

-- What a command ends with: the cause of an error, by its label, or what it writes.
pub data CommandError : Type 0 where
  getting_provider getting_secret getting_plan getting_migration : ApiError → CommandError
  creating_migration updating_migration : ApiError → CommandError
  creating_client listing_vms : ClientError → CommandError
  not_ready : PlanPhase → CommandError

pub data Outcome {ℓ} (A : Type ℓ) : Type ℓ where
  ok : A → Outcome A
  err : CommandError → Outcome A

abbrev pub or_error {ℓ} : {A : Type ℓ} → (ApiError → CommandError) → Reply A → Outcome A
or_error label (Reply.ok a) = Outcome.ok a
or_error label (Reply.err e) = Outcome.err (label e)

infixl 5 ◌>>=◌
abbrev pub ◌>>=◌ {ℓ κ} : {A : Type ℓ} {B : Type κ} → Outcome A → (A → Outcome B) → Outcome B
Outcome.ok a >>= f = f a
Outcome.err e >>= f = Outcome.err e

-- The inventory.

-- `strings.EqualFold` with "CDROM" is `is_cdrom`.
unfoldable pub count_data_disks : (is_cdrom : String → Bool) → List Disk → ℕ
count_data_disks is_cdrom [] = 0
count_data_disks is_cdrom (d ∷ rest) =
    let more = count_data_disks is_cdrom rest in
    if not (is_cdrom d.device_type) then suc more else more

abbrev pub power_text : PowerState → String
power_text PowerState.on = "ON"
power_text PowerState.off = "OFF"
power_text PowerState.unset = ""
power_text PowerState.other = "?"

-- One row for each VM: its UUID, name, CPUs, memory in MiB, disks and power state.
unfoldable pub inventory_row : (is_cdrom : String → Bool) → Vm → List String
unfolding count_data_disks
inventory_row is_cdrom vm =
    vm.ext_id
    ∷ vm.name
    ∷ decimal64 (vm.num_sockets * vm.num_cores_per_socket % word)
    ∷ decimal64 (vm.memory_size_bytes / (1024 * 1024))
    ∷ decimal (count_data_disks is_cdrom vm.disks)
    ∷ power_text vm.power_state
    ∷ []

unfoldable pub print_vm_inventory : (is_cdrom : String → Bool) → List Vm → List (List String)
unfolding inventory_row
print_vm_inventory is_cdrom vms =
    ("UUID" ∷ "NAME" ∷ "CPU" ∷ "MEMORY (MiB)" ∷ "DISKS" ∷ "POWER STATE" ∷ [])
    ∷ map (inventory_row is_cdrom) vms

abbrev pub or_client_error {ℓ} : {A : Type ℓ} → (ClientError → CommandError) → Result A → Outcome A
or_client_error label (Result.ok a) = Outcome.ok a
or_client_error label (Result.err e) = Outcome.err (label e)

-- `transport` says whether the transport can be built.
abbrev pub inventory_config : (transport : Bool) → Provider → Credentials → ClientConfig
inventory_config transport provider credentials = record {
  host = provider.url;
  username = credentials.username;
  password = credentials.password;
  timeout = 0;
  max_retries = 0;
  transport = transport;
}

unfoldable pub run_inventory :
    Transport
    → Codec
    → (is_cdrom : String → Bool) → (transport : Bool) → (fuel : ℕ) → Reply Provider
    → (Provider → Reply Credentials)
    → Outcome (List (List String))
unfolding print_vm_inventory new_client list_vms
run_inventory t codec is_cdrom transport fuel provider secret = do
  p ← or_error CommandError.getting_provider provider
  s ← or_error CommandError.getting_secret (secret p)
  http ← or_client_error CommandError.creating_client (new_client (inventory_config transport p s))
  vms ← or_client_error CommandError.listing_vms (list_vms t http.client codec fuel []).0
  Outcome.ok (print_vm_inventory is_cdrom vms)

-- `plan` and `status`.

unfoldable pub run_plan : (message : Finding → String) → Reply Plan → Outcome (List (List String))
unfolding print_plan_status
run_plan message got = do
  plan ← or_error CommandError.getting_plan got
  Outcome.ok (print_plan_status message plan)

unfoldable pub run_status :
    (time : ℕ → String)
    → (phase_text : VmPhase → String) → (error_text : Error → String) → Reply Migration
    → Outcome (List (List String))
unfolding print_migration_status
run_status time phase_text error_text got = do
  migration ← or_error CommandError.getting_migration got
  Outcome.ok (print_migration_status time phase_text error_text migration)

-- Creating a Migration.

abbrev pub is_ready : PlanPhase → Bool
is_ready PlanPhase.ready = true
is_ready _ = false

-- A new object.
abbrev pub new_migration : (name namespace plan_ref : String) → Migration
new_migration name namespace plan_ref = record {
  name = name;
  namespace = namespace;
  deleting = false;
  finalizer = false;
  plan_ref = plan_ref;
  cutover = none;
  cancel = [];
  phase = MigrationPhase.unset;
  started = none;
  completed = none;
  vms = [];
  condition = "";
}

abbrev pub require_ready : PlanPhase → Outcome (Unit {0})
require_ready phase =
    if is_ready phase then Outcome.ok tt else Outcome.err (CommandError.not_ready phase)

-- `unix` is `time.Now().Unix()`. The Migration is given that was created.
unfoldable pub run_migrate :
    (namespace plan_name : String)
    → (unix : ℕ) → Reply Plan
    → (Migration → Reply (Unit {0}))
    → Outcome Migration
run_migrate namespace plan_name unix got create = do
  plan ← or_error CommandError.getting_plan got
  _ ← require_ready plan.phase
  let migration = new_migration (concat (plan_name ∷ "-" ∷ decimal64 unix ∷ [])) namespace plan_name
  _ ← or_error CommandError.creating_migration (create migration)
  Outcome.ok migration

-- Cancelling VMs.

pub record CancelEdit : Type 0 where
  pub cancel : List String
  pub added : ℕ

-- The loop over the IDs; `existing` are the keys of the map.
unfoldable pub add_cancels : (existing : List String) → CancelEdit → List String → CancelEdit
add_cancels existing edit [] = edit
add_cancels existing edit (id ∷ rest) = elim (contains id existing) [
  | true ↦ add_cancels existing edit rest
  | false ↦
      add_cancels (id ∷ existing)
        (record { cancel = edit.cancel ++ id ∷ []; added = edit.added + 1 }) rest
]

-- Without an ID that was added nothing is written.
unfoldable pub store_cancel :
    Migration → CancelEdit → (Migration → Reply (Unit {0})) → Outcome (Migration × ℕ)
store_cancel migration edit update =
    let changed = record migration { cancel = edit.cancel } in
    let stored =
      (or_error CommandError.updating_migration (update changed) >>= λ u.
      Outcome.ok (changed, edit.added)) in
    if edit.added == 0 then Outcome.ok (migration, 0) else stored

-- The Migration as it is stored afterwards, and how many IDs were added.
unfoldable pub run_cancel :
    Reply Migration
    → (vm_ids : List String) → (Migration → Reply (Unit {0}))
    → Outcome (Migration × ℕ)
unfolding add_cancels store_cancel
run_cancel got vm_ids update = do
  migration ← or_error CommandError.getting_migration got
  let edit = add_cancels migration.cancel (record { cancel = migration.cancel; added = 0 }) vm_ids
  store_cancel migration edit update
