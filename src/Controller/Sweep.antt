-- ===== src/Controller/Sweep.antt =====
-- `initializeVMStatuses`, `processCancellations` and `advanceVMs` of
-- internal/controller/migration_controller.go.
pub mod Flight
pub mod Cancel
pub mod Terminal
pub mod Initialize
use nutanix_vma.Prelude.{
  contains, ℕ, ◌+◌, leb, String, Bool, true, false, not, ◌&&◌, ◌||◌, none, some, List, [], ◌∷◌,
  ◌++◌, count, str_eq, if◌then◌else◌,
}
use nutanix_vma.Api.{VmPhase, PowerState, VmStatus, PlanVm}
use nutanix_vma.Outside.{Call, Env}
use nutanix_vma.Context.{Context}
use nutanix_vma.Pipeline.{is_pending, is_terminal_vm_phase, is_active_vm_phase}
use nutanix_vma.Controller.Advance.{Progress, requeue, crashed, spinning, paging, advance_single_vm}

abbrev pub new_vm_status : PlanVm → VmStatus
new_vm_status p = record {
  id = p.id;
  name = p.name;
  phase = VmPhase.pending;
  started = none;
  completed = none;
  error = none;
  snapshot_uuid = "";
  image_uuids = [];
  data_volume_names = [];
  original_power_state = PowerState.unset;
  warm = none;
}

-- A map from IDs, read at one ID.
abbrev pub has_id : String → List VmStatus → Bool
has_id id [] = false
has_id id (v ∷ vs) = str_eq v.id id || has_id id vs

-- The entries that the loop over the plan appends; `existing` is filled before the loop.
unfoldable pub missing_vms : List VmStatus → List PlanVm → List VmStatus
missing_vms existing [] = []
missing_vms existing (p ∷ rest) =
    let more = missing_vms existing rest in
    if has_id p.id existing then more else new_vm_status p ∷ more

unfoldable pub initialize_vm_statuses : List VmStatus → List PlanVm → List VmStatus
unfolding missing_vms
initialize_vm_statuses vms plan_vms = vms ++ missing_vms vms plan_vms

module _ (env : Env) where
  abbrev pub cancel_one : VmStatus → List Call → VmStatus
  cancel_one v calls = record v { phase = VmPhase.cancelled; completed = some (env.clock calls) }

  -- The loop over the VMs, and the calls made so far.
  unfoldable pub cancel_from : List String → List VmStatus → List Call → List VmStatus × List Call
  cancel_from cancel [] calls = ([], calls)
  cancel_from cancel (v ∷ rest) calls =
      let hit = contains v.id cancel && not (is_terminal_vm_phase v.phase) in
      let calls' = if hit then Call.now ∷ calls else calls in
      let (rest', calls'') = cancel_from cancel rest calls' in
      ((if hit then cancel_one v calls else v) ∷ rest', calls'')

  unfoldable pub process_cancellations :
      List String → List VmStatus → List Call → List VmStatus × List Call
  unfolding cancel_from
  process_cancellations [] vms calls = (vms, calls)
  process_cancellations (c ∷ cs) vms calls = cancel_from (c ∷ cs) vms calls

-- What became of one VM, or of a list of them: whether a requeue is needed, and whether the reconcile
-- stopped in the middle.
pub record Treated : Type 0 where
  pub vm : VmStatus
  pub active : ℕ
  pub calls : List Call
  pub needs_requeue : Bool
  pub aborted : Bool

pub record Swept : Type 0 where
  pub vms : List VmStatus
  pub calls : List Call
  pub needs_requeue : Bool
  pub aborted : Bool

abbrev pub is_requeue : Progress → Bool
is_requeue requeue = true
is_requeue _ = false

abbrev pub is_abort : Progress → Bool
is_abort crashed = true
is_abort spinning = true
is_abort paging = true
is_abort _ = false

abbrev pub is_active : VmStatus → Bool
is_active v = is_active_vm_phase v.phase

abbrev pub start_vm : Env → VmStatus → List Call → VmStatus
start_vm env v calls = record v { started = some (env.clock calls); phase = VmPhase.pre_hook }

module _ (env : Env) (ctx : Context) (cbt_fuel fuel max_in_flight : ℕ) where
  unfoldable pub advance_one : ℕ → VmStatus → List Call → Treated
  advance_one active v calls =
      let (p, s) = advance_single_vm env ctx cbt_fuel fuel (record { vm = v; calls = calls }) in
      record {
        vm = s.vm;
        active = active;
        calls = s.calls;
        needs_requeue = is_requeue p;
        aborted = is_abort p;
      }

  -- The body of the loop over the VMs.
  unfoldable pub treat : ℕ → VmStatus → List Call → Treated
  unfolding advance_one
  treat active v calls =
      if is_terminal_vm_phase v.phase
      then record { vm = v; active = active; calls = calls; needs_requeue = false; aborted = false }
      else if is_pending v.phase
      then (if leb max_in_flight active
          then record {
            vm = v;
            active = active;
            calls = calls;
            needs_requeue = true;
            aborted = false;
          }
          else advance_one (active + 1) (start_vm env v calls) (Call.now ∷ calls))
      else advance_one active v calls

  unfoldable pub sweep : ℕ → List VmStatus → List Call → Swept
  unfolding treat
  sweep active [] calls = record { vms = []; calls = calls; needs_requeue = false; aborted = false }
  sweep active (v ∷ rest) calls =
      let t = treat active v calls in
      let r = sweep t.active rest t.calls in
      if t.aborted
      then record { vms = t.vm ∷ rest; calls = t.calls; needs_requeue = false; aborted = true }
      else record r { vms = t.vm ∷ r.vms; needs_requeue = t.needs_requeue || r.needs_requeue }

  unfoldable pub advance_vms : List VmStatus → List Call → Swept
  unfolding sweep
  advance_vms vms calls = sweep (count is_active vms) vms calls
