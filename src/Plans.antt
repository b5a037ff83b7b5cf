-- ===== src/Plans.antt =====
-- internal/controller/plan_controller.go: the validation of a MigrationPlan.
pub mod Retry
pub mod Ready
use nutanix_vma.Prelude.{
  ℕ, ◌==◌, String, Bool, true, false, ◌||◌, Option, none, some, List, [], ◌∷◌, is_empty,
  if◌then◌else◌,
}
use nutanix_vma.Api.{
  ApiError, Concern, Finding, MigrationPlan, NetworkPair, PlanVm, StoragePair, Vm,
}
use nutanix_vma.Outside.{Reply, Kind, Key, Call, Provider, Credentials, Env}
use nutanix_vma.Validation.{ValidationOptions, error_of, has_errors}
use nutanix_vma.Validation.Target.{validate}
use nutanix_vma.Controller.Status.{ReconcileResult, finished, requeue_after}
use nutanix_vma.Controller.Reconcile.{Resolve, ◌>>=◌}

pub data PlanPhase : Type 0 where
  unset pending validating ready error : PlanPhase

pub record VmValidationStatus : Type 0 where
  pub id : String
  pub name : String
  pub concerns : List Concern

-- The reason and the generation of the condition of type Validated.
pub record Validated : Type 0 where
  pub reason : String
  pub observed_generation : ℕ

-- A plan with its status.
pub record Plan : Type 0 where
  pub spec : MigrationPlan
  pub namespace : String
  pub generation : ℕ
  pub phase : PlanPhase
  pub vms : List VmValidationStatus
  pub validated : Option Validated

-- The plan that the cluster holds afterwards, the calls, and the result.
pub record PlanReconciled : Type 0 where
  pub stored : Plan
  pub calls : List Call
  pub result : ReconcileResult

abbrev pub is_validated : Option Validated → (generation : ℕ) → Bool
is_validated none generation = false
is_validated (some c) generation = c.observed_generation == generation

abbrev pub plan_key : Plan → Key
plan_key p = record { kind = Kind.migration_plan; namespace = p.namespace; name = p.spec.name }

abbrev pub object_key : Kind → (namespace name : String) → Key
object_key kind namespace name = record { kind = kind; namespace = namespace; name = name }

-- A lookup, with the reason that a failure is recorded by.
abbrev pub fetch {ℓ} : {A : Type ℓ} → (reason : String) → Call → (List Call → Reply A) → Resolve A
fetch reason c answer calls = (
  elim (answer calls) [ Reply.ok a ↦ Reply.ok a | Reply.err e ↦ Reply.err (ApiError.other reason) ],
  c ∷ calls,
)

unfoldable pub require_credentials : Credentials → Resolve Credentials
require_credentials c calls =
    if is_empty c.username || is_empty c.password
    then (Reply.err (ApiError.other "InvalidCredentials"), calls)
    else (Reply.ok c, calls)

unfoldable pub reason_of : ApiError → String
reason_of (ApiError.other reason) = reason
reason_of _ = ""

-- The condition is set, its generation included.
abbrev pub set_validated : (reason : String) → PlanPhase → Plan → Plan
set_validated reason phase p = record p {
  phase = phase;
  validated = some (record { reason = reason; observed_generation = p.generation });
}

-- How a validation ends: the phase, and the reason of the condition.
unfoldable pub close_plan : List VmValidationStatus → Bool → Plan → Plan
close_plan vms true p = set_validated "ValidationFailed" PlanPhase.error (record p { vms = vms })
close_plan vms false p = set_validated "ValidationPassed" PlanPhase.ready (record p { vms = vms })

-- A failed write leaves the stored plan as it was.
unfoldable pub after_plan_write :
    Plan → Plan → List Call → ReconcileResult → Reply (Unit {0}) → PlanReconciled
after_plan_write old new calls r (Reply.ok u) = record { stored = new; calls = calls; result = r }
after_plan_write old new calls r (Reply.err e) = record {
  stored = old;
  calls = calls;
  result = ReconcileResult.error e;
}

module _ (env : Env) where
  unfoldable pub write_plan : Plan → Plan → List Call → ReconcileResult → PlanReconciled
  unfolding after_plan_write
  write_plan old new calls r =
      after_plan_write old new (Call.update_status (plan_key old) ∷ calls) r
        (env.status_updated calls (plan_key old))

  unfoldable pub set_plan_error : Plan → (reason : String) → List Call → PlanReconciled
  set_plan_error p reason calls =
      write_plan p (set_validated reason PlanPhase.error p) calls (requeue_after 60)

  -- The references of the plan: the maps of networks and of storage.
  unfoldable pub resolve_plan : Plan → Resolve (List NetworkPair × List StoragePair)
  unfolding require_credentials
  resolve_plan p = do
    let pk : Key = object_key Kind.nutanix_provider p.namespace p.spec.provider_ref
    provider ← fetch "ProviderNotFound" (Call.get pk) (λ calls. env.provider calls pk)
    let sk : Key = object_key Kind.secret provider.namespace provider.secret_ref
    secret ← fetch "SecretNotFound" (Call.get sk) (λ calls. env.credentials calls sk)
    c ← require_credentials secret
    u ←
        fetch "ClientError" (Call.new_client provider.url c.username c.password)
          (λ calls. env.client calls provider.url c.username c.password)
    let nk : Key = object_key Kind.network_map p.namespace p.spec.network_map_ref
    networks ← fetch "NetworkMapNotFound" (Call.get nk) (λ calls. env.network_map calls nk)
    let tk : Key = object_key Kind.storage_map p.namespace p.spec.storage_map_ref
    storage ← fetch "StorageMapNotFound" (Call.get tk) (λ calls. env.storage_map calls tk)
    λ calls. (Reply.ok (networks, storage), calls)

  -- The body of the loop over the VMs of the plan, after the VM has been asked for.
  unfoldable pub check_plan_vm :
      PlanVm → ValidationOptions → Reply Vm → List Call → (VmValidationStatus × Bool) × List Call
  check_plan_vm p opts (Reply.err e) calls = (
    (record { id = p.id; name = p.name; concerns = error_of (Finding.fetch_failed e) ∷ [] }, true),
    calls,
  )
  check_plan_vm p opts (Reply.ok vm) calls =
      let (concerns, after) = validate env vm opts calls in
      (
        (
          record {
            id = p.id;
            name = if is_empty p.name then vm.name else p.name;
            concerns = concerns;
          },
          has_errors concerns,
        ),
        after,
      )

  unfoldable pub validate_vms :
      ValidationOptions → List PlanVm → List Call → (List VmValidationStatus × Bool) × List Call
  unfolding check_plan_vm
  validate_vms opts [] calls = (([], false), calls)
  validate_vms opts (p ∷ rest) calls =
      let ((v, bad), after) = check_plan_vm p opts (env.vm calls p.id) (Call.get_vm p.id ∷ calls) in
      let ((vs, worse), last) = validate_vms opts rest after in ((v ∷ vs, bad || worse), last)

  abbrev pub plan_options : Plan → List NetworkPair → List StoragePair → ValidationOptions
  plan_options p networks storage = record {
    network_map = some networks;
    storage_map = some storage;
    existing_macs = [];
    target_namespace = p.spec.target_namespace;
  }

  -- `Reconcile` below the resolution of the references.
  unfoldable pub conclude :
      Plan → Reply (List NetworkPair × List StoragePair) × List Call → PlanReconciled
  unfolding reason_of
  conclude p (Reply.err e, calls) = set_plan_error p (reason_of e) calls
  conclude p (Reply.ok (networks, storage), calls) =
      let ((vms, bad), after) = validate_vms (plan_options p networks storage) p.spec.vms calls in
      write_plan p (close_plan vms bad p) after finished

  -- The first write, of the phase Validating.
  unfoldable pub after_validating : Plan → Plan → Reply (Unit {0}) → List Call → PlanReconciled
  unfolding conclude
  after_validating old p (Reply.ok u) calls = conclude p (resolve_plan p calls)
  after_validating old p (Reply.err e) calls = record {
    stored = old;
    calls = calls;
    result = ReconcileResult.error e;
  }

  -- `Reconcile` once the plan has been read.
  unfoldable pub reconcile_plan : Plan → List Call → PlanReconciled
  unfolding after_validating
  reconcile_plan p calls =
      if is_validated p.validated p.generation
      then record { stored = p; calls = calls; result = finished }
      else after_validating p (record p { phase = PlanPhase.validating })
          (env.status_updated calls (plan_key p)) (Call.update_status (plan_key p) ∷ calls)
