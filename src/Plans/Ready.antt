-- ===== src/Plans/Ready.antt =====
-- What the phase Ready of a plan says of its VMs.
use nutanix_vma.Prelude.{
  Bool, true, false, ◌||◌, List, [], ◌∷◌, ◌≡◌, ◌≢◌, refl, inl, inr, Bool-cases, arith,
}
use nutanix_vma.Api.{NetworkPair, PlanVm, StoragePair, Vm}
use nutanix_vma.Outside.{Reply, Call, Env}
use nutanix_vma.Controller.Status.{ReconcileResult, finished}
use nutanix_vma.Validation.{ValidationOptions, has_errors}
use nutanix_vma.Validation.Target.{validate}
use nutanix_vma.Plans.{
  Plan, PlanPhase, PlanReconciled, VmValidationStatus, is_validated, set_validated,
  after_plan_write, write_plan, set_plan_error, close_plan, check_plan_vm, validate_vms, conclude,
  resolve_plan, plan_options, after_validating, reconcile_plan, plan_key,
}

-- A status that stands for a VM of the plan, which is asked for after `calls`: the VM was fetched, it
-- holds the concerns of the validation that follows, and none of them is an error.
pub record Checked (env : Env) (opts : ValidationOptions) (calls : List Call) (p : PlanVm)
    (v : VmValidationStatus) : Type 0 where
  pub id : v.id ≡ p.id
  pub vm : Vm
  pub fetched : env.vm calls p.id ≡ Reply.ok vm
  pub validated : v.concerns ≡ (validate env vm opts (Call.get_vm p.id ∷ calls)).0
  pub clean : has_errors v.concerns ≡ false

-- One status for each VM, in their order, the next VM asked for after the validation of the one before.
abbrev pub AllChecked :
    Env → ValidationOptions → List Call → List PlanVm → List VmValidationStatus → Type 0
AllChecked env opts calls [] [] = Unit
AllChecked env opts calls [] (v ∷ vs) = ⊥
AllChecked env opts calls (p ∷ ps) [] = ⊥
AllChecked env opts calls (p ∷ ps) (v ∷ vs) =
    (c : Checked env opts calls p v) × AllChecked env opts
      (validate env c.vm opts (Call.get_vm p.id ∷ calls)).1 ps vs

-- After `calls` the plan's references are resolved, and then its VMs are checked with their maps.
pub record IsClean (env : Env) (p : Plan) (calls : List Call) (vs : List VmValidationStatus)
    : Type 0 where
  pub networks : List NetworkPair
  pub storage : List StoragePair
  pub resolved : (resolve_plan env p calls).0 ≡ Reply.ok (networks, storage)
  pub checked :
      AllChecked env
        (plan_options env p networks storage)
        (resolve_plan env p calls).1
        p.spec.vms
        vs

-- What is stored is no plan that is ready, or a clean one.
abbrev Honest : (List VmValidationStatus → Type 0) → PlanReconciled → Type 0
Honest Clean r = r.stored.phase ≡ PlanPhase.ready → Clean r.stored.vms

neither : (a b : Bool) → (a || b) ≡ false → (a ≡ false) × (b ≡ false)
neither a b h = ground arith

after_plan_write-Honest :
    (Clean : List VmValidationStatus → Type 0) (old new : Plan) (calls : List Call)
    (r : ReconcileResult) (reply : Reply (Unit {0}))
    → old.phase ≢ PlanPhase.ready
    → (new.phase ≡ PlanPhase.ready → Clean new.vms)
    → Honest Clean (after_plan_write old new calls r reply)
unfolding after_plan_write
after_plan_write-Honest Clean old new calls r (Reply.ok u) o n = n
after_plan_write-Honest Clean old new calls r (Reply.err e) o n = λ q. absurd (o q)

module _ (env : Env) where
  module _ (opts : ValidationOptions) where
    validate_vms-AllChecked :
        (ps : List PlanVm) (calls : List Call)
        → let ((vs, bad), after) = validate_vms env opts ps calls in
          bad ≡ false → AllChecked env opts calls ps vs
    unfolding validate_vms check_plan_vm
    validate_vms-AllChecked [] calls h = tt
    validate_vms-AllChecked (p ∷ ps) calls h =
        fetched (λ after b. validate_vms-AllChecked ps after b) (env.vm calls p.id) refl h
      where
        fetched :
            ((after : List Call)
              → (validate_vms env opts ps after).0.1 ≡ false
              → AllChecked env opts after ps (validate_vms env opts ps after).0.0)
            → (r : Reply Vm) → env.vm calls p.id ≡ r
            → let ((v, bad), after) = check_plan_vm env p opts r (Call.get_vm p.id ∷ calls) in
              let ((vs, worse), last) = validate_vms env opts ps after in
              (bad || worse) ≡ false → AllChecked env opts calls (p ∷ ps) (v ∷ vs)
        fetched later (Reply.err e) q h = absurd cc
        fetched later (Reply.ok vm) q h =
            let (clean, rest) = neither _ _ h in
            (
              record { id = refl; vm = vm; fetched = q; validated = refl; clean = clean },
              later (validate env vm opts (Call.get_vm p.id ∷ calls)).1 rest,
            )

  close_plan-clean :
      (Clean : List VmValidationStatus → Type 0) (vs : List VmValidationStatus) (bad : Bool)
      (p : Plan)
      → (bad ≡ false → Clean vs)
      → (close_plan vs bad p).phase ≡ PlanPhase.ready
      → Clean (close_plan vs bad p).vms
  unfolding close_plan
  close_plan-clean Clean vs true p h q = absurd cc
  close_plan-clean Clean vs false p h q = h refl

  write_plan-Honest :
      (Clean : List VmValidationStatus → Type 0) (old new : Plan) (calls : List Call)
      (r : ReconcileResult)
      → old.phase ≢ PlanPhase.ready
      → (new.phase ≡ PlanPhase.ready → Clean new.vms)
      → Honest Clean (write_plan env old new calls r)
  unfolding write_plan
  write_plan-Honest Clean old new calls r o n = after_plan_write-Honest Clean old new _ r _ o n

  conclude-Honest :
      (p : Plan) (asked : List Call) (r : Reply (List NetworkPair × List StoragePair))
      → (resolve_plan env p asked).0 ≡ r
      → p.phase ≢ PlanPhase.ready
      → Honest (IsClean env p asked) (conclude env p (r, (resolve_plan env p asked).1))
  unfolding conclude set_plan_error
  conclude-Honest p asked (Reply.err e) found o =
      write_plan-Honest (IsClean env p asked) p (set_validated _ PlanPhase.error p) _ _ o
        (λ q. absurd cc)
  conclude-Honest p asked (Reply.ok (networks, storage)) found o =
      let opts = plan_options env p networks storage in
      let calls = (resolve_plan env p asked).1 in
      let ((vs, bad), after) = validate_vms env opts p.spec.vms calls in
      write_plan-Honest (IsClean env p asked) p (close_plan vs bad p) after finished o (
        close_plan-clean (IsClean env p asked) vs bad p (λ h. record {
          networks = networks;
          storage = storage;
          resolved = found;
          checked = validate_vms-AllChecked opts p.spec.vms calls h;
        }))

  after_validating-Honest :
      (old p : Plan) (r : Reply (Unit {0})) (calls : List Call)
      → old.phase ≢ PlanPhase.ready
      → p.phase ≢ PlanPhase.ready
      → Honest (IsClean env p calls) (after_validating env old p r calls)
  unfolding after_validating
  after_validating-Honest old p (Reply.ok u) calls o n =
      conclude-Honest p calls (resolve_plan env p calls).0 refl n
  after_validating-Honest old p (Reply.err e) calls o n = λ q. absurd (o q)

  -- A reconcile makes a plan Ready only if, after the write of the phase Validating, its references were
  -- resolved, and then each VM of the plan was fetched and validated, in their order, with the maps that
  -- were resolved: it stores one status for each VM, with its ID and the concerns of that validation, and
  -- none of the category Error.
  pub reconcile_plan-IsClean :
      (p : Plan) (calls : List Call)
      → p.phase ≢ PlanPhase.ready
      → (reconcile_plan env p calls).stored.phase ≡ PlanPhase.ready
      → IsClean env
          (record p { phase = PlanPhase.validating })
          (Call.update_status (plan_key p) ∷ calls)
          (reconcile_plan env p calls).stored.vms
  unfolding reconcile_plan
  reconcile_plan-IsClean p calls o = elim (Bool-cases (is_validated p.validated p.generation)) [
    | inl e ↦ rw e (λ q. absurd (o q))
    | inr e ↦ rw e (
        after_validating-Honest p (record p { phase = PlanPhase.validating })
          (env.status_updated calls (plan_key p)) _ o (λ q. cc))
  ]
