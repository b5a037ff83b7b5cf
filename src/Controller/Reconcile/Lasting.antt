-- ===== src/Controller/Reconcile/Lasting.antt =====
-- Terminal VMs across a whole reconcile.
use Prim.Native.Nat.{max}
use nutanix_vma.Prelude.{
  ℕ, zero, suc, Bool, true, false, some, List, [], ◌∷◌, ◌++◌, get_elem?, ◌≡◌, refl, inl, inr,
  Bool-cases, if◌then◌else◌, not,
}
use nutanix_vma.Api.{Migration, MigrationPhase, MigrationPlan, VmStatus}
use nutanix_vma.Outside.{Reply, Call, Env}
use nutanix_vma.Context.{Context}
use nutanix_vma.Pipeline.{is_terminal_vm_phase, is_terminal_migration_phase}
use nutanix_vma.Controller.Sweep.{
  initialize_vm_statuses, missing_vms, process_cancellations, advance_vms,
}
use nutanix_vma.Controller.Sweep.Terminal.{Lasts, process_cancellations-Lasts, advance_vms-Lasts}
use nutanix_vma.Controller.Status.{
  ReconcileResult, Reconciled, after_write, write_object, write_status, set_migration_failed,
  handle_deletion, close_migration, update_overall_status, is_running, overall_phase,
}
use nutanix_vma.Controller.Reconcile.{
  is_fresh, resolve_migration_context, initialize, run_migration, with_context, with_plan,
  reconcile,
}

Lasts-refl : (vms : List VmStatus) → Lasts vms vms
Lasts-refl vms i v e t = e

Lasts-trans : (a b c : List VmStatus) → Lasts a b → Lasts b c → Lasts a c
Lasts-trans a b c h k i v e t = k i v (h i v e t) t

-- What a reconcile stores keeps the terminal VMs of `vms`.
record Kept (vms : List VmStatus) (r : Reconciled) : Type 0 where
  at : Lasts vms r.stored.vms

Kept-if :
    (vms : List VmStatus) (b : Bool) (x y : Reconciled)
    → Kept vms x
    → Kept vms y
    → Kept vms (if b then x else y)
Kept-if vms true x y hx hy = hx
Kept-if vms false x y hx hy = hy

append-Lasts : (vms new : List VmStatus) → Lasts vms (vms ++ new)
append-Lasts (w ∷ vms) new zero v e t = e
append-Lasts (w ∷ vms) new (suc i) v e t = append-Lasts vms new i v e t
append-Lasts [] new i v e t = cc

initialize-Lasts :
    (env : Env) (m : Migration) (plan : MigrationPlan) (calls : List Call)
    → Lasts m.vms (initialize env m plan calls).0.vms
unfolding initialize initialize_vm_statuses
initialize-Lasts env m plan calls = elim (Bool-cases (is_fresh env m.phase)) [
  | inl e ↦ rw e (append-Lasts m.vms (missing_vms m.vms plan.vms))
  | inr e ↦ rw e (Lasts-refl m.vms)
]

close_migration-vms :
    (now : ℕ) (p : MigrationPhase) (m : Migration) (calls : List Call)
    → (close_migration now p m calls).0.vms ≡ m.vms
unfolding close_migration
close_migration-vms now MigrationPhase.cancelled m calls = refl
close_migration-vms now _ m calls = refl

update_overall_status-vms :
    (env : Env) (m : Migration) (calls : List Call)
    → (update_overall_status env m calls).0.vms ≡ m.vms
unfolding update_overall_status
update_overall_status-vms env m calls = elim (Bool-cases (is_running (overall_phase m.vms))) [
  | inl e ↦ rw e
  | inr e ↦ rw (e, close_migration-vms)
]

after_write-Kept :
    (vms : List VmStatus) (old new : Migration) (calls : List Call) (r : ReconcileResult)
    (reply : Reply (Unit {0}))
    → Lasts vms old.vms
    → Lasts vms new.vms
    → Kept vms (after_write old new calls r reply)
unfolding after_write
after_write-Kept vms old new calls r (Reply.ok u) ho hn = record { at = hn }
after_write-Kept vms old new calls r (Reply.err e) ho hn = record { at = ho }

module _ (env : Env) (m : Migration) where
  unchanged-Kept :
      (calls : List Call) (r : ReconcileResult)
      → Kept m.vms (record { stored = m; calls = calls; result = r })
  unchanged-Kept calls r = record { at = Lasts-refl m.vms }

  write_object-Kept :
      (new : Migration) (calls : List Call) (r : ReconcileResult)
      → Lasts m.vms new.vms
      → Kept m.vms (write_object env m new calls r)
  unfolding write_object
  write_object-Kept new calls r h = after_write-Kept m.vms m new _ r _ (Lasts-refl m.vms) h

  write_status-Kept :
      (new : Migration) (calls : List Call) (r : ReconcileResult)
      → Lasts m.vms new.vms
      → Kept m.vms (write_status env m new calls r)
  unfolding write_status
  write_status-Kept new calls r h = after_write-Kept m.vms m new _ r _ (Lasts-refl m.vms) h

  set_migration_failed-Kept : (calls : List Call) → Kept m.vms (set_migration_failed env m calls)
  unfolding set_migration_failed
  set_migration_failed-Kept calls = write_status-Kept _ _ _ (Lasts-refl m.vms)

  handle_deletion-Kept : (calls : List Call) → Kept m.vms (handle_deletion env m calls)
  unfolding handle_deletion
  handle_deletion-Kept calls = Kept-if m.vms (not m.finalizer) _ _ (unchanged-Kept _ _) (
      Kept-if m.vms (is_running m.phase) _ _ (unchanged-Kept _ _)
        (write_object-Kept _ _ _ (Lasts-refl m.vms)))

  module _ (cbt_fuel fuel : ℕ) where
    run_migration-Kept :
        (ctx : Context) (calls : List Call)
        → Kept m.vms (run_migration env cbt_fuel fuel m ctx calls)
    unfolding run_migration
    run_migration-Kept ctx calls =
        let (n, started) = initialize env m ctx.plan calls in
        let (vms, marked) = process_cancellations env n.cancel n.vms started in
        let r = advance_vms env ctx cbt_fuel fuel (max ctx.plan.max_in_flight 1) vms marked in
        Kept-if m.vms r.aborted _ _ (unchanged-Kept _ _) (
          write_status-Kept _ _ _ (
            rw (update_overall_status-vms env (record n { vms = r.vms }) r.calls) (
              Lasts-trans m.vms vms r.vms
                (Lasts-trans m.vms n.vms vms (initialize-Lasts env m ctx.plan calls)
                  (process_cancellations-Lasts env n.cancel n.vms started))
                (advance_vms-Lasts env ctx cbt_fuel fuel (max ctx.plan.max_in_flight 1) vms
                  marked))))

    with_context-Kept :
        (r : Reply Context) (calls : List Call)
        → Kept m.vms (with_context env cbt_fuel fuel m (r, calls))
    unfolding with_context
    with_context-Kept (Reply.ok ctx) calls = run_migration-Kept ctx calls
    with_context-Kept (Reply.err e) calls = set_migration_failed-Kept calls

    with_plan-Kept :
        (r : Reply MigrationPlan) (calls : List Call)
        → Kept m.vms (with_plan env cbt_fuel fuel m r calls)
    unfolding with_plan
    with_plan-Kept (Reply.ok plan) calls =
        let (r, after) = resolve_migration_context env m plan calls in with_context-Kept r after
    with_plan-Kept (Reply.err e) calls = set_migration_failed-Kept calls

    reconcile-Kept : (calls : List Call) → Kept m.vms (reconcile env cbt_fuel fuel m calls)
    unfolding reconcile
    reconcile-Kept calls = Kept-if m.vms m.deleting _ _ (handle_deletion-Kept calls) (
        Kept-if m.vms (not m.finalizer) _ _ (write_object-Kept _ _ _ (Lasts-refl m.vms)) (
          Kept-if m.vms (is_terminal_migration_phase m.phase) _ _ (unchanged-Kept _ _)
            (with_plan-Kept _ _)))

    -- Whatever the answers from outside, a reconcile leaves the status of every VM that was Completed, Failed
    -- or Cancelled as it was, at its place in the list.
    pub reconcile-terminal :
        (calls : List Call) (i : ℕ) (v : VmStatus)
        → get_elem? m.vms i ≡ some v
        → is_terminal_vm_phase v.phase ≡ true
        → get_elem? (reconcile env cbt_fuel fuel m calls).stored.vms i ≡ some v
    reconcile-terminal calls = (reconcile-Kept calls).at
