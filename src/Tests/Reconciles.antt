-- ===== src/Tests/Reconciles.antt =====
-- Concrete runs of the migration controller.
use nutanix_vma.Prelude.{
  some, if◌then◌else◌, ◌≤◌, true, some, List, [], ◌∷◌, ◌++◌, count, get_elem?, All, length, ◌≡◌,
  ◌≢◌, refl, arith,
}
use Prim.Native.Nat.{max}
use nutanix_vma.Api.{VmPhase, MigrationType, VmStatus}
use nutanix_vma.Session.{◌>>=◌}
use nutanix_vma.Controller.Advance.{spinning, execute_phase, dispatch, advance_single_vm}
use nutanix_vma.Controller.Advance.Ends.{advance_single_vm-ends, advance_single_vm-spins}
use nutanix_vma.Controller.Sweep.{advance_vms, is_active, has_id, initialize_vm_statuses}
use nutanix_vma.Controller.Sweep.Flight.{advance_vms-le-max_in_flight}
use nutanix_vma.Controller.Sweep.Initialize.{initialize_vm_statuses-idempotent}
use nutanix_vma.Controller.Status.{is_running, update_overall_status}
use nutanix_vma.Controller.Status.Overall.{Judged, update_overall_status-Judged}
use nutanix_vma.Controller.Reconcile.{reconcile}
use nutanix_vma.Controller.Reconcile.Lasting.{reconcile-terminal}
use nutanix_vma.Tests.{plan, ctx, env, vm_in, session_in, migration}
use nutanix_vma.Controller.Advance.Forward.{IsForward, advance_single_vm-IsForward}
use nutanix_vma.Controller.Sweep.{process_cancellations}
use nutanix_vma.Prelude.{ℕ, if◌then◌else◌}
use nutanix_vma.Controller.Sweep.Cancel.{is_cancellable, cancelled_at, process_cancellations-marks}

advance_single_vm-ends_example :
    (advance_single_vm env ctx 5 20 (session_in VmPhase.power_off)).0 ≢ spinning
advance_single_vm-ends_example =
    advance_single_vm-ends env ctx 5 20 (session_in VmPhase.power_off) refl (omega arith)

advance_single_vm-spins_example :
    (advance_single_vm env ctx 5 20 (session_in VmPhase.unknown)).0 ≡ spinning
unfolding execute_phase dispatch ◌>>=◌
advance_single_vm-spins_example =
    advance_single_vm-spins env ctx 5 20 (session_in VmPhase.unknown) refl refl (λ t e. rw e refl)

advance_vms-le-max_in_flight_example :
    let vms = vm_in VmPhase.pending ∷ vm_in VmPhase.pending ∷ [] in
    count is_active (advance_vms env ctx 5 20 1 vms []).vms ≤ max 1 (count is_active vms)
advance_vms-le-max_in_flight_example =
    advance_vms-le-max_in_flight env ctx 5 20 1 (vm_in VmPhase.pending ∷ vm_in VmPhase.pending ∷ [])
      []

update_overall_status-Judged_example :
    let m = record migration { vms = vm_in VmPhase.completed ∷ vm_in VmPhase.failed ∷ [] } in
    let m' = (update_overall_status env m []).0 in
    Judged m'.phase m.vms
    × (m'.vms ≡ m.vms)
    × (m'.completed ≡ (if is_running m'.phase then m.completed else some (env.clock [])))
update_overall_status-Judged_example =
    update_overall_status-Judged env
      (record migration { vms = vm_in VmPhase.completed ∷ vm_in VmPhase.failed ∷ [] }) []

initialize_vm_statuses-idempotent_example :
    let vms = vm_in VmPhase.power_off ∷ [] in
    ((new : List VmStatus) × (initialize_vm_statuses vms plan.vms ≡ vms ++ new))
    × All (λ p. has_id p.id (initialize_vm_statuses vms plan.vms) ≡ true) plan.vms
    × (initialize_vm_statuses (initialize_vm_statuses vms plan.vms) plan.vms
        ≡ initialize_vm_statuses vms plan.vms)
initialize_vm_statuses-idempotent_example =
    initialize_vm_statuses-idempotent (vm_in VmPhase.power_off ∷ []) plan.vms

reconcile-terminal_example :
    get_elem? (reconcile env 5 20 migration []).stored.vms 0 ≡ some (vm_in VmPhase.failed)
reconcile-terminal_example =
    reconcile-terminal env migration 5 20 [] 0 (vm_in VmPhase.failed) refl refl

advance_single_vm-IsForward_example :
    IsForward MigrationType.cold VmPhase.power_off
      (advance_single_vm env ctx 5 20 (session_in VmPhase.power_off)).1.vm.phase
advance_single_vm-IsForward_example =
    advance_single_vm-IsForward env ctx 5 20 (session_in VmPhase.power_off) refl

process_cancellations-marks_example :
    let vms = vm_in VmPhase.power_off ∷ vm_in VmPhase.failed ∷ [] in
    (length (process_cancellations env ("vm-1" ∷ []) vms []).0 ≡ length vms)
    × ((i : ℕ) (v : VmStatus)
        → get_elem? vms i ≡ some v
        → (now : ℕ) × (get_elem? (process_cancellations env ("vm-1" ∷ []) vms []).0 i
            ≡ some (if is_cancellable ("vm-1" ∷ []) v then cancelled_at now v else v)))
process_cancellations-marks_example =
    process_cancellations-marks env ("vm-1" ∷ [])
      (vm_in VmPhase.power_off ∷ vm_in VmPhase.failed ∷ []) []
