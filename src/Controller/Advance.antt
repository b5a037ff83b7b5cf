-- ===== src/Controller/Advance.antt =====
-- `executePhase` and `advanceSingleVM` of internal/controller/migration_controller.go.
pub mod Frame
pub mod Ends
pub mod Forward
use nutanix_vma.Prelude.{ℕ, zero, suc, some, if◌then◌else◌}
use nutanix_vma.Api.{VmPhase, Error}
use nutanix_vma.Outside.{Env}
use nutanix_vma.Session.{
  PhaseResult, Session, Exec, done, waiting, failed, panic, diverged, ◌>>=◌, ◌>>◌, pure, modify,
  result, time_now, record_event,
}
use nutanix_vma.Context.{Context}
use nutanix_vma.Pipeline.{order_of, next_phase_in_order, is_completed, is_terminal_vm_phase}
use nutanix_vma.Phases.Power.{phase_store_power_state, phase_power_off, phase_wait_for_power_off}
use nutanix_vma.Phases.Disks.{phase_create_snapshot, phase_export_disks}
use nutanix_vma.Phases.Volumes.{phase_import_disks}
use nutanix_vma.Phases.Kubevirt.{phase_create_vm, phase_start_vm}
use nutanix_vma.Phases.Cleanup.{phase_cleanup, cleanup_failed_vm}
use nutanix_vma.Phases.Warm.{phase_bulk_copy, phase_wait_bulk_copy, phase_precopy, phase_final_sync}
use nutanix_vma.Phases.Hooks.{run_hook}

-- How `advanceSingleVM` ends: it returns false or true, or it panics. `spinning` says that the loop over the
-- phases used up its fuel, `paging` that the loop over the changed regions did.
pub data Progress : Type 0 where
  settled requeue crashed spinning paging : Progress

module _ (env : Env) (ctx : Context) (cbt_fuel : ℕ) where
  -- The `switch` of `executePhase`.
  unfoldable pub dispatch : VmPhase → Exec PhaseResult
  dispatch VmPhase.store_power_state = phase_store_power_state env
  dispatch VmPhase.power_off = phase_power_off env
  dispatch VmPhase.wait_for_power_off = phase_wait_for_power_off env
  dispatch VmPhase.create_snapshot = phase_create_snapshot env ctx
  dispatch VmPhase.export_disks = phase_export_disks env ctx
  dispatch VmPhase.import_disks = phase_import_disks env ctx
  dispatch VmPhase.create_vm = phase_create_vm env ctx
  dispatch VmPhase.start_vm = phase_start_vm env ctx
  dispatch VmPhase.cleanup = phase_cleanup env ctx
  dispatch VmPhase.bulk_copy = phase_bulk_copy env ctx
  dispatch VmPhase.wait_bulk_copy = phase_wait_bulk_copy env ctx
  dispatch VmPhase.precopy = phase_precopy env ctx cbt_fuel
  dispatch VmPhase.final_sync = phase_final_sync env ctx cbt_fuel
  dispatch VmPhase.pre_hook = run_hook env ctx "PreHook"
  dispatch VmPhase.post_hook = run_hook env ctx "PostHook"
  dispatch VmPhase.pending = pure done
  dispatch VmPhase.completed = pure done
  dispatch VmPhase.failed = pure done
  dispatch VmPhase.cancelled = pure done
  dispatch VmPhase.unknown = pure done

  unfoldable pub execute_phase : Session → PhaseResult × Session
  execute_phase s = result (dispatch s.vm.phase s)

  -- The branch of an error.
  unfoldable pub fail_vm : Error → Exec (Unit {0})
  fail_vm e = do
    record_event "MigrationFailed"
    cleanup_failed_vm env ctx
    modify (λ v. record v { phase = VmPhase.failed; error = some e })
    now ← time_now env
    modify (λ v. record v { completed = some now })

  abbrev pub next_phase : VmPhase → VmPhase
  next_phase p = next_phase_in_order p (order_of ctx.plan.type)

  -- The branch of a completed phase, up to the test for the last one.
  unfoldable pub enter_next : Session → Session
  enter_next s =
      ((do modify (λ v. record v { phase = next_phase v.phase }); record_event "PhaseTransition")
        s).1

  unfoldable pub complete_vm : Session → Session
  complete_vm s = ((do now ← time_now env; modify (λ v. record v { completed = some now })) s).1

  unfoldable pub after_done : (Session → Progress × Session) → Session → Progress × Session
  unfolding enter_next complete_vm
  after_done again s =
      let s' = enter_next s in
      if is_completed s'.vm.phase then (settled, complete_vm s') else again s'

  unfoldable pub after_phase :
      (Session → Progress × Session) → PhaseResult → Session → Progress × Session
  unfolding after_done fail_vm
  after_phase again done s = after_done again s
  after_phase again waiting s = (requeue, s)
  after_phase again (failed e) s = (settled, (fail_vm e s).1)
  after_phase again panic s = (crashed, s)
  after_phase again diverged s = (paging, s)

  unfoldable pub advance_single_vm : (fuel : ℕ) → Session → Progress × Session
  unfolding execute_phase after_phase
  advance_single_vm zero s = (spinning, s)
  advance_single_vm (suc fuel) s =
      if is_terminal_vm_phase s.vm.phase
      then (settled, s)
      else let (r, s') = execute_phase s in after_phase (advance_single_vm fuel) r s'
