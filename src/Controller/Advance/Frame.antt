-- ===== src/Controller/Advance/Frame.antt =====
-- What executing a phase keeps of the VM and of the history of calls.
use nutanix_vma.Prelude.{ℕ, ◌≡◌, refl}
use nutanix_vma.Api.{VmPhase}
use nutanix_vma.Outside.{Env}
use nutanix_vma.Session.{PhaseResult, Session, Outcome, ok, return, result}
use nutanix_vma.Session.Keeps.{Same, Keeps, any_call, keeps_rules}
use nutanix_vma.Context.{Context}
use nutanix_vma.Phases.Frame
use nutanix_vma.Controller.Advance.{dispatch, execute_phase}

result-session : (r : Outcome PhaseResult × Session) → (result r).1 ≡ r.1
result-session (ok a, s) = refl
result-session (return a, s) = refl

ruleset handlers = (
  keeps_rules, Frame.phase_store_power_state-Keeps, Frame.phase_power_off-Keeps,
  Frame.phase_wait_for_power_off-Keeps, Frame.phase_create_snapshot-Keeps,
  Frame.phase_export_disks-Keeps, Frame.phase_import_disks-Keeps, Frame.phase_create_vm-Keeps,
  Frame.phase_start_vm-Keeps, Frame.phase_cleanup-Keeps, Frame.phase_bulk_copy-Keeps,
  Frame.phase_wait_bulk_copy-Keeps, Frame.phase_precopy-Keeps, Frame.phase_final_sync-Keeps,
  Frame.run_hook-Keeps,
)

module _ (env : Env) (ctx : Context) (cbt_fuel : ℕ) where
  dispatch-Keeps : (p : VmPhase) → Keeps any_call (dispatch env ctx cbt_fuel p)
  unfolding dispatch
  dispatch-Keeps VmPhase.pending = search handlers
  dispatch-Keeps _ = search handlers

  pub execute_phase-Same : (s : Session) → Same any_call s (execute_phase env ctx cbt_fuel s).1
  unfolding execute_phase
  execute_phase-Same s =
      rw (result-session (dispatch env ctx cbt_fuel s.vm.phase s))
        ((dispatch-Keeps s.vm.phase).at s)
