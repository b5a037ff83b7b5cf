-- ===== src/Phases/Power.antt =====
-- The phases StorePowerState, PowerOff and WaitForPowerOff of internal/controller/migration_controller.go.
use nutanix_vma.Prelude.{String, Bool, true, false, not, if◌then◌else◌}
use nutanix_vma.Api.{PowerState}
use nutanix_vma.Outside.{Call, Env}
use nutanix_vma.Session.{
  PhaseResult, Exec, done, waiting, ◌>>=◌, ◌>>◌, pure, get_vm_status, modify, ask, or_fail,
}

abbrev pub is_unset : PowerState → Bool
is_unset PowerState.unset = true
is_unset _ = false

abbrev pub is_off : PowerState → Bool
is_off PowerState.off = true
is_off _ = false

abbrev pub is_on : PowerState → Bool
is_on PowerState.on = true
is_on _ = false

module _ (env : Env) where
  -- `GetVMPowerState` of the VM under work.
  abbrev query_power : String → Exec PowerState
  query_power label = do
    v ← get_vm_status
    r ← ask (Call.get_vm_power_state v.id) (λ calls. env.power_state calls v.id)
    or_fail label r

  unfoldable pub phase_store_power_state : Exec PhaseResult
  phase_store_power_state = do
    v ← get_vm_status
    if not (is_unset v.original_power_state) then pure done else do
      state ← query_power "StorePowerState"
      modify (λ v. record v { original_power_state = state })
      pure done

  unfoldable pub phase_power_off : Exec PhaseResult
  phase_power_off = do
    v ← get_vm_status
    if is_off v.original_power_state then pure done else do
      r ← ask (Call.power_off_vm v.id) (λ calls. env.power_off calls v.id)
      or_fail "PowerOff" r
      pure done

  unfoldable pub phase_wait_for_power_off : Exec PhaseResult
  phase_wait_for_power_off = do
    state ← query_power "WaitForPowerOff"
    if not (is_off state) then pure waiting else pure done
