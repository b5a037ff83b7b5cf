-- ===== src/Phases/Kubevirt.antt =====
-- The phases CreateVM and StartVM of internal/controller/migration_controller.go.
use nutanix_vma.Prelude.{Bool, true, false, if◌then◌else◌}
use nutanix_vma.Api.{ApiError, Error, TargetPowerState}
use nutanix_vma.Outside.{Reply, Kind, Key, Object, Call, Env}
use nutanix_vma.Session.{
  PhaseResult, Exec, done, failed, ◌>>=◌, ◌>>◌, pure, get_vm_status, ask, or_fail,
}
use nutanix_vma.Context.{Context, target_key}
use nutanix_vma.Transfer.{create}
use nutanix_vma.Builder.Machine.{build}
use nutanix_vma.Builder.Sanitize.{sanitize_name}
use nutanix_vma.Phases.Disks.{get_source_vm}

abbrev pub is_stopped : TargetPowerState → Bool
is_stopped TargetPowerState.stopped = true
is_stopped _ = false

-- A VM that exists already is a success.
unfoldable pub judge_create : Reply (Unit {0}) → PhaseResult
judge_create (Reply.ok u) = done
judge_create (Reply.err ApiError.already_exists) = done
judge_create (Reply.err e) = failed (Error.wrap "CreateVM" e)

module _ (env : Env) (ctx : Context) where
  unfoldable pub phase_create_vm : Exec PhaseResult
  unfolding judge_create
  phase_create_vm = do
    vm ← get_source_vm env "CreateVM: get source VM"
    v ← get_vm_status
    r ← create env (
        Object.virtual_machine
          (build vm ctx.network_map ctx.plan.target_namespace v.data_volume_names))
    pure (judge_create r)

  unfoldable pub phase_start_vm : Exec PhaseResult
  phase_start_vm = if is_stopped ctx.plan.target_power_state then pure done else do
    vm ← get_source_vm env "StartVM: get source VM"
    let k : Key = target_key ctx Kind.virtual_machine (sanitize_name vm.name)
    r ← ask (Call.get k) (λ calls. env.virtual_machine calls k)
    or_fail "StartVM: get KubeVirt VM" r
    u ← ask (Call.update k) (λ calls. env.updated calls k)
    or_fail "StartVM: update RunStrategy" u
    pure done
