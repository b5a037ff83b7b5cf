-- ===== src/Phases/Warm.antt =====
-- The warm phases BulkCopy, WaitBulkCopy, Precopy and FinalSync of
-- internal/controller/migration_controller.go.
use nutanix_vma.Prelude.{
  ℕ, ◌+◌, ◌*◌, ◌==◌, ltb, leb, String, Bool, true, false, Option, none, some, [], ◌∷◌, is_empty,
  if◌then◌else◌, concat, decimal,
}
use nutanix_vma.Api.{Error, VmStatus, WarmStatus}
use nutanix_vma.Outside.{PodPhase, Env}
use nutanix_vma.Session.{
  PhaseResult, Exec, done, waiting, failed, ◌>>=◌, ◌>>◌, pure, leave, on_option, get_vm_status,
  modify, time_now,
}
use nutanix_vma.Context.{Context, filter_data_disks, get_disk_size}
use nutanix_vma.Phases.Disks.{get_source_vm, create_recovery_point, snapshot_name, export_disks}
use nutanix_vma.Phases.Volumes.{create_data_volumes, poll_data_volumes}
use nutanix_vma.Phases.Delta.{
  get_pod_phase, check_delta_pod, run_delta_round, finalize_precopy_round, finalize_final_sync,
}

abbrev pub empty_warm : WarmStatus
empty_warm = record {
  precopy_rounds = 0;
  cumulative_bytes = 0;
  last_delta_bytes = 0;
  base_snapshot_uuid = "";
  base_image_uuids = [];
  last_precopy_time = none;
  delta_snapshot_uuid = "";
  delta_image_uuids = [];
  delta_pod_name = "";
  delta_disk_index = 0;
  delta_bytes = 0;
}

abbrev pub or_empty : Option WarmStatus → WarmStatus
or_empty none = empty_warm
or_empty (some w) = w

abbrev pub start_warm : VmStatus → VmStatus
start_warm v = record v {
  warm = some (record (or_empty v.warm) {
    base_snapshot_uuid = v.snapshot_uuid;
    base_image_uuids = v.image_uuids;
  });
}

abbrev pub is_busy : PodPhase → Bool
is_busy PodPhase.running = true
is_busy PodPhase.pending = true
is_busy _ = false

-- 30 minutes, in nanoseconds.
abbrev pub default_interval : ℕ
default_interval = 30 * 60 * 1000000000

module _ (env : Env) (ctx : Context) where
  -- The first step of BulkCopy.
  unfoldable pub snapshot_base : Exec (Unit {0})
  unfolding snapshot_name
  snapshot_base = do
    v ← get_vm_status
    if is_empty v.snapshot_uuid
        then (do
          uuid ← create_recovery_point env "BulkCopy: create snapshot" (snapshot_name ctx v)
          modify (λ v. record v { snapshot_uuid = uuid }))
        else pure tt

  unfoldable pub phase_bulk_copy : Exec PhaseResult
  unfolding snapshot_base export_disks create_data_volumes filter_data_disks
  phase_bulk_copy = do
    snapshot_base
    vm ← get_source_vm env "BulkCopy: get VM"
    export_disks env ctx (λ i. concat ("BulkCopy: export disk " ∷ decimal i ∷ [])) vm
        (filter_data_disks vm.disks)
    create_data_volumes env ctx "create " "" get_disk_size (filter_data_disks vm.disks)
    modify start_warm
    pure done

  unfoldable pub phase_wait_bulk_copy : Exec PhaseResult
  unfolding poll_data_volumes
  phase_wait_bulk_copy = poll_data_volumes env ctx "poll DV " ""

  abbrev pub require_warm : String → Exec WarmStatus
  require_warm label = do
    v ← get_vm_status
    on_option v.warm
        (leave (failed (Error.msg (concat (label ∷ ": warm status not initialized" ∷ []))))) pure

  -- The zero time is never reached; the clock is read only for a time that is set.
  unfoldable pub is_cutover_time : Exec Bool
  is_cutover_time =
      on_option ctx.cutover (pure false)
        (λ t. if t == 0 then pure false else do now ← time_now env; pure (ltb t now))

  unfoldable pub max_rounds : ℕ
  max_rounds = elim ctx.plan.warm_config [ none ↦ 10 | some c ↦ c.max_precopy_rounds ]

  unfoldable pub precopy_interval : ℕ
  precopy_interval = elim ctx.plan.warm_config [
    | none ↦ default_interval
    | some c ↦
        if is_empty c.precopy_interval
        then default_interval
        else elim (env.parse_duration c.precopy_interval) [ none ↦ default_interval | some d ↦ d ]
  ]

  -- Whether the last round is younger than the interval.
  unfoldable pub too_early : Option ℕ → Exec Bool
  unfolding precopy_interval
  too_early none = pure false
  too_early (some last) = do now ← time_now env; pure (ltb now (last + precopy_interval))

  -- At cutover a Pod that runs is waited for.
  unfoldable pub cut_over : WarmStatus → Exec PhaseResult
  unfolding get_pod_phase
  cut_over warm = if is_empty warm.delta_pod_name then pure done else do
    phase ← get_pod_phase env ctx warm.delta_pod_name
    if is_busy phase then pure waiting else pure done

  unfoldable pub next_round : (fuel : ℕ) → WarmStatus → Exec PhaseResult
  unfolding max_rounds too_early run_delta_round finalize_precopy_round
  next_round fuel warm = if leb max_rounds warm.precopy_rounds then pure waiting else do
    early ← too_early warm.last_precopy_time
    if early
        then pure waiting
        else run_delta_round env ctx (concat ("pc" ∷ decimal (warm.precopy_rounds + 1) ∷ [])) fuel
            (finalize_precopy_round env)

  unfoldable pub phase_precopy : (fuel : ℕ) → Exec PhaseResult
  unfolding is_cutover_time cut_over check_delta_pod next_round
  phase_precopy fuel = do
    warm ← require_warm "precopy"
    cutover ← is_cutover_time
    if cutover
        then cut_over warm
        else if is_empty warm.delta_pod_name
        then next_round fuel warm
        else check_delta_pod env ctx

  unfoldable pub phase_final_sync : (fuel : ℕ) → Exec PhaseResult
  unfolding check_delta_pod run_delta_round finalize_final_sync
  phase_final_sync fuel = do
    warm ← require_warm "finalSync"
    if is_empty warm.delta_pod_name
        then run_delta_round env ctx "final" fuel (finalize_final_sync env)
        else check_delta_pod env ctx
