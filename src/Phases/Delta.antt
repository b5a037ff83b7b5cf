-- ===== src/Phases/Delta.antt =====
-- One delta transfer round of a warm migration: `runDeltaRound`, `checkDeltaPod`, `getPodPhase`,
-- `finalizePrecopyRound` and `finalizeFinalSync` of internal/controller/migration_controller.go.
pub mod Reuse
pub mod Paging
use nutanix_vma.Prelude.{
  ℕ, zero, suc, ◌+◌, leb, length, get_elem?, String, Option, none, some, List, [], ◌∷◌, ◌++◌,
  is_empty, if◌then◌else◌, concat, decimal, add64,
}
use nutanix_vma.Api.{ChangedRegion, Disk, Error, Vm, VmStatus, WarmStatus}
use nutanix_vma.Outside.{Reply, PodPhase, Kind, Key, Object, Call, Env}
use nutanix_vma.Session.{
  PhaseResult, Exec, done, waiting, failed, panic, diverged, ◌>>=◌, ◌>>◌, pure, leave, on_option,
  on_list, get_vm_status, modify, ask, or_fail, time_now,
}
use nutanix_vma.Context.{
  Context, target_key, short_id, filter_data_disks, get_disk_size, cred_secret_name,
}
use nutanix_vma.Transfer.{image_download_url, delta_bytes, cbt_block_size, create, forgive_exists}
use nutanix_vma.Phases.Disks.{get_source_vm, create_recovery_point, cluster_ref, export_from}
use nutanix_vma.Phases.Cleanup.{delete_images, delete_snapshot, delete_delta_pod}

abbrev pub map_warm : (WarmStatus → WarmStatus) → VmStatus → VmStatus
map_warm f v = record v { warm = elim v.warm [ none ↦ none | some w ↦ some (f w) ] }

abbrev pub modify_warm : (WarmStatus → WarmStatus) → Exec (Unit {0})
modify_warm f = modify (map_warm f)

-- A nil dereference panics.
abbrev pub or_panic {ℓ} : {A : Type ℓ} → Option A → Exec A
or_panic o = on_option o (leave panic) pure

abbrev pub get_warm : Exec WarmStatus
get_warm = do v ← get_vm_status; or_panic v.warm

abbrev pub save_delta_images : List String → VmStatus → VmStatus
save_delta_images images = map_warm (λ w. record w { delta_image_uuids = images })

abbrev pub clear_delta : WarmStatus → WarmStatus
clear_delta w = record w {
  delta_snapshot_uuid = "";
  delta_image_uuids = [];
  delta_disk_index = 0;
  delta_bytes = 0;
}

abbrev pub promote : ℕ → WarmStatus → WarmStatus
promote now w = record (clear_delta w) {
  base_snapshot_uuid = w.delta_snapshot_uuid;
  base_image_uuids = w.delta_image_uuids;
  precopy_rounds = w.precopy_rounds + 1;
  cumulative_bytes = add64 w.cumulative_bytes w.delta_bytes;
  last_delta_bytes = w.delta_bytes;
  last_precopy_time = some now;
  delta_pod_name = "";
}

abbrev pub settle : WarmStatus → WarmStatus
settle w = record (clear_delta w) {
  cumulative_bytes = add64 w.cumulative_bytes w.delta_bytes;
  last_delta_bytes = w.delta_bytes;
}

module _ (env : Env) where
  unfoldable pub finalize_precopy_round : Exec PhaseResult
  unfolding delete_snapshot delete_images
  finalize_precopy_round = do
    warm ← get_warm
    delete_snapshot env warm.base_snapshot_uuid
    delete_images env warm.base_image_uuids
    now ← time_now env
    modify_warm (promote now)
    pure waiting

  unfoldable pub finalize_final_sync : Exec PhaseResult
  unfolding delete_snapshot delete_images
  finalize_final_sync = do
    warm ← get_warm
    delete_snapshot env warm.base_snapshot_uuid
    delete_images env warm.base_image_uuids
    delete_images env warm.delta_image_uuids
    delete_snapshot env warm.delta_snapshot_uuid
    modify_warm settle
    pure done

module _ (env : Env) (ctx : Context) where
  -- `PodUnknown` if the Pod cannot be read.
  unfoldable pub get_pod_phase : String → Exec PodPhase
  get_pod_phase name = do
    let k : Key = target_key ctx Kind.pod name
    r ← ask (Call.get k) (λ calls. env.pod calls k)
    pure (elim r [ Reply.ok p ↦ p | Reply.err e ↦ PodPhase.unknown ])

  unfoldable pub judge_delta_pod : String → PodPhase → Exec PhaseResult
  unfolding delete_delta_pod
  judge_delta_pod name PodPhase.succeeded = do
    delete_delta_pod env ctx name
    modify_warm (λ w. record w { delta_pod_name = "" })
    get_source_vm env "delta pod: get VM"
    modify_warm (λ w. record w { delta_disk_index = w.delta_disk_index + 1 })
    pure waiting
  judge_delta_pod name PodPhase.failed =
      pure (failed (Error.msg (concat ("delta pod " ∷ name ∷ " failed" ∷ []))))
  judge_delta_pod name _ = pure waiting

  unfoldable pub check_delta_pod : Exec PhaseResult
  unfolding get_pod_phase judge_delta_pod
  check_delta_pod = do
    warm ← get_warm
    phase ← get_pod_phase warm.delta_pod_name
    judge_delta_pod warm.delta_pod_name phase

  module _ (label : String) where
    -- "vma-%s-%s-%s"
    unfoldable pub round_name : VmStatus → String
    unfolding short_id
    round_name v = concat ("vma-" ∷ ctx.migration_name ∷ "-" ∷ short_id v.id ∷ "-" ∷ label ∷ [])

    unfoldable pub pod_name : VmStatus → ℕ → String
    unfolding short_id decimal
    pod_name v i = concat (
        "vma-"
        ∷ short_id ctx.migration_name
        ∷ "-"
        ∷ short_id v.id
        ∷ "-"
        ∷ label
        ∷ "-d"
        ∷ decimal i
        ∷ [])

    -- The loop over the pages of changed regions; `regions` are those found so far.
    unfoldable pub collect_regions :
        (fuel : ℕ)
        → (page : ℕ → Call) → (offset : ℕ) → List ChangedRegion
        → Exec (List ChangedRegion)
    collect_regions zero page offset regions = leave diverged
    collect_regions (suc fuel) page offset regions = do
      r ← ask (page offset) (λ calls. env.changed_regions calls (page offset))
      found ← or_fail (concat (label ∷ ": CBT regions" ∷ [])) r
      on_option found.next_offset (pure (regions ++ found.regions))
          (λ next. collect_regions fuel page next (regions ++ found.regions))

    -- The snapshot of this round, unless the status has one.
    unfoldable pub snapshot_round : Exec (Unit {0})
    unfolding round_name
    snapshot_round = do
      v ← get_vm_status
      warm ← get_warm
      if is_empty warm.delta_snapshot_uuid
          then (do
            uuid ←
                create_recovery_point env (concat (label ∷ ": create snapshot" ∷ [])) (round_name v)
            modify_warm (λ w. record w { delta_snapshot_uuid = uuid }))
          else pure tt

    unfoldable pub export_round : Vm → List Disk → Exec (Unit {0})
    unfolding export_from round_name
    export_round vm disks = do
      v ← get_vm_status
      warm ← get_warm
      export_from env save_delta_images (λ i. concat (round_name v ∷ "-disk-" ∷ decimal i ∷ []))
          (λ i. concat (label ∷ ": export disk " ∷ decimal i ∷ [])) (cluster_ref vm) 0
          warm.delta_image_uuids disks

    -- The regions ConfigMap and the Pod of one disk.
    unfoldable pub start_delta_pod : ℕ → List ChangedRegion → Exec PhaseResult
    unfolding pod_name image_download_url forgive_exists
    start_delta_pod index regions = do
      v ← get_vm_status
      warm ← get_warm
      image ← or_panic (get_elem? warm.delta_image_uuids index)
      pvc ← or_panic (get_elem? v.data_volume_names index)
      let name : String = pod_name v index
      let namespace : String = ctx.plan.target_namespace
      let config : String = concat (name ∷ "-regions" ∷ [])
      r ← create env (Object.regions_config_map namespace config regions)
      or_fail (concat (label ∷ ": create regions ConfigMap" ∷ [])) (forgive_exists r)
      p ← create env (
          Object.delta_pod (record {
            name = name;
            namespace = namespace;
            pvc_name = pvc;
            image_url = image_download_url ctx.transfer_mgr image;
            secret_name = cred_secret_name ctx;
            config_map = config;
          }))
      or_fail (concat (label ∷ ": create delta pod" ∷ [])) (forgive_exists p)
      modify_warm (λ w. record w { delta_pod_name = name })
      pure waiting

    -- The part of `runDeltaRound` below the test of `diskIdx`.
    unfoldable pub sync_disk : (fuel : ℕ) → ℕ → List Disk → Exec PhaseResult → Exec PhaseResult
    unfolding collect_regions start_delta_pod delta_bytes
    sync_disk fuel index disks on_complete = do
      v ← get_vm_status
      c ← ask (Call.discover_cluster_for_cbt v.id) (λ calls. env.cbt_cluster calls v.id)
      info ← or_fail (concat (label ∷ ": CBT discover" ∷ [])) c
      warm ← get_warm
      disk ← or_panic (get_elem? disks index)
      regions ←
          collect_regions fuel
            (λ offset.
              Call.get_changed_regions info.prism_element_url info.jwt_token v.id
                warm.delta_snapshot_uuid warm.base_snapshot_uuid offset (get_disk_size disk)
                cbt_block_size)
            0 []
      modify_warm (λ w. record w { delta_bytes = add64 w.delta_bytes (delta_bytes regions) })
      on_list regions
          (do
            modify_warm (λ w. record w { delta_disk_index = w.delta_disk_index + 1 })
            (if leb (length disks) (index + 1) then on_complete else pure waiting))
          (start_delta_pod index regions)

    -- The part of `runDeltaRound` below the snapshot.
    unfoldable pub sync_round : (fuel : ℕ) → (on_complete : Exec PhaseResult) → Exec PhaseResult
    unfolding export_round sync_disk filter_data_disks
    sync_round fuel on_complete = do
      vm ← get_source_vm env (concat (label ∷ ": get VM" ∷ []))
      let disks : List Disk = filter_data_disks vm.disks
      export_round vm disks
      warm ← get_warm
      if leb (length disks) warm.delta_disk_index
          then on_complete
          else sync_disk fuel warm.delta_disk_index disks on_complete

    unfoldable pub run_delta_round :
        (fuel : ℕ) → (on_complete : Exec PhaseResult) → Exec PhaseResult
    unfolding snapshot_round sync_round
    run_delta_round fuel on_complete = do snapshot_round; sync_round fuel on_complete
