-- ===== src/Phases/Frame/Hot.antt =====
-- The handlers of a warm migration against the frame.
use nutanix_vma.Prelude.{◌≡◌, true, ℕ, zero, suc, String, Option, none, some, List, [], ◌∷◌}
use nutanix_vma.Api.{Disk, WarmStatus, ChangedRegion, Vm}
use nutanix_vma.Outside.{PodPhase, Call, Env}
use nutanix_vma.Session.{PhaseResult, Exec}
use nutanix_vma.Session.Keeps.{Keeps, any_call, no_snapshot, Keeps-any, Keeps-bind, keeps_rules}
use nutanix_vma.Context.{Context}
use nutanix_vma.Phases.Disks.{export_from}
use nutanix_vma.Phases.Delta.{
  save_delta_images, finalize_precopy_round, finalize_final_sync, get_pod_phase, judge_delta_pod,
  check_delta_pod, collect_regions, snapshot_round, export_round, start_delta_pod, sync_disk,
  run_delta_round, sync_round,
}
use nutanix_vma.Phases.Warm.{
  snapshot_base, phase_bulk_copy, phase_wait_bulk_copy, is_cutover_time, too_early, cut_over,
  next_round, phase_precopy, phase_final_sync,
}
use nutanix_vma.Phases.Frame.Cold.{
  delete_images-Keeps, delete_snapshot-Keeps, delete_delta_pod-Keeps, export_disks-Keeps,
  create_data_volumes-Keeps, poll_data_volumes-Keeps,
}

module _ (env : Env) where
  pub finalize_precopy_round-Keeps : Keeps no_snapshot (finalize_precopy_round env)
  unfolding finalize_precopy_round
  finalize_precopy_round-Keeps =
      search (keeps_rules, delete_images-Keeps, delete_snapshot-Keeps) depth 20

  pub finalize_final_sync-Keeps : Keeps no_snapshot (finalize_final_sync env)
  unfolding finalize_final_sync
  finalize_final_sync-Keeps =
      search (keeps_rules, delete_images-Keeps, delete_snapshot-Keeps) depth 20

  module _ (name label : ℕ → String) (cluster : String) where
    export_delta-Keeps :
        (disks : List Disk) (i : ℕ) (images : List String)
        → Keeps no_snapshot (export_from env save_delta_images name label cluster i images disks)
    unfolding export_from
    export_delta-Keeps [] i images = search keeps_rules depth 20
    export_delta-Keeps (d ∷ ds) i images = search (keeps_rules, export_delta-Keeps ds) depth 20

module _ (env : Env) (ctx : Context) where
  get_pod_phase-Keeps : (name : String) → Keeps no_snapshot (get_pod_phase env ctx name)
  unfolding get_pod_phase
  get_pod_phase-Keeps name = search keeps_rules

  judge_delta_pod-Keeps :
      (name : String) (p : PodPhase) → Keeps no_snapshot (judge_delta_pod env ctx name p)
  unfolding judge_delta_pod
  judge_delta_pod-Keeps name PodPhase.succeeded =
      search (keeps_rules, delete_delta_pod-Keeps) depth 20
  judge_delta_pod-Keeps name _ = search keeps_rules

  pub check_delta_pod-Keeps : Keeps no_snapshot (check_delta_pod env ctx)
  unfolding check_delta_pod
  check_delta_pod-Keeps = search (keeps_rules, get_pod_phase-Keeps, judge_delta_pod-Keeps) depth 20

  module _ (label : String) where
    collect_regions-Keeps :
        (fuel : ℕ) (page : ℕ → Call) (offset : ℕ) (regions : List ChangedRegion)
        → ((i : ℕ) → no_snapshot (page i) ≡ true)
        → Keeps no_snapshot (collect_regions env ctx label fuel page offset regions)
    unfolding collect_regions
    collect_regions-Keeps zero page offset regions quiet = search keeps_rules
    collect_regions-Keeps (suc fuel) page offset regions quiet =
        search (keeps_rules, quiet, collect_regions-Keeps fuel page) depth 20

    snapshot_round-Keeps : Keeps any_call (snapshot_round env ctx label)
    unfolding snapshot_round
    snapshot_round-Keeps = search keeps_rules depth 20

    export_round-Keeps :
        (vm : Vm) (disks : List Disk) → Keeps no_snapshot (export_round env ctx label vm disks)
    unfolding export_round
    export_round-Keeps vm disks = search (keeps_rules, export_delta-Keeps) depth 20

    start_delta_pod-Keeps :
        (i : ℕ) (regions : List ChangedRegion)
        → Keeps no_snapshot (start_delta_pod env ctx label i regions)
    unfolding start_delta_pod
    start_delta_pod-Keeps i regions = search keeps_rules depth 30

    sync_disk-Keeps :
        (fuel i : ℕ) (disks : List Disk) (m : Exec PhaseResult)
        → Keeps no_snapshot m
        → Keeps no_snapshot (sync_disk env ctx label fuel i disks m)
    unfolding sync_disk
    sync_disk-Keeps fuel i disks m km =
        search (keeps_rules, collect_regions-Keeps, start_delta_pod-Keeps) depth 30

    pub sync_round-Keeps :
        (fuel : ℕ) (m : Exec PhaseResult)
        → Keeps no_snapshot m
        → Keeps no_snapshot (sync_round env ctx label fuel m)
    unfolding sync_round
    sync_round-Keeps fuel m km = search (keeps_rules, export_round-Keeps, sync_disk-Keeps) depth 20

    run_delta_round-Keeps :
        (fuel : ℕ) (m : Exec PhaseResult)
        → Keeps no_snapshot m
        → Keeps any_call (run_delta_round env ctx label fuel m)
    unfolding run_delta_round
    run_delta_round-Keeps fuel m km =
        Keeps-bind _ _ snapshot_round-Keeps (λ _. Keeps-any _ (sync_round-Keeps fuel m km))

  get_pod_phase-any : (name : String) → Keeps any_call (get_pod_phase env ctx name)
  get_pod_phase-any name = Keeps-any _ (get_pod_phase-Keeps name)

  check_delta_pod-any : Keeps any_call (check_delta_pod env ctx)
  check_delta_pod-any = Keeps-any _ check_delta_pod-Keeps

  snapshot_base-Keeps : Keeps any_call (snapshot_base env ctx)
  unfolding snapshot_base
  snapshot_base-Keeps = search keeps_rules depth 20

  pub phase_bulk_copy-Keeps : Keeps any_call (phase_bulk_copy env ctx)
  unfolding phase_bulk_copy
  phase_bulk_copy-Keeps =
      search (keeps_rules, snapshot_base-Keeps, export_disks-Keeps, create_data_volumes-Keeps) depth
        20

  pub phase_wait_bulk_copy-Keeps : Keeps any_call (phase_wait_bulk_copy env ctx)
  unfolding phase_wait_bulk_copy
  phase_wait_bulk_copy-Keeps = poll_data_volumes-Keeps env ctx "poll DV " ""

  is_cutover_time-Keeps : Keeps any_call (is_cutover_time env ctx)
  unfolding is_cutover_time
  is_cutover_time-Keeps = search keeps_rules depth 20

  too_early-Keeps : (o : Option ℕ) → Keeps any_call (too_early env ctx o)
  unfolding too_early
  too_early-Keeps none = search keeps_rules
  too_early-Keeps (some t) = search keeps_rules

  cut_over-Keeps : (w : WarmStatus) → Keeps any_call (cut_over env ctx w)
  unfolding cut_over
  cut_over-Keeps w = search (keeps_rules, get_pod_phase-any) depth 20

  next_round-Keeps : (fuel : ℕ) (w : WarmStatus) → Keeps any_call (next_round env ctx fuel w)
  unfolding next_round
  next_round-Keeps fuel w =
      search (keeps_rules, too_early-Keeps, run_delta_round-Keeps, finalize_precopy_round-Keeps)
        depth 20

  pub phase_precopy-Keeps : (fuel : ℕ) → Keeps any_call (phase_precopy env ctx fuel)
  unfolding phase_precopy
  phase_precopy-Keeps fuel =
      search
        (keeps_rules, is_cutover_time-Keeps, cut_over-Keeps, next_round-Keeps, check_delta_pod-any)
        depth 20

  pub phase_final_sync-Keeps : (fuel : ℕ) → Keeps any_call (phase_final_sync env ctx fuel)
  unfolding phase_final_sync
  phase_final_sync-Keeps fuel =
      search (keeps_rules, run_delta_round-Keeps, finalize_final_sync-Keeps, check_delta_pod-any)
        depth 20
