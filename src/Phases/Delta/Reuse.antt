-- ===== src/Phases/Delta/Reuse.antt =====
-- Which snapshot the final sync of a warm migration reads: `phaseFinalSync` with `runDeltaRound`.
use nutanix_vma.Prelude.{
  if◌then◌else◌, inl, inr, Bool-cases, ℕ, String, true, false, some, List, ◌++◌, All, ◌≡◌, refl,
  is_empty,
}
use nutanix_vma.Api.{WarmStatus}
use nutanix_vma.Outside.{Call, Env}
use nutanix_vma.Session.{PhaseResult, Session, ok, Exec, ◌>>=◌}
use nutanix_vma.Session.Keeps.{Same, no_snapshot}
use nutanix_vma.Context.{Context}
use nutanix_vma.Phases.Delta.{
  snapshot_round, run_delta_round, sync_round, finalize_final_sync, check_delta_pod,
}
use nutanix_vma.Phases.Warm.{phase_final_sync}
use nutanix_vma.Phases.Frame.{sync_round-Keeps, finalize_final_sync-Keeps, check_delta_pod-Keeps}

module _ (env : Env) (ctx : Context) (s : Session) (w : WarmStatus) where
  snapshot_round-reuses :
      (label : String)
      → s.vm.warm ≡ some w
      → is_empty w.delta_snapshot_uuid ≡ false
      → snapshot_round env ctx label s ≡ (ok tt, s)
  unfolding snapshot_round ◌>>=◌
  snapshot_round-reuses label h k = rw (h, k) refl

  run_delta_round-reuses :
      (label : String) (fuel : ℕ) (m : Exec PhaseResult)
      → s.vm.warm ≡ some w
      → is_empty w.delta_snapshot_uuid ≡ false
      → run_delta_round env ctx label fuel m s ≡ sync_round env ctx label fuel m s
  unfolding run_delta_round ◌>>=◌
  run_delta_round-reuses label fuel m h k = rw (snapshot_round-reuses label h k) refl

  phase_final_sync-branch :
      (fuel : ℕ)
      → s.vm.warm ≡ some w
      → phase_final_sync env ctx fuel s
        ≡ (if is_empty w.delta_pod_name
              then run_delta_round env ctx "final" fuel (finalize_final_sync env)
              else check_delta_pod env ctx)
            s
  unfolding phase_final_sync ◌>>=◌
  phase_final_sync-branch fuel h = rw h refl

  final_sync-Same :
      (fuel : ℕ)
      → s.vm.warm ≡ some w
      → is_empty w.delta_snapshot_uuid ≡ false
      → Same no_snapshot s (phase_final_sync env ctx fuel s).1
  final_sync-Same fuel h k = elim (Bool-cases (is_empty w.delta_pod_name)) [
    | inl e ↦
        rw
          (
            phase_final_sync-branch fuel h,
            e,
            run_delta_round-reuses "final" fuel (finalize_final_sync env) h k,
          )
          ((sync_round-Keeps env ctx "final" fuel _ (finalize_final_sync-Keeps env)).at s)
    | inr e ↦ rw (phase_final_sync-branch fuel h, e) ((check_delta_pod-Keeps env ctx).at s)
  ]

  -- Where the status holds the snapshot of a delta round, the final sync makes no call that takes a
  -- snapshot, whatever the answers.
  pub phase_final_sync-reuses :
      (fuel : ℕ)
      → s.vm.warm ≡ some w
      → is_empty w.delta_snapshot_uuid ≡ false
      → (new : List Call) × ((phase_final_sync env ctx fuel s).1.calls ≡ new ++ s.calls)
        × All (λ c. no_snapshot c ≡ true) new
  phase_final_sync-reuses fuel h k =
      let same = final_sync-Same fuel h k in (same.extra, same.grown, same.allowed)
