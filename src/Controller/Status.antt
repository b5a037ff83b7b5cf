-- ===== src/Controller/Status.antt =====
-- `updateOverallStatus`, `setMigrationFailed` and `handleDeletion` of
-- internal/controller/migration_controller.go.
pub mod Overall
use nutanix_vma.Prelude.{
  ℕ, ◌+◌, ltb, ◌==◌, Bool, true, false, not, some, List, ◌∷◌, length, count, if◌then◌else◌,
}
use nutanix_vma.Api.{ApiError, Migration, MigrationPhase, VmStatus}
use nutanix_vma.Outside.{Reply, Kind, Key, Call, Env}
use nutanix_vma.Pipeline.{is_completed, is_failed, is_cancelled}

abbrev pub completed_vms : List VmStatus → ℕ
completed_vms = count (λ v. is_completed v.phase)

abbrev pub failed_vms : List VmStatus → ℕ
failed_vms = count (λ v. is_failed v.phase)

abbrev pub cancelled_vms : List VmStatus → ℕ
cancelled_vms = count (λ v. is_cancelled v.phase)

-- The phase that `updateOverallStatus` sets.
unfoldable pub overall_phase : List VmStatus → MigrationPhase
overall_phase vms =
    let total = length vms in
    if not (completed_vms vms + failed_vms vms + cancelled_vms vms == total)
    then MigrationPhase.running
    else if cancelled_vms vms == total
    then MigrationPhase.cancelled
    else if ltb 0 (failed_vms vms)
    then MigrationPhase.failed
    else MigrationPhase.completed

-- The condition's reason, the event, the status of the counter, and the gauge.
unfoldable pub close_migration : ℕ → MigrationPhase → Migration → List Call → Migration × List Call
close_migration now MigrationPhase.cancelled m calls = (
  record m { phase = MigrationPhase.cancelled; completed = some now; condition = "Cancelled" },
  Call.active_migrations_dec
      ∷ Call.migrations_total "cancelled"
      ∷ Call.event "MigrationCancelled"
      ∷ calls,
)
close_migration now MigrationPhase.failed m calls = (
  record m { phase = MigrationPhase.failed; completed = some now; condition = "Failed" },
  Call.active_migrations_dec
      ∷ Call.migrations_total "failed"
      ∷ Call.event "MigrationFailed"
      ∷ calls,
)
close_migration now MigrationPhase.completed m calls = (
  record m { phase = MigrationPhase.completed; completed = some now; condition = "Completed" },
  Call.active_migrations_dec
      ∷ Call.migrations_total "completed"
      ∷ Call.event "MigrationCompleted"
      ∷ calls,
)
close_migration now _ m calls = (record m { phase = MigrationPhase.running }, calls)

abbrev pub is_running : MigrationPhase → Bool
is_running MigrationPhase.running = true
is_running _ = false

unfoldable pub update_overall_status : Env → Migration → List Call → Migration × List Call
unfolding overall_phase close_migration
update_overall_status env m calls =
    let phase = overall_phase m.vms in
    if is_running phase
    then (record m { phase = MigrationPhase.running }, calls)
    else close_migration (env.clock calls) phase m (Call.now ∷ calls)

-- How `Reconcile` ends.
pub data ReconcileResult : Type 0 where
  finished : ReconcileResult
  requeue_now : ReconcileResult
  requeue_after : (seconds : ℕ) → ReconcileResult
  error : ApiError → ReconcileResult
  aborted : ReconcileResult

-- The Migration that the cluster holds afterwards, the calls, and the result.
pub record Reconciled : Type 0 where
  pub stored : Migration
  pub calls : List Call
  pub result : ReconcileResult

abbrev pub migration_key : Migration → Key
migration_key m = record { kind = Kind.migration; namespace = m.namespace; name = m.name }

-- A failed write leaves the stored object as it was.
unfoldable pub after_write :
    Migration → Migration → List Call → ReconcileResult → Reply (Unit {0}) → Reconciled
after_write old new calls r (Reply.ok u) = record { stored = new; calls = calls; result = r }
after_write old new calls r (Reply.err e) = record { stored = old; calls = calls; result = error e }

module _ (env : Env) where
  unfoldable pub write_object : Migration → Migration → List Call → ReconcileResult → Reconciled
  unfolding after_write
  write_object old new calls r =
      after_write old new (Call.update (migration_key old) ∷ calls) r
        (env.updated calls (migration_key old))

  unfoldable pub write_status : Migration → Migration → List Call → ReconcileResult → Reconciled
  unfolding after_write
  write_status old new calls r =
      after_write old new (Call.update_status (migration_key old) ∷ calls) r
        (env.status_updated calls (migration_key old))

  -- The old object is the one that was read.
  unfoldable pub set_migration_failed : Migration → List Call → Reconciled
  set_migration_failed m calls =
      write_status m
        (record m {
          phase = MigrationPhase.failed;
          completed = some (env.clock calls);
          condition = "Error";
        })
        (Call.migrations_total "failed" ∷ Call.event "MigrationFailed" ∷ Call.now ∷ calls) finished

  unfoldable pub handle_deletion : Migration → List Call → Reconciled
  handle_deletion m calls =
      if not m.finalizer
      then record { stored = m; calls = calls; result = finished }
      else if is_running m.phase
      then record { stored = m; calls = calls; result = requeue_after 10 }
      else write_object m (record m { finalizer = false }) calls finished
