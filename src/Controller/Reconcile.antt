-- ===== src/Controller/Reconcile.antt =====
-- `Reconcile` and `resolveMigrationContext` of internal/controller/migration_controller.go.
pub mod Lasting
use Prim.Native.Nat.{max}
use nutanix_vma.Prelude.{ℕ, Bool, true, false, not, ◌||◌, some, List, ◌∷◌, is_empty, if◌then◌else◌}
use nutanix_vma.Api.{ApiError, Migration, MigrationPhase, MigrationPlan}
use nutanix_vma.Outside.{Reply, Kind, Key, Call, Provider, Credentials, Env}
use nutanix_vma.Context.{Context}
use nutanix_vma.Pipeline.{is_terminal_migration_phase}
use nutanix_vma.Controller.Sweep.{initialize_vm_statuses, process_cancellations, advance_vms}
use nutanix_vma.Controller.Status.{
  Reconciled, finished, requeue_now, requeue_after, aborted, update_overall_status, write_object,
  write_status, set_migration_failed, handle_deletion,
}

-- A step of `resolveMigrationContext`: it adds calls, and gives nothing after an error.
abbrev pub Resolve {ℓ} : Type ℓ → Type ℓ
Resolve A = List Call → Reply A × List Call

module _ {ℓ κ} {A : Type ℓ} {B : Type κ} where
  abbrev pub proceed : Reply A → (A → Resolve B) → Resolve B
  proceed (Reply.ok a) f calls = f a calls
  proceed (Reply.err e) f calls = (Reply.err e, calls)

  infixl 5 ◌>>=◌
  abbrev pub ◌>>=◌ : Resolve A → (A → Resolve B) → Resolve B
  ◌>>=◌ m f calls = let (r, calls') = m calls in proceed r f calls'

abbrev pub lookup {ℓ} : {A : Type ℓ} → (List Call → Key → Reply A) → Key → Resolve A
lookup answer k calls = (answer calls k, Call.get k ∷ calls)

unfoldable pub check_credentials : Credentials → Resolve Credentials
check_credentials c calls =
    if is_empty c.username || is_empty c.password
    then (Reply.err (ApiError.other "provider secret must contain non-empty keys"), calls)
    else (Reply.ok c, calls)

module _ (env : Env) where
  abbrev pub new_client : Provider → Credentials → Resolve (Unit {0})
  new_client p c calls = (
    env.client calls p.url c.username c.password,
    Call.new_client p.url c.username c.password ∷ calls,
  )

  unfoldable pub resolve_migration_context : Migration → MigrationPlan → Resolve Context
  unfolding check_credentials
  resolve_migration_context m plan = do
    provider ←
        lookup env.provider (record {
          kind = Kind.nutanix_provider;
          namespace = m.namespace;
          name = plan.provider_ref;
        })
    found ←
        lookup env.credentials (record {
          kind = Kind.secret;
          namespace = provider.namespace;
          name = provider.secret_ref;
        })
    c ← check_credentials found
    u ← new_client provider c
    networks ←
        lookup env.network_map
          (record { kind = Kind.network_map; namespace = m.namespace; name = plan.network_map_ref })
    storage_map ←
        lookup env.storage_map
          (record { kind = Kind.storage_map; namespace = m.namespace; name = plan.storage_map_ref })
    λ calls. (
      Reply.ok (record {
        plan = plan;
        migration_name = m.name;
        cutover = m.cutover;
        migration_namespace = m.namespace;
        network_map = networks;
        storage_map = storage_map;
        transfer_mgr = record {
          prism_url = provider.url;
          username = c.username;
          password = c.password;
          ca_cert = "";
        };
      }),
      calls,
    )

  abbrev pub is_fresh : MigrationPhase → Bool
  is_fresh MigrationPhase.unset = true
  is_fresh MigrationPhase.pending = true
  is_fresh _ = false

  -- The first reconcile of a Migration.
  unfoldable pub initialize : Migration → MigrationPlan → List Call → Migration × List Call
  unfolding initialize_vm_statuses
  initialize m plan calls =
      if is_fresh m.phase
      then (
        record m {
          vms = initialize_vm_statuses m.vms plan.vms;
          phase = MigrationPhase.running;
          started = some (env.clock calls);
          condition = "Running";
        },
        Call.active_migrations_inc ∷ Call.event "MigrationStarted" ∷ Call.now ∷ calls,
      )
      else (m, calls)

  module _ (cbt_fuel fuel : ℕ) where
    -- The part of `Reconcile` after the references are resolved; `old` is the object that was read.
    unfoldable pub run_migration : Migration → Context → List Call → Reconciled
    unfolding initialize process_cancellations advance_vms update_overall_status
    run_migration old ctx calls =
        let (m, started) = initialize old ctx.plan calls in
        let (vms, marked) = process_cancellations env m.cancel m.vms started in
        let r = advance_vms env ctx cbt_fuel fuel (max ctx.plan.max_in_flight 1) vms marked in
        let (m', closed) = update_overall_status env (record m { vms = r.vms }) r.calls in
        if r.aborted
        then record { stored = old; calls = r.calls; result = aborted }
        else write_status env old m' closed (if r.needs_requeue then requeue_after 5 else finished)

    unfoldable pub with_context : Migration → Reply Context × List Call → Reconciled
    unfolding run_migration set_migration_failed
    with_context m (Reply.ok ctx, calls) = run_migration m ctx calls
    with_context m (Reply.err e, calls) = set_migration_failed env m calls

    unfoldable pub with_plan : Migration → Reply MigrationPlan → List Call → Reconciled
    unfolding with_context resolve_migration_context
    with_plan m (Reply.ok plan) calls = with_context m (resolve_migration_context m plan calls)
    with_plan m (Reply.err e) calls = set_migration_failed env m calls

    -- `Reconcile` once the Migration has been read.
    unfoldable pub reconcile : Migration → List Call → Reconciled
    unfolding handle_deletion with_plan
    reconcile m calls =
        if m.deleting
        then handle_deletion env m calls
        else if not m.finalizer
        then write_object env m (record m { finalizer = true }) calls requeue_now
        else if is_terminal_migration_phase m.phase
        then record { stored = m; calls = calls; result = finished }
        else let k : Key = record {
          kind = Kind.migration_plan;
          namespace = m.namespace;
          name = m.plan_ref;
        } in
          with_plan m (env.plan calls k) (Call.get k ∷ calls)
