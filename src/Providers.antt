-- ===== src/Providers.antt =====
-- internal/controller/provider_controller.go: the connection of a NutanixProvider and its inventory.
pub mod Protection
use nutanix_vma.Prelude.{
  ℕ, ◌+◌, ◌*◌, String, Bool, true, false, not, ◌||◌, Option, none, some, List, [], ◌∷◌, length,
  str_eq, is_empty, if◌then◌else◌, concat,
}
use nutanix_vma.Api.{ApiError, MigrationPlan}
use nutanix_vma.Outside.{Reply, Kind, Key, Call, Credentials, Env}

pub data ProviderPhase : Type 0 where
  unset pending connecting connected error : ProviderPhase

-- The condition of type Connected: its status, reason and observed generation.
pub record Connected : Type 0 where
  pub status : Bool
  pub reason : String
  pub observed_generation : ℕ

-- What the condition of type InventoryReady counts.
pub record Inventory : Type 0 where
  pub vms : ℕ
  pub subnets : ℕ
  pub clusters : ℕ
  pub storage_containers : ℕ

pub record NutanixProvider : Type 0 where
  pub name : String
  pub namespace : String
  pub generation : ℕ
  pub deleting : Bool
  pub finalizer : Bool
  pub url : String
  pub secret_ref : String
  pub refresh_interval : String
  pub phase : ProviderPhase
  pub vm_count : ℕ
  pub connected : Option Connected
  pub inventory : Option Inventory

pub data ProviderResult : Type 0 where
  finished requeue_now : ProviderResult
  requeue_after : (nanoseconds : ℕ) → ProviderResult
  error : ApiError → ProviderResult

-- The provider that the cluster holds afterwards, the calls, and the result.
pub record ProviderReconciled : Type 0 where
  pub stored : NutanixProvider
  pub calls : List Call
  pub result : ProviderResult

abbrev pub second : ℕ
second = 1000000000

abbrev pub provider_key : NutanixProvider → Key
provider_key p = record { kind = Kind.nutanix_provider; namespace = p.namespace; name = p.name }

-- The loop of `isProviderInUse`.
unfoldable pub is_referenced : (name : String) → List MigrationPlan → Bool
is_referenced name [] = false
is_referenced name (plan ∷ rest) = str_eq plan.provider_ref name || is_referenced name rest

-- A failed write leaves the stored provider as it was.
unfoldable pub after_provider_write :
    NutanixProvider
    → NutanixProvider
    → List Call
    → ProviderResult
    → Reply (Unit {0})
    → ProviderReconciled
after_provider_write old new calls r (Reply.ok u) = record {
  stored = new;
  calls = calls;
  result = r;
}
after_provider_write old new calls r (Reply.err e) = record {
  stored = old;
  calls = calls;
  result = ProviderResult.error e;
}

abbrev pub count_of : Reply ℕ → ℕ
count_of (Reply.ok n) = n
count_of (Reply.err e) = 0

abbrev pub clusters_of : Reply (List (Option String)) → List (Option String)
clusters_of (Reply.ok cs) = cs
clusters_of (Reply.err e) = []

module _ (env : Env) where
  unfoldable pub write_provider :
      NutanixProvider → NutanixProvider → List Call → ProviderResult → ProviderReconciled
  unfolding after_provider_write
  write_provider old new calls r =
      after_provider_write old new (Call.update (provider_key old) ∷ calls) r
        (env.updated calls (provider_key old))

  unfoldable pub write_provider_status :
      NutanixProvider → NutanixProvider → List Call → ProviderResult → ProviderReconciled
  unfolding after_provider_write
  write_provider_status old new calls r =
      after_provider_write old new (Call.update_status (provider_key old) ∷ calls) r
        (env.status_updated calls (provider_key old))

  unfoldable pub set_error_condition :
      NutanixProvider → (reason : String) → List Call → ProviderReconciled
  set_error_condition p reason calls =
      write_provider_status p
        (record p {
          phase = ProviderPhase.error;
          connected =
              some (record { status = false; reason = reason; observed_generation = p.generation });
        })
        calls (ProviderResult.requeue_after (60 * second))

  -- The loop over the clusters; a cluster without an external address is left out.
  unfoldable pub count_containers : ℕ → List (Option String) → List Call → ℕ × List Call
  count_containers total [] calls = (total, calls)
  count_containers total (none ∷ rest) calls = count_containers total rest calls
  count_containers total (some address ∷ rest) calls =
      let url = concat ("https://" ∷ address ∷ ":9440" ∷ []) in
      let skipped = count_containers total rest calls in
      let counted =
        count_containers (total + count_of (env.list_storage_containers calls url)) rest
          (Call.list_storage_containers url ∷ calls) in
      if is_empty address then skipped else counted

  unfoldable pub refresh_interval : NutanixProvider → ℕ
  refresh_interval p = elim (env.parse_duration p.refresh_interval) [
    | none ↦ 300 * second
    | some d ↦ d
  ]

  -- From the fetch of the inventory on.
  unfoldable pub take_inventory : NutanixProvider → Reply ℕ → List Call → ProviderReconciled
  unfolding count_containers refresh_interval
  take_inventory p (Reply.err e) calls = set_error_condition p "ConnectionFailed" calls
  take_inventory p (Reply.ok vms) calls =
      let subnets = count_of (env.list_subnets calls) in
      let asked = Call.list_subnets ∷ calls in
      let clusters = clusters_of (env.list_clusters asked) in
      let (containers, after) = count_containers 0 clusters (Call.list_clusters ∷ asked) in
      write_provider_status p
        (record p {
          phase = ProviderPhase.connected;
          vm_count = vms;
          connected =
              some (record {
                status = true;
                reason = "Connected";
                observed_generation = p.generation;
              });
          inventory = some (record {
            vms = vms;
            subnets = subnets;
            clusters = length clusters;
            storage_containers = containers;
          });
        })
        after (ProviderResult.requeue_after (refresh_interval p))

  unfoldable pub with_client : NutanixProvider → Reply (Unit {0}) → List Call → ProviderReconciled
  with_client p (Reply.err e) calls = set_error_condition p "ClientError" calls
  with_client p (Reply.ok u) calls = take_inventory p (env.list_vms calls) (Call.list_vms ∷ calls)

  unfoldable pub with_credentials :
      NutanixProvider → Reply Credentials → List Call → ProviderReconciled
  with_credentials p (Reply.err e) calls = set_error_condition p "SecretNotFound" calls
  with_credentials p (Reply.ok c) calls =
      if is_empty c.username || is_empty c.password
      then set_error_condition p "InvalidCredentials" calls
      else with_client p (env.client calls p.url c.username c.password)
          (Call.new_client p.url c.username c.password ∷ calls)

  -- Below the write of the phase Connecting, which made `p` of `old`.
  unfoldable pub connect :
      (old p : NutanixProvider) → Reply (Unit {0}) → List Call → ProviderReconciled
  connect old p (Reply.err e) calls = record {
    stored = old;
    calls = calls;
    result = ProviderResult.error e;
  }
  connect old p (Reply.ok u) calls =
      let k : Key = record { kind = Kind.secret; namespace = p.namespace; name = p.secret_ref } in
      with_credentials p (env.credentials calls k) (Call.get k ∷ calls)

  -- The deletion of a provider that has the finalizer.
  unfoldable pub release :
      NutanixProvider → Reply (List MigrationPlan) → List Call → ProviderReconciled
  release p (Reply.err e) calls = record {
    stored = p;
    calls = calls;
    result = ProviderResult.error e;
  }
  release p (Reply.ok plans) calls =
      if is_referenced p.name plans
      then record { stored = p; calls = calls; result = ProviderResult.requeue_after (30 * second) }
      else write_provider p (record p { finalizer = false }) calls ProviderResult.finished

  -- `Reconcile` once the provider has been read.
  unfoldable pub reconcile_provider : NutanixProvider → List Call → ProviderReconciled
  reconcile_provider p calls =
      if p.deleting
      then (if p.finalizer
          then release p (env.list_plans calls p.namespace) (Call.list_plans p.namespace ∷ calls)
          else record { stored = p; calls = calls; result = ProviderResult.finished })
      else if not p.finalizer
      then write_provider p (record p { finalizer = true }) calls ProviderResult.requeue_now
      else connect p (record p { phase = ProviderPhase.connecting })
          (env.status_updated calls (provider_key p)) (Call.update_status (provider_key p) ∷ calls)
