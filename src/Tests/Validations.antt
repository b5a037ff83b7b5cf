-- ===== src/Tests/Validations.antt =====
-- Concrete runs of the validation of VMs and of plans, and of a provider's reconcile.
use nutanix_vma.Prelude.{true, false, none, some, [], ◌∷◌, All, ◌≡◌, refl}
use nutanix_vma.Api.{ApiError, Nic, Vm}
use nutanix_vma.Outside.{Call, Reply, Env}
use nutanix_vma.Controller.Status.{finished}
use nutanix_vma.Validation.{
  ValidationOptions, has_errors, source_concerns, check_unmapped_storage, check_unmapped_network,
  check_gpu, check_volume_group_disks, check_nic_types, check_mac_conflicts, check_ide_disks,
}
use nutanix_vma.Validation.Sound.{
  OfContainer, OfSome, StorageCovered, NetworkCovered, StorageMapped, NetworkMapped, Movable,
  source_concerns-exact,
}
use nutanix_vma.Validation.Target.{validate}
use nutanix_vma.Plans.{
  plan_key, PlanPhase, Plan, PlanPhase, reconcile_plan, after_validating, conclude, set_plan_error,
  write_plan, after_plan_write, resolve_plan, reason_of, require_credentials, validate_vms,
  check_plan_vm, close_plan,
}
use nutanix_vma.Plans.Retry.{reconcile_plan-requeue}
use nutanix_vma.Plans.Ready.{IsClean, reconcile_plan-IsClean}
use nutanix_vma.Context.{is_cdrom}
use nutanix_vma.Transfer.{matches_source}
use nutanix_vma.Providers.{
  NutanixProvider, ProviderPhase, reconcile_provider, release, is_referenced, write_provider,
  after_provider_write,
}
use nutanix_vma.Providers.Protection.{Unused, reconcile_provider-protects}
use nutanix_vma.Tests.{pair, backed, source, plan, env}

abbrev mapped_source : Vm
mapped_source = record source { disks = backed ∷ [] }

abbrev options : ValidationOptions
options = record {
  network_map = some [];
  storage_map = some (pair ∷ []);
  existing_macs = [];
  target_namespace = "vms";
}

abbrev mapped : Env
mapped = record env {
  vm = λ calls id. Reply.ok mapped_source;
  storage_map = λ calls k. Reply.ok (pair ∷ []);
}

abbrev without_provider : Env
without_provider = record env { provider = λ calls k. Reply.err ApiError.not_found }

abbrev new_plan : Plan
new_plan = record {
  spec = plan;
  namespace = "vma";
  generation = 1;
  phase = PlanPhase.unset;
  vms = [];
  validated = none;
}

source_concerns-exact_example :
    (has_errors (source_concerns env mapped_source options) ≡ false
      → All (OfContainer (StorageCovered env mapped_source options)) (backed ∷ [])
        × All (λ (n : Nic). OfSome (NetworkCovered env mapped_source options) n.network_ref) []
        × Movable env mapped_source options)
    × (All (OfContainer (StorageMapped env mapped_source options)) (backed ∷ [])
        → All (λ (n : Nic). OfSome (NetworkMapped env mapped_source options) n.network_ref) []
        → Movable env mapped_source options
        → has_errors (source_concerns env mapped_source options) ≡ false)
source_concerns-exact_example = source_concerns-exact env mapped_source options

reconcile_plan-requeue_example :
    let r = reconcile_plan without_provider new_plan [] in
    reconcile_plan env r.stored [] ≡ record { stored = r.stored; calls = []; result = finished }
unfolding reconcile_plan after_validating conclude set_plan_error write_plan after_plan_write
    resolve_plan reason_of
reconcile_plan-requeue_example = reconcile_plan-requeue without_provider env new_plan [] [] refl

reconcile_plan-IsClean_example :
    IsClean mapped
      (record new_plan { phase = PlanPhase.validating })
      (Call.update_status (plan_key new_plan) ∷ [])
      (reconcile_plan mapped new_plan []).stored.vms
unfolding reconcile_plan after_validating conclude write_plan after_plan_write resolve_plan
    require_credentials validate_vms check_plan_vm close_plan validate source_concerns has_errors
    check_unmapped_storage check_unmapped_network check_gpu check_volume_group_disks check_nic_types
    check_mac_conflicts check_ide_disks is_cdrom matches_source
reconcile_plan-IsClean_example = reconcile_plan-IsClean mapped new_plan [] (λ q. cc) refl

abbrev leaving : NutanixProvider
leaving = record {
  name = "spare";
  namespace = "vma";
  generation = 1;
  deleting = true;
  finalizer = true;
  url = "https://pc/";
  secret_ref = "s";
  refresh_interval = "5m";
  phase = ProviderPhase.connected;
  vm_count = 2;
  connected = none;
  inventory = none;
}

reconcile_provider-protects_example : (true ≡ true) × Unused leaving (env.list_plans [] "vma")
unfolding reconcile_provider release is_referenced write_provider after_provider_write
reconcile_provider-protects_example = reconcile_provider-protects env leaving [] refl refl
