-- ===== src/Phases/Cleanup.antt =====
-- The phase Cleanup, and `cleanupFailedVM`, of internal/controller/migration_controller.go. An
-- error of a call is logged only.
pub mod Calls
use nutanix_vma.Prelude.{String, Option, none, some, List, [], ◌∷◌, is_empty, if◌then◌else◌, concat}
use nutanix_vma.Api.{VmStatus, WarmStatus}
use nutanix_vma.Outside.{Kind, Call, Env}
use nutanix_vma.Session.{PhaseResult, Exec, done, ◌>>=◌, ◌>>◌, pure, get_vm_status, ask}
use nutanix_vma.Context.{Context, target_key, cred_secret_name, ca_config_map_name}
use nutanix_vma.Transfer.{delete, delete_credential_secret, delete_ca_config_map}
use nutanix_vma.Phases.Power.{is_on}

module _ (env : Env) where
  unfoldable pub delete_images : List String → Exec (Unit {0})
  delete_images [] = pure tt
  delete_images (uuid ∷ rest) = do
    ask (Call.delete_image uuid) (λ calls. env.drop_image calls uuid)
    delete_images rest

  -- Guarded by `uuid != ""`.
  unfoldable pub delete_snapshot : String → Exec (Unit {0})
  delete_snapshot uuid = if is_empty uuid then pure tt else do
    ask (Call.delete_recovery_point uuid) (λ calls. env.drop_recovery_point calls uuid)
    pure tt

module _ (env : Env) (ctx : Context) where
  unfoldable pub delete_volumes : List String → Exec (Unit {0})
  delete_volumes [] = pure tt
  delete_volumes (name ∷ rest) = do
    delete env (target_key ctx Kind.data_volume name)
    delete_volumes rest

  -- `deletePod`
  unfoldable pub delete_pod : String → Exec (Unit {0})
  delete_pod name = do delete env (target_key ctx Kind.pod name); pure tt

  -- `deleteConfigMap`
  unfoldable pub delete_config_map : String → Exec (Unit {0})
  delete_config_map name = do delete env (target_key ctx Kind.config_map name); pure tt

  unfoldable pub delete_delta_pod : String → Exec (Unit {0})
  unfolding delete_pod delete_config_map
  delete_delta_pod name = do delete_pod name; delete_config_map (concat (name ∷ "-regions" ∷ []))

  unfoldable pub phase_cleanup : Exec PhaseResult
  unfolding delete_images delete_snapshot delete_credential_secret delete_ca_config_map
  phase_cleanup = do
    v ← get_vm_status
    delete_images env v.image_uuids
    delete_snapshot env v.snapshot_uuid
    delete_credential_secret env (cred_secret_name ctx) ctx.plan.target_namespace
    delete_ca_config_map env (ca_config_map_name ctx) ctx.plan.target_namespace
    pure done

  unfoldable pub cleanup_warm : Option WarmStatus → Exec (Unit {0})
  unfolding delete_images delete_snapshot delete_delta_pod
  cleanup_warm none = pure tt
  cleanup_warm (some warm) = do
    (if is_empty warm.delta_pod_name then pure tt else delete_delta_pod warm.delta_pod_name)
    delete_images env warm.delta_image_uuids
    delete_snapshot env warm.delta_snapshot_uuid
    delete_images env warm.base_image_uuids
    delete_snapshot env warm.base_snapshot_uuid

  unfoldable pub restore_power : VmStatus → Exec (Unit {0})
  restore_power v =
      if is_on v.original_power_state
      then (do ask (Call.power_on_vm v.id) (λ calls. env.power_on calls v.id); pure tt)
      else pure tt

  unfoldable pub cleanup_failed_vm : Exec (Unit {0})
  unfolding delete_volumes delete_images delete_snapshot restore_power cleanup_warm
  cleanup_failed_vm = do
    v ← get_vm_status
    delete_volumes v.data_volume_names
    delete_images env v.image_uuids
    delete_snapshot env v.snapshot_uuid
    restore_power v
    cleanup_warm v.warm
