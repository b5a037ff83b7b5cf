-- ===== src/Phases/Volumes.antt =====
-- DataVolumes: ImportDisks, `createDataVolumes` and `pollDataVolumes` of
-- internal/controller/migration_controller.go.
pub mod Poll
use nutanix_vma.Prelude.{
  ℕ, ◌+◌, ltb, length, get_elem?, String, Bool, true, false, List, [], ◌∷◌, ◌++◌, none, some, ◌==◌,
  ◌&&◌, is_empty, if◌then◌else◌, concat,
}
use nutanix_vma.Api.{ApiError, Disk, Error, StorageDestination, VolumeMode, AccessMode, VmStatus}
use nutanix_vma.Outside.{Reply, DataVolumePhase, DataVolumeOptions, Env}
use nutanix_vma.Session.{
  PhaseResult, Exec, done, waiting, failed, ◌>>=◌, ◌>>◌, pure, leave, get_vm_status, modify,
  or_fail,
}
use nutanix_vma.Context.{Context, filter_data_disks, cred_secret_name, ca_config_map_name}
use nutanix_vma.Transfer.{
  find_storage_mapping, image_download_url, create_credential_secret, create_ca_config_map,
  create_data_volume, get_data_volume_progress,
}
use nutanix_vma.Phases.Disks.{get_source_vm, disk_name}

abbrev pub default_destination : StorageDestination
default_destination = record {
  storage_class = "default";
  volume_mode = VolumeMode.filesystem;
  access_mode = AccessMode.read_write_once;
}

-- The size that ImportDisks reads of a disk.
unfoldable pub import_disk_size : Disk → ℕ
import_disk_size disk =
    if disk.disk_size_bytes == 0
    then elim disk.backing_info [ none ↦ 0 | some b ↦ b.disk_size_bytes ]
    else disk.disk_size_bytes

module _ (env : Env) (ctx : Context) where
  -- The secret and, with a custom CA, the ConfigMap; its name, or "".
  unfoldable pub create_credentials : (label : String) → Exec String
  unfolding create_credential_secret create_ca_config_map
  create_credentials label = do
    r ←
        create_credential_secret env ctx.transfer_mgr (cred_secret_name ctx)
          ctx.plan.target_namespace
    or_fail (concat (label ∷ "credential secret" ∷ [])) r
    if is_empty ctx.transfer_mgr.ca_cert then pure "" else do
      r ←
          create_ca_config_map env ctx.transfer_mgr (ca_config_map_name ctx)
            ctx.plan.target_namespace
      or_fail (concat (label ∷ "CA ConfigMap" ∷ [])) r
      pure (ca_config_map_name ctx)

  module _ (size : Disk → ℕ) (v : VmStatus) (cert : String) (disks : List Disk) where
    unfoldable pub volume_options : ℕ → String → DataVolumeOptions
    unfolding disk_name find_storage_mapping image_download_url
    volume_options i image_uuid =
        let dest : StorageDestination = elim (get_elem? disks i) [
          | none ↦ default_destination
          | some d ↦ elim (find_storage_mapping d ctx.storage_map) [
            | none ↦ default_destination
            | some dest ↦ dest
          ]
        ] in
        record {
          name = disk_name ctx v i;
          namespace = ctx.plan.target_namespace;
          image_url = image_download_url ctx.transfer_mgr image_uuid;
          disk_size_bytes = elim (get_elem? disks i) [ none ↦ 0 | some d ↦ size d ];
          storage_class = dest.storage_class;
          volume_mode = dest.volume_mode;
          access_mode = dest.access_mode;
          secret_name = cred_secret_name ctx;
          cert_config_map = cert;
        }

    -- The loop over the images from index `i` on.
    unfoldable pub volumes_from : (label : String) → ℕ → List String → List String → Exec (Unit {0})
    unfolding create_data_volume
    volumes_from label i names [] = pure tt
    volumes_from label i names (image_uuid ∷ rest) =
        if ltb i (length names) then volumes_from label (i + 1) names rest else (do
          r ← create_data_volume env (volume_options i image_uuid)
          or_fail (concat (label ∷ "DataVolume " ∷ disk_name ctx v i ∷ [])) r
          modify (λ v. record v { data_volume_names = names ++ disk_name ctx v i ∷ [] })
          volumes_from label (i + 1) (names ++ disk_name ctx v i ∷ []) rest)

  -- `createDataVolumes`, and the same part of ImportDisks.
  unfoldable pub create_data_volumes :
      (creating label : String) → (size : Disk → ℕ) → List Disk → Exec (Unit {0})
  unfolding create_credentials volumes_from
  create_data_volumes creating label size disks = do
    cert ← create_credentials creating
    v ← get_vm_status
    volumes_from size v cert disks label 0 v.data_volume_names v.image_uuids

  module _ (polling label : String) where
    -- What one answer of a poll says: an error, or whether the import succeeded.
    unfoldable pub judge_poll : (name : String) → Reply DataVolumePhase → Exec Bool
    judge_poll name (Reply.err ApiError.not_found) = pure false
    judge_poll name (Reply.err e) = leave (failed (Error.wrap (concat (polling ∷ name ∷ [])) e))
    judge_poll name (Reply.ok DataVolumePhase.succeeded) = pure true
    judge_poll name (Reply.ok DataVolumePhase.failed) =
        leave (failed (Error.msg (concat (label ∷ "DataVolume " ∷ name ∷ " failed" ∷ []))))
    judge_poll name (Reply.ok DataVolumePhase.other) = pure false

    -- The loop over the names; the flag is `allSucceeded`.
    unfoldable pub poll_from : Bool → List String → Exec Bool
    unfolding judge_poll get_data_volume_progress
    poll_from all_succeeded [] = pure all_succeeded
    poll_from all_succeeded (name ∷ rest) = do
      r ← get_data_volume_progress env name ctx.plan.target_namespace
      one ← judge_poll name r
      poll_from (all_succeeded && one) rest

    unfoldable pub poll_data_volumes : Exec PhaseResult
    unfolding poll_from
    poll_data_volumes = do
      v ← get_vm_status
      all_succeeded ← poll_from true v.data_volume_names
      if all_succeeded then pure done else pure waiting

  -- The byte counters of the metrics at the end are left out.
  unfoldable pub phase_import_disks : Exec PhaseResult
  unfolding create_data_volumes poll_data_volumes filter_data_disks import_disk_size
  phase_import_disks = do
    vm ← get_source_vm env "ImportDisks: failed to get VM"
    create_data_volumes "ImportDisks: " "ImportDisks: " import_disk_size
        (filter_data_disks vm.disks)
    poll_data_volumes "ImportDisks: poll " "ImportDisks: "
