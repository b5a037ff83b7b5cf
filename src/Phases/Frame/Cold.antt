-- ===== src/Phases/Frame/Cold.antt =====
-- The handlers of a cold migration, and the clean-up, against the frame.
use nutanix_vma.Prelude.{ℕ, String, Bool, Option, none, some, List, [], ◌∷◌}
use nutanix_vma.Api.{ApiError, Disk, VmStatus, WarmStatus, Vm}
use nutanix_vma.Outside.{Reply, DataVolumePhase, Env}
use nutanix_vma.Session.Keeps.{Keeps, any_call, no_snapshot, Keeps-any, Keeps-bind, keeps_rules}
use nutanix_vma.Context.{Context}
use nutanix_vma.Transfer.{
  create_credential_secret, create_ca_config_map, create_data_volume, get_data_volume_progress,
  delete_credential_secret, delete_ca_config_map, Manager,
}
use nutanix_vma.Outside.{DataVolumeOptions}
use nutanix_vma.Phases.Power.{phase_store_power_state, phase_power_off, phase_wait_for_power_off}
use nutanix_vma.Phases.Disks.{
  export_from, phase_create_snapshot, export_disks, phase_export_disks, save_images,
}
use nutanix_vma.Phases.Volumes.{
  create_credentials, volumes_from, create_data_volumes, judge_poll, poll_from, poll_data_volumes,
  phase_import_disks,
}
use nutanix_vma.Phases.Kubevirt.{phase_create_vm, phase_start_vm}
use nutanix_vma.Phases.Cleanup.{
  delete_images, delete_snapshot, delete_volumes, delete_pod, delete_config_map, delete_delta_pod,
  phase_cleanup, cleanup_warm, restore_power, cleanup_failed_vm,
}

module _ (env : Env) where
  pub phase_store_power_state-Keeps : Keeps any_call (phase_store_power_state env)
  unfolding phase_store_power_state
  phase_store_power_state-Keeps = search keeps_rules depth 20

  pub phase_power_off-Keeps : Keeps any_call (phase_power_off env)
  unfolding phase_power_off
  phase_power_off-Keeps = search keeps_rules depth 20

  pub phase_wait_for_power_off-Keeps : Keeps any_call (phase_wait_for_power_off env)
  unfolding phase_wait_for_power_off
  phase_wait_for_power_off-Keeps = search keeps_rules depth 20

  module _ (name label : ℕ → String) (cluster : String) where
    export_images-Keeps :
        (disks : List Disk) (i : ℕ) (images : List String)
        → Keeps any_call (export_from env save_images name label cluster i images disks)
    unfolding export_from
    export_images-Keeps [] i images = search keeps_rules depth 20
    export_images-Keeps (d ∷ ds) i images = search (keeps_rules, export_images-Keeps ds) depth 20

  pub delete_images-Keeps : (uuids : List String) → Keeps no_snapshot (delete_images env uuids)
  unfolding delete_images
  delete_images-Keeps [] = search keeps_rules
  delete_images-Keeps (u ∷ us) = Keeps-bind _ _ (search keeps_rules) (λ _. delete_images-Keeps us)

  pub delete_snapshot-Keeps : (uuid : String) → Keeps no_snapshot (delete_snapshot env uuid)
  unfolding delete_snapshot
  delete_snapshot-Keeps uuid = search keeps_rules

  delete_images-any : (uuids : List String) → Keeps any_call (delete_images env uuids)
  delete_images-any us = Keeps-any _ (delete_images-Keeps us)

  delete_snapshot-any : (uuid : String) → Keeps any_call (delete_snapshot env uuid)
  delete_snapshot-any u = Keeps-any _ (delete_snapshot-Keeps u)

module _ (env : Env) (m : Manager) where
  create_credential_secret-Keeps :
      (n ns : String) → Keeps any_call (create_credential_secret env m n ns)
  unfolding create_credential_secret
  create_credential_secret-Keeps n ns = search keeps_rules

  create_ca_config_map-Keeps : (n ns : String) → Keeps any_call (create_ca_config_map env m n ns)
  unfolding create_ca_config_map
  create_ca_config_map-Keeps n ns = search keeps_rules depth 20

module _ (env : Env) where
  create_data_volume-Keeps : (o : DataVolumeOptions) → Keeps any_call (create_data_volume env o)
  unfolding create_data_volume
  create_data_volume-Keeps o = search keeps_rules

  get_data_volume_progress-Keeps :
      (n ns : String) → Keeps any_call (get_data_volume_progress env n ns)
  unfolding get_data_volume_progress
  get_data_volume_progress-Keeps n ns = search keeps_rules

  delete_credential_secret-Keeps :
      (n ns : String) → Keeps any_call (delete_credential_secret env n ns)
  unfolding delete_credential_secret
  delete_credential_secret-Keeps n ns = search keeps_rules

  delete_ca_config_map-Keeps : (n ns : String) → Keeps any_call (delete_ca_config_map env n ns)
  unfolding delete_ca_config_map
  delete_ca_config_map-Keeps n ns = search keeps_rules

module _ (env : Env) (ctx : Context) where
  pub phase_create_snapshot-Keeps : Keeps any_call (phase_create_snapshot env ctx)
  unfolding phase_create_snapshot
  phase_create_snapshot-Keeps = search keeps_rules depth 20

  pub export_disks-Keeps :
      (label : ℕ → String) (vm : Vm) (disks : List Disk)
      → Keeps any_call (export_disks env ctx label vm disks)
  unfolding export_disks
  export_disks-Keeps label vm disks = search (keeps_rules, export_images-Keeps) depth 20

  pub phase_export_disks-Keeps : Keeps any_call (phase_export_disks env ctx)
  unfolding phase_export_disks
  phase_export_disks-Keeps = search (keeps_rules, export_disks-Keeps) depth 20

  create_credentials-Keeps : (label : String) → Keeps any_call (create_credentials env ctx label)
  unfolding create_credentials
  create_credentials-Keeps label =
      search (keeps_rules, create_credential_secret-Keeps, create_ca_config_map-Keeps) depth 20

  module _ (size : Disk → ℕ) (v : VmStatus) (cert : String) (disks : List Disk) where
    volumes_from-Keeps :
        (label : String) (images : List String) (i : ℕ) (names : List String)
        → Keeps any_call (volumes_from env ctx size v cert disks label i names images)
    unfolding volumes_from
    volumes_from-Keeps label [] i names = search keeps_rules
    volumes_from-Keeps label (u ∷ us) i names =
        search (keeps_rules, create_data_volume-Keeps, volumes_from-Keeps label us) depth 20

  pub create_data_volumes-Keeps :
      (creating label : String) (size : Disk → ℕ) (disks : List Disk)
      → Keeps any_call (create_data_volumes env ctx creating label size disks)
  unfolding create_data_volumes
  create_data_volumes-Keeps creating label size disks =
      search (keeps_rules, create_credentials-Keeps, volumes_from-Keeps) depth 20

  module _ (polling label : String) where
    judge_poll-Keeps :
        (name : String) (r : Reply DataVolumePhase)
        → Keeps any_call (judge_poll env ctx polling label name r)
    unfolding judge_poll
    judge_poll-Keeps name (Reply.err ApiError.not_found) = search keeps_rules
    judge_poll-Keeps name (Reply.err _) = search keeps_rules
    judge_poll-Keeps name (Reply.ok DataVolumePhase.succeeded) = search keeps_rules
    judge_poll-Keeps name (Reply.ok _) = search keeps_rules

    poll_from-Keeps :
        (names : List String) (all_succeeded : Bool)
        → Keeps any_call (poll_from env ctx polling label all_succeeded names)
    unfolding poll_from
    poll_from-Keeps [] b = search keeps_rules
    poll_from-Keeps (n ∷ ns) b = search (keeps_rules, judge_poll-Keeps, poll_from-Keeps ns) depth 20

    pub poll_data_volumes-Keeps : Keeps any_call (poll_data_volumes env ctx polling label)
    unfolding poll_data_volumes
    poll_data_volumes-Keeps = search (keeps_rules, poll_from-Keeps) depth 20

  pub phase_import_disks-Keeps : Keeps any_call (phase_import_disks env ctx)
  unfolding phase_import_disks
  phase_import_disks-Keeps =
      search (keeps_rules, create_data_volumes-Keeps, poll_data_volumes-Keeps) depth 20

  pub phase_create_vm-Keeps : Keeps any_call (phase_create_vm env ctx)
  unfolding phase_create_vm
  phase_create_vm-Keeps = search keeps_rules depth 20

  pub phase_start_vm-Keeps : Keeps any_call (phase_start_vm env ctx)
  unfolding phase_start_vm
  phase_start_vm-Keeps = search keeps_rules depth 30

  pub delete_delta_pod-Keeps : (name : String) → Keeps no_snapshot (delete_delta_pod env ctx name)
  unfolding delete_delta_pod delete_pod delete_config_map
  delete_delta_pod-Keeps name = search keeps_rules depth 20

  delete_delta_pod-any : (name : String) → Keeps any_call (delete_delta_pod env ctx name)
  delete_delta_pod-any n = Keeps-any _ (delete_delta_pod-Keeps n)

  delete_volumes-Keeps : (names : List String) → Keeps any_call (delete_volumes env ctx names)
  unfolding delete_volumes
  delete_volumes-Keeps [] = search keeps_rules
  delete_volumes-Keeps (n ∷ ns) = Keeps-bind _ _ (search keeps_rules) (λ _. delete_volumes-Keeps ns)

  pub phase_cleanup-Keeps : Keeps any_call (phase_cleanup env ctx)
  unfolding phase_cleanup
  phase_cleanup-Keeps =
      search
        (
          keeps_rules, delete_images-any, delete_snapshot-any, delete_credential_secret-Keeps,
          delete_ca_config_map-Keeps,
        )
        depth 20

  cleanup_warm-Keeps : (w : Option WarmStatus) → Keeps any_call (cleanup_warm env ctx w)
  unfolding cleanup_warm
  cleanup_warm-Keeps none = search keeps_rules
  cleanup_warm-Keeps (some w) =
      search (keeps_rules, delete_images-any, delete_snapshot-any, delete_delta_pod-any) depth 20

  restore_power-Keeps : (v : VmStatus) → Keeps any_call (restore_power env ctx v)
  unfolding restore_power
  restore_power-Keeps v = search keeps_rules depth 20

  pub cleanup_failed_vm-Keeps : Keeps any_call (cleanup_failed_vm env ctx)
  unfolding cleanup_failed_vm
  cleanup_failed_vm-Keeps =
      search
        (
          keeps_rules, delete_volumes-Keeps, delete_images-any, delete_snapshot-any,
          restore_power-Keeps, cleanup_warm-Keeps,
        )
        depth 20
