-- ===== src/Phases/Cleanup/Calls.antt =====
-- The calls of the clean-up after a failure.
use nutanix_vma.Prelude.{
  String, Option, none, some, List, [], ◌∷◌, ◌++◌, map, ◌≡◌, is_empty, if◌then◌else◌, concat,
}
use nutanix_vma.Api.{VmStatus, WarmStatus}
use nutanix_vma.Outside.{Kind, Call, Env}
use nutanix_vma.Session.{Session, ok, pure, ◌>>=◌}
use nutanix_vma.Session.Makes.{log, Makes, Makes-pure, Makes-ask, Makes-then, Makes-if}
use nutanix_vma.Context.{Context, target_key}
use nutanix_vma.Phases.Power.{is_on}
use nutanix_vma.Phases.Cleanup.{
  delete_images, delete_snapshot, delete_volumes, delete_pod, delete_config_map, delete_delta_pod,
  cleanup_warm, restore_power, cleanup_failed_vm,
}

abbrev pub snapshot_calls : String → List Call
snapshot_calls uuid = if is_empty uuid then [] else Call.delete_recovery_point uuid ∷ []

abbrev pub delta_pod_calls : Context → String → List Call
delta_pod_calls ctx name =
    if is_empty name
    then []
    else Call.delete (target_key ctx Kind.pod name)
      ∷ Call.delete (target_key ctx Kind.config_map (concat (name ∷ "-regions" ∷ [])))
      ∷ []

abbrev pub warm_calls : Context → Option WarmStatus → List Call
warm_calls ctx none = []
warm_calls ctx (some w) =
    delta_pod_calls ctx w.delta_pod_name
    ++ (map Call.delete_image w.delta_image_uuids
        ++ (snapshot_calls w.delta_snapshot_uuid
            ++ (map Call.delete_image w.base_image_uuids ++ snapshot_calls w.base_snapshot_uuid)))

-- What undoes the migration of a VM, in order: everything that its status records is deleted, and its power
-- restored.
abbrev pub undo_calls : Context → VmStatus → List Call
undo_calls ctx v =
    map (λ n. Call.delete (target_key ctx Kind.data_volume n)) v.data_volume_names
    ++ (map Call.delete_image v.image_uuids
        ++ (snapshot_calls v.snapshot_uuid
            ++ ((if is_on v.original_power_state then Call.power_on_vm v.id ∷ [] else [])
                ++ warm_calls ctx v.warm)))

module _ (env : Env) (ctx : Context) where
  delete_images-Makes : (us : List String) → Makes (delete_images env us) (map Call.delete_image us)
  unfolding delete_images
  delete_images-Makes [] = Makes-pure
  delete_images-Makes (u ∷ us) = Makes-ask _ _ _ _ (delete_images-Makes us)

  delete_snapshot-Makes : (u : String) → Makes (delete_snapshot env u) (snapshot_calls u)
  unfolding delete_snapshot
  delete_snapshot-Makes u = Makes-if (is_empty u) _ _ _ _ Makes-pure (Makes-ask _ _ _ _ Makes-pure)

  delete_volumes-Makes :
      (ns : List String)
      → Makes
          (delete_volumes env ctx ns)
          (map (λ n. Call.delete (target_key ctx Kind.data_volume n)) ns)
  unfolding delete_volumes
  delete_volumes-Makes [] = Makes-pure
  delete_volumes-Makes (n ∷ ns) = Makes-ask _ _ _ _ (delete_volumes-Makes ns)

  delta_pod-Makes :
      (name : String)
      → Makes
          (if is_empty name then pure tt else delete_delta_pod env ctx name)
          (delta_pod_calls ctx name)
  unfolding delete_delta_pod delete_pod delete_config_map
  delta_pod-Makes name =
      Makes-if (is_empty name) _ _ _ _ Makes-pure
        (Makes-then _ _ _ _ (Makes-ask _ _ _ _ Makes-pure) (Makes-ask _ _ _ _ Makes-pure))

  restore_power-Makes :
      (v : VmStatus)
      → Makes
          (restore_power env ctx v)
          (if is_on v.original_power_state then Call.power_on_vm v.id ∷ [] else [])
  unfolding restore_power
  restore_power-Makes v =
      Makes-if (is_on v.original_power_state) _ _ _ _ (Makes-ask _ _ _ _ Makes-pure) Makes-pure

  cleanup_warm-Makes : (w : Option WarmStatus) → Makes (cleanup_warm env ctx w) (warm_calls ctx w)
  unfolding cleanup_warm
  cleanup_warm-Makes none = Makes-pure
  cleanup_warm-Makes (some w) = Makes-then _ _ _ _ (delta_pod-Makes w.delta_pod_name) (
      Makes-then _ _ _ _ (delete_images-Makes w.delta_image_uuids) (
        Makes-then _ _ _ _ (delete_snapshot-Makes w.delta_snapshot_uuid) (
          Makes-then _ _ _ _ (delete_images-Makes w.base_image_uuids)
            (delete_snapshot-Makes w.base_snapshot_uuid))))

  pub cleanup_failed_vm-undoes :
      (s : Session)
      → cleanup_failed_vm env ctx s
        ≡ (ok tt, record s { calls = log (undo_calls ctx s.vm) s.calls })
  unfolding cleanup_failed_vm ◌>>=◌
  cleanup_failed_vm-undoes s =
      (Makes-then _ _ _ _ (delete_volumes-Makes s.vm.data_volume_names) (
          Makes-then _ _ _ _ (delete_images-Makes s.vm.image_uuids) (
            Makes-then _ _ _ _ (delete_snapshot-Makes s.vm.snapshot_uuid)
              (Makes-then _ _ _ _ (restore_power-Makes s.vm) (cleanup_warm-Makes s.vm.warm))))).at
        s
