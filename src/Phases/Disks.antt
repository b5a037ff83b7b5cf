-- ===== src/Phases/Disks.antt =====
-- The phases CreateSnapshot and ExportDisks of internal/controller/migration_controller.go, and the loop
-- that exports disks, which BulkCopy and the delta rounds run too.
pub mod Export
use nutanix_vma.Prelude.{
  ℕ, ◌+◌, ltb, leb, length, String, List, [], ◌∷◌, ◌++◌, not, none, some, is_empty, if◌then◌else◌,
  concat, decimal,
}
use nutanix_vma.Api.{Disk, Vm, VmStatus}
use nutanix_vma.Outside.{Call, Env}
use nutanix_vma.Session.{
  PhaseResult, Exec, done, ◌>>=◌, ◌>>◌, pure, get_vm_status, modify, ask, or_fail,
}
use nutanix_vma.Context.{Context, short_id, filter_data_disks, get_disk_uuid}

-- The empty text without a cluster.
abbrev pub cluster_ref : Vm → String
cluster_ref vm = elim vm.cluster [ none ↦ "" | some r ↦ r.ext_id ]

module _ (env : Env) where
  abbrev pub get_source_vm : String → Exec Vm
  get_source_vm label = do
    v ← get_vm_status
    r ← ask (Call.get_vm v.id) (λ calls. env.vm calls v.id)
    or_fail label r

  abbrev pub create_recovery_point : String → String → Exec String
  create_recovery_point label name = do
    v ← get_vm_status
    r ← ask (Call.create_recovery_point v.id name) (λ calls. env.new_recovery_point calls v.id name)
    or_fail label r

  -- The loop over the disks from index `i` on. `save` writes the list of images to the status after each
  -- export, so that a failure loses none.
  module _ (save : List String → VmStatus → VmStatus) (name label : ℕ → String)
      (cluster : String) where
    unfoldable pub export_from : ℕ → List String → List Disk → Exec (Unit {0})
    export_from i images [] = pure tt
    export_from i images (disk ∷ rest) =
        if ltb i (length images) then export_from (i + 1) images rest else (do
          r ←
              ask (Call.create_image_from_disk (name i) (get_disk_uuid disk) cluster)
                (λ calls. env.new_image calls (name i) (get_disk_uuid disk) cluster)
          uuid ← or_fail (label i) r
          modify (save (images ++ uuid ∷ []))
          export_from (i + 1) (images ++ uuid ∷ []) rest)

module _ (ctx : Context) where
  -- "vma-%s-%s"
  unfoldable pub snapshot_name : VmStatus → String
  unfolding short_id
  snapshot_name v = concat ("vma-" ∷ ctx.migration_name ∷ "-" ∷ short_id v.id ∷ [])

  -- "vma-%s-%s-disk-%d"
  unfoldable pub disk_name : VmStatus → ℕ → String
  unfolding short_id decimal
  disk_name v i =
      concat ("vma-" ∷ ctx.migration_name ∷ "-" ∷ short_id v.id ∷ "-disk-" ∷ decimal i ∷ [])

abbrev pub save_images : List String → VmStatus → VmStatus
save_images images v = record v { image_uuids = images }

module _ (env : Env) (ctx : Context) where
  unfoldable pub phase_create_snapshot : Exec PhaseResult
  phase_create_snapshot = do
    v ← get_vm_status
    if not (is_empty v.snapshot_uuid) then pure done else do
      uuid ← create_recovery_point env "CreateSnapshot" (snapshot_name ctx v)
      modify (λ v. record v { snapshot_uuid = uuid })
      pure done

  -- The disks that ExportDisks and BulkCopy export into `ImageUUIDs`.
  unfoldable pub export_disks : (label : ℕ → String) → Vm → List Disk → Exec (Unit {0})
  unfolding export_from
  export_disks label vm disks = do
    v ← get_vm_status
    export_from env save_images (disk_name ctx v) label (cluster_ref vm) 0 v.image_uuids disks

  unfoldable pub phase_export_disks : Exec PhaseResult
  unfolding export_disks filter_data_disks
  phase_export_disks = do
    vm ← get_source_vm env "ExportDisks: failed to get VM"
    v ← get_vm_status
    let disks = filter_data_disks vm.disks
    if leb (length disks) (length v.image_uuids) then pure done else do
      export_disks (λ i. concat ("ExportDisks: disk " ∷ decimal i ∷ [])) vm disks
      pure done
