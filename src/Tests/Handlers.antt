-- ===== src/Tests/Handlers.antt =====
-- Concrete runs of the phase handlers and of the helpers of internal/transfer and internal/builder.
use nutanix_vma.Builder.Machine.{build, is_boot_disk}
use nutanix_vma.Builder.Machine.{bus_of}
use nutanix_vma.Builder.Machine.Devices.{Distinct, claims_from, boot_orders, build-devices}
use nutanix_vma.Prelude.{
  map, ℕ, ◌-◌, ◌+◌, ◌*◌, ◌≤◌, ◌<◌, true, none, some, List, [], ◌∷◌, ◌++◌, All, length, ◌≡◌, ◌↔◌,
  refl, arith, half_word,
}
use nutanix_vma.Api.{VmPhase, ChangedRegion, WarmStatus}
use nutanix_vma.Outside.{Call}
use nutanix_vma.Session.{Session, ok, done}
use nutanix_vma.Session.Keeps.{no_snapshot}
use nutanix_vma.Context.{filter_data_disks}
use nutanix_vma.Transfer.{gib, bytes_to_gi_quantity}
use nutanix_vma.Transfer.Sizes.{bytes_to_gi_quantity-fits}
use nutanix_vma.Builder.Sanitize.{base_name, chars}
use nutanix_vma.Builder.Sanitize.Label.{IsLabel, base_name-IsLabel}
use nutanix_vma.Phases.Delta.{collect_regions}
use nutanix_vma.Phases.Delta.Paging.{IsPaged, Advancing, collect_regions-all}
use nutanix_vma.Phases.Delta.Reuse.{phase_final_sync-reuses}
use nutanix_vma.Phases.Warm.{empty_warm, phase_final_sync}
use nutanix_vma.Phases.Disks.{phase_export_disks}
use nutanix_vma.Phases.Disks.Export.{Grown, phase_export_disks-Grown}
use nutanix_vma.Phases.Hooks.{run_hook}
use nutanix_vma.Phases.Frame.{few_attempts, run_hook-attempts}
use nutanix_vma.Phases.Volumes.{poll_data_volumes}
use nutanix_vma.Phases.Volumes.Poll.{AllSucceeded, poll_data_volumes-done}
use nutanix_vma.Tests.{source, ctx, env, vm_in, session_in}

abbrev half_synced : WarmStatus
half_synced = record empty_warm {
  base_snapshot_uuid = "base";
  delta_snapshot_uuid = "pc1";
  delta_image_uuids = "d" ∷ [];
}

abbrev warm_session : Session
warm_session = record {
  vm = record (vm_in VmPhase.final_sync) {
    warm = some half_synced;
    image_uuids = "a" ∷ "b" ∷ [];
    data_volume_names = "v" ∷ [];
  };
  calls = [];
}

abbrev region : ChangedRegion
region = record { offset = 0; length = 512 }

abbrev page : ℕ → Call
page i = Call.get_changed_regions "pe" "jwt" "vm-1" "pc1" "base" i 1024 65536

base_name-IsLabel_example : IsLabel (base_name (chars "My VM (2)"))
base_name-IsLabel_example = base_name-IsLabel (chars "My VM (2)")

phase_final_sync-reuses_example :
    (new : List Call) × ((phase_final_sync env ctx 5 warm_session).1.calls ≡ new ++ [])
    × All (λ c. no_snapshot c ≡ true) new
phase_final_sync-reuses_example =
    phase_final_sync-reuses env ctx warm_session half_synced 5 refl refl

run_hook-attempts_example :
    (new : List Call) × ((run_hook env ctx "PreHook" (session_in VmPhase.pre_hook)).1.calls
      ≡ new ++ [])
    × All (λ c. few_attempts c ≡ true) new
run_hook-attempts_example = run_hook-attempts env ctx "PreHook" (session_in VmPhase.pre_hook)

single_page : Advancing env page 0
single_page calls i = (record { regions = []; next_offset = none }, refl, λ next e. absurd cc)

collect_regions-all_example :
    (rest : List ChangedRegion) × IsPaged env page [] 0 rest
    × ((collect_regions env ctx "pc1" 1 page 0 [] (session_in VmPhase.precopy)).0 ≡ ok rest)
collect_regions-all_example =
    collect_regions-all env page ctx "pc1" 0 1 0 [] (session_in VmPhase.precopy) single_page
      (omega arith)

bytes_to_gi_quantity-fits_example :
    (5 + gib ≤ half_word
      → (1 ≤ bytes_to_gi_quantity 5)
        × (5 ≤ bytes_to_gi_quantity 5 * gib)
        × (1 < bytes_to_gi_quantity 5 → (bytes_to_gi_quantity 5 - 1) * gib < 5))
    × (half_word < 5 + gib → bytes_to_gi_quantity 5 ≡ 1)
bytes_to_gi_quantity-fits_example = bytes_to_gi_quantity-fits 5 (omega arith)

phase_export_disks-Grown_example :
    Grown env []
      (length (filter_data_disks source.disks))
      (phase_export_disks env ctx (session_in VmPhase.export_disks))
phase_export_disks-Grown_example =
    phase_export_disks-Grown env ctx (session_in VmPhase.export_disks) source refl

poll_data_volumes-done_example :
    ((poll_data_volumes env ctx "poll DV " "" warm_session).0 ≡ ok done)
    ↔ AllSucceeded env ctx ("v" ∷ []) []
poll_data_volumes-done_example = poll_data_volumes-done env ctx "poll DV " "" warm_session

build-devices_example :
    let m = build source [] "vms" ("pvc-0" ∷ []) in
    let data_disks = filter_data_disks source.disks in
    let n = length data_disks in
    (map (λ d. d.bus) m.disks ≡ map (λ d. bus_of d.disk_address) data_disks)
    × Distinct (map (λ d. d.name) m.disks)
    × (map (λ d. d.name) m.disks ≡ map (λ v. v.name) m.volumes)
    × (map (λ v. v.claim) m.volumes ≡ claims_from ("pvc-0" ∷ []) 0 n)
    × (map (λ d. d.boot_order) m.disks ≡ boot_orders (is_boot_disk source.boot_config) n)
build-devices_example = build-devices source [] "vms" ("pvc-0" ∷ [])
