-- ===== src/Tests/Mocks.antt =====
-- The results on the mock server and on the delta script, at concrete inputs.
use nutanix_vma.Prelude.{
  ◌&&◌, ◌⊎◌, String, ℕ, Bool, true, false, ltb, some, List, [], ◌∷◌, ◌++◌, ◌≡◌, refl, arith, codes,
  if◌then◌else◌, leb,
}
use nutanix_vma.Api.{VmPhase, ChangedRegion}
use nutanix_vma.Outside.{Reply, Call, Env}
use nutanix_vma.Session.{ok}
use nutanix_vma.Phases.Delta.{collect_regions}
use nutanix_vma.Transfer.{Manager, regions_to_text}
use nutanix_vma.Transfer.Objects.{DeltaPodOptions, credential_secret, build_delta_pod}
use nutanix_vma.Transfer.Objects.Wired.{Wired, config_file, build_delta_pod-synced}
use nutanix_vma.Transfer.Script.{Chunk, delta_script, range_header}
use nutanix_vma.Transfer.Script.Regions.{copy_regions, delta_script-but_last}
use nutanix_vma.Transfer.Script.Synced.{Disk, disk_after, copied, covers}
use nutanix_vma.Mock.Range.{parse_range_header}
use nutanix_vma.Mock.Range.Bounds.{parse_range_header-range_header}
use nutanix_vma.Mock.Cbt.{regions_page}
use nutanix_vma.Mock.Cbt.Pages.{collect_regions-mock}
use nutanix_vma.Tests.{env, ctx, session_in}

-- `DefaultCBTConfig`, and one region more than a page holds.
abbrev regions : List ChangedRegion
regions =
    record { offset = 0; length = 65536 }
    ∷ record { offset = 1048576; length = 131072 }
    ∷ record { offset = 4194304; length = 65536 }
    ∷ record { offset = 8388608; length = 65536 }
    ∷ []

abbrev last_region : ChangedRegion
last_region = record { offset = 16777216; length = 65536 }

delta_script-but_last_example :
    (delta_script (λ c. true) (codes (regions_to_text (regions ++ last_region ∷ [])))
      ≡ copy_regions (λ c. true) regions)
    × (delta_script
          (λ c. true)
          (codes (regions_to_text (regions ++ last_region ∷ [])) ++ b'\n' ∷ [])
        ≡ copy_regions (λ c. true) (regions ++ last_region ∷ []))
delta_script-but_last_example = delta_script-but_last (λ c. true) regions last_region (omega arith)

-- An image of ones, over a disk of zeros.
abbrev ones : Disk
ones p = 1

abbrev zeroed : Disk
zeroed p = 0

abbrev write : Chunk → Disk → Disk
write c disk p = if leb c.offset p && leb p c.last then ones p else disk p

abbrev manager : Manager
manager = record { prism_url = "https://pc"; username = "admin"; password = "secret"; ca_cert = "" }

abbrev delta_options : DeltaPodOptions
delta_options = record {
  name = "vm-1-delta";
  namespace = "vms";
  pvc_name = "vm-1-disk-0";
  image_url = "https://pc/api/vmm/v4.0/images/img-1/file";
  secret_name = "mig-creds";
  regions = regions ++ last_region ∷ [];
  owner = record { api_version = "v1alpha1"; kind = "Migration"; name = "mig"; uid = "u-1" };
}

-- The first copy succeeds, and no other.
abbrev copies_first : Chunk → Bool
copies_first c = ltb c.offset 65536

build_delta_pod-synced_example :
    let (pod, config_map) = build_delta_pod delta_options in
    let secret = credential_secret manager "mig-creds" "vms" delta_options.owner in
    Wired secret config_map pod manager delta_options
    × (text : String) × (config_file config_map pod "/config" "regions.txt" ≡ some text)
    × (disk_after write (delta_script copies_first (codes text)).written zeroed 5
        ≡ (if covers (copied copies_first regions) 5 then 1 else 0))
    × (let ended = delta_script copies_first (codes text ++ b'\n' ∷ []) in
        (ended.finished ≡ false) ⊎ (disk_after write ended.written zeroed 5 ≡ 1))
build_delta_pod-synced_example =
    build_delta_pod-synced manager delta_options ones write copies_first regions last_region zeroed
      5 refl (λ c disk p done. refl) (omega arith) (λ out. cc out)

abbrev chunk_at : Chunk
chunk_at = record { offset = 65536; last = 131071 }

parse_range_header-range_header_example :
    parse_range_header (range_header chunk_at) 100000
    ≡ some (65536, if leb 100000 131071 then 99999 else 131071)
parse_range_header-range_header_example =
    parse_range_header-range_header 100000 chunk_at (omega arith) (omega arith) (omega arith)

abbrev page : ℕ → Call
page i = Call.get_changed_regions "u" "t" "vm-1" "s" "b" i 0 65536

abbrev offset_of : Call → ℕ
offset_of (Call.get_changed_regions url jwt vm snapshot base offset length block_size) = offset
offset_of _ = 0

abbrev mocked : Env
mocked = record env { changed_regions = λ calls c. Reply.ok (regions_page (offset_of c) regions) }

collect_regions-mock_example :
    (collect_regions mocked ctx "pc1" 5 page 0 [] (session_in VmPhase.precopy)).0 ≡ ok regions
collect_regions-mock_example =
    collect_regions-mock mocked page ctx "pc1" regions 5 [] (session_in VmPhase.precopy)
      (λ calls offset. refl) (omega arith)
