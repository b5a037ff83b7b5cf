-- ===== src/Context.antt =====
-- `migrationContext` of internal/controller/migration_controller.go, and the helpers on names and disks.
use Prim.Native.Char.{code}
use Prim.Native.String
use nutanix_vma.Prelude.{
  ℕ, ◌-◌, ltb, leb, String, Bool, true, false, ◌&&◌, Option, none, some, List, [], ◌∷◌, ◌==◌,
  is_empty, if◌then◌else◌, concat, is_pos64,
}
use nutanix_vma.Api.{Disk, MigrationPlan, NetworkPair, StoragePair}
use nutanix_vma.Outside.{Kind, Key}
use nutanix_vma.Transfer.{Manager}

-- The fields that the phases read of the objects which `migrationContext` holds.
pub record Context : Type 0 where
  pub plan : MigrationPlan
  pub migration_name : String
  pub cutover : Option ℕ
  pub migration_namespace : String
  pub network_map : List NetworkPair
  pub storage_map : List StoragePair
  pub transfer_mgr : Manager

abbrev pub target_key : Context → Kind → String → Key
target_key ctx kind name = record {
  kind = kind;
  namespace = ctx.plan.target_namespace;
  name = name;
}

-- The first 8 bytes of an ID.
unfoldable pub short_id : String → String
short_id id = if ltb 8 (String.len id) then String.slice id 0 8 else id

-- `unicode.ToUpper`, on the characters whose upper case is in ASCII: the small letters, and two others.
abbrev upper : ℕ → ℕ
upper c =
    if leb b'a' c && leb c b'z'
    then c - 32
    else if c == 0x131
    then b'I'
    else if c == 0x17f
    then b'S'
    else c

-- `strings.ToUpper(s) == t`, for a text `t` in ASCII.
pub same_upper : String → String → Bool
same_upper String.[] String.[] = true
same_upper (String.◌∷◌ c s) (String.◌∷◌ d t) = upper (code c) == code d && same_upper s t
same_upper _ _ = false

unfoldable pub is_cdrom : Disk → Bool
unfolding same_upper
is_cdrom d = same_upper d.device_type "CDROM"

unfoldable pub filter_data_disks : List Disk → List Disk
unfolding is_cdrom
filter_data_disks [] = []
filter_data_disks (d ∷ ds) =
    let rest = filter_data_disks ds in if is_cdrom d then rest else d ∷ rest

unfoldable pub get_disk_uuid : Disk → String
get_disk_uuid disk = elim disk.backing_info [
  | none ↦ disk.ext_id
  | some b ↦ if is_empty b.vm_disk_uuid then disk.ext_id else b.vm_disk_uuid
]

unfoldable pub get_disk_size : Disk → ℕ
get_disk_size disk =
    if is_pos64 disk.disk_size_bytes
    then disk.disk_size_bytes
    else elim disk.backing_info [ none ↦ 0 | some b ↦ b.disk_size_bytes ]

unfoldable pub cred_secret_name : Context → String
unfolding short_id
cred_secret_name ctx = concat ("vma-" ∷ short_id ctx.migration_name ∷ "-creds" ∷ [])

unfoldable pub ca_config_map_name : Context → String
unfolding short_id
ca_config_map_name ctx = concat ("vma-" ∷ short_id ctx.migration_name ∷ "-ca" ∷ [])
