-- ===== src/Transfer.antt =====
-- internal/transfer: credential secrets, CA ConfigMaps, DataVolumes (manager.go, datavolume.go) and the
-- regions of a delta transfer (delta.go).
pub mod Sizes
pub mod Mapping
pub mod Script
pub mod Objects
use nutanix_vma.Prelude.{
  ℕ, ◌-◌, ◌*◌, max, String, Bool, not, ◌&&◌, ◌||◌, Option, none, some, List, [], ◌∷◌, ◌==◌, str_eq,
  is_empty, if◌then◌else◌, add64, div64, is_pos64, word, concat, decimal64, trim_slashes,
}
use nutanix_vma.Api.{ApiError, ChangedRegion, Disk, Reference, StorageDestination, StoragePair}
use nutanix_vma.Outside.{Reply, DataVolumePhase, DataVolumeOptions, Kind, Key, Object, Call, Env}
use nutanix_vma.Session.{Exec, ask, pure, ◌>>=◌}

pub record Manager : Type 0 where
  pub prism_url : String
  pub username : String
  pub password : String
  pub ca_cert : String

-- `apierrors.IsAlreadyExists(err)` gives nil.
unfoldable pub forgive_exists : Reply (Unit {0}) → Reply (Unit {0})
forgive_exists (Reply.err ApiError.already_exists) = Reply.ok tt
forgive_exists r = r

-- `apierrors.IsNotFound(err)` gives nil.
unfoldable pub forgive_missing : Reply (Unit {0}) → Reply (Unit {0})
forgive_missing (Reply.err ApiError.not_found) = Reply.ok tt
forgive_missing r = r

unfoldable pub image_download_url : Manager → String → String
unfolding trim_slashes
image_download_url m image_uuid =
    concat (trim_slashes m.prism_url ∷ "/api/vmm/v4.0/images/" ∷ image_uuid ∷ "/file" ∷ [])

abbrev pub gib : ℕ
gib = 1024 * 1024 * 1024

abbrev pub max_int : ℕ → ℕ → ℕ
max_int a b = if is_pos64 a then max a b else b

-- The number of Gi that `bytesToGiQuantity` prints.
unfoldable pub bytes_to_gi_quantity : ℕ → ℕ
bytes_to_gi_quantity bytes =
    let gibs = div64 (add64 (add64 bytes gib) (word - 1)) gib in max_int gibs 1

unfoldable pub matches_source : Reference → StoragePair → Bool
matches_source ref pair =
    not (is_empty pair.source.ext_id) && str_eq pair.source.ext_id ref.ext_id
    || not (is_empty pair.source.name) && str_eq pair.source.name ref.name

-- The loop of `FindStorageMapping` over the pairs.
unfoldable pub find_pair : Reference → List StoragePair → Option StorageDestination
unfolding matches_source
find_pair ref [] = none
find_pair ref (pair ∷ rest) =
    if matches_source ref pair then some pair.destination else find_pair ref rest

abbrev pub storage_ref : Disk → Option Reference
storage_ref disk = elim disk.backing_info [ none ↦ none | some b ↦ b.storage_container_ref ]

-- Without a container nothing is looked up.
unfoldable pub find_for : Option Reference → List StoragePair → Option StorageDestination
unfolding find_pair
find_for none storage_map = none
find_for (some ref) storage_map = find_pair ref storage_map

unfoldable pub find_storage_mapping : Disk → List StoragePair → Option StorageDestination
unfolding find_for
find_storage_mapping disk storage_map = find_for (storage_ref disk) storage_map

-- The loop of `DeltaBytes`, over the total.
unfoldable pub add_lengths : ℕ → List ChangedRegion → ℕ
add_lengths total [] = total
add_lengths total (r ∷ rest) = add_lengths (add64 total r.length) rest

unfoldable pub delta_bytes : List ChangedRegion → ℕ
unfolding add_lengths
delta_bytes regions = add_lengths 0 regions

unfoldable pub region_line : ChangedRegion → String
region_line r = concat (decimal64 r.offset ∷ ":" ∷ decimal64 r.length ∷ [])

-- `strings.Join` of the lines.
unfoldable pub regions_to_text : List ChangedRegion → String
unfolding region_line
regions_to_text [] = ""
regions_to_text (r ∷ []) = region_line r
regions_to_text (r ∷ s ∷ rest) = concat (region_line r ∷ "\n" ∷ regions_to_text (s ∷ rest) ∷ [])

abbrev pub cbt_block_size : ℕ
cbt_block_size = 65536

module _ (env : Env) where
  abbrev pub create : Object → Exec (Reply (Unit {0}))
  create o = ask (Call.create o) (λ calls. env.created calls o)

  abbrev pub delete : Key → Exec (Reply (Unit {0}))
  delete k = ask (Call.delete k) (λ calls. env.deleted calls k)

module _ (env : Env) (m : Manager) where
  unfoldable pub create_credential_secret : String → String → Exec (Reply (Unit {0}))
  unfolding forgive_exists
  create_credential_secret name namespace = do
    r ← create env (Object.secret namespace name m.username m.password)
    pure (forgive_exists r)

  unfoldable pub create_ca_config_map : String → String → Exec (Reply (Unit {0}))
  unfolding forgive_exists
  create_ca_config_map name namespace = if is_empty m.ca_cert then pure (Reply.ok tt) else (do
    r ← create env (Object.ca_config_map namespace name m.ca_cert)
    pure (forgive_exists r))

module _ (env : Env) where
  unfoldable pub create_data_volume : DataVolumeOptions → Exec (Reply (Unit {0}))
  unfolding forgive_exists bytes_to_gi_quantity
  create_data_volume opts = do
    r ← create env (Object.data_volume opts (bytes_to_gi_quantity opts.disk_size_bytes))
    pure (forgive_exists r)

  unfoldable pub get_data_volume_progress : String → String → Exec (Reply DataVolumePhase)
  get_data_volume_progress name namespace =
      let k : Key = record { kind = Kind.data_volume; namespace = namespace; name = name } in
      ask (Call.get k) (λ calls. env.data_volume calls k)

  unfoldable pub delete_credential_secret : String → String → Exec (Reply (Unit {0}))
  unfolding forgive_missing
  delete_credential_secret name namespace = do
    r ← delete env (record { kind = Kind.secret; namespace = namespace; name = name })
    pure (forgive_missing r)

  unfoldable pub delete_ca_config_map : String → String → Exec (Reply (Unit {0}))
  unfolding forgive_missing
  delete_ca_config_map name namespace = do
    r ← delete env (record { kind = Kind.config_map; namespace = namespace; name = name })
    pure (forgive_missing r)
