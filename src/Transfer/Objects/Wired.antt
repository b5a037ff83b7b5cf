-- ===== src/Transfer/Objects/Wired.antt =====
-- The delta Pod with the objects that it refers to.
use Prim.Native.String
use nutanix_vma.Prelude.{
  ℕ, String, Bool, false, ◌&&◌, Option, none, some, List, [], ◌∷◌, ◌++◌, ◌≡◌, refl, ap, ◌∙◌, ◌⊎◌,
  str_eq, eq_iff, codes, All, if◌then◌else◌,
}
use nutanix_vma.Api.{ChangedRegion}
use nutanix_vma.Transfer.{Manager, regions_to_text}
use nutanix_vma.Transfer.Script.{Chunk, delta_script}
use nutanix_vma.Transfer.Script.Synced.{
  Disk, Copies, Proper, copied, covers, disk_after, delta_script-synced,
}
use nutanix_vma.Transfer.Objects.{
  KeyedObject, EnvSource, VolumeMount, VolumeSource, Pod, DeltaPodOptions, credential_secret,
  delta_script_text, build_delta_pod,
}

unfoldable entry {ℓ} : {A : Type ℓ} → String → List (String × A) → Option A
entry k [] = none
entry k ((j, v) ∷ rest) = let later = entry k rest in if str_eq j k then some v else later

-- An object is found by its name in the Pod's namespace.
abbrev names : KeyedObject → (namespace name : String) → Bool
names o namespace name = str_eq o.meta.namespace namespace && str_eq o.meta.name name

-- The value of a variable of the Pod's container, where the cluster has the Secret.
unfoldable pub env_value : (secret : KeyedObject) → Pod → (name : String) → Option String
unfolding entry
env_value secret pod name = elim (entry name pod.env) [
  | none ↦ none
  | some (EnvSource.plain value) ↦ some value
  | some (EnvSource.from_secret s key) ↦
      if names secret pod.meta.namespace s then entry key secret.entries else none
]

abbrev mount_name : (path : String) → List VolumeMount → Option String
mount_name path [] = none
mount_name path (m ∷ rest) =
    let later = mount_name path rest in if str_eq m.mount_path path then some m.name else later

unfoldable pub volume_at : Pod → (path : String) → Option VolumeSource
unfolding entry
volume_at pod path = elim (mount_name path pod.mounts) [
  | none ↦ none
  | some name ↦ entry name pod.volumes
]

-- A file below a path that the ConfigMap is mounted at.
unfoldable pub config_file : (config_map : KeyedObject) → Pod → (path file : String) → Option String
unfolding entry volume_at
config_file config_map pod path file = elim (volume_at pod path) [
  | none ↦ none
  | some (VolumeSource.claim pvc) ↦ none
  | some (VolumeSource.config name) ↦
      if names config_map pod.meta.namespace name then entry file config_map.entries else none
]

-- The container runs the script with the credentials, the URL of the image, the disk and the regions.
pub record Wired (secret config_map : KeyedObject) (pod : Pod) (m : Manager)
    (opts : DeltaPodOptions) : Type 0 where
  pub command : pod.command ≡ "/bin/sh" ∷ "-c" ∷ delta_script_text ∷ []
  pub username : env_value secret pod "PRISM_USERNAME" ≡ some m.username
  pub password : env_value secret pod "PRISM_PASSWORD" ≡ some m.password
  pub image_url : env_value secret pod "IMAGE_URL" ≡ some opts.image_url
  pub disk : volume_at pod "/data/disk" ≡ some (VolumeSource.claim opts.pvc_name)
  pub regions :
      config_file config_map pod "/config" "regions.txt" ≡ some (regions_to_text opts.regions)

build_delta_pod-Wired :
    (m : Manager) (opts : DeltaPodOptions)
    → let (pod, config_map) = build_delta_pod opts in
      Wired (credential_secret m opts.secret_name opts.namespace opts.owner) config_map pod m opts
unfolding build_delta_pod env_value volume_at config_file entry
build_delta_pod-Wired m opts =
    let namespace = (eq_iff opts.namespace opts.namespace).1 refl in
    let secret = (eq_iff opts.secret_name opts.secret_name).1 refl in
    let config =
      (eq_iff (String.◌++◌ opts.name "-regions") (String.◌++◌ opts.name "-regions")).1 refl in
    record {
      command = refl;
      username = rw namespace (rw secret refl);
      password = rw namespace (rw secret refl);
      image_url = refl;
      disk = refl;
      regions = rw namespace (rw config refl);
    }

-- The delta Pod runs the script, and finds the manager's credentials in the Secret that is made for it,
-- the image's URL, the PVC and, in the ConfigMap that is built with it, a text of the regions. Whichever
-- copies fail (the first that does ends the script, and writes nothing), where the others write their
-- range and the regions are not empty, end below 2 ^ 63, and cover what the disk before differs from the
-- image in: the script on that text leaves the image's bytes in the regions before the first failing one,
-- the last region never among them, and the old bytes everywhere else; if the text ended in a newline,
-- the script would fail or leave the image.
pub build_delta_pod-synced :
    (m : Manager) (opts : DeltaPodOptions) (image : Disk) (write : Chunk → Disk → Disk)
    (copies : Chunk → Bool) (rs : List ChangedRegion) (r : ChangedRegion) (old : Disk) (p : ℕ)
    → opts.regions ≡ rs ++ r ∷ []
    → Copies image write copies
    → All Proper (rs ++ r ∷ [])
    → (covers (rs ++ r ∷ []) p ≡ false → old p ≡ image p)
    → let (pod, config_map) = build_delta_pod opts in
      let secret = credential_secret m opts.secret_name opts.namespace opts.owner in
      Wired secret config_map pod m opts
      × (text : String) × (config_file config_map pod "/config" "regions.txt" ≡ some text)
      × (disk_after write (delta_script copies (codes text)).written old p
          ≡ (if covers (copied copies rs) p then image p else old p))
      × (let ended = delta_script copies (codes text ++ b'\n' ∷ []) in
          (ended.finished ≡ false) ⊎ (disk_after write ended.written old p ≡ image p))
build_delta_pod-synced m opts image write copies rs r old p same writes proper outside =
    let wired = build_delta_pod-Wired m opts in
    let (shown, whole) = delta_script-synced image write copies rs r old p writes proper outside in
    (
      wired,
      regions_to_text (rs ++ r ∷ []),
      wired.regions ∙ ap (λ regions. some (regions_to_text regions)) same,
      shown,
      whole,
    )
