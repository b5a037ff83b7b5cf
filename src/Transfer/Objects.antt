-- ===== src/Transfer/Objects.antt =====
-- The Kubernetes objects of internal/transfer: BuildDataVolume (datavolume.go), BuildDeltaPod (delta.go) and
-- the credential secret (manager.go), by the fields that are set.
pub mod Wired
use Prim.Native.String
use nutanix_vma.Prelude.{
  ℕ, String, Bool, true, false, not, Option, none, some, List, [], ◌∷◌, is_empty, if◌then◌else◌,
}
use nutanix_vma.Api.{ChangedRegion, VolumeMode, AccessMode}
use nutanix_vma.Outside.{DataVolumeOptions}
use nutanix_vma.Transfer.{Manager, bytes_to_gi_quantity, regions_to_text}

pub record OwnerReference : Type 0 where
  pub api_version : String
  pub kind : String
  pub name : String
  pub uid : String

pub record ObjectMeta : Type 0 where
  pub name : String
  pub namespace : String
  pub owners : List OwnerReference

abbrev pub owned_meta : (name namespace : String) → OwnerReference → ObjectMeta
owned_meta name namespace owner = record { name = name; namespace = namespace; owners = owner ∷ [] }

-- A Secret or a ConfigMap.
pub record KeyedObject : Type 0 where
  pub meta : ObjectMeta
  pub entries : List (String × String)

abbrev pub access_key_id : String
access_key_id = "accessKeyId"

abbrev pub secret_key : String
secret_key = "secretKey"

abbrev pub credential_secret : Manager → (name namespace : String) → OwnerReference → KeyedObject
credential_secret m name namespace owner = record {
  meta = owned_meta name namespace owner;
  entries = (access_key_id, m.username) ∷ (secret_key, m.password) ∷ [];
}

pub record HttpSource : Type 0 where
  pub url : String
  pub secret_ref : String
  pub cert_config_map : String

-- Gi of storage are requested.
pub record DataVolume : Type 0 where
  pub meta : ObjectMeta
  pub source : HttpSource
  pub access_modes : List AccessMode
  pub storage_class : String
  pub volume_mode : VolumeMode
  pub storage_gibs : ℕ

unfoldable pub build_data_volume : DataVolumeOptions → OwnerReference → DataVolume
unfolding bytes_to_gi_quantity
build_data_volume opts owner =
    let dv : DataVolume = record {
      meta = owned_meta opts.name opts.namespace owner;
      source = record { url = opts.image_url; secret_ref = opts.secret_name; cert_config_map = "" };
      access_modes = opts.access_mode ∷ [];
      storage_class = opts.storage_class;
      volume_mode = opts.volume_mode;
      storage_gibs = bytes_to_gi_quantity opts.disk_size_bytes;
    } in
    if not (is_empty opts.cert_config_map)
    then record dv { source = record dv.source { cert_config_map = opts.cert_config_map } }
    else dv

pub data EnvSource : Type 0 where
  plain : (value : String) → EnvSource
  from_secret : (secret key : String) → EnvSource

pub record VolumeMount : Type 0 where
  pub name : String
  pub mount_path : String
  pub read_only : Bool

pub data VolumeSource : Type 0 where
  claim : (pvc : String) → VolumeSource
  config : (config_map : String) → VolumeSource

-- A Pod with one container, which is never restarted.
pub record Pod : Type 0 where
  pub meta : ObjectMeta
  pub container : String
  pub image : String
  pub command : List String
  pub env : List (String × EnvSource)
  pub mounts : List VolumeMount
  pub volumes : List (String × VolumeSource)

pub record DeltaPodOptions : Type 0 where
  pub name : String
  pub namespace : String
  pub pvc_name : String
  pub image_url : String
  pub secret_name : String
  pub regions : List ChangedRegion
  pub owner : OwnerReference

-- `deltaScript`, line by line; Script is what it does.
abbrev script_lines : List String
script_lines =
    "#!/bin/sh" ∷ "set -e"
    ∷ "AUTH=$(printf '%s:%s' \"${PRISM_USERNAME}\" \"${PRISM_PASSWORD}\" | base64)"
    ∷ "while IFS=: read -r offset length; do" ∷ "  [ -z \"$offset\" ] && continue"
    ∷ "  end=$((offset + length - 1))" ∷ "  wget --header=\"Authorization: Basic ${AUTH}\" \\"
    ∷ "       --header=\"Range: bytes=${offset}-${end}\" \\"
    ∷ "       -q -O /tmp/chunk \"${IMAGE_URL}\" || exit 1"
    ∷ "  dd if=/tmp/chunk of=/data/disk bs=1 seek=\"${offset}\" conv=notrunc 2>/dev/null || exit 1"
    ∷ "  rm -f /tmp/chunk" ∷ "done < /config/regions.txt" ∷ "echo \"Delta transfer complete\"" ∷ []

abbrev pub unlines : List String → String
unlines [] = ""
unlines (line ∷ rest) = String.◌++◌ line (String.◌++◌ "\n" (unlines rest))

abbrev pub delta_script_text : String
delta_script_text = unlines script_lines

unfoldable pub build_delta_pod : DeltaPodOptions → Pod × KeyedObject
unfolding regions_to_text
build_delta_pod opts =
    let config_map : KeyedObject = record {
      meta = owned_meta (String.◌++◌ opts.name "-regions") opts.namespace opts.owner;
      entries = ("regions.txt", regions_to_text opts.regions) ∷ [];
    } in
    (
      record {
        meta = owned_meta opts.name opts.namespace opts.owner;
        container = "delta-transfer";
        image = "busybox:1.37";
        command = "/bin/sh" ∷ "-c" ∷ delta_script_text ∷ [];
        env =
            ("PRISM_USERNAME", EnvSource.from_secret opts.secret_name access_key_id)
            ∷ ("PRISM_PASSWORD", EnvSource.from_secret opts.secret_name secret_key)
            ∷ ("IMAGE_URL", EnvSource.plain opts.image_url)
            ∷ [];
        mounts =
            record { name = "disk-data"; mount_path = "/data/disk"; read_only = false }
            ∷ record { name = "delta-config"; mount_path = "/config"; read_only = true }
            ∷ [];
        volumes =
            ("disk-data", VolumeSource.claim opts.pvc_name)
            ∷ ("delta-config", VolumeSource.config config_map.meta.name)
            ∷ [];
      },
      config_map,
    )
