-- ===== src/Mock/Objects.antt =====
-- handlers_snapshot.go and handlers_image.go of pkg/mock.
pub mod Kept
use nutanix_vma.Prelude.{
  ℕ, ◌+◌, ◌-◌, ltb, String, Bool, false, not, ◌&&◌, Option, none, some, List, [], ◌∷◌, ◌++◌, str_eq,
  is_empty, if◌then◌else◌, half_word, concat,
}
use nutanix_vma.Api.{Vm, PowerState}
use nutanix_vma.HttpClient.Codec.{Image, RecoveryPoint}
use nutanix_vma.Mock.{
  Store, lookup, add_recovery_point, delete_recovery_point, add_image, delete_image, padded,
}
use nutanix_vma.Mock.Range.{parse_range_header}
use nutanix_vma.Mock.Handlers.{
  Fields, MockRequest, MockReply, Payload, reply, refuse, not_allowed, is_get, is_post, is_delete,
  accept, split_first, vm_rel,
}

abbrev pub recovery_point_rel : String
recovery_point_rel = "dataprotection:config:recovery-point"

abbrev pub image_rel : String
image_rel = "vmm:images:image"

abbrev pub first_or : String → List String → String
first_or default [] = default
first_or default (x ∷ rest) = x

-- With a body that was decoded, or none.
unfoldable pub create_recovery_point : Option Fields → Store → MockReply × Store
unfolding add_recovery_point accept
create_recovery_point none s = refuse 400 "invalid request body" s
create_recovery_point (some b) s =
    let (id, s') =
      add_recovery_point b.name (first_or "" b.vm_ext_ids) "APPLICATION_CONSISTENT" s in
    accept id recovery_point_rel s'

unfoldable pub handle_recovery_point_create : MockRequest → Store → MockReply × Store
unfolding create_recovery_point
handle_recovery_point_create r s =
    if not (is_post r) then not_allowed s else create_recovery_point r.body s

-- A VM without any hardware.
abbrev pub cloned_vm : (ext_id name : String) → Vm
cloned_vm ext_id name = record {
  ext_id = ext_id;
  name = name;
  power_state = PowerState.off;
  num_sockets = 0;
  num_cores_per_socket = 0;
  num_threads_per_core = 0;
  memory_size_bytes = 0;
  machine_type = "";
  boot_config = none;
  disks = [];
  nics = [];
  gpus = [];
  cluster = none;
}

abbrev pub clone_name : List String → String
clone_name names = let name = first_or "" names in if is_empty name then "cloned-vm" else name

unfoldable pub clone_vm : Option Fields → Store → MockReply × Store
unfolding accept padded
clone_vm none s = refuse 400 "invalid request body" s
clone_vm (some b) s =
    let id = concat ("clone-" ∷ padded (s.image_counter + 1) ∷ []) in
    accept id vm_rel (record s {
      vms = s.vms ++ cloned_vm id (clone_name b.vm_names) ∷ [];
      image_counter = s.image_counter + 1;
    })

module _ (uuid : String) (s : Store) where
  unfoldable pub handle_recovery_point_get : MockReply × Store
  unfolding lookup
  handle_recovery_point_get = elim (lookup uuid s.recovery_points) [
    | none ↦ refuse 404 "recovery point not found" s
    | some rp ↦ (reply 200 (Payload.recovery_point rp), s)
  ]

  unfoldable pub handle_recovery_point_delete : MockReply × Store
  unfolding delete_recovery_point accept
  handle_recovery_point_delete = elim (delete_recovery_point uuid s) [
    | none ↦ refuse 404 "recovery point not found" s
    | some s' ↦ accept uuid recovery_point_rel s'
  ]

  unfoldable pub handle_clone_vm_from_rp : Option Fields → MockReply × Store
  unfolding lookup clone_vm
  handle_clone_vm_from_rp body = elim (lookup uuid s.recovery_points) [
    | none ↦ refuse 404 "recovery point not found" s
    | some rp ↦ clone_vm body s
  ]

  unfoldable pub handle_image_get : MockReply × Store
  unfolding lookup
  handle_image_get = elim (lookup uuid s.images) [
    | none ↦ refuse 404 "image not found" s
    | some image ↦ (reply 200 (Payload.image image), s)
  ]

  unfoldable pub handle_image_delete : MockReply × Store
  unfolding delete_image accept
  handle_image_delete = elim (delete_image uuid s) [
    | none ↦ refuse 404 "image not found" s
    | some s' ↦ accept uuid image_rel s'
  ]

unfoldable pub handle_recovery_point_action :
    MockRequest → (uuid : String) → (action : Option String) → Store → MockReply × Store
unfolding handle_recovery_point_get handle_recovery_point_delete handle_clone_vm_from_rp
handle_recovery_point_action r uuid (some action) s =
    if str_eq action "$actions/vm-recovery" && is_post r
    then handle_clone_vm_from_rp uuid s r.body
    else refuse 404 "unknown action" s
handle_recovery_point_action r uuid none s =
    if is_get r
    then handle_recovery_point_get uuid s
    else if is_delete r
    then handle_recovery_point_delete uuid s
    else not_allowed s

unfoldable pub handle_recovery_point_by_id : MockRequest → Store → MockReply × Store
unfolding split_first handle_recovery_point_action
handle_recovery_point_by_id r s =
    let (uuid, action) = split_first b'/' r.rest in handle_recovery_point_action r uuid action s

abbrev pub default_image_size : ℕ
default_image_size = 4096

unfoldable pub create_image : Option Fields → Store → MockReply × Store
unfolding add_image accept
create_image none s = refuse 400 "invalid request body" s
create_image (some b) s =
    let (id, s') = add_image b.name b.type default_image_size s in accept id image_rel s'

unfoldable pub handle_image_create : MockRequest → Store → MockReply × Store
unfolding create_image
handle_image_create r s = if not (is_post r) then not_allowed s else create_image r.body s

-- A size that is not positive on int64 is replaced.
abbrev pub file_size : Image → ℕ
file_size image =
    if ltb 0 image.size_bytes && ltb image.size_bytes half_word
    then image.size_bytes
    else default_image_size

-- The bytes are all 0xAA, so that a reply is their first position and their number.
unfoldable pub serve_range : (range : List ℕ) → (total : ℕ) → MockReply
unfolding parse_range_header
serve_range [] total = reply 200 (Payload.file 0 total total)
serve_range (c ∷ range) total = elim (parse_range_header (c ∷ range) total) [
  | none ↦ reply 416 (Payload.error "invalid range")
  | some (first, last) ↦ reply 206 (Payload.file first (last - first + 1) total)
]

unfoldable pub handle_image_download :
    (range : List ℕ) → (uuid : String) → Store → MockReply × Store
unfolding lookup serve_range
handle_image_download range uuid s = elim (lookup uuid s.images) [
  | none ↦ refuse 404 "image not found" s
  | some image ↦ (serve_range range (file_size image), s)
]

abbrev pub is_file : Option String → Bool
is_file none = false
is_file (some action) = str_eq action "file"

-- Any other action than "file" is passed over.
unfoldable pub handle_image_by_id : MockRequest → Store → MockReply × Store
unfolding split_first handle_image_download handle_image_get handle_image_delete
handle_image_by_id r s =
    let (uuid, action) = split_first b'/' r.rest in
    if is_file action
    then (if not (is_get r) then not_allowed s else handle_image_download r.range uuid s)
    else if is_get r
    then handle_image_get uuid s
    else if is_delete r
    then handle_image_delete uuid s
    else not_allowed s
