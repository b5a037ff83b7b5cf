-- ===== src/Mock/Handlers.antt =====
-- The handlers of pkg/mock (helpers.go and handlers_*.go). The multiplexer, the parsing of queries and
-- JSON are net/http's and encoding/json's: a request has the parts that a handler reads. The sums of a
-- page's bounds do not wrap.
use Prim.Native.Char.{code}
use nutanix_vma.Prelude.{
  ℕ, ◌+◌, ◌-◌, ◌==◌, ltb, leb, length, take, drop, String, Bool, not, ◌&&◌, Option, none, some,
  List, [], ◌∷◌, str_eq, is_empty, if◌then◌else◌,
}
use nutanix_vma.Api.{Vm, PowerState, CbtClusterInfo, ChangedRegions}
use nutanix_vma.HttpClient.Tasks.{Task}
use nutanix_vma.HttpClient.Codec.{RecoveryPoint, Image, Subnet, StorageContainer, Cluster, Page}
use nutanix_vma.Mock.{Store, find_vm, set_vm_power_state, remove_vm, create_task, get_task}
use nutanix_vma.Mock.Range.{parse_natural}

-- What the bodies that are read hold; a missing text is "".
pub record Fields : Type 0 where
  pub name : String
  pub type : String
  pub vm_ext_ids : List String
  pub vm_names : List String

-- `rest` is what stands behind the handler's path; `body` is nothing where the JSON is refused.
pub record MockRequest : Type 0 where
  pub method : String
  pub rest : String
  pub top : List ℕ
  pub skip : List ℕ
  pub offset : List ℕ
  pub range : List ℕ
  pub cookie : Option String
  pub body : Option Fields

pub data Payload : Type 0 where
  error : String → Payload
  vms : Page Vm → Payload
  subnets : Page Subnet → Payload
  clusters : Page Cluster → Payload
  containers : List StorageContainer → Payload
  vm : Vm → Payload
  task_ref : String → Payload
  task : Task → Payload
  recovery_point : RecoveryPoint → Payload
  image : Image → Payload
  cluster_info : CbtClusterInfo → Payload
  regions : ChangedRegions → Payload
  file : (first count total : ℕ) → Payload
  unrouted : Payload

pub record MockReply : Type 0 where
  pub status : ℕ
  pub payload : Payload

abbrev pub reply : ℕ → Payload → MockReply
reply status payload = record { status = status; payload = payload }

abbrev pub refuse : ℕ → String → Store → MockReply × Store
refuse status message s = (reply status (Payload.error message), s)

abbrev pub not_allowed : Store → MockReply × Store
not_allowed s = refuse 405 "method not allowed" s

abbrev pub is_get : MockRequest → Bool
is_get r = str_eq r.method "GET"

abbrev pub is_post : MockRequest → Bool
is_post r = str_eq r.method "POST"

abbrev pub is_delete : MockRequest → Bool
is_delete r = str_eq r.method "DELETE"

-- `strings.SplitN(s, sep, 2)`: what stands before the first separator, and behind it, if there is one.
unfoldable pub split_first : (sep : ℕ) → String → String × Option String
split_first sep String.[] = ("", none)
split_first sep (String.◌∷◌ c s) =
    let (before, behind) = split_first sep s in
    if code c == sep then ("", some s) else (String.◌∷◌ c before, behind)

-- `parsePagination`
unfoldable pub positive_or : ℕ → List ℕ → ℕ
unfolding parse_natural
positive_or default text = elim (parse_natural text) [
  | none ↦ default
  | some n ↦ if ltb 0 n then n else default
]

unfoldable pub natural_or_zero : List ℕ → ℕ
unfolding parse_natural
natural_or_zero text = elim (parse_natural text) [ none ↦ 0 | some n ↦ n ]

unfoldable pub page_of {ℓ} : {A : Type ℓ} → (top skip : ℕ) → List A → Page A
page_of top skip items =
    let total = length items in
    let last = if ltb total (skip + top) then total else skip + top in
    if leb total skip
    then record { items = []; total = some total }
    else record { items = take (last - skip) (drop skip items); total = some total }

unfoldable pub requested_page {ℓ} : {A : Type ℓ} → MockRequest → List A → Page A
unfolding page_of positive_or natural_or_zero
requested_page r items = page_of (positive_or 500 r.top) (natural_or_zero r.skip) items

module _ (r : MockRequest) (s : Store) where
  unfoldable pub handle_vm_list : MockReply × Store
  unfolding requested_page
  handle_vm_list =
      if not (is_get r)
      then not_allowed s
      else (reply 200 (Payload.vms (requested_page r s.vms)), s)

  unfoldable pub handle_subnet_list : MockReply × Store
  unfolding requested_page
  handle_subnet_list =
      if not (is_get r)
      then not_allowed s
      else (reply 200 (Payload.subnets (requested_page r s.subnets)), s)

  unfoldable pub handle_cluster_list : MockReply × Store
  unfolding requested_page
  handle_cluster_list =
      if not (is_get r)
      then not_allowed s
      else (reply 200 (Payload.clusters (requested_page r s.clusters)), s)

  unfoldable pub handle_storage_container_list : MockReply × Store
  handle_storage_container_list =
      if not (is_get r)
      then not_allowed s
      else (reply 200 (Payload.containers s.storage_containers), s)

  unfoldable pub handle_task : MockReply × Store
  unfolding get_task
  handle_task =
      if not (is_get r)
      then not_allowed s
      else if is_empty r.rest
      then refuse 400 "task UUID required" s
      else (elim (get_task r.rest s) [
        | none ↦ refuse 404 "task not found" s
        | some (t, s') ↦ (reply 200 (Payload.task t), s')
      ])

-- A task on one entity, and the reference to it.
unfoldable pub accept : (ext_id rel : String) → Store → MockReply × Store
unfolding create_task
accept ext_id rel s =
    let (id, s') = create_task (record { ext_id = ext_id; rel = rel } ∷ []) 2 s in
    (reply 202 (Payload.task_ref id), s')

abbrev pub vm_rel : String
vm_rel = "vmm:ahv:config:vm"

-- VMs by their UUID.
module _ (uuid : String) (s : Store) where
  unfoldable pub handle_vm_get : MockReply × Store
  unfolding find_vm
  handle_vm_get = elim (find_vm uuid s.vms) [
    | none ↦ refuse 404 "VM not found" s
    | some v ↦ (reply 200 (Payload.vm v), s)
  ]

  unfoldable pub handle_vm_power : PowerState → MockReply × Store
  unfolding find_vm accept set_vm_power_state
  handle_vm_power state = elim (find_vm uuid s.vms) [
    | none ↦ refuse 404 "VM not found" s
    | some v ↦
        let (answer, s') = accept uuid vm_rel s in (answer, (set_vm_power_state uuid state s').0)
  ]

  unfoldable pub handle_vm_delete : MockReply × Store
  unfolding find_vm accept remove_vm
  handle_vm_delete = elim (find_vm uuid s.vms) [
    | none ↦ refuse 404 "VM not found" s
    | some v ↦
        let (answer, s') = accept uuid vm_rel s in
        (answer, record s' { vms = remove_vm uuid s'.vms })
  ]

unfoldable pub handle_vm_action :
    MockRequest → (uuid : String) → (action : Option String) → Store → MockReply × Store
unfolding handle_vm_get handle_vm_power handle_vm_delete
handle_vm_action r uuid (some action) s =
    if str_eq action "$actions/power-off" && is_post r
    then handle_vm_power uuid s PowerState.off
    else if str_eq action "$actions/power-on" && is_post r
    then handle_vm_power uuid s PowerState.on
    else refuse 404 "unknown action" s
handle_vm_action r uuid none s =
    if is_get r
    then handle_vm_get uuid s
    else if is_delete r
    then handle_vm_delete uuid s
    else not_allowed s

unfoldable pub handle_vm_by_id : MockRequest → Store → MockReply × Store
unfolding split_first handle_vm_action
handle_vm_by_id r s =
    let (uuid, action) = split_first b'/' r.rest in handle_vm_action r uuid action s
