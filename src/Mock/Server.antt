-- ===== src/Mock/Server.antt =====
-- pkg/mock/server.go: the routes of the mock server, and the server as a transport of the Nutanix client.
-- net/http reads a URL and looks for its route: a URL has no fragment and no escapes, a path has no "//" or "..", and the
-- redirect from a path without its last slash, which the client never asks for, is left out.
pub mod Reading
pub mod Fixtures
pub mod Listing
pub mod Paths
pub mod Polling
pub mod Waiting
pub mod Power
pub mod Powered
pub mod Imaged
pub mod Regions
use nutanix_vma.Prelude.{
  ℕ, ◌==◌, String, true, Bool, Option, none, some, List, [], ◌∷◌, str_eq, codes, if◌then◌else◌,
}
use Prim.Native.Char.{code}
use nutanix_vma.HttpClient.{Event, HttpReply, Request, Transport}
use nutanix_vma.Mock.{Store}
use nutanix_vma.Mock.Range.{strip_prefix}
use nutanix_vma.Mock.Handlers.{
  Fields, MockRequest, MockReply, Payload, reply, split_first, handle_vm_list, handle_vm_by_id,
  handle_task, handle_subnet_list, handle_storage_container_list, handle_cluster_list,
}
use nutanix_vma.Mock.Objects.{
  handle_recovery_point_create, handle_recovery_point_by_id, handle_image_create,
  handle_image_by_id,
}
use nutanix_vma.Mock.Cbt.{handle_cbt_discover_cluster, handle_cbt_changed_regions}

-- What stands behind a prefix.
unfoldable pub strip_text : (prefix text : String) → Option String
strip_text String.[] text = some text
strip_text (String.◌∷◌ c prefix) String.[] = none
strip_text (String.◌∷◌ c prefix) (String.◌∷◌ d text) =
    let rest = strip_text prefix text in if code c == code d then rest else none

abbrev pub push : ℕ → List (List ℕ) → List (List ℕ)
push c [] = (c ∷ []) ∷ []
push c (piece ∷ rest) = (c ∷ piece) ∷ rest

-- The pieces between separators.
unfoldable pub split_on : (sep : ℕ) → List ℕ → List (List ℕ)
split_on sep [] = [] ∷ []
split_on sep (c ∷ s) = let rest = split_on sep s in if c == sep then [] ∷ rest else push c rest

unfoldable pub query_pieces : Option String → List (List ℕ)
unfolding split_on
query_pieces none = []
query_pieces (some query) = split_on b'&' (codes query)

-- `Query().Get`, where the key has its "=".
unfoldable pub query_value : (key : List ℕ) → List (List ℕ) → List ℕ
unfolding strip_prefix
query_value key [] = []
query_value key (piece ∷ rest) =
    let later = query_value key rest in
    elim (strip_prefix key piece) [ none ↦ later | some value ↦ value ]

abbrev pub cookie_of : (name : String) → Option (String × String) → Option String
cookie_of name none = none
cookie_of name (some (k, value)) = if str_eq k name then some value else none

abbrev pub fields_of : (String → Option Fields) → Option String → Option Fields
fields_of fields none = none
fields_of fields (some body) = fields body

-- The client sends no range.
unfoldable pub read_request : (String → Option Fields) → Request → Option String → MockRequest
unfolding query_value query_pieces
read_request fields r query = record {
  method = r.method;
  rest = "";
  top = query_value (codes "$top=") (query_pieces query);
  skip = query_value (codes "$skip=") (query_pieces query);
  offset = query_value (codes "offset=") (query_pieces query);
  range = [];
  cookie = cookie_of "NTNX_IGW_SESSION" r.cookie;
  body = fields_of fields r.body;
}

abbrev pub Handler : Type 0
Handler = MockRequest → Store → MockReply × Store

-- A pattern that ends in "/" is for all that stands behind it.
pub data Route : Type 0 where
  exact : (path : String) → Handler → Route
  below : (path : String) → Handler → Route

-- Handlers that read a path get what stands behind the pattern.
unfoldable pub routes : (url : String) → List Route
unfolding handle_vm_list handle_vm_by_id handle_task handle_subnet_list
    handle_storage_container_list handle_cluster_list handle_recovery_point_create
    handle_recovery_point_by_id handle_image_create handle_image_by_id handle_cbt_discover_cluster
    handle_cbt_changed_regions
routes url =
    Route.exact "/api/vmm/v4.0/ahv/config/vms" handle_vm_list
    ∷ Route.below "/api/vmm/v4.0/ahv/config/vms/" handle_vm_by_id
    ∷ Route.below "/api/prism/v4.0/config/tasks/" handle_task
    ∷ Route.exact "/api/networking/v4.0/config/subnets" handle_subnet_list
    ∷ Route.exact "/PrismGateway/services/rest/v2.0/storage_containers"
        handle_storage_container_list
    ∷ Route.exact "/api/clustermgmt/v4.0/config/clusters" handle_cluster_list
    ∷ Route.exact "/api/dataprotection/v4.0/config/recovery-points" handle_recovery_point_create
    ∷ Route.below "/api/dataprotection/v4.0/config/recovery-points/" handle_recovery_point_by_id
    ∷ Route.exact "/api/vmm/v4.0/images" handle_image_create
    ∷ Route.below "/api/vmm/v4.0/images/" handle_image_by_id
    ∷ Route.exact "/api/storage/v4.0/config/changed-regions/$actions/discover-cluster"
        (handle_cbt_discover_cluster url)
    ∷ Route.exact "/api/storage/v4.0/config/changed-regions" handle_cbt_changed_regions
    ∷ []

-- No path is for two of the patterns, so that the first one is the multiplexer's choice.
unfoldable pub dispatch : List Route → (path : String) → Handler
unfolding strip_text
dispatch [] path r s = (reply 404 Payload.unrouted, s)
dispatch (Route.exact pattern handle ∷ rest) path r s =
    let later = dispatch rest path r s in if str_eq path pattern then handle r s else later
dispatch (Route.below pattern handle ∷ rest) path r s =
    let later = dispatch rest path r s in
    elim (strip_text pattern path) [
      | none ↦ later
      | some behind ↦ handle (record r { rest = behind }) s
    ]

-- `encode` and `fields` are encoding/json's. A request to another host fails.
module _ (encode : Payload → String) (fields : String → Option Fields) (url : String) where
  unfoldable pub serve_target : (target : String) → Request → Store → MockReply × Store
  unfolding routes dispatch read_request split_first
  serve_target target r s =
      let (path, query) = split_first b'?' target in
      dispatch (routes url) path (read_request fields r query) s

  unfoldable pub serve : Request → Store → Option (MockReply × Store)
  unfolding serve_target strip_text
  serve r s = elim (strip_text url r.url) [
    | none ↦ none
    | some target ↦ some (serve_target target r s)
  ]

  abbrev pub sent_reply : Option (MockReply × Store) → HttpReply
  sent_reply none = HttpReply.failed "no such host" ""
  sent_reply (some (answer, s)) = HttpReply.answered answer.status (encode answer.payload) ""

  abbrev pub store_of : Store → Option (MockReply × Store) → Store
  store_of s none = s
  store_of s (some (answer, s')) = s'

  -- The store after the events, from the one that the server is set up with.
  unfoldable pub store_after : Store → List Event → Store
  unfolding serve
  store_after s [] = s
  store_after s (Event.sent r ∷ events) =
      store_of (store_after s events) (serve r (store_after s events))
  store_after s (Event.slept seconds ∷ events) = store_after s events
  store_after s (Event.read_clock ∷ events) = store_after s events
  store_after s (Event.waited interval ∷ events) = store_after s events

  -- The clock, the context and the check of a URL are those of `t`.
  unfoldable pub served : Transport → Store → Transport
  unfolding serve store_after
  served t s = record t { answer = λ events r. sent_reply (serve r (store_after s events)) }
