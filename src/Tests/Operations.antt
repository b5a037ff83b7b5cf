-- ===== src/Tests/Operations.antt =====
-- The results on the operations of the Nutanix client, at concrete servers.
use nutanix_vma.Prelude.{
  ℕ, ◌*◌, take, drop, String, Option, none, some, List, [], ◌∷◌, codes, decimal, ◌≡◌, refl, ap, ◌∙◌,
  arith,
}
use mathlib.Core.List.{append-nil}
use nutanix_vma.Prelude.Digits.{number_from, number_from-decimal, codes-concat}
use nutanix_vma.Api.{CbtClusterInfo}
use nutanix_vma.HttpClient.{Client, Event, HttpReply, Transport, ClientError, Result, do_json}
use nutanix_vma.HttpClient.Tasks.{Task, TaskStatus}
use nutanix_vma.HttpClient.Codec.{Codec, Page}
use nutanix_vma.HttpClient.Operations.{create_image_from_disk}
use nutanix_vma.HttpClient.Operations.Created.{Creation, run_creation, Gives, creations-Gives}
use nutanix_vma.HttpClient.Lists.{page_url, list_from}
use nutanix_vma.HttpClient.Lists.Paged.{Serves, list_from-capped}
use nutanix_vma.HttpClient.Cbt.{
  TokenEntry, TokenCache, RegionsQuery, regions_request, discover_cluster_for_cbt,
  get_changed_regions,
}
use nutanix_vma.HttpClient.Cbt.Tokens.{get_changed_regions-stale}
use nutanix_vma.Tests.Clients.{client, busy}

abbrev minute : ℕ
minute = 60 * 1_000_000_000

-- Each request is answered at once, thirteen minutes after the start.
abbrev ready : Transport
ready = record busy {
  answer = λ events r. HttpReply.answered 200 r.url "";
  now = λ events. 13 * minute;
}

abbrev made : Task
made = record {
  status = TaskStatus.succeeded;
  error_messages = [];
  entities_affected = record { ext_id = "img-1"; rel = "image" } ∷ [];
}

abbrev info : CbtClusterInfo
info = record { prism_element_url = "https://pe/"; jwt_token = "new" }

abbrev pub codec : Codec
codec = record {
  marshal = λ body. "{}";
  task_ref = λ text. some "task-1";
  task = λ text. some made;
  vm = λ text. none;
  image = λ text. none;
  recovery_point = λ text. none;
  vms = λ text. none;
  subnets = λ text. none;
  clusters = λ text. none;
  storage_containers = λ text. none;
  cbt_cluster = λ text. some info;
  changed_regions = λ text. some (record { regions = []; next_offset = none });
}

creations-Gives_example :
    Gives ready codec client 3
      ("vmm:images:image" ∷ "image" ∷ [])
      "POST"
      "https://pc/api/vmm/v4.0/images"
      (some "{}")
      []
      "img-1"
      (create_image_from_disk ready codec client 3 "disk" "vdisk-1" "cluster-1" []).1
unfolding run_creation create_image_from_disk
creations-Gives_example =
    creations-Gives ready codec client 3 (Creation.image "disk" "vdisk-1" "cluster-1") [] "img-1"
      refl

-- A server for which the URL of a page is read from its last digits.
abbrev local : Client
local = record client { host = "" }

abbrev items : List ℕ
items = 7 ∷ 8 ∷ 9 ∷ []

abbrev page_at : (top : ℕ) → String → Option (Page ℕ)
page_at top url =
    some (record {
      items = take top (drop (number_from 0 (drop 16 (codes url))) items);
      total = some 3;
    })

page_offset :
    (offset : ℕ) → number_from 0 (drop 16 (codes (page_url ready local "" offset))) ≡ offset
unfolding page_url decimal
page_offset offset =
    ap (λ x. number_from 0 (drop 16 x))
      (codes-concat ("" ∷ "" ∷ "?$top=" ∷ decimal 500 ∷ "&$skip=" ∷ decimal offset ∷ []))
    ∙ ap (number_from 0) (append-nil (codes (decimal offset)))
    ∙ number_from-decimal offset

abbrev AtAnyTime : List Event → Type 0
AtAnyTime events = Unit

serves : (top offset : ℕ) → Serves ready local (page_at top) "" AtAnyTime top items offset
unfolding do_json
serves top offset events b = (rw (page_offset offset) refl, tt)

list_from-capped_example :
    (list_from ready local (page_at 2) "" 9 0 [] []).0 ≡ Result.err ClientError.diverged
list_from-capped_example =
    list_from-capped ready local (page_at 2) "" AtAnyTime 9 2 items [] (serves 2) tt (omega arith)
      (omega arith)

abbrev query : RegionsQuery
query = record {
  pe_url = "https://pe";
  jwt_token = "old";
  vm_uuid = "vm-1";
  snapshot_uuid = "s-2";
  base_snapshot_uuid = "s-1";
  offset = 0;
  length = 1024;
  block_size = 65536;
}

abbrev renewed : RegionsQuery
renewed = record query { pe_url = info.prism_element_url; jwt_token = info.jwt_token }

abbrev old_entry : TokenEntry
old_entry = record { prism_element_url = "https://pe"; jwt_token = "old"; discovered_at = 0 }

abbrev new_entry : TokenEntry
new_entry = record {
  prism_element_url = "https://pe/";
  jwt_token = "new";
  discovered_at = 13 * minute;
}

abbrev tokens : TokenCache
tokens = ("vm-1", old_entry) ∷ []

get_changed_regions-stale_example :
    let first = get_changed_regions ready codec client query tokens [] in
    (first.events
      ≡ Event.sent (regions_request ready codec client renewed)
        ∷ (discover_cluster_for_cbt ready codec client "vm-1" tokens
            (Event.read_clock ∷ [])).events)
    × (new_entry.jwt_token ≡ info.jwt_token)
    × ((get_changed_regions ready codec client query first.cache first.events).events
        ≡ Event.sent (regions_request ready codec client query) ∷ Event.read_clock ∷ first.events)
unfolding get_changed_regions discover_cluster_for_cbt
get_changed_regions-stale_example =
    get_changed_regions-stale ready codec client query tokens []
      (get_changed_regions ready codec client query tokens []).events old_entry new_entry info refl
      (omega arith) refl refl refl refl (omega arith)
