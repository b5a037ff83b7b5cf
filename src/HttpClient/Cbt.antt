-- ===== src/HttpClient/Cbt.antt =====
-- internal/nutanix/cbt.go: the discovery of a cluster with its token, the cache of tokens, and the
-- changed regions.
pub mod Tokens
use Prim.Native.Char.{Char, code}
use Prim.Native.String
use nutanix_vma.Prelude.{
  ℕ, ◌+◌, ◌-◌, ◌*◌, ◌==◌, ltb, leb, not, ◌&&◌, String, Bool, true, false, List, [], ◌∷◌, Option,
  none, some, ◌||◌, str_eq, is_empty, if◌then◌else◌, concat, decimal64, trim_slashes,
}
use nutanix_vma.Api.{CbtClusterInfo, ChangedRegions}
use nutanix_vma.HttpClient.{
  Event, Request, HttpReply, HttpError, HttpResult, Transport, Client, ClientError, Result, Io,
  do_json, decode_reply, is_success,
}
use nutanix_vma.HttpClient.Codec.{RequestBody, Codec}

pub record TokenEntry : Type 0 where
  pub prism_element_url : String
  pub jwt_token : String
  pub discovered_at : ℕ

-- `cbtTokens`, the newest entry of a VM first.
abbrev pub TokenCache : Type 0
TokenCache = List (String × TokenEntry)

unfoldable pub cached : (vm : String) → TokenCache → Option TokenEntry
cached vm [] = none
cached vm ((k, entry) ∷ rest) = if str_eq k vm then some entry else cached vm rest

-- Twelve minutes, in nanoseconds.
abbrev pub token_max_age : ℕ
token_max_age = 12 * 60 * 1_000_000_000

-- A result, with the cache and the events after it.
pub record CbtRun {ℓ} (A : Type ℓ) : Type ℓ where
  pub result : Result A
  pub cache : TokenCache
  pub events : List Event

-- What is sent for the regions of a VM between two snapshots.
pub record RegionsQuery : Type 0 where
  pub pe_url : String
  pub jwt_token : String
  pub vm_uuid : String
  pub snapshot_uuid : String
  pub base_snapshot_uuid : String
  pub offset : ℕ  -- int64
  pub length : ℕ  -- int64
  pub block_size : ℕ  -- int64

abbrev is_cookie_char : ℕ → Bool
is_cookie_char c = leb 32 c && ltb c 127 && not (c == b'"') && not (c == b';') && not (c == 92)

-- net/http's `AddCookie` drops the bytes of a value that are not allowed in it; the quotes that it puts
-- around a value with a space or a comma are taken off by the server that reads it.
unfoldable pub cookie_value : (token : String) → String
cookie_value String.[] = String.[]
cookie_value (String.◌∷◌ c rest) =
    let kept = cookie_value rest in if is_cookie_char (code c) then String.◌∷◌ c kept else kept

module _ (t : Transport) (codec : Codec) (c : Client) where
  -- After the answer of the discovery.
  unfoldable pub keep_token :
      (vm : String) → TokenCache → Result CbtClusterInfo → List Event → CbtRun CbtClusterInfo
  keep_token vm cache (Result.err e) events = record {
    result = Result.err e;
    cache = cache;
    events = events;
  }
  keep_token vm cache (Result.ok info) events =
      if is_empty info.prism_element_url || is_empty info.jwt_token
      then record { result = Result.err ClientError.incomplete; cache = cache; events = events }
      else record {
        result = Result.ok info;
        cache =
            (
              vm,
              record {
                prism_element_url = info.prism_element_url;
                jwt_token = info.jwt_token;
                discovered_at = t.now events;
              },
            )
            ∷ cache;
        events = Event.read_clock ∷ events;
      }

  unfoldable pub ask_cluster : (vm : String) → Io CbtClusterInfo
  unfolding do_json
  ask_cluster vm =
      do_json t c codec.cbt_cluster "POST"
        (concat
          (c.host ∷ "/api/storage/v4.0/config/changed-regions/$actions/discover-cluster" ∷ []))
        (some (codec.marshal (RequestBody.discover_cluster vm)))

  unfoldable pub discover_cluster_for_cbt :
      (vm : String) → TokenCache → List Event → CbtRun CbtClusterInfo
  unfolding keep_token ask_cluster
  discover_cluster_for_cbt vm cache events =
      let answer = ask_cluster vm events in keep_token vm cache answer.0 answer.1

  -- The URL of a page of regions.
  unfoldable pub regions_url : RegionsQuery → String
  unfolding trim_slashes
  regions_url q = concat (
      trim_slashes q.pe_url
      ∷ "/api/storage/v4.0/config/changed-regions"
      ∷ "?vmExtId="
      ∷ q.vm_uuid
      ∷ "&snapshotExtId="
      ∷ q.snapshot_uuid
      ∷ "&baseSnapshotExtId="
      ∷ q.base_snapshot_uuid
      ∷ "&offset="
      ∷ decimal64 q.offset
      ∷ "&length="
      ∷ decimal64 q.length
      ∷ "&blockSize="
      ∷ decimal64 q.block_size
      ∷ [])

  -- The token goes into a cookie; the request has no Basic Auth and is not retried.
  unfoldable pub regions_request : RegionsQuery → Request
  unfolding regions_url cookie_value
  regions_request q = record {
    method = "GET";
    url = regions_url q;
    body = none;
    json = false;
    basic_auth = none;
    cookie = some ("NTNX_IGW_SESSION", cookie_value q.jwt_token);
  }

  unfoldable pub regions_reply : (url : String) → HttpReply → HttpResult
  regions_reply url (HttpReply.failed cause unread) = HttpResult.err (HttpError.network cause)
  regions_reply url (HttpReply.answered status body unread) =
      if is_success status
      then HttpResult.ok status body
      else HttpResult.err (HttpError.api status body url)

  unfoldable pub query_regions : RegionsQuery → TokenCache → List Event → CbtRun ChangedRegions
  unfolding regions_request regions_reply decode_reply
  query_regions q cache events =
      if t.accepts "GET" (regions_url q)
      then record {
        result =
            decode_reply codec.changed_regions
              (regions_reply (regions_url q) (t.answer events (regions_request q)));
        cache = cache;
        events = Event.sent (regions_request q) ∷ events;
      }
      else record {
        result = Result.err (ClientError.http HttpError.bad_request);
        cache = cache;
        events = events;
      }

  -- After the discovery that refreshes a token.
  unfoldable pub after_refresh :
      RegionsQuery → Result CbtClusterInfo → TokenCache → List Event → CbtRun ChangedRegions
  unfolding query_regions
  after_refresh q (Result.err e) cache events = record {
    result = Result.err e;
    cache = cache;
    events = events;
  }
  after_refresh q (Result.ok info) cache events =
      query_regions (record q { pe_url = info.prism_element_url; jwt_token = info.jwt_token }) cache
        events

  unfoldable pub refresh_regions : RegionsQuery → TokenCache → List Event → CbtRun ChangedRegions
  unfolding after_refresh discover_cluster_for_cbt
  refresh_regions q cache events =
      let found = discover_cluster_for_cbt q.vm_uuid cache events in
      after_refresh q found.result found.cache found.events

  -- By the cached entry of the VM; `time.Since` reads the clock only where there is one.
  unfoldable pub regions_with :
      Option TokenEntry → RegionsQuery → TokenCache → List Event → CbtRun ChangedRegions
  unfolding refresh_regions query_regions
  regions_with none q cache events = query_regions q cache events
  regions_with (some entry) q cache events =
      if ltb token_max_age (t.now events - entry.discovered_at)
      then refresh_regions q cache (Event.read_clock ∷ events)
      else query_regions q cache (Event.read_clock ∷ events)

  unfoldable pub get_changed_regions :
      RegionsQuery → TokenCache → List Event → CbtRun ChangedRegions
  unfolding regions_with cached
  get_changed_regions q cache events = regions_with (cached q.vm_uuid cache) q cache events
