-- ===== src/Mock/Cbt.antt =====
-- handlers_cbt.go of pkg/mock.
pub mod Pages
use nutanix_vma.Prelude.{
  ℕ, zero, suc, ◌+◌, ◌-◌, ◌<◌, ◌≤◌, leb, ltb, length, take, drop, String, Bool, true, false, not,
  ◌&&◌, ◌||◌, Option, none, some, List, [], ◌∷◌, ◌++◌, str_eq, is_empty, if◌then◌else◌, ◌≡◌, refl,
  ap, sym, ◌∙◌, inl, inr, Bool-cases, arith, leb→le, leb→gt, ltb→lt, ltb→ge, take_all, length-drop,
  drop_all, page-append-drop, gt→leb, le→leb, ge→ltb, lt→ltb,
}
use mathlib.Core.List.{append_assoc, append-nil}
use nutanix_vma.Api.{CbtClusterInfo, ChangedRegion, ChangedRegions}
use nutanix_vma.Outside.{Reply, Call, Env}
use nutanix_vma.Session.{Session, ok, ◌>>=◌}
use nutanix_vma.Context.{Context}
use nutanix_vma.Phases.Delta.{collect_regions}
use nutanix_vma.Mock.{Store, CbtConfig}
use nutanix_vma.Mock.Handlers.{
  MockRequest, MockReply, Payload, reply, refuse, not_allowed, is_get, is_post, natural_or_zero,
}

abbrev pub cbt_page_size : ℕ
cbt_page_size = 3

abbrev pub expected_token : CbtConfig → String
expected_token config = if is_empty config.jwt_token then "mock-jwt-token" else config.jwt_token

-- `url` is the server's own.
unfoldable pub handle_cbt_discover_cluster :
    (url : String) → MockRequest → Store → MockReply × Store
handle_cbt_discover_cluster url r s = if not (is_post r) then not_allowed s else (
  reply 200 (
      Payload.cluster_info
        (record { prism_element_url = url; jwt_token = expected_token s.cbt_config })),
  s,
)

-- The page from an offset on: an offset counts regions.
unfoldable pub regions_page : (offset : ℕ) → List ChangedRegion → ChangedRegions
regions_page start regions =
    let total = length regions in
    let last = if ltb total (start + cbt_page_size) then total else start + cbt_page_size in
    if leb total start then record { regions = []; next_offset = none } else record {
      regions = take (last - start) (drop start regions);
      next_offset = if ltb last total then some last else none;
    }

abbrev pub cookie_value : Option String → String
cookie_value none = ""
cookie_value (some value) = value

unfoldable pub handle_cbt_changed_regions : MockRequest → Store → MockReply × Store
unfolding regions_page natural_or_zero
handle_cbt_changed_regions r s =
    if not (is_get r)
    then not_allowed s
    else if is_empty (cookie_value r.cookie)
    then refuse 401 "missing JWT token in cookie" s
    else if not (str_eq (cookie_value r.cookie) (expected_token s.cbt_config))
    then refuse 401 "invalid JWT token" s
    else (
      reply 200
          (Payload.regions (regions_page (natural_or_zero r.offset) s.cbt_config.changed_regions)),
      s,
    )
