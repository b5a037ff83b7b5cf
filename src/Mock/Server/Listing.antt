-- ===== src/Mock/Server/Listing.antt =====
-- The lists of the Nutanix client, against the mock server.
use nutanix_vma.Prelude.{
  ℕ, ◌+◌, ◌-◌, ◌*◌, ◌<◌, ◌≤◌, ltb, leb, length, take, drop, true, String, Option, none, some, List,
  [], ◌≡◌, refl, ap, ◌∙◌, inl, inr, Bool-cases, take_all, length-drop, drop_all, leb→le, ltb→lt,
  half_word, codes, arith,
}
use nutanix_vma.HttpClient.{Event, Request, Transport, Client, Result, request_with}
use nutanix_vma.HttpClient.Answered.{do_json-answered}
use nutanix_vma.HttpClient.Codec.{Page, Codec}
use nutanix_vma.HttpClient.Lists.{
  page_size, page_url, list_from, list_vms, list_subnets, list_clusters,
}
use nutanix_vma.HttpClient.Lists.Paged.{Serves, list_from_complete}
use nutanix_vma.Mock.{Store}
use nutanix_vma.Mock.Handlers.{
  Fields, MockRequest, Payload, reply, is_get, page_of, requested_page, handle_vm_list,
  handle_subnet_list, handle_cluster_list,
}
use nutanix_vma.Mock.Server.{
  dispatch, routes, read_request, serve, sent_reply, store_of, store_after, served,
}
use nutanix_vma.Mock.Server.Reading.{
  free_of, page_query, target-page, serve-target, read_request-top, read_request-skip,
}

page_of-from {ℓ} :
    {A : Type ℓ} (top skip : ℕ) (items : List A)
    → page_of top skip items
      ≡ record { items = take top (drop skip items); total = some (length items) }
unfolding page_of
page_of-from {A = A} top skip items = elim (Bool-cases (leb (length items) skip)) [
  | inl e ↦
      let empty : take {A = A} top [] ≡ [] = take_all {A = A} top [] (omega arith) in
      rw (e, drop_all skip items (leb→le (length items) skip e), empty) refl
  | inr e ↦ elim (Bool-cases (ltb (length items) (skip + top))) [
    | inl l ↦
        let rest = drop skip items in
        let short : length rest ≤ top =
          omega (arith, length-drop skip items, ltb→lt (length items) (skip + top) l) in
        rw
          (
            e,
            l,
            take_all (length items - skip) rest (omega (arith, length-drop skip items)),
            take_all top rest short,
          )
          refl
    | inr g ↦ let width : skip + top - skip ≡ top = omega arith in rw (e, g, width) refl
  ]
]

-- Whatever page of a list is written, it is read back.
abbrev pub ReadsBack :
    {A : Type 0} → (String → Option (Page A)) → (Page A → String) → List A → Type 0
ReadsBack decode write items =
    (offset : ℕ)
    → offset ≤ length items
    → decode
        (write (record { items = take page_size (drop offset items); total = some (length items) }))
      ≡ some (record { items = take page_size (drop offset items); total = some (length items) })

abbrev pub Fits {ℓ} : {A : Type ℓ} → (fuel : ℕ) → List A → Type 0
Fits fuel items = (length items < half_word) × (length items < page_size * fuel)

module _ (encode : Payload → String) (fields : String → Option Fields) (t : Transport) (c : Client)
    (start : Store) where
  -- A handler that gives a page of a list in the store, behind a path.
  abbrev Lists :
      {A : Type 0} → (path : String) → (wrap : Page A → Payload) → (Store → List A) → Type 0
  Lists path wrap list =
      (r : MockRequest) (s : Store)
      → is_get r ≡ true
      → dispatch (routes c.host) path r s ≡ (reply 200 (wrap (requested_page r (list s))), s)

  -- The page that is read from the request for it.
  requested_page-from :
      {A : Type 0} (r : Request) (offset : ℕ) (items : List A)
      → offset < half_word
      → requested_page (read_request fields r (some (page_query offset))) items
        ≡ record { items = take page_size (drop offset items); total = some (length items) }
  unfolding requested_page
  requested_page-from r offset items small =
      rw (read_request-top fields r offset small, read_request-skip fields r offset small)
        (page_of-from 500 offset items)

  serve-page :
      {A : Type 0} (path : String) (wrap : Page A → Payload) (list : Store → List A) (offset : ℕ)
      (s : Store)
      → free_of b'?' (codes path) ≡ true
      → Lists path wrap list
      → offset < half_word
      → serve encode fields c.host (request_with t c "GET" (page_url t c path offset) none) s
        ≡ some (
          reply 200 (
              wrap (record {
                items = take page_size (drop offset (list s));
                total = some (length (list s));
              })),
          s,
        )
  unfolding page_url read_request
  serve-page path wrap list offset s free route small =
      let r = request_with t c "GET" (page_url t c path offset) none in
      let (target, stripped, split) = target-page c.host path offset free in
      serve-target encode fields c.host r s target path _ stripped split
      ∙ ap some (
          route (read_request fields r (some (page_query offset))) s refl
          ∙ ap (λ page. (reply 200 (wrap page), s)) (requested_page-from r offset (list s) small))

  list-served :
      {A : Type 0} (decode : String → Option (Page A)) (path : String) (wrap : Page A → Payload)
      (list : Store → List A) (items : List A)
      → free_of b'?' (codes path) ≡ true
      → Lists path wrap list
      → ReadsBack decode (λ p. encode (wrap p)) items
      → ((url : String) → t.accepts "GET" url ≡ true)
      → (offset : ℕ) → offset ≤ length items
      → offset < half_word
      → Serves
          (served encode fields c.host t start)
          c
          decode
          path
          (λ events. list (store_after encode fields c.host start events) ≡ items)
          page_size
          items
          offset
  unfolding served store_after page_url
  list-served {A = A} decode path wrap list items free route coded accepts offset low small events
        before =
      let url = page_url t c path offset in
      let now = store_after encode fields c.host start events in
      let page_at : List A → Page A =
        λ all. record { items = take page_size (drop offset all); total = some (length all) } in
      let answer : serve encode fields c.host (request_with t c "GET" url none) now
          ≡ some (reply 200 (wrap (page_at items)), now) =
        serve-page path wrap list offset now free route small
        ∙ ap (λ all. some (reply 200 (wrap (page_at all)), now)) before in
      let (given, sent) =
        do_json-answered (served encode fields c.host t start) c decode "GET" url none 200 events
          (encode (wrap (page_at items))) (page_at items) refl (accepts url)
          (ap (sent_reply encode fields c.host) answer) (coded offset low) in
      (
        given,
        ap (λ after. list (store_after encode fields c.host start after)) sent
            ∙ ap (λ r. list (store_of encode fields c.host now r)) answer
            ∙ before,
      )

  list_complete :
      {A : Type 0} (decode : String → Option (Page A)) (path : String) (wrap : Page A → Payload)
      (list : Store → List A) (fuel : ℕ) (events : List Event)
      → free_of b'?' (codes path) ≡ true
      → Lists path wrap list
      → ReadsBack decode
          (λ p. encode (wrap p))
          (list (store_after encode fields c.host start events))
      → ((url : String) → t.accepts "GET" url ≡ true)
      → Fits fuel (list (store_after encode fields c.host start events))
      → (list_from (served encode fields c.host t start) c decode path fuel 0 [] events).0
        ≡ Result.ok (list (store_after encode fields c.host start events))
  list_complete decode path wrap list fuel events free route coded accepts fits =
      let items = list (store_after encode fields c.host start events) in
      list_from_complete (served encode fields c.host t start) c decode path
        (λ before. list (store_after encode fields c.host start before) ≡ items) fuel items events
        (λ offset low.
          list-served decode path wrap list items free route coded accepts offset low
            (omega (arith, low, fits.0)))
        refl fits.1

  -- Where encoding/json reads back the pages that it writes, and the URLs of the requests are accepted,
  -- the client's lists of VMs, subnets and clusters from the mock server give, after any requests before,
  -- exactly those in the server's store, in their order. The lists are shorter than 2 ^ 63, and the fuel
  -- is for one page more than they have full ones.
  pub lists-served :
      (codec : Codec) (fuel : ℕ) (events : List Event)
      → ReadsBack codec.vms
          (λ p. encode (Payload.vms p))
          (store_after encode fields c.host start events).vms
      → ReadsBack codec.subnets
          (λ p. encode (Payload.subnets p))
          (store_after encode fields c.host start events).subnets
      → ReadsBack codec.clusters
          (λ p. encode (Payload.clusters p))
          (store_after encode fields c.host start events).clusters
      → ((url : String) → t.accepts "GET" url ≡ true)
      → Fits fuel (store_after encode fields c.host start events).vms
      → Fits fuel (store_after encode fields c.host start events).subnets
      → Fits fuel (store_after encode fields c.host start events).clusters
      → let s = store_after encode fields c.host start events in
        let server = served encode fields c.host t start in
        ((list_vms server c codec fuel events).0 ≡ Result.ok s.vms)
        × ((list_subnets server c codec fuel events).0 ≡ Result.ok s.subnets)
        × ((list_clusters server c codec fuel events).0 ≡ Result.ok s.clusters)
  unfolding list_vms list_subnets list_clusters dispatch routes handle_vm_list handle_subnet_list
      handle_cluster_list
  lists-served codec fuel events vms_read subnets_read clusters_read accepts few_vms few_subnets
        few_clusters =
      (
        list_complete codec.vms "/api/vmm/v4.0/ahv/config/vms" Payload.vms (λ s. s.vms) fuel events
            refl (λ r s get. rw get refl) vms_read accepts few_vms,
        list_complete codec.subnets "/api/networking/v4.0/config/subnets" Payload.subnets
            (λ s. s.subnets) fuel events refl (λ r s get. rw get refl) subnets_read accepts
            few_subnets,
        list_complete codec.clusters "/api/clustermgmt/v4.0/config/clusters" Payload.clusters
            (λ s. s.clusters) fuel events refl (λ r s get. rw get refl) clusters_read accepts
            few_clusters,
      )
