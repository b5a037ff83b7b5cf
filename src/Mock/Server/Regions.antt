-- ===== src/Mock/Server/Regions.antt =====
-- The Nutanix client asks the mock server for changed regions.
use Prim.Native.String
use Prim.Native.String.append
use nutanix_vma.Prelude.{
  ℕ, ◌<◌, ◌==◌, true, false, not, String, Option, none, some, List, [], ◌∷◌, ◌++◌, ◌≡◌, refl, ap,
  sym, ◌∙◌, inl, inr, Bool-cases, codes, concat, decimal64, trim_slashes, half_word, str_eq, eq_iff,
  is_empty, if◌then◌else◌, self→==,
}
use nutanix_vma.Prelude.Digits.{codes-concat, decimal64-IsDigit}
use nutanix_vma.HttpClient.{Event, Transport, Client, ClientError, HttpError, Result, decode_reply}
use nutanix_vma.HttpClient.Codec.{Codec}
use nutanix_vma.HttpClient.Cbt.{
  TokenEntry, RegionsQuery, cookie_value, regions_url, regions_request, regions_reply,
  query_regions, cached, regions_with, get_changed_regions,
}
use nutanix_vma.Mock.{Store}
use nutanix_vma.Mock.Range.{strip_prefix}
use nutanix_vma.Mock.Handlers.{
  Fields, MockRequest, Payload, reply, is_get, natural_or_zero, split_first,
}
use nutanix_vma.Mock.Cbt.{expected_token, regions_page, handle_cbt_changed_regions}
use nutanix_vma.Mock.Server.{
  strip_text, split_on, query_pieces, query_value, read_request, dispatch, routes, serve,
  store_after, served,
}
use nutanix_vma.Mock.Server.Reading.{
  free_of, is_identifier, is_identifier-free, free_of-digits, decimal-decimal64,
  natural_or_zero-decimal, strip_text-append, split_first-append, serve-target,
}

split_on-piece :
    (sep : ℕ) (a b : List ℕ)
    → free_of sep a ≡ true
    → split_on sep (a ++ sep ∷ b) ≡ a ∷ split_on sep b
unfolding split_on
split_on-piece sep [] b h = rw (self→== sep) refl
split_on-piece sep (c ∷ a) b h = elim (Bool-cases (c == sep)) [
  | inl e ↦ absurd (let q = (rw e at h) in cc q)
  | inr e ↦ rw (e, split_on-piece sep a b (let q = (rw e at h) in q)) refl
]

abbrev regions_query : RegionsQuery → List String
regions_query q =
    "vmExtId="
    ∷ q.vm_uuid
    ∷ "&snapshotExtId="
    ∷ q.snapshot_uuid
    ∷ "&baseSnapshotExtId="
    ∷ q.base_snapshot_uuid
    ∷ "&offset="
    ∷ decimal64 q.offset
    ∷ "&length="
    ∷ decimal64 q.length
    ∷ "&blockSize="
    ∷ decimal64 q.block_size
    ∷ []

-- The UUIDs stand for themselves in the query.
pub record Plain (q : RegionsQuery) : Type 0 where
  pub vm : is_identifier q.vm_uuid ≡ true
  pub snapshot : is_identifier q.snapshot_uuid ≡ true
  pub base : is_identifier q.base_snapshot_uuid ≡ true

regions_query-offset :
    (q : RegionsQuery)
    → Plain q
    → q.offset < half_word
    → natural_or_zero
        (query_value (codes "offset=") (query_pieces (some (concat (regions_query q)))))
      ≡ q.offset
unfolding query_pieces query_value strip_prefix split_on
regions_query-offset q plain small =
    ap (λ text. natural_or_zero (query_value (codes "offset=") (split_on b'&' text)))
      (codes-concat (regions_query q))
    ∙ rw
        (
          split_on-piece b'&' (codes q.vm_uuid) _ (is_identifier-free b'&' q.vm_uuid refl plain.vm),
          split_on-piece b'&' (codes q.snapshot_uuid) _
              (is_identifier-free b'&' q.snapshot_uuid refl plain.snapshot),
          split_on-piece b'&' (codes q.base_snapshot_uuid) _
              (is_identifier-free b'&' q.base_snapshot_uuid refl plain.base),
          split_on-piece b'&' (codes (decimal64 q.offset)) _
              (free_of-digits _ (decimal64-IsDigit q.offset small)),
        )
        (rw (sym (decimal-decimal64 q.offset small)) (natural_or_zero-decimal q.offset small))

abbrev regions_path : String
regions_path = "/api/storage/v4.0/config/changed-regions"

dispatch-regions :
    (url : String) (r : MockRequest) (s : Store)
    → dispatch (routes url) regions_path r s ≡ handle_cbt_changed_regions r s
unfolding dispatch routes strip_text
dispatch-regions url r s = refl

-- What the server says to a request with this token.
abbrev pub judged : (token : String) (offset : ℕ) → Store → (status : ℕ) × Payload
judged token offset s =
    if is_empty token
    then (401, Payload.error "missing JWT token in cookie")
    else if not (str_eq token (expected_token s.cbt_config))
    then (401, Payload.error "invalid JWT token")
    else (200, Payload.regions (regions_page offset s.cbt_config.changed_regions))

handle_cbt_changed_regions-judged :
    (r : MockRequest) (s : Store) (token : String)
    → is_get r ≡ true
    → r.cookie ≡ some token
    → handle_cbt_changed_regions r s ≡ (
      reply
          (judged token (natural_or_zero r.offset) s).0
          (judged token (natural_or_zero r.offset) s).1,
      s,
    )
unfolding handle_cbt_changed_regions
handle_cbt_changed_regions-judged r s token get sent =
    rw (get, sent)
      (elim (Bool-cases (is_empty token)) [
        | inl e ↦ rw e refl
        | inr e ↦ rw e (elim (Bool-cases (str_eq token (expected_token s.cbt_config))) [
          | inl f ↦ rw f refl
          | inr f ↦ rw f refl
        ])
      ])

module _ (t : Transport) (codec : Codec) (c : Client) where
  regions_url-target :
      (q : RegionsQuery) (host : String)
      → trim_slashes q.pe_url ≡ host
      → (target : String) × (strip_text host (regions_url t codec c q) ≡ some target)
        × (split_first b'?' target ≡ (regions_path, some (concat (regions_query q))))
  unfolding regions_url
  regions_url-target q host same = (
    _,
    rw same (strip_text-append host _),
    ap (λ x. split_first b'?' (String.◌++◌ regions_path x)) (append.cons "?" "vmExtId=" _)
        ∙ split_first-append "?" regions_path (concat (regions_query q)) refl,
  )

expected_token-full :
    (s : Store) (token : String)
    → is_empty token ≡ true
    → str_eq token (expected_token s.cbt_config) ≡ false
expected_token-full s token e = elim (Bool-cases (is_empty s.cbt_config.jwt_token)) [
  | inl y ↦ rw y (rw ((eq_iff token "").0 e) refl)
  | inr n ↦ rw n (elim (Bool-cases (str_eq token s.cbt_config.jwt_token)) [
    | inl f ↦
        absurd
          (let same = ap is_empty ((eq_iff token s.cbt_config.jwt_token).0 f) in cc (same, e, n))
    | inr f ↦ f
  ])
]

abbrev pub refusal : (token : String) → String
refusal token = if is_empty token then "missing JWT token in cookie" else "invalid JWT token"

judged-lem :
    (token : String) (offset : ℕ) (s : Store)
    → judged token offset s ≡ (
        if str_eq token (expected_token s.cbt_config)
        then (200, Payload.regions (regions_page offset s.cbt_config.changed_regions))
        else (401, Payload.error (refusal token)))
judged-lem token offset s = elim (Bool-cases (is_empty token)) [
  | inl e ↦ rw (e, expected_token-full s token e) refl
  | inr e ↦ rw e (elim (Bool-cases (str_eq token (expected_token s.cbt_config))) [
    | inl f ↦ rw f refl
    | inr f ↦ rw f refl
  ])
]

module _ (encode : Payload → String) (fields : String → Option Fields) (t : Transport)
    (codec : Codec) (c : Client) (start : Store) (q : RegionsQuery) (events : List Event) where
  serve-regions :
      (s : Store)
      → trim_slashes q.pe_url ≡ c.host
      → Plain q
      → q.offset < half_word
      → serve encode fields c.host (regions_request t codec c q) s
        ≡ some (
          reply
              (judged (cookie_value q.jwt_token) q.offset s).0
              (judged (cookie_value q.jwt_token) q.offset s).1,
          s,
        )
  unfolding regions_request read_request
  serve-regions s same plain small =
      let r = regions_request t codec c q in
      let m = read_request fields r (some (concat (regions_query q))) in
      let (target, stripped, split) = regions_url-target t codec c q c.host same in
      serve-target encode fields c.host r s target regions_path _ stripped split
      ∙ ap some (
          dispatch-regions c.host m s
          ∙ handle_cbt_changed_regions-judged m s (cookie_value q.jwt_token) refl refl
          ∙ ap
              (λ offset. (
                reply (judged (cookie_value q.jwt_token) offset s).0
                    (judged (cookie_value q.jwt_token) offset s).1,
                s,
              ))
              (regions_query-offset q plain small))

  -- Against the mock server, after any requests before, a query for changed regions of a VM without a
  -- cached token gives, where what a cookie keeps of the token is the server's token, the page of the
  -- server's regions from the offset that is asked for, and else fails with status 401 and a message that
  -- says whether nothing of it was kept; the server's store is as before. The URL is the server's own, up
  -- to slashes at its end; the UUIDs have only letters, digits and hyphens, and are not empty; the offset
  -- is not negative; encoding/json reads back the page; the URLs are accepted.
  pub get_changed_regions-served :
      (cache : List (String × TokenEntry))
      → cached q.vm_uuid cache ≡ none
      → trim_slashes q.pe_url ≡ c.host
      → Plain q
      → q.offset < half_word
      → ((method url : String) → t.accepts method url ≡ true)
      → codec.changed_regions (
          encode (
            Payload.regions (
              regions_page q.offset
                (store_after encode fields c.host start events).cbt_config.changed_regions)))
        ≡ some (
            regions_page q.offset
              (store_after encode fields c.host start events).cbt_config.changed_regions)
      → let s = store_after encode fields c.host start events in
        let page = regions_page q.offset s.cbt_config.changed_regions in
        let run =
          get_changed_regions (served encode fields c.host t start) codec c q cache events in
        (run.result ≡ (
          if str_eq (cookie_value q.jwt_token) (expected_token s.cbt_config)
          then Result.ok page
          else Result.err (
              ClientError.http (
                HttpError.api 401
                  (encode (Payload.error (refusal (cookie_value q.jwt_token))))
                  (regions_url t codec c q)))))
        × (store_after encode fields c.host start run.events ≡ s)
  unfolding get_changed_regions regions_with query_regions served store_after decode_reply
      regions_reply regions_request
  get_changed_regions-served cache fresh same plain small accepts read =
      let s = store_after encode fields c.host start events in
      let answer = serve-regions s same plain small in
      rw fresh (
        rw (accepts "GET" (regions_url t codec c q)) (
          rw answer (
            rw (judged-lem (cookie_value q.jwt_token) q.offset s)
              (elim (Bool-cases (str_eq (cookie_value q.jwt_token) (expected_token s.cbt_config))) [
                | inl e ↦ rw e (rw read (refl, refl))
                | inr e ↦ rw e (refl, refl)
              ]))))
