-- ===== src/HttpClient/Cbt/Tokens.antt =====
-- Which token a query for changed regions is sent with.
use nutanix_vma.Prelude.{
  ◌-◌, ◌≤◌, ◌<◌, ge→ltb, lt→ltb, String, true, List, ◌∷◌, Option, none, some, ◌≡◌, refl, ap, sym,
  ◌∙◌, is_empty, ◌||◌, eq_iff, Bool-cases, inl, inr,
}
use nutanix_vma.Api.{CbtClusterInfo}
use nutanix_vma.HttpClient.{Event, Transport, Client, Result}
use nutanix_vma.HttpClient.Codec.{Codec}
use nutanix_vma.HttpClient.Cbt.{
  TokenEntry, TokenCache, cached, token_max_age, RegionsQuery, keep_token, ask_cluster,
  discover_cluster_for_cbt, regions_request, query_regions, after_refresh, refresh_regions,
  regions_with, get_changed_regions, regions_url,
}

abbrev token_of : Option TokenEntry → String
token_of none = ""
token_of (some entry) = entry.jwt_token

abbrev info_token : Result CbtClusterInfo → String
info_token (Result.ok info) = info.jwt_token
info_token (Result.err e) = ""

cached_first :
    (vm : String) (entry : TokenEntry) (cache : TokenCache)
    → cached vm ((vm, entry) ∷ cache) ≡ some entry
unfolding cached
cached_first vm entry cache = rw ((eq_iff vm vm).1 refl) refl

module _ (t : Transport) (codec : Codec) (c : Client) where
  -- A discovery that succeeds caches the token that it gives.
  keep_token-caches :
      (vm : String) (cache : TokenCache) (r : Result CbtClusterInfo) (events : List Event)
      (info : CbtClusterInfo)
      → (keep_token t codec c vm cache r events).result ≡ Result.ok info
      → token_of (cached vm (keep_token t codec c vm cache r events).cache) ≡ info.jwt_token
  unfolding keep_token
  keep_token-caches vm cache (Result.err e) events info h = absurd cc
  keep_token-caches vm cache (Result.ok found) events info h =
      elim (Bool-cases (is_empty found.prism_element_url || is_empty found.jwt_token)) [
        | inl y ↦ absurd (let q = (rw y at h) in cc q)
        | inr n ↦
            rw n (ap token_of (cached_first vm _ cache) ∙ ap info_token (let q = (rw n at h) in q))
      ]

  discover-caches :
      (vm : String) (cache : TokenCache) (events : List Event) (info : CbtClusterInfo)
      → (discover_cluster_for_cbt t codec c vm cache events).result ≡ Result.ok info
      → token_of (cached vm (discover_cluster_for_cbt t codec c vm cache events).cache)
        ≡ info.jwt_token
  unfolding discover_cluster_for_cbt
  discover-caches vm cache events info h =
      let answer = ask_cluster t codec c vm events in
      keep_token-caches vm cache answer.0 answer.1 info h

  -- A query that may be sent.
  query_regions-sent :
      (q : RegionsQuery) (cache : TokenCache) (events : List Event)
      → t.accepts "GET" (regions_url t codec c q) ≡ true
      → ((query_regions t codec c q cache events).events
          ≡ Event.sent (regions_request t codec c q) ∷ events)
        × ((query_regions t codec c q cache events).cache ≡ cache)
  unfolding query_regions
  query_regions-sent q cache events a = rw a (refl, refl)

  -- A refresh that finds a token.
  refresh_regions-sent :
      (q : RegionsQuery) (cache : TokenCache) (events : List Event) (info : CbtClusterInfo)
      → (discover_cluster_for_cbt t codec c q.vm_uuid cache events).result ≡ Result.ok info
      → let found = discover_cluster_for_cbt t codec c q.vm_uuid cache events in
        refresh_regions t codec c q cache events
        ≡ query_regions t codec c
            (record q { pe_url = info.prism_element_url; jwt_token = info.jwt_token })
            found.cache
            found.events
  unfolding refresh_regions after_refresh
  refresh_regions-sent q cache events info h = rw h refl

  -- A query whose VM has a cached token that is at most 12 minutes old.
  get_changed_regions-kept :
      (q : RegionsQuery) (cache : TokenCache) (events : List Event) (entry : TokenEntry)
      → cached q.vm_uuid cache ≡ some entry
      → t.now events - entry.discovered_at ≤ token_max_age
      → get_changed_regions t codec c q cache events
        ≡ query_regions t codec c q cache (Event.read_clock ∷ events)
  unfolding get_changed_regions regions_with
  get_changed_regions-kept q cache events entry e h =
      rw (e, ge→ltb token_max_age (t.now events - entry.discovered_at) h) refl

  get_changed_regions-refreshed :
      (q : RegionsQuery) (cache : TokenCache) (events : List Event) (entry : TokenEntry)
      → cached q.vm_uuid cache ≡ some entry
      → token_max_age < t.now events - entry.discovered_at
      → get_changed_regions t codec c q cache events
        ≡ refresh_regions t codec c q cache (Event.read_clock ∷ events)
  unfolding get_changed_regions regions_with
  get_changed_regions-refreshed q cache events entry e h =
      rw (e, lt→ltb token_max_age (t.now events - entry.discovered_at) h) refl

  -- A query made when the VM's cached token is older than 12 minutes, where the discovery then succeeds,
  -- is sent with the token and to the Prism Element that the discovery gives, and the cache has that
  -- token afterwards. The same query made again in the 12 minutes after it is sent with the token that
  -- the caller passes, not with the one in the cache.
  pub get_changed_regions-stale :
      (q : RegionsQuery) (cache : TokenCache) (events later : List Event) (entry fresh : TokenEntry)
      (info : CbtClusterInfo)
      → let found =
          discover_cluster_for_cbt t codec c q.vm_uuid cache (Event.read_clock ∷ events) in
        let renewed = record q { pe_url = info.prism_element_url; jwt_token = info.jwt_token } in
        let first = get_changed_regions t codec c q cache events in
        cached q.vm_uuid cache ≡ some entry
        → token_max_age < t.now events - entry.discovered_at
        → found.result ≡ Result.ok info
        → t.accepts "GET" (regions_url t codec c renewed) ≡ true
        → t.accepts "GET" (regions_url t codec c q) ≡ true
        → cached q.vm_uuid first.cache ≡ some fresh
        → t.now later - fresh.discovered_at ≤ token_max_age
        → (first.events ≡ Event.sent (regions_request t codec c renewed) ∷ found.events)
          × (fresh.jwt_token ≡ info.jwt_token)
          × ((get_changed_regions t codec c q first.cache later).events
              ≡ Event.sent (regions_request t codec c q) ∷ Event.read_clock ∷ later)
  get_changed_regions-stale q cache events later entry fresh info old age ok sendable sendable' new
        young =
      let renewed = record q { pe_url = info.prism_element_url; jwt_token = info.jwt_token } in
      let found = discover_cluster_for_cbt t codec c q.vm_uuid cache (Event.read_clock ∷ events) in
      let first = get_changed_regions t codec c q cache events in
      let step =
        get_changed_regions-refreshed q cache events entry old age
        ∙ refresh_regions-sent q cache (Event.read_clock ∷ events) info ok in
      let (sent, same) = query_regions-sent renewed found.cache found.events sendable in
      (
        ap (λ r. r.events) step ∙ sent,
        ap token_of (sym new ∙ ap (λ r. cached q.vm_uuid r.cache) step ∙ ap (cached q.vm_uuid) same)
            ∙ discover-caches q.vm_uuid cache (Event.read_clock ∷ events) info ok,
        ap (λ r. r.events) (get_changed_regions-kept q first.cache later fresh new young)
            ∙ (query_regions-sent q first.cache (Event.read_clock ∷ later) sendable').0,
      )
