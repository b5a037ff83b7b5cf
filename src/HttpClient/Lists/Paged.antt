-- ===== src/HttpClient/Lists/Paged.antt =====
-- What the lists by pages give.
use nutanix_vma.Prelude.{
  ℕ, zero, suc, ◌+◌, ◌*◌, ◌<◌, ◌≤◌, leb, length, length-append, take, drop, take-append-take,
  take_all, length-take, length-take_short, length-take-drop, String, List, [], ◌++◌, Option, none,
  some, ◌≡◌, refl, ap, inl, inr, Bool-cases, leb→gt, leb→le, gt→leb, arith, if◌then◌else◌,
}
use nutanix_vma.HttpClient.{
  Event, Transport, Client, ClientError, Result, pure, and_then_ok, do_json,
}
use nutanix_vma.HttpClient.Codec.{Page}
use nutanix_vma.HttpClient.Lists.{page_size, is_complete, page_url, list_from}

module _ {ℓ} {A : Type ℓ} (t : Transport) (c : Client) (decode : String → Option (Page A))
    (path : String) (Before : List Event → Type 0) where
  -- As long as `Before` holds of what has happened, a page is answered with at most `top` items from its
  -- offset on, and the total, and `Before` holds after it.
  abbrev pub Serves : (top : ℕ) → List A → (offset : ℕ) → Type ℓ
  Serves top items offset =
      (events : List Event)
      → Before events
      → ((do_json t c decode "GET" (page_url t c path offset) none events).0
          ≡ Result.ok
              (record { items = take top (drop offset items); total = some (length items) }))
        × Before (do_json t c decode "GET" (page_url t c path offset) none events).1

  -- One round of the loop, where a page is answered.
  list_from-step :
      (fuel offset : ℕ) (collected : List A) (events : List Event) (page : Page A)
      → (do_json t c decode "GET" (page_url t c path offset) none events).0 ≡ Result.ok page
      → let after = (do_json t c decode "GET" (page_url t c path offset) none events).1 in
        list_from t c decode path (suc fuel) offset collected events
        ≡ (if is_complete page.total (length (collected ++ page.items))
              then pure (collected ++ page.items)
              else list_from t c decode path fuel (offset + page_size) (collected ++ page.items))
            after
  unfolding list_from
  list_from-step fuel offset collected events page e = and_then_ok _ _ page e

  -- The items before an offset have been collected.
  list_from-all :
      (fuel offset : ℕ) (items : List A) (events : List Event)
      → ((offset : ℕ) → offset ≤ length items → Serves page_size items offset)
      → Before events
      → offset ≤ length items
      → length items < offset + page_size * fuel
      → (list_from t c decode path fuel offset (take offset items) events).0 ≡ Result.ok items
  list_from-all zero offset items events s b low h = absurd (omega (arith, low, h))
  list_from-all (suc fuel) offset items events s b low h =
      let after = (do_json t c decode "GET" (page_url t c path offset) none events).1 in
      let (answered, still) = s offset low events b in
      rw
        (
          list_from-step fuel offset (take offset items) events _ answered,
          take-append-take offset page_size items,
        )
        (elim (Bool-cases (leb (length items) (length (take (offset + page_size) items)))) [
          | inl e ↦ rw e (
              ap Result.ok (
                take_all (offset + page_size) items (
                  omega (
                    arith,
                    length-take (offset + page_size) items,
                    leb→le (length items) (length (take (offset + page_size) items)) e,
                  ))))
          | inr e ↦ rw e (
              list_from-all fuel (offset + page_size) items after s still
                (length-take_short (offset + page_size) items
                  (leb→gt (length items) (length (take (offset + page_size) items)) e))
                (omega (arith, h)))
        ])

  -- The list is collected up to a number less than its length, so the loop goes on.
  list_from-short :
      (fuel offset top : ℕ) (items collected : List A) (events : List Event)
      → ((offset : ℕ) → Serves top items offset)
      → Before events
      → top < page_size
      → length collected < length items
      → length collected < offset
      → (list_from t c decode path fuel offset collected events).0 ≡ Result.err ClientError.diverged
  list_from-short zero offset top items collected events s b low h k = unfold list_from in refl
  list_from-short (suc fuel) offset top items collected events s b low h k =
      let after = (do_json t c decode "GET" (page_url t c path offset) none events).1 in
      let page = take top (drop offset items) in
      let (answered, still) = s offset events b in
      let short : length (collected ++ page) < length items =
        omega (arith, length-append collected page, length-take-drop offset top items, h, k) in
      rw
        (
          list_from-step fuel offset collected events _ answered,
          gt→leb (length items) (length (collected ++ page)) short,
        )
        (list_from-short fuel (offset + page_size) top items (collected ++ page) after s still low
          short
          (omega
            (arith, length-append collected page, length-take top (drop offset items), low, k)))

  -- Where a server answers each page up to the end of its items with the items from its offset on, up to
  -- as many as are asked for, and the total, and this holds after each page, a list by pages gives all the
  -- items in their order, with at most one request more than it has full pages.
  pub list_from_complete :
      (fuel : ℕ) (items : List A) (events : List Event)
      → ((offset : ℕ) → offset ≤ length items → Serves page_size items offset)
      → Before events
      → length items < page_size * fuel
      → (list_from t c decode path fuel 0 [] events).0 ≡ Result.ok items
  list_from_complete fuel items events s b h =
      list_from-all fuel 0 items events s b (omega arith) (omega (arith, h))

  -- Where a server answers each page with at most `top` items, `top` less than the 500 that are asked for
  -- and less than the total, and this holds after each page, a list by pages never ends: no fuel is
  -- enough.
  pub list_from-capped :
      (fuel top : ℕ) (items : List A) (events : List Event)
      → ((offset : ℕ) → Serves top items offset)
      → Before events
      → top < page_size
      → top < length items
      → (list_from t c decode path fuel 0 [] events).0 ≡ Result.err ClientError.diverged
  list_from-capped zero top items events s b low h = unfold list_from in refl
  list_from-capped (suc fuel) top items events s b low h =
      let after = (do_json t c decode "GET" (page_url t c path 0) none events).1 in
      let (answered, still) = s 0 events b in
      let short : length (take top items) < length items =
        omega (arith, length-take top items, h) in
      rw
        (
          list_from-step fuel 0 [] events _ answered,
          gt→leb (length items) (length (take top items)) short,
        )
        (list_from-short fuel page_size top items (take top items) after s still low short
          (omega (arith, length-take top items, low)))
