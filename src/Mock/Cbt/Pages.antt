-- ===== src/Mock/Cbt/Pages.antt =====
-- The loop of `runDeltaRound` over the pages of the mock server.
use nutanix_vma.Prelude.{
  ℕ, zero, suc, ◌+◌, ◌-◌, ◌<◌, ◌≤◌, leb, ltb, length, drop, String, none, some, List, ◌++◌, ◌≡◌,
  refl, ap, sym, ◌∙◌, inl, inr, Bool-cases, arith, leb→le, leb→gt, take_all, length-drop, drop_all,
  page-append-drop, gt→leb, ge→ltb, lt→ltb,
}
use mathlib.Core.List.{append_assoc}
use nutanix_vma.Api.{ChangedRegion}
use nutanix_vma.Outside.{Reply, Call, Env}
use nutanix_vma.Session.{Session, ok, ◌>>=◌}
use nutanix_vma.Context.{Context}
use nutanix_vma.Phases.Delta.{collect_regions}
use nutanix_vma.Mock.Cbt.{cbt_page_size, regions_page}

-- The page from an offset on, with the rest: all that stands from there.
regions_page-more :
    (start : ℕ) (all : List ChangedRegion)
    → start + cbt_page_size < length all
    → (regions_page start all).next_offset ≡ some (start + cbt_page_size)
      × ((regions_page start all).regions ++ drop (start + cbt_page_size) all ≡ drop start all)
unfolding regions_page
regions_page-more start all h =
    let width : start + cbt_page_size - start ≡ cbt_page_size = omega arith in
    rw
      (
        gt→leb (length all) start (omega (arith, h)),
        ge→ltb (length all) (start + cbt_page_size) (omega (arith, h)),
        lt→ltb (start + cbt_page_size) (length all) h,
        width,
      )
      (refl, page-append-drop start cbt_page_size all)

regions_page-last :
    (start : ℕ) (all : List ChangedRegion)
    → length all ≤ start + cbt_page_size
    → ((regions_page start all).next_offset ≡ none)
      × ((regions_page start all).regions ≡ drop start all)
unfolding regions_page
regions_page-last start all h = elim (Bool-cases (leb (length all) start)) [
  | inl y ↦ rw y (refl, sym (drop_all start all (leb→le (length all) start y)))
  | inr n ↦ elim (Bool-cases (ltb (length all) (start + cbt_page_size))) [
    | inl l ↦
        rw (n, l, ge→ltb (length all) (length all) (omega arith))
          (
            refl,
            take_all (length all - start) (drop start all) (omega (arith, length-drop start all)),
          )
    | inr g ↦
        rw (n, g, ge→ltb (start + cbt_page_size) (length all) h)
          (
            refl,
            take_all (start + cbt_page_size - start) (drop start all)
                (omega (arith, length-drop start all, h)),
          )
  ]
]

module _ (env : Env) (page : ℕ → Call) (ctx : Context) (label : String)
    (all : List ChangedRegion) where
  abbrev pub Answers : Type 0
  Answers =
      (calls : List Call) (offset : ℕ)
      → env.changed_regions calls (page offset) ≡ Reply.ok (regions_page offset all)

  collect_regions-from :
      (fuel offset : ℕ) (found : List ChangedRegion) (s : Session)
      → Answers
      → length all - offset < fuel
      → (collect_regions env ctx label fuel page offset found s).0 ≡ ok (found ++ drop offset all)
  unfolding collect_regions ◌>>=◌
  collect_regions-from zero offset found s h fits = absurd (omega arith)
  collect_regions-from (suc fuel) offset found s h fits =
      elim (Bool-cases (leb (length all) (offset + cbt_page_size))) [
        | inl y ↦
            let (none_left, rest) =
              regions_page-last offset all (leb→le (length all) (offset + cbt_page_size) y) in
            rw (h s.calls offset, none_left, rest) refl
        | inr n ↦
            let (next, rest) =
              regions_page-more offset all (leb→gt (length all) (offset + cbt_page_size) n) in
            rw (h s.calls offset, next)
              (collect_regions-from fuel (offset + cbt_page_size) _ _ h
                  (omega (arith, fits, leb→gt (length all) (offset + cbt_page_size) n))
                ∙ ap ok (
                    append_assoc found (regions_page offset all).regions _
                    ∙ ap (λ x. found ++ x) rest))
      ]

  -- Where the pages of changed regions are those of the mock server, the loop of the controller over
  -- them ends with more fuel than there are regions, and gives all the regions that the server is set up
  -- with, in their order, behind those found before.
  pub collect_regions-mock :
      (fuel : ℕ) (found : List ChangedRegion) (s : Session)
      → Answers
      → length all < fuel
      → (collect_regions env ctx label fuel page 0 found s).0 ≡ ok (found ++ all)
  collect_regions-mock fuel found s h fits =
      collect_regions-from fuel 0 found s h (omega (arith, fits))
