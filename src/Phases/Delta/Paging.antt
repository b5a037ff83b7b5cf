-- ===== src/Phases/Delta/Paging.antt =====
-- The loop of `runDeltaRound` over the pages of changed regions.
use nutanix_vma.Prelude.{
  ℕ, zero, suc, ◌-◌, ◌≤◌, ◌<◌, String, none, some, List, ◌∷◌, ◌++◌, ◌≡◌, refl, inl, inr,
  Option-cases, arith,
}
use mathlib.Core.List.{append_assoc}
use nutanix_vma.Api.{ChangedRegion, ChangedRegions}
use nutanix_vma.Outside.{Reply, Call, Env}
use nutanix_vma.Session.{Session, ok, ◌>>=◌}
use nutanix_vma.Context.{Context}
use nutanix_vma.Phases.Delta.{collect_regions}

module _ (env : Env) (page : ℕ → Call) where
  -- The regions on the pages from an offset on: the page there, then those from the offset it names.
  pub data IsPaged : List Call → ℕ → List ChangedRegion → Type 0 where
    last :
        (calls : List Call) (offset : ℕ) (r : ChangedRegions)
        → env.changed_regions calls (page offset) ≡ Reply.ok r
        → r.next_offset ≡ none
        → IsPaged calls offset r.regions
    more :
        (calls : List Call) (offset : ℕ) (r : ChangedRegions) (next : ℕ) (rest : List ChangedRegion)
        → env.changed_regions calls (page offset) ≡ Reply.ok r
        → r.next_offset ≡ some next
        → IsPaged (page offset ∷ calls) next rest
        → IsPaged calls offset (r.regions ++ rest)

  -- At any time each page is answered, and names at most a later offset up to `limit`.
  abbrev pub Advancing : (limit : ℕ) → Type 0
  Advancing limit =
      (calls : List Call) (i : ℕ)
      → (r : ChangedRegions) × (env.changed_regions calls (page i) ≡ Reply.ok r)
        × ((next : ℕ) → r.next_offset ≡ some next → (i < next) × (next ≤ limit))

  module _ (ctx : Context) (label : String) where
    -- If the pages advance up to a limit, the loop ends, and gives the regions of all the pages in their
    -- order behind those found before.
    pub collect_regions-all :
        (limit fuel offset : ℕ) (regions : List ChangedRegion) (s : Session)
        → Advancing limit
        → limit - offset < fuel
        → (rest : List ChangedRegion) × IsPaged s.calls offset rest
          × ((collect_regions env ctx label fuel page offset regions s).0 ≡ ok (regions ++ rest))
    unfolding collect_regions ◌>>=◌
    collect_regions-all limit zero offset regions s adv h = absurd (omega arith)
    collect_regions-all limit (suc fuel) offset regions s adv h =
        let (r, e, next) = adv s.calls offset in
        elim (Option-cases r.next_offset) [
          | inl n ↦ (r.regions, IsPaged.last s.calls offset r e n, rw (e, n) refl)
          | inr (i, n) ↦
              let (rest, paged, q) =
                collect_regions-all limit fuel i (regions ++ r.regions)
                  (record s { calls = page offset ∷ s.calls }) adv (omega (arith, next i n)) in
              (
                r.regions ++ rest,
                IsPaged.more s.calls offset r i rest e n paged,
                rw (e, n, q, append_assoc regions r.regions rest) refl,
              )
        ]
