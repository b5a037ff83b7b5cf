-- ===== src/Phases/Volumes/Poll.antt =====
-- When a poll of the DataVolumes ends the phase: `pollDataVolumes` and the end of `phaseImportDisks`.
use nutanix_vma.Prelude.{
  if◌then◌else◌, String, Bool, true, false, ◌&&◌, List, [], ◌∷◌, ◌≡◌, ◌⊎◌, ◌↔◌, refl, inl, inr,
  arith,
}
use nutanix_vma.Api.{ApiError}
use nutanix_vma.Outside.{Reply, DataVolumePhase, Kind, Call, Env}
use nutanix_vma.Session.{Session, Outcome, ok, return, Exec, done, waiting, pure, continue, ◌>>=◌}
use nutanix_vma.Context.{Context, target_key}
use nutanix_vma.Transfer.{get_data_volume_progress}
use nutanix_vma.Phases.Volumes.{judge_poll, poll_from, poll_data_volumes}

decided :
    (r : Outcome Bool × Session)
    → (continue r.0 (λ b. if b then pure done else pure waiting) r.1).0 ≡ ok done
    → r.0 ≡ ok true
unfolding pure
decided (ok true, s) h = refl
decided (ok false, s) h = absurd cc
decided (return x, s) h = absurd cc

module _ (env : Env) (ctx : Context) where
  -- Asked one after the other, each of the DataVolumes is answered to have succeeded.
  abbrev pub AllSucceeded : List String → List Call → Type 0
  AllSucceeded [] calls = Unit
  AllSucceeded (n ∷ ns) calls =
      let k = target_key ctx Kind.data_volume n in
      (env.data_volume calls k ≡ Reply.ok DataVolumePhase.succeeded)
      × AllSucceeded ns (Call.get k ∷ calls)

  module _ (polling label : String) where
    judged :
        (name : String) (r : Reply DataVolumePhase) (f : Bool → Exec Bool) (s : Session)
        → ((judge_poll env ctx polling label name r >>= f) s).0 ≡ ok true
        → ((r ≡ Reply.ok DataVolumePhase.succeeded) × ((f true s).0 ≡ ok true))
          ⊎ ((f false s).0 ≡ ok true)
    unfolding judge_poll ◌>>=◌
    judged name (Reply.err ApiError.not_found) f s h = inr h
    judged name (Reply.err ApiError.already_exists) f s h = absurd cc
    judged name (Reply.err (ApiError.other x)) f s h = absurd cc
    judged name (Reply.ok DataVolumePhase.succeeded) f s h = inl (refl, h)
    judged name (Reply.ok DataVolumePhase.failed) f s h = absurd cc
    judged name (Reply.ok DataVolumePhase.other) f s h = inr h

    poll_from-only :
        (names : List String) (b : Bool) (s : Session)
        → (poll_from env ctx polling label b names s).0 ≡ ok true
        → (b ≡ true) × AllSucceeded names s.calls
    unfolding poll_from get_data_volume_progress ◌>>=◌
    poll_from-only [] b s h = (cc, tt)
    poll_from-only (n ∷ ns) b s h =
        let k = target_key ctx Kind.data_volume n in
        let s' : Session = record s { calls = Call.get k ∷ s.calls } in
        elim (judged n (env.data_volume s.calls k)
          (λ one. poll_from env ctx polling label (b && one) ns) s' h) [
            | inl (e, q) ↦
                let (c, all) = poll_from-only ns (b && true) s' q in (ground arith, (e, all))
            | inr q ↦ let (c, all) = poll_from-only ns (b && false) s' q in absurd (ground arith)
          ]

    poll_from-if :
        (names : List String) (s : Session)
        → AllSucceeded names s.calls
        → (poll_from env ctx polling label true names s).0 ≡ ok true
    unfolding poll_from get_data_volume_progress judge_poll ◌>>=◌
    poll_from-if [] s h = refl
    poll_from-if (n ∷ ns) s h = rw h.0 (
        poll_from-if ns
          (record s { calls = Call.get (target_key ctx Kind.data_volume n) ∷ s.calls }) h.1)

    -- The poll completes the phase exactly if each DataVolume that the status names is answered to have
    -- succeeded.
    pub poll_data_volumes-done :
        (s : Session)
        → ((poll_data_volumes env ctx polling label s).0 ≡ ok done)
          ↔ AllSucceeded s.vm.data_volume_names s.calls
    unfolding poll_data_volumes ◌>>=◌
    poll_data_volumes-done s = (
      λ h. (poll_from-only s.vm.data_volume_names true s (decided _ h)).1,
      λ h. rw (poll_from-if s.vm.data_volume_names s h) refl,
    )
