-- ===== src/Session/Makes.antt =====
-- Actions that always run to their end, change no status, and make the same calls whatever the answers.
use nutanix_vma.Prelude.{Bool, true, false, List, [], ◌∷◌, ◌++◌, ◌≡◌, refl, if◌then◌else◌}
use nutanix_vma.Outside.{Call}
use nutanix_vma.Session.{Session, ok, Exec, pure, ask, ◌>>=◌, ◌>>◌}

-- The history `old` after the calls of the first list, its head first.
abbrev pub log : List Call → List Call → List Call
log [] old = old
log (c ∷ cs) old = log cs (c ∷ old)

log-append : (cs ds old : List Call) → log (cs ++ ds) old ≡ log ds (log cs old)
log-append [] ds old = refl
log-append (c ∷ cs) ds old = log-append cs ds (c ∷ old)

pub record Makes (m : Exec (Unit {0})) (cs : List Call) : Type 0 where
  pub at : (s : Session) → m s ≡ (ok tt, record s { calls = log cs s.calls })

pub Makes-pure : Makes (pure tt) []
unfolding pure
Makes-pure = record { at = λ s. refl }

pub Makes-ask {ℓ} :
    {A : Type ℓ} (c : Call) (answer : List Call → A) (n : Exec (Unit {0})) (cs : List Call)
    → Makes n cs
    → Makes (ask c answer >> n) (c ∷ cs)
unfolding ◌>>=◌
Makes-ask c answer n cs h = record { at = λ s. h.at (record s { calls = c ∷ s.calls }) }

pub Makes-then :
    (m n : Exec (Unit {0})) (cs ds : List Call)
    → Makes m cs
    → Makes n ds
    → Makes (m >> n) (cs ++ ds)
unfolding ◌>>=◌
Makes-then m n cs ds h k = record {
  at = λ s. rw (h.at s, k.at (record s { calls = log cs s.calls }), log-append cs ds s.calls) refl;
}

pub Makes-if :
    (b : Bool) (m n : Exec (Unit {0})) (cs ds : List Call)
    → Makes m cs
    → Makes n ds
    → Makes (if b then m else n) (if b then cs else ds)
Makes-if true m n cs ds h k = h
Makes-if false m n cs ds h k = k
