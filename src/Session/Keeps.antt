-- ===== src/Session/Keeps.antt =====
-- What an action keeps: the VM's phase, name and ID, and the calls already made; the calls that it adds
-- are all allowed. One rule for each way to build an action.
use nutanix_vma.Prelude.{
  String, Bool, true, false, All, All-append, Option, none, some, List, [], ◌∷◌, ◌++◌, ◌≡◌, refl,
  sym, ◌∙◌, ap, arith, if◌then◌else◌,
}
use mathlib.Core.List.{append_assoc}
use nutanix_vma.Api.{VmStatus}
use nutanix_vma.Outside.{Reply, Call}
use nutanix_vma.Session.{
  PhaseResult, Session, Outcome, ok, return, Exec, pure, leave, get_vm_status, modify, ask, or_fail,
  on_option, on_list, continue, ◌>>=◌,
}

-- Every call is allowed.
abbrev pub any_call : Call → Bool
any_call c = true

-- Every call but the one that takes a snapshot.
abbrev pub no_snapshot : Call → Bool
no_snapshot (Call.create_recovery_point vm name) = false
no_snapshot _ = true

pub record Same (allow : Call → Bool) (s t : Session) : Type 0 where
  pub phase : t.vm.phase ≡ s.vm.phase
  pub name : t.vm.name ≡ s.vm.name
  pub id : t.vm.id ≡ s.vm.id
  pub extra : List Call
  pub grown : t.calls ≡ extra ++ s.calls
  pub allowed : All (λ c. allow c ≡ true) extra

module _ (allow : Call → Bool) where
  pub Same-refl : (s : Session) → Same allow s s
  Same-refl s = record {
    phase = refl;
    name = refl;
    id = refl;
    extra = [];
    grown = refl;
    allowed = tt;
  }

  pub Same-trans : {s t u : Session} → Same allow s t → Same allow t u → Same allow s u
  Same-trans {s} h k = record {
    phase = k.phase ∙ h.phase;
    name = k.name ∙ h.name;
    id = k.id ∙ h.id;
    extra = k.extra ++ h.extra;
    grown = k.grown ∙ (ap (λ c. k.extra ++ c) h.grown ∙ sym (append_assoc k.extra h.extra s.calls));
    allowed = All-append (λ c. allow c ≡ true) k.extra h.extra k.allowed h.allowed;
  }

pub record Keeps {ℓ} (allow : Call → Bool) {A : Type ℓ} (m : Exec A) : Type ℓ where
  pub at : (s : Session) → Same allow s (m s).1

All-any :
    (allow : Call → Bool) (calls : List Call)
    → All (λ c. allow c ≡ true) calls
    → All (λ c. any_call c ≡ true) calls
All-any allow [] h = tt
All-any allow (c ∷ cs) h = (refl, All-any allow cs h.1)

pub Same-any : (allow : Call → Bool) (s t : Session) → Same allow s t → Same any_call s t
Same-any allow s t h = record {
  phase = h.phase;
  name = h.name;
  id = h.id;
  extra = h.extra;
  grown = h.grown;
  allowed = All-any allow h.extra h.allowed;
}

pub Keeps-any {ℓ} :
    {allow : Call → Bool} {A : Type ℓ} (m : Exec A) → Keeps allow m → Keeps any_call m
Keeps-any {allow} m h = record { at = λ s. Same-any allow s (m s).1 (h.at s) }

module _ {ℓ} {allow : Call → Bool} {A : Type ℓ} where
  pub Keeps-pure : (a : A) → Keeps allow (pure a)
  unfolding pure
  Keeps-pure a = record { at = Same-refl allow }

  pub Keeps-leave : (r : PhaseResult) → Keeps allow (leave {A = A} r)
  unfolding leave
  Keeps-leave r = record { at = Same-refl allow }

  pub Keeps-ask : (c : Call) (answer : List Call → A) → allow c ≡ true → Keeps allow (ask c answer)
  unfolding ask
  Keeps-ask c answer h = record {
    at = λ s. record {
      phase = refl;
      name = refl;
      id = refl;
      extra = c ∷ [];
      grown = refl;
      allowed = (h, tt);
    };
  }

  pub Keeps-or_fail : (label : String) (r : Reply A) → Keeps allow (or_fail label r)
  unfolding or_fail
  Keeps-or_fail label (Reply.ok a) = record { at = Same-refl allow }
  Keeps-or_fail label (Reply.err e) = record { at = Same-refl allow }

  pub Keeps-if :
      (b : Bool) (m n : Exec A)
      → (b ≡ true → Keeps allow m)
      → (b ≡ false → Keeps allow n)
      → Keeps allow (if b then m else n)
  Keeps-if true m n km kn = km refl
  Keeps-if false m n km kn = kn refl

pub Keeps-get : {allow : Call → Bool} → Keeps allow get_vm_status
unfolding get_vm_status
Keeps-get {allow} = record { at = Same-refl allow }

pub Keeps-modify :
    {allow : Call → Bool} (f : VmStatus → VmStatus)
    → ((v : VmStatus) → (f v).phase ≡ v.phase)
    → ((v : VmStatus) → (f v).name ≡ v.name)
    → ((v : VmStatus) → (f v).id ≡ v.id)
    → Keeps allow (modify f)
unfolding modify
Keeps-modify f p n i = record {
  at = λ s. record {
    phase = p s.vm;
    name = n s.vm;
    id = i s.vm;
    extra = [];
    grown = refl;
    allowed = tt;
  };
}

module _ {ℓ κ} {allow : Call → Bool} {A : Type ℓ} {B : Type κ} where
  Keeps-continue :
      (o : Outcome A) (f : A → Exec B) (s : Session)
      → ((a : A) → Keeps allow (f a))
      → Same allow s (continue o f s).1
  Keeps-continue (ok a) f s kf = (kf a).at s
  Keeps-continue (return r) f s kf = Same-refl allow s

  pub Keeps-bind :
      (m : Exec A) (f : A → Exec B)
      → Keeps allow m
      → ((a : A) → Keeps allow (f a))
      → Keeps allow (m >>= f)
  unfolding ◌>>=◌
  Keeps-bind m f km kf = record {
    at = λ s. let (o, s') = m s in Same-trans allow (km.at s) (Keeps-continue o f s' kf);
  }

  pub Keeps-on_option :
      (o : Option A) (m : Exec B) (f : A → Exec B)
      → Keeps allow m
      → ((a : A) → Keeps allow (f a))
      → Keeps allow (on_option o m f)
  unfolding on_option
  Keeps-on_option none m f km kf = km
  Keeps-on_option (some a) m f km kf = kf a

  pub Keeps-on_list :
      (xs : List A) (m n : Exec B) → Keeps allow m → Keeps allow n → Keeps allow (on_list xs m n)
  unfolding on_list
  Keeps-on_list [] m n km kn = km
  Keeps-on_list (x ∷ xs) m n km kn = kn

pub ruleset keeps_rules = (
  Keeps-pure, Keeps-leave, Keeps-ask, Keeps-or_fail, Keeps-if, Keeps-get, Keeps-modify, Keeps-bind,
  Keeps-on_option, Keeps-on_list, refl,
)
