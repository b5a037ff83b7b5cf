-- ===== src/Session.antt =====
-- The body of a phase of internal/controller: it changes the VM's status, makes calls, and may return early.
pub mod Keeps
pub mod Makes
use nutanix_vma.Prelude.{ℕ, String, Bool, Option, none, some, List, [], ◌∷◌}
use nutanix_vma.Api.{ApiError, Error, VmStatus}
use nutanix_vma.Outside.{Reply, Call, Env}

-- Go's `PhaseResult`: no code sets both of its fields. Beside it stand an index out of range, which
-- panics, and a loop that used up its fuel.
pub data PhaseResult : Type 0 where
  done : PhaseResult
  waiting : PhaseResult
  failed : Error → PhaseResult
  panic : PhaseResult
  diverged : PhaseResult

-- The status under work, and the calls made so far, the newest first.
pub record Session : Type 0 where
  pub vm : VmStatus
  pub calls : List Call

pub data Outcome {ℓ} (A : Type ℓ) : Type ℓ where
  ok : A → Outcome A
  return : PhaseResult → Outcome A

abbrev pub Exec {ℓ} : Type ℓ → Type ℓ
Exec A = Session → Outcome A × Session

unfoldable pub pure {ℓ} : {A : Type ℓ} → A → Exec A
pure a s = (ok a, s)

-- An early `return`.
unfoldable pub leave {ℓ} : {A : Type ℓ} → PhaseResult → Exec A
leave r s = (return r, s)

unfoldable pub get_vm_status : Exec VmStatus
get_vm_status s = (ok s.vm, s)

unfoldable pub modify : (VmStatus → VmStatus) → Exec (Unit {0})
modify f s = (ok tt, record s { vm = f s.vm })

-- One call: the answer is the environment's at the calls before it.
unfoldable pub ask {ℓ} : {A : Type ℓ} → Call → (List Call → A) → Exec A
ask c answer s = (ok (answer s.calls), record s { calls = c ∷ s.calls })

-- `if err != nil { return PhaseResult{Error: fmt.Errorf(label, err)} }`
unfoldable pub or_fail {ℓ} : {A : Type ℓ} → String → Reply A → Exec A
or_fail label (Reply.ok a) s = (ok a, s)
or_fail label (Reply.err e) s = (return (failed (Error.wrap label e)), s)

-- A branch on a pointer that may be nil.
unfoldable pub on_option {ℓ κ} :
    {A : Type ℓ} {B : Type κ} → Option A → Exec B → (A → Exec B) → Exec B
on_option none m f = m
on_option (some a) m f = f a

-- A branch on `len(xs) == 0`.
unfoldable pub on_list {ℓ κ} : {A : Type ℓ} {B : Type κ} → List A → Exec B → Exec B → Exec B
on_list [] m n = m
on_list (x ∷ xs) m n = n

module _ {ℓ κ} {A : Type ℓ} {B : Type κ} where
  abbrev pub continue : Outcome A → (A → Exec B) → Exec B
  continue (ok a) f s = f a s
  continue (return r) f s = (return r, s)

  -- To open this opens the actions above too.
  infixl 5 ◌>>=◌
  unfoldable pub ◌>>=◌ : Exec A → (A → Exec B) → Exec B
  unfolding pure leave get_vm_status modify ask or_fail on_option on_list
  ◌>>=◌ m f s = let (o, s') = m s in continue o f s'

infixl 5 ◌>>◌
abbrev pub ◌>>◌ {ℓ κ} : {A : Type ℓ} {B : Type κ} → Exec A → Exec B → Exec B
m >> n = m >>= λ _. n

-- The end of a phase: its last value or what was returned early.
abbrev pub result : Outcome PhaseResult × Session → PhaseResult × Session
result (ok r, s) = (r, s)
result (return r, s) = (r, s)

-- `time.Now()`
abbrev pub time_now : Env → Exec ℕ
time_now env = ask Call.now env.clock

-- `recordEvent`; the text of the message is left out.
abbrev pub record_event : String → Exec (Unit {0})
record_event reason = ask (Call.event reason) (λ _. tt)
