-- ===== src/Controller/Sweep/Terminal.antt =====
-- VMs in terminal phases, through the steps of a reconcile.
use nutanix_vma.Prelude.{
  ℕ, zero, suc, String, true, some, List, [], ◌∷◌, get_elem?, ◌≡◌, ◌∙◌, ap, inl, inr, Bool-cases,
  arith,
}
use nutanix_vma.Api.{VmStatus}
use nutanix_vma.Outside.{Call, Env}
use nutanix_vma.Context.{Context}
use nutanix_vma.Pipeline.{is_terminal_vm_phase}
use nutanix_vma.Controller.Sweep.{cancel_from, process_cancellations, treat, sweep, advance_vms}

-- The statuses in terminal phases of the first list stand at their places in the second.
abbrev pub Lasts : List VmStatus → List VmStatus → Type 0
Lasts vms vms' =
    (i : ℕ) (v : VmStatus)
    → get_elem? vms i ≡ some v
    → is_terminal_vm_phase v.phase ≡ true
    → get_elem? vms' i ≡ some v

module _ (env : Env) where
  cancel_from-Lasts :
      (cancel : List String) (vms : List VmStatus) (calls : List Call)
      → Lasts vms (cancel_from env cancel vms calls).0
  unfolding cancel_from
  cancel_from-Lasts cancel [] calls i v e t = e
  cancel_from-Lasts cancel (w ∷ rest) calls zero v e t = ground arith
  cancel_from-Lasts cancel (w ∷ rest) calls (suc i) v e t = cancel_from-Lasts cancel rest _ i v e t

  pub process_cancellations-Lasts :
      (cancel : List String) (vms : List VmStatus) (calls : List Call)
      → Lasts vms (process_cancellations env cancel vms calls).0
  unfolding process_cancellations
  process_cancellations-Lasts [] vms calls i v e t = e
  process_cancellations-Lasts (c ∷ cs) vms calls i v e t =
      cancel_from-Lasts (c ∷ cs) vms calls i v e t

module _ (env : Env) (ctx : Context) (cbt_fuel fuel max_in_flight : ℕ) where
  treat-terminal :
      (active : ℕ) (v : VmStatus) (calls : List Call)
      → is_terminal_vm_phase v.phase ≡ true
      → (treat env ctx cbt_fuel fuel max_in_flight active v calls).vm ≡ v
  unfolding treat
  treat-terminal active v calls t = rw t

  sweep-Lasts :
      (active : ℕ) (vms : List VmStatus) (calls : List Call)
      → Lasts vms (sweep env ctx cbt_fuel fuel max_in_flight active vms calls).vms
  unfolding sweep
  sweep-Lasts active [] calls i v e t = e
  sweep-Lasts active (w ∷ rest) calls zero v e t =
      let same : w ≡ v = cc in
      let kept = treat-terminal active w calls (rw same t) ∙ same in
      elim (Bool-cases (treat env ctx cbt_fuel fuel max_in_flight active w calls).aborted) [
        | inl stop ↦ rw stop (ap some kept)
        | inr go ↦ rw go (ap some kept)
      ]
  sweep-Lasts active (w ∷ rest) calls (suc i) v e t =
      let t' = treat env ctx cbt_fuel fuel max_in_flight active w calls in
      elim (Bool-cases (treat env ctx cbt_fuel fuel max_in_flight active w calls).aborted) [
        | inl stop ↦ rw stop e
        | inr go ↦ rw go (sweep-Lasts t'.active rest t'.calls i v e t)
      ]

  pub advance_vms-Lasts :
      (vms : List VmStatus) (calls : List Call)
      → Lasts vms (advance_vms env ctx cbt_fuel fuel max_in_flight vms calls).vms
  unfolding advance_vms
  advance_vms-Lasts vms calls = sweep-Lasts _ vms calls
