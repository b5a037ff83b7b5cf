-- ===== src/Controller/Sweep/Cancel.antt =====
-- `processCancellations`: which VMs a cancel list stops.
use nutanix_vma.Prelude.{
  contains, ℕ, zero, suc, String, Bool, not, ◌&&◌, some, List, [], ◌∷◌, get_elem?, length, ◌≡◌,
  refl, arith, if◌then◌else◌,
}
use nutanix_vma.Api.{VmStatus, VmPhase}
use nutanix_vma.Outside.{Call, Env}
use nutanix_vma.Pipeline.{is_terminal_vm_phase}
use nutanix_vma.Controller.Sweep.{cancel_from, process_cancellations}

abbrev pub is_cancellable : List String → VmStatus → Bool
is_cancellable cancel v = contains v.id cancel && not (is_terminal_vm_phase v.phase)

abbrev pub cancelled_at : ℕ → VmStatus → VmStatus
cancelled_at now v = record v { phase = VmPhase.cancelled; completed = some now }

module _ (env : Env) where
  cancel_from-marks :
      (cancel : List String) (vms : List VmStatus) (calls : List Call) (i : ℕ) (v : VmStatus)
      → get_elem? vms i ≡ some v
      → (now : ℕ) × (get_elem? (cancel_from env cancel vms calls).0 i
          ≡ some (if is_cancellable cancel v then cancelled_at now v else v))
  unfolding cancel_from
  cancel_from-marks cancel [] calls i v e = absurd cc
  cancel_from-marks cancel (w ∷ rest) calls zero v e = (env.clock calls, cc)
  cancel_from-marks cancel (w ∷ rest) calls (suc i) v e = cancel_from-marks cancel rest _ i v e

  length-cancel_from :
      (cancel : List String) (vms : List VmStatus) (calls : List Call)
      → length (cancel_from env cancel vms calls).0 ≡ length vms
  unfolding cancel_from
  length-cancel_from cancel [] calls = refl
  length-cancel_from cancel (w ∷ rest) calls = omega (arith, length-cancel_from cancel rest)

  -- A VM whose ID is in the cancel list, and that is in no terminal phase, becomes Cancelled, with a time; any
  -- other VM stays as it is, and so do the places and the number of the VMs.
  pub process_cancellations-marks :
      (cancel : List String) (vms : List VmStatus) (calls : List Call)
      → (length (process_cancellations env cancel vms calls).0 ≡ length vms)
        × ((i : ℕ) (v : VmStatus)
            → get_elem? vms i ≡ some v
            → (now : ℕ) × (get_elem? (process_cancellations env cancel vms calls).0 i
                ≡ some (if is_cancellable cancel v then cancelled_at now v else v)))
  unfolding process_cancellations
  process_cancellations-marks [] vms calls = (refl, λ i v e. (0, e))
  process_cancellations-marks (c ∷ cs) vms calls =
      (length-cancel_from (c ∷ cs) vms calls, cancel_from-marks (c ∷ cs) vms calls)
