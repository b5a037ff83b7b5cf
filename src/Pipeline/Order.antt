-- ===== src/Pipeline/Order.antt =====
-- `nextPhaseInOrder` along the two phase sequences.
use nutanix_vma.Prelude.{suc, true, false, ◌≡◌, refl, arith}
use nutanix_vma.Api.{VmPhase, MigrationType}
use nutanix_vma.Pipeline.{order_of, next_phase_in_order, is_completed, in_order, remaining}

-- The last phase apart, the next phase stands in the order, one place further.
pub next_phase_in_order-step :
    (t : MigrationType) (p : VmPhase)
    → in_order p (order_of t) ≡ true
    → is_completed p ≡ false
    → (in_order (next_phase_in_order p (order_of t)) (order_of t) ≡ true)
      × (remaining p (order_of t)
          ≡ suc (remaining (next_phase_in_order p (order_of t)) (order_of t)))
unfolding next_phase_in_order
next_phase_in_order-step MigrationType.cold VmPhase.pending h c = (refl, refl)
next_phase_in_order-step MigrationType.cold _ h c = ground arith
next_phase_in_order-step MigrationType.warm _ h c = ground arith

-- A phase outside the order is its own successor.
pub next_phase_in_order-outside :
    (t : MigrationType) (p : VmPhase)
    → in_order p (order_of t) ≡ false
    → next_phase_in_order p (order_of t) ≡ p
unfolding next_phase_in_order
next_phase_in_order-outside MigrationType.cold VmPhase.bulk_copy h = refl
next_phase_in_order-outside MigrationType.cold _ h = ground arith
next_phase_in_order-outside MigrationType.warm _ h = ground arith
