-- ===== src/Controller/Advance/Forward.antt =====
-- Which phases `advanceSingleVM` can leave a VM in.
use nutanix_vma.Prelude.{
  ℕ, zero, suc, ◌≤◌, true, false, ◌≡◌, ◌⊎◌, refl, sym, ◌∙◌, inl, inr, Bool-cases, arith, ap,
}
use nutanix_vma.Api.{VmPhase, Error, MigrationType}
use nutanix_vma.Outside.{Env}
use nutanix_vma.Session.{PhaseResult, Session, done, waiting, failed, panic, diverged, ◌>>=◌}
use nutanix_vma.Context.{Context}
use nutanix_vma.Phases.Cleanup.Calls.{cleanup_failed_vm-undoes}
use nutanix_vma.Pipeline.{
  order_of, next_phase_in_order, is_completed, is_terminal_vm_phase, in_order, remaining,
}
use nutanix_vma.Pipeline.Order.{next_phase_in_order-step}
use nutanix_vma.Controller.Advance.{
  Progress, execute_phase, fail_vm, enter_next, complete_vm, after_done, after_phase,
  advance_single_vm,
}
use nutanix_vma.Controller.Advance.Frame.{execute_phase-Same}
use nutanix_vma.Controller.Advance.Ends.{not-completed, enter_next-phase}

-- From the phase `p` to the phase `q`: q has failed, or it stands in the order, p or later.
abbrev pub IsForward : MigrationType → VmPhase → VmPhase → Type 0
IsForward t p q =
    (q ≡ VmPhase.failed)
    ⊎ ((in_order q (order_of t) ≡ true) × (remaining q (order_of t) ≤ remaining p (order_of t)))

IsForward-step :
    (t : MigrationType) (p q : VmPhase)
    → in_order p (order_of t) ≡ true
    → is_completed p ≡ false
    → IsForward t (next_phase_in_order p (order_of t)) q
    → IsForward t p q
IsForward-step t p q h c (inl e) = inl e
IsForward-step t p q h c (inr (i, k)) =
    inr (i, omega (arith, k, (next_phase_in_order-step t p h c).1))

module _ (env : Env) (ctx : Context) (cbt_fuel : ℕ) where
  fail_vm-phase :
      (e : Error) (s : Session) → (fail_vm env ctx cbt_fuel e s).1.vm.phase ≡ VmPhase.failed
  unfolding fail_vm ◌>>=◌
  fail_vm-phase e s = rw (cleanup_failed_vm-undoes env ctx) refl

  -- How far a session has come.
  abbrev Ahead : VmPhase → Session → Type 0
  Ahead p t = IsForward ctx.plan.type p t.vm.phase

  complete_vm-phase : (s : Session) → (complete_vm env ctx cbt_fuel s).vm.phase ≡ s.vm.phase
  unfolding complete_vm ◌>>=◌
  complete_vm-phase s = refl

  after_done-Ahead :
      (again : Session → Progress × Session) (t : Session)
      → (let u = enter_next env ctx cbt_fuel t in
          in_order u.vm.phase (order_of ctx.plan.type) ≡ true
          → Ahead u.vm.phase (again u).1
          → Ahead u.vm.phase (after_done env ctx cbt_fuel again t).1)
  unfolding after_done
  after_done-Ahead again t i a =
      let u = enter_next env ctx cbt_fuel t in
      elim (Bool-cases (is_completed u.vm.phase)) [
        | inl f ↦ rw f (inr (rw (complete_vm-phase u) i, rw (complete_vm-phase u) (omega arith)))
        | inr f ↦ rw f a
      ]

  after_phase-Ahead :
      (again : Session → Progress × Session) (r : PhaseResult) (s t : Session)
      → in_order s.vm.phase (order_of ctx.plan.type) ≡ true
      → is_completed s.vm.phase ≡ false
      → t.vm.phase ≡ s.vm.phase
      → ((u : Session)
          → in_order u.vm.phase (order_of ctx.plan.type) ≡ true
          → Ahead u.vm.phase (again u).1)
      → Ahead s.vm.phase (after_phase env ctx cbt_fuel again r t).1
  unfolding after_phase
  after_phase-Ahead again done s t h c e later =
      let u = enter_next env ctx cbt_fuel t in
      let n =
        enter_next-phase env ctx cbt_fuel t
        ∙ ap (λ p. next_phase_in_order p (order_of ctx.plan.type)) e in
      let i : in_order u.vm.phase (order_of ctx.plan.type) ≡ true =
        rw n (next_phase_in_order-step ctx.plan.type s.vm.phase h c).0 in
      IsForward-step ctx.plan.type s.vm.phase _ h c
        (rw (sym n) (after_done-Ahead again t i (later u i)))
  after_phase-Ahead again waiting s t h c e later = inr (rw e h, rw e (omega arith))
  after_phase-Ahead again (failed x) s t h c e later = inl (fail_vm-phase x t)
  after_phase-Ahead again panic s t h c e later = inr (rw e h, rw e (omega arith))
  after_phase-Ahead again diverged s t h c e later = inr (rw e h, rw e (omega arith))

  -- A VM whose phase stands in the order of the plan's type is left in the phase Failed, or in its
  -- phase or a later one of that order, whatever the answers from outside.
  pub advance_single_vm-IsForward :
      (fuel : ℕ) (s : Session)
      → in_order s.vm.phase (order_of ctx.plan.type) ≡ true
      → IsForward ctx.plan.type s.vm.phase (advance_single_vm env ctx cbt_fuel fuel s).1.vm.phase
  unfolding advance_single_vm
  advance_single_vm-IsForward zero s h = inr (h, omega arith)
  advance_single_vm-IsForward (suc fuel) s h = elim (Bool-cases (is_terminal_vm_phase s.vm.phase)) [
    | inl e ↦ rw e (inr (h, omega arith))
    | inr e ↦ rw e (
        after_phase-Ahead (advance_single_vm env ctx cbt_fuel fuel) _ s
          (execute_phase env ctx cbt_fuel s).1 h (not-completed s.vm.phase e)
          (execute_phase-Same env ctx cbt_fuel s).phase (advance_single_vm-IsForward fuel))
  ]
