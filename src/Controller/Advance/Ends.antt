-- ===== src/Controller/Advance/Ends.antt =====
-- Whether the loop of `advanceSingleVM` over the phases ends.
use nutanix_vma.Prelude.{
  ℕ, zero, suc, ◌<◌, true, false, ◌≡◌, ◌≢◌, refl, ◌∙◌, ap, inl, inr, Bool-cases, arith,
}
use nutanix_vma.Api.{VmPhase}
use nutanix_vma.Outside.{Env}
use nutanix_vma.Session.{PhaseResult, Session, done, waiting, failed, panic, diverged, ◌>>=◌}
use nutanix_vma.Context.{Context}
use nutanix_vma.Pipeline.{
  order_of, next_phase_in_order, is_completed, is_terminal_vm_phase, in_order, remaining,
}
use nutanix_vma.Pipeline.Order.{next_phase_in_order-step, next_phase_in_order-outside}
use nutanix_vma.Controller.Advance.{
  Progress, spinning, execute_phase, enter_next, after_done, after_phase, advance_single_vm,
}
use nutanix_vma.Controller.Advance.Frame.{execute_phase-Same}

pub not-completed : (p : VmPhase) → is_terminal_vm_phase p ≡ false → is_completed p ≡ false
not-completed p h = ground arith

module _ (env : Env) (ctx : Context) (cbt_fuel : ℕ) where
  pub enter_next-phase :
      (s : Session)
      → (enter_next env ctx cbt_fuel s).vm.phase
        ≡ next_phase_in_order s.vm.phase (order_of ctx.plan.type)
  unfolding enter_next ◌>>=◌
  enter_next-phase s = refl

  after_phase-ends :
      (again : Session → Progress × Session) (r : PhaseResult) (s : Session)
      → (again (enter_next env ctx cbt_fuel s)).0 ≢ spinning
      → (after_phase env ctx cbt_fuel again r s).0 ≢ spinning
  unfolding after_phase after_done
  after_phase-ends again done s h =
      elim (Bool-cases (is_completed (enter_next env ctx cbt_fuel s).vm.phase)) [
        | inl e ↦ rw e (λ e. cc)
        | inr e ↦ rw e h
      ]
  after_phase-ends again waiting s h = λ e. cc
  after_phase-ends again (failed x) s h = λ e. cc
  after_phase-ends again panic s h = λ e. cc
  after_phase-ends again diverged s h = λ e. cc

  -- The phase that is entered after executing the phase of `s`.
  entered :
      (s : Session)
      → (enter_next env ctx cbt_fuel (execute_phase env ctx cbt_fuel s).1).vm.phase
        ≡ next_phase_in_order s.vm.phase (order_of ctx.plan.type)
  entered s =
      enter_next-phase (execute_phase env ctx cbt_fuel s).1
      ∙ ap (λ p. next_phase_in_order p (order_of ctx.plan.type))
          (execute_phase-Same env ctx cbt_fuel s).phase

  -- If the VM's phase stands in the order of the plan's type, the loop over the phases does not go on for
  -- ever, whatever the answers from outside: with more fuel than phases that remain, it never runs out.
  -- That a phase's own loop over pages of changed regions may not end is a result of its own, and is not
  -- excluded.
  pub advance_single_vm-ends :
      (fuel : ℕ) (s : Session)
      → in_order s.vm.phase (order_of ctx.plan.type) ≡ true
      → remaining s.vm.phase (order_of ctx.plan.type) < fuel
      → (advance_single_vm env ctx cbt_fuel fuel s).0 ≢ spinning
  unfolding advance_single_vm
  advance_single_vm-ends zero s h k = absurd (omega arith)
  advance_single_vm-ends (suc fuel) s h k = elim (Bool-cases (is_terminal_vm_phase s.vm.phase)) [
    | inl e ↦ rw e (λ e. cc)
    | inr e ↦
        let (stays, fewer) =
          next_phase_in_order-step ctx.plan.type s.vm.phase h (not-completed s.vm.phase e) in
        rw e (
          after_phase-ends (advance_single_vm env ctx cbt_fuel fuel) _ _ (
            advance_single_vm-ends fuel _ (rw (entered s) stays)
              (rw (entered s) (omega (arith, fewer)))))
  ]

  -- A VM whose phase is not in the order of the plan's type, and whose handler completes, keeps the loop
  -- running for ever: no fuel is enough.
  pub advance_single_vm-spins :
      (fuel : ℕ) (s : Session)
      → in_order s.vm.phase (order_of ctx.plan.type) ≡ false
      → is_terminal_vm_phase s.vm.phase ≡ false
      → ((t : Session) → t.vm.phase ≡ s.vm.phase → (execute_phase env ctx cbt_fuel t).0 ≡ done)
      → (advance_single_vm env ctx cbt_fuel fuel s).0 ≡ spinning
  unfolding advance_single_vm after_phase after_done
  advance_single_vm-spins zero s h live completes = refl
  advance_single_vm-spins (suc fuel) s h live completes =
      let same = entered s ∙ next_phase_in_order-outside ctx.plan.type s.vm.phase h in
      rw (live, completes s refl, same, not-completed s.vm.phase live)
        (advance_single_vm-spins fuel _ (rw same h) (rw same live) (λ t e. completes t (e ∙ same)))
