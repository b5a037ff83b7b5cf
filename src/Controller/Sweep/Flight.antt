-- ===== src/Controller/Sweep/Flight.antt =====
-- The limit MaxInFlight on the VMs that migrate at once.
use Prim.Native.Nat.{max}
use nutanix_vma.Prelude.{
  ℕ, ◌+◌, ◌-◌, ◌≤◌, Bool, true, false, List, [], ◌∷◌, bit, count, ◌≡◌, refl, inl, inr, Bool-cases,
  arith, leb, leb→gt,
}
use nutanix_vma.Api.{VmStatus}
use nutanix_vma.Outside.{Call, Env}
use nutanix_vma.Context.{Context}
use nutanix_vma.Pipeline.{is_pending, is_terminal_vm_phase}
use nutanix_vma.Controller.Sweep.{is_active, start_vm, advance_one, treat, sweep, advance_vms}

bit_le : (b : Bool) → bit b ≤ 1
bit_le true = omega arith
bit_le false = omega arith

module _ (env : Env) (ctx : Context) (cbt_fuel fuel max_in_flight : ℕ) where
  advance_one-active :
      (active : ℕ) (v : VmStatus) (calls : List Call)
      → (advance_one env ctx cbt_fuel fuel max_in_flight active v calls).active ≡ active
  unfolding advance_one
  advance_one-active active v calls = refl

  module _ (active : ℕ) (v : VmStatus) (calls : List Call) where
    treat-terminal :
        is_terminal_vm_phase v.phase ≡ true
        → treat env ctx cbt_fuel fuel max_in_flight active v calls ≡ record {
          vm = v;
          active = active;
          calls = calls;
          needs_requeue = false;
          aborted = false;
        }
    unfolding treat
    treat-terminal t = rw t

    treat-full :
        is_terminal_vm_phase v.phase ≡ false
        → is_pending v.phase ≡ true
        → leb max_in_flight active ≡ true
        → treat env ctx cbt_fuel fuel max_in_flight active v calls
          ≡ record { vm = v; active = active; calls = calls; needs_requeue = true; aborted = false }
    unfolding treat
    treat-full t p full = rw (t, p, full)

    treat-start :
        is_terminal_vm_phase v.phase ≡ false
        → is_pending v.phase ≡ true
        → leb max_in_flight active ≡ false
        → treat env ctx cbt_fuel fuel max_in_flight active v calls
          ≡ advance_one env ctx cbt_fuel fuel max_in_flight
              (active + 1)
              (start_vm env v calls)
              (Call.now ∷ calls)
    unfolding treat
    treat-start t p room = rw (t, p, room)

    treat-active :
        is_terminal_vm_phase v.phase ≡ false
        → is_pending v.phase ≡ false
        → treat env ctx cbt_fuel fuel max_in_flight active v calls
          ≡ advance_one env ctx cbt_fuel fuel max_in_flight active v calls
    unfolding treat
    treat-active t p = rw (t, p)

    was_active :
        is_terminal_vm_phase v.phase ≡ false → is_pending v.phase ≡ false → bit (is_active v) ≡ 1
    was_active t p = rw (t, p)

    -- One VM takes a place only if it had one, or if there was room.
    treat_room :
        let t = treat env ctx cbt_fuel fuel max_in_flight active v calls in
        bit (is_active t.vm) + (max_in_flight - t.active)
        ≤ bit (is_active v) + (max_in_flight - active)
    treat_room = elim (Bool-cases (is_terminal_vm_phase v.phase)) [
      | inl t ↦ rw (treat-terminal t) (omega arith)
      | inr t ↦ elim (Bool-cases (is_pending v.phase)) [
        | inl p ↦ elim (Bool-cases (leb max_in_flight active)) [
          | inl full ↦ rw (treat-full t p full) (omega arith)
          | inr room ↦
              rw (treat-start t p room, advance_one-active)
                (omega (arith, leb→gt max_in_flight active room, bit_le))
        ]
        | inr p ↦ rw (treat-active t p, advance_one-active) (omega (arith, bit_le, was_active t p))
      ]
    ]

  sweep_room :
      (active : ℕ) (vms : List VmStatus) (calls : List Call)
      → count is_active (sweep env ctx cbt_fuel fuel max_in_flight active vms calls).vms
        ≤ count is_active vms + (max_in_flight - active)
  unfolding sweep
  sweep_room active [] calls = omega arith
  sweep_room active (v ∷ rest) calls =
      let t = treat env ctx cbt_fuel fuel max_in_flight active v calls in
      elim (Bool-cases t.aborted) [
        | inl stop ↦ rw stop (omega (arith, treat_room active v calls))
        | inr go ↦
            rw go (omega (arith, treat_room active v calls, sweep_room t.active rest t.calls))
      ]

  -- The loop of a reconcile over the VMs leaves at most MaxInFlight VMs active, or as many as were
  -- active before, if that is more.
  pub advance_vms-le-max_in_flight :
      (vms : List VmStatus) (calls : List Call)
      → count is_active (advance_vms env ctx cbt_fuel fuel max_in_flight vms calls).vms
        ≤ max max_in_flight (count is_active vms)
  unfolding advance_vms
  advance_vms-le-max_in_flight vms calls = omega (arith, sweep_room (count is_active vms) vms calls)
