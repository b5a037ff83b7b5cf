-- ===== src/Mock/Server/Power.antt =====
-- The mock server switches a VM on or off.
use Prim.Native.String
use Prim.Native.String.append
use nutanix_vma.Prelude.{
  ℕ, zero, suc, ◌+◌, ◌-◌, true, false, String, Option, some, List, [], ◌∷◌, ◌≡◌, ◌≢◌, refl, ap, sym,
  ◌∙◌, inl, inr, Bool-cases, All, codes, str_eq, eq_iff, is_empty, concat, decimal, length,
  if◌then◌else◌, ne→==, arith,
}
use nutanix_vma.Prelude.Digits.{IsDigit, decimal-IsDigit}
use nutanix_vma.Api.{Vm, PowerState}
use nutanix_vma.Mock.{Store, find_vm, set_power, set_vm_power_state, padded, zeros, create_task}
use nutanix_vma.Mock.Handlers.{
  MockRequest, Payload, reply, is_post, vm_rel, accept, split_first, handle_vm_power,
  handle_vm_action, handle_vm_by_id,
}
use nutanix_vma.Mock.Server.{strip_text}
use nutanix_vma.Mock.Server.Reading.{free_of, split_first-append, strip_text-append}
use nutanix_vma.Mock.Server.Paths.{free_of-text, str_eq-stripped}

abbrev switched : PowerState → Vm → Option Vm
switched state v = some (record v { power_state = state })

-- What a change of the power state does to the VMs.
pub find_vm-set_power :
    (uuid : String) (state : PowerState) (vms : List Vm) (v : Vm)
    → find_vm uuid vms ≡ some v
    → find_vm uuid (set_power uuid state vms).0 ≡ some (record v { power_state = state })
unfolding find_vm set_power
find_vm-set_power uuid state [] v h = absurd cc
find_vm-set_power uuid state (w ∷ rest) v h = elim (Bool-cases (str_eq w.ext_id uuid)) [
  | inl e ↦
      let same : w ≡ v = (let q = (rw e at h) in cc q) in rw e (rw e (ap (switched state) same))
  | inr e ↦ rw e (rw e (find_vm-set_power uuid state rest v (let q = (rw e at h) in q)))
]

pub find_vm-set_power_other :
    (uuid other : String) (state : PowerState) (vms : List Vm)
    → uuid ≢ other
    → find_vm other (set_power uuid state vms).0 ≡ find_vm other vms
unfolding find_vm set_power
find_vm-set_power_other uuid other state [] ne = refl
find_vm-set_power_other uuid other state (w ∷ rest) ne = elim (Bool-cases (str_eq w.ext_id uuid)) [
  | inl e ↦ elim (Bool-cases (str_eq w.ext_id other)) [
    | inl f ↦ absurd (ne (sym ((eq_iff w.ext_id uuid).0 e) ∙ (eq_iff w.ext_id other).0 f))
    | inr f ↦ rw e (rw f refl)
  ]
  | inr e ↦ rw e (
      ap (λ x. if str_eq w.ext_id other then some w else x)
        (find_vm-set_power_other uuid other state rest ne))
]

-- The UUID of the next task.
abbrev pub task_id : Store → String
task_id s = concat ("task-" ∷ padded (s.task_counter + 1) ∷ [])

free_of-IsDigit : (s : List ℕ) → All IsDigit s → free_of b'?' s ≡ true
free_of-IsDigit [] h = refl
free_of-IsDigit (c ∷ s) h =
    rw (ne→== c b'?' (λ e. absurd (omega (arith, h.0, e)))) (free_of-IsDigit s h.1)

zeros-free : (n : ℕ) → free_of b'?' (codes (zeros n)) ≡ true
zeros-free zero = refl
zeros-free (suc n) = free_of-text b'?' "0" (zeros n) refl (zeros-free n)

padded-free : (n : ℕ) → free_of b'?' (codes (padded n)) ≡ true
unfolding padded
padded-free n =
    free_of-text b'?' (zeros (8 - length (codes (decimal n)))) (decimal n)
      (zeros-free (8 - length (codes (decimal n))))
      (free_of-IsDigit (codes (decimal n)) (decimal-IsDigit n))

pub task_id-free : (s : Store) → free_of b'?' (codes (task_id s)) ≡ true
task_id-free s =
    let number = padded (s.task_counter + 1) in
    free_of-text b'?' "task-" (String.◌++◌ number "") refl
      (free_of-text b'?' number "" (padded-free (s.task_counter + 1)) refl)

pub task_id-full : (s : Store) → is_empty (task_id s) ≡ false
task_id-full s =
    let rest = String.◌++◌ (padded (s.task_counter + 1)) "" in
    str_eq-stripped "task-" (task_id s) "" rest (strip_text-append "task-" rest)
      (unfold strip_text in refl)

-- The two actions.
abbrev pub Switches : (action : String) → PowerState → Type 0
Switches action state =
    (r : MockRequest) (s : Store) (uuid : String)
    → is_post r ≡ true
    → handle_vm_action r uuid (some action) s ≡ handle_vm_power uuid s state

pub power_off-Switches : Switches "$actions/power-off" PowerState.off
unfolding handle_vm_action
power_off-Switches r s uuid post = rw post refl

pub power_on-Switches : Switches "$actions/power-on" PowerState.on
unfolding handle_vm_action
power_on-Switches r s uuid post = rw post refl

pub handle_vm_by_id-power :
    (r : MockRequest) (s : Store) (uuid action : String) (state : PowerState)
    → Switches action state
    → is_post r ≡ true
    → free_of b'/' (codes uuid) ≡ true
    → handle_vm_by_id (record r { rest = String.◌++◌ uuid (String.◌++◌ "/" action) }) s
      ≡ handle_vm_power uuid s state
unfolding handle_vm_by_id
handle_vm_by_id-power r s uuid action state switches post free =
    let r' = record r { rest = String.◌++◌ uuid (String.◌++◌ "/" action) } in
    ap
      (λ x.
        handle_vm_action r' (split_first b'/' (String.◌++◌ uuid x)).0
          (split_first b'/' (String.◌++◌ uuid x)).1 s)
      (append.cons "/" "" action ∙ ap (λ x. String.◌∷◌ "/" x) (append.nil action))
    ∙ ap (λ parts. handle_vm_action r' parts.0 parts.1 s) (split_first-append "/" uuid action free)
    ∙ switches r' s uuid post

-- The store after the request.
abbrev pub switched_store : (uuid : String) → PowerState → Store → Store
switched_store uuid state s =
    (set_vm_power_state uuid state
      (create_task (record { ext_id = uuid; rel = vm_rel } ∷ []) 2 s).1).0

pub handle_vm_power-found :
    (uuid : String) (s : Store) (state : PowerState) (v : Vm)
    → find_vm uuid s.vms ≡ some v
    → handle_vm_power uuid s state
      ≡ (reply 202 (Payload.task_ref (task_id s)), switched_store uuid state s)
unfolding handle_vm_power accept create_task
handle_vm_power-found uuid s state v found = rw (found, handle_vm_power) refl
