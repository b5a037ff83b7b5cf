-- ===== src/Controller/Sweep/Initialize.antt =====
-- The statuses that the first reconcile appends.
use nutanix_vma.Prelude.{
  String, Bool, true, false, ◌||◌, List, [], ◌∷◌, ◌++◌, All, str_eq, ◌≡◌, refl, inl, inr,
  Bool-cases, arith, ◌∙◌,
}
use mathlib.Core.List.{append-nil}
use text.Mathlib.TextPositions.{eq_refl}
use nutanix_vma.Api.{VmStatus, PlanVm}
use nutanix_vma.Controller.Sweep.{has_id, missing_vms, initialize_vm_statuses}

has_id-append :
    (id : String) (xs ys : List VmStatus) → has_id id (xs ++ ys) ≡ (has_id id xs || has_id id ys)
has_id-append id [] ys = refl
has_id-append id (x ∷ xs) ys = ground (arith, has_id-append id xs ys)

All-map {ℓ κ} :
    {A : Type ℓ} (P Q : A → Type κ) (xs : List A) → ((x : A) → P x → Q x) → All P xs → All Q xs
All-map P Q [] f h = tt
All-map P Q (x ∷ xs) f h = (f x h.0, All-map P Q xs f h.1)

or_right : (a b : Bool) → b ≡ true → (a || b) ≡ true
or_right true b h = refl
or_right false b h = h

or_cons : (a b c : Bool) → (a || b) ≡ true → (a || (c || b)) ≡ true
or_cons a b c h = ground arith

missing_vms-grow :
    (id : String) (vms : List VmStatus) (p : PlanVm) (ps : List PlanVm)
    → (has_id id vms || has_id id (missing_vms vms ps)) ≡ true
    → (has_id id vms || has_id id (missing_vms vms (p ∷ ps))) ≡ true
unfolding missing_vms
missing_vms-grow id vms p ps h = elim (Bool-cases (has_id p.id vms)) [
  | inl old ↦ rw old h
  | inr new ↦ rw new (or_cons (has_id id vms) (has_id id (missing_vms vms ps)) (str_eq p.id id) h)
]

missing_vms-head :
    (vms : List VmStatus) (p : PlanVm) (ps : List PlanVm)
    → (has_id p.id vms || has_id p.id (missing_vms vms (p ∷ ps))) ≡ true
unfolding missing_vms
missing_vms-head vms p ps = elim (Bool-cases (has_id p.id vms)) [
  | inl old ↦ rw old
  | inr new ↦ rw (new, eq_refl)
]

-- Every VM of the plan is found by its ID, among the old statuses or the new ones.
missing_vms-cover :
    (vms : List VmStatus) (ps : List PlanVm)
    → All (λ p. (has_id p.id vms || has_id p.id (missing_vms vms ps)) ≡ true) ps
unfolding missing_vms
missing_vms-cover vms [] = tt
missing_vms-cover vms (p ∷ ps) = (
  missing_vms-head vms p ps,
  All-map _ _ ps (λ q h. missing_vms-grow q.id vms p ps h) (missing_vms-cover vms ps),
)

-- Nothing is missing where every VM of the plan is found.
missing_vms-none :
    (vms : List VmStatus) (ps : List PlanVm)
    → All (λ p. has_id p.id vms ≡ true) ps
    → missing_vms vms ps ≡ []
unfolding missing_vms
missing_vms-none vms [] h = refl
missing_vms-none vms (p ∷ ps) h = rw (h.0, missing_vms-none vms ps h.1)

initialize_vm_statuses-cover :
    (vms : List VmStatus) (ps : List PlanVm)
    → All (λ p. has_id p.id (initialize_vm_statuses vms ps) ≡ true) ps
unfolding initialize_vm_statuses
initialize_vm_statuses-cover vms ps =
    All-map _ _ ps (λ p h. has_id-append p.id vms (missing_vms vms ps) ∙ h)
      (missing_vms-cover vms ps)

-- Initializing keeps the statuses that are there, in front; afterwards each VM of the plan has a status with
-- its ID; and a second run changes nothing.
pub initialize_vm_statuses-idempotent :
    (vms : List VmStatus) (ps : List PlanVm)
    → ((new : List VmStatus) × (initialize_vm_statuses vms ps ≡ vms ++ new))
      × All (λ p. has_id p.id (initialize_vm_statuses vms ps) ≡ true) ps
      × (initialize_vm_statuses (initialize_vm_statuses vms ps) ps ≡ initialize_vm_statuses vms ps)
unfolding initialize_vm_statuses
initialize_vm_statuses-idempotent vms ps = (
  (missing_vms vms ps, refl),
  initialize_vm_statuses-cover vms ps,
  rw (missing_vms-none (vms ++ missing_vms vms ps) ps (initialize_vm_statuses-cover vms ps))
      (append-nil _),
)
