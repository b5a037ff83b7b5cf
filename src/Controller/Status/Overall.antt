-- ===== src/Controller/Status/Overall.antt =====
-- The overall phase against the phases of the VMs.
use nutanix_vma.Prelude.{
  some, refl, ◌⊎◌, inl, inr, if◌then◌else◌, ℕ, ◌+◌, ◌<◌, not, List, [], ◌∷◌, length, count, ◌≡◌,
  ◌↔◌, arith,
}
use nutanix_vma.Api.{Migration, VmStatus, MigrationPhase}
use nutanix_vma.Outside.{Call, Env}
use nutanix_vma.Pipeline.{is_terminal_vm_phase}
use nutanix_vma.Controller.Status.{
  completed_vms, failed_vms, cancelled_vms, overall_phase, is_running, close_migration,
  update_overall_status,
}

-- The VMs that are in no terminal phase.
abbrev pub open_vms : List VmStatus → ℕ
open_vms = count (λ v. not (is_terminal_vm_phase v.phase))

vms_total :
    (vms : List VmStatus)
    → completed_vms vms + failed_vms vms + cancelled_vms vms + open_vms vms ≡ length vms
vms_total [] = omega arith
vms_total (v ∷ vms) = ground (arith, vms_total vms)

-- The phase that is computed, by the phases of the VMs.
abbrev pub Judged : MigrationPhase → List VmStatus → Type 0
Judged phase vms =
    ((phase ≡ MigrationPhase.running) ↔ (0 < open_vms vms))
    × ((phase ≡ MigrationPhase.failed) ↔ ((open_vms vms ≡ 0) × (0 < failed_vms vms)))
    × ((phase ≡ MigrationPhase.completed)
        ↔ ((open_vms vms ≡ 0) × (failed_vms vms ≡ 0) × (0 < completed_vms vms)))
    × ((phase ≡ MigrationPhase.cancelled)
        ↔ ((open_vms vms ≡ 0) × (failed_vms vms ≡ 0) × (completed_vms vms ≡ 0)))

overall_phase-Judged : (vms : List VmStatus) → Judged (overall_phase vms) vms
unfolding overall_phase
overall_phase-Judged vms = ground (arith, vms_total vms)

-- Whatever the phase is, it is one of four.
overall_phase-cases :
    (vms : List VmStatus)
    → (overall_phase vms ≡ MigrationPhase.running)
      ⊎ ((overall_phase vms ≡ MigrationPhase.failed)
          ⊎ ((overall_phase vms ≡ MigrationPhase.completed)
              ⊎ (overall_phase vms ≡ MigrationPhase.cancelled)))
unfolding overall_phase
overall_phase-cases vms = ground arith

-- What the update keeps, and what it stores with the phase.
abbrev pub Settled : Migration → (now : ℕ) → MigrationPhase → Migration → Type 0
Settled m now phase m' =
    (m'.phase ≡ phase)
    × (m'.vms ≡ m.vms)
    × (m'.completed ≡ (if is_running phase then m.completed else some now))

update_overall_status-Settled :
    (env : Env) (m : Migration) (calls : List Call)
    → Settled m (env.clock calls) (overall_phase m.vms) (update_overall_status env m calls).0
unfolding update_overall_status close_migration
update_overall_status-Settled env m calls = elim (overall_phase-cases m.vms) [
  | inl e ↦ rw e (refl, refl, refl)
  | inr (inl e) ↦ rw e (refl, refl, refl)
  | inr (inr (inl e)) ↦ rw e (refl, refl, refl)
  | inr (inr (inr e)) ↦ rw e (refl, refl, refl)
]

-- The update of a Migration's status after its VMs have been advanced keeps their statuses. It sets the
-- phase Running exactly while a VM is in no terminal phase; else Failed exactly if a VM failed, Completed
-- exactly if none failed and one completed, and Cancelled exactly if all the VMs, perhaps none, were
-- cancelled; and it sets the time of completion exactly if the phase is not Running.
pub update_overall_status-Judged :
    (env : Env) (m : Migration) (calls : List Call)
    → let m' = (update_overall_status env m calls).0 in
      Judged m'.phase m.vms
      × (m'.vms ≡ m.vms)
      × (m'.completed ≡ (if is_running m'.phase then m.completed else some (env.clock calls)))
update_overall_status-Judged env m calls =
    let (phase, vms, completed) = update_overall_status-Settled env m calls in
    rw phase (overall_phase-Judged m.vms, vms, completed)
