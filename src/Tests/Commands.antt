-- ===== src/Tests/Commands.antt =====
-- The results on the kubectl plugin, at a Migration with two VMs.
use nutanix_vma.Prelude.{
  ℕ, length, String, ◌||◌, some, List, [], ◌∷◌, contains, get_elem?, ◌≡◌, refl,
}
use nutanix_vma.Api.{Migration, VmPhase}
use nutanix_vma.Outside.{Reply}
use nutanix_vma.Controller.Sweep.{process_cancellations}
use nutanix_vma.Controller.Sweep.Cancel.{cancelled_at}
use nutanix_vma.Kubectl.{Outcome, run_cancel}
use nutanix_vma.Kubectl.Cancel.{run_cancel-adds, run_cancel-stops}
use nutanix_vma.Tests.{env, migration, vm_in}

abbrev asked : List String
asked = "vm-1" ∷ "vm-2" ∷ "vm-1" ∷ []

abbrev with_cancel : Migration
with_cancel = record migration { cancel = "vm-2" ∷ [] }

run_cancel-adds_example :
    (more : List String) × (run_cancel (Reply.ok with_cancel) asked (λ n. Reply.ok tt)
      ≡ Outcome.ok (record with_cancel { cancel = "vm-2" ∷ more }, length more))
    × ((x : String) → contains x ("vm-2" ∷ more) ≡ (contains x ("vm-2" ∷ []) || contains x asked))
    × ((fails : Migration → Reply (Unit {0}))
        → run_cancel (Reply.ok (record with_cancel { cancel = "vm-2" ∷ more })) asked fails
          ≡ Outcome.ok (record with_cancel { cancel = "vm-2" ∷ more }, 0))
run_cancel-adds_example = run_cancel-adds with_cancel asked (λ n. Reply.ok tt) (λ n. refl)

run_cancel-stops_example :
    (now : ℕ) × (get_elem? (process_cancellations env ("vm-2" ∷ "vm-1" ∷ []) migration.vms []).0 1
      ≡ some (cancelled_at now (vm_in VmPhase.power_off)))
unfolding run_cancel
run_cancel-stops_example =
    run_cancel-stops with_cancel asked (λ n. Reply.ok tt) env migration.vms [] 1
      (vm_in VmPhase.power_off) (record with_cancel { cancel = "vm-2" ∷ "vm-1" ∷ [] }) 1 (λ n. refl)
      refl refl refl refl
