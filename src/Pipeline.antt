-- ===== src/Pipeline.antt =====
-- The phase sequences of internal/controller/migration_controller.go and the tests on phases.
pub mod Order
use nutanix_vma.Prelude.{
  ℕ, Bool, true, false, not, ◌&&◌, ◌||◌, List, [], ◌∷◌, length, ◌==◌, if◌then◌else◌,
}
use nutanix_vma.Api.{VmPhase, MigrationPhase, MigrationType}

abbrev pub phase_order : List VmPhase
phase_order =
    VmPhase.pending ∷ VmPhase.pre_hook ∷ VmPhase.store_power_state ∷ VmPhase.power_off
    ∷ VmPhase.wait_for_power_off ∷ VmPhase.create_snapshot ∷ VmPhase.export_disks
    ∷ VmPhase.import_disks ∷ VmPhase.create_vm ∷ VmPhase.start_vm ∷ VmPhase.post_hook
    ∷ VmPhase.cleanup ∷ VmPhase.completed ∷ []

abbrev pub warm_phase_order : List VmPhase
warm_phase_order =
    VmPhase.pending ∷ VmPhase.pre_hook ∷ VmPhase.store_power_state ∷ VmPhase.bulk_copy
    ∷ VmPhase.wait_bulk_copy ∷ VmPhase.precopy ∷ VmPhase.power_off ∷ VmPhase.wait_for_power_off
    ∷ VmPhase.final_sync ∷ VmPhase.create_vm ∷ VmPhase.start_vm ∷ VmPhase.post_hook
    ∷ VmPhase.cleanup ∷ VmPhase.completed ∷ []

abbrev pub order_of : MigrationType → List VmPhase
order_of MigrationType.cold = phase_order
order_of MigrationType.warm = warm_phase_order

abbrev pub phase_index : VmPhase → ℕ
phase_index VmPhase.pending = 0
phase_index VmPhase.pre_hook = 1
phase_index VmPhase.store_power_state = 2
phase_index VmPhase.power_off = 3
phase_index VmPhase.wait_for_power_off = 4
phase_index VmPhase.create_snapshot = 5
phase_index VmPhase.export_disks = 6
phase_index VmPhase.import_disks = 7
phase_index VmPhase.create_vm = 8
phase_index VmPhase.start_vm = 9
phase_index VmPhase.post_hook = 10
phase_index VmPhase.cleanup = 11
phase_index VmPhase.bulk_copy = 12
phase_index VmPhase.wait_bulk_copy = 13
phase_index VmPhase.precopy = 14
phase_index VmPhase.final_sync = 15
phase_index VmPhase.completed = 16
phase_index VmPhase.failed = 17
phase_index VmPhase.cancelled = 18
phase_index VmPhase.unknown = 19

-- `p == q` on the texts. No order holds `unknown`, so that its texts are never compared.
abbrev pub eq_phase : VmPhase → VmPhase → Bool
eq_phase p q = phase_index p == phase_index q

unfoldable pub next_phase_in_order : VmPhase → List VmPhase → VmPhase
next_phase_in_order current [] = current
next_phase_in_order current (p ∷ []) = current
next_phase_in_order current (p ∷ q ∷ rest) =
    if eq_phase p current then q else next_phase_in_order current (q ∷ rest)

abbrev pub is_completed : VmPhase → Bool
is_completed p = eq_phase p VmPhase.completed

abbrev pub is_failed : VmPhase → Bool
is_failed p = eq_phase p VmPhase.failed

abbrev pub is_cancelled : VmPhase → Bool
is_cancelled p = eq_phase p VmPhase.cancelled

abbrev pub is_pending : VmPhase → Bool
is_pending p = eq_phase p VmPhase.pending

abbrev pub is_terminal_vm_phase : VmPhase → Bool
is_terminal_vm_phase p = is_completed p || is_failed p || is_cancelled p

abbrev pub is_active_vm_phase : VmPhase → Bool
is_active_vm_phase p = not (is_pending p) && not (is_terminal_vm_phase p)

abbrev pub is_terminal_migration_phase : MigrationPhase → Bool
is_terminal_migration_phase MigrationPhase.completed = true
is_terminal_migration_phase MigrationPhase.failed = true
is_terminal_migration_phase MigrationPhase.cancelled = true
is_terminal_migration_phase _ = false

-- Whether a phase stands in an order, and how many phases stand behind it.
abbrev pub in_order : VmPhase → List VmPhase → Bool
in_order p [] = false
in_order p (q ∷ rest) = eq_phase q p || in_order p rest

abbrev pub remaining : VmPhase → List VmPhase → ℕ
remaining p [] = 0
remaining p (q ∷ rest) = if eq_phase q p then length rest else remaining p rest
