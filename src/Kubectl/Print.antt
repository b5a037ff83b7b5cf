-- ===== src/Kubectl/Print.antt =====
-- The printers of cmd/kubectl-vma/main.go: the rows of `plan` and `status`, by their cells. The alignment
-- of columns is text/tabwriter's; `time` is the format RFC 3339.
use nutanix_vma.Prelude.{
  ℕ, length, String, Option, none, some, List, [], ◌∷◌, ◌++◌, map, is_empty, if◌then◌else◌, concat,
  decimal,
}
use nutanix_vma.Api.{
  ConcernCategory, Concern, Error, Finding, VmStatus, VmPhase, MigrationPhase, MigrationType,
  Migration,
}
use nutanix_vma.Plans.{Plan, PlanPhase, VmValidationStatus}

abbrev pub category_text : ConcernCategory → String
category_text ConcernCategory.error = "Error"
category_text ConcernCategory.warning = "Warning"
category_text ConcernCategory.info = "Info"

-- The message is formatted from what was found.
module _ (message : Finding → String) where
  abbrev pub concern_text : Concern → String
  concern_text c = concat ("[" ∷ category_text c.category ∷ "] " ∷ message c.finding ∷ [])

  -- `strings.Join(parts, "; ")`
  unfoldable pub join_concerns : List Concern → String
  join_concerns [] = ""
  join_concerns (c ∷ []) = concern_text c
  join_concerns (c ∷ d ∷ rest) = concat (concern_text c ∷ "; " ∷ join_concerns (d ∷ rest) ∷ [])

  unfoldable pub format_concerns : List Concern → String
  unfolding join_concerns
  format_concerns [] = "None"
  format_concerns (c ∷ rest) = join_concerns (c ∷ rest)

  abbrev pub or_dash : String → String
  or_dash text = if is_empty text then "-" else text

  abbrev pub plan_row : VmValidationStatus → List String
  plan_row vm = vm.id ∷ or_dash vm.name ∷ format_concerns vm.concerns ∷ []

  -- The table of the VMs; without a VM there is none.
  unfoldable pub plan_table : List VmValidationStatus → List (List String)
  unfolding format_concerns
  plan_table [] = []
  plan_table (vm ∷ rest) = ("VM UUID" ∷ "NAME" ∷ "CONCERNS" ∷ []) ∷ map plan_row (vm ∷ rest)

  abbrev pub plan_type_text : MigrationType → String
  plan_type_text MigrationType.cold = "cold"
  plan_type_text MigrationType.warm = "warm"

  abbrev pub plan_phase_text : PlanPhase → String
  plan_phase_text PlanPhase.unset = ""
  plan_phase_text PlanPhase.pending = "Pending"
  plan_phase_text PlanPhase.validating = "Validating"
  plan_phase_text PlanPhase.ready = "Ready"
  plan_phase_text PlanPhase.error = "Error"

  unfoldable pub print_plan_status : Plan → List (List String)
  unfolding plan_table
  print_plan_status plan =
      (("Plan:" ∷ plan.spec.name ∷ [])
        ∷ ("Namespace:" ∷ plan.namespace ∷ [])
        ∷ ("Type:" ∷ plan_type_text plan.spec.type ∷ [])
        ∷ ("Phase:" ∷ plan_phase_text plan.phase ∷ [])
        ∷ ("Provider:" ∷ plan.spec.provider_ref ∷ [])
        ∷ ("Target NS:" ∷ plan.spec.target_namespace ∷ [])
        ∷ ("VMs:" ∷ decimal (length plan.spec.vms) ∷ [])
        ∷ []
        ∷ [])
      ++ plan_table plan.vms

-- A phase that is none of the constants is given by `phase_text`; an error by its text.
module _ (time : ℕ → String) (phase_text : VmPhase → String) (error_text : Error → String) where
  abbrev pub time_or_dash : Option ℕ → String
  time_or_dash none = "-"
  time_or_dash (some t) = time t

  -- An error without a text is as none.
  abbrev pub error_or_dash : Option Error → String
  error_or_dash none = "-"
  error_or_dash (some e) = if is_empty (error_text e) then "-" else error_text e

  abbrev pub status_row : VmStatus → List String
  status_row vm =
      vm.id
      ∷ (if is_empty vm.name then "-" else vm.name)
      ∷ phase_text vm.phase
      ∷ time_or_dash vm.started
      ∷ time_or_dash vm.completed
      ∷ error_or_dash vm.error
      ∷ []

  unfoldable pub status_table : List VmStatus → List (List String)
  status_table [] = []
  status_table (vm ∷ rest) =
      ("VM UUID" ∷ "NAME" ∷ "PHASE" ∷ "STARTED" ∷ "COMPLETED" ∷ "ERROR" ∷ [])
      ∷ map status_row (vm ∷ rest)

  -- A line that is printed where there is a time.
  abbrev pub time_line : (label : String) → Option ℕ → List (List String)
  time_line label none = []
  time_line label (some t) = (label ∷ time t ∷ []) ∷ []

  abbrev pub migration_phase_text : MigrationPhase → String
  migration_phase_text MigrationPhase.unset = ""
  migration_phase_text MigrationPhase.pending = "Pending"
  migration_phase_text MigrationPhase.running = "Running"
  migration_phase_text MigrationPhase.completed = "Completed"
  migration_phase_text MigrationPhase.failed = "Failed"
  migration_phase_text MigrationPhase.cancelled = "Cancelled"

  unfoldable pub print_migration_status : Migration → List (List String)
  unfolding status_table
  print_migration_status m =
      (("Migration:" ∷ m.name ∷ [])
        ∷ ("Namespace:" ∷ m.namespace ∷ [])
        ∷ ("Plan:" ∷ m.plan_ref ∷ [])
        ∷ ("Phase:" ∷ migration_phase_text m.phase ∷ [])
        ∷ [])
      ++ (time_line "Started:" m.started
          ++ (time_line "Completed:" m.completed ++ [] ∷ status_table m.vms))
