-- ===== src/Phases/Hooks.antt =====
-- internal/controller/hook_runner.go: the Jobs of the PreHook and PostHook phases.
use nutanix_vma.Prelude.{
  div64, ℕ, ◌+◌, ltb, leb, String, Option, none, some, List, [], ◌∷◌, str_eq, is_empty,
  if◌then◌else◌, concat,
}
use nutanix_vma.Api.{ApiError, Error, Hook, Job, PlanHookRef, PlanVm}
use nutanix_vma.Outside.{Reply, Kind, Key, Object, Call, Env}
use nutanix_vma.Session.{
  PhaseResult, Exec, done, waiting, failed, ◌>>=◌, ◌>>◌, pure, leave, on_option, get_vm_status, ask,
  or_fail,
}
use nutanix_vma.Context.{Context, target_key, short_id}
use nutanix_vma.Transfer.{create, delete, forgive_exists, forgive_missing}

abbrev pub hook_max_retries : ℕ
hook_max_retries = 3

unfoldable pub get_hook_attempt : Job → ℕ
get_hook_attempt job = elim job.attempt_annotation [ none ↦ 1 | some n ↦ n ]

unfoldable pub hook_step_suffix : String → String
hook_step_suffix step = if str_eq step "PreHook" then "pre" else "post"

-- The plan's entry for a VM.
unfoldable pub find_plan_vm : String → List PlanVm → Option PlanVm
find_plan_vm id [] = none
find_plan_vm id (p ∷ rest) = if str_eq p.id id then some p else find_plan_vm id rest

unfoldable pub find_hook_ref : String → List PlanHookRef → Option PlanHookRef
find_hook_ref step [] = none
find_hook_ref step (h ∷ rest) = if str_eq h.step step then some h else find_hook_ref step rest

module _ (env : Env) (ctx : Context) where
  -- Nanoseconds of the duration, an int64, to whole seconds; 600 where it does not parse.
  unfoldable pub parse_deadline : String → ℕ
  parse_deadline s =
      if is_empty s
      then 600
      else elim (env.parse_duration s) [ none ↦ 600 | some d ↦ div64 d 1_000_000_000 ]

  abbrev pub job_key : String → Key
  job_key name = target_key ctx Kind.job name

  unfoldable pub read_hook : Option PlanHookRef → Exec (Option Hook)
  read_hook none = pure none
  read_hook (some h) = do
    let k : Key = record {
      kind = Kind.hook;
      namespace = ctx.migration_namespace;
      name = h.hook_ref;
    }
    r ← ask (Call.get k) (λ calls. env.hook calls k)
    pure (elim r [ Reply.ok hook ↦ some hook | Reply.err e ↦ none ])

  -- A Hook that cannot be read counts as none.
  unfoldable pub find_hook : (step : String) → Exec (Option Hook)
  unfolding find_plan_vm find_hook_ref read_hook
  find_hook step = do
    v ← get_vm_status
    on_option (find_plan_vm v.id ctx.plan.vms) (pure none)
        (λ p. read_hook (find_hook_ref step p.hooks))

  unfoldable pub create_hook_job_with_attempt : String → Hook → String → ℕ → Exec (Reply (Unit {0}))
  unfolding parse_deadline forgive_exists
  create_hook_job_with_attempt name hook config_map attempt = do
    r ← create env (
        Object.hook_job (record {
          name = name;
          namespace = ctx.plan.target_namespace;
          hook_name = hook.name;
          image = hook.image;
          service_account =
              if is_empty hook.service_account then "default" else hook.service_account;
          config_map = config_map;
          attempt = attempt;
          deadline = parse_deadline hook.deadline;
        }))
    pure (forgive_exists r)

  unfoldable pub create_hook_config_map : String → Exec (Reply (Unit {0}))
  unfolding forgive_exists
  create_hook_config_map name = do
    v ← get_vm_status
    r ← create env (Object.hook_config_map ctx.plan.target_namespace name v ctx.plan)
    pure (forgive_exists r)

  unfoldable pub cleanup_hook_resources : String → Exec (Unit {0})
  cleanup_hook_resources name = do
    delete env (job_key name)
    delete env (target_key ctx Kind.config_map (concat (name ∷ "-ctx" ∷ [])))
    pure tt

  unfoldable pub retry_hook_job : Hook → String → String → ℕ → Exec PhaseResult
  unfolding create_hook_job_with_attempt forgive_missing
  retry_hook_job hook step name attempt = do
    d ← delete env (job_key name)
    or_fail (concat (step ∷ ": delete failed Job" ∷ [])) (forgive_missing d)
    r ← create_hook_job_with_attempt name hook (concat (name ∷ "-ctx" ∷ [])) (attempt + 1)
    or_fail (concat (step ∷ ": retry Job" ∷ [])) r
    pure waiting

  unfoldable pub check_hook_job : Job → Hook → String → String → Exec PhaseResult
  unfolding get_hook_attempt cleanup_hook_resources retry_hook_job
  check_hook_job job hook step name =
      if ltb 0 job.succeeded
      then (do cleanup_hook_resources name; pure done)
      else if ltb 0 job.failures
      then (if leb hook_max_retries (get_hook_attempt job)
          then (do
            cleanup_hook_resources name
            pure (
                failed
                  (Error.msg (concat (step ∷ ": Job " ∷ name ∷ " failed after 3 attempts" ∷ [])))))
          else retry_hook_job hook step name (get_hook_attempt job))
      else pure waiting

  unfoldable pub start_hook : Hook → String → String → Exec PhaseResult
  unfolding create_hook_config_map create_hook_job_with_attempt
  start_hook hook step name = do
    let config : String = concat (name ∷ "-ctx" ∷ [])
    c ← create_hook_config_map config
    or_fail (concat (step ∷ ": create ConfigMap" ∷ [])) c
    r ← create_hook_job_with_attempt name hook config 1
    or_fail (concat (step ∷ ": create Job" ∷ [])) r
    pure waiting

  -- The branches on what reading the Job gives.
  unfoldable pub on_job : Reply Job → Hook → String → String → Exec PhaseResult
  unfolding check_hook_job start_hook
  on_job (Reply.ok job) hook step name = check_hook_job job hook step name
  on_job (Reply.err ApiError.not_found) hook step name = start_hook hook step name
  on_job (Reply.err e) hook step name =
      leave (failed (Error.wrap (concat (step ∷ ": get Job" ∷ [])) e))

  unfoldable pub hook_job_name : (step id : String) → String
  unfolding short_id hook_step_suffix
  hook_job_name step id =
      concat (
        "vma-" ∷ short_id ctx.migration_name ∷ "-" ∷ short_id id ∷ "-" ∷ hook_step_suffix step ∷ [])

  unfoldable pub run_found_hook : (step : String) → Option Hook → Exec PhaseResult
  unfolding on_job hook_job_name
  run_found_hook step none = pure done
  run_found_hook step (some hook) = do
    v ← get_vm_status
    let name : String = hook_job_name step v.id
    r ← ask (Call.get (job_key name)) (λ calls. env.job calls (job_key name))
    on_job r hook step name

  unfoldable pub run_hook : (step : String) → Exec PhaseResult
  unfolding find_hook run_found_hook
  run_hook step = do hook ← find_hook step; run_found_hook step hook
