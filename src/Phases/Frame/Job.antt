-- ===== src/Phases/Frame/Job.antt =====
-- The handlers of hook_runner.go against the frame, and the attempts of the Jobs that they create.
use nutanix_vma.Prelude.{
  ℕ, ◌+◌, leb, Bool, true, false, String, Option, none, some, List, ◌++◌, All, ◌≡◌, arith,
}
use nutanix_vma.Api.{ApiError, Hook, Job, PlanHookRef}
use nutanix_vma.Outside.{Reply, Call, Object, Env}
use nutanix_vma.Session.{Session}
use nutanix_vma.Session.Keeps.{Keeps, any_call, Keeps-any, keeps_rules}
use nutanix_vma.Context.{Context}
use nutanix_vma.Phases.Hooks.{
  hook_max_retries, read_hook, find_hook, create_hook_job_with_attempt, create_hook_config_map,
  cleanup_hook_resources, retry_hook_job, check_hook_job, start_hook, on_job, run_found_hook,
  run_hook,
}

-- No Job of a hook is created for a fourth attempt.
abbrev pub few_attempts : Call → Bool
few_attempts (Call.create (Object.hook_job job)) = leb job.attempt 3
few_attempts _ = true

next_attempt : (n : ℕ) → leb hook_max_retries n ≡ false → leb (n + 1) 3 ≡ true
next_attempt n h = ground arith

module _ (env : Env) (ctx : Context) where
  read_hook-Keeps : (o : Option PlanHookRef) → Keeps few_attempts (read_hook env ctx o)
  unfolding read_hook
  read_hook-Keeps none = search keeps_rules
  read_hook-Keeps (some h) = search keeps_rules

  find_hook-Keeps : (step : String) → Keeps few_attempts (find_hook env ctx step)
  unfolding find_hook
  find_hook-Keeps step = search (keeps_rules, read_hook-Keeps) depth 20

  create_job-Keeps :
      (name : String) (h : Hook) (cm : String) (n : ℕ)
      → leb n 3 ≡ true
      → Keeps few_attempts (create_hook_job_with_attempt env ctx name h cm n)
  unfolding create_hook_job_with_attempt
  create_job-Keeps name h cm n k = search keeps_rules

  create_hook_config_map-Keeps :
      (name : String) → Keeps few_attempts (create_hook_config_map env ctx name)
  unfolding create_hook_config_map
  create_hook_config_map-Keeps name = search keeps_rules

  cleanup_hook_resources-Keeps :
      (name : String) → Keeps few_attempts (cleanup_hook_resources env ctx name)
  unfolding cleanup_hook_resources
  cleanup_hook_resources-Keeps name = search keeps_rules

  retry_hook_job-Keeps :
      (h : Hook) (step name : String) (n : ℕ)
      → leb hook_max_retries n ≡ false
      → Keeps few_attempts (retry_hook_job env ctx h step name n)
  unfolding retry_hook_job
  retry_hook_job-Keeps h step name n k =
      search (keeps_rules, create_job-Keeps, next_attempt n k) depth 20

  check_hook_job-Keeps :
      (j : Job) (h : Hook) (step name : String)
      → Keeps few_attempts (check_hook_job env ctx j h step name)
  unfolding check_hook_job
  check_hook_job-Keeps j h step name =
      search (keeps_rules, cleanup_hook_resources-Keeps, retry_hook_job-Keeps) depth 20

  start_hook-Keeps :
      (h : Hook) (step name : String) → Keeps few_attempts (start_hook env ctx h step name)
  unfolding start_hook
  start_hook-Keeps h step name =
      search (keeps_rules, create_hook_config_map-Keeps, create_job-Keeps) depth 20

  on_job-Keeps :
      (r : Reply Job) (h : Hook) (step name : String)
      → Keeps few_attempts (on_job env ctx r h step name)
  unfolding on_job
  on_job-Keeps (Reply.ok j) h step name = check_hook_job-Keeps j h step name
  on_job-Keeps (Reply.err ApiError.not_found) h step name = start_hook-Keeps h step name
  on_job-Keeps (Reply.err _) h step name = search keeps_rules

  run_found_hook-Keeps :
      (step : String) (o : Option Hook) → Keeps few_attempts (run_found_hook env ctx step o)
  unfolding run_found_hook
  run_found_hook-Keeps step none = search keeps_rules
  run_found_hook-Keeps step (some h) = search (keeps_rules, on_job-Keeps) depth 20

  run_hook-few : (step : String) → Keeps few_attempts (run_hook env ctx step)
  unfolding run_hook
  run_hook-few step = search (keeps_rules, find_hook-Keeps, run_found_hook-Keeps) depth 20

  pub run_hook-Keeps : (step : String) → Keeps any_call (run_hook env ctx step)
  run_hook-Keeps step = Keeps-any _ (run_hook-few step)

  -- Whatever the answers, and whatever attempt a Job's annotation names, a hook phase creates no Job for an
  -- attempt beyond the third.
  pub run_hook-attempts :
      (step : String) (s : Session)
      → (new : List Call) × ((run_hook env ctx step s).1.calls ≡ new ++ s.calls)
        × All (λ c. few_attempts c ≡ true) new
  run_hook-attempts step s =
      let same = (run_hook-few step).at s in (same.extra, same.grown, same.allowed)
