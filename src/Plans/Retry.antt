-- ===== src/Plans/Retry.antt =====
-- What follows a plan error: `setPlanError` asks for another reconcile after a minute.
use nutanix_vma.Prelude.{ℕ, ◌==◌, true, List, ◌≡◌, ◌≢◌, refl, inl, inr, Bool-cases, arith}
use nutanix_vma.Api.{NetworkPair, StoragePair}
use nutanix_vma.Outside.{Reply, Call, Env}
use nutanix_vma.Controller.Status.{ReconcileResult, finished, requeue_after}
use nutanix_vma.Plans.{
  Plan, PlanPhase, PlanReconciled, is_validated, set_validated, after_plan_write, write_plan,
  set_plan_error, conclude, resolve_plan, after_validating, reconcile_plan, plan_key,
}

-- Where another reconcile is asked for, the stored plan counts as validated.
abbrev pub Settles : PlanReconciled → Type 0
Settles r = r.result ≡ requeue_after 60 → is_validated r.stored.validated r.stored.generation ≡ true

ends : finished ≢ requeue_after 60
ends h = cc

same : (n : ℕ) → (n == n) ≡ true
same n = ground arith

after_plan_write-Settles :
    (old new : Plan) (calls : List Call) (r : ReconcileResult) (reply : Reply (Unit {0}))
    → (r ≡ requeue_after 60 → is_validated new.validated new.generation ≡ true)
    → Settles (after_plan_write old new calls r reply)
unfolding after_plan_write
after_plan_write-Settles old new calls r (Reply.ok u) h = h
after_plan_write-Settles old new calls r (Reply.err e) h = λ q. absurd cc

module _ (env : Env) where
  write_plan-Settles :
      (old new : Plan) (calls : List Call) (r : ReconcileResult)
      → (r ≡ requeue_after 60 → is_validated new.validated new.generation ≡ true)
      → Settles (write_plan env old new calls r)
  unfolding write_plan
  write_plan-Settles old new calls r h = after_plan_write-Settles old new _ r _ h

  conclude-Settles :
      (p : Plan) (r : Reply (List NetworkPair × List StoragePair)) (calls : List Call)
      → Settles (conclude env p (r, calls))
  unfolding conclude set_plan_error
  conclude-Settles p (Reply.err e) calls =
      write_plan-Settles p (set_validated _ PlanPhase.error p) calls _ (λ q. same p.generation)
  conclude-Settles p (Reply.ok (networks, storage)) calls =
      write_plan-Settles p _ _ finished (λ q. absurd (ends q))

  after_validating-Settles :
      (old p : Plan) (r : Reply (Unit {0})) (calls : List Call)
      → Settles (after_validating env old p r calls)
  unfolding after_validating
  after_validating-Settles old p (Reply.ok u) calls =
      let (r, after) = resolve_plan env p calls in conclude-Settles p r after
  after_validating-Settles old p (Reply.err e) calls = λ q. absurd cc

  reconcile_plan-Settles : (p : Plan) (calls : List Call) → Settles (reconcile_plan env p calls)
  unfolding reconcile_plan
  reconcile_plan-Settles p calls = elim (Bool-cases (is_validated p.validated p.generation)) [
    | inl e ↦ rw e (λ q. absurd (ends q))
    | inr e ↦ rw e (after_validating-Settles p _ (env.status_updated calls (plan_key p)) _)
  ]

reconcile_plan-validated :
    (env : Env) (p : Plan) (calls : List Call)
    → is_validated p.validated p.generation ≡ true
    → reconcile_plan env p calls ≡ record { stored = p; calls = calls; result = finished }
unfolding reconcile_plan
reconcile_plan-validated env p calls h = rw h refl

-- The reconcile of a plan that is asked for after an error does nothing: where a reconcile ends with
-- the request for another one after a minute, a reconcile of the plan that it stored makes no call,
-- changes nothing and asks for none, whatever the answers then.
pub reconcile_plan-requeue :
    (env env' : Env) (p : Plan) (calls calls' : List Call)
    → (reconcile_plan env p calls).result ≡ requeue_after 60
    → reconcile_plan env' (reconcile_plan env p calls).stored calls'
      ≡ record { stored = (reconcile_plan env p calls).stored; calls = calls'; result = finished }
reconcile_plan-requeue env env' p calls calls' h =
    reconcile_plan-validated env' (reconcile_plan env p calls).stored calls'
      (reconcile_plan-Settles env p calls h)
