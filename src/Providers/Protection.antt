-- ===== src/Providers/Protection.antt =====
-- The finalizer of a NutanixProvider.
use nutanix_vma.Prelude.{
  ℕ, String, Bool, true, false, ◌||◌, List, [], ◌∷◌, All, str_eq, is_empty, ◌≡◌, refl, sym, ◌∙◌, ap,
  inl, inr, Bool-cases, arith,
}
use nutanix_vma.Api.{MigrationPlan}
use nutanix_vma.Outside.{Reply, Call, Credentials, Env}
use nutanix_vma.Providers.{
  NutanixProvider, ProviderPhase, ProviderReconciled, ProviderResult, is_referenced,
  after_provider_write, write_provider_status, set_error_condition, take_inventory, with_client,
  with_credentials, connect, release, reconcile_provider, provider_key,
}

-- The finalizer is still there.
abbrev Guarded : ProviderReconciled → Type 0
Guarded r = r.stored.finalizer ≡ true

after_write-Guarded :
    (old new : NutanixProvider) (calls : List Call) (r : ProviderResult) (reply : Reply (Unit {0}))
    → old.finalizer ≡ true
    → new.finalizer ≡ true
    → Guarded (after_provider_write old new calls r reply)
unfolding after_provider_write
after_write-Guarded old new calls r (Reply.ok u) o n = n
after_write-Guarded old new calls r (Reply.err e) o n = o

unreferenced :
    (name : String) (plans : List MigrationPlan)
    → is_referenced name plans ≡ false
    → All (λ q. str_eq q.provider_ref name ≡ false) plans
unfolding is_referenced
unreferenced name [] h = tt
unreferenced name (q ∷ qs) h = (ground arith, unreferenced name qs (ground arith))

module _ (env : Env) (p : NutanixProvider) (f : p.finalizer ≡ true) where
  set_error-Guarded :
      (reason : String) (calls : List Call) → Guarded (set_error_condition env p reason calls)
  unfolding set_error_condition write_provider_status
  set_error-Guarded reason calls = after_write-Guarded p _ _ _ _ f f

  take_inventory-Guarded :
      (r : Reply ℕ) (calls : List Call) → Guarded (take_inventory env p r calls)
  unfolding take_inventory write_provider_status
  take_inventory-Guarded (Reply.ok n) calls = after_write-Guarded p _ _ _ _ f f
  take_inventory-Guarded (Reply.err e) calls = set_error-Guarded _ calls

  with_client-Guarded :
      (r : Reply (Unit {0})) (calls : List Call) → Guarded (with_client env p r calls)
  unfolding with_client
  with_client-Guarded (Reply.ok u) calls = take_inventory-Guarded _ _
  with_client-Guarded (Reply.err e) calls = set_error-Guarded _ calls

  with_credentials-Guarded :
      (r : Reply Credentials) (calls : List Call) → Guarded (with_credentials env p r calls)
  unfolding with_credentials
  with_credentials-Guarded (Reply.err e) calls = set_error-Guarded _ calls
  with_credentials-Guarded (Reply.ok c) calls =
      elim (Bool-cases (is_empty c.username || is_empty c.password)) [
        | inl e ↦ rw e (set_error-Guarded "InvalidCredentials" calls)
        | inr e ↦ rw e (with_client-Guarded _ _)
      ]

connect-Guarded :
    (env : Env) (old p : NutanixProvider) (r : Reply (Unit {0})) (calls : List Call)
    → old.finalizer ≡ true
    → p.finalizer ≡ true
    → Guarded (connect env old p r calls)
unfolding connect
connect-Guarded env old p (Reply.ok u) calls o f = with_credentials-Guarded env p f _ _
connect-Guarded env old p (Reply.err e) calls o f = o

-- The plans were listed, and none of them refers to the provider.
abbrev pub Unused : NutanixProvider → Reply (List MigrationPlan) → Type 0
Unused p r =
    (plans : List MigrationPlan) × (r ≡ Reply.ok plans)
    × All (λ q. str_eq q.provider_ref p.name ≡ false) plans

differ : (b : Bool) → b ≡ true → b ≡ false → ⊥
differ b h k = cc

release-Unused :
    (env : Env) (p : NutanixProvider) (r : Reply (List MigrationPlan)) (calls : List Call)
    → p.finalizer ≡ true
    → (release env p r calls).stored.finalizer ≡ false
    → Unused p r
unfolding release
release-Unused env p (Reply.err e) calls f = λ h. absurd (differ p.finalizer f h)
release-Unused env p (Reply.ok plans) calls f = elim (Bool-cases (is_referenced p.name plans)) [
  | inl e ↦ rw e (λ h. absurd (differ p.finalizer f h))
  | inr e ↦ λ h. (plans, refl, unreferenced p.name plans e)
]

reconcile-releases :
    (env : Env) (p : NutanixProvider) (calls : List Call)
    → p.finalizer ≡ true
    → p.deleting ≡ true
    → reconcile_provider env p calls
      ≡ release env p (env.list_plans calls p.namespace) (Call.list_plans p.namespace ∷ calls)
unfolding reconcile_provider
reconcile-releases env p calls f d = rw (d, f) refl

reconcile-connects :
    (env : Env) (p : NutanixProvider) (calls : List Call)
    → p.finalizer ≡ true
    → p.deleting ≡ false
    → reconcile_provider env p calls
      ≡ connect env p
          (record p { phase = ProviderPhase.connecting })
          (env.status_updated calls (provider_key p))
          (Call.update_status (provider_key p) ∷ calls)
unfolding reconcile_provider
reconcile-connects env p calls f d = rw (d, f) refl

-- Whatever the answers, a reconcile takes the finalizer off a provider only if the provider is being deleted,
-- the plans of its namespace could be listed, and none of them refers to it.
pub reconcile_provider-protects :
    (env : Env) (p : NutanixProvider) (calls : List Call)
    → p.finalizer ≡ true
    → (reconcile_provider env p calls).stored.finalizer ≡ false
    → (p.deleting ≡ true) × Unused p (env.list_plans calls p.namespace)
reconcile_provider-protects env p calls f h = elim (Bool-cases p.deleting) [
  | inl d ↦ (
    d,
    release-Unused env p _ _ f
        (sym (ap (λ r. r.stored.finalizer) (reconcile-releases env p calls f d)) ∙ h),
  )
  | inr d ↦ absurd (
      differ _ (connect-Guarded env p (record p { phase = ProviderPhase.connecting }) _ _ f f)
        (sym (ap (λ r. r.stored.finalizer) (reconcile-connects env p calls f d)) ∙ h))
]
