-- ===== src/Mock/Lifecycle.antt =====
-- The life of a task of the mock server.
use nutanix_vma.Prelude.{
  ℕ, zero, suc, ◌+◌, leb, String, Option, none, some, List, ◌∷◌, eq_iff, if◌then◌else◌, ◌≡◌, refl,
  sym, ap, ◌∙◌, inl, inr, Bool-cases, arith, le→leb,
}
use nutanix_vma.HttpClient.Tasks.{Task, TaskEntity, TaskStatus}
use nutanix_vma.Mock.{Store, TaskState, lookup, queued_task, create_task, advance, poll, get_task}

-- `n` polls of one task, the last answer with the store after it.
unfoldable pub get_times : (n : ℕ) → String → Store → Option (Task × Store)
get_times zero id s = none
get_times (suc zero) id s = get_task id s
get_times (suc (suc n)) id s = elim (get_task id s) [
  | none ↦ none
  | some (t, s') ↦ get_times (suc n) id s'
]

-- A task that was polled `n` times.
abbrev pub polled : (id : String) (entities : List TaskEntity) (target n : ℕ) → TaskState
polled id entities target zero = record {
  ext_id = id;
  task = queued_task entities;
  percent_complete = 0;
  poll_count = 0;
  target_polls = target;
}
polled id entities target (suc n) = poll (polled id entities target n)

-- What the answer to the poll with number `n` says.
abbrev pub status_at : (target n : ℕ) → TaskStatus
status_at target n = if leb target n then TaskStatus.succeeded else TaskStatus.running

-- The status and the entities after `n` polls.
poll-shows :
    (ts : TaskState) (n : ℕ)
    → ts.poll_count ≡ n
    → ((poll ts).task.status ≡ status_at ts.target_polls (n + 1))
      × ((poll ts).task.entities_affected ≡ ts.task.entities_affected)
      × ((poll ts).poll_count ≡ n + 1)
      × ((poll ts).target_polls ≡ ts.target_polls)
unfolding poll advance
poll-shows ts n e = elim (Bool-cases (leb ts.target_polls (ts.poll_count + 1))) [
  | inl y ↦ rw (sym e, y) (refl, refl, refl, refl)
  | inr y ↦ rw (sym e, y, le→leb 1 (ts.poll_count + 1) (omega arith)) (refl, refl, refl, refl)
]

pub get_task-found :
    (id : String) (s : Store) (ts : TaskState)
    → lookup id s.tasks ≡ some ts
    → get_task id s ≡ some ((poll ts).task, record s { tasks = (id, poll ts) ∷ s.tasks })
unfolding get_task
get_task-found id s ts e = rw (e, get_task) refl

pub lookup-front :
    (id : String) (ts : TaskState) (rest : List (String × TaskState))
    → lookup id ((id, ts) ∷ rest) ≡ some ts
unfolding lookup
lookup-front id ts rest = rw ((eq_iff id id).1 refl) refl

get_times-status :
    (n k : ℕ) (id : String) (s : Store) (ts : TaskState)
    → lookup id s.tasks ≡ some ts
    → ts.poll_count ≡ k
    → (t : Task) × (after : Store) × (get_times (suc n) id s ≡ some (t, after))
      × (t.status ≡ status_at ts.target_polls (k + suc n))
      × (t.entities_affected ≡ ts.task.entities_affected)
unfolding get_times
get_times-status zero k id s ts found e =
    let (status, entities, count, target) = poll-shows ts k e in
    (
      (poll ts).task,
      record s { tasks = (id, poll ts) ∷ s.tasks },
      get_task-found id s ts found,
      status,
      entities,
    )
get_times-status (suc n) k id s ts found e =
    let (status, entities, count, target) = poll-shows ts k e in
    let s' = record s { tasks = (id, poll ts) ∷ s.tasks } in
    let (t, after, q, status', entities') =
      get_times-status n (k + 1) id s' (poll ts) (lookup-front id (poll ts) s.tasks) count in
    (
      t,
      after,
      rw (get_task-found id s ts found, get_times) q,
      status' ∙ rw target (ap (status_at ts.target_polls) (omega arith)),
      entities' ∙ entities,
    )

-- A task that the mock server creates is found by each later poll until another write; the poll with
-- number `n` finds it running, or, from its number of target polls on, succeeded, always with the
-- entities that it was created with.
pub create_task-Lives :
    (entities : List TaskEntity) (target n : ℕ) (s : Store)
    → let created = create_task entities target s in
      (t : Task) × (after : Store) × (get_times (suc n) created.0 created.1 ≡ some (t, after))
      × (t.status ≡ status_at target (suc n))
      × (t.entities_affected ≡ entities)
unfolding create_task
create_task-Lives entities target n s =
    let created = create_task entities target s in
    let (t, after, q, status, entities') =
      get_times-status n 0 created.0 created.1 (polled created.0 entities target 0)
        (lookup-front created.0 (polled created.0 entities target 0) s.tasks) refl in
    (t, after, q, status ∙ ap (status_at target) (omega arith), entities')
