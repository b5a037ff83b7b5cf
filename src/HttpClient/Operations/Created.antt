-- ===== src/HttpClient/Operations/Created.antt =====
-- What the UUID stands for that an operation gives which creates something.
use nutanix_vma.Prelude.{
  arith, zero, suc, ◌+◌, ltb, Bool, ◌⊎◌, sym, concat, ℕ, ◌*◌, not, String, true, false, List, [],
  ◌∷◌, ◌++◌, Option, none, some, contains, is_empty, All, ◌≡◌, refl, ap, ◌∙◌, inl, inr, Bool-cases,
  Option-cases,
}
use nutanix_vma.HttpClient.{
  Event, Transport, Client, ClientError, Result, Io, and_then, require, do_json,
}
use nutanix_vma.HttpClient.Tasks.{
  Task, TaskStatus, TaskEntity, PollResult, get_task, after_status, after_task, poll_from,
  poll_task_with_options,
}
use nutanix_vma.HttpClient.Codec.{RequestBody, Codec}
use nutanix_vma.HttpClient.Operations.{
  recovery_point_base_path, image_base_path, second, find_entity, first_entity, affected,
  poll_outcome, poll_task, run_task, or_nothing, run_and_find, create_recovery_point,
  create_image_from_disk, clone_vm_from_recovery_point,
}

abbrev Lacks : List String → TaskEntity → Type 0
Lacks rels e = contains e.rel rels ≡ false

-- `id` is that of the first entity with one of the relations.
pub record Related (rels : List String) (entities : List TaskEntity) (id : String) : Type 0 where
  pub before : List TaskEntity
  pub entity : TaskEntity
  pub after : List TaskEntity
  pub split : entities ≡ before ++ entity ∷ after
  pub lacking : All (Lacks rels) before
  pub has_rel : contains entity.rel rels ≡ true
  pub same : id ≡ entity.ext_id

-- The first entity with one of the relations, and else the first entity.
pub data Picked (rels : List String) (entities : List TaskEntity) (id : String) : Type 0 where
  related : Related rels entities id → Picked rels entities id
  first :
      (e : TaskEntity) (rest : List TaskEntity)
      → entities ≡ e ∷ rest
      → All (Lacks rels) entities
      → id ≡ e.ext_id
      → Picked rels entities id

find_entity-Related :
    (rels : List String) (es : List TaskEntity) (id : String)
    → find_entity rels es ≡ some id
    → Related rels es id
unfolding find_entity
find_entity-Related rels [] id h = absurd cc
find_entity-Related rels (e ∷ rest) id h = elim (Bool-cases (contains e.rel rels)) [
  | inl y ↦ record {
    before = [];
    entity = e;
    after = rest;
    split = refl;
    lacking = tt;
    has_rel = y;
    same = (let q = (rw y at h) in cc q);
  }
  | inr n ↦
      let r = find_entity-Related rels rest id (let q = (rw n at h) in q) in
      record {
        before = e ∷ r.before;
        entity = r.entity;
        after = r.after;
        split = ap (λ x. e ∷ x) r.split;
        lacking = (n, r.lacking);
        has_rel = r.has_rel;
        same = r.same;
      }
]

find_entity-none :
    (rels : List String) (es : List TaskEntity) → find_entity rels es ≡ none → All (Lacks rels) es
unfolding find_entity
find_entity-none rels [] h = tt
find_entity-none rels (e ∷ rest) h = elim (Bool-cases (contains e.rel rels)) [
  | inl y ↦ absurd (let q = (rw y at h) in cc q)
  | inr n ↦ (n, find_entity-none rels rest (let q = (rw n at h) in q))
]

first-Picked :
    (rels : List String) (es : List TaskEntity) (id : String)
    → All (Lacks rels) es
    → first_entity es ≡ some id
    → Picked rels es id
first-Picked rels [] id lacks h = absurd cc
first-Picked rels (e ∷ rest) id lacks h = first e rest refl lacks (cc h)

affected-Picked :
    (rels : List String) (es : List TaskEntity) (id : String)
    → affected rels es ≡ some id
    → Picked rels es id
unfolding affected
affected-Picked rels es id h = elim (Option-cases (find_entity rels es)) [
  | inl n ↦
      first-Picked rels es id (find_entity-none rels es n) (let q = (rw (n, affected) at h) in q)
  | inr (found, y) ↦
      related (find_entity-Related rels es id (y ∙ (let q = (rw (y, affected) at h) in q)))
]

poll_outcome-ok :
    (r : PollResult) (task : Task) → poll_outcome r ≡ Result.ok task → r ≡ PollResult.done task
unfolding poll_outcome
poll_outcome-ok (PollResult.done t) task h = cc
poll_outcome-ok (PollResult.task_failed t m) task h = absurd cc
poll_outcome-ok (PollResult.task_cancelled t) task h = absurd cc
poll_outcome-ok (PollResult.unknown_status t) task h = absurd cc
poll_outcome-ok PollResult.timed_out task h = absurd cc
poll_outcome-ok PollResult.context_cancelled task h = absurd cc
poll_outcome-ok PollResult.diverged task h = absurd cc
poll_outcome-ok (PollResult.poll_failed e) task h = absurd cc

-- What a chain of two operations gives comes from both.
and_then-ok {ℓ κ} :
    {A : Type ℓ} {B : Type κ} (r : Result A × List Event) (f : A → Io B) (b : B) (last : List Event)
    → and_then r f ≡ (Result.ok b, last)
    → (a : A) × (events : List Event) × (f a events ≡ (Result.ok b, last))
      × (r ≡ (Result.ok a, events))
and_then-ok (Result.ok a, events) f b last h = (a, events, h, refl)
and_then-ok (Result.err e, events) f b last h = absurd (let q = ap (λ x. x.0) h in cc q)

or_nothing-ok :
    (o : Option String) (events : List Event) (id : String) (last : List Event)
    → or_nothing o events ≡ (Result.ok id, last)
    → (o ≡ some id) × (events ≡ last)
or_nothing-ok none events id last h = absurd (let q = ap (λ x. x.0) h in cc q)
or_nothing-ok (some x) events id last h = (let q = ap (λ x. x.0) h in cc q, ap (λ x. x.1) h)

-- The three operations, with the bodies that they send and the kinds of entity that they look for.
pub data Creation : Type 0 where
  recovery_point : (vm name : String) → Creation
  image : (name disk cluster : String) → Creation
  clone : (rp name : String) → Creation

abbrev pub creation_body : Creation → RequestBody
creation_body (recovery_point vm name) = RequestBody.create_recovery_point name vm
creation_body (image name disk cluster) = RequestBody.create_image name disk cluster
creation_body (clone rp name) = RequestBody.recover_vm name

abbrev pub creation_rels : Creation → List String
creation_rels (recovery_point vm name) =
    "dataprotection:config:recovery-point" ∷ "recovery-point" ∷ []
creation_rels (image name disk cluster) = "vmm:images:image" ∷ "image" ∷ []
creation_rels (clone rp name) = "vmm:ahv:config:vm" ∷ "vm" ∷ []

opposite_of : (b : Bool) → not b ≡ true → b ≡ false
opposite_of b h = ground arith

module _ (t : Transport) (codec : Codec) (c : Client) (fuel : ℕ) where
  -- A poll of a task ends, with the events `last`, in the answer to a request for it, which says that it
  -- has succeeded.
  pub record Finished (uuid : String) (task : Task) (last : List Event) : Type 0 where
    pub asked : List Event
    pub answered : get_task t c codec.task uuid asked ≡ (Result.ok task, last)
    pub succeeded : task.status ≡ TaskStatus.succeeded

  after_status-done :
      (again : PollResult × List Event) (found task : Task) (st : TaskStatus)
      (events last : List Event)
      → found.status ≡ st
      → after_status again found st events ≡ (PollResult.done task, last)
      → (again ≡ (PollResult.done task, last))
        ⊎ ((found ≡ task) × (found.status ≡ TaskStatus.succeeded) × (events ≡ last))
  unfolding after_status
  after_status-done again found task TaskStatus.succeeded events last e h =
      inr (let q = ap (λ x. x.0) h in cc q, e, ap (λ x. x.1) h)
  after_status-done again found task TaskStatus.queued events last e h = inl h
  after_status-done again found task TaskStatus.running events last e h = inl h
  after_status-done again found task TaskStatus.failed events last e h =
      absurd (let q = ap (λ x. x.0) h in cc q)
  after_status-done again found task TaskStatus.cancelled events last e h =
      absurd (let q = ap (λ x. x.0) h in cc q)
  after_status-done again found task (TaskStatus.other x) events last e h =
      absurd (let q = ap (λ x. x.0) h in cc q)

  after_task-done :
      (again : PollResult × List Event) (answer : Result Task × List Event) (task : Task)
      (last : List Event)
      → after_task again answer.0 answer.1 ≡ (PollResult.done task, last)
      → (again ≡ (PollResult.done task, last))
        ⊎ ((answer ≡ (Result.ok task, last)) × (task.status ≡ TaskStatus.succeeded))
  unfolding after_task
  after_task-done again (Result.err e, events) task last h =
      absurd (let q = ap (λ x. x.0) h in cc q)
  after_task-done again (Result.ok found, events) task last h =
      elim (after_status-done again found task found.status events last refl h) [
        | inl more ↦ inl more
        | inr (same, e, end) ↦ inr (
          ap (λ x. (Result.ok x, events)) same ∙ ap (λ x. (Result.ok task, x)) end,
          ap (λ (x : Task). x.status) (sym same) ∙ e,
        )
      ]

  poll_from-Finished :
      (uuid : String) (interval fuel deadline : ℕ) (events : List Event) (task : Task)
      (last : List Event)
      → poll_from t c codec.task uuid interval fuel deadline events ≡ (PollResult.done task, last)
      → Finished uuid task last
  unfolding poll_from
  poll_from-Finished uuid interval zero deadline events task last h =
      absurd (let q = ap (λ x. x.0) h in cc q)
  poll_from-Finished uuid interval (suc fuel) deadline events task last h =
      let asked = Event.read_clock ∷ events in
      let answer = get_task t c codec.task uuid asked in
      elim (Bool-cases (ltb deadline (t.now events))) [
        | inl late ↦ absurd (let q = ap (λ x. x.0) (rw late at h) in cc q)
        | inr early ↦ elim (after_task-done _ answer task last (let q = (rw early at h) in q)) [
          | inr (got, e) ↦ record { asked = asked; answered = got; succeeded = e }
          | inl again ↦ elim (Bool-cases (t.interrupted answer.1)) [
            | inl stop ↦ absurd (let q = ap (λ x. x.0) (rw stop at again) in cc q)
            | inr go ↦
                poll_from-Finished uuid interval fuel deadline (Event.waited interval ∷ answer.1)
                  task last (let q = (rw go at again) in q)
          ]
        ]
      ]

  poll_task-Finished :
      (uuid : String) (events : List Event) (task : Task) (last : List Event)
      → poll_task t codec c fuel uuid events ≡ (Result.ok task, last)
      → Finished uuid task last
  unfolding poll_task poll_task_with_options
  poll_task-Finished uuid events task last h =
      poll_from-Finished uuid (2 * second) fuel (t.now events + 30 * 60 * second)
        (Event.read_clock ∷ events) task last
        (ap (λ x. (x, (poll_task t codec c fuel uuid events).1))
            (poll_outcome-ok _ task (ap (λ x. x.0) h))
          ∙ ap (λ x. (PollResult.done task, x)) (ap (λ x. x.1) h))

  -- What an operation gives that creates something and ends with the events `last`: its request was
  -- answered with the UUID of a task, which is not empty; the task was polled to its success; and what is
  -- given is picked from the entities of that task.
  pub record Gives (rels : List String) (method url : String) (body : Option String)
      (events : List Event) (id : String) (last : List Event) : Type 0 where
    pub ref : String
    pub accepted : (do_json t c codec.task_ref method url body events).0 ≡ Result.ok ref
    pub named : is_empty ref ≡ false
    pub task : Task
    pub finished : Finished ref task last
    pub picked : Picked rels task.entities_affected id

  require-ok :
      (b : Bool) (e : ClientError) (events : List Event) (u : Unit {0}) (last : List Event)
      → require b e events ≡ (Result.ok u, last)
      → b ≡ true
  require-ok true e events u last h = refl
  require-ok false e events u last h = absurd (let q = ap (λ x. x.0) h in cc q)

  run_and_find-Gives :
      (rels : List String) (method url : String) (body : Option String) (events : List Event)
      (id : String) (last : List Event)
      → run_and_find t codec c fuel rels method url body events ≡ (Result.ok id, last)
      → Gives rels method url body events id last
  unfolding run_and_find run_task
  run_and_find-Gives rels method url body events id last h =
      let (task, after, q, e) =
        and_then-ok (run_task t codec c fuel method url body events) _ id last h in
      let (ref, later, p, r) =
        and_then-ok (do_json t c codec.task_ref method url body events) _ task after e in
      let (u, checked, polled, k) =
        and_then-ok (require (not (is_empty ref)) ClientError.no_task_id later) _ task after p in
      let (one, end) = or_nothing-ok _ after id last q in
      record {
        ref = ref;
        accepted = ap (λ x. x.0) r;
        named = opposite_of (is_empty ref) (require-ok (not (is_empty ref)) _ later u checked k);
        task = task;
        finished =
            poll_task-Finished ref checked task last (polled ∙ ap (λ x. (Result.ok task, x)) end);
        picked = affected-Picked rels task.entities_affected id one;
      }

  -- A creation as it is run.
  unfoldable pub run_creation : Creation → Io String
  unfolding create_recovery_point create_image_from_disk clone_vm_from_recovery_point
  run_creation (recovery_point vm name) = create_recovery_point t codec c fuel vm name
  run_creation (image name disk cluster) = create_image_from_disk t codec c fuel name disk cluster
  run_creation (clone rp name) = clone_vm_from_recovery_point t codec c fuel rp name

  abbrev pub creation_url : Creation → String
  creation_url (recovery_point vm name) = concat (c.host ∷ recovery_point_base_path ∷ [])
  creation_url (image name disk cluster) = concat (c.host ∷ image_base_path ∷ [])
  creation_url (clone rp name) =
      concat (c.host ∷ recovery_point_base_path ∷ "/" ∷ rp ∷ "/$actions/vm-recovery" ∷ [])

  -- A UUID that CreateRecoveryPoint, CreateImageFromDisk or CloneVMFromRecoveryPoint gives comes from the
  -- task that its request was answered with: the last event of the operation is the answer to a request
  -- for that task, which said that it has succeeded, and the UUID is that of the first entity of the
  -- operation's kind in this answer, or of its first entity, if none is of that kind.
  pub creations-Gives :
      (k : Creation) (events : List Event) (id : String)
      → (run_creation k events).0 ≡ Result.ok id
      → Gives
          (creation_rels k)
          "POST"
          (creation_url k)
          (some (codec.marshal (creation_body k)))
          events
          id
          (run_creation k events).1
  unfolding run_creation create_recovery_point create_image_from_disk clone_vm_from_recovery_point
  creations-Gives (recovery_point vm name) events id h =
      run_and_find-Gives _ _ _ _ events id _
        (ap (λ x. (x, (run_creation (recovery_point vm name) events).1)) h)
  creations-Gives (image name disk cluster) events id h =
      run_and_find-Gives _ _ _ _ events id _
        (ap (λ x. (x, (run_creation (image name disk cluster) events).1)) h)
  creations-Gives (clone rp name) events id h =
      run_and_find-Gives _ _ _ _ events id _
        (ap (λ x. (x, (run_creation (clone rp name) events).1)) h)
