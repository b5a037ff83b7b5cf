-- ===== src/Mock/Server/Polling.antt =====
-- The Nutanix client polls a task of the mock server.
use Prim.Native.String
use nutanix_vma.Prelude.{
  ℕ, zero, suc, ◌+◌, ◌*◌, ◌<◌, ◌≤◌, true, false, String, Option, none, some, List, [], ◌∷◌, ◌≡◌,
  refl, ap, ◌∙◌, codes, is_empty, concat, gt→leb, le→leb, ge→ltb, arith,
}
use nutanix_vma.HttpClient.{Event, Request, Transport, Client, Result, request_with}
use nutanix_vma.HttpClient.Answered.{do_json-answered}
use nutanix_vma.HttpClient.Tasks.{
  Task, TaskEntity, TaskStatus, PollResult, get_task, poll_from, after_task, after_status,
}
use nutanix_vma.HttpClient.Operations.{second}
use nutanix_vma.Mock.{Store, TaskState, lookup, poll, advance}
use nutanix_vma.Mock.Lifecycle.{get_task-found, lookup-front}
use nutanix_vma.Mock.Handlers.{Fields, MockRequest, Payload, reply, is_get, handle_task}
use nutanix_vma.Mock.Server.{
  strip_text, read_request, serve, sent_reply, store_of, store_after, served,
}
use nutanix_vma.Mock.Server.Reading.{free_of, strip_text-append, serve-target}
use nutanix_vma.Mock.Server.Paths.{
  tasks_below, free_of-text, append-empty, split_first-free, dispatch-task,
}

abbrev pub task_of : List TaskEntity → TaskStatus → Task
task_of entities status = record {
  status = status;
  error_messages = [];
  entities_affected = entities;
}

abbrev pub with_tasks : List (String × TaskState) → Store → Store
with_tasks tasks s = record s { tasks = tasks }

handle_task-found :
    (r : MockRequest) (s : Store) (ts : TaskState)
    → is_get r ≡ true
    → is_empty r.rest ≡ false
    → lookup r.rest s.tasks ≡ some ts
    → handle_task r s
      ≡ (reply 200 (Payload.task (poll ts).task), record s { tasks = (r.rest, poll ts) ∷ s.tasks })
unfolding handle_task
handle_task-found r s ts get full found = rw (get, full, get_task-found r.rest s ts found) refl

-- In nanoseconds.
abbrev minute : ℕ
minute = 60 * second

-- How long the client means to wait.
abbrev pub lasts : Event → ℕ
lasts (Event.waited interval) = interval
lasts (Event.slept seconds) = seconds * second
lasts _ = 0

-- Each event takes at most a minute more than the client waits in it, and the context is not cancelled.
pub record Patient (t : Transport) : Type 0 where
  pub prompt :
      (e : Event) (events : List Event) → t.now (e ∷ events) ≤ t.now events + (lasts e + minute)
  pub going : (events : List Event) → t.interrupted events ≡ false

-- The time of as many rounds of a poll.
abbrev pub rounds : (interval n : ℕ) → ℕ
rounds interval zero = 0
rounds interval (suc n) = let rest = rounds interval n in 3 * minute + interval + rest

module _ (encode : Payload → String) (fields : String → Option Fields) (t : Transport) (c : Client)
    (start : Store) where
  abbrev pub Accepts : Type 0
  Accepts = (method url : String) → t.accepts method url ≡ true

  module _ (decode : String → Option Task) (id : String) where
    get_task-served :
        (events : List Event) (ts : TaskState)
        → free_of b'?' (codes id) ≡ true
        → is_empty id ≡ false
        → Accepts
        → lookup id (store_after encode fields c.host start events).tasks ≡ some ts
        → decode (encode (Payload.task (poll ts).task)) ≡ some (poll ts).task
        → let answer = get_task (served encode fields c.host t start) c decode id events in
          (answer.0 ≡ Result.ok (poll ts).task)
          × (store_after encode fields c.host start answer.1
              ≡ record (store_after encode fields c.host start events) {
                tasks = (id, poll ts) ∷ (store_after encode fields c.host start events).tasks;
              })
          × (r : Request) × (answer.1 ≡ Event.sent r ∷ events)
    unfolding get_task served store_after read_request
    get_task-served events ts free full accepts found coded =
        let now = store_after encode fields c.host start events in
        let url = concat (c.host ∷ tasks_below ∷ id ∷ []) in
        let r = request_with t c "GET" url none in
        let target = String.◌++◌ tasks_below id in
        let answer : serve encode fields c.host r now
            ≡ some (
              reply 200 (Payload.task (poll ts).task),
              record now { tasks = (id, poll ts) ∷ now.tasks },
            ) =
          serve-target encode fields c.host r now target target none
            (ap (λ x. strip_text c.host (String.◌++◌ c.host (String.◌++◌ tasks_below x)))
                (append-empty id)
              ∙ strip_text-append c.host target)
            (split_first-free b'?' target (free_of-text b'?' tasks_below id refl free))
          ∙ ap some (
              dispatch-task c.host (read_request fields r none) now id
              ∙ handle_task-found (record (read_request fields r none) { rest = id }) now ts refl
                  full found) in
        let (given, sent) =
          do_json-answered (served encode fields c.host t start) c decode "GET" url none 200 events
            (encode (Payload.task (poll ts).task)) (poll ts).task refl (accepts "GET" url)
            (ap (sent_reply encode fields c.host) answer) coded in
        (
          given,
          ap (λ after. store_after encode fields c.host start after) sent
              ∙ ap (store_of encode fields c.host now) answer,
          r,
          sent,
        )

    -- What a poll reads, for a task with these entities.
    abbrev pub TasksRead : List TaskEntity → Type 0
    TasksRead entities =
        (decode (encode (Payload.task (task_of entities TaskStatus.running)))
          ≡ some (task_of entities TaskStatus.running))
        × (decode (encode (Payload.task (task_of entities TaskStatus.succeeded)))
            ≡ some (task_of entities TaskStatus.succeeded))

    poll-last :
        (entities : List TaskEntity) (status : TaskStatus) (ts : TaskState)
        → ts.task ≡ task_of entities status
        → ts.target_polls ≡ ts.poll_count + 1
        → (poll ts).task ≡ task_of entities TaskStatus.succeeded
    unfolding poll advance
    poll-last entities status ts shape target =
        rw (target, le→leb (ts.poll_count + 1) (ts.poll_count + 1) (omega arith), shape) refl

    poll-early :
        (entities : List TaskEntity) (status : TaskStatus) (ts : TaskState)
        → ts.task ≡ task_of entities status
        → ts.poll_count + 1 < ts.target_polls
        → ((poll ts).task ≡ task_of entities TaskStatus.running)
          × ((poll ts).poll_count ≡ ts.poll_count + 1)
          × ((poll ts).target_polls ≡ ts.target_polls)
    unfolding poll advance
    poll-early entities status ts shape more =
        rw
          (
            gt→leb ts.target_polls (ts.poll_count + 1) more,
            le→leb 1 (ts.poll_count + 1) (omega arith),
            shape,
          )
          (refl, refl, refl)

    -- The task needs one poll more than `left`.
    pub poll_from-served :
        (interval left fuel deadline : ℕ) (entities : List TaskEntity) (status : TaskStatus)
        (events : List Event) (ts : TaskState)
        → free_of b'?' (codes id) ≡ true
        → is_empty id ≡ false
        → Accepts
        → TasksRead entities
        → Patient t
        → t.now events + rounds interval left ≤ deadline
        → lookup id (store_after encode fields c.host start events).tasks ≡ some ts
        → ts.task ≡ task_of entities status
        → ts.target_polls ≡ ts.poll_count + suc left
        → left < fuel
        → let run =
            poll_from
              (served encode fields c.host t start)
              c
              decode
              id
              interval
              fuel
              deadline
              events in
          (run.0 ≡ PollResult.done (task_of entities TaskStatus.succeeded))
          × (tasks : List (String × TaskState)) × (store_after encode fields c.host start run.1
              ≡ record (store_after encode fields c.host start events) { tasks = tasks })
    unfolding poll_from served after_task after_status store_after
    poll_from-served interval left zero deadline entities status events ts free full accepts reads
          patient time found shape target h =
        absurd (omega arith)
    poll_from-served interval zero (suc fuel) deadline entities status events ts free full accepts
          reads patient time found shape target h =
        let last = poll-last entities status ts shape (omega (arith, target)) in
        let (given, after, _, _) =
          get_task-served (Event.read_clock ∷ events) ts free full accepts found
            (rw last reads.1) in
        rw (ge→ltb deadline (t.now events) (omega (arith, time)), given, last) (refl, _, after)
    poll_from-served interval (suc left) (suc fuel) deadline entities status events ts free full
          accepts reads patient time found shape target h =
        let (running, count, same) = poll-early entities status ts shape (omega (arith, target)) in
        let (given, after, r, asked) =
          get_task-served (Event.read_clock ∷ events) ts free full accepts found
            (rw running reads.0) in
        let answered =
          (get_task (served encode fields c.host t start) c decode id
            (Event.read_clock ∷ events)).1 in
        let later : t.now (Event.waited interval ∷ answered) + rounds interval left ≤ deadline =
          omega (
            arith,
            time,
            patient.prompt (Event.waited interval) answered,
            ap t.now asked,
            patient.prompt (Event.sent r) (Event.read_clock ∷ events),
            patient.prompt Event.read_clock events,
          ) in
        let (done, tasks, kept) =
          poll_from-served interval left fuel deadline entities TaskStatus.running
            (Event.waited interval ∷ answered) (poll ts) free full accepts reads patient later
            (ap (λ s. lookup id s.tasks) after ∙ lookup-front id (poll ts) _) running
            (omega (arith, count, same, target)) (omega (arith, h)) in
        rw
          (
            ge→ltb deadline (t.now events) (omega (arith, time)),
            given,
            running,
            patient.going answered,
          )
          (done, tasks, kept ∙ ap (with_tasks tasks) after)
