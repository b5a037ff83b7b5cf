-- ===== src/Mock/Server/Waiting.antt =====
-- The Nutanix client waits for a task of the mock server.
use nutanix_vma.Prelude.{
  ℕ, ◌+◌, ◌*◌, ◌<◌, true, false, String, Option, some, List, ◌∷◌, ◌≡◌, ap, codes, is_empty, arith,
}
use nutanix_vma.HttpClient.{Event, Transport, Client, Result}
use nutanix_vma.HttpClient.Codec.{Codec}
use nutanix_vma.HttpClient.Tasks.{TaskEntity, TaskStatus, poll_task_with_options}
use nutanix_vma.HttpClient.Operations.{second, poll_outcome, poll_task}
use nutanix_vma.Mock.{Store, TaskState, lookup}
use nutanix_vma.Mock.Handlers.{Fields, Payload}
use nutanix_vma.Mock.Server.{store_after, served}
use nutanix_vma.Mock.Server.Reading.{free_of}
use nutanix_vma.Mock.Server.Polling.{
  task_of, with_tasks, Accepts, TasksRead, Patient, poll_from-served,
}
use nutanix_vma.Mock.Server.Power.{task_id}

module _ (encode : Payload → String) (fields : String → Option Fields) (t : Transport) (c : Client)
    (start : Store) (codec : Codec) (fuel : ℕ) where
  -- encoding/json reads back what the server writes about the next task, which is on these entities.
  abbrev pub TaskRead : List TaskEntity → Store → Type 0
  TaskRead entities s =
      (codec.task_ref (encode (Payload.task_ref (task_id s))) ≡ some (task_id s))
      × TasksRead encode fields t c start codec.task (task_id s) entities

  pub poll_task-served :
      (entities : List TaskEntity) (id : String) (ts : TaskState) (after : List Event)
      → free_of b'?' (codes id) ≡ true
      → is_empty id ≡ false
      → Accepts encode fields t c start
      → TasksRead encode fields t c start codec.task id entities
      → Patient t
      → lookup id (store_after encode fields c.host start after).tasks ≡ some ts
      → ts.task ≡ task_of entities TaskStatus.queued
      → ts.target_polls ≡ ts.poll_count + 2
      → 1 < fuel
      → let run = poll_task (served encode fields c.host t start) codec c fuel id after in
        (run.0 ≡ Result.ok (task_of entities TaskStatus.succeeded))
        × (tasks : List (String × TaskState)) × (store_after encode fields c.host start run.1
            ≡ with_tasks tasks (store_after encode fields c.host start after))
  unfolding poll_task poll_task_with_options poll_outcome served store_after
  poll_task-served entities id ts after free full accepts read patient found shape target enough =
      let (done, tasks, kept) =
        poll_from-served encode fields t c start codec.task id (2 * second) 1 fuel
          (t.now after + 30 * 60 * second) entities TaskStatus.queued (Event.read_clock ∷ after) ts
          free full accepts read patient (omega (arith, patient.prompt Event.read_clock after))
          found shape target enough in
      (ap poll_outcome done, tasks, kept)
