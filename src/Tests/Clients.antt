-- ===== src/Tests/Clients.antt =====
-- Concrete runs of the Nutanix client: a server that is always busy, and a task that never ends.
use nutanix_vma.Prelude.{true, false, some, String, Option, [], ◌∷◌, ℕ, List, ◌+◌, ◌≤◌, refl, arith}
use nutanix_vma.HttpClient.{Client, Event, HttpReply, Transport, do_request}
use nutanix_vma.HttpClient.Retries.{Bounded, do_request-Bounded}
use nutanix_vma.HttpClient.Tasks.{Task, TaskStatus, poll_task_with_options}
use nutanix_vma.HttpClient.Tasks.Ended.{Ended, poll_task_with_options-Ended}

abbrev pub client : Client
client = record { host = "https://pc"; username = "admin"; password = "secret"; max_retries = 3 }

-- How much time the events take.
abbrev pub elapsed : List Event → ℕ
elapsed [] = 0
elapsed (Event.waited interval ∷ events) = interval + elapsed events
elapsed (_ ∷ events) = elapsed events

abbrev pub busy : Transport
busy = record {
  accepts = λ method url. true;
  answer = λ events r. HttpReply.answered 503 "busy" "";
  now = elapsed;
  interrupted = λ events. false;
}

abbrev running : String → Option Task
running text =
    some (record { status = TaskStatus.running; error_messages = []; entities_affected = [] })

do_request-Bounded_example : Bounded 0 3 (do_request busy client "POST" "/tasks" 3 (some "{}") [])
do_request-Bounded_example = do_request-Bounded busy client "POST" "/tasks" 3 (some "{}") refl

elapsed_later : (e : Event) (events : List Event) → elapsed events ≤ elapsed (e ∷ events)
elapsed_later (Event.waited n) events = omega arith
elapsed_later _ events = omega arith

abbrev idle : Transport
idle = record busy { answer = λ events r. HttpReply.answered 200 "{}" "" }

poll_task_with_options-Ended_example :
    Ended (poll_task_with_options idle client running "task-1" 2 9 5 []).0
poll_task_with_options-Ended_example =
    poll_task_with_options-Ended idle client running "task-1" 2 9 5 []
      (elapsed_later, λ n events. omega arith) (omega arith) (omega arith)
