-- ===== src/HttpClient/Tasks.antt =====
-- internal/nutanix/tasks.go: polling an asynchronous task. The JSON decoder of a task is a parameter.
pub mod Ended
use nutanix_vma.Prelude.{
  ℕ, zero, suc, ◌+◌, ltb, String, Bool, List, [], ◌∷◌, Option, none, if◌then◌else◌, concat,
}
use nutanix_vma.HttpClient.{Event, Transport, Client, ClientError, Result, Io, do_json}

pub data TaskStatus : Type 0 where
  queued running succeeded failed cancelled : TaskStatus
  other : String → TaskStatus

pub record TaskEntity : Type 0 where
  pub ext_id : String
  pub rel : String

pub record Task : Type 0 where
  pub status : TaskStatus
  pub error_messages : List String
  pub entities_affected : List TaskEntity

pub data PollResult : Type 0 where
  done : Task → PollResult
  task_failed : Task → (message : String) → PollResult
  task_cancelled unknown_status : Task → PollResult
  timed_out context_cancelled diverged : PollResult
  poll_failed : ClientError → PollResult

unfoldable pub first_message : List String → String
first_message [] = "unknown error"
first_message (m ∷ rest) = m

-- The switch on the status; `again` is the rest of the loop.
unfoldable pub after_status :
    PollResult × List Event → Task → TaskStatus → List Event → PollResult × List Event
unfolding first_message
after_status again t TaskStatus.succeeded events = (PollResult.done t, events)
after_status again t TaskStatus.failed events =
    (PollResult.task_failed t (first_message t.error_messages), events)
after_status again t TaskStatus.cancelled events = (PollResult.task_cancelled t, events)
after_status again t TaskStatus.queued events = again
after_status again t TaskStatus.running events = again
after_status again t (TaskStatus.other text) events = (PollResult.unknown_status t, events)

unfoldable pub after_task :
    PollResult × List Event → Result Task → List Event → PollResult × List Event
unfolding after_status
after_task again (Result.err e) events = (PollResult.poll_failed e, events)
after_task again (Result.ok t) events = after_status again t t.status events

module _ (t : Transport) (c : Client) (decode_task : String → Option Task) where
  unfoldable pub get_task : (uuid : String) → Io Task
  unfolding do_json
  get_task uuid =
      do_json t c decode_task "GET" (concat (c.host ∷ "/api/prism/v4.0/config/tasks/" ∷ uuid ∷ []))
        none

  module _ (uuid : String) (interval : ℕ) where
    unfoldable pub poll_from : (fuel deadline : ℕ) → List Event → PollResult × List Event
    unfolding after_task get_task
    poll_from zero deadline events = (PollResult.diverged, events)
    poll_from (suc fuel) deadline events =
        let checked = Event.read_clock ∷ events in
        let answer = get_task uuid checked in
        let rest = poll_from fuel deadline (Event.waited interval ∷ answer.1) in
        let again =
          if t.interrupted answer.1 then (PollResult.context_cancelled, answer.1) else rest in
        if ltb deadline (t.now events)
        then (PollResult.timed_out, checked)
        else after_task again answer.0 answer.1

    unfoldable pub poll_task_with_options :
        (fuel timeout : ℕ) → List Event → PollResult × List Event
    unfolding poll_from
    poll_task_with_options fuel timeout events =
        poll_from fuel (t.now events + timeout) (Event.read_clock ∷ events)
