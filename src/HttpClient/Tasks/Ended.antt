-- ===== src/HttpClient/Tasks/Ended.antt =====
-- The end of a poll.
use nutanix_vma.Prelude.{
  ℕ, zero, suc, ◌+◌, ◌-◌, ◌<◌, ◌≤◌, ltb, ltb→ge, String, Bool, true, false, List, ◌∷◌, ◌≡◌, ◌≢◌,
  refl, sym, ap, ◌∙◌, inl, inr, Bool-cases, arith, if◌then◌else◌, Option, none,
}
use nutanix_vma.HttpClient.{Event, Transport, Client, Result}
use nutanix_vma.HttpClient.Retries.{Ticking, do_json-later}
use nutanix_vma.HttpClient.Tasks.{
  TaskStatus, Task, PollResult, after_status, after_task, get_task, poll_from,
  poll_task_with_options,
}

-- The end of a poll: it is none that goes on for ever, and a task given without an error has succeeded.
pub record Ended (r : PollResult) : Type 0 where
  pub halts : r ≢ PollResult.diverged
  pub right : (t : Task) → r ≡ PollResult.done t → t.status ≡ TaskStatus.succeeded

abbrev status_of : PollResult → TaskStatus
status_of (PollResult.done t) = t.status
status_of _ = TaskStatus.queued

get_task-later :
    (t : Transport) (c : Client) (decode_task : String → Option Task) (uuid : String)
    (events : List Event)
    → Ticking t
    → t.now events ≤ t.now (get_task t c decode_task uuid events).1
unfolding get_task
get_task-later t c decode_task uuid events tick =
    do_json-later t c decode_task "GET" _ none events tick

-- The errors of a poll that ends.
abbrev IsFailure : PollResult → Type 0
IsFailure (PollResult.done t) = ⊥
IsFailure PollResult.diverged = ⊥
IsFailure _ = Unit

-- What holds of a task that has succeeded and of every error holds of a round, if it does of the rest.
module _ (P : PollResult → Type 0)
    (good : (t : Task) → t.status ≡ TaskStatus.succeeded → P (PollResult.done t))
    (bad : (r : PollResult) → IsFailure r → P r) where
  after_status-keeps :
      (again : PollResult × List Event) (t : Task) (st : TaskStatus) (events : List Event)
      → t.status ≡ st
      → P again.0
      → P (after_status again t st events).0
  unfolding after_status
  after_status-keeps again t TaskStatus.succeeded events e h = good t e
  after_status-keeps again t TaskStatus.queued events e h = h
  after_status-keeps again t TaskStatus.running events e h = h
  after_status-keeps again t TaskStatus.failed events e h = bad _ tt
  after_status-keeps again t TaskStatus.cancelled events e h = bad _ tt
  after_status-keeps again t (TaskStatus.other x) events e h = bad _ tt

  after_task-keeps :
      (again : PollResult × List Event) (reply : Result Task) (events : List Event)
      → P again.0
      → P (after_task again reply events).0
  unfolding after_task
  after_task-keeps again (Result.err e) events h = bad _ tt
  after_task-keeps again (Result.ok t) events h = after_status-keeps again t t.status events refl h

  -- The context ends, or the loop goes on.
  wait-keeps :
      (b : Bool) (rest : PollResult × List Event) (events : List Event)
      → P rest.0
      → P (if b then (PollResult.context_cancelled, events) else rest).0
  wait-keeps true rest events h = bad _ tt
  wait-keeps false rest events h = h

  module _ (t : Transport) (c : Client) (decode_task : String → Option Task) (uuid : String)
      (interval : ℕ) where
    poll_from-step :
        (fuel deadline : ℕ) (events : List Event)
        → (ltb deadline (t.now events) ≡ false
            → P
                (poll_from t c decode_task uuid interval fuel deadline (
                  Event.waited interval
                  ∷ (get_task t c decode_task uuid (Event.read_clock ∷ events)).1)).0)
        → P (poll_from t c decode_task uuid interval (suc fuel) deadline events).0
    unfolding poll_from
    poll_from-step fuel deadline events h =
        let answer = get_task t c decode_task uuid (Event.read_clock ∷ events) in
        elim (Bool-cases (ltb deadline (t.now events))) [
          | inl e ↦ rw e (bad _ tt)
          | inr e ↦ rw e (
              after_task-keeps _ answer.0 answer.1
                (wait-keeps (t.interrupted answer.1) _ answer.1 (h e)))
        ]

abbrev Right : PollResult → Type 0
Right r = (t : Task) → r ≡ PollResult.done t → t.status ≡ TaskStatus.succeeded

done-Right : (t : Task) → t.status ≡ TaskStatus.succeeded → Right (PollResult.done t)
done-Right t e u q = ap status_of (sym q) ∙ e

failure-Right : (r : PollResult) → IsFailure r → Right r
failure-Right (PollResult.done t) f u q = absurd f
failure-Right PollResult.diverged f u q = absurd f
failure-Right (PollResult.task_failed t m) f u q = absurd cc
failure-Right (PollResult.task_cancelled t) f u q = absurd cc
failure-Right (PollResult.unknown_status t) f u q = absurd cc
failure-Right PollResult.timed_out f u q = absurd cc
failure-Right PollResult.context_cancelled f u q = absurd cc
failure-Right (PollResult.poll_failed e) f u q = absurd cc

failure-halts : (r : PollResult) → IsFailure r → r ≢ PollResult.diverged
failure-halts (PollResult.done t) f q = absurd f
failure-halts PollResult.diverged f q = absurd f
failure-halts (PollResult.task_failed t m) f q = absurd cc
failure-halts (PollResult.task_cancelled t) f q = absurd cc
failure-halts (PollResult.unknown_status t) f q = absurd cc
failure-halts PollResult.timed_out f q = absurd cc
failure-halts PollResult.context_cancelled f q = absurd cc
failure-halts (PollResult.poll_failed e) f q = absurd cc

done-Ended : (t : Task) → t.status ≡ TaskStatus.succeeded → Ended (PollResult.done t)
done-Ended t e = record { halts = λ q. absurd cc; right = done-Right t e }

failure-Ended : (r : PollResult) → IsFailure r → Ended r
failure-Ended r f = record { halts = failure-halts r f; right = failure-Right r f }

module _ (t : Transport) (c : Client) (decode_task : String → Option Task) (uuid : String)
    (interval : ℕ) where
  poll_from-Right :
      (fuel deadline : ℕ) (events : List Event)
      → Right (poll_from t c decode_task uuid interval fuel deadline events).0
  poll_from-Right zero deadline events = unfold poll_from in λ u q. absurd cc
  poll_from-Right (suc fuel) deadline events =
      poll_from-step Right done-Right failure-Right t c decode_task uuid interval fuel deadline
        events (λ e. poll_from-Right fuel deadline _)

  -- A task that a poll gives without an error has succeeded.
  pub poll_task_with_options-right :
      (fuel timeout : ℕ) (events : List Event) (task : Task)
      → (poll_task_with_options t c decode_task uuid interval fuel timeout events).0
        ≡ PollResult.done task
      → task.status ≡ TaskStatus.succeeded
  unfolding poll_task_with_options
  poll_task_with_options-right fuel timeout events task q =
      poll_from-Right fuel (t.now events + timeout) (Event.read_clock ∷ events) task q

  poll_from-Ended :
      (fuel deadline : ℕ) (events : List Event)
      → Ticking t
      → 0 < interval
      → suc deadline - t.now events < fuel
      → Ended (poll_from t c decode_task uuid interval fuel deadline events).0
  poll_from-Ended zero deadline events tick pos h = absurd (omega (arith, h))
  poll_from-Ended (suc fuel) deadline events tick pos h =
      poll_from-step Ended done-Ended failure-Ended t c decode_task uuid interval fuel deadline
        events
        (λ e. poll_from-Ended fuel deadline _ tick pos (
          omega (
            arith,
            h,
            pos,
            tick.0 Event.read_clock events,
            tick.1 interval (get_task t c decode_task uuid (Event.read_clock ∷ events)).1,
            get_task-later t c decode_task uuid (Event.read_clock ∷ events) tick,
            ltb→ge deadline (t.now events) e,
          )))

  -- If the clock does not go back, and a wait lasts as long as it is asked to, a poll with an interval
  -- that is not zero ends, whatever the answers: fewer rounds are made than the timeout has nanoseconds
  -- and two. A task that it gives without an error has succeeded.
  pub poll_task_with_options-Ended :
      (fuel timeout : ℕ) (events : List Event)
      → Ticking t
      → 0 < interval
      → timeout + 1 < fuel
      → Ended (poll_task_with_options t c decode_task uuid interval fuel timeout events).0
  unfolding poll_task_with_options
  poll_task_with_options-Ended fuel timeout events tick pos h =
      poll_from-Ended fuel (t.now events + timeout) (Event.read_clock ∷ events) tick pos
        (omega (arith, tick.0 Event.read_clock events, h))
