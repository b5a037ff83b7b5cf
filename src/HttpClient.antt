-- ===== src/HttpClient.antt =====
-- internal/nutanix/client.go: one request of the Nutanix client with its retries. The transport of net/http
-- is a parameter.
pub mod Retries
pub mod Answered
pub mod Config
pub mod Tasks
pub mod Codec
pub mod Operations
pub mod Lists
pub mod Cbt
use nutanix_vma.Prelude.{
  ℕ, zero, suc, ◌+◌, ◌^◌, ◌==◌, ltb, leb, String, Bool, true, false, not, ◌&&◌, ◌||◌, Option, none,
  some, List, [], ◌∷◌, str_eq, is_empty, ◌≡◌, refl, trim_slashes, if◌then◌else◌,
}

-- What a client is made with; the transport and its timeout are outside.
pub record Client : Type 0 where
  pub host : String
  pub username : String
  pub password : String
  pub max_retries : ℕ

-- A request as it is sent. `json` says that the header Content-Type is set.
pub record Request : Type 0 where
  pub method : String
  pub url : String
  pub body : Option String
  pub json : Bool
  pub basic_auth : Option (String × String)
  pub cookie : Option (String × String)

-- What `Do` gives; `unread` is what it leaves unread of the request's body.
pub data HttpReply : Type 0 where
  failed : (cause unread : String) → HttpReply
  answered : (status : ℕ) → (body unread : String) → HttpReply

pub data Event : Type 0 where
  sent : Request → Event
  slept : (seconds : ℕ) → Event
  read_clock : Event
  waited : (interval : ℕ) → Event

-- `http.NewRequestWithContext` and `Do`, the clock, and the context (`interrupted` says that a select
-- takes `ctx.Done()`); an answer may depend on all that happened before.
pub record Transport : Type 0 where
  pub accepts : (method url : String) → Bool
  pub answer : List Event → Request → HttpReply
  pub now : List Event → ℕ
  pub interrupted : List Event → Bool

pub data HttpError : Type 0 where
  bad_request : HttpError
  network : (cause : String) → HttpError
  api : (status : ℕ) → (message url : String) → HttpError

pub data HttpResult : Type 0 where
  ok : (status : ℕ) → (body : String) → HttpResult
  err : HttpError → HttpResult

-- What an operation of the client fails with, its label left out. `diverged` is a loop that used up its
-- fuel.
pub data ClientError : Type 0 where
  http : HttpError → ClientError
  undecodable no_task_id nothing_affected incomplete not_written : ClientError
  no_host no_credentials no_transport : ClientError
  task_failed : (message : String) → ClientError
  task_cancelled unknown_status timed_out context_cancelled diverged : ClientError

pub data Result {ℓ} (A : Type ℓ) : Type ℓ where
  ok : A → Result A
  err : ClientError → Result A

-- An operation makes requests and waits, which are kept newest first.
abbrev pub Io {ℓ} : Type ℓ → Type ℓ
Io A = List Event → Result A × List Event

abbrev pub pure {ℓ} : {A : Type ℓ} → A → Io A
pure a events = (Result.ok a, events)

abbrev pub fail {ℓ} : {A : Type ℓ} → ClientError → Io A
fail e events = (Result.err e, events)

-- What follows a result.
abbrev pub and_then {ℓ κ} :
    {A : Type ℓ} {B : Type κ} → Result A × List Event → (A → Io B) → Result B × List Event
and_then (Result.ok a, events) f = f a events
and_then (Result.err e, events) f = (Result.err e, events)

infixl 5 ◌>>=◌ ◌>>◌
abbrev pub ◌>>=◌ {ℓ κ} : {A : Type ℓ} {B : Type κ} → Io A → (A → Io B) → Io B
◌>>=◌ m f events = and_then (m events) f

abbrev pub ◌>>◌ {ℓ} : {B : Type ℓ} → Io (Unit {0}) → Io B → Io B
m >> k = m >>= λ _. k

pub and_then_ok {ℓ κ} :
    {A : Type ℓ} {B : Type κ} (r : Result A × List Event) (f : A → Io B) (a : A)
    → r.0 ≡ Result.ok a
    → and_then r f ≡ f a r.1
and_then_ok r f a h = rw h refl

-- `if ok { … } else { return err }`
abbrev pub require : Bool → ClientError → Io (Unit {0})
require true e = pure tt
require false e = fail e

abbrev pub is_success : ℕ → Bool
is_success status = leb 200 status && ltb status 300

-- `shouldRetry` of a status; a network error is always retried.
abbrev pub should_retry : ℕ → Bool
should_retry status = status == 429 || leb 500 status

-- In seconds.
abbrev pub backoff_duration : ℕ → ℕ
backoff_duration attempt = 2 ^ attempt

abbrev pub is_sent : Event → Bool
is_sent (Event.sent r) = true
is_sent _ = false

-- The header goes with a body, for three methods.
abbrev pub has_json : String → Option String → Bool
has_json method none = false
has_json method (some b) = str_eq method "POST" || (str_eq method "PUT" || str_eq method "PATCH")

-- The reader that is passed to the next attempt: it is the same one.
abbrev pub rest_of : Option String → (unread : String) → Option String
rest_of none unread = none
rest_of (some b) unread = some unread

-- What follows an answer; `again` is the next attempt, if one is left.
unfoldable pub after_reply :
    (url : String)
    → Option (String → List Event → HttpResult × List Event)
    → HttpReply
    → List Event
    → HttpResult × List Event
after_reply url none (HttpReply.failed cause unread) events =
    (HttpResult.err (HttpError.network cause), events)
after_reply url (some again) (HttpReply.failed cause unread) events = again unread events
after_reply url none (HttpReply.answered status body unread) events =
    if is_success status
    then (HttpResult.ok status body, events)
    else (HttpResult.err (HttpError.api status body url), events)
after_reply url (some again) (HttpReply.answered status body unread) events =
    let next = again unread events in
    if is_success status
    then (HttpResult.ok status body, events)
    else if should_retry status
    then next
    else (HttpResult.err (HttpError.api status body url), events)

module _ (t : Transport) (c : Client) (method url : String) where
  abbrev pub request_with : Option String → Request
  request_with body = record {
    method = method;
    url = url;
    body = body;
    json = has_json method body;
    basic_auth = some (c.username, c.password);
    cookie = none;
  }

  -- The loop; `left` is the number of attempts after this one.
  unfoldable pub attempt_from :
      (left attempt : ℕ) → Option String → List Event → HttpResult × List Event
  unfolding after_reply
  attempt_from zero attempt body events =
      if t.accepts method url
      then after_reply url none (t.answer events (request_with body))
          (Event.sent (request_with body) ∷ events)
      else (HttpResult.err HttpError.bad_request, events)
  attempt_from (suc left) attempt body events =
      if t.accepts method url
      then after_reply url
          (some (λ unread after.
            attempt_from left (attempt + 1) (rest_of body unread)
              (Event.slept (backoff_duration attempt) ∷ after)))
          (t.answer events (request_with body)) (Event.sent (request_with body) ∷ events)
      else (HttpResult.err HttpError.bad_request, events)

  unfoldable pub do_request :
      (max_retries : ℕ) → Option String → List Event → HttpResult × List Event
  unfolding attempt_from
  do_request max_retries body events = attempt_from max_retries 0 body events

-- The JSON decoder on a body that was answered.
unfoldable pub decode_reply {ℓ} : {A : Type ℓ} → (String → Option A) → HttpResult → Result A
decode_reply decode (HttpResult.err e) = Result.err (ClientError.http e)
decode_reply decode (HttpResult.ok status body) = elim (decode body) [
  | none ↦ Result.err ClientError.undecodable
  | some a ↦ Result.ok a
]

unfoldable pub do_json {ℓ} :
    {A : Type ℓ}
    → Transport
    → Client
    → (String → Option A)
    → (method url : String) → Option String
    → Io A
unfolding decode_reply do_request
do_json t c decode method url body events =
    let answer = do_request t c method url c.max_retries body events in
    (decode_reply decode answer.0, answer.1)
