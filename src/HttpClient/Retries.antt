-- ===== src/HttpClient/Retries.antt =====
-- How often a request is sent, when it is given up.
use nutanix_vma.Prelude.{
  ℕ, zero, suc, ◌+◌, ◌≤◌, String, Bool, true, false, Option, none, some, List, [], ◌∷◌, count, ◌≡◌,
  ◌≢◌, refl, sym, ap, ◌∙◌, inl, inr, Bool-cases, arith,
}
use nutanix_vma.HttpClient.{
  HttpReply, Event, Transport, Client, HttpError, HttpResult, is_success, should_retry, is_sent,
  rest_of, after_reply, request_with, attempt_from, do_request, do_json, backoff_duration,
}

abbrev status_of : HttpResult → ℕ
status_of (HttpResult.ok status body) = status
status_of (HttpResult.err e) = 0

abbrev error_status : HttpResult → ℕ
error_status (HttpResult.err (HttpError.api status message url)) = status
error_status _ = 0

-- `n` requests had been sent before, and `left` attempts were left after the next one.
pub record Bounded (n left : ℕ) (r : HttpResult × List Event) : Type 0 where
  pub most : count is_sent r.1 ≤ n + left + 1
  pub success :
      (status : ℕ) (body : String) → r.0 ≡ HttpResult.ok status body → is_success status ≡ true
  pub given_up :
      (status : ℕ) (message url : String)
      → r.0 ≡ HttpResult.err (HttpError.api status message url)
      → should_retry status ≡ true
      → count is_sent r.1 ≡ n + left + 1

opposite : (b : Bool) → b ≡ true → b ≢ false
opposite b h k = cc

-- An attempt later.
Bounded-later :
    (n left : ℕ) (r : HttpResult × List Event) → Bounded (n + 1) left r → Bounded n (suc left) r
Bounded-later n left r b = record {
  most = omega (arith, b.most);
  success = b.success;
  given_up = λ s m u e h. omega (arith, b.given_up s m u e h);
}

after_last-Bounded :
    (url : String) (reply : HttpReply) (n : ℕ) (events : List Event)
    → count is_sent events ≡ n + 1
    → Bounded n 0 (after_reply url none reply events)
unfolding after_reply
after_last-Bounded url (HttpReply.failed cause unread) n events h = record {
  most = omega (arith, h);
  success = λ s b e. absurd cc;
  given_up = λ s m u e k. omega (arith, h);
}
after_last-Bounded url (HttpReply.answered status body unread) n events h =
    elim (Bool-cases (is_success status)) [
      | inl e ↦ rw e (record {
        most = omega (arith, h);
        success = λ s b q. ap (λ x. is_success (status_of x)) (sym q) ∙ e;
        given_up = λ s m u q k. absurd cc;
      })
      | inr e ↦ rw e (record {
        most = omega (arith, h);
        success = λ s b q. absurd cc;
        given_up = λ s m u q k. omega (arith, h);
      })
    ]

after_some-Bounded :
    (url : String) (again : String → List Event → HttpResult × List Event) (reply : HttpReply)
    (n left : ℕ) (events : List Event)
    → count is_sent events ≡ n + 1
    → ((unread : String) → Bounded (n + 1) left (again unread events))
    → Bounded n (suc left) (after_reply url (some again) reply events)
unfolding after_reply
after_some-Bounded url again (HttpReply.failed cause unread) n left events h next =
    Bounded-later n left (again unread events) (next unread)
after_some-Bounded url again (HttpReply.answered status body unread) n left events h next =
    elim (Bool-cases (is_success status)) [
      | inl e ↦ rw e (record {
        most = omega (arith, h);
        success = λ s b q. ap (λ x. is_success (status_of x)) (sym q) ∙ e;
        given_up = λ s m u q k. absurd cc;
      })
      | inr e ↦ elim (Bool-cases (should_retry status)) [
        | inl y ↦ rw (e, y) (Bounded-later n left (again unread events) (next unread))
        | inr y ↦
            rw (e, y)
              (record {
                most = omega (arith, h);
                success = λ s b q. absurd cc;
                given_up = λ s m u q k.
                    absurd (opposite _ k (ap (λ x. should_retry (error_status x)) (sym q) ∙ y));
              })
      ]
    ]

module _ (t : Transport) (c : Client) (method url : String) where
  attempt_from-Bounded :
      (left attempt n : ℕ) (body : Option String) (events : List Event)
      → t.accepts method url ≡ true
      → count is_sent events ≡ n
      → Bounded n left (attempt_from t c method url left attempt body events)
  unfolding attempt_from
  attempt_from-Bounded zero attempt n body events a h = rw a (
      after_last-Bounded url (t.answer events (request_with t c method url body)) n
        (Event.sent (request_with t c method url body) ∷ events) (omega (arith, h)))
  attempt_from-Bounded (suc left) attempt n body events a h = rw a (
      after_some-Bounded url _ (t.answer events (request_with t c method url body)) n left
        (Event.sent (request_with t c method url body) ∷ events) (omega (arith, h))
        (λ unread.
          attempt_from-Bounded left (attempt + 1) (n + 1) (rest_of body unread)
            (Event.slept (backoff_duration attempt)
              ∷ Event.sent (request_with t c method url body)
              ∷ events)
            a (omega (arith, h))))

  -- A request is sent at most `max_retries + 1` times; a result is an answer with a status from 200 to 299; and
  -- an error status that may be retried is given back only after all these attempts.
  pub do_request-Bounded :
      (max_retries : ℕ) (body : Option String)
      → t.accepts method url ≡ true
      → Bounded 0 max_retries (do_request t c method url max_retries body [])
  unfolding do_request
  do_request-Bounded max_retries body a = attempt_from-Bounded max_retries 0 0 body [] a refl

-- The clock does not go back, and a wait lasts as long as it is asked to.
abbrev pub Ticking : Transport → Type 0
Ticking t =
    ((e : Event) (events : List Event) → t.now events ≤ t.now (e ∷ events))
    × ((interval : ℕ) (events : List Event)
        → t.now events + interval ≤ t.now (Event.waited interval ∷ events))

after_last-later :
    (t : Transport) (url : String) (reply : HttpReply) (events : List Event) (n : ℕ)
    → n ≤ t.now events
    → n ≤ t.now (after_reply url none reply events).1
unfolding after_reply
after_last-later t url (HttpReply.failed cause unread) events n h = h
after_last-later t url (HttpReply.answered status body unread) events n h =
    elim (Bool-cases (is_success status)) [ inl e ↦ rw e h | inr e ↦ rw e h ]

after_some-later :
    (t : Transport) (url : String) (again : String → List Event → HttpResult × List Event)
    (reply : HttpReply) (events : List Event) (n : ℕ)
    → n ≤ t.now events
    → ((unread : String) → n ≤ t.now (again unread events).1)
    → n ≤ t.now (after_reply url (some again) reply events).1
unfolding after_reply
after_some-later t url again (HttpReply.failed cause unread) events n h next = next unread
after_some-later t url again (HttpReply.answered status body unread) events n h next =
    elim (Bool-cases (is_success status)) [
      | inl e ↦ rw e h
      | inr e ↦ elim (Bool-cases (should_retry status)) [
        | inl y ↦ rw (e, y) (next unread)
        | inr y ↦ rw (e, y) h
      ]
    ]

module _ (t : Transport) (c : Client) (method url : String) where
  attempt_from-later :
      (left attempt n : ℕ) (body : Option String) (events : List Event)
      → Ticking t
      → n ≤ t.now events
      → n ≤ t.now (attempt_from t c method url left attempt body events).1
  unfolding attempt_from
  attempt_from-later zero attempt n body events tick h =
      let sent = Event.sent (request_with t c method url body) in
      elim (Bool-cases (t.accepts method url)) [
        | inl a ↦ rw a (
            after_last-later t url (t.answer events (request_with t c method url body))
              (sent ∷ events) n (omega (arith, h, tick.0 sent events)))
        | inr a ↦ rw a h
      ]
  attempt_from-later (suc left) attempt n body events tick h =
      let sent = Event.sent (request_with t c method url body) in
      let slept = Event.slept (backoff_duration attempt) in
      elim (Bool-cases (t.accepts method url)) [
        | inl a ↦ rw a (
            after_some-later t url _ (t.answer events (request_with t c method url body))
              (sent ∷ events) n (omega (arith, h, tick.0 sent events))
              (λ unread.
                attempt_from-later left (attempt + 1) n (rest_of body unread)
                  (slept ∷ sent ∷ events) tick
                  (omega (arith, h, tick.0 sent events, tick.0 slept (sent ∷ events)))))
        | inr a ↦ rw a h
      ]

-- A request takes no negative time.
pub do_json-later {ℓ} :
    {A : Type ℓ} (t : Transport) (c : Client) (decode : String → Option A) (method url : String)
    (body : Option String) (events : List Event)
    → Ticking t
    → t.now events ≤ t.now (do_json t c decode method url body events).1
unfolding do_json do_request
do_json-later t c decode method url body events tick =
    attempt_from-later t c method url c.max_retries 0 (t.now events) body events tick (omega arith)
