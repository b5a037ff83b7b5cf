-- ===== src/HttpClient/Answered.antt =====
-- doJSON of internal/nutanix/client.go, for a request that is answered at once.
use nutanix_vma.Prelude.{ℕ, zero, suc, true, String, Option, some, List, ◌∷◌, ◌≡◌, refl}
use nutanix_vma.HttpClient.{
  Event, HttpReply, Transport, Client, Result, is_success, request_with, after_reply, attempt_from,
  do_request, decode_reply, do_json,
}

pub do_json-answered {ℓ} :
    {A : Type ℓ} (t : Transport) (c : Client) (decode : String → Option A) (method url : String)
    (sent_body : Option String) (status : ℕ) (events : List Event) (body : String) (a : A)
    → is_success status ≡ true
    → t.accepts method url ≡ true
    → t.answer events (request_with t c method url sent_body) ≡ HttpReply.answered status body ""
    → decode body ≡ some a
    → ((do_json t c decode method url sent_body events).0 ≡ Result.ok a)
      × ((do_json t c decode method url sent_body events).1
          ≡ Event.sent (request_with t c method url sent_body) ∷ events)
unfolding do_json do_request attempt_from after_reply decode_reply
do_json-answered t c decode method url sent_body status events body a good accepts answered
      decoded =
    attempts c.max_retries
  where
    attempts :
        (left : ℕ)
        → (decode_reply decode (attempt_from t c method url left 0 sent_body events).0
            ≡ Result.ok a)
          × ((attempt_from t c method url left 0 sent_body events).1
              ≡ Event.sent (request_with t c method url sent_body) ∷ events)
    attempts zero = rw (accepts, answered, good, decoded) (refl, refl)
    attempts (suc left) = rw (accepts, answered, good, decoded) (refl, refl)
