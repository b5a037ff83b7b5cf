-- ===== src/Mock/Server/Imaged.antt =====
-- The Nutanix client makes an image of a disk on the mock server.
use nutanix_vma.Prelude.{
  ℕ, ◌<◌, true, String, Option, none, some, List, [], ◌∷◌, ◌≡◌, ◌≢◌, refl, ap, ◌∙◌, concat,
}
use nutanix_vma.HttpClient.{Event, Transport, Client, Result, Request, request_with, do_json}
use nutanix_vma.HttpClient.Answered.{do_json-answered}
use nutanix_vma.HttpClient.Codec.{Codec, RequestBody}
use nutanix_vma.HttpClient.Tasks.{TaskEntity}
use nutanix_vma.HttpClient.Operations.{
  image_base_path, find_entity, affected, run_task, run_and_find, create_image_from_disk,
}
use nutanix_vma.Mock.{Store, lookup, create_task, add_image}
use nutanix_vma.Mock.Lifecycle.{polled, lookup-front}
use nutanix_vma.Mock.Handlers.{Fields, MockRequest, Payload, reply, is_post, accept}
use nutanix_vma.Mock.Objects.{image_rel, create_image, handle_image_create}
use nutanix_vma.Mock.Objects.Kept.{image_id, new_image, create-images, lookup_self, lookup_other}
use nutanix_vma.Mock.Server.{
  strip_text, read_request, dispatch, routes, serve, sent_reply, store_of, store_after, served,
}
use nutanix_vma.Mock.Server.Reading.{strip_text-append, serve-target}
use nutanix_vma.Mock.Server.Paths.{split_first-free}
use nutanix_vma.Mock.Server.Polling.{Accepts, Patient}
use nutanix_vma.Mock.Server.Waiting.{TaskRead, poll_task-served}
use nutanix_vma.Mock.Server.Power.{task_id, task_id-free, task_id-full}

abbrev pub image_entity : Store → TaskEntity
image_entity s = record { ext_id = image_id s; rel = image_rel }

dispatch-image_create :
    (url : String) (r : MockRequest) (s : Store)
    → dispatch (routes url) image_base_path r s ≡ handle_image_create r s
unfolding dispatch routes strip_text
dispatch-image_create url r s = refl

handle_image_create-read :
    (r : MockRequest) (s : Store) (b : Fields)
    → is_post r ≡ true
    → r.body ≡ some b
    → handle_image_create r s
      ≡ (reply 202 (Payload.task_ref (task_id s)), (create_image (some b) s).1)
unfolding handle_image_create create_image accept create_task add_image
handle_image_create-read r s b post body = rw (post, body) refl

module _ (encode : Payload → String) (fields : String → Option Fields) (t : Transport) (c : Client)
    (start : Store) (codec : Codec) (fuel : ℕ) (name disk cluster : String)
    (events : List Event) where
  abbrev now : Store
  now = store_after encode fields c.host start events

  abbrev create_request : Request
  create_request =
      request_with t c "POST" (concat (c.host ∷ image_base_path ∷ []))
        (some (codec.marshal (RequestBody.create_image name disk cluster)))

  create-answered :
      (b : Fields)
      → fields (codec.marshal (RequestBody.create_image name disk cluster)) ≡ some b
      → serve encode fields c.host create_request now
        ≡ some (reply 202 (Payload.task_ref (task_id now)), (create_image (some b) now).1)
  unfolding read_request
  create-answered b body =
      serve-target encode fields c.host create_request now image_base_path image_base_path none
        (strip_text-append c.host image_base_path) (split_first-free b'?' image_base_path refl)
      ∙ ap some (
          dispatch-image_create c.host (read_request fields create_request none) now
          ∙ handle_image_create-read (read_request fields create_request none) now b refl body)

  -- Against the mock server, after any requests before, the client makes an image of a disk: it gives the
  -- UUID of the new image, which the server's store then has under that UUID, with the name and the type
  -- that the request's body holds; the other images are as they were. encoding/json reads back the body
  -- and the answers about the task; the URLs are accepted; each request, wait and
  -- reading of the clock takes at most a minute more than the client waits in it, and the context is not
  -- cancelled; the fuel is for two polls.
  pub create_image-served :
      (b : Fields) (other : String)
      → fields (codec.marshal (RequestBody.create_image name disk cluster)) ≡ some b
      → other ≢ image_id (store_after encode fields c.host start events)
      → Accepts encode fields t c start
      → TaskRead encode fields t c start codec fuel
          (image_entity (store_after encode fields c.host start events) ∷ [])
          (store_after encode fields c.host start events)
      → Patient t
      → 1 < fuel
      → let s = store_after encode fields c.host start events in
        let run =
          create_image_from_disk
            (served encode fields c.host t start)
            codec
            c
            fuel
            name
            disk
            cluster
            events in
        let images = (store_after encode fields c.host start run.1).images in
        (run.0 ≡ Result.ok (image_id s))
        × (lookup (image_id s) images ≡ some (new_image b s))
        × (lookup other images ≡ lookup other s.images)
  unfolding create_image_from_disk run_and_find run_task affected find_entity served store_after
      create_image add_image accept create_task
  create_image-served b other body ne accepts read patient enough =
      let server = served encode fields c.host t start in
      let url = concat (c.host ∷ image_base_path ∷ []) in
      let text = some (codec.marshal (RequestBody.create_image name disk cluster)) in
      let answer = create-answered b body in
      let entities = image_entity now ∷ [] in
      let ts = polled (task_id now) entities 2 0 in
      let (given, sent) =
        do_json-answered server c codec.task_ref "POST" url text 202 events
          (encode (Payload.task_ref (task_id now))) (task_id now) refl (accepts "POST" url)
          (ap (sent_reply encode fields c.host) answer) read.0 in
      let after = (do_json server c codec.task_ref "POST" url text events).1 in
      let made =
        ap (λ e. store_after encode fields c.host start e) sent
        ∙ ap (store_of encode fields c.host now) answer in
      let (done, tasks, kept) =
        poll_task-served encode fields t c start codec fuel entities (task_id now) ts after
          (task_id-free now) (task_id-full now) accepts read.1 patient
          (ap (λ s. lookup (task_id now) s.tasks) made ∙ lookup-front (task_id now) ts now.tasks)
          refl refl enough in
      let images = ap (λ s. s.images) kept ∙ ap (λ s. s.images) made ∙ create-images b now in
      rw given (
        rw (task_id-full now) (
          rw done (
            refl,
            ap (lookup (image_id now)) images
                ∙ lookup_self (image_id now) (new_image b now) now.images,
            ap (lookup other) images
                ∙ lookup_other (image_id now) other (new_image b now) now.images ne,
          )))
