-- ===== src/Mock/Server/Powered.antt =====
-- The Nutanix client switches a VM of the mock server on or off.
use Prim.Native.String
use nutanix_vma.Prelude.{
  ℕ, ◌<◌, true, String, Option, none, some, List, [], ◌∷◌, ◌≡◌, ◌≢◌, refl, ap, ◌∙◌, codes, concat,
}
use nutanix_vma.Api.{Vm, PowerState}
use nutanix_vma.HttpClient.{Event, Transport, Client, Result, request_with, do_json}
use nutanix_vma.HttpClient.Answered.{do_json-answered}
use nutanix_vma.HttpClient.Codec.{Codec}
use nutanix_vma.HttpClient.Tasks.{TaskEntity}
use nutanix_vma.HttpClient.Operations.{
  vm_base_path, run_task, run_quietly, power_off_vm, power_on_vm,
}
use nutanix_vma.Mock.{Store, lookup, find_vm, set_power, set_vm_power_state, create_task}
use nutanix_vma.Mock.Lifecycle.{polled, lookup-front}
use nutanix_vma.Mock.Handlers.{Fields, Payload, reply, vm_rel}
use nutanix_vma.Mock.Server.{
  strip_text, read_request, serve, sent_reply, store_of, store_after, served,
}
use nutanix_vma.Mock.Server.Reading.{
  free_of, is_identifier, is_identifier-free, strip_text-append, serve-target,
}
use nutanix_vma.Mock.Server.Paths.{
  vms_below, free_of-text, append-empty, append_assoc, split_first-free, dispatch-vm,
}
use nutanix_vma.Mock.Server.Polling.{Accepts, Patient}
use nutanix_vma.Mock.Server.Waiting.{TaskRead, poll_task-served}
use nutanix_vma.Mock.Server.Power.{
  find_vm-set_power, find_vm-set_power_other, task_id, task_id-free, task_id-full, Switches,
  power_off-Switches, power_on-Switches, handle_vm_by_id-power, switched_store,
  handle_vm_power-found,
}

abbrev pub entity_of : String → TaskEntity
entity_of uuid = record { ext_id = uuid; rel = vm_rel }

abbrev action_url : (host uuid action : String) → String
action_url host uuid action =
    concat (host ∷ vm_base_path ∷ "/" ∷ uuid ∷ String.◌++◌ "/" action ∷ [])

action_url-target :
    (host uuid action : String)
    → strip_text host (action_url host uuid action)
      ≡ some (String.◌++◌ vms_below (String.◌++◌ uuid (String.◌++◌ "/" action)))
action_url-target host uuid action =
    strip_text-append host _
    ∙ ap some (
        append_assoc vm_base_path "/" _
        ∙ ap (λ x. String.◌++◌ vms_below (String.◌++◌ uuid x))
            (append-empty (String.◌++◌ "/" action)))

module _ (encode : Payload → String) (fields : String → Option Fields) (t : Transport) (c : Client)
    (start : Store) (codec : Codec) (fuel : ℕ) (uuid : String) where
  module _ (action : String) (state : PowerState) (events : List Event) where
    abbrev now : Store
    now = store_after encode fields c.host start events

    switch-answered :
        (v : Vm)
        → Switches action state
        → free_of b'?' (codes action) ≡ true
        → free_of b'?' (codes uuid) ≡ true
        → free_of b'/' (codes uuid) ≡ true
        → find_vm uuid now.vms ≡ some v
        → serve encode fields c.host
            (request_with t c "POST" (action_url c.host uuid action) (some "{}"))
            now
          ≡ some (reply 202 (Payload.task_ref (task_id now)), switched_store uuid state now)
    unfolding read_request
    switch-answered v switches plain unasked whole found =
        let r = request_with t c "POST" (action_url c.host uuid action) (some "{}") in
        let rest = String.◌++◌ uuid (String.◌++◌ "/" action) in
        let target = String.◌++◌ vms_below rest in
        serve-target encode fields c.host r now target target none
          (action_url-target c.host uuid action)
          (split_first-free b'?' target (
            free_of-text b'?' vms_below rest refl (
              free_of-text b'?' uuid (String.◌++◌ "/" action) unasked
                (free_of-text b'?' "/" action refl plain))))
        ∙ ap some (
            dispatch-vm c.host (read_request fields r none) now rest
            ∙ handle_vm_by_id-power (read_request fields r none) now uuid action state switches refl
                whole
            ∙ handle_vm_power-found uuid now state v found)

    -- The run of the request and its task.
    run_quietly-served :
        (v : Vm)
        → Switches action state
        → free_of b'?' (codes action) ≡ true
        → free_of b'?' (codes uuid) ≡ true
        → free_of b'/' (codes uuid) ≡ true
        → find_vm uuid now.vms ≡ some v
        → Accepts encode fields t c start
        → TaskRead encode fields t c start codec fuel (entity_of uuid ∷ []) now
        → Patient t
        → 1 < fuel
        → let run =
            run_quietly
              (served encode fields c.host t start)
              codec
              c
              fuel
              "POST"
              (action_url c.host uuid action)
              (some "{}")
              events in
          (run.0 ≡ Result.ok tt)
          × ((store_after encode fields c.host start run.1).vms ≡ (set_power uuid state now.vms).0)
    unfolding run_quietly run_task served store_after set_vm_power_state create_task
    run_quietly-served v switches plain unasked whole found accepts read patient enough =
        let server = served encode fields c.host t start in
        let url = action_url c.host uuid action in
        let answer = switch-answered v switches plain unasked whole found in
        let (given, sent) =
          do_json-answered server c codec.task_ref "POST" url (some "{}") 202 events
            (encode (Payload.task_ref (task_id now))) (task_id now) refl (accepts "POST" url)
            (ap (sent_reply encode fields c.host) answer) read.0 in
        let after = (do_json server c codec.task_ref "POST" url (some "{}") events).1 in
        let made =
          ap (λ e. store_after encode fields c.host start e) sent
          ∙ ap (store_of encode fields c.host now) answer in
        let (done, tasks, kept) =
          poll_task-served encode fields t c start codec fuel (entity_of uuid ∷ []) (task_id now)
            (polled (task_id now) (entity_of uuid ∷ []) 2 0) after (task_id-free now)
            (task_id-full now) accepts read.1 patient
            (ap (λ s. lookup (task_id now) s.tasks) made
              ∙ lookup-front (task_id now) (polled (task_id now) (entity_of uuid ∷ []) 2 0)
                  now.tasks)
            refl refl enough in
        rw given
          (rw (task_id-full now) (rw done (refl, ap (λ s. s.vms) kept ∙ ap (λ s. s.vms) made)))

  -- The run has succeeded, this VM has the power state, and that other VM is as it was.
  abbrev pub Switched :
      (v : Vm) (other : String) → List Event → PowerState → Result (Unit {0}) × List Event → Type 0
  Switched v other events state run =
      (run.0 ≡ Result.ok tt)
      × (find_vm uuid (store_after encode fields c.host start run.1).vms
          ≡ some (record v { power_state = state }))
      × (find_vm other (store_after encode fields c.host start run.1).vms
          ≡ find_vm other (store_after encode fields c.host start events).vms)

  run_quietly-Switched :
      (action : String) (state : PowerState) (v : Vm) (other : String) (events : List Event)
      → Switches action state
      → free_of b'?' (codes action) ≡ true
      → free_of b'?' (codes uuid) ≡ true
      → free_of b'/' (codes uuid) ≡ true
      → find_vm uuid (store_after encode fields c.host start events).vms ≡ some v
      → uuid ≢ other
      → Accepts encode fields t c start
      → TaskRead encode fields t c start codec fuel
          (entity_of uuid ∷ [])
          (store_after encode fields c.host start events)
      → Patient t
      → 1 < fuel
      → Switched v other events state (
          run_quietly
            (served encode fields c.host t start)
            codec
            c
            fuel
            "POST"
            (action_url c.host uuid action)
            (some "{}")
            events)
  run_quietly-Switched action state v other events switches plain unasked whole found ne accepts
        read patient enough =
      let vms = (store_after encode fields c.host start events).vms in
      let (done, after) =
        run_quietly-served action state events v switches plain unasked whole found accepts read
          patient enough in
      (
        done,
        ap (find_vm uuid) after ∙ find_vm-set_power uuid state vms v found,
        ap (find_vm other) after ∙ find_vm-set_power_other uuid other state vms ne,
      )

  -- Against the mock server, after any requests before, the client switches a VM of the server's store
  -- off or on: the call succeeds, and then the first VM of that UUID has the new power state and is else
  -- as it was, and the VMs of other UUIDs are as they were. The VM's UUID has only letters, digits and
  -- hyphens, and is not empty; encoding/json reads back the answers about the task; the URLs are accepted;
  -- each request, wait and reading of the clock takes at most a minute more than the client waits in it,
  -- and the context is not cancelled; the fuel is for two polls.
  pub power-served :
      (v : Vm) (other : String) (events : List Event)
      → is_identifier uuid ≡ true
      → find_vm uuid (store_after encode fields c.host start events).vms ≡ some v
      → uuid ≢ other
      → Accepts encode fields t c start
      → TaskRead encode fields t c start codec fuel
          (entity_of uuid ∷ [])
          (store_after encode fields c.host start events)
      → Patient t
      → 1 < fuel
      → let server = served encode fields c.host t start in
        Switched v other events PowerState.off (power_off_vm server codec c fuel uuid events)
        × Switched v other events PowerState.on (power_on_vm server codec c fuel uuid events)
  unfolding power_off_vm power_on_vm
  power-served v other events plain found ne accepts read patient enough =
      let unasked = is_identifier-free b'?' uuid refl plain in
      let whole = is_identifier-free b'/' uuid refl plain in
      (
        run_quietly-Switched "$actions/power-off" PowerState.off v other events power_off-Switches
            refl unasked whole found ne accepts read patient enough,
        run_quietly-Switched "$actions/power-on" PowerState.on v other events power_on-Switches refl
            unasked whole found ne accepts read patient enough,
      )
