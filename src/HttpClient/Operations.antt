-- ===== src/HttpClient/Operations.antt =====
-- The operations of internal/nutanix/vm.go, snapshot.go and image.go on one object: each is a request,
-- most of them with a task that is polled to its end.
pub mod Created
use nutanix_vma.Prelude.{
  ℕ, ◌*◌, String, Bool, not, List, [], ◌∷◌, Option, none, some, is_empty, contains, if◌then◌else◌,
  concat,
}
use nutanix_vma.Api.{PowerState, Vm}
use nutanix_vma.HttpClient.{
  Event, Transport, Client, ClientError, HttpResult, Result, Io, pure, fail, require, ◌>>=◌, ◌>>◌,
  do_json, do_request,
}
use nutanix_vma.HttpClient.Tasks.{Task, TaskEntity, PollResult, poll_task_with_options}
use nutanix_vma.HttpClient.Codec.{RecoveryPoint, Image, RequestBody, Codec}

abbrev pub second : ℕ
second = 1_000_000_000

abbrev pub vm_base_path : String
vm_base_path = "/api/vmm/v4.0/ahv/config/vms"

abbrev pub image_base_path : String
image_base_path = "/api/vmm/v4.0/images"

abbrev pub recovery_point_base_path : String
recovery_point_base_path = "/api/dataprotection/v4.0/config/recovery-points"

-- The Go result of a poll, where an error is given with or without its task.
unfoldable pub poll_outcome : PollResult → Result Task
poll_outcome (PollResult.done t) = Result.ok t
poll_outcome (PollResult.task_failed t message) = Result.err (ClientError.task_failed message)
poll_outcome (PollResult.task_cancelled t) = Result.err ClientError.task_cancelled
poll_outcome (PollResult.unknown_status t) = Result.err ClientError.unknown_status
poll_outcome PollResult.timed_out = Result.err ClientError.timed_out
poll_outcome PollResult.context_cancelled = Result.err ClientError.context_cancelled
poll_outcome PollResult.diverged = Result.err ClientError.diverged
poll_outcome (PollResult.poll_failed e) = Result.err e

-- The loops over the entities of a task: the first with one of the relations, and else the first.
unfoldable pub find_entity : (rels : List String) → List TaskEntity → Option String
find_entity rels [] = none
find_entity rels (e ∷ rest) = if contains e.rel rels then some e.ext_id else find_entity rels rest

abbrev pub first_entity : List TaskEntity → Option String
first_entity [] = none
first_entity (e ∷ rest) = some e.ext_id

unfoldable pub affected : (rels : List String) → List TaskEntity → Option String
unfolding find_entity
affected rels entities = elim (find_entity rels entities) [
  | none ↦ first_entity entities
  | some id ↦ some id
]

abbrev pub or_nothing : Option String → Io String
or_nothing none = fail ClientError.nothing_affected
or_nothing (some id) = pure id

-- Polling runs on fuel.
module _ (t : Transport) (codec : Codec) (c : Client) (fuel : ℕ) where
  unfoldable pub poll_task : (uuid : String) → Io Task
  unfolding poll_task_with_options poll_outcome
  poll_task uuid events =
      let polled =
        poll_task_with_options t c codec.task uuid (2 * second) fuel (30 * 60 * second) events in
      (poll_outcome polled.0, polled.1)

  -- The request, the check of the task's UUID, and the poll that begin each operation with a task.
  unfoldable pub run_task : (method url : String) → Option String → Io Task
  unfolding do_json poll_task
  run_task method url body = do
    ref ← do_json t c codec.task_ref method url body
    require (not (is_empty ref)) ClientError.no_task_id
    poll_task ref

  unfoldable pub run_and_find :
      (rels : List String) (method url : String) → Option String → Io String
  unfolding run_task affected
  run_and_find rels method url body = do
    task ← run_task method url body
    or_nothing (affected rels task.entities_affected)

  unfoldable pub run_quietly : (method url : String) → Option String → Io (Unit {0})
  unfolding run_task
  run_quietly method url body = do task ← run_task method url body; pure tt

  unfoldable pub get_vm : (uuid : String) → Io Vm
  unfolding do_json
  get_vm uuid = do_json t c codec.vm "GET" (concat (c.host ∷ vm_base_path ∷ "/" ∷ uuid ∷ [])) none

  unfoldable pub get_vm_power_state : (uuid : String) → Io PowerState
  unfolding get_vm
  get_vm_power_state uuid = do vm ← get_vm uuid; pure vm.power_state

  unfoldable pub power_off_vm : (uuid : String) → Io (Unit {0})
  unfolding run_quietly
  power_off_vm uuid =
      run_quietly "POST" (concat (c.host ∷ vm_base_path ∷ "/" ∷ uuid ∷ "/$actions/power-off" ∷ []))
        (some "{}")

  unfoldable pub power_on_vm : (uuid : String) → Io (Unit {0})
  unfolding run_quietly
  power_on_vm uuid =
      run_quietly "POST" (concat (c.host ∷ vm_base_path ∷ "/" ∷ uuid ∷ "/$actions/power-on" ∷ []))
        (some "{}")

  unfoldable pub delete_vm : (uuid : String) → Io (Unit {0})
  unfolding run_quietly
  delete_vm uuid = run_quietly "DELETE" (concat (c.host ∷ vm_base_path ∷ "/" ∷ uuid ∷ [])) none

  unfoldable pub create_recovery_point : (vm_uuid name : String) → Io String
  unfolding run_and_find
  create_recovery_point vm_uuid name =
      run_and_find ("dataprotection:config:recovery-point" ∷ "recovery-point" ∷ []) "POST"
        (concat (c.host ∷ recovery_point_base_path ∷ []))
        (some (codec.marshal (RequestBody.create_recovery_point name vm_uuid)))

  unfoldable pub get_recovery_point : (uuid : String) → Io RecoveryPoint
  unfolding do_json
  get_recovery_point uuid =
      do_json t c codec.recovery_point "GET"
        (concat (c.host ∷ recovery_point_base_path ∷ "/" ∷ uuid ∷ [])) none

  unfoldable pub delete_recovery_point : (uuid : String) → Io (Unit {0})
  unfolding run_quietly
  delete_recovery_point uuid =
      run_quietly "DELETE" (concat (c.host ∷ recovery_point_base_path ∷ "/" ∷ uuid ∷ [])) none

  unfoldable pub create_image_from_disk : (name disk_uuid cluster_ref : String) → Io String
  unfolding run_and_find
  create_image_from_disk name disk_uuid cluster_ref =
      run_and_find ("vmm:images:image" ∷ "image" ∷ []) "POST"
        (concat (c.host ∷ image_base_path ∷ []))
        (some (codec.marshal (RequestBody.create_image name disk_uuid cluster_ref)))

  unfoldable pub get_image : (uuid : String) → Io Image
  unfolding do_json
  get_image uuid =
      do_json t c codec.image "GET" (concat (c.host ∷ image_base_path ∷ "/" ∷ uuid ∷ [])) none

  unfoldable pub delete_image : (uuid : String) → Io (Unit {0})
  unfolding run_quietly
  delete_image uuid =
      run_quietly "DELETE" (concat (c.host ∷ image_base_path ∷ "/" ∷ uuid ∷ [])) none

  unfoldable pub clone_vm_from_recovery_point : (recovery_point_uuid vm_name : String) → Io String
  unfolding run_and_find
  clone_vm_from_recovery_point recovery_point_uuid vm_name =
      run_and_find ("vmm:ahv:config:vm" ∷ "vm" ∷ []) "POST"
        (concat (
          c.host ∷ recovery_point_base_path ∷ "/" ∷ recovery_point_uuid ∷ "/$actions/vm-recovery"
          ∷ []))
        (some (codec.marshal (RequestBody.recover_vm vm_name)))

-- `io.Copy` into the writer, which `writes` says succeeds.
unfoldable pub copy_body : (writes : String → Bool) → HttpResult → Result String
copy_body writes (HttpResult.err e) = Result.err (ClientError.http e)
copy_body writes (HttpResult.ok status body) =
    if writes body then Result.ok body else Result.err ClientError.not_written

unfoldable pub download_image :
    Transport → Client → (writes : String → Bool) → (uuid : String) → Io String
unfolding copy_body do_request
download_image t c writes uuid events =
    let answer =
      do_request t c "GET" (concat (c.host ∷ image_base_path ∷ "/" ∷ uuid ∷ "/file" ∷ []))
        c.max_retries none events in
    (copy_body writes answer.0, answer.1)
