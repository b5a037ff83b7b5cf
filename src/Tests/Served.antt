-- ===== src/Tests/Served.antt =====
-- The results on the Nutanix client against the mock server, for servers with few objects.
use nutanix_vma.Prelude.{
  ◌+◌, ◌*◌, ◌≤◌, trim_slashes, decimal, eq_iff, zero, str_eq, if◌then◌else◌, suc, String, Option,
  none, some, List, [], ◌∷◌, ◌≡◌, refl, arith,
}
use nutanix_vma.Api.{Vm, PowerState, ChangedRegions}
use nutanix_vma.HttpClient.{Event, Result, ClientError, HttpError}
use nutanix_vma.HttpClient.Tasks.{TaskStatus}
use nutanix_vma.HttpClient.Operations.{second, create_image_from_disk, power_off_vm, power_on_vm}
use nutanix_vma.HttpClient.Codec.{Codec, Page}
use nutanix_vma.HttpClient.Lists.{list_vms, list_subnets, list_clusters}
use nutanix_vma.Mock.{Store, new_store, lookup, find_vm, padded}
use nutanix_vma.Mock.Handlers.{Fields, Payload}
use nutanix_vma.Mock.Objects.{cloned_vm}
use nutanix_vma.Mock.Server.{store_after, served}
use nutanix_vma.Mock.Server.Fixtures.{linux_vm, standalone}
use nutanix_vma.Mock.Server.Listing.{ReadsBack, lists-served}
use nutanix_vma.Mock.Server.Polling.{task_of, lasts, Patient}
use nutanix_vma.Mock.Server.Powered.{entity_of, Switched, power-served}
use nutanix_vma.Mock.Objects.Kept.{new_image}
use nutanix_vma.HttpClient.Cbt.{
  RegionsQuery, cookie_value, cached, regions_url, get_changed_regions,
}
use nutanix_vma.Mock.Cbt.{expected_token, regions_page}
use nutanix_vma.Mock.Server.Regions.{refusal, get_changed_regions-served}
use nutanix_vma.Mock.Server.Imaged.{create_image-served}
use nutanix_vma.Tests.Clients.{client, busy}
use nutanix_vma.Tests.Operations.{codec as base_codec}

abbrev one_vm : Store
one_vm = record new_store { vms = cloned_vm "vm-1" "web" ∷ [] }

-- The bodies that this server writes, by a letter each.
abbrev page_text {ℓ} : {A : Type ℓ} → List A → String
page_text [] = "empty"
page_text (x ∷ rest) = "page"

abbrev task_text : TaskStatus → String
task_text TaskStatus.succeeded = "succeeded"
task_text _ = "running"

abbrev encode : Payload → String
encode (Payload.vms p) = page_text p.items
encode (Payload.subnets p) = "empty"
encode (Payload.clusters p) = "empty"
encode (Payload.task_ref id) = "ref"
encode (Payload.task t) = task_text t.status
encode _ = "other"

abbrev empty_page {ℓ} : {A : Type ℓ} → String → Option (Page A)
empty_page text = some (record { items = []; total = some 0 })

abbrev vms_page : String → Option (Page Vm)
vms_page text =
    some (record { items = if str_eq text "page" then one_vm.vms else []; total = some 1 })

abbrev codec : Codec
codec = record base_codec { vms = vms_page; subnets = empty_page; clusters = empty_page }

abbrev fields : String → Option Fields
fields text = none

page_read :
    ReadsBack codec.vms
      (λ p. encode (Payload.vms p))
      (store_after encode fields client.host one_vm []).vms
unfolding store_after
page_read zero h = refl
page_read (suc zero) h = refl
page_read (suc (suc n)) h = absurd (omega (arith, h))

no_subnets :
    ReadsBack codec.subnets
      (λ p. encode (Payload.subnets p))
      (store_after encode fields client.host one_vm []).subnets
unfolding store_after
no_subnets zero h = refl
no_subnets (suc n) h = absurd (omega (arith, h))

no_clusters :
    ReadsBack codec.clusters
      (λ p. encode (Payload.clusters p))
      (store_after encode fields client.host one_vm []).clusters
unfolding store_after
no_clusters zero h = refl
no_clusters (suc n) h = absurd (omega (arith, h))

lists-served_example :
    ((list_vms (served encode fields client.host busy one_vm) client codec 1 []).0
      ≡ Result.ok (cloned_vm "vm-1" "web" ∷ []))
    × ((list_subnets (served encode fields client.host busy one_vm) client codec 1 []).0
        ≡ Result.ok [])
    × ((list_clusters (served encode fields client.host busy one_vm) client codec 1 []).0
        ≡ Result.ok [])
unfolding store_after
lists-served_example =
    lists-served encode fields busy client one_vm codec 1 [] page_read no_subnets no_clusters
      (λ url. refl) (omega arith, omega arith) (omega arith, omega arith) (omega arith, omega arith)

abbrev power_codec : Codec
power_codec = record codec {
  task_ref = λ text. some "task-00000001";
  task = λ text. some (
      task_of (entity_of "vm-uuid-001" ∷ [])
        (if str_eq text "succeeded" then TaskStatus.succeeded else TaskStatus.running));
}

busy_prompt :
    (e : Event) (events : List Event)
    → busy.now (e ∷ events) ≤ busy.now events + (lasts e + 60 * second)
busy_prompt (Event.waited n) events = omega arith
busy_prompt (Event.slept n) events = omega arith
busy_prompt Event.read_clock events = omega arith
busy_prompt (Event.sent r) events = omega arith

busy-Patient : Patient busy
busy-Patient = record { prompt = busy_prompt; going = λ events. refl }

power-served_example :
    Switched encode fields busy client standalone power_codec 2 "vm-uuid-001" linux_vm "vm-uuid-002"
      [] PowerState.off
      (power_off_vm
        (served encode fields client.host busy standalone)
        power_codec
        client
        2
        "vm-uuid-001"
        [])
    × Switched encode fields busy client standalone power_codec 2 "vm-uuid-001" linux_vm
        "vm-uuid-002" [] PowerState.on
        (power_on_vm
          (served encode fields client.host busy standalone)
          power_codec
          client
          2
          "vm-uuid-001"
          [])
unfolding store_after find_vm padded decimal
power-served_example =
    power-served encode fields busy client standalone power_codec 2 "vm-uuid-001" linux_vm
      "vm-uuid-002" [] refl refl
      (λ e. let same = (eq_iff "vm-uuid-001" "vm-uuid-002").1 e in cc same) (λ method url. refl)
      (refl, (refl, refl)) busy-Patient (omega arith)

abbrev disk_fields : Fields
disk_fields = record { name = "disk"; type = "DISK_IMAGE"; vm_ext_ids = []; vm_names = [] }

abbrev image_codec : Codec
image_codec = record power_codec {
  task = λ text. some (
      task_of (record { ext_id = "img-00000001"; rel = "vmm:images:image" } ∷ [])
        (if str_eq text "succeeded" then TaskStatus.succeeded else TaskStatus.running));
}

abbrev read_fields : String → Option Fields
read_fields text = some disk_fields

create_image-served_example :
    let run =
      create_image_from_disk
        (served encode read_fields client.host busy one_vm)
        image_codec
        client
        2
        "disk"
        "vdisk-1"
        "cluster-1"
        [] in
    let images = (store_after encode read_fields client.host one_vm run.1).images in
    (run.0 ≡ Result.ok "img-00000001")
    × (lookup "img-00000001" images ≡ some (new_image disk_fields one_vm))
    × (lookup "img-1" images ≡ none)
unfolding store_after padded decimal lookup
create_image-served_example =
    create_image-served encode read_fields busy client one_vm image_codec 2 "disk" "vdisk-1"
      "cluster-1" [] disk_fields "img-1" refl
      (λ e. let same = (eq_iff "img-1" "img-00000001").1 e in cc same) (λ method url. refl)
      (refl, (refl, refl)) busy-Patient (omega arith)

abbrev first_page : ChangedRegions
unfolding regions_page
first_page = regions_page 0 standalone.cbt_config.changed_regions

abbrev regions_codec : Codec
regions_codec = record codec { changed_regions = λ text. some first_page }

abbrev first_query : RegionsQuery
first_query = record {
  pe_url = "https://pc/";
  jwt_token = "mock-jwt-token-for-cbt";
  vm_uuid = "vm-uuid-001";
  snapshot_uuid = "rp-2";
  base_snapshot_uuid = "rp-1";
  offset = 0;
  length = 53687091200;
  block_size = 65536;
}

get_changed_regions-served_example :
    let run =
      get_changed_regions
        (served encode fields client.host busy standalone)
        regions_codec
        client
        first_query
        []
        [] in
    (run.result ≡ (
      if str_eq (cookie_value "mock-jwt-token-for-cbt") (expected_token standalone.cbt_config)
      then Result.ok first_page
      else Result.err (
          ClientError.http (
            HttpError.api 401
              (encode (Payload.error (refusal (cookie_value "mock-jwt-token-for-cbt"))))
              (regions_url busy regions_codec client first_query)))))
    × (store_after encode fields client.host standalone run.events ≡ standalone)
unfolding store_after cached trim_slashes regions_page
get_changed_regions-served_example =
    get_changed_regions-served encode fields busy regions_codec client standalone first_query [] []
      refl refl (record { vm = refl; snapshot = refl; base = refl }) (omega arith)
      (λ method url. refl) refl
