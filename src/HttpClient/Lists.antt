-- ===== src/HttpClient/Lists.antt =====
-- The lists of internal/nutanix/vm.go, network.go, cluster.go (by pages) and storage.go.
pub mod Paged
use nutanix_vma.Prelude.{
  ℕ, zero, suc, ◌+◌, leb, length, String, Bool, true, List, [], ◌∷◌, ◌++◌, Option, none, some,
  if◌then◌else◌, concat, decimal, trim_slashes,
}
use nutanix_vma.Api.{Vm}
use nutanix_vma.HttpClient.{Transport, Client, ClientError, Io, pure, fail, ◌>>=◌, do_json}
use nutanix_vma.HttpClient.Codec.{Subnet, StorageContainer, Cluster, Page, Codec}

abbrev pub page_size : ℕ
page_size = 500

-- Whether the loop ends with this many items.
abbrev pub is_complete : (total : Option ℕ) → ℕ → Bool
is_complete none collected = true
is_complete (some total) collected = leb total collected

module _ (t : Transport) (c : Client) where
  unfoldable pub page_url : (path : String) (offset : ℕ) → String
  page_url path offset =
      concat (c.host ∷ path ∷ "?$top=" ∷ decimal page_size ∷ "&$skip=" ∷ decimal offset ∷ [])

  -- The loop over the pages, on fuel.
  module _ {ℓ} {A : Type ℓ} (decode : String → Option (Page A)) (path : String) where
    unfoldable pub list_from : (fuel offset : ℕ) → (collected : List A) → Io (List A)
    unfolding do_json
    list_from zero offset collected = fail ClientError.diverged
    list_from (suc fuel) offset collected = do
      page ← do_json t c decode "GET" (page_url path offset) none
      let all = collected ++ page.items
      let rest = list_from fuel (offset + page_size) all
      if is_complete page.total (length all) then pure all else rest

  unfoldable pub list_vms : Codec → (fuel : ℕ) → Io (List Vm)
  unfolding list_from
  list_vms codec fuel = list_from codec.vms "/api/vmm/v4.0/ahv/config/vms" fuel 0 []

  unfoldable pub list_subnets : Codec → (fuel : ℕ) → Io (List Subnet)
  unfolding list_from
  list_subnets codec fuel = list_from codec.subnets "/api/networking/v4.0/config/subnets" fuel 0 []

  unfoldable pub list_clusters : Codec → (fuel : ℕ) → Io (List Cluster)
  unfolding list_from
  list_clusters codec fuel =
      list_from codec.clusters "/api/clustermgmt/v4.0/config/clusters" fuel 0 []

  unfoldable pub list_storage_containers : Codec → (pe_url : String) → Io (List StorageContainer)
  unfolding do_json trim_slashes
  list_storage_containers codec pe_url =
      do_json t c codec.storage_containers "GET"
        (concat (trim_slashes pe_url ∷ "/PrismGateway/services/rest/v2.0/storage_containers" ∷ []))
        none
