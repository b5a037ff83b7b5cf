-- ===== src/Mock/Server/Fixtures.antt =====
-- The fixtures of pkg/mock/server.go, and the store that cmd/mock-nutanix/main.go starts with. The descriptions of the VMs are left out.
use nutanix_vma.Prelude.{none, some, List, [], ◌∷◌}
use nutanix_vma.Api.{Vm, Reference, PowerState}
use nutanix_vma.HttpClient.Codec.{Subnet, StorageContainer, Cluster}
use nutanix_vma.Mock.{Store, CbtConfig, new_store}

abbrev default_container : Reference
default_container = record { ext_id = "sc-uuid-001"; name = "default-container" }

abbrev test_cluster : Reference
test_cluster = record { ext_id = "cluster-uuid-001"; name = "test-cluster" }

abbrev pub linux_vm : Vm
linux_vm = record {
  ext_id = "vm-uuid-001";
  name = "test-vm-linux";
  power_state = PowerState.on;
  num_sockets = 2;
  num_cores_per_socket = 4;
  num_threads_per_core = 1;
  memory_size_bytes = 8589934592;
  machine_type = "Q35";
  boot_config = some (record { boot_type = "LEGACY"; boot_order = [] });
  disks =
      record {
        ext_id = "disk-001";
        disk_address = some (record { bus_type = "SCSI"; index = 0 });
        backing_info = some (record {
          vm_disk_uuid = "vdisk-001";
          storage_container_ref = some default_container;
          disk_size_bytes = 53687091200;
        });
        disk_size_bytes = 53687091200;
        device_type = "DISK";
      }
      ∷ [];
  nics =
      record {
        ext_id = "nic-001";
        network_ref = some (record { ext_id = "subnet-uuid-001"; name = "vm-network" });
        nic_type = "NORMAL_NIC";
        mac_address = "50:6b:8d:aa:bb:01";
      }
      ∷ [];
  gpus = [];
  cluster = some test_cluster;
}

abbrev windows_vm : Vm
windows_vm = record {
  ext_id = "vm-uuid-002";
  name = "test-vm-windows";
  power_state = PowerState.on;
  num_sockets = 4;
  num_cores_per_socket = 2;
  num_threads_per_core = 2;
  memory_size_bytes = 17179869184;
  machine_type = "Q35";
  boot_config = some (record { boot_type = "UEFI"; boot_order = [] });
  disks =
      record {
        ext_id = "disk-002";
        disk_address = some (record { bus_type = "SCSI"; index = 0 });
        backing_info = some (record {
          vm_disk_uuid = "vdisk-002";
          storage_container_ref = some default_container;
          disk_size_bytes = 107374182400;
        });
        disk_size_bytes = 107374182400;
        device_type = "DISK";
      }
      ∷ record {
        ext_id = "disk-003";
        disk_address = some (record { bus_type = "IDE"; index = 0 });
        backing_info = none;
        disk_size_bytes = 0;
        device_type = "CDROM";
      }
      ∷ [];
  nics =
      record {
        ext_id = "nic-002";
        network_ref = some (record { ext_id = "subnet-uuid-001"; name = "vm-network" });
        nic_type = "NORMAL_NIC";
        mac_address = "50:6b:8d:aa:bb:02";
      }
      ∷ [];
  gpus = [];
  cluster = some test_cluster;
}

abbrev gpu_vm : Vm
gpu_vm = record {
  ext_id = "vm-uuid-003";
  name = "test-vm-gpu";
  power_state = PowerState.off;
  num_sockets = 2;
  num_cores_per_socket = 8;
  num_threads_per_core = 1;
  memory_size_bytes = 34359738368;
  machine_type = "Q35";
  boot_config = some (record { boot_type = "SECURE_BOOT"; boot_order = [] });
  disks =
      record {
        ext_id = "disk-004";
        disk_address = some (record { bus_type = "SCSI"; index = 0 });
        backing_info = some (record {
          vm_disk_uuid = "vdisk-004";
          storage_container_ref = some default_container;
          disk_size_bytes = 214748364800;
        });
        disk_size_bytes = 214748364800;
        device_type = "DISK";
      }
      ∷ [];
  nics =
      record {
        ext_id = "nic-003";
        network_ref = some (record { ext_id = "subnet-uuid-002"; name = "gpu-network" });
        nic_type = "NORMAL_NIC";
        mac_address = "50:6b:8d:aa:bb:03";
      }
      ∷ [];
  gpus = record { mode = "PASSTHROUGH_GRAPHICS"; device_id = 7864; vendor = "NVIDIA" } ∷ [];
  cluster = some test_cluster;
}

abbrev pub default_vms : List Vm
default_vms = linux_vm ∷ windows_vm ∷ gpu_vm ∷ []

abbrev pub default_subnets : List Subnet
default_subnets =
    record { ext_id = "subnet-uuid-001"; name = "vm-network"; vlan_id = 100; subnet_type = "VLAN" }
    ∷ record {
      ext_id = "subnet-uuid-002";
      name = "gpu-network";
      vlan_id = 200;
      subnet_type = "VLAN";
    }
    ∷ []

abbrev pub default_storage_containers : List StorageContainer
default_storage_containers = record { uuid = "sc-uuid-001"; name = "default-container" } ∷ []

abbrev pub default_clusters : List Cluster
default_clusters =
    record {
      ext_id = "cluster-uuid-001";
      name = "test-cluster";
      network =
          some (record { external_address = "10.0.0.10"; external_data_services_ip = "10.0.0.11" });
    }
    ∷ []

abbrev pub with_fixtures : Store → Store
with_fixtures s = record s {
  vms = default_vms;
  subnets = default_subnets;
  storage_containers = default_storage_containers;
  clusters = default_clusters;
}

abbrev pub default_cbt_config : CbtConfig
default_cbt_config = record {
  changed_regions =
      record { offset = 0; length = 65536 }
      ∷ record { offset = 1048576; length = 131072 }
      ∷ record { offset = 4194304; length = 65536 }
      ∷ [];
  jwt_token = "mock-jwt-token-for-cbt";
}

abbrev pub with_cbt_config : CbtConfig → Store → Store
with_cbt_config config s = record s { cbt_config = config }

abbrev pub standalone : Store
standalone = with_cbt_config default_cbt_config (with_fixtures new_store)
