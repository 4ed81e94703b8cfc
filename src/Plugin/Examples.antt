-- ===== src/Plugin/Examples.antt =====
-- Two devices and two containers, for the theorems on internal/deviceplugin.
use alibabacloud_erdma_contr.Prelude.{
  ◌≡◌, refl, Text, String, Bool, true, false, none, some, List, [], ◌∷◌, codes, arith, str_eq,
  Without, is_empty, split, text_eq,
}
use alibabacloud_erdma_contr.Exec.{ok, err, panic, done, remote}
use alibabacloud_erdma_contr.Types.{ERdmaDeviceInfo}
use alibabacloud_erdma_contr.Plugin.Devices.{
  pnet_id_of_mac, to_upper, dev_map, put_device, device_named, device_id, device_of_id, slash,
  advertised, advertise_from, decimal, decimal_fuel,
}
use alibabacloud_erdma_contr.Plugin.Allocate.{Plugin, Grant, grant_ids, grant_container, allocate}
use alibabacloud_erdma_contr.Plugin.Allocate.{
  rw_device, respond, allocate_from, rdma_cm_device, smcr_pnet_env,
}
use alibabacloud_erdma_contr.Plugin.Allocate.Laws.{allocate_all_panics}
use alibabacloud_erdma_contr.Plugin.Allocate.Share.{Served, Apart, containers_share_nothing}
use alibabacloud_erdma_contr.Plugin.Allocate.{ContainerResponse, new_plugin, device_paths}
use alibabacloud_erdma_contr.Plugin.Allocate.Every.{IsWhole, allocate-IsWhole}
use alibabacloud_erdma_contr.Exec.Pure.{IsOk}
use mathlib.Core.List.{Permᴰ}
use alibabacloud_erdma_contr.Plugin.Allocate.Advertised.{IsAdvertised, allocate-IsOk}
use alibabacloud_erdma_contr.Plugin.Clients.{Clients, Host, init_cri_client}

abbrev pub erdma_of : String → ERdmaDeviceInfo
erdma_of name = record {
  name = codes name;
  mac = codes "00:16:3e:00:00:02";
  dev_paths = codes "/dev/infiniband/uverbs0" ∷ [];
  numa = 0;
  capabilities = 7;
}

abbrev pub plugin_of : Bool → Bool → Plugin
plugin_of every cm = record {
  devices = erdma_of "erdma_0" ∷ erdma_of "erdma_1" ∷ [];
  alloc_all_devices = every;
  prestart = false;
  alloc_rdma_cm = cm;
}

abbrev pub grant_0 : Grant
grant_0 = record {
  info = some (erdma_of "erdma_0");
  granted = erdma_of "erdma_0" ∷ [];
  occupied = codes "erdma_0" ∷ [];
}

pub first_grant : grant_container (plugin_of false true) (codes "erdma_0/3" ∷ []) [] ≡ ok grant_0
unfolding grant_container grant_ids device_of_id split device_named text_eq
first_grant = refl

abbrev two_requests : List (List Text)
two_requests = (codes "erdma_0/3" ∷ []) ∷ (codes "erdma_0/4" ∷ codes "erdma_1/0" ∷ []) ∷ []

abbrev response : ContainerResponse
response = record {
  devices = rw_device (codes "/dev/infiniband/uverbs0") ∷ rw_device rdma_cm_device ∷ [];
  envs = (smcr_pnet_env, codes "00163E000002") ∷ [];
}

two_responses : allocate (plugin_of false true) two_requests ≡ ok (response ∷ response ∷ [])
unfolding allocate allocate_from grant_container grant_ids device_of_id split device_named text_eq
    respond device_paths rw_device pnet_id_of_mac to_upper
two_responses = refl

containers_share_nothing_example :
    (gs : List Grant) × Served (plugin_of false true) two_requests (response ∷ response ∷ []) gs
    × Apart gs
containers_share_nothing_example =
    containers_share_nothing (plugin_of false true) two_requests (response ∷ response ∷ [])
      two_responses

allocate_all_panics_example :
    allocate (plugin_of true true) ((codes "erdma_0/3" ∷ []) ∷ (codes "erdma_1/0" ∷ []) ∷ [])
    ≡ panic
allocate_all_panics_example =
    allocate_all_panics (plugin_of true true) (codes "erdma_0/3" ∷ []) (codes "erdma_1/0" ∷ []) []
      refl refl

abbrev pub two_devices : List ERdmaDeviceInfo
two_devices = erdma_of "erdma_0" ∷ erdma_of "erdma_1" ∷ []

new_plugin_of_two : new_plugin two_devices true false false (ok tt) true ≡ ok (plugin_of true false)
unfolding new_plugin dev_map put_device text_eq
new_plugin_of_two = refl

some_path : is_empty (device_paths two_devices) ≡ false
unfolding device_paths
some_path = refl

allocate-IsWhole_example :
    (r : ContainerResponse) × (allocate
        (record (plugin_of true false) { devices = erdma_of "erdma_1" ∷ erdma_of "erdma_0" ∷ [] })
        ((codes "erdma_0/3" ∷ []) ∷ (codes "erdma_1/0" ∷ []) ∷ [])
      ≡ ok (r ∷ []))
    × IsWhole (plugin_of true false) (erdma_of "erdma_1" ∷ erdma_of "erdma_0" ∷ []) r
allocate-IsWhole_example =
    allocate-IsWhole two_devices false false true (ok tt) (plugin_of true false)
      (erdma_of "erdma_1" ∷ erdma_of "erdma_0" ∷ []) (codes "erdma_0/3" ∷ [])
      ((codes "erdma_1/0" ∷ []) ∷ []) new_plugin_of_two refl some_path (Permᴰ.swap refl refl)

no_slash : Without slash (codes "erdma_0")
no_slash = ground arith

no_slash_1 : Without slash (codes "erdma_1")
no_slash_1 = ground arith

first_listed : IsAdvertised (plugin_of false false).devices (codes "erdma_0/0")
unfolding advertised advertise_from device_id decimal decimal_fuel text_eq
first_listed = refl

allocate-IsOk_example :
    IsOk
      (allocate (plugin_of false false) ((codes "erdma_0/0" ∷ []) ∷ (codes "erdma_0/0" ∷ []) ∷ []))
allocate-IsOk_example =
    allocate-IsOk (plugin_of false false) ((codes "erdma_0/0" ∷ []) ∷ (codes "erdma_0/0" ∷ []) ∷ [])
      (no_slash, (no_slash_1, tt)) ((first_listed, tt), ((first_listed, tt), tt)) refl

abbrev containerd_host : Host
containerd_host = record {
  runtime_sock = none;
  exists = λ s. str_eq s "/run/containerd/containerd.sock";
  connect = λ s. ok tt;
  docker_client = err (remote "no docker");
}

abbrev no_clients : Clients
no_clients = record { cri = none; docker = false }

abbrev containerd_client : Clients
containerd_client = record { cri = some "/run/containerd/containerd.sock"; docker = false }

abbrev two_endpoints : List String
two_endpoints = "/var/run/dockershim.sock" ∷ "/run/containerd/containerd.sock" ∷ []

containerd_found :
    init_cri_client containerd_host two_endpoints no_clients ≡ done tt containerd_client
unfolding init_cri_client
containerd_found = refl
