-- ===== src/Plugin/Allocate.antt =====
-- NewERDMADevicePlugin and Allocate of internal/deviceplugin/deviceplugin.go.
pub mod Laws
pub mod Share
pub mod Advertised
pub mod Order
pub mod Every
use alibabacloud_erdma_contr.Prelude.{
  String, Bool, true, false, ◌&&◌, Option, none, some, List, [], ◌∷◌, ◌++◌, map, any, is_empty,
  Text, codes, text_eq, if◌then◌else◌,
}
use alibabacloud_erdma_contr.Exec.{Res, ok, panic}
use alibabacloud_erdma_contr.Exec.Pure.{◌>>=◌, ◌>>◌, deref}
use alibabacloud_erdma_contr.Types.{ERdmaDeviceInfo}
use alibabacloud_erdma_contr.Plugin.Devices.{
  DevMap, device_named, dev_map, device_of_id, pnet_id_of_mac,
}

abbrev pub rdma_cm_device : Text
rdma_cm_device = codes "/dev/infiniband/rdma_cm"

abbrev pub smcr_pnet_env : String
smcr_pnet_env = "SMCR_PNET"

pub record Plugin : Type 0 where
  pub devices : DevMap
  pub alloc_all_devices : Bool
  pub prestart : Bool
  pub alloc_rdma_cm : Bool

-- `cri` is the outcome of initCriClient, and `cm_exists` that of os.Stat on the host's rdma_cm.
unfoldable pub new_plugin :
    List ERdmaDeviceInfo → Bool → Bool → Bool → Res (Unit {0}) → Bool → Res Plugin
unfolding dev_map
new_plugin devices alloc_all prestart alloc_cm cri cm_exists = do
  if prestart then cri else ok tt
  ok (record {
    devices = dev_map [] devices;
    alloc_all_devices = alloc_all;
    prestart = prestart;
    alloc_rdma_cm = alloc_cm && cm_exists;
  })

pub record DeviceSpec : Type 0 where
  pub container_path : Text
  pub host_path : Text
  pub permissions : String

pub record ContainerResponse : Type 0 where
  pub devices : List DeviceSpec
  pub envs : List (String × Text)

-- The state of the loop over a container's devices: erdmaInfo, the map `devices` of the container
-- as the devices in it, and `occupied`, which the containers share.
pub record Grant : Type 0 where
  pub info : Option ERdmaDeviceInfo
  pub granted : List ERdmaDeviceInfo
  pub occupied : List Text

abbrev pub text_in : List Text → Text → Bool
text_in l t = any (λ s. text_eq s t) l

-- Of an id without a device's name nothing is taken, and of an unknown device there is no
-- `.DevPaths`.
unfoldable pub grant_ids : DevMap → List Text → Grant → Res Grant
grant_ids m [] g = ok g
grant_ids m (id ∷ ids) g = elim (device_of_id id) [
  | none ↦ grant_ids m ids g
  | some name ↦ elim (text_in g.occupied name) [
    | true ↦ grant_ids m ids g
    | false ↦ elim (device_named m name) [
      | none ↦ panic
      | some d ↦
          grant_ids m ids
            (record { info = some d; granted = g.granted ++ d ∷ []; occupied = name ∷ g.occupied })
    ]
  ]
]

abbrev first_info : Option ERdmaDeviceInfo → ERdmaDeviceInfo → Option ERdmaDeviceInfo
first_info none d = some d
first_info (some e) d = some e

unfoldable pub grant_all : DevMap → Grant → Grant
grant_all [] g = g
grant_all (d ∷ m) g = elim (text_in g.occupied d.name) [
  | true ↦ grant_all m g
  | false ↦ grant_all m (record {
    info = first_info g.info d;
    granted = g.granted ++ d ∷ [];
    occupied = d.name ∷ g.occupied;
  })
]

unfoldable pub grant_container : Plugin → List Text → List Text → Res Grant
unfolding grant_ids grant_all
grant_container p ids occupied =
    let start : Grant = record { info = none; granted = []; occupied = occupied } in
    if p.alloc_all_devices then ok (grant_all p.devices start) else grant_ids p.devices ids start

unfoldable pub rw_device : Text → DeviceSpec
rw_device path = record { container_path = path; host_path = path; permissions = "rw" }

unfoldable pub device_paths : List ERdmaDeviceInfo → List DeviceSpec
unfolding rw_device
device_paths [] = []
device_paths (d ∷ ds) = map rw_device d.dev_paths ++ device_paths ds

-- The response of one container, if it has a path to mount. PNetIDFromDevice reads the MAC of
-- erdmaInfo, which may be nil.
unfoldable pub respond : Plugin → Grant → Res (List ContainerResponse)
unfolding device_paths
respond p g =
    let cm = if p.alloc_rdma_cm then rw_device rdma_cm_device ∷ [] else [] in
    let paths = device_paths g.granted ++ cm in
    if is_empty paths then ok [] else (do
      info ← deref g.info
      ok (record { devices = paths; envs = (smcr_pnet_env, pnet_id_of_mac info.mac) ∷ [] } ∷ []))

-- A request is the lists of device ids of its containers.
unfoldable pub allocate_from : Plugin → List (List Text) → List Text → Res (List ContainerResponse)
allocate_from p [] occupied = ok []
allocate_from p (ids ∷ requests) occupied = do
  g ← grant_container p ids occupied
  here ← respond p g
  rest ← allocate_from p requests g.occupied
  ok (here ++ rest)

unfoldable pub allocate : Plugin → List (List Text) → Res (List ContainerResponse)
unfolding allocate_from
allocate p requests = allocate_from p requests []
