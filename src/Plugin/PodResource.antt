-- ===== src/Plugin/PodResource.antt =====
-- internal/deviceplugin/pod_resource.go: which pod holds a device, by the kubelet's pod resources.
use alibabacloud_erdma_contr.Prelude.{
  String, str_eq, Bool, ◌&&◌, Option, none, some, List, [], ◌∷◌, ◌++◌, any, if◌then◌else◌,
}
use alibabacloud_erdma_contr.Exec.{Exec, wrap}
use alibabacloud_erdma_contr.Exec.Act.{◌>>=◌, ◌>>◌, pure, reword}
use alibabacloud_erdma_contr.Types.{resource_name}

pub record ContainerDevices : Type 0 where
  pub resource_name : String
  pub device_ids : List String

-- A pod's containers, each with its devices.
pub record PodResources : Type 0 where
  pub namespace : String
  pub name : String
  pub containers : List (List ContainerDevices)

pub record PodName : Type 0 where
  pub namespace : String
  pub name : String

-- The kubelet's socket: the connection and the listing.
pub record Kubelet (W : Type 0) : Type 0 where
  pub dial : Exec W (Unit {0})
  pub list : Exec W (List PodResources)

unfoldable pub erdma_ids : List ContainerDevices → List String
erdma_ids [] = []
erdma_ids (c ∷ cs) =
    (if str_eq c.resource_name resource_name then c.device_ids else []) ++ erdma_ids cs

unfoldable pub pod_ids : List (List ContainerDevices) → List String
unfolding erdma_ids
pod_ids [] = []
pod_ids (c ∷ cs) = erdma_ids c ++ pod_ids cs

abbrev pub PodDevices : Type 0
PodDevices = List (PodName × List String)

abbrev pub same_pod : PodName → PodName → Bool
same_pod a b = str_eq a.namespace b.namespace && str_eq a.name b.name

-- podDevices[pod] = res
unfoldable pub put_pod : PodDevices → PodName → List String → PodDevices
put_pod [] pod ids = (pod, ids) ∷ []
put_pod ((other, held) ∷ m) pod ids =
    if same_pod other pod then (pod, ids) ∷ m else (other, held) ∷ put_pod m pod ids

unfoldable pub collect_pods : PodDevices → List PodResources → PodDevices
unfolding put_pod pod_ids
collect_pods m [] = m
collect_pods m (p ∷ ps) =
    collect_pods
      (put_pod m (record { namespace = p.namespace; name = p.name }) (pod_ids p.containers)) ps

-- The first pod of the map that holds the device; the map may be in any order.
unfoldable pub holder : PodDevices → String → Option PodName
holder [] device = none
holder ((pod, ids) ∷ m) device =
    if any (λ id. str_eq id device) ids then some pod else holder m device

module _ {W : Type 0} (kubelet : Kubelet W) where
  unfoldable pub get_pod_devices : Exec W PodDevices
  unfolding collect_pods
  get_pod_devices = do
    reword (wrap "error dialing resource socket: %v, %v" []) kubelet.dial
    resources ← reword (wrap "%v.Get(_) = _, %v" []) kubelet.list
    pure (collect_pods [] resources)

  unfoldable pub get_dev_pod : String → Exec W (Option PodName)
  unfolding get_pod_devices holder
  get_dev_pod device = do pods ← get_pod_devices; pure (holder pods device)
