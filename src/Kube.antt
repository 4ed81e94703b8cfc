-- ===== src/Kube.antt =====
-- The cluster as the reconcilers use it: the fields of a node that the code reads, and the calls of
-- the Kubernetes client and of controller-runtime's helpers as an interface over a world `W`.
use alibabacloud_erdma_contr.Prelude.{ℕ, String, Bool, Option, List}
use alibabacloud_erdma_contr.Exec.{Exec}
use alibabacloud_erdma_contr.Types.{ERdmaDevice}
use alibabacloud_erdma_contr.Eri.Choose.{NodeAddress}

pub record NodeCondition : Type 0 where
  pub type : String
  pub status : String

-- Times are seconds. `provider_id` is Spec.ProviderID.
pub record Node : Type 0 where
  pub name : String
  pub uid : String
  pub labels : List (String × String)
  pub provider_id : String
  pub creation_timestamp : ℕ
  pub deletion_timestamp : Option ℕ
  pub conditions : List NodeCondition
  pub addresses : List NodeAddress

-- `get_*` fails with `Error.not_found` where errors.IsNotFound holds. `create_or_patch` reads the
-- stored object, applies the function to it and patches the difference. `poll` calls its condition
-- until it holds or the time is up.
pub record Kube (W : Type 0) : Type 0 where
  pub get_node : String → Exec W Node
  pub get_device : String → Exec W ERdmaDevice
  pub list_devices : String × String → Exec W (List ERdmaDevice)
  pub create_device : ERdmaDevice → Exec W (Unit {0})
  pub create_or_patch : ERdmaDevice → (ERdmaDevice → ERdmaDevice) → Exec W (Unit {0})
  pub delete_device : ERdmaDevice → Exec W (Unit {0})
  pub update_status : ERdmaDevice → Exec W (Unit {0})
  pub poll : Exec W Bool → Exec W (Unit {0})
  pub seconds_now : W → ℕ
  pub split_dots : String → List String
