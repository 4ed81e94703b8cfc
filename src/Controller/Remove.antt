-- ===== src/Controller/Remove.antt =====
-- RemoveERdmaDevices of node_controller.go, and the result type of a reconciliation.
pub mod Laws
pub mod Examples
use alibabacloud_erdma_contr.Prelude.{
  ℕ, String, str_eq, Bool, false, not, List, [], ◌∷◌, keep, is_empty, if◌then◌else◌,
}
use alibabacloud_erdma_contr.Exec.{Exec}
use alibabacloud_erdma_contr.Exec.Act.{◌>>=◌, ◌>>◌, pure}
use alibabacloud_erdma_contr.Types.{ERdmaDevice}
use alibabacloud_erdma_contr.Kube.{Kube}

abbrev pub erdma_finalizer : String
erdma_finalizer = "network.alibabacloud.com/erdma-controller"

-- ctrl.Result
pub record Outcome : Type 0 where
  pub requeue : Bool
  pub requeue_after : ℕ

abbrev pub settled : Outcome
settled = record { requeue = false; requeue_after = 0 }

-- controllerutil.RemoveFinalizer
unfoldable pub remove_finalizer : String → ERdmaDevice → ERdmaDevice
remove_finalizer f d = record d { finalizers = keep (λ g. not (str_eq g f)) d.finalizers }

-- `update.ObjectMeta = device.ObjectMeta`
unfoldable pub with_meta_of : ERdmaDevice → ERdmaDevice → ERdmaDevice
with_meta_of d stored = record stored {
  name = d.name;
  owner_uid = d.owner_uid;
  labels = d.labels;
  finalizers = d.finalizers;
  deletion_timestamp = d.deletion_timestamp;
}

unfoldable pub released : ERdmaDevice → ERdmaDevice
unfolding remove_finalizer
released d = remove_finalizer erdma_finalizer (record d { finalizers = [] })

module _ {W : Type 0} (kube : Kube W) where
  unfoldable pub release_all : List ERdmaDevice → Exec W (Unit {0})
  unfolding with_meta_of
  release_all [] = pure tt
  release_all (d ∷ ds) = do
    kube.create_or_patch (released d) (with_meta_of (released d))
    release_all ds

  -- The loop deletes the items of the list, not the released copies.
  unfoldable pub delete_all : List ERdmaDevice → Exec W (Unit {0})
  delete_all [] = pure tt
  delete_all (d ∷ ds) = do kube.delete_device d; delete_all ds

  unfoldable pub remove_erdma_devices : String → Exec W Outcome
  unfolding release_all delete_all
  remove_erdma_devices node_name = do
    devices ← kube.list_devices ("alibabacloud.com/nodename", node_name)
    if is_empty devices
        then pure settled
        else (do release_all devices; delete_all devices; pure settled)
