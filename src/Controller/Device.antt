-- ===== src/Controller/Device.antt =====
-- ERdmaDeviceReconciler.Reconcile of erdmadevice_controller.go.
pub mod Laws
pub mod Examples
use alibabacloud_erdma_contr.Prelude.{
  String, str_eq, Bool, true, false, not, ◌&&◌, none, some, any, length, ◌==◌, if◌then◌else◌,
}
use alibabacloud_erdma_contr.Exec.{Error, not_found, Exec}
use alibabacloud_erdma_contr.Exec.Act.{◌>>=◌, ◌>>◌, pure, raise, handle}
use alibabacloud_erdma_contr.Types.{ERdmaDevice, DeviceStatus, device_status_ready}
use alibabacloud_erdma_contr.Ecs.{Ecs}
use alibabacloud_erdma_contr.Kube.{Kube}
use alibabacloud_erdma_contr.Eri.Ensure.{ensure_eri_for_instance}
use alibabacloud_erdma_contr.Controller.Remove.{Outcome, settled, remove_erdma_devices}

unfoldable pub is_not_ready : DeviceStatus → Bool
is_not_ready s = not (str_eq s.status device_status_ready)

-- The early return: as many statuses as devices, all of them ready.
unfoldable pub is_settled : ERdmaDevice → Bool
unfolding is_not_ready
is_settled d = length d.spec.devices == length d.status && not (any is_not_ready d.status)

abbrev pub is_not_found : Error → Bool
is_not_found (not_found s) = true
is_not_found _ = false

module _ {W : Type 0} (kube : Kube W) (ecs : Ecs W) where
  unfoldable pub configure : ERdmaDevice → Exec W Outcome
  unfolding is_not_ready
  configure d = do
    statuses ← ensure_eri_for_instance ecs d.spec.devices
    kube.update_status (record d { status = statuses })
    pure (
        if any is_not_ready statuses
        then record { requeue = true; requeue_after = 10 }
        else settled)

  unfoldable pub reconcile_device : String → Exec W Outcome
  unfolding configure is_settled
  reconcile_device name =
      handle (kube.get_device name)
        (λ d. elim d.deletion_timestamp [
          | some t ↦ remove_erdma_devices kube name
          | none ↦ if is_settled d then pure settled else configure d
        ])
        (λ e. if is_not_found e then pure settled else raise e)
