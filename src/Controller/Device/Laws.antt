-- ===== src/Controller/Device/Laws.antt =====
-- What a reconciliation of a custom resource comes to, by the states of its interfaces.
use alibabacloud_erdma_contr.Prelude.{
  ◌≡◌, refl, String, str_eq, eq_refl, false, Option, none, some, List, [], ◌∷◌, map, any, All,
  arith,
}
use alibabacloud_erdma_contr.Exec.{ok, done}
use alibabacloud_erdma_contr.Types.{
  DeviceInfo, DeviceStatus, ERdmaDevice, eni_status_in_use, eni_status_available,
  device_status_ready,
}
use alibabacloud_erdma_contr.Ecs.{Ecs, Eni, EnisAnswer, by_ids}
use alibabacloud_erdma_contr.Kube.{Kube}
use alibabacloud_erdma_contr.Eri.Ensure.{
  eni_with_id, ensure_device, in_use_rdma, ensure_devices, or_missing, ensure_eri_for_instance,
}
use alibabacloud_erdma_contr.Eri.Ensure.Laws.{IsInUse, ready_status, ensure_eri_for_instance_steady}
use alibabacloud_erdma_contr.Controller.Remove.{settled}
use alibabacloud_erdma_contr.Controller.Device.{
  is_not_ready, is_settled, configure, reconcile_device,
}

-- The device's interface is known, and neither in use nor available, as while it is being attached.
pub record IsIdle (enis : List Eni) (d : DeviceInfo) : Type 0 where
  pub eni : Eni
  pub status : String
  pub known : eni_with_id enis d.id ≡ ok (some eni)
  pub has_status : eni.status ≡ some status
  pub not_in_use : str_eq status eni_status_in_use ≡ false
  pub not_available : str_eq status eni_status_available ≡ false

none_pending : (ds : List DeviceInfo) → any is_not_ready (map ready_status ds) ≡ false
unfolding is_not_ready
none_pending [] = refl
none_pending (d ∷ ds) = ground (arith, none_pending ds, eq_refl device_status_ready)

module _ {W : Type 0} (ecs : Ecs W) where
  ensure_device_idle :
      (enis : List Eni) (d : DeviceInfo) (i : IsIdle enis d) (w : W)
      → ensure_device ecs d i.eni w ≡ done [] w
  unfolding ensure_device in_use_rdma
  ensure_device_idle enis d i w = grind (arith, i.has_status, i.not_in_use, i.not_available)

  ensure_devices_idle :
      (enis : List Eni) (ds : List DeviceInfo) (w : W)
      → All (IsIdle enis) ds
      → ensure_devices ecs enis ds w ≡ done [] w
  unfolding ensure_devices or_missing
  ensure_devices_idle enis [] w h = refl
  ensure_devices_idle enis (d ∷ ds) w (i, h) =
      rw (i.known, ensure_devices, or_missing)
        (rw (ensure_device_idle enis d i w) (rw (ensure_devices_idle enis ds w h) refl))

module _ {W : Type 0} (kube : Kube W) (ecs : Ecs W) (name : String) (d : ERdmaDevice)
    (answer : EnisAnswer) (known : Option Eni) (w w1 w2 w3 : W) where
  -- The resource is read, is not being deleted and not yet settled, and its interfaces are listed.
  record Reads : Type 0 where
    got : kube.get_device name w ≡ done d w1
    alive : d.deletion_timestamp ≡ none
    unsettled : is_settled d ≡ false
    listed :
        ecs.describe_network_interfaces (by_ids (map (λ (i : DeviceInfo). i.id) d.spec.devices)) w1
        ≡ done answer w2
    have_ids : eni_with_id answer.enis "" ≡ ok known

  reconcile_device_by :
      (statuses : List DeviceStatus)
      → Reads
      → ensure_eri_for_instance ecs d.spec.devices w1 ≡ done statuses w2
      → any is_not_ready statuses ≡ false
      → kube.update_status (record d { status = statuses }) w2 ≡ done tt w3
      → reconcile_device kube ecs name w ≡ done settled w3
  unfolding reconcile_device configure
  reconcile_device_by statuses r e n u =
      rw (r.got, r.alive, r.unsettled, reconcile_device) (rw (e, configure) (rw (u, n) refl))

-- With calls that succeed and a listing whose interfaces all have ids: a resource that is not being
-- deleted and not settled, all of whose interfaces are neither in use nor available, is left with no statuses, and its reconciliation ends without an
-- error and without asking to be repeated.
pub reconcile_device_idle :
    {W : Type 0} (kube : Kube W) (ecs : Ecs W) (name : String) (d : ERdmaDevice)
    (answer : EnisAnswer) (known : Option Eni) (w w1 w2 w3 : W)
    → kube.get_device name w ≡ done d w1
    → d.deletion_timestamp ≡ none
    → is_settled d ≡ false
    → ecs.describe_network_interfaces (by_ids (map (λ (i : DeviceInfo). i.id) d.spec.devices)) w1
      ≡ done answer w2
    → eni_with_id answer.enis "" ≡ ok known
    → All (IsIdle answer.enis) d.spec.devices
    → kube.update_status (record d { status = [] }) w2 ≡ done tt w3
    → reconcile_device kube ecs name w ≡ done settled w3
unfolding ensure_eri_for_instance
reconcile_device_idle kube ecs name d answer known w w1 w2 w3 got alive unsettled listed have idle
      u =
    reconcile_device_by kube ecs name d answer known w w1 w2 w3 []
      (record { got = got; alive = alive; unsettled = unsettled; listed = listed; have_ids = have })
      (rw (listed, have) (ensure_devices_idle ecs answer.enis d.spec.devices w2 idle)) refl u

-- With calls that succeed and a listing whose interfaces all have ids: a resource that is not being
-- deleted and not settled, all of whose interfaces are in use in RDMA mode, gets a status Ready for each device in order, and its reconciliation is finished.
pub reconcile_device_ready :
    {W : Type 0} (kube : Kube W) (ecs : Ecs W) (name : String) (d : ERdmaDevice)
    (answer : EnisAnswer) (known : Option Eni) (w w1 w2 w3 : W)
    → kube.get_device name w ≡ done d w1
    → d.deletion_timestamp ≡ none
    → is_settled d ≡ false
    → ecs.describe_network_interfaces (by_ids (map (λ (i : DeviceInfo). i.id) d.spec.devices)) w1
      ≡ done answer w2
    → eni_with_id answer.enis "" ≡ ok known
    → All (IsInUse answer.enis) d.spec.devices
    → kube.update_status (record d { status = map ready_status d.spec.devices }) w2 ≡ done tt w3
    → reconcile_device kube ecs name w ≡ done settled w3
reconcile_device_ready kube ecs name d answer known w w1 w2 w3 got alive unsettled listed have used
      u =
    reconcile_device_by kube ecs name d answer known w w1 w2 w3 (map ready_status d.spec.devices)
      (record { got = got; alive = alive; unsettled = unsettled; listed = listed; have_ids = have })
      (ensure_eri_for_instance_steady ecs d.spec.devices answer w1 w2 listed (known, have) used)
      (none_pending d.spec.devices) u
