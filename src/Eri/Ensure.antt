-- ===== src/Eri/Ensure.antt =====
-- EnsureEriForInstance: brings each device of a custom resource into use, and reports its status.
pub mod Laws
use alibabacloud_erdma_contr.Prelude.{
  ℕ, String, str_eq, pos, negsuc, int32, Bool, not, ◌&&◌, Option, none, some, List, [], ◌∷◌, ◌++◌,
  map, if◌then◌else◌,
}
use alibabacloud_erdma_contr.Exec.{Res, ok, err, panic, Exec, errorf}
use alibabacloud_erdma_contr.Exec.Act.{◌>>=◌, ◌>>◌, pure, raise, lift, handle}
use alibabacloud_erdma_contr.Types.{
  DeviceInfo, DeviceStatus, eni_status_in_use, eni_status_available, device_status_ready,
  device_status_pending, device_status_failed,
}
use alibabacloud_erdma_contr.Ecs.{Ecs, Eni, AttachRequest, by_ids}
use alibabacloud_erdma_contr.Eri.Client.{traffic_mode_rdma}
use alibabacloud_erdma_contr.Eri.Choose.{convert_primary_eni}

-- eniMap[id]: of several interfaces with one id the last stays. Every interface needs an id.
unfoldable pub eni_with_id : List Eni → String → Res (Option Eni)
eni_with_id [] id = ok none
eni_with_id (e ∷ es) id = elim e.network_interface_id [
  | none ↦ panic
  | some eid ↦ elim (eni_with_id es id) [
    | ok found ↦ elim found [
      | none ↦ ok (if str_eq eid id then some e else none)
      | some later ↦ ok (some later)
    ]
    | err x ↦ err x
    | panic ↦ panic
  ]
]

abbrev status_of : DeviceInfo → String → String → DeviceStatus
status_of device status message = record { id = device.id; status = status; message = message }

-- No NetworkCardIndex goes into the request for card 0.
unfoldable pub attach_request : DeviceInfo → AttachRequest
attach_request device = record {
  instance_id = device.instance_id;
  network_interface_id = device.id;
  network_card_index = elim device.network_card_index [
    | pos n ↦ elim n [ ℕ.zero ↦ none | _ ↦ some (int32 device.network_card_index) ]
    | negsuc n ↦ some (int32 device.network_card_index)
  ];
}

-- `*eniStatus.NetworkInterfaceTrafficMode`, read only if the status is InUse.
unfoldable pub in_use_rdma : Eni → String → Res (Option Bool)
in_use_rdma eni status =
    if str_eq status eni_status_in_use
    then elim eni.network_interface_traffic_mode [
      | none ↦ panic
      | some mode ↦ ok (some (str_eq mode traffic_mode_rdma))
    ]
    else ok none

module _ {W : Type 0} (api : Ecs W) where
  unfoldable pub attach_device : DeviceInfo → Exec W DeviceStatus
  unfolding attach_request
  attach_device device =
      handle (api.attach_network_interface (attach_request device))
        (λ attached. pure (status_of device device_status_pending ""))
        (λ e. pure (status_of device device_status_failed (api.error_text e)))

  unfoldable pub convert_device : DeviceInfo → Exec W DeviceStatus
  convert_device device =
      handle (convert_primary_eni api device.id device.instance_id device.queue_pair)
        (λ converted. pure (status_of device device_status_ready ""))
        (λ e. pure (status_of device device_status_failed (api.error_text e)))

  -- The statuses that one device adds, by the three tests in their order.
  unfoldable pub ensure_device : DeviceInfo → Eni → Exec W (List DeviceStatus)
  unfolding attach_device convert_device in_use_rdma
  ensure_device device eni = elim eni.status [
    | none ↦ raise (errorf "cannot found eni %s status" (device.id ∷ []))
    | some status ↦ (do
      mode ← lift (in_use_rdma eni status)
      ready ← pure (elim mode [
        | none ↦ []
        | some rdma ↦ if rdma then status_of device device_status_ready "" ∷ [] else []
      ])
      attached ←
          if not device.is_primary_eni && str_eq status eni_status_available
          then (do s ← attach_device device; pure (s ∷ []))
          else pure []
      converted ← elim mode [
        | none ↦ pure []
        | some rdma ↦
            if device.is_primary_eni && not rdma
            then (do s ← convert_device device; pure (s ∷ []))
            else pure []
      ]
      pure (ready ++ attached ++ converted))
  ]

  unfoldable pub or_missing : DeviceInfo → Option Eni → Exec W Eni
  or_missing device none = raise (errorf "cannot found eni %s" (device.id ∷ []))
  or_missing device (some eni) = pure eni

  unfoldable pub ensure_devices : List Eni → List DeviceInfo → Exec W (List DeviceStatus)
  ensure_devices enis [] = pure []
  ensure_devices enis (device ∷ devices) = do
    found ← lift (eni_with_id enis device.id)
    eni ← or_missing device found
    here ← ensure_device device eni
    rest ← ensure_devices enis devices
    pure (here ++ rest)

  unfoldable pub ensure_eri_for_instance : List DeviceInfo → Exec W (List DeviceStatus)
  unfolding ensure_devices
  ensure_eri_for_instance devices = do
    answer ← api.describe_network_interfaces (by_ids (map (λ (d : DeviceInfo). d.id) devices))
    lift (eni_with_id answer.enis "")
    ensure_devices answer.enis devices
