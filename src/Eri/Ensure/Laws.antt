-- ===== src/Eri/Ensure/Laws.antt =====
-- What EnsureEriForInstance reports of the devices of a custom resource.
use alibabacloud_erdma_contr.Prelude.{
  ◌≡◌, refl, subst, String, str_eq, eq_iff, eq_refl, true, false, Option, some, List, [], ◌∷◌, ◌++◌,
  map, All, arith,
}
use alibabacloud_erdma_contr.Exec.{ok, done}
use alibabacloud_erdma_contr.Exec.Act.{lift, arrive, through}
use alibabacloud_erdma_contr.Types.{
  DeviceInfo, DeviceStatus, eni_status_in_use, eni_status_available, device_status_ready,
}
use alibabacloud_erdma_contr.Ecs.{Ecs, Eni, EnisAnswer, by_ids}
use alibabacloud_erdma_contr.Eri.Client.{traffic_mode_rdma}
use alibabacloud_erdma_contr.Eri.Ensure.{
  eni_with_id, ensure_device, ensure_devices, or_missing, ensure_eri_for_instance,
}

-- A device has one status or none, in the order of the devices, and the status has its id.
abbrev pub IsReportOf : DeviceInfo → DeviceStatus → Type 0
IsReportOf d s = s.id ≡ d.id

pub data Reports : List DeviceInfo → List DeviceStatus → Type 0 where
  nothing : Reports [] []
  silent :
      {ds : List DeviceInfo} {ss : List DeviceStatus} (d : DeviceInfo)
      → Reports ds ss
      → Reports (d ∷ ds) ss
  reported :
      {ds : List DeviceInfo} {ss : List DeviceStatus} (d : DeviceInfo) (s : DeviceStatus)
      → IsReportOf d s
      → Reports ds ss
      → Reports (d ∷ ds) (s ∷ ss)

in_use_not_available :
    (s : String) → str_eq s eni_status_in_use ≡ true → str_eq s eni_status_available ≡ false
in_use_not_available s h = ground (
  arith,
  eq_iff s eni_status_in_use,
  eq_iff s eni_status_available,
  eq_iff eni_status_in_use eni_status_available,
)

module _ {W : Type 0} (api : Ecs W) where
  abbrev OneAtMost : DeviceInfo → List DeviceStatus → Type 0
  OneAtMost d [] = Unit {0}
  OneAtMost d (s ∷ []) = IsReportOf d s
  OneAtMost d (s ∷ t ∷ ss) = ⊥

  ensure_device-OneAtMost :
      (d : DeviceInfo) (eni : Eni) (w w' : W) (ss : List DeviceStatus)
      → ensure_device api d eni w ≡ done ss w'
      → OneAtMost d ss
  unfolding ensure_device
  ensure_device-OneAtMost d eni w w' ss h = grind (arith, in_use_not_available)

  report_one :
      (d : DeviceInfo) (ds : List DeviceInfo) (here rest : List DeviceStatus)
      → OneAtMost d here
      → Reports ds rest
      → Reports (d ∷ ds) (here ++ rest)
  report_one d ds [] rest o r = silent d r
  report_one d ds (s ∷ []) rest o r = reported d s o r
  report_one d ds (s ∷ t ∷ ss) rest o r = absurd o

  ensure_devices-Reports :
      (enis : List Eni) (ds : List DeviceInfo) (w w' : W) (ss : List DeviceStatus)
      → ensure_devices api enis ds w ≡ done ss w'
      → Reports ds ss
  unfolding ensure_devices
  ensure_devices-Reports enis [] w w' ss h = subst (Reports []) (grind arith) nothing
  ensure_devices-Reports enis (d ∷ ds) w w' ss h =
      elim (through (lift (eni_with_id enis d.id) w) _ h) [
        | arrive found v1 e1 h1 ↦ elim (through (or_missing api d found v1) _ h1) [
          | arrive eni v2 e2 h2 ↦ elim (through (ensure_device api d eni v2) _ h2) [
            | arrive here v3 e3 h3 ↦ elim (through (ensure_devices api enis ds v3) _ h3) [
              | arrive rest v4 e4 h4 ↦ subst (Reports (d ∷ ds)) (grind arith) (
                  report_one d ds here rest (ensure_device-OneAtMost d eni v2 v3 here e3)
                    (ensure_devices-Reports enis ds v3 v4 rest e4))
            ]
          ]
        ]
      ]

-- When the devices are brought into use without an error, each has at most one status, and the
-- statuses have the ids of their devices and come in the devices' order.
pub ensure_eri_for_instance-Reports :
    {W : Type 0} (api : Ecs W) (ds : List DeviceInfo) (ss : List DeviceStatus) (w w' : W)
    → ensure_eri_for_instance api ds w ≡ done ss w'
    → Reports ds ss
unfolding ensure_eri_for_instance
ensure_eri_for_instance-Reports api ds ss w w' h =
    elim (through (api.describe_network_interfaces _ w) _ h) [
      | arrive answer v1 e1 h1 ↦ elim (through (lift (eni_with_id answer.enis "") v1) _ h1) [
        | arrive known v2 e2 h2 ↦ ensure_devices-Reports api answer.enis ds v2 w' ss h2
      ]
    ]

-- The device's interface is known, in use and in RDMA mode.
abbrev pub IsInUse : List Eni → DeviceInfo → Type 0
IsInUse enis d =
    (eni : Eni) × (eni_with_id enis d.id ≡ ok (some eni))
    × (eni.status ≡ some eni_status_in_use)
    × (eni.network_interface_traffic_mode ≡ some traffic_mode_rdma)

abbrev pub ready_status : DeviceInfo → DeviceStatus
ready_status d = record { id = d.id; status = device_status_ready; message = "" }

module _ {W : Type 0} (api : Ecs W) where
  ensure_device_steady :
      (d : DeviceInfo) (eni : Eni) (w : W)
      → eni.status ≡ some eni_status_in_use
      → eni.network_interface_traffic_mode ≡ some traffic_mode_rdma
      → ensure_device api d eni w ≡ done (ready_status d ∷ []) w
  unfolding ensure_device
  ensure_device_steady d eni w s m = grind (
    arith,
    in_use_not_available eni_status_in_use,
    eq_refl eni_status_in_use,
    eq_refl traffic_mode_rdma,
  )

  pub ensure_devices_steady :
      (enis : List Eni) (ds : List DeviceInfo) (w : W)
      → All (IsInUse enis) ds
      → ensure_devices api enis ds w ≡ done (map ready_status ds) w
  unfolding ensure_devices or_missing
  ensure_devices_steady enis [] w h = refl
  ensure_devices_steady enis (d ∷ ds) w ((eni, found, status, mode), h) =
      rw (found, ensure_devices, or_missing)
        (rw (ensure_device_steady d eni w status mode)
          (rw (ensure_devices_steady enis ds w h) refl))

-- When the listing succeeds, every interface that it gives has an id, and every device's interface
-- is in use in RDMA mode, the devices are reported as ready, and the
-- listing of their interfaces is the only call: the run ends in the world that the listing left.
pub ensure_eri_for_instance_steady :
    {W : Type 0} (api : Ecs W) (ds : List DeviceInfo) (answer : EnisAnswer) (w v : W)
    → api.describe_network_interfaces (by_ids (map (λ (d : DeviceInfo). d.id) ds)) w ≡ done answer v
    → ((known : Option Eni) × (eni_with_id answer.enis "" ≡ ok known))
    → All (IsInUse answer.enis) ds
    → ensure_eri_for_instance api ds w ≡ done (map ready_status ds) v
unfolding ensure_eri_for_instance
ensure_eri_for_instance_steady api ds answer w v q (known, k) h =
    rw (q, k) (ensure_devices_steady api answer.enis ds v h)
