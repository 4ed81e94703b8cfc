-- ===== src/Controller/Life/Settled.antt =====
-- A resource that the reconciler of resources leaves alone is ready as a whole.
use alibabacloud_erdma_contr.Prelude.{
  ◌≤◌, ◌≡◌, refl, sym, subst, String, eq_iff, true, false, List, [], ◌∷◌, map, any, length, All,
  All-map, arith,
}
use alibabacloud_erdma_contr.Types.{
  ERdmaDevice, Config, DeviceInfo, DeviceStatus, device_status_ready,
}
use alibabacloud_erdma_contr.Ecs.{Ecs}
use alibabacloud_erdma_contr.Kube.{Kube}
use alibabacloud_erdma_contr.Eri.Client.{EriClient}
use alibabacloud_erdma_contr.Eri.Ensure.Laws.{Reports, nothing, silent, reported}
use alibabacloud_erdma_contr.Controller.Device.{is_not_ready, is_settled}
use alibabacloud_erdma_contr.Controller.Life.{
  IsStore, Step, of_node, of_device, deletion, elsewhere, Reach, here, next,
}
use alibabacloud_erdma_contr.Controller.Life.Frame.{
  IsReported, Reports-none, AllReported, delete_named-IsReported, reconcile_device-Stays,
  reconcile_node-Stays,
}

abbrev ids_of : List DeviceInfo → List String
ids_of ds = map (λ (d : DeviceInfo). d.id) ds

-- The statuses are one for each device, in order and with its id, and all are Ready.
pub record IsReady (d : ERdmaDevice) : Type 0 where
  pub each :
      map (λ (s : DeviceStatus). s.id) d.status ≡ map (λ (i : DeviceInfo). i.id) d.spec.devices
  pub ready : All (λ (s : DeviceStatus). s.status ≡ device_status_ready) d.status

length-Reports :
    {ds : List DeviceInfo} {ss : List DeviceStatus} → Reports ds ss → length ss ≤ length ds
length-Reports nothing = omega arith
length-Reports (silent d r) = omega (arith, length-Reports r)
length-Reports (reported d s i r) = omega (arith, length-Reports r)

Reports-ids :
    {ds : List DeviceInfo} {ss : List DeviceStatus}
    → Reports ds ss
    → length ds ≡ length ss
    → map (λ (s : DeviceStatus). s.id) ss ≡ ids_of ds
Reports-ids nothing h = refl
Reports-ids (silent d r) h = absurd (omega (arith, length-Reports r))
Reports-ids (reported d s i r) h = grind (arith, i, Reports-ids r)

all_ready :
    (ss : List DeviceStatus)
    → any is_not_ready ss ≡ false
    → All (λ (s : DeviceStatus). s.status ≡ device_status_ready) ss
unfolding is_not_ready
all_ready [] h = tt
all_ready (s ∷ ss) h = ground (arith, eq_iff s.status device_status_ready, all_ready ss)

IsReported-IsReady : (d : ERdmaDevice) → IsReported d → is_settled d ≡ true → IsReady d
unfolding is_settled
IsReported-IsReady d r h = record {
  each = Reports-ids r (ground arith);
  ready = all_ready d.status (ground arith);
}

module _ {W : Type 0} (kube : Kube W) (ecs : Ecs W) (c : EriClient) (config : Config)
    (server : IsStore kube ecs) where
  Step-AllReported :
      {w v : W}
      → Step kube ecs c config server w v
      → AllReported kube ecs server w
      → AllReported kube ecs server v
  Step-AllReported {w} (of_node tagged name e) i =
      subst (AllReported kube ecs server) e
        ((reconcile_node-Stays kube ecs server c config tagged name).stays w i)
  Step-AllReported {w} (of_device name e) i =
      subst (AllReported kube ecs server) e
        ((reconcile_device-Stays kube ecs server name).stays w i)
  Step-AllReported {w} (deletion now name e) i =
      subst (All IsReported) (sym e) (delete_named-IsReported now name (server.store w) i)
  Step-AllReported (elsewhere e) i = subst (All IsReported) (sym e) i

  Reach-AllReported :
      {s w : W}
      → AllReported kube ecs server s
      → Reach kube ecs c config server s w
      → AllReported kube ecs server w
  Reach-AllReported h here = h
  Reach-AllReported h (next r st) = Step-AllReported st (Reach-AllReported h r)

  -- However the reconciliations of nodes and resources, whatever their calls answer, deletions and
  -- other changes follow each other, from a store in which no resource has a status: every
  -- resource that Reconcile takes for settled has a status Ready for each of its devices, in their
  -- order.
  pub Reach-IsReady :
      (s w : W)
      → All (λ (d : ERdmaDevice). d.status ≡ []) (server.store s)
      → Reach kube ecs c config server s w
      → All (λ d. is_settled d ≡ true → IsReady d) (server.store w)
  Reach-IsReady s w h r = All-map _ _ (server.store w) IsReported-IsReady (
      Reach-AllReported (All-map _ _ (server.store s) (λ d e. rw e (Reports-none d.spec.devices)) h)
        r)
