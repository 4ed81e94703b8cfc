-- ===== src/Controller/Life/Examples.antt =====
-- A cluster that is its list of resources, with a cloud that has one interface for the node, for the
-- theorem on the reconcilers together.
use alibabacloud_erdma_contr.Prelude.{
  ◌≡◌, ◌∙◌, refl, ◌⊎◌, inl, inr, ℤ, pos, negsuc, str_eq, eq_iff, Bool, Bool-cases, true, false,
  none, some, List, [], ◌∷◌, ◌++◌, map, keep, sym, not, ◌&&◌, ◌==◌, All, arith, if◌then◌else◌,
}
use alibabacloud_erdma_contr.Exec.{Error, Run, Exec, remote, done, fail}
use alibabacloud_erdma_contr.Exec.Act.{world}
use alibabacloud_erdma_contr.Exec.Stays.{Stays}
use alibabacloud_erdma_contr.Types.{ERdmaDeviceSpec, ERdmaDevice, DeviceInfo, DeviceStatus}
use alibabacloud_erdma_contr.Ecs.{Ecs}
use alibabacloud_erdma_contr.Exec.Pure.{map_res}
use alibabacloud_erdma_contr.Eri.Client.{
  EriClient, own_eni, is_creator_tag, to_eri, jumbo_frame_from_attr,
}
use alibabacloud_erdma_contr.Eri.Select.{
  select_eri_from_exist, is_rdma, scan_rdma, pick_owned, has_card, allot, missing_cards,
  fill_card_zero, use_primary, cut_out, queue_budget,
}
use alibabacloud_erdma_contr.Eri.Create.{create_eri_for_instance, take_over, create_each}
use alibabacloud_erdma_contr.Eri.Choose.{
  select_eris, instance_id_from_node, second_of_two, first_id, first_instance, type_limits,
  card_count_of, queue_pair_count_of, select_within, ensure_eri_tags, tags_for,
  is_jumbo_frame_enabled,
}
use alibabacloud_erdma_contr.Eri.Ensure.{
  ensure_eri_for_instance, eni_with_id, ensure_devices, or_missing, ensure_device, in_use_rdma,
}
use alibabacloud_erdma_contr.Eri.Ensure.Laws.{ready_status}
use alibabacloud_erdma_contr.Controller.Watch.{is_node_ready, is_ready}
use alibabacloud_erdma_contr.Eri.Frame.{Spares}
use alibabacloud_erdma_contr.Eri.Examples.{instance_1}
use alibabacloud_erdma_contr.Kube.{Kube}
use alibabacloud_erdma_contr.Controller.Remove.Laws.{patch_stored, delete_named}
use alibabacloud_erdma_contr.Controller.Remove.Examples.{carries}
use alibabacloud_erdma_contr.Controller.Device.{
  is_settled, is_not_ready, configure, reconcile_device,
}
use alibabacloud_erdma_contr.Controller.Node.{reconcile_node, reconcile_live, serve_node, provision}
use alibabacloud_erdma_contr.Controller.Node.Examples.{node_1, config_1, type_1}
use alibabacloud_erdma_contr.Controller.Device.Examples.{answer_in, second_device}
use alibabacloud_erdma_contr.Controller.Life.{
  set_status, without_status, SameSpec, IsStore, Reach, here, next, of_node, of_device,
}
use alibabacloud_erdma_contr.Controller.Life.Settled.{IsReady, Reach-IsReady}

abbrev Stored : Type 0
Stored = List ERdmaDevice

abbrev same_bool : Bool → Bool → Bool
same_bool true b = b
same_bool false b = not b

abbrev same_int : ℤ → ℤ → Bool
same_int (pos m) (pos n) = m == n
same_int (negsuc m) (negsuc n) = m == n
same_int _ _ = false

abbrev same_device : DeviceInfo → DeviceInfo → Bool
same_device a b =
    str_eq a.instance_id b.instance_id
    && str_eq a.mac b.mac
    && same_bool a.is_primary_eni b.is_primary_eni
    && str_eq a.id b.id
    && same_int a.network_card_index b.network_card_index
    && same_int a.queue_pair b.queue_pair

abbrev same_devices : List DeviceInfo → List DeviceInfo → Bool
same_devices [] [] = true
same_devices (a ∷ l) (b ∷ m) = same_device a b && same_devices l m
same_devices _ _ = false

abbrev same_spec : ERdmaDeviceSpec → ERdmaDeviceSpec → Bool
same_spec a b = same_devices a.devices b.devices && same_bool a.jumbo_frame b.jumbo_frame

same_bool_eq : (a b : Bool) → same_bool a b ≡ true → a ≡ b
same_bool_eq true b h = sym h
same_bool_eq false true h = cc
same_bool_eq false false h = refl

same_int_eq : (a b : ℤ) → same_int a b ≡ true → a ≡ b
same_int_eq (pos m) (pos n) h = ground arith
same_int_eq (negsuc m) (negsuc n) h = ground arith
same_int_eq (pos m) (negsuc n) h = cc
same_int_eq (negsuc m) (pos n) h = cc

same_device_eq : (a b : DeviceInfo) → same_device a b ≡ true → a ≡ b
same_device_eq a b h = ground (
  arith,
  eq_iff a.instance_id b.instance_id,
  eq_iff a.mac b.mac,
  eq_iff a.id b.id,
  same_bool_eq a.is_primary_eni b.is_primary_eni,
  same_int_eq a.network_card_index b.network_card_index,
  same_int_eq a.queue_pair b.queue_pair,
)

same_devices_eq : (l m : List DeviceInfo) → same_devices l m ≡ true → l ≡ m
same_devices_eq [] [] h = refl
same_devices_eq [] (b ∷ m) h = cc
same_devices_eq (a ∷ l) [] h = cc
same_devices_eq (a ∷ l) (b ∷ m) h = ground (arith, same_device_eq a b, same_devices_eq l m)

same_spec_eq : (a b : ERdmaDeviceSpec) → same_spec a b ≡ true → a ≡ b
same_spec_eq a b h =
    ground (arith, same_devices_eq a.devices b.devices, same_bool_eq a.jumbo_frame b.jumbo_frame)

-- The update meets no other version.
abbrev unchanged : ERdmaDevice → Stored → Bool
unchanged d [] = true
unchanged d (e ∷ es) = same_spec e.spec d.spec && unchanged d es

both : (a b : Bool) → (a && b) ≡ true → (a ≡ true) × (b ≡ true)
both a b h = ground arith

unchanged-SameSpec : (d : ERdmaDevice) (es : Stored) → unchanged d es ≡ true → All (SameSpec d) es
unchanged-SameSpec d [] h = tt
unchanged-SameSpec d (e ∷ es) h =
    let (a, b) = both (same_spec e.spec d.spec) (unchanged d es) h in
    ((λ k. same_spec_eq e.spec d.spec a), unchanged-SameSpec d es b)

abbrev updated : ERdmaDevice → Exec Stored (Unit {0})
updated d w = if unchanged d w then done tt (map (set_status d) w) else fail (remote "conflict") w

abbrev found : Exec Stored ERdmaDevice
found [] = fail (Error.not_found "none") []
found (d ∷ ds) = done d (d ∷ ds)

abbrev server : Kube Stored
server = record {
  get_node = λ n w. done node_1 w;
  get_device = λ n. found;
  list_devices = λ q w. done (keep (carries q) w) w;
  create_device = λ d w. done tt (w ++ (without_status d ∷ []));
  create_or_patch = λ d f w. done tt (patch_stored d.name f w);
  delete_device = λ d w. done tt (delete_named 100 d.name w);
  update_status = updated;
  poll = λ m w. done tt w;
  seconds_now = λ w. 100;
  split_dots = λ s. "cn-hangzhou" ∷ "i-1" ∷ [];
}

abbrev cloud : Ecs Stored
cloud = record {
  describe_instances = λ q w. done (record { total_count = 1; instances = instance_1 ∷ [] }) w;
  describe_instance_types = λ t w. done (record type_1 { network_card_quantity = some 1 } ∷ []) w;
  describe_network_interfaces = λ q w. done (answer_in "InUse") w;
  create_network_interface = λ r w. fail (remote "no") w;
  modify_network_interface_attribute = λ r w. done tt w;
  attach_network_interface = λ r w. done tt w;
  tag_resources = λ r w. done tt w;
  describe_instance_attribute = λ i w. done (some true) w;
  error_text = λ e. "error";
}

abbrev client : EriClient
client = record { region_id = "cn-hangzhou"; managed_non_owned = true }

-- All of them keep the list.
idle {ℓ} :
    {A : Type ℓ} (s : Stored) (f : Stored → Run Stored A)
    → ((w : Stored) → world (f w) ≡ w)
    → Stays (λ w. w ≡ s) f
idle s f h = record { stays = λ w e. h w ∙ e }

cloud_idle : (s : Stored) → Spares (λ w. w ≡ s) cloud
cloud_idle s = record {
  instances = λ q. idle s _ (λ w. refl);
  types = λ q. idle s _ (λ w. refl);
  interfaces = λ q. idle s _ (λ w. refl);
  creates = λ q. idle s _ (λ w. refl);
  modifies = λ q. idle s _ (λ w. refl);
  attaches = λ q. idle s _ (λ w. refl);
  tags = λ q. idle s _ (λ w. refl);
  attributes = λ q. idle s _ (λ w. refl);
}

found_idle : (w : Stored) → world (found w) ≡ w
found_idle [] = refl
found_idle (d ∷ ds) = refl

updated_lem :
    (d : ERdmaDevice) (w : Stored)
    → (world (updated d w) ≡ w)
      ⊎ (All (SameSpec d) w × (world (updated d w) ≡ map (set_status d) w))
updated_lem d w = elim (Bool-cases (unchanged d w)) [
  | inl e ↦ inr (unchanged-SameSpec d w e, rw (e, world) refl)
  | inr e ↦ inl (rw (e, world) refl)
]

abbrev store_1 : IsStore server cloud
store_1 = record {
  store = λ w. w;
  cloud = cloud_idle;
  gets_node = λ s n. idle s _ (λ w. refl);
  gets = λ s n. idle s _ found_idle;
  lists = λ s q. idle s _ (λ w. refl);
  polls = λ s m h. idle s _ (λ w. refl);
  creates = λ d w. inr refl;
  patches = λ d f w. inr (inl refl);
  deletes = λ d w. inr refl;
  updates = updated_lem;
}

abbrev resource_1 : List DeviceStatus → ERdmaDevice
resource_1 statuses = record {
  name = "node-1";
  owner_uid = some "uid-1";
  labels = ("alibabacloud.com/instance-id", "i-1") ∷ ("alibabacloud.com/nodename", "node-1") ∷ [];
  finalizers = [];
  deletion_timestamp = none;
  spec = record { devices = second_device ∷ []; jumbo_frame = true };
  status = statuses;
}

step_1 : world (reconcile_node server cloud client config_1 [] "node-1" []) ≡ resource_1 [] ∷ []
unfolding reconcile_node reconcile_live is_node_ready is_ready serve_node instance_id_from_node
    second_of_two first_id first_instance provision select_eris type_limits card_count_of
    queue_pair_count_of select_within ensure_eri_tags tags_for select_eri_from_exist scan_rdma
    is_rdma map_res to_eri pick_owned own_eni has_card allot missing_cards fill_card_zero
    use_primary cut_out queue_budget is_creator_tag create_eri_for_instance take_over create_each
    is_jumbo_frame_enabled jumbo_frame_from_attr
step_1 = refl

step_2 :
    world (reconcile_device server cloud "node-1" (resource_1 [] ∷ []))
    ≡ resource_1 (ready_status second_device ∷ []) ∷ []
unfolding reconcile_device is_settled configure ensure_eri_for_instance eni_with_id ensure_devices
    or_missing ensure_device in_use_rdma is_not_ready
step_2 = refl

reached :
    Reach server cloud client config_1 store_1 []
      (resource_1 (ready_status second_device ∷ []) ∷ [])
reached = next (next here (of_node [] "node-1" step_1)) (of_device "node-1" step_2)

Reach-IsReady_example :
    All (λ d. is_settled d ≡ true → IsReady d) (resource_1 (ready_status second_device ∷ []) ∷ [])
Reach-IsReady_example =
    Reach-IsReady server cloud client config_1 store_1 []
      (resource_1 (ready_status second_device ∷ []) ∷ []) tt reached
