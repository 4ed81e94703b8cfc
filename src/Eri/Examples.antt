-- ===== src/Eri/Examples.antt =====
-- A node with a primary interface, one RDMA interface on card 1 and a cloud that counts its calls,
-- for the theorems on internal/controller/eri.go.
use alibabacloud_erdma_contr.Prelude.{
  ℕ, ◌+◌, ◌-◌, ◌*◌, ◌≤◌, ◌<◌, ◌≡◌, ◌≢◌, ◌⊎◌, refl, String, pos, true, false, none, some, List, [],
  ◌∷◌, ◌++◌, length, any, keep, All, arith,
}
use alibabacloud_erdma_contr.Exec.{Res, ok, done}
use alibabacloud_erdma_contr.Types.{Eri, DeviceInfo}
use alibabacloud_erdma_contr.Ecs.{Ecs, Eni, Instance, EnisAnswer, by_instance}
use alibabacloud_erdma_contr.Eri.Client.{EriClient, own_eni, is_creator_tag, to_eri}
use alibabacloud_erdma_contr.Eri.Select.{
  Selection, Picked, select_eri_from_exist, is_rdma, scan_rdma, pick_owned, has_card, allot,
  missing_cards, fill_card_zero, use_primary, cut_out, queue_budget,
}
use alibabacloud_erdma_contr.Exec.Pure.{map_res}
use alibabacloud_erdma_contr.Eri.Select.CardMap.{owned_on, contains}
use alibabacloud_erdma_contr.Eri.Select.Laws.{
  select-within_budget, select-need_free, select_covers_cards, owned_picks, pairs_left,
}
use alibabacloud_erdma_contr.Eri.Select.Panics.{select_safe, HasFields, primaries}
use alibabacloud_erdma_contr.Eri.Create.{create_eri_for_instance, take_over, create_each}
use alibabacloud_erdma_contr.Eri.Choose.{select_within, ensure_eri_tags}
use alibabacloud_erdma_contr.Eri.Choose.Laws.{IsChoice, select_within-IsChoice}
use alibabacloud_erdma_contr.Eri.Choose.Repeat.{select_within_repeats}
use alibabacloud_erdma_contr.Eri.Ensure.{
  ensure_eri_for_instance, eni_with_id, or_missing, ensure_device,
}
use alibabacloud_erdma_contr.Eri.Ensure.Laws.{
  Reports, ready_status, ensure_eri_for_instance-Reports,
}

abbrev pub client : EriClient
client = record { region_id = "cn-hangzhou"; managed_non_owned = false }

abbrev primary : Eni
primary = record {
  network_interface_id = some "eni-1";
  mac_address = some "00:16:3e:00:00:01";
  type = some "Primary";
  status = some "InUse";
  network_interface_traffic_mode = some "Standard";
  queue_pair_number = none;
  instance_id = some "i-1";
  attachment = none;
  tags = none;
}

abbrev rdma_eni : Eni
rdma_eni = record {
  network_interface_id = some "eni-2";
  mac_address = some "00:16:3e:00:00:02";
  type = some "Secondary";
  status = some "InUse";
  network_interface_traffic_mode = some "HighPerformance";
  queue_pair_number = some 8;
  instance_id = some "i-1";
  attachment = some (some 1);
  tags =
      some (
        record { tag_key = some "creator"; tag_value = some "alibabacloud-erdma-controller" } ∷ []);
}

abbrev node_enis : List Eni
node_enis = primary ∷ rdma_eni ∷ []

abbrev eri_2 : Eri
eri_2 = record {
  id = "eni-2";
  is_primary_eni = false;
  mac = "00:16:3e:00:00:02";
  instance_id = "i-1";
  card_index = pos 1;
  queue_pair = pos 8;
  jumbo_frame = false;
  jumbo_frame_mtu = pos 0;
}

abbrev eri_1 : Eri
eri_1 = record {
  id = "eni-1";
  is_primary_eni = true;
  mac = "00:16:3e:00:00:01";
  instance_id = "i-1";
  card_index = pos 0;
  queue_pair = pos 12;
  jumbo_frame = false;
  jumbo_frame_mtu = pos 0;
}

abbrev selection : Selection
selection = record { eris = eri_2 ∷ eri_1 ∷ []; need = 2 ∷ []; quota = 12 }

selection_runs : select_eri_from_exist client node_enis (pos 32) 3 ≡ ok selection
unfolding select_eri_from_exist scan_rdma is_rdma map_res to_eri pick_owned own_eni has_card allot
    missing_cards fill_card_zero use_primary cut_out queue_budget is_creator_tag
selection_runs = refl

select-within_budget_example :
    (picked : Picked) × (owned_picks client node_enis ≡ ok picked)
    × (12 * (length {A = ℕ} (2 ∷ []) + length (eri_2 ∷ eri_1 ∷ []) - length picked.selected)
        ≤ pairs_left (pos 32) node_enis)
select-within_budget_example =
    select-within_budget client node_enis (pos 32) 3 selection selection_runs

select-need_free_example :
    All (λ i. (i < 3) × (owned_on client (keep is_rdma node_enis) i ≡ false)) (2 ∷ [])
select-need_free_example = select-need_free client node_enis (pos 32) 3 selection selection_runs

select_covers_cards_example :
    (owned_on client (keep is_rdma node_enis) 0 ≡ true)
    ⊎ ((contains (2 ∷ []) 0 ≡ true)
        ⊎ ((◌≡◌ {A = ℕ} 0 0) × (any (λ (e : Eri). e.is_primary_eni) (eri_2 ∷ eri_1 ∷ []) ≡ true)))
select_covers_cards_example =
    select_covers_cards client node_enis (pos 32) 3 selection 0 selection_runs (omega arith)
      (omega arith)

node_fields : All HasFields node_enis
unfolding is_rdma
node_fields = (
  ((("eni-1", refl), ("Primary", refl), ("00:16:3e:00:00:01", refl)), λ no. cc),
  (((("eni-2", refl), ("Secondary", refl), ("00:16:3e:00:00:02", refl)), λ yes. (8, refl)), tt),
)

one_primary : primaries node_enis ≤ 1
unfolding primaries
one_primary = omega arith

select_safe_example : select_eri_from_exist client node_enis (pos 32) 3 ≢ Res.panic
select_safe_example = select_safe client node_enis (pos 32) 3 node_fields one_primary

-- The world is the list of the calls, the newest first.
abbrev pub cloud : Ecs (List String)
cloud = record {
  describe_instances = λ q w. done (record { total_count = 0; instances = [] }) ("instances" ∷ w);
  describe_instance_types = λ t w. done [] ("types" ∷ w);
  describe_network_interfaces =
      λ q w. done (record { status_code = 200; enis = rdma_eni ∷ [] }) ("list" ∷ w);
  create_network_interface = λ r w.
      done (record { network_interface_id = some "eni-3"; mac_address = some "00:16:3e:00:00:03" })
        ("create" ∷ w);
  modify_network_interface_attribute = λ r w. done tt ("modify" ∷ w);
  attach_network_interface = λ r w. done tt ("attach" ∷ w);
  tag_resources = λ r w. done tt ("tag" ∷ w);
  describe_instance_attribute = λ i w. done (some false) w;
  error_text = λ e. "error";
}

abbrev pub instance_1 : Instance
instance_1 = record {
  instance_id = some "i-1";
  instance_type = some "ecs.g8ae";
  security_group_ids = "sg-1" ∷ [];
  v_switch_id = some "vsw-1";
}

abbrev created : Eri
created = record {
  id = "eni-3";
  is_primary_eni = false;
  mac = "00:16:3e:00:00:03";
  instance_id = "i-1";
  card_index = pos 3;
  queue_pair = pos 0;
  jumbo_frame = false;
  jumbo_frame_mtu = pos 0;
}

abbrev device_2 : DeviceInfo
device_2 = record {
  instance_id = "i-1";
  mac = "00:16:3e:00:00:02";
  is_primary_eni = false;
  id = "eni-2";
  network_card_index = pos 1;
  queue_pair = pos 8;
}

ensure_one :
    ensure_eri_for_instance cloud (device_2 ∷ []) []
    ≡ done (ready_status device_2 ∷ []) ("list" ∷ [])
unfolding ensure_eri_for_instance eni_with_id or_missing ensure_device
ensure_one = refl

ensure_eri_for_instance-Reports_example : Reports (device_2 ∷ []) (ready_status device_2 ∷ [])
ensure_eri_for_instance-Reports_example =
    ensure_eri_for_instance-Reports cloud (device_2 ∷ []) (ready_status device_2 ∷ []) []
      ("list" ∷ []) ensure_one

-- The cloud lists the one interface of the node under the controller's tags, too.
abbrev again : Eri
again = record eri_2 { card_index = pos 0 }

abbrev third : Eri
third = record created { card_index = pos 2 }

abbrev partial : Selection
partial = record { eris = eri_2 ∷ []; need = 0 ∷ 2 ∷ []; quota = 12 }

abbrev listing : EnisAnswer
listing = record { status_code = 200; enis = rdma_eni ∷ [] }

partial_selects : select_eri_from_exist client (rdma_eni ∷ []) (pos 32) 3 ≡ ok partial
unfolding select_eri_from_exist scan_rdma is_rdma map_res to_eri pick_owned own_eni has_card allot
    missing_cards fill_card_zero use_primary cut_out queue_budget is_creator_tag
partial_selects = refl

node_chosen :
    select_within cloud client instance_1 "i-1" (3, pos 32) []
    ≡ done (eri_2 ∷ again ∷ third ∷ []) ("tag" ∷ "create" ∷ "list" ∷ "list" ∷ [])
unfolding select_within ensure_eri_tags select_eri_from_exist scan_rdma is_rdma map_res to_eri
    pick_owned own_eni has_card allot missing_cards fill_card_zero use_primary cut_out queue_budget
    is_creator_tag create_eri_for_instance take_over create_each
node_chosen = refl

select_within-IsChoice_example :
    (answer : EnisAnswer) × (v : List String) × (cloud.describe_network_interfaces
        (by_instance "i-1")
        []
      ≡ done answer v)
    × IsChoice client instance_1 3 (pos 32) answer (eri_2 ∷ again ∷ third ∷ [])
select_within-IsChoice_example =
    select_within-IsChoice cloud client instance_1 "i-1" (3, pos 32) []
      ("tag" ∷ "create" ∷ "list" ∷ "list" ∷ []) (eri_2 ∷ again ∷ third ∷ []) node_chosen

select_within_repeats_example :
    (y : Eri) × (rest : List Eri) × (eri_2 ∷ again ∷ third ∷ []
      ≡ ([] ++ (eri_2 ∷ [])) ++ (y ∷ rest))
    × (y.id ≡ "eni-2")
select_within_repeats_example =
    select_within_repeats cloud instance_1 client "i-1" (3, pos 32) listing listing partial 0
      (2 ∷ []) rdma_eni [] eri_2 [] [] [] ("list" ∷ []) ("list" ∷ "list" ∷ [])
      ("tag" ∷ "create" ∷ "list" ∷ "list" ∷ []) (eri_2 ∷ again ∷ third ∷ []) refl partial_selects
      refl refl refl refl refl node_chosen
