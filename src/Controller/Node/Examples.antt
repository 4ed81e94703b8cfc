-- ===== src/Controller/Node/Examples.antt =====
-- A ready node whose instance has three network cards and one interface, and a cluster without a
-- resource for it, for the theorem on Reconcile.
use alibabacloud_erdma_contr.Prelude.{
  ◌≡◌, refl, ◌⊎◌, String, pos, true, false, none, some, List, [], ◌∷◌,
}
use alibabacloud_erdma_contr.Exec.{done, fail, Error}
use alibabacloud_erdma_contr.Exec.Pure.{map_res}
use alibabacloud_erdma_contr.Eri.Client.{own_eni, is_creator_tag, to_eri, jumbo_frame_from_attr}
use alibabacloud_erdma_contr.Eri.Select.{
  select_eri_from_exist, is_rdma, scan_rdma, pick_owned, has_card, allot, missing_cards,
  fill_card_zero, use_primary, cut_out, queue_budget,
}
use alibabacloud_erdma_contr.Eri.Create.{create_eri_for_instance, take_over, create_each}
use alibabacloud_erdma_contr.Types.{Config}
use alibabacloud_erdma_contr.Ecs.{Ecs, InstanceType}
use alibabacloud_erdma_contr.Kube.{Kube, Node, NodeCondition}
use alibabacloud_erdma_contr.Eri.Choose.{
  select_eris, instance_id_from_node, second_of_two, first_id, first_instance, type_limits,
  card_count_of, queue_pair_count_of, select_within, ensure_eri_tags, is_jumbo_frame_enabled,
}
use alibabacloud_erdma_contr.Eri.Examples.{client, cloud, instance_1}
use alibabacloud_erdma_contr.Controller.Remove.{Outcome, settled}
use alibabacloud_erdma_contr.Controller.Watch.{is_node_ready, is_ready}
use alibabacloud_erdma_contr.Controller.Node.{reconcile_node, reconcile_live, serve_node, provision}
use alibabacloud_erdma_contr.Controller.Node.Laws.{Stored, reconcile_node_first}

abbrev pub type_1 : InstanceType
type_1 = record {
  instance_type_id = some "ecs.g8ae";
  eri_quantity = some 3;
  network_card_quantity = some 3;
  queue_pair_number = some 32;
  gpu_amount = none;
}

-- The world is the list of the calls, the newest first.
abbrev region_cloud : Ecs (List String)
region_cloud = record cloud {
  describe_instances =
      λ q w. done (record { total_count = 1; instances = instance_1 ∷ [] }) ("instances" ∷ w);
  describe_instance_types = λ t w. done (type_1 ∷ []) ("types" ∷ w);
}

abbrev ready : NodeCondition
ready = record { type = "Ready"; status = "True" }

abbrev pub node_1 : Node
node_1 = record {
  name = "node-1";
  uid = "uid-1";
  labels = [];
  provider_id = "cn-hangzhou.i-1";
  creation_timestamp = 0;
  deletion_timestamp = none;
  conditions = ready ∷ [];
  addresses = [];
}

abbrev cluster : Kube (List String)
cluster = record {
  get_node = λ n w. done node_1 w;
  get_device = λ n w. fail (Error.not_found "none") w;
  list_devices = λ l w. done [] w;
  create_device = λ d w. done tt ("store" ∷ w);
  create_or_patch = λ d f w. done tt w;
  delete_device = λ d w. done tt w;
  update_status = λ d w. done tt w;
  poll = λ m w. done tt w;
  seconds_now = λ w. 100;
  split_dots = λ s. "cn-hangzhou" ∷ "i-1" ∷ [];
}

abbrev pub config_1 : Config
config_1 = record {
  region = "cn-hangzhou";
  manage_non_owned_eris = false;
  controller_namespace = "";
  controller_name = "";
  cluster_domain = "";
  cert_dir = "";
  enable_device_plugin = some true;
  enable_webhook = some true;
  smc_init_image = "";
  enable_init_container_inject = some true;
  node_selector = [];
  wait_node_ready_timeout_seconds = pos 300;
}

is_ready_1 : is_node_ready node_1 ≡ true
unfolding is_node_ready is_ready
is_ready_1 = refl

abbrev calls : List String
calls = "store" ∷ "tag" ∷ "create" ∷ "list" ∷ "list" ∷ "types" ∷ "instances" ∷ "instances" ∷ []

instance_known :
    instance_id_from_node region_cloud (cluster.split_dots node_1.provider_id) node_1.addresses []
    ≡ done "i-1" ("instances" ∷ [])
unfolding instance_id_from_node second_of_two first_id first_instance
instance_known = refl

reconciled :
    reconcile_node cluster region_cloud client config_1 [] "node-1" [] ≡ done (settled, []) calls
unfolding reconcile_node reconcile_live is_node_ready is_ready serve_node instance_id_from_node
    second_of_two first_id first_instance provision select_eris type_limits card_count_of
    queue_pair_count_of select_within ensure_eri_tags select_eri_from_exist scan_rdma is_rdma
    map_res to_eri pick_owned own_eni has_card allot missing_cards fill_card_zero use_primary
    cut_out queue_budget is_creator_tag create_eri_for_instance take_over create_each
    is_jumbo_frame_enabled jumbo_frame_from_attr
reconciled = refl

reconcile_node_first_example :
    (◌≡◌ {A = Outcome × List String} (settled, []) (settled, []))
    × ((select_eris region_cloud client "i-1" ("instances" ∷ []) ≡ done none calls)
        ⊎ Stored cluster region_cloud client config_1 node_1 "i-1" ("instances" ∷ []))
reconcile_node_first_example =
    reconcile_node_first cluster region_cloud client config_1 [] "node-1" "i-1" node_1 [] []
      ("instances" ∷ []) ("instances" ∷ []) calls (settled, []) refl refl is_ready_1 instance_known
      refl reconciled
