-- ===== src/Controller/Node.antt =====
-- NodeReconciler.Reconcile of node_controller.go.
pub mod Laws
pub mod Examples
use alibabacloud_erdma_contr.Prelude.{
  ℕ, ◌+◌, String, ℤ, pos, negsuc, Bool, true, false, none, some, List, [], ◌∷◌, map, is_empty, ltb,
  if◌then◌else◌,
}
use alibabacloud_erdma_contr.Exec.{Exec}
use alibabacloud_erdma_contr.Exec.Act.{◌>>=◌, ◌>>◌, pure, raise, handle}
use alibabacloud_erdma_contr.Types.{Eri, ERdmaDevice, DeviceInfo, Config}
use alibabacloud_erdma_contr.Ecs.{Ecs}
use alibabacloud_erdma_contr.Kube.{Kube, Node}
use alibabacloud_erdma_contr.Eri.Client.{EriClient}
use alibabacloud_erdma_contr.Eri.Choose.{instance_id_from_node, select_eris, is_jumbo_frame_enabled}
use alibabacloud_erdma_contr.Controller.Remove.{Outcome, settled, remove_erdma_devices}
use alibabacloud_erdma_contr.Controller.Device.{is_not_found}
use alibabacloud_erdma_contr.Controller.Watch.{is_node_ready}
use alibabacloud_erdma_contr.Controller.Backfill.{backfill_eri_tags}

unfoldable pub device_info : Eri → DeviceInfo
device_info e = record {
  instance_id = e.instance_id;
  mac = e.mac;
  is_primary_eni = e.is_primary_eni;
  id = e.id;
  network_card_index = e.card_index;
  queue_pair = e.queue_pair;
}

unfoldable pub device_for : Node → String → Bool → List Eri → ERdmaDevice
unfolding device_info
device_for node instance_id jumbo eris = record {
  name = node.name;
  owner_uid = some node.uid;
  labels =
      ("alibabacloud.com/instance-id", instance_id) ∷ ("alibabacloud.com/nodename", node.name) ∷ [];
  finalizers = [];
  deletion_timestamp = none;
  spec = record { devices = map device_info eris; jumbo_frame = jumbo };
  status = [];
}

-- now - created < timeout, for a timeout in seconds that may be negative.
unfoldable pub within_timeout : ℕ → ℕ → ℤ → Bool
within_timeout now created (pos timeout) = ltb now (created + timeout)
within_timeout now created (negsuc n) = ltb (now + n + 1) created

module _ {W : Type 0} (kube : Kube W) (ecs : Ecs W) (c : EriClient) (config : Config) where
  -- The branch of a node that has no resource yet.
  unfoldable pub provision : Node → String → Exec W Outcome
  unfolding device_for
  provision node instance_id = do
    chosen ← select_eris ecs c instance_id
    elim chosen [
      | none ↦ pure settled
      | some eris ↦ (do
        jumbo ← handle (is_jumbo_frame_enabled ecs instance_id) pure (λ e. pure false)
        kube.create_device (device_for node instance_id jumbo eris)
        handle (kube.poll (handle (kube.get_device node.name) (λ d. pure true) (λ e. pure false)))
            (λ x. pure settled) (λ e. pure settled))
    ]

  -- The outcome, with taggedENIs afterwards.
  unfoldable pub serve_node : List String → Node → Exec W (Outcome × List String)
  unfolding provision backfill_eri_tags
  serve_node tagged node = do
    instance_id ← instance_id_from_node ecs (kube.split_dots node.provider_id) node.addresses
    devices ← kube.list_devices ("alibabacloud.com/instance-id", instance_id)
    if is_empty devices
        then (do outcome ← provision node instance_id; pure (outcome, tagged))
        else (do
          after_tags ← backfill_eri_tags ecs tagged devices instance_id
          pure (settled, after_tags))

  unfoldable pub remove_node : List String → String → Exec W (Outcome × List String)
  remove_node tagged name = do outcome ← remove_erdma_devices kube name; pure (outcome, tagged)

  unfoldable pub reconcile_live : List String → Node → Exec W (Outcome × List String)
  unfolding serve_node within_timeout
  reconcile_live tagged node w =
      if is_node_ready node
      then serve_node tagged node w
      else if within_timeout (kube.seconds_now w) node.creation_timestamp
          config.wait_node_ready_timeout_seconds
      then pure (record { requeue = false; requeue_after = 30 }, tagged) w
      else serve_node tagged node w

  -- Where this fails, taggedENIs is as before.
  unfoldable pub reconcile_node : List String → String → Exec W (Outcome × List String)
  unfolding remove_node reconcile_live
  reconcile_node tagged name =
      handle (kube.get_node name)
        (λ node. elim node.deletion_timestamp [
          | some t ↦ remove_node tagged name
          | none ↦ reconcile_live tagged node
        ])
        (λ e. if is_not_found e then remove_node tagged name else raise e)
