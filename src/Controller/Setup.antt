-- ===== src/Controller/Setup.antt =====
-- SetupWithManager of the two reconcilers: the controllers that they register, and which events of
-- nodes reach the reconciler of nodes.
use alibabacloud_erdma_contr.Prelude.{String, Bool, Option, List}
use alibabacloud_erdma_contr.Exec.{Exec}
use alibabacloud_erdma_contr.Exec.Act.{◌>>◌}
use alibabacloud_erdma_contr.Kube.{Node}
use alibabacloud_erdma_contr.Controller.Watch.{own_node, predict_node_update}

-- An event of the watch on nodes; a node may be nil but in an update.
pub data NodeEvent : Type 0 where
  created : Option Node → NodeEvent
  deleted : Option Node → NodeEvent
  updated : Node → Node → NodeEvent
  generic : Option Node → NodeEvent

unfoldable pub node_event_passes : List (String × String) → NodeEvent → Bool
unfolding own_node predict_node_update
node_event_passes selector (created node) = own_node selector node
node_event_passes selector (deleted node) = own_node selector node
node_event_passes selector (updated old new) = predict_node_update selector old new
node_event_passes selector (generic node) = own_node selector node

-- The calls of controller-runtime that register a controller, by its name or by what it is for.
pub record Registry (W : Type 0) : Type 0 where
  pub controller_for : String → Exec W (Unit {0})
  pub new_controller : String → Exec W (Unit {0})
  pub watch_nodes : (NodeEvent → Bool) → Exec W (Unit {0})

module _ {W : Type 0} (registry : Registry W) where
  unfoldable pub set_up_devices : Exec W (Unit {0})
  set_up_devices = registry.controller_for "ERdmaDevice"

  unfoldable pub set_up_nodes : List (String × String) → Exec W (Unit {0})
  unfolding node_event_passes
  set_up_nodes selector = do
    registry.new_controller "node-controller"
    registry.watch_nodes (node_event_passes selector)
