-- ===== src/Controller/Device/Examples.antt =====
-- A resource with one interface that is being attached, and the same one in use, for the theorems
-- on internal/controller/erdmadevice_controller.go. The world is the stored statuses.
use alibabacloud_erdma_contr.Prelude.{◌≡◌, refl, String, pos, false, none, some, List, [], ◌∷◌}
use alibabacloud_erdma_contr.Exec.{ok, remote, done, fail}
use alibabacloud_erdma_contr.Types.{DeviceInfo, DeviceStatus, ERdmaDevice}
use alibabacloud_erdma_contr.Ecs.{Ecs, Eni, EnisAnswer}
use alibabacloud_erdma_contr.Kube.{Kube}
use alibabacloud_erdma_contr.Eri.Ensure.{eni_with_id}
use alibabacloud_erdma_contr.Eri.Ensure.Laws.{ready_status}
use alibabacloud_erdma_contr.Controller.Remove.{settled}
use alibabacloud_erdma_contr.Controller.Device.{is_settled, reconcile_device}
use alibabacloud_erdma_contr.Controller.Device.Laws.{
  IsIdle, reconcile_device_idle, reconcile_device_ready,
}

abbrev Stored : Type 0
Stored = List DeviceStatus

abbrev eni_in : String → Eni
eni_in status = record {
  network_interface_id = some "eni-2";
  mac_address = some "00:16:3e:00:00:02";
  type = some "Secondary";
  status = some status;
  network_interface_traffic_mode = some "HighPerformance";
  queue_pair_number = some 8;
  instance_id = some "i-1";
  attachment = none;
  tags = none;
}

abbrev pub answer_in : String → EnisAnswer
answer_in status = record { status_code = 200; enis = eni_in status ∷ [] }

abbrev lister : String → Ecs Stored
lister status = record {
  describe_instances = λ q w. fail (remote "no") w;
  describe_instance_types = λ t w. fail (remote "no") w;
  describe_network_interfaces = λ q w. done (answer_in status) w;
  create_network_interface = λ r w. fail (remote "no") w;
  modify_network_interface_attribute = λ r w. fail (remote "no") w;
  attach_network_interface = λ r w. fail (remote "no") w;
  tag_resources = λ r w. fail (remote "no") w;
  describe_instance_attribute = λ i w. fail (remote "no") w;
  error_text = λ e. "error";
}

abbrev pub second_device : DeviceInfo
second_device = record {
  instance_id = "i-1";
  mac = "00:16:3e:00:00:02";
  is_primary_eni = false;
  id = "eni-2";
  network_card_index = pos 0;
  queue_pair = pos 8;
}

abbrev resource : ERdmaDevice
resource = record {
  name = "node-1";
  owner_uid = none;
  labels = [];
  finalizers = [];
  deletion_timestamp = none;
  spec = record { devices = second_device ∷ []; jumbo_frame = false };
  status = [];
}

abbrev cluster : Kube Stored
cluster = record {
  get_node = λ n w. fail (remote "no") w;
  get_device = λ n w. done (record resource { status = w }) w;
  list_devices = λ l w. done [] w;
  create_device = λ d w. done tt w;
  create_or_patch = λ d f w. done tt w;
  delete_device = λ d w. done tt w;
  update_status = λ d w. done tt d.status;
  poll = λ c w. done tt w;
  seconds_now = λ w. 0;
  split_dots = λ s. s ∷ [];
}

not_settled : is_settled resource ≡ false
unfolding is_settled
not_settled = refl

no_blank_id : (status : String) → eni_with_id (eni_in status ∷ []) "" ≡ ok none
unfolding eni_with_id
no_blank_id status = refl

listed_as : (status : String) → eni_with_id (eni_in status ∷ []) "eni-2" ≡ ok (some (eni_in status))
unfolding eni_with_id
listed_as status = refl

attaching-IsIdle : IsIdle (eni_in "Attaching" ∷ []) second_device
attaching-IsIdle = record {
  eni = eni_in "Attaching";
  status = "Attaching";
  known = listed_as "Attaching";
  has_status = refl;
  not_in_use = refl;
  not_available = refl;
}

reconcile_device_idle_example :
    reconcile_device cluster (lister "Attaching") "node-1" [] ≡ done settled []
reconcile_device_idle_example =
    reconcile_device_idle cluster (lister "Attaching") "node-1" resource (answer_in "Attaching")
      none [] [] [] [] refl refl not_settled refl (no_blank_id "Attaching") (attaching-IsIdle, tt)
      refl

reconcile_device_ready_example :
    reconcile_device cluster (lister "InUse") "node-1" []
    ≡ done settled (ready_status second_device ∷ [])
reconcile_device_ready_example =
    reconcile_device_ready cluster (lister "InUse") "node-1" resource (answer_in "InUse") none [] []
      [] (ready_status second_device ∷ []) refl refl not_settled refl (no_blank_id "InUse")
      ((eni_in "InUse", listed_as "InUse", refl, refl), tt) refl
