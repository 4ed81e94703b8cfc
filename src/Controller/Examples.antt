-- ===== src/Controller/Examples.antt =====
-- Two devices, one of them tagged before, and a cloud that lets or does not let tag them, for the
-- theorems on internal/controller/node_controller.go.
use alibabacloud_erdma_contr.Prelude.{
  ℕ, suc, ◌≡◌, refl, String, pos, Bool, true, false, not, ◌&&◌, ◌||◌, none, List, [], ◌∷◌, str_eq,
  if◌then◌else◌,
}
use alibabacloud_erdma_contr.Exec.{Error, remote, done, fail}
use alibabacloud_erdma_contr.Types.{DeviceInfo, ERdmaDevice}
use alibabacloud_erdma_contr.Ecs.{Ecs}
use alibabacloud_erdma_contr.Eri.Choose.{ensure_eri_tags}
use alibabacloud_erdma_contr.Controller.Backfill.{member, device_ids, claim_new, backfill_eri_tags}
use alibabacloud_erdma_contr.Controller.Backfill.Laws.{backfill_once, backfill_rollback}

-- The world counts the calls; `granted` is whether the role may tag.
abbrev tagger : Bool → Ecs ℕ
tagger granted = record {
  describe_instances = λ q w. fail (remote "no") w;
  describe_instance_types = λ t w. fail (remote "no") w;
  describe_network_interfaces = λ q w. fail (remote "no") w;
  create_network_interface = λ r w. fail (remote "no") w;
  modify_network_interface_attribute = λ r w. fail (remote "no") w;
  attach_network_interface = λ r w. fail (remote "no") w;
  tag_resources = λ r w. if granted then done tt (suc w) else fail (remote "denied") (suc w);
  describe_instance_attribute = λ i w. fail (remote "no") w;
  error_text = λ e. "error";
}

abbrev device_info_of : String → DeviceInfo
device_info_of id = record {
  instance_id = "i-1";
  mac = "";
  is_primary_eni = false;
  id = id;
  network_card_index = pos 0;
  queue_pair = pos 0;
}

abbrev node_device : ERdmaDevice
node_device = record {
  name = "node-1";
  owner_uid = none;
  labels = [];
  finalizers = [];
  deletion_timestamp = none;
  spec = record {
    devices = device_info_of "eni-1" ∷ device_info_of "eni-2" ∷ device_info_of "eni-2" ∷ [];
    jumbo_frame = false;
  };
  status = [];
}

abbrev devices_1 : List ERdmaDevice
devices_1 = node_device ∷ []

abbrev tagged_1 : List String
tagged_1 = "eni-1" ∷ []

tags_granted :
    ensure_eri_tags (tagger true) (claim_new tagged_1 (device_ids devices_1)).0 "i-1" 0 ≡ done tt 1
unfolding ensure_eri_tags claim_new device_ids member
tags_granted = refl

tags_denied :
    ensure_eri_tags (tagger false) (claim_new tagged_1 (device_ids devices_1)).0 "i-1" 0
    ≡ fail (Error.wrap "tag ERI resources %v: %w" ("eni-2" ∷ []) (remote "denied")) 1
unfolding ensure_eri_tags claim_new device_ids member
tags_denied = refl

backfill_once_example :
    (t : List String) × (backfill_eri_tags (tagger true) tagged_1 devices_1 "i-1" 0 ≡ done t 1)
    × ((id : String)
        → member t id
          ≡ (member tagged_1 id || (member (device_ids devices_1) id && not (str_eq id ""))))
    × ((u : ℕ) → backfill_eri_tags (tagger true) t devices_1 "i-1" u ≡ done t u)
backfill_once_example = backfill_once (tagger true) tagged_1 devices_1 "i-1" 0 1 tags_granted

backfill_rollback_example :
    (t : List String) × (backfill_eri_tags (tagger false) tagged_1 devices_1 "i-1" 0 ≡ done t 1)
    × ((id : String) → member t id ≡ member tagged_1 id)
backfill_rollback_example =
    backfill_rollback (tagger false) tagged_1 devices_1 "i-1" 0 1
      (Error.wrap "tag ERI resources %v: %w" ("eni-2" ∷ []) (remote "denied")) tags_denied
