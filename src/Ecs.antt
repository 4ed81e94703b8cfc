-- ===== src/Ecs.antt =====
-- The cloud API as internal/controller/eri.go uses it: the fields of its answers that the code
-- reads, the requests that the code fills, and the calls as an interface over a cloud world `W`.
-- A field that the code tests for nil or dereferences is an `Option`. Counts and indices of the
-- answers are natural numbers, as the API documents them; the containers of an answer (Body,
-- Instances, NetworkInterfaceSets, SecurityGroupIds, VpcAttributes, StatusCode, TotalCount) are
-- taken as present.
use alibabacloud_erdma_contr.Prelude.{ℕ, ℤ, String, Bool, Option, List}
use alibabacloud_erdma_contr.Exec.{Error, Exec}

pub record EniTag : Type 0 where
  pub tag_key : Option String
  pub tag_value : Option String

-- `tags` is `none` where Tags or Tags.Tag is nil.
pub record Eni : Type 0 where
  pub network_interface_id : Option String
  pub mac_address : Option String
  pub type : Option String
  pub status : Option String
  pub network_interface_traffic_mode : Option String
  pub queue_pair_number : Option ℕ
  pub instance_id : Option String
  pub attachment : Option (Option ℕ)
  pub tags : Option (List EniTag)

pub record Instance : Type 0 where
  pub instance_id : Option String
  pub instance_type : Option String
  pub security_group_ids : List String
  pub v_switch_id : Option String

pub record InstanceType : Type 0 where
  pub instance_type_id : Option String
  pub eri_quantity : Option ℕ
  pub network_card_quantity : Option ℕ
  pub queue_pair_number : Option ℕ
  pub gpu_amount : Option ℕ

pub record InstancesAnswer : Type 0 where
  pub total_count : ℕ
  pub instances : List Instance

pub record EnisAnswer : Type 0 where
  pub status_code : ℕ
  pub enis : List Eni

pub record CreatedEni : Type 0 where
  pub network_interface_id : Option String
  pub mac_address : Option String

-- DescribeInstances by instance id or by private address; both are sent as `["…"]`.
pub data InstanceQuery : Type 0 where
  by_id by_private_ip : String → InstanceQuery

-- DescribeNetworkInterfaces by tags, by instance or by interface ids, with a page size of 100.
pub data EniQuery : Type 0 where
  by_tags : List (String × Option String) → EniQuery
  by_instance : String → EniQuery
  by_ids : List String → EniQuery

pub record CreateRequest : Type 0 where
  pub name_parts : String × String × ℕ
  pub traffic_mode : String
  pub queue_pair_number : ℤ
  pub security_group_ids : List String
  pub tags : List (String × Option String)
  pub v_switch_id : Option String

pub record ModifyRequest : Type 0 where
  pub network_interface_id : String
  pub traffic_mode : String
  pub queue_pair_number : ℤ

pub record AttachRequest : Type 0 where
  pub instance_id : String
  pub network_interface_id : String
  pub network_card_index : Option ℤ

pub record TagRequest : Type 0 where
  pub resource_type : String
  pub resource_ids : List String
  pub tags : List (String × String)

-- Each call may answer or fail, and may change the world.
pub record Ecs (W : Type 0) : Type 0 where
  pub describe_instances : InstanceQuery → Exec W InstancesAnswer
  pub describe_instance_types : Option String → Exec W (List InstanceType)
  pub describe_network_interfaces : EniQuery → Exec W EnisAnswer
  pub create_network_interface : CreateRequest → Exec W CreatedEni
  pub modify_network_interface_attribute : ModifyRequest → Exec W (Unit {0})
  pub attach_network_interface : AttachRequest → Exec W (Unit {0})
  pub tag_resources : TagRequest → Exec W (Unit {0})
  pub describe_instance_attribute : String → Exec W (Option Bool)
  pub error_text : Error → String
