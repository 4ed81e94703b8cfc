-- ===== src/Types.antt =====
-- internal/types/eri.go, internal/types/config.go and api/v1/erdmadevice_types.go: the data that
-- the controller, the agent and the webhook share.
pub mod Caps
use alibabacloud_erdma_contr.Prelude.{ℕ, ℤ, String, Text, Bool, Option, List}

pub record Eri : Type 0 where
  pub id : String
  pub is_primary_eni : Bool
  pub mac : String
  pub instance_id : String
  pub card_index : ℤ
  pub queue_pair : ℤ
  pub jumbo_frame : Bool
  pub jumbo_frame_mtu : ℤ

-- Names and paths are texts: the device plugin takes them apart.
pub record ERdmaDeviceInfo : Type 0 where
  pub name : Text
  pub mac : Text
  pub dev_paths : List Text
  pub numa : ℕ
  pub capabilities : ℕ

abbrev pub resource_name : String
resource_name = "aliyun/erdma"

abbrev pub eni_status_in_use : String
eni_status_in_use = "InUse"

abbrev pub eni_status_available : String
eni_status_available = "Available"

pub record Config : Type 0 where
  pub region : String
  pub manage_non_owned_eris : Bool
  pub controller_namespace : String
  pub controller_name : String
  pub cluster_domain : String
  pub cert_dir : String
  pub enable_device_plugin : Option Bool
  pub enable_webhook : Option Bool
  pub smc_init_image : String
  pub enable_init_container_inject : Option Bool
  pub node_selector : List (String × String)
  pub wait_node_ready_timeout_seconds : ℤ

-- Sensitive.String, which a log prints.
unfoldable pub sensitive_string : String → String
sensitive_string secret = "*******"

pub record Credentials : Type 0 where
  pub type : String
  pub access_key_id : String
  pub access_key_secret : String
  pub sts_secret_ns : String
  pub sts_secret_name : String

pub record DeviceInfo : Type 0 where
  pub instance_id : String
  pub mac : String
  pub is_primary_eni : Bool
  pub id : String
  pub network_card_index : ℤ
  pub queue_pair : ℤ

pub record ERdmaDeviceSpec : Type 0 where
  pub devices : List DeviceInfo
  pub jumbo_frame : Bool

abbrev pub device_status_pending : String
device_status_pending = "Pending"

abbrev pub device_status_ready : String
device_status_ready = "Ready"

abbrev pub device_status_failed : String
device_status_failed = "Failed"

pub record DeviceStatus : Type 0 where
  pub id : String
  pub status : String
  pub message : String

-- The metadata that the program reads or writes, beside the spec and the status.
pub record ERdmaDevice : Type 0 where
  pub name : String
  pub owner_uid : Option String
  pub labels : List (String × String)
  pub finalizers : List String
  pub deletion_timestamp : Option ℕ
  pub spec : ERdmaDeviceSpec
  pub status : List DeviceStatus
