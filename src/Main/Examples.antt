-- ===== src/Main/Examples.antt =====
-- A start with webhooks enabled by default, in a cluster where the certificate is still to be made.
use alibabacloud_erdma_contr.Prelude.{
  ◌≡◌, refl, String, pos, false, true, none, some, [], ◌∷◌, str_eq, if◌then◌else◌,
}
use alibabacloud_erdma_contr.Exec.{ok, done, err, not_found}
use alibabacloud_erdma_contr.Types.{Config, Credentials}
use alibabacloud_erdma_contr.Settings.{
  Env, Globals, init_config, parse_config, parse_credential, region_of, with_defaults,
}
use alibabacloud_erdma_contr.Credential.{Provider, get_credential_provider}
use alibabacloud_erdma_contr.Cert.{
  generate_certs, lacks_part, fill_hook, fill_hooks, lacks_bundle, create_or_read, make_certs,
  cluster_certs, write_certs, patch_steps, sync_webhooks, sync_cert,
}
use alibabacloud_erdma_contr.Cert.Examples.{Store, store, toy_crypto, start, end}
use alibabacloud_erdma_contr.Eri.Client.{EriClient}
use alibabacloud_erdma_contr.Eri.Connect.{Sdk, new_eri_client, credential_for, network_of}
use alibabacloud_erdma_contr.Controller.Setup.{Registry, set_up_devices, set_up_nodes}
use alibabacloud_erdma_contr.Main.{
  Flags, Runtime, initialized, or_panic, webhook_enabled, webhook_server, register_if,
  set_up_manager, prepare,
}
use alibabacloud_erdma_contr.Main.Laws.{IsPrepared, prepare-IsPrepared}

abbrev file_config : Config
file_config = record {
  region = "";
  manage_non_owned_eris = true;
  controller_namespace = "ns";
  controller_name = "name";
  cluster_domain = "domain";
  cert_dir = "/cert";
  enable_device_plugin = none;
  enable_webhook = none;
  smc_init_image = "";
  enable_init_container_inject = some true;
  node_selector = ("erdma", "yes") ∷ [];
  wait_node_ready_timeout_seconds = pos 0;
}

abbrev config : Config
config = record file_config {
  region = "cn-beijing";
  enable_device_plugin = some true;
  enable_webhook = some true;
  wait_node_ready_timeout_seconds = pos 300;
}

abbrev no_credentials : Credentials
no_credentials = record {
  type = "";
  access_key_id = "";
  access_key_secret = "";
  sts_secret_ns = "";
  sts_secret_name = "";
}

abbrev files : Env
files = record {
  read_file = λ p. if str_eq p "/config" then ok [] else err (not_found "credentials");
  unmarshal_config = λ t. ok file_config;
  unmarshal_credentials = λ t. err (not_found "none");
  region = ok "cn-beijing";
}

abbrev sdk : Sdk Provider String
sdk = record {
  endpoint_rules = λ product region type network. ok "ecs.aliyuncs.com";
  new_credential = λ p. ok p;
  new_client = λ c. ok c.endpoint;
  public_network = "";
}

abbrev registry : Registry Store
registry = record {
  controller_for = λ n w. done tt w;
  new_controller = λ n w. done tt w;
  watch_nodes = λ p w. done tt w;
}

abbrev rt : Runtime Store
rt = record {
  get_config_or_die = λ w. done tt w;
  new_client = λ w. done tt w;
  new_manager = λ o w. done tt w;
  registry = registry;
  add_healthz_check = λ n w. done tt w;
  add_readyz_check = λ n w. done tt w;
  register_webhook = λ p w. done tt w;
  start = λ w. done tt w;
}

abbrev flags : Flags
flags = record {
  metrics_bind_address = "0";
  health_probe_bind_address = ":8081";
  leader_elect = true;
  metrics_secure = true;
  enable_http2 = false;
  config_path = "/config";
  credential_path = "";
}

abbrev globals : Globals
globals = record { cfg = some config; credential = some no_credentials }

abbrev client : EriClient × String
client = (record { region_id = "cn-beijing"; managed_non_owned = true }, "ecs.aliyuncs.com")

prepared : prepare files toy_crypto store sdk rt flags start ≡ done (globals, client) end
unfolding prepare initialized init_config parse_config parse_credential region_of with_defaults
    webhook_server webhook_enabled or_panic sync_cert cluster_certs make_certs create_or_read
    generate_certs lacks_part write_certs sync_webhooks fill_hooks fill_hook lacks_bundle
    patch_steps new_eri_client credential_for get_credential_provider network_of set_up_manager
    set_up_devices set_up_nodes register_if
prepared = refl

prepare-IsPrepared_example : IsPrepared files toy_crypto store sdk rt flags globals client end
prepare-IsPrepared_example =
    prepare-IsPrepared files toy_crypto store sdk rt flags globals client start end prepared
