-- ===== src/Webhook/Examples.antt =====
-- A configuration file and a pod for SMC-R, for the theorems on internal/webhook/mutating.go and
-- internal/config/config.go.
use alibabacloud_erdma_contr.Prelude.{
  ◌≡◌, ◌≢◌, refl, String, ℤ, pos, Bool, true, false, Option, none, some, List, [], ◌∷◌, codes,
  text_eq, if◌then◌else◌,
}
use alibabacloud_erdma_contr.Exec.{ok, err, panic, remote}
use alibabacloud_erdma_contr.Types.{Config}
use alibabacloud_erdma_contr.Settings.{Env, parse_config, region_of, with_defaults}
use alibabacloud_erdma_contr.Webhook.{Container, Pod, PodJson, handle, has_rdma, asks_for_erdma}
use alibabacloud_erdma_contr.Webhook.Laws.{Returns, parse_config-handle, parse_config-handle_panics}

abbrev smc_container : Container
smc_container = record {
  name = "app";
  image = "app:1";
  image_pull_policy = "Always";
  command = [];
  requests = [];
  limits = ("aliyun/erdma", "1") ∷ [];
  privileged = none;
}

abbrev smc_annotations : List (String × String)
smc_annotations = ("network.alibabacloud.com/erdma-smcr", "true") ∷ []

abbrev smc_pod : Pod
smc_pod = record {
  annotations = some smc_annotations;
  containers = smc_container ∷ [];
  init_containers = [];
  rest = [];
}

abbrev pod_json : PodJson
pod_json = record { unmarshal = λ t. ok smc_pod; marshal = λ p. ok [] }

abbrev config_of : Option Bool → Option Bool → Option Bool → ℤ → Config
config_of plugin hook inject timeout = record {
  region = "cn-hangzhou";
  manage_non_owned_eris = false;
  controller_namespace = "kube-system";
  controller_name = "erdma";
  cluster_domain = "cluster.local";
  cert_dir = "/certs";
  enable_device_plugin = plugin;
  enable_webhook = hook;
  smc_init_image = "";
  enable_init_container_inject = inject;
  node_selector = [];
  wait_node_ready_timeout_seconds = timeout;
}

abbrev env_of : Option Bool → Env
env_of inject = record {
  read_file = λ p. ok (codes "{}");
  unmarshal_config = λ t.
      if text_eq t (codes "{}")
      then ok (config_of none none inject (pos 0))
      else err (remote "invalid character");
  unmarshal_credentials = λ t. err (remote "no");
  region = err (remote "no");
}

parsed_inject :
    parse_config (env_of (some true)) ""
    ≡ ok (config_of (some true) (some true) (some true) (pos 300))
unfolding parse_config region_of with_defaults text_eq
parsed_inject = refl

parsed_unset : parse_config (env_of none) "" ≡ ok (config_of (some true) (some true) none (pos 300))
unfolding parse_config region_of with_defaults text_eq
parsed_unset = refl

json-Returns : Returns pod_json
json-Returns = record { unmarshal_returns = λ t e. cc; marshal_returns = λ p e. cc }

parse_config-handle_example :
    handle pod_json
      (config_of (some true) (some true) (some true) (pos 300))
      (record { kind = "Pod"; object = [] })
    ≢ panic
parse_config-handle_example =
    parse_config-handle pod_json json-Returns (env_of (some true)) ""
      (config_of (some true) (some true) (some true) (pos 300)) true parsed_inject refl
      (record { kind = "Pod"; object = [] })

asks : has_rdma smc_pod ≡ true
unfolding has_rdma asks_for_erdma
asks = refl

parse_config-handle_panics_example :
    handle pod_json
      (config_of (some true) (some true) none (pos 300))
      (record { kind = "Pod"; object = [] })
    ≡ panic
unfolding text_eq
parse_config-handle_panics_example =
    parse_config-handle_panics pod_json (env_of none) "" (codes "{}")
      (config_of none none none (pos 0)) (config_of (some true) (some true) none (pos 300)) refl
      refl refl refl refl parsed_unset [] smc_pod smc_annotations refl refl asks refl
