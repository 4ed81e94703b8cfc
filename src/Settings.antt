-- ===== src/Settings.antt =====
-- internal/config/config.go: parseConfig, parseCredential, and InitConfig with the two variables of
-- the package.
use alibabacloud_erdma_contr.Prelude.{
  zero, suc, ℤ, pos, negsuc, String, str_eq, Text, Bool, true, false, Option, none, some,
  if◌then◌else◌, [],
}
use alibabacloud_erdma_contr.Exec.{Error, Res, ok, err, panic, done, fail, crash, Exec, wrap}
use alibabacloud_erdma_contr.Exec.Pure.{◌>>=◌}
use alibabacloud_erdma_contr.Types.{Config, Credentials}

-- What the parsers call: the file system, encoding/json into the two structs, and the metadata
-- server's region. A file that does not exist is read with `Error.not_found`.
pub record Env : Type 0 where
  pub read_file : String → Res Text
  pub unmarshal_config : Text → Res Config
  pub unmarshal_credentials : Text → Res Credentials
  pub region : Res String

abbrev pub default_config_path : String
default_config_path = "/etc/erdma-controller/config.json"

abbrev default_credential_path : String
default_credential_path = "/etc/erdma-controller-credential/credential.json"

abbrev pub reworded {ℓ} : {A : Type ℓ} → String → Res A → Res A
reworded m (ok a) = ok a
reworded m (err e) = err (wrap m [] e)
reworded m panic = panic

abbrev pub or_true : Option Bool → Option Bool
or_true none = some true
or_true (some b) = some b

abbrev pub or_text : String → String → String
or_text s d = if str_eq s "" then d else s

abbrev pub or_300 : ℤ → ℤ
or_300 (pos zero) = pos 300
or_300 (pos (suc n)) = pos (suc n)
or_300 (negsuc n) = negsuc n

-- The region is asked for only if the file has none.
unfoldable pub region_of : Env → Config → Res String
region_of env c =
    if str_eq c.region ""
    then reworded "failed to get region from metaserver: %v" env.region
    else ok c.region

unfoldable pub with_defaults : Config → String → Config
with_defaults c region = record {
  region = region;
  manage_non_owned_eris = c.manage_non_owned_eris;
  controller_namespace = c.controller_namespace;
  controller_name = c.controller_name;
  cluster_domain = c.cluster_domain;
  cert_dir = c.cert_dir;
  enable_device_plugin = or_true c.enable_device_plugin;
  enable_webhook = or_true c.enable_webhook;
  smc_init_image = c.smc_init_image;
  enable_init_container_inject = c.enable_init_container_inject;
  node_selector = c.node_selector;
  wait_node_ready_timeout_seconds = or_300 c.wait_node_ready_timeout_seconds;
}

abbrev pub read_config : Env → String → Res Text
read_config env path =
    reworded "failed to read config file: %v, %v" (env.read_file (or_text path default_config_path))

abbrev pub decode_config : Env → Text → Res Config
decode_config env text =
    reworded "failed to unmarshal config file: %v, %v" (env.unmarshal_config text)

abbrev pub complete : Env → Config → Res Config
complete env c = do region ← region_of env c; ok (with_defaults c region)

unfoldable pub parse_config : Env → String → Res Config
unfolding region_of with_defaults
parse_config env path = do text ← read_config env path; c ← decode_config env text; complete env c

abbrev no_credentials : Credentials
no_credentials = record {
  type = "";
  access_key_id = "";
  access_key_secret = "";
  sts_secret_ns = "";
  sts_secret_name = "";
}

abbrev is_not_exist : Error → Bool
is_not_exist (Error.not_found m) = true
is_not_exist _ = false

-- Without the file there are no credentials, and no defaults.
unfoldable pub parse_credential : Env → String → Res Credentials
parse_credential env path = elim (env.read_file (or_text path default_credential_path)) [
  | err e ↦
      if is_not_exist e
      then ok no_credentials
      else err (wrap "failed to read credential file: %v, %v" [] e)
  | panic ↦ panic
  | ok text ↦ (do
    c ← reworded "failed to unmarshal credential file: %v, %v" (env.unmarshal_credentials text)
    ok (record {
      type = c.type;
      access_key_id = c.access_key_id;
      access_key_secret = c.access_key_secret;
      sts_secret_ns = or_text c.sts_secret_ns "kube-system";
      sts_secret_name = or_text c.sts_secret_name "addon.network.token";
    }))
]

-- The two pointers of the package.
pub record Globals : Type 0 where
  pub cfg : Option Config
  pub credential : Option Credentials

-- Both parsers give nil with an error.
unfoldable pub init_config : Env → String → String → Exec Globals (Unit {0})
unfolding parse_config parse_credential
init_config env config_path credential_path g = elim (parse_config env config_path) [
  | err e ↦ fail e (record g { cfg = none })
  | panic ↦ crash g
  | ok c ↦ elim (parse_credential env credential_path) [
    | err e ↦ fail e (record { cfg = some c; credential = none })
    | panic ↦ crash (record g { cfg = some c })
    | ok cr ↦ done tt (record { cfg = some c; credential = some cr })
  ]
]
