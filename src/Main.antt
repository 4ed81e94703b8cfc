-- ===== src/Main.antt =====
-- cmd/controller/main.go: the start of the controller, up to the run of its manager.
pub mod Laws
pub mod Examples
use alibabacloud_erdma_contr.Prelude.{
  String, Text, codes, Bool, false, Option, none, some, if◌then◌else◌,
}
use alibabacloud_erdma_contr.Exec.{Res, ok, err, panic, done, fail, crash, Exec}
use alibabacloud_erdma_contr.Exec.Act.{◌>>=◌, ◌>>◌, pure, lift, handle}
use alibabacloud_erdma_contr.Exec.Pure.{deref}
use alibabacloud_erdma_contr.Types.{Config}
use alibabacloud_erdma_contr.Settings.{Env, Globals, init_config}
use alibabacloud_erdma_contr.Cert.{Crypto, Cluster, generate_certs, sync_cert}
use alibabacloud_erdma_contr.Eri.Client.{EriClient}
use alibabacloud_erdma_contr.Eri.Connect.{Sdk, new_eri_client}
use alibabacloud_erdma_contr.Controller.Setup.{Registry, set_up_devices, set_up_nodes}

pub record Flags : Type 0 where
  pub metrics_bind_address : String
  pub health_probe_bind_address : String
  pub leader_elect : Bool
  pub metrics_secure : Bool
  pub enable_http2 : Bool
  pub config_path : String
  pub credential_path : String

-- ctrl.Options, as far as the code fills it in. `authenticated` is whether there is a FilterProvider,
-- and the server of webhooks is given by its directory of certificates.
pub record ManagerOptions : Type 0 where
  pub metrics_bind_address : String
  pub secure_serving : Bool
  pub authenticated : Bool
  pub webhook_server : Option Text
  pub health_probe_bind_address : String
  pub leader_election : Bool
  pub leader_election_id : String

-- controller-runtime. The calls on a manager are those on the one that was made.
pub record Runtime (W : Type 0) : Type 0 where
  pub get_config_or_die : Exec W (Unit {0})
  pub new_client : Exec W (Unit {0})
  pub new_manager : ManagerOptions → Exec W (Unit {0})
  pub registry : Registry W
  pub add_healthz_check : String → Exec W (Unit {0})
  pub add_readyz_check : String → Exec W (Unit {0})
  pub register_webhook : String → Exec W (Unit {0})
  pub start : Exec W (Unit {0})

unfoldable pub manager_options : Flags → Option Text → ManagerOptions
manager_options flags server = record {
  metrics_bind_address = flags.metrics_bind_address;
  secure_serving = flags.metrics_secure;
  authenticated = flags.metrics_secure;
  webhook_server = server;
  health_probe_bind_address = flags.health_probe_bind_address;
  leader_election = flags.leader_elect;
  leader_election_id = "26dc1c71.alibabacloud.com";
}

-- The package's variables before the start.
abbrev pub unset : Globals
unset = record { cfg = none; credential = none }

-- What InitConfig leaves, without its error.
unfoldable pub initialized : Env → Flags → Res Globals
unfolding init_config
initialized env flags = elim (init_config env flags.config_path flags.credential_path unset) [
  | done u g ↦ ok g
  | fail e g ↦ err e
  | crash g ↦ panic
]

-- `if err != nil { panic(err) }`
unfoldable pub or_panic : {W A : Type 0} → Exec W A → Exec W A
or_panic m = handle m pure (λ e. crash)

-- EnableWebhook != nil && *EnableWebhook
unfoldable pub webhook_enabled : Config → Bool
webhook_enabled c = elim c.enable_webhook [ none ↦ false | some b ↦ b ]

-- An error ends the process with code 1.
module _ {W K C A : Type 0} (env : Env) (crypto : Crypto W K) (cluster : Cluster W) (sdk : Sdk C A)
    (rt : Runtime W) where
  -- The server of webhooks, with the certificates that it serves.
  unfoldable pub webhook_server : Config → Exec W (Option Text)
  unfolding webhook_enabled or_panic
  webhook_server c =
      let ns : Text = codes c.controller_namespace in
      let name : Text = codes c.controller_name in
      if webhook_enabled c
      then (do
        or_panic (
            sync_cert cluster (generate_certs crypto ns name (codes c.cluster_domain)) ns name
              (codes c.cert_dir))
        pure (some (codes c.cert_dir)))
      else pure none

  unfoldable pub register_if : Option Text → Exec W (Unit {0})
  register_if none = pure tt
  register_if (some dir) = rt.register_webhook "/mutating"

  unfoldable pub set_up_manager : Config → Exec W (Unit {0})
  unfolding set_up_devices set_up_nodes
  set_up_manager c = do
    set_up_devices rt.registry
    set_up_nodes rt.registry c.node_selector
    rt.add_healthz_check "healthz"
    rt.add_readyz_check "readyz"

  -- Everything before the manager is started, with the variables of the package and the client.
  unfoldable pub prepare : Flags → Exec W (Globals × (EriClient × A))
  unfolding initialized webhook_server manager_options register_if set_up_manager
  prepare flags = do
    globals ← lift (initialized env flags)
    rt.get_config_or_die
    rt.new_client
    config ← lift (deref globals.cfg)
    server ← webhook_server config
    rt.get_config_or_die
    rt.new_manager (manager_options flags server)
    client ← lift (new_eri_client sdk globals)
    set_up_manager config
    register_if server
    pure (globals, client)

  unfoldable pub main : Flags → Exec W (Unit {0})
  unfolding prepare
  main flags = do prepared ← prepare flags; rt.start
