-- ===== src/Eri/Connect.antt =====
-- NewEriClient of internal/controller/eri.go, with getCredential of credential.go.
use alibabacloud_erdma_contr.Prelude.{String, str_eq, if◌then◌else◌}
use alibabacloud_erdma_contr.Exec.{Res, ok}
use alibabacloud_erdma_contr.Exec.Pure.{◌>>=◌, deref}
use alibabacloud_erdma_contr.Settings.{Globals}
use alibabacloud_erdma_contr.Credential.{Provider, get_credential_provider}
use alibabacloud_erdma_contr.Eri.Client.{EriClient}

-- openapi.Config, as far as the code fills it in.
pub record ClientConfig (C : Type 0) : Type 0 where
  pub region_id : String
  pub user_agent : String
  pub credential : C
  pub endpoint_type : String
  pub network : String
  pub endpoint : String

-- The SDK: GetEndpointRules by product, region, type and network; NewCredential, which gives the
-- token of this package as it is; ecs.NewClient; and the environment variable PUBLIC_NETWORK.
pub record Sdk (C A : Type 0) : Type 0 where
  pub endpoint_rules : String → String → String → String → Res String
  pub new_credential : Provider → Res C
  pub new_client : ClientConfig C → Res A
  pub public_network : String

unfoldable pub network_of : String → String
network_of public_network = if str_eq public_network "true" then "public" else "vpc"

module _ {C A : Type 0} (sdk : Sdk C A) where
  unfoldable pub credential_for : Globals → Res C
  unfolding get_credential_provider
  credential_for g = do
    config ← deref g.cfg
    credentials ← deref g.credential
    provider ←
        get_credential_provider (λ region. sdk.endpoint_rules "sts" region "regional" "vpc") config
          credentials
    sdk.new_credential provider

  -- The client with its settings, and the SDK's client inside it.
  unfoldable pub new_eri_client : Globals → Res (EriClient × A)
  unfolding credential_for network_of
  new_eri_client g = do
    credential ← credential_for g
    config ← deref g.cfg
    endpoint ← sdk.endpoint_rules "ecs" config.region "regional" (network_of sdk.public_network)
    client ← sdk.new_client (record {
      region_id = config.region;
      user_agent = "AlibabaCloud/ERdma-Controller/0.1";
      credential = credential;
      endpoint_type = "regional";
      network = network_of sdk.public_network;
      endpoint = endpoint;
    })
    ok (
      record { region_id = config.region; managed_non_owned = config.manage_non_owned_eris },
      client,
    )
