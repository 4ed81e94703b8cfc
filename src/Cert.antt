-- ===== src/Cert.antt =====
-- SyncCert and GenerateCerts of internal/cert/webhook.go: the certificate of the webhook's server,
-- which the replicas of the controller share in a secret.
pub mod Laws
pub mod Examples
use alibabacloud_erdma_contr.Prelude.{
  ℕ, zero, suc, String, Bool, true, false, ◌||◌, List, [], ◌∷◌, ◌++◌, map, Text, codes, is_empty,
  any, if◌then◌else◌,
}
use alibabacloud_erdma_contr.Exec.{Error, errorf, wrap, not_found, Exec}
use alibabacloud_erdma_contr.Exec.Act.{◌>>=◌, ◌>>◌, pure, raise, reword, handle}

-- The values of the secret under tls.crt, tls.key and ca.crt; empty where there is none.
pub record Certs : Type 0 where
  pub server_cert : Text
  pub server_key : Text
  pub ca_cert : Text

-- A webhook of the configuration, by its name, and the CABundle of its client's configuration.
pub record Hook : Type 0 where
  pub name : String
  pub ca_bundle : Text

-- The fields of x509.Certificate that the code sets. Both times are relative to the call: an hour
-- before it, and a hundred years after it.
pub record Template : Type 0 where
  pub serial_number : ℕ
  pub dns_names : List Text
  pub common_name : Text
  pub organization : Text
  pub hours_before : ℕ
  pub years_after : ℕ
  pub is_ca : Bool
  pub basic_constraints_valid : Bool
  pub ext_key_usage : List String
  pub key_usage : List String

-- crypto/rsa, crypto/x509 and encoding/pem. `create_certificate template parent key signer`.
pub record Crypto (W K : Type 0) : Type 0 where
  pub generate_key : ℕ → Exec W K
  pub create_certificate : Template → Template → K → K → Exec W Text
  pub marshal_pkcs1_private_key : K → Text
  pub pem_encode : String → Text → Exec W Text

-- The client, by the object's namespace and name, and the files. `get_*` fails with `not_found`
-- exactly where errors.IsNotFound holds, and `exists` is errors.IsAlreadyExists.
pub record Cluster (W : Type 0) : Type 0 where
  pub get_secret : Text × Text → Exec W Certs
  pub create_secret : Text × Text → Certs → Exec W (Unit {0})
  pub exists : Error → Bool
  pub get_webhooks : Text × Text → Exec W (List Hook)
  pub patch_webhooks : Text × Text → List Hook → Exec W (Unit {0})
  pub mkdir_all : Text → Exec W (Unit {0})
  pub write_file : Text × String → Text → Exec W (Unit {0})

abbrev both_auths : List String
both_auths = "ClientAuth" ∷ "ServerAuth" ∷ []

abbrev ca_template : Text → Template
ca_template domain = record {
  serial_number = 2021;
  dns_names = [];
  common_name = [];
  organization = domain;
  hours_before = 1;
  years_after = 100;
  is_ca = true;
  basic_constraints_valid = true;
  ext_key_usage = both_auths;
  key_usage = "DigitalSignature" ∷ "CertSign" ∷ [];
}

unfoldable pub common_name_of : Text → Text → Text
common_name_of ns name = name ++ codes "." ++ ns ++ codes ".svc"

unfoldable pub dns_names_of : Text → Text → List Text
unfolding common_name_of
dns_names_of ns name = name ∷ (name ++ codes "." ++ ns) ∷ common_name_of ns name ∷ []

unfoldable pub server_template : Text → Text → Text → Template
unfolding common_name_of dns_names_of
server_template ns name domain = record {
  serial_number = 2021;
  dns_names = dns_names_of ns name;
  common_name = common_name_of ns name;
  organization = domain;
  hours_before = 1;
  years_after = 100;
  is_ca = false;
  basic_constraints_valid = false;
  ext_key_usage = both_auths;
  key_usage = "DigitalSignature" ∷ [];
}

unfoldable pub generate_certs : {W K : Type 0} → Crypto W K → Text → Text → Text → Exec W Certs
unfolding server_template
generate_certs crypto ns name domain = do
  ca_key ← crypto.generate_key 4096
  ca ← crypto.create_certificate (ca_template domain) (ca_template domain) ca_key ca_key
  ca_pem ← crypto.pem_encode "CERTIFICATE" ca
  server_key ← crypto.generate_key 4096
  server ←
      crypto.create_certificate (server_template ns name domain) (ca_template domain) server_key
        ca_key
  server_pem ← crypto.pem_encode "CERTIFICATE" server
  key_pem ← crypto.pem_encode "RSA PRIVATE KEY" (crypto.marshal_pkcs1_private_key server_key)
  pure (record { server_cert = server_pem; server_key = key_pem; ca_cert = ca_pem })

unfoldable pub lacks_part : Certs → Bool
lacks_part c = is_empty c.server_cert || is_empty c.server_key || is_empty c.ca_cert

-- A hook that has a bundle keeps it.
unfoldable pub fill_hook : Text → Hook → Hook
fill_hook ca hook = if is_empty hook.ca_bundle then record hook { ca_bundle = ca } else hook

unfoldable pub fill_hooks : Text → List Hook → List Hook
unfolding fill_hook
fill_hooks ca hooks = map (fill_hook ca) hooks

-- changed
unfoldable pub lacks_bundle : List Hook → Bool
lacks_bundle hooks = any (λ (h : Hook). is_empty h.ca_bundle) hooks

abbrev pub patch_attempts : ℕ
patch_attempts = 3

abbrev pub secret_of : Text → Text → Text × Text
secret_of ns name = (ns, name ++ codes "-webhook-cert")

abbrev pub is_not_found : Error → Bool
is_not_found (not_found s) = true
is_not_found _ = false

module _ {W : Type 0} (cluster : Cluster W) where
  -- Who comes second takes the certificate of the first.
  unfoldable pub create_or_read : Text → Text → Certs → Exec W Certs
  create_or_read ns name certs =
      handle (cluster.create_secret (secret_of ns name) certs) (λ u. pure certs)
        (λ e.
          if cluster.exists e
          then reword (wrap "error get cert from secret, %w" [])
              (cluster.get_secret (secret_of ns name))
          else raise (wrap "error create cert to secret, %w" [] e))

  unfoldable pub make_certs : Exec W Certs → Text → Text → Exec W Certs
  unfolding create_or_read
  make_certs generate ns name = do
    certs ← reword (wrap "error generate cert, %w" []) generate
    create_or_read ns name certs

  -- The certificates of the secret, made where there is none. `generate` is GenerateCerts.
  unfoldable pub cluster_certs : Exec W Certs → Text → Text → Exec W Certs
  unfolding make_certs
  cluster_certs generate ns name = handle (cluster.get_secret (secret_of ns name)) pure (λ e.
      if is_not_found e
      then make_certs generate ns name
      else raise (wrap "error get cert from secret, %w" [] e))

  unfoldable pub write_certs : Text → Certs → Exec W (Unit {0})
  write_certs cert_dir certs = do
    cluster.mkdir_all cert_dir
    reword (wrap "error create secret file, %w" [])
        (cluster.write_file (cert_dir, "tls.crt") certs.server_cert)
    reword (wrap "error create secret file, %w" [])
        (cluster.write_file (cert_dir, "tls.key") certs.server_key)
    reword (wrap "error create secret file, %w" [])
        (cluster.write_file (cert_dir, "ca.crt") certs.ca_cert)

  -- The backoff: every error of Patch is logged and tried again while there are steps.
  unfoldable pub patch_steps : ℕ → Text × Text → List Hook → Exec W (Unit {0})
  patch_steps zero key hooks = raise (errorf "timed out waiting for the condition" [])
  patch_steps (suc steps) key hooks =
      let rest = patch_steps steps key hooks in
      handle (cluster.patch_webhooks key hooks) pure (λ e. rest)

  unfoldable pub sync_webhooks : Text → Text → Text → Exec W (Unit {0})
  unfolding fill_hooks lacks_bundle patch_steps
  sync_webhooks ns name ca = do
    hooks ← cluster.get_webhooks (ns, name)
    (if is_empty hooks
        then raise (errorf "no webhook config found" [])
        else if lacks_bundle hooks
        then patch_steps patch_attempts (ns, name) (fill_hooks ca hooks)
        else pure tt)

  unfoldable pub sync_cert : Exec W Certs → Text → Text → Text → Exec W (Unit {0})
  unfolding cluster_certs lacks_part write_certs sync_webhooks
  sync_cert generate ns name cert_dir = do
    certs ← cluster_certs generate ns name
    (if lacks_part certs
        then raise (errorf "invalid cert" [])
        else (do write_certs cert_dir certs; sync_webhooks ns name certs.ca_cert))
