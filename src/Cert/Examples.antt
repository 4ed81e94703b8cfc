-- ===== src/Cert/Examples.antt =====
-- A cluster with two webhooks, one of them without a bundle, and no secret yet.
use alibabacloud_erdma_contr.Prelude.{◌≡◌, refl, ℕ, false, Option, none, some, List, [], ◌∷◌, codes}
use alibabacloud_erdma_contr.Exec.{not_found, done, fail, Exec}
use alibabacloud_erdma_contr.Cert.{
  Certs, Hook, Crypto, Cluster, generate_certs, lacks_part, fill_hook, fill_hooks, lacks_bundle,
  create_or_read, make_certs, cluster_certs, write_certs, patch_steps, sync_webhooks, sync_cert,
}

pub record Store : Type 0 where
  pub secret : Option Certs
  pub hooks : List Hook

abbrev pub store : Cluster Store
store = record {
  get_secret = λ key s. elim s.secret [ none ↦ fail (not_found "secret") s | some c ↦ done c s ];
  create_secret = λ key c s. done tt (record s { secret = some c });
  exists = λ e. false;
  get_webhooks = λ key s. done s.hooks s;
  patch_webhooks = λ key hooks s. done tt (record s { hooks = hooks });
  mkdir_all = λ dir s. done tt s;
  write_file = λ path t s. done tt s;
}

-- Keys are numbers, and a certificate shows the keys and the number of its names.
abbrev pub toy_crypto : Crypto Store ℕ
toy_crypto = record {
  generate_key = λ bits s. done bits s;
  create_certificate = λ template parent key signer s. done (key ∷ signer ∷ []) s;
  marshal_pkcs1_private_key = λ key. key ∷ [];
  pem_encode = λ type t s. done t s;
}

abbrev pub start : Store
start = record {
  secret = none;
  hooks =
      record { name = "pods"; ca_bundle = [] }
      ∷ record { name = "nodes"; ca_bundle = codes "old" }
      ∷ [];
}

abbrev certs : Certs
certs = record {
  server_cert = 4096 ∷ 4096 ∷ [];
  server_key = 4096 ∷ [];
  ca_cert = 4096 ∷ 4096 ∷ [];
}

abbrev pub end : Store
end = record {
  secret = some certs;
  hooks =
      record { name = "pods"; ca_bundle = 4096 ∷ 4096 ∷ [] }
      ∷ record { name = "nodes"; ca_bundle = codes "old" }
      ∷ [];
}

abbrev generate : Exec Store Certs
generate = generate_certs toy_crypto (codes "ns") (codes "name") (codes "domain")

synced : sync_cert store generate (codes "ns") (codes "name") (codes "/cert") start ≡ done tt end
unfolding sync_cert cluster_certs make_certs create_or_read generate_certs lacks_part write_certs
    sync_webhooks fill_hooks fill_hook lacks_bundle patch_steps
synced = refl
