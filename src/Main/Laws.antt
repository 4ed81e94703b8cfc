-- ===== src/Main/Laws.antt =====
-- What holds when the manager is started.
use alibabacloud_erdma_contr.Prelude.{
  ◌≡◌, refl, ◌∙◌, subst, ◌⊎◌, inl, inr, arith, Text, codes, Bool-cases, true, false, Option, none,
  some,
}
use alibabacloud_erdma_contr.Exec.{ok, done, Exec}
use alibabacloud_erdma_contr.Exec.Act.{
  lift, through, arrive, lift-done, done_value, done_world, through_branch,
}
use alibabacloud_erdma_contr.Exec.Pure.{deref, Res-cases, through as via_steps, via}
use alibabacloud_erdma_contr.Types.{Config, Credentials}
use alibabacloud_erdma_contr.Settings.{Env, Globals, init_config, parse_config, parse_credential}
use alibabacloud_erdma_contr.Cert.{Certs, Crypto, Cluster, generate_certs, sync_cert, lacks_part}
use alibabacloud_erdma_contr.Cert.Laws.{IsShared, IsWritten, IsFilled, sync_cert_lem}
use alibabacloud_erdma_contr.Eri.Client.{EriClient}
use alibabacloud_erdma_contr.Eri.Connect.{Sdk, new_eri_client, credential_for, network_of}
use alibabacloud_erdma_contr.Controller.Setup.{set_up_devices, set_up_nodes, node_event_passes}
use alibabacloud_erdma_contr.Main.{
  Flags, ManagerOptions, Runtime, initialized, or_panic, webhook_enabled, webhook_server,
  register_if, manager_options, set_up_manager, prepare,
}

-- The variables of the package are set from the two files.
pub record IsInitialized (env : Env) (flags : Flags) (g : Globals) : Type 0 where
  pub config : Config
  pub credentials : Credentials
  pub parsed : parse_config env flags.config_path ≡ ok config
  pub has_config : g.cfg ≡ some config
  pub has_credentials : g.credential ≡ some credentials

initialized-IsInitialized :
    (env : Env) (flags : Flags) (g : Globals)
    → initialized env flags ≡ ok g
    → IsInitialized env flags g
unfolding initialized init_config
initialized-IsInitialized env flags g h = elim (Res-cases (parse_config env flags.config_path)) [
  | inl (c, e) ↦ elim (Res-cases (parse_credential env flags.credential_path)) [
    | inl (cr, f) ↦ record {
      config = c;
      credentials = cr;
      parsed = e;
      has_config = grind (arith, e, f);
      has_credentials = grind (arith, e, f);
    }
    | inr (inl (x, f)) ↦ absurd (grind (arith, e, f))
    | inr (inr f) ↦ absurd (grind (arith, e, f))
  ]
  | inr (inl (x, e)) ↦ absurd (grind (arith, e))
  | inr (inr e) ↦ absurd (grind (arith, e))
]

-- The client is for the region of the configuration, and manages what it says.
new_eri_client-settings :
    {C A : Type 0} (sdk : Sdk C A) (g : Globals) (c : Config) (client : EriClient × A)
    → g.cfg ≡ some c
    → new_eri_client sdk g ≡ ok client
    → (client.0.region_id ≡ c.region) × (client.0.managed_non_owned ≡ c.manage_non_owned_eris)
unfolding new_eri_client
new_eri_client-settings sdk g c client e h = elim (via_steps (credential_for sdk g) _ h) [
  | via credential e1 h1 ↦ elim (via_steps (deref g.cfg) _ h1) [
    | via config e2 h2 ↦
        elim (via_steps
          (sdk.endpoint_rules "ecs" config.region "regional" (network_of sdk.public_network)) _
          h2) [
            | via endpoint e3 h3 ↦ elim (via_steps (sdk.new_client _) _ h3) [
              | via inner e4 h4 ↦ (grind (arith, e), grind (arith, e))
            ]
          ]
  ]
]

or_panic-done :
    {W A : Type 0} (m : Exec W A) (w v : W) (a : A) → or_panic m w ≡ done a v → m w ≡ done a v
unfolding or_panic
or_panic-done m w v a h = elim (through_branch (m w) _ _ h) [
  | inl (b, u, e, f) ↦ e ∙ f
  | inr (x, u, e, f) ↦ cc
]

module _ {W K C A : Type 0} (env : Env) (crypto : Crypto W K) (cluster : Cluster W) (sdk : Sdk C A)
    (rt : Runtime W) where
  -- No webhook is served, or the certificate is shared and stands in the directory that the server
  -- of webhooks reads, and each hook has a bundle.
  abbrev pub IsServed : Config → Option Text → Type 0
  IsServed c none = webhook_enabled c ≡ false
  IsServed c (some dir) =
      (webhook_enabled c ≡ true)
      × (dir ≡ codes c.cert_dir)
      × ((certs : Certs) × (u : W) × (x : W) × (v : W) × (lacks_part certs ≡ false)
          × IsShared cluster (codes c.controller_namespace) (codes c.controller_name) certs u
          × IsWritten cluster dir certs x
          × IsFilled cluster (codes c.controller_namespace) (codes c.controller_name) certs.ca_cert
              v)

  webhook_server-IsServed :
      (c : Config) (server : Option Text) (w w' : W)
      → webhook_server env crypto cluster sdk rt c w ≡ done server w'
      → IsServed c server
  unfolding webhook_server
  webhook_server-IsServed c server w w' h = elim (Bool-cases (webhook_enabled c)) [
    | inl b ↦
        let generate : Exec W Certs =
          generate_certs crypto (codes c.controller_namespace) (codes c.controller_name)
            (codes c.cluster_domain) in
        let sync : Exec W (Unit {0}) =
          sync_cert cluster generate (codes c.controller_namespace) (codes c.controller_name)
            (codes c.cert_dir) in
        elim (through (or_panic sync w) _ (rw b at h)) [
          | arrive u v e f ↦
              let (certs, x, y, l, shared, written, filled) =
                sync_cert_lem cluster generate (codes c.controller_namespace)
                  (codes c.controller_name) (codes c.cert_dir) w v (or_panic-done sync w v u e) in
              subst (IsServed c) (done_value f)
                (b, refl, (certs, x, y, v, l, shared, written, filled))
        ]
    | inr b ↦ subst (IsServed c) (done_value (rw b at h)) b
  ]

  -- What holds where the manager is started, in the world `w`.
  pub record IsPrepared (flags : Flags) (g : Globals) (client : EriClient × A) (w : W)
      : Type 0 where
    pub init : IsInitialized env flags g
    pub region : client.0.region_id ≡ init.config.region
    pub managed : client.0.managed_non_owned ≡ init.config.manage_non_owned_eris
    pub server : Option Text
    pub served : IsServed init.config server
    pub watched :
        (u : W) × (v : W) × (rt.registry.watch_nodes (node_event_passes init.config.node_selector) u
          ≡ done tt v)
    pub manager :
        (o : ManagerOptions) × (u : W) × (v : W) × (rt.new_manager o u ≡ done tt v)
        × (o.webhook_server ≡ server)
    pub registered : (server ≡ none) ⊎ ((u : W) × (rt.register_webhook "/mutating" u ≡ done tt w))

  set_up_manager-watches :
      (c : Config) (w w' : W)
      → set_up_manager env crypto cluster sdk rt c w ≡ done tt w'
      → (u : W) × (v : W) × (rt.registry.watch_nodes (node_event_passes c.node_selector) u
          ≡ done tt v)
  unfolding set_up_manager set_up_devices set_up_nodes
  set_up_manager-watches c w w' h = elim (through (set_up_devices rt.registry w) _ h) [
    | arrive t1 v1 e1 h1 ↦ elim (through (set_up_nodes rt.registry c.node_selector v1) _ h1) [
      | arrive t2 v2 e2 h2 ↦ elim (through (rt.registry.new_controller "node-controller" v1) _ e2) [
        | arrive t3 v3 e3 h3 ↦ (v3, v2, h3)
      ]
    ]
  ]

  register_if-registers :
      (server : Option Text) (w w' : W)
      → register_if env crypto cluster sdk rt server w ≡ done tt w'
      → (server ≡ none) ⊎ ((u : W) × (rt.register_webhook "/mutating" u ≡ done tt w'))
  unfolding register_if
  register_if-registers none w w' h = inl refl
  register_if-registers (some dir) w w' h = inr (w, h)

  deref-config : (g : Globals) (a c : Config) → g.cfg ≡ some a → deref g.cfg ≡ ok c → c ≡ a
  deref-config g a c e f = grind (arith, e)

  gather :
      (flags : Flags) (g : Globals) (client : EriClient × A) (c : Config) (server : Option Text)
      (u1 u2 m1 m2 u3 u4 w : W)
      → initialized env flags ≡ ok g
      → deref g.cfg ≡ ok c
      → webhook_server env crypto cluster sdk rt c u1 ≡ done server u2
      → rt.new_manager (manager_options flags server) m1 ≡ done tt m2
      → new_eri_client sdk g ≡ ok client
      → set_up_manager env crypto cluster sdk rt c u3 ≡ done tt u4
      → register_if env crypto cluster sdk rt server u4 ≡ done tt w
      → IsPrepared flags g client w
  unfolding manager_options
  gather flags g client c server u1 u2 m1 m2 u3 u4 w i d s o n m r =
      let init : IsInitialized env flags g = initialized-IsInitialized env flags g i in
      let same : (c ≡ init.config) = deref-config g init.config c init.has_config d in
      let (region, managed) = new_eri_client-settings sdk g init.config client init.has_config n in
      record {
        init = init;
        region = region;
        managed = managed;
        server = server;
        served = subst (λ x. IsServed x server) same (webhook_server-IsServed c server u1 u2 s);
        watched =
            set_up_manager-watches init.config u3 u4
              (subst (λ x. set_up_manager env crypto cluster sdk rt x u3 ≡ done tt u4) same m);
        manager = (manager_options flags server, m1, m2, o, refl);
        registered = register_if-registers server u4 w r;
      }

  -- Where the controller starts its manager: the configuration was parsed from the file of the
  -- flag, and the client for the cloud is for its region and manages what it says; the events of
  -- nodes are watched that pass its selector; and either webhooks are not enabled and the manager
  -- was made without a server for them, or the manager was made with a server for a directory to
  -- which a certificate was written that was read from the shared secret or stored there, each
  -- webhook of the cluster has a bundle, and the last call registered the handler.
  pub prepare-IsPrepared :
      (flags : Flags) (g : Globals) (client : EriClient × A) (w w' : W)
      → prepare env crypto cluster sdk rt flags w ≡ done (g, client) w'
      → IsPrepared flags g client w'
  unfolding prepare
  prepare-IsPrepared flags g client w w' h = elim (through (lift (initialized env flags) w) _ h) [
    | arrive g1 v1 e1 h1 ↦ elim (through (rt.get_config_or_die v1) _ h1) [
      | arrive t2 v2 e2 h2 ↦ elim (through (rt.new_client v2) _ h2) [
        | arrive t3 v3 e3 h3 ↦ elim (through (lift (deref g1.cfg) v3) _ h3) [
          | arrive c v4 e4 h4 ↦
              elim (through (webhook_server env crypto cluster sdk rt c v4) _ h4) [
                | arrive server v5 e5 h5 ↦ elim (through (rt.get_config_or_die v5) _ h5) [
                  | arrive t6 v6 e6 h6 ↦
                      elim (through (rt.new_manager (manager_options flags server) v6) _ h6) [
                        | arrive t7 v7 e7 h7 ↦
                            elim (through (lift (new_eri_client sdk g1) v7) _ h7) [
                              | arrive client1 v8 e8 h8 ↦
                                  elim (through (set_up_manager env crypto cluster sdk rt c v8) _
                                    h8) [
                                      | arrive t9 v9 e9 h9 ↦
                                          elim (through
                                            (register_if env crypto cluster sdk rt server v9) _
                                            h9) [
                                              | arrive t10 v10 e10 h10 ↦
                                                  subst (λ p. IsPrepared flags p.0 p.1 w')
                                                    (done_value h10)
                                                    (subst (IsPrepared flags g1 client1)
                                                      (done_world h10)
                                                      (gather flags g1 client1 c server v4 v5 v6 v7
                                                        v8 v9 v10 (lift-done _ e1).0
                                                        (lift-done _ e4).0 e5 e7 (lift-done _ e8).0
                                                        e9 e10))
                                            ]
                                    ]
                            ]
                      ]
                ]
              ]
        ]
      ]
    ]
  ]
