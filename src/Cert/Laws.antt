-- ===== src/Cert/Laws.antt =====
-- Which certificate a replica serves, and what it leaves of the webhooks' configuration.
use alibabacloud_erdma_contr.Prelude.{
  ◌≡◌, refl, sym, ◌∙◌, arith, ◌⊎◌, inl, inr, ℕ, zero, suc, Bool-cases, false, List, [], ◌∷◌, All,
  Text, is_empty,
}
use alibabacloud_erdma_contr.Exec.{done, Exec, wrap}
use alibabacloud_erdma_contr.Exec.Act.{
  reword, through, arrive, reword-done, done_value, done_world, through_branch,
}
use alibabacloud_erdma_contr.Cert.{
  Certs, Hook, Cluster, lacks_part, is_not_found, fill_hook, fill_hooks, lacks_bundle, secret_of,
  create_or_read, make_certs, cluster_certs, write_certs, patch_steps, patch_attempts,
  sync_webhooks, sync_cert,
}

abbrev pub HasBundle : Hook → Type 0
HasBundle h = is_empty h.ca_bundle ≡ false

fill_hooks-HasBundle :
    (ca : Text) (hooks : List Hook) → is_empty ca ≡ false → All HasBundle (fill_hooks ca hooks)
unfolding fill_hooks fill_hook
fill_hooks-HasBundle ca [] h = tt
fill_hooks-HasBundle ca (hook ∷ hooks) h = (ground arith, fill_hooks-HasBundle ca hooks h)

fill_hooks_full :
    (ca : Text) (hooks : List Hook) → lacks_bundle hooks ≡ false → fill_hooks ca hooks ≡ hooks
unfolding fill_hooks fill_hook lacks_bundle
fill_hooks_full ca [] h = refl
fill_hooks_full ca (hook ∷ hooks) h = ground (arith, fill_hooks_full ca hooks)

module _ {W : Type 0} (cluster : Cluster W) where
  -- The certificates were read from the secret, or stored in it, by the last call that was made.
  abbrev pub IsShared : Text → Text → Certs → W → Type 0
  IsShared ns name certs w =
      ((v : W) × (cluster.get_secret (secret_of ns name) v ≡ done certs w))
      ⊎ ((v : W) × (cluster.create_secret (secret_of ns name) certs v ≡ done tt w))

  create_or_read-IsShared :
      (ns name : Text) (certs got : Certs) (w w' : W)
      → create_or_read cluster ns name certs w ≡ done got w'
      → IsShared ns name got w'
  unfolding create_or_read
  create_or_read-IsShared ns name certs got w w' h =
      elim (through_branch (cluster.create_secret (secret_of ns name) certs w) _ _ h) [
        | inl (u, v, e, f) ↦ inr (w, rw (sym (done_value f), sym (done_world f)) e)
        | inr (x, v, e, f) ↦ elim (Bool-cases (cluster.exists x)) [
          | inl b ↦ inl (v, reword-done _ _ (rw b at f))
          | inr b ↦ cc
        ]
      ]

  make_certs-IsShared :
      (generate : Exec W Certs) (ns name : Text) (got : Certs) (w w' : W)
      → make_certs cluster generate ns name w ≡ done got w'
      → IsShared ns name got w'
  unfolding make_certs
  make_certs-IsShared generate ns name got w w' h = elim (through (reword _ generate w) _ h) [
    | arrive certs v e f ↦ create_or_read-IsShared ns name certs got v w' f
  ]

  cluster_certs-IsShared :
      (generate : Exec W Certs) (ns name : Text) (got : Certs) (w w' : W)
      → cluster_certs cluster generate ns name w ≡ done got w'
      → IsShared ns name got w'
  unfolding cluster_certs
  cluster_certs-IsShared generate ns name got w w' h =
      elim (through_branch (cluster.get_secret (secret_of ns name) w) _ _ h) [
        | inl (c, v, e, f) ↦ inl (w, e ∙ f)
        | inr (x, v, e, f) ↦ elim (Bool-cases (is_not_found x)) [
          | inl b ↦ make_certs-IsShared generate ns name got v w' (rw b at f)
          | inr b ↦ cc
        ]
      ]

  patch_steps-done :
      (steps : ℕ) (key : Text × Text) (hooks : List Hook) (w w' : W)
      → patch_steps cluster steps key hooks w ≡ done tt w'
      → (v : W) × (cluster.patch_webhooks key hooks v ≡ done tt w')
  unfolding patch_steps
  patch_steps-done zero key hooks w w' h = cc
  patch_steps-done (suc steps) key hooks w w' h =
      elim (through_branch (cluster.patch_webhooks key hooks w) _ _ h) [
        | inl (u, v, e, f) ↦ (w, e ∙ f)
        | inr (x, v, e, f) ↦ patch_steps-done steps key hooks v w' f
      ]

  -- The configuration held `hooks`, and holds them with the bundles that were missing: there were
  -- none, or the last call patched them.
  abbrev pub IsFilled : Text → Text → Text → W → Type 0
  IsFilled ns name ca w =
      (hooks : List Hook) × (u : W) × (v : W) × (cluster.get_webhooks (ns, name) u ≡ done hooks v)
      × (is_empty hooks ≡ false)
      × (((fill_hooks ca hooks ≡ hooks) × (w ≡ v))
          ⊎ ((x : W) × (cluster.patch_webhooks (ns, name) (fill_hooks ca hooks) x ≡ done tt w)))
      × All HasBundle (fill_hooks ca hooks)

  sync_webhooks-IsFilled :
      (ns name ca : Text) (w w' : W)
      → is_empty ca ≡ false
      → sync_webhooks cluster ns name ca w ≡ done tt w'
      → IsFilled ns name ca w'
  unfolding sync_webhooks
  sync_webhooks-IsFilled ns name ca w w' n h =
      elim (through (cluster.get_webhooks (ns, name) w) _ h) [
        | arrive hooks v e f ↦ elim (Bool-cases (is_empty hooks)) [
          | inl b ↦ cc
          | inr b ↦ elim (Bool-cases (lacks_bundle hooks)) [
            | inl c ↦ (
              hooks,
              w,
              v,
              e,
              b,
              inr (
                  patch_steps-done patch_attempts (ns, name) (fill_hooks ca hooks) v w'
                    (rw (b, c) at f)),
              fill_hooks-HasBundle ca hooks n,
            )
            | inr c ↦ (
              hooks,
              w,
              v,
              e,
              b,
              inl (fill_hooks_full ca hooks c, sym (done_world (rw (b, c) at f))),
              fill_hooks-HasBundle ca hooks n,
            )
          ]
        ]
      ]

  -- The parts of the certificates were written to the files of the directory that the server of webhooks
  -- reads, the last one by a call that left `w`.
  abbrev pub IsWritten : Text → Certs → W → Type 0
  IsWritten cert_dir certs w =
      (v1 : W) × (v2 : W) × (v3 : W) × (cluster.write_file (cert_dir, "tls.crt") certs.server_cert
          v1
        ≡ done tt v2)
      × (cluster.write_file (cert_dir, "tls.key") certs.server_key v2 ≡ done tt v3)
      × (cluster.write_file (cert_dir, "ca.crt") certs.ca_cert v3 ≡ done tt w)

  write_certs-IsWritten :
      (cert_dir : Text) (certs : Certs) (w w' : W)
      → write_certs cluster cert_dir certs w ≡ done tt w'
      → IsWritten cert_dir certs w'
  unfolding write_certs
  write_certs-IsWritten cert_dir certs w w' h =
      let g = wrap "error create secret file, %w" [] in
      elim (through (cluster.mkdir_all cert_dir w) _ h) [
        | arrive t v e f ↦
            elim (through (reword g (cluster.write_file (cert_dir, "tls.crt") certs.server_cert) v)
              _ f) [
                | arrive t1 v1 e1 f1 ↦
                    elim (through
                      (reword g (cluster.write_file (cert_dir, "tls.key") certs.server_key) v1) _
                      f1) [
                        | arrive t2 v2 e2 f2 ↦
                            (v, v1, v2, reword-done g _ e1, reword-done g _ e2, reword-done g _ f2)
                      ]
              ]
      ]

  -- A call of `sync_cert` that succeeds has certificates with all three parts, which it read from
  -- the secret or stored there as the one that created it; it wrote them to the files of the
  -- directory; and the configuration holds webhooks, each of which has a bundle then, where the
  -- bundle of a webhook that had none is the CA of the certificates and the others are kept.
  pub sync_cert_lem :
      (generate : Exec W Certs) (ns name cert_dir : Text) (w w' : W)
      → sync_cert cluster generate ns name cert_dir w ≡ done tt w'
      → (certs : Certs) × (v : W) × (u : W) × (lacks_part certs ≡ false)
        × IsShared ns name certs v
        × IsWritten cert_dir certs u
        × IsFilled ns name certs.ca_cert w'
  unfolding sync_cert lacks_part
  sync_cert_lem generate ns name cert_dir w w' h =
      elim (through (cluster_certs cluster generate ns name w) _ h) [
        | arrive certs v e f ↦ elim (Bool-cases (lacks_part certs)) [
          | inl b ↦ cc
          | inr b ↦ elim (through (write_certs cluster cert_dir certs v) _ (rw b at f)) [
            | arrive u v' e' f' ↦ (
              certs,
              v,
              v',
              b,
              cluster_certs-IsShared generate ns name certs w v e,
              write_certs-IsWritten cert_dir certs v v' e',
              sync_webhooks-IsFilled ns name certs.ca_cert v' w' (ground arith) f',
            )
          ]
        ]
      ]
