-- ===== src/Webhook/Laws.antt =====
-- What the defaults of the configuration file do for the admission handler.
use alibabacloud_erdma_contr.Prelude.{
  ◌≡◌, ◌≢◌, refl, sym, ap, ◌∙◌, String, Text, Bool, true, Option, none, some, List, arith,
}
use alibabacloud_erdma_contr.Exec.{Res, ok, err, panic}
use alibabacloud_erdma_contr.Exec.Pure.{ok_value, ◌>>=◌, via, through}
use alibabacloud_erdma_contr.Types.{Config}
use alibabacloud_erdma_contr.Settings.{
  Env, parse_config, read_config, decode_config, complete, region_of, with_defaults, reworded,
  or_true, or_text, default_config_path,
}
use alibabacloud_erdma_contr.Webhook.{
  Pod, PodJson, Request, handle, pod_webhook, patch_pod, has_rdma, has_key, pod_annotation_smcr,
  respond_patch, inject as injected,
}

-- The fields of a configuration that the handler dereferences, as the file's text leaves them.
pub data Parsed (env : Env) (path : String) (c : Config) : Type 0 where
  parsed :
      (text : Text) (d : Config)
      → env.read_file (or_text path default_config_path) ≡ ok text
      → env.unmarshal_config text ≡ ok d
      → c.enable_webhook ≡ or_true d.enable_webhook
      → c.enable_device_plugin ≡ or_true d.enable_device_plugin
      → c.enable_init_container_inject ≡ d.enable_init_container_inject
      → Parsed env path c

reworded-ok {ℓ} : {A : Type ℓ} (m : String) (r : Res A) {a : A} → reworded m r ≡ ok a → r ≡ ok a
reworded-ok m (ok a) h = h
reworded-ok m (err e) h = cc
reworded-ok m panic h = cc

pub parse_config-Parsed :
    (env : Env) (path : String) {c : Config} → parse_config env path ≡ ok c → Parsed env path c
unfolding parse_config with_defaults
parse_config-Parsed env path h =
    elim (through (read_config env path) (λ text. decode_config env text >>= complete env) h) [
      | via text e1 h1 ↦ elim (through (decode_config env text) (complete env) h1) [
        | via d e2 h2 ↦ elim (through (region_of env d) (λ r. ok (with_defaults d r)) h2) [
          | via region e3 h3 ↦
              parsed text d (reworded-ok _ _ e1) (reworded-ok _ _ e2) (grind arith) (grind arith)
                (grind arith)
        ]
      ]
    ]

-- encoding/json returns an error where it fails.
pub record Returns (json : PodJson) : Type 0 where
  pub unmarshal_returns : (t : Text) → json.unmarshal t ≢ panic
  pub marshal_returns : (p : Pod) → json.marshal p ≢ panic

module _ (json : PodJson) (returns : Returns json) (c : Config) where
  respond_patch-returns : (a b : Pod) → respond_patch json c a b ≢ panic
  unfolding respond_patch
  respond_patch-returns a b h = ground (arith, returns.marshal_returns a, returns.marshal_returns b)

  patch_pod-returns :
      {plugin inject : Bool} (pod : Pod) (annotations : List (String × String))
      → c.enable_device_plugin ≡ some plugin
      → c.enable_init_container_inject ≡ some inject
      → patch_pod json c pod annotations ≢ panic
  unfolding patch_pod
  patch_pod-returns pod annotations e f h = ground (
    arith,
    respond_patch-returns pod pod,
    respond_patch-returns pod (injected c.smc_init_image pod),
  )

  handle-returns :
      {webhook plugin inject : Bool} (req : Request)
      → c.enable_webhook ≡ some webhook
      → c.enable_device_plugin ≡ some plugin
      → c.enable_init_container_inject ≡ some inject
      → handle json c req ≢ panic
  unfolding handle pod_webhook
  handle-returns req e f g h =
      let go : (pod : Pod) (an : List (String × String)) → patch_pod json c pod an ≢ panic =
        λ pod an. patch_pod-returns pod an f g in
      grind (arith, returns.unmarshal_returns req.object, go)

or_true-some : (o : Option Bool) → (b : Bool) × (or_true o ≡ some b)
or_true-some none = (true, refl)
or_true-some (some b) = (b, refl)

-- With a configuration that `parse_config` returned and that sets enableInitContainerInject, the
-- handler answers every request without a panic, provided that encoding/json does not panic.
pub parse_config-handle :
    (json : PodJson)
    → Returns json
    → (env : Env) (path : String) (c : Config) (inject : Bool) → parse_config env path ≡ ok c
    → c.enable_init_container_inject ≡ some inject
    → (req : Request) → handle json c req ≢ panic
parse_config-handle json returns env path c inject h i req = elim (parse_config-Parsed env path h) [
  | parsed text d r e f g k ↦
      handle-returns json returns c req (f ∙ (or_true-some d.enable_webhook).1)
        (g ∙ (or_true-some d.enable_device_plugin).1) i
]

-- With a configuration file that is read and decoded with none of enableWebhook, enableDevicePlugin
-- and enableInitContainerInject set, `parse_config` returns a configuration with which the handler
-- panics on every pod that asks for a device and has the annotation for SMC-R.
pub parse_config-handle_panics :
    (json : PodJson) (env : Env) (path : String) (text : Text) (d c : Config)
    → env.read_file (or_text path default_config_path) ≡ ok text
    → env.unmarshal_config text ≡ ok d
    → d.enable_webhook ≡ none
    → d.enable_device_plugin ≡ none
    → d.enable_init_container_inject ≡ none
    → parse_config env path ≡ ok c
    → (object : Text) (pod : Pod) (annotations : List (String × String))
    → json.unmarshal object ≡ ok pod
    → pod.annotations ≡ some annotations
    → has_rdma pod ≡ true
    → has_key annotations pod_annotation_smcr ≡ true
    → handle json c (record { kind = "Pod"; object = object }) ≡ panic
unfolding handle pod_webhook patch_pod
parse_config-handle_panics json env path text d c read decoded n1 n2 n3 h object pod annotations u a
      r s =
    elim (parse_config-Parsed env path h) [
      | parsed text' d' e0 e f g k ↦
          let t : text' ≡ text = ok_value (sym e0 ∙ read) in
          let same : d' ≡ d = ok_value (sym e ∙ ap env.unmarshal_config t ∙ decoded) in
          let f' : c.enable_webhook ≡ or_true none =
            f ∙ ap or_true (ap (λ (x : Config). x.enable_webhook) same ∙ n1) in
          let g' : c.enable_device_plugin ≡ or_true none =
            g ∙ ap or_true (ap (λ (x : Config). x.enable_device_plugin) same ∙ n2) in
          let k' : c.enable_init_container_inject ≡ none =
            k ∙ ap (λ (x : Config). x.enable_init_container_inject) same ∙ n3 in
          ground arith
    ]
