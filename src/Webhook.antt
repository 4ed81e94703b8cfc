-- ===== src/Webhook.antt =====
-- The admission handler of internal/webhook/mutating.go: the pods that get an init container for
-- SMC-R.
pub mod Laws
pub mod Examples
use alibabacloud_erdma_contr.Prelude.{
  ℕ, String, str_eq, Text, Bool, true, false, ◌||◌, Option, none, some, List, [], ◌∷◌, ◌++◌, any,
  if◌then◌else◌,
}
use alibabacloud_erdma_contr.Exec.{Error, Res, ok, err, panic, wrap}
use alibabacloud_erdma_contr.Exec.Pure.{◌>>=◌, deref}
use alibabacloud_erdma_contr.Types.{Config, resource_name}

-- Quantities are the texts of their values. A nil map is an empty list: reading it is the same.
pub record Container : Type 0 where
  pub name : String
  pub image : String
  pub image_pull_policy : String
  pub command : List String
  pub requests : List (String × String)
  pub limits : List (String × String)
  pub privileged : Option Bool

-- The part of a pod that the handler reads or writes, and `rest`, the text of what it leaves alone.
pub record Pod : Type 0 where
  pub annotations : Option (List (String × String))
  pub containers : List Container
  pub init_containers : List Container
  pub rest : Text

pub data Response : Type 0 where
  allowed : String → Response
  errored : ℕ → Error → Response
  patched : Text → Text → Response

-- encoding/json on the request's object and on pods.
pub record PodJson : Type 0 where
  pub unmarshal : Text → Res Pod
  pub marshal : Pod → Res Text

pub record Request : Type 0 where
  pub kind : String
  pub object : Text

abbrev pub has_key : List (String × String) → String → Bool
has_key m key = any (λ kv. str_eq kv.0 key) m

unfoldable pub asks_for_erdma : Container → Bool
asks_for_erdma c = has_key c.limits resource_name || has_key c.requests resource_name

unfoldable pub has_rdma : Pod → Bool
unfolding asks_for_erdma
has_rdma pod = any asks_for_erdma (pod.containers ++ pod.init_containers)

abbrev pub pod_annotation_smcr : String
pod_annotation_smcr = "network.alibabacloud.com/erdma-smcr"

abbrev pub default_smc_init_image : String
default_smc_init_image = "registry.cn-hangzhou.aliyuncs.com/erdma/smcr_init:latest"

unfoldable pub smcr_init : String → Container
smcr_init image = record {
  name = "smcr-init";
  image = if str_eq image "" then default_smc_init_image else image;
  image_pull_policy = "Always";
  command = "/usr/local/bin/smcr_init" ∷ [];
  requests = (resource_name, "1") ∷ [];
  limits = (resource_name, "1") ∷ [];
  privileged = some true;
}

unfoldable pub inject : String → Pod → Pod
unfolding smcr_init
inject image pod = record {
  annotations = pod.annotations;
  containers = pod.containers;
  init_containers = pod.init_containers ++ smcr_init image ∷ [];
  rest = pod.rest;
}

-- `a && *p`: the pointer is read only if the first test holds.
abbrev and_deref : Bool → Option Bool → Res Bool
and_deref true p = deref p
and_deref false p = ok false

module _ (json : PodJson) (config : Config) where
  -- json.Marshal of the pod as it came and of the pod as it is sent on.
  unfoldable pub respond_patch : Pod → Pod → Res Response
  respond_patch original pod = elim (json.marshal original) [
    | err e ↦ ok (errored 1 e)
    | panic ↦ panic
    | ok before ↦ elim (json.marshal pod) [
      | err e ↦ ok (errored 1 e)
      | panic ↦ panic
      | ok after ↦ ok (patched before after)
    ]
  ]

  unfoldable pub patch_pod : Pod → List (String × String) → Res Response
  unfolding respond_patch has_rdma inject
  patch_pod pod annotations = do
    rdma ← and_deref (has_rdma pod) config.enable_device_plugin
    if rdma
        then (do
          smcr ←
              and_deref (has_key annotations pod_annotation_smcr)
                config.enable_init_container_inject
          respond_patch pod (if smcr then inject config.smc_init_image pod else pod))
        else ok (allowed "not rdma")

  unfoldable pub pod_webhook : Request → Res Response
  unfolding patch_pod
  pod_webhook req = elim (json.unmarshal req.object) [
    | err e ↦ ok (errored 500 (wrap "failed decoding pod: %s, %w" [] e))
    | panic ↦ panic
    | ok pod ↦ elim pod.annotations [
      | none ↦ ok (allowed "not rdma")
      | some annotations ↦ patch_pod pod annotations
    ]
  ]

  unfoldable pub handle : Request → Res Response
  unfolding pod_webhook
  handle req = do
    enabled ← deref config.enable_webhook
    if enabled
        then (if str_eq req.kind "Pod" then pod_webhook req else ok (allowed "not care"))
        else ok (allowed "webhook not enabled")
