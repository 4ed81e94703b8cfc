-- ===== src/Plugin/PodConfig.antt =====
-- getPodConfig of internal/deviceplugin/pod_config.go: the network namespace and
-- the SMC-R setting of a pod, from Docker or from a CRI runtime.
use alibabacloud_erdma_contr.Prelude.{
  ℕ, zero, suc, String, str_eq, Bool, false, ◌&&◌, Option, none, some, List, [], ◌∷◌, find,
  if◌then◌else◌,
}
use alibabacloud_erdma_contr.Exec.{Res, ok, err, panic, errorf, wrap, Exec}
use alibabacloud_erdma_contr.Exec.Act.{◌>>=◌, pure, raise, lift, reword}
use alibabacloud_erdma_contr.Plugin.PodResource.{PodName}

pub record PodConfig : Type 0 where
  pub netns : String
  pub smcr : Bool

-- The fields of ContainerInspect that the code reads: State.Pid and Config.Labels, where they are.
pub record DockerInfo : Type 0 where
  pub pid : Option ℕ
  pub labels : Option (List (String × String))

pub record Namespace : Type 0 where
  pub type : String
  pub path : String

-- The part of a sandbox's information that is decoded from JSON.
pub record SandboxInfoSpec : Type 0 where
  pub namespaces : List Namespace
  pub annotations : List (String × String)

pub record PodSandbox : Type 0 where
  pub id : String
  pub namespace : String
  pub name : String
  pub ready : Bool

-- `host_network` holds where every pointer on the way to the network option is there, and the
-- option is NODE. `info` is Info["info"].
pub record SandboxStatus : Type 0 where
  pub info : Option String
  pub host_network : Bool

-- The two clients, encoding/json, strconv.ParseBool and the path of a process's namespace.
pub record Runtime (W : Type 0) : Type 0 where
  pub container_list : String → String → Exec W (List String)
  pub container_inspect : String → Exec W DockerInfo
  pub list_pod_sandbox : Exec W (List PodSandbox)
  pub pod_sandbox_status : String → Exec W SandboxStatus
  pub unmarshal_spec : String → Res SandboxInfoSpec
  pub parse_bool : String → Res Bool
  pub proc_netns : ℕ → String

abbrev docker_smcr_label : String
docker_smcr_label = "annotation.network.alibabacloud.com/erdma-smcr"

abbrev smcr_annotation : String
smcr_annotation = "network.alibabacloud.com/erdma-smcr"

unfoldable pub value_of : List (String × String) → String → Option String
value_of [] key = none
value_of (kv ∷ m) key = if str_eq kv.0 key then some kv.1 else value_of m key

abbrev pub label_of : Option (List (String × String)) → String → Option String
label_of none key = none
label_of (some m) key = value_of m key

abbrev pub reworded_bool : String → Res Bool → Res Bool
reworded_bool m (ok b) = ok b
reworded_bool m (err e) = err (wrap m [] e)
reworded_bool m panic = panic

-- The error of the parser is not kept.
abbrev replaced_bool : String → Res Bool → Res Bool
replaced_bool m (ok b) = ok b
replaced_bool m (err e) = err (errorf m [])
replaced_bool m panic = panic

module _ {W : Type 0} (runtime : Runtime W) where
  -- A State that is nil or a process 0 is not expected.
  unfoldable pub config_of_docker : DockerInfo → Exec W PodConfig
  unfolding value_of
  config_of_docker info = elim info.pid [
    | none ↦ raise (errorf "pod sandbox state not expect: %v" [])
    | some pid ↦ elim pid [
      | zero ↦ raise (errorf "pod sandbox state not expect: %v" [])
      | suc p ↦ elim (label_of info.labels docker_smcr_label) [
        | none ↦ pure (record { netns = runtime.proc_netns (suc p); smcr = false })
        | some text ↦ (do
          b ← lift (replaced_bool "pod sandbox state not expect: %v" (runtime.parse_bool text))
          pure (record { netns = runtime.proc_netns (suc p); smcr = b }))
      ]
    ]
  ]

  unfoldable pub docker_pod_config : PodName → Exec W PodConfig
  unfolding config_of_docker
  docker_pod_config pod = do
    sandboxes ←
        reword (wrap "get pod sandbox list: %w" []) (runtime.container_list pod.name pod.namespace)
    elim sandboxes [
      | [] ↦ raise (errorf "pod sandbox not found" [])
      | id ∷ rest ↦ (do
        info ← reword (wrap "get pod sandbox inspect: %w" []) (runtime.container_inspect id)
        config_of_docker info)
    ]

  abbrev pub with_smcr : String → SandboxInfoSpec → Exec W PodConfig
  with_smcr path spec = elim (value_of spec.annotations smcr_annotation) [
    | none ↦ pure (record { netns = path; smcr = false })
    | some text ↦ if str_eq text "" then pure (record { netns = path; smcr = false }) else (do
      b ← lift (reworded_bool "failed to parse pod sandbox info: %s, %v" (runtime.parse_bool text))
      pure (record { netns = path; smcr = b }))
  ]

  unfoldable pub config_of_sandbox : Bool → SandboxInfoSpec → Exec W PodConfig
  unfolding value_of
  config_of_sandbox host_network spec =
      if host_network
      then pure (record { netns = "/proc/1/ns/net"; smcr = false })
      else elim (find (λ n. str_eq (Namespace.type n) "network") spec.namespaces) [
        | none ↦ raise (errorf "failed to find network namespace" [])
        | some n ↦
            if str_eq n.path ""
            then raise (errorf "failed to find network namespace" [])
            else with_smcr n.path spec
      ]

  abbrev is_sandbox_of : PodName → PodSandbox → Bool
  is_sandbox_of pod s = str_eq s.namespace pod.namespace && str_eq s.name pod.name && s.ready

  unfoldable pub cri_pod_config : PodName → Exec W PodConfig
  unfolding config_of_sandbox
  cri_pod_config pod = do
    sandboxes ← runtime.list_pod_sandbox
    elim (find (is_sandbox_of pod) sandboxes) [
      | none ↦ raise (errorf "pod sandbox not found" [])
      | some sandbox ↦ (do
        status ← runtime.pod_sandbox_status sandbox.id
        elim status.info [
          | none ↦ raise (errorf "pod sandbox info not found" [])
          | some text ↦ (do
            spec ←
                reword (wrap "failed to parse sandbox info: %v" [])
                  (lift (runtime.unmarshal_spec text))
            config_of_sandbox status.host_network spec)
        ])
    ]

  -- `docker` tells whether initDockerClient set a client.
  unfoldable pub get_pod_config : Bool → PodName → Exec W PodConfig
  unfolding docker_pod_config cri_pod_config
  get_pod_config docker pod = if docker then docker_pod_config pod else cri_pod_config pod
