-- ===== src/Plugin/Runtime.antt =====
-- remoteRuntimeService of internal/deviceplugin/pod_config.go: a CRI runtime behind one of the two
-- versions of its API. The generated clients are parameters. The messages of the two versions have
-- the same layout, and are the same records here; `X` stands for what the code passes on unread.
-- The deadlines of the contexts are part of the clients.
pub mod Verify
pub mod Listing
pub mod Endpoint
pub mod Unused
pub mod Laws
pub mod Examples
use alibabacloud_erdma_contr.Prelude.{
  String, str_eq, Bool, true, false, ◌||◌, Option, none, some, List, [], length, ltb, if◌then◌else◌,
}
use alibabacloud_erdma_contr.Exec.{errorf, Exec}
use alibabacloud_erdma_contr.Exec.Act.{◌>>=◌, ◌>>◌, pure, raise, lift}
use alibabacloud_erdma_contr.Plugin.Runtime.Verify.{
  PodSandboxStatus, ContainerStatus, verify_sandbox_status, verify_container_status,
}

pub record VersionResponse : Type 0 where
  pub version : String
  pub runtime_name : String
  pub runtime_version : String
  pub runtime_api_version : String

-- The conditions of the status, where it is there.
pub record StatusResponse (X : Type 0) : Type 0 where
  pub conditions : Option (List X)
  pub rest : X

pub record PodSandboxStatusResponse (X : Type 0) : Type 0 where
  pub status : Option (PodSandboxStatus X)
  pub rest : X

pub record ContainerStatusResponse (X : Type 0) : Type 0 where
  pub status : Option (ContainerStatus X)
  pub rest : X

-- The calls of a generated client that the service makes. A filter may be nil.
pub record RuntimeClient (W X : Type 0) : Type 0 where
  pub version : String → Exec W VersionResponse
  pub status : Bool → Exec W (StatusResponse X)
  pub pod_sandbox_status : String → Bool → Exec W (PodSandboxStatusResponse X)
  pub pod_sandbox_stats : String → Exec W (Option X)
  pub list_pod_sandbox_stats : Option X → Exec W (List X)
  pub list_pod_sandbox : Option X → Exec W (List X)
  pub list_containers : Option X → Exec W (List X)
  pub list_container_stats : Option X → Exec W (List X)
  pub container_status : String → Bool → Exec W (ContainerStatusResponse X)

pub record Service (W X : Type 0) : Type 0 where
  pub runtime_client : RuntimeClient W X
  pub runtime_client_v1alpha2 : Option (RuntimeClient W X)

-- The conversions go through unsafe.Pointer: they keep the memory of the message.
unfoldable pub from_v1alpha2 {ℓ} : {A : Type ℓ} → A → A
from_v1alpha2 a = a

-- typedVersion.Version == "" || …
unfoldable pub is_partial : VersionResponse → Bool
is_partial v =
    str_eq v.version ""
    || str_eq v.runtime_name ""
    || str_eq v.runtime_api_version ""
    || str_eq v.runtime_version ""

-- resp.Status == nil || len(resp.Status.Conditions) < 2
unfoldable pub lacks_conditions : {X : Type 0} → StatusResponse X → Bool
lacks_conditions r = elim r.conditions [ none ↦ true | some l ↦ ltb (length l) 2 ]

module _ {W X : Type 0} where
  unfoldable pub use_v1_api : Service W X → Bool
  use_v1_api s = elim s.runtime_client_v1alpha2 [ none ↦ true | some c ↦ false ]

  -- The choice that every operation makes: the first function is called with the v1 client, the
  -- second with the v1alpha2 client.
  abbrev pub with_client {ℓ} :
      {B : Type ℓ} → Service W X → (RuntimeClient W X → B) → (RuntimeClient W X → B) → B
  with_client s v1 v1alpha2 = elim s.runtime_client_v1alpha2 [
    | none ↦ v1 s.runtime_client
    | some c ↦ v1alpha2 c
  ]

  unfoldable pub version_v1 : RuntimeClient W X → String → Exec W VersionResponse
  unfolding is_partial
  version_v1 c api_version = do
    typed_version ← c.version api_version
    (if is_partial typed_version
        then raise (errorf "not all fields are set in VersionResponse (%q)" [])
        else pure typed_version)

  unfoldable pub version_v1alpha2 : RuntimeClient W X → String → Exec W VersionResponse
  unfolding is_partial from_v1alpha2
  version_v1alpha2 c api_version = do
    typed_version ← c.version api_version
    (if is_partial typed_version
        then raise (errorf "not all fields are set in VersionResponse (%q)" [])
        else pure (from_v1alpha2 typed_version))

  unfoldable pub version : Service W X → String → Exec W VersionResponse
  unfolding version_v1 version_v1alpha2
  version s = with_client s version_v1 version_v1alpha2

  unfoldable pub status_v1 : RuntimeClient W X → Bool → Exec W (StatusResponse X)
  unfolding lacks_conditions
  status_v1 c verbose = do
    resp ← c.status verbose
    (if lacks_conditions resp
        then raise (errorf "RuntimeReady or NetworkReady condition are not set" [])
        else pure resp)

  unfoldable pub status_v1alpha2 : RuntimeClient W X → Bool → Exec W (StatusResponse X)
  unfolding lacks_conditions from_v1alpha2
  status_v1alpha2 c verbose = do
    resp ← c.status verbose
    (if lacks_conditions resp
        then raise (errorf "RuntimeReady or NetworkReady condition are not set" [])
        else pure (from_v1alpha2 resp))

  unfoldable pub status : Service W X → Bool → Exec W (StatusResponse X)
  unfolding status_v1 status_v1alpha2
  status s = with_client s status_v1 status_v1alpha2

  -- `if res.Status != nil { if err := verifySandboxStatus(res.Status); … }`
  abbrev verified_sandbox : PodSandboxStatusResponse X → Exec W (Unit {0})
  verified_sandbox r = elim r.status [ none ↦ pure tt | some st ↦ lift (verify_sandbox_status st) ]

  abbrev verified_container : ContainerStatusResponse X → Exec W (Unit {0})
  verified_container r = elim r.status [
    | none ↦ pure tt
    | some st ↦ lift (verify_container_status st)
  ]

  unfoldable pub pod_sandbox_status_v1 :
      RuntimeClient W X → String → Bool → Exec W (PodSandboxStatusResponse X)
  pod_sandbox_status_v1 c id verbose = do
    resp ← c.pod_sandbox_status id verbose
    verified_sandbox resp
    pure resp

  unfoldable pub pod_sandbox_status_v1alpha2 :
      RuntimeClient W X → String → Bool → Exec W (PodSandboxStatusResponse X)
  unfolding from_v1alpha2
  pod_sandbox_status_v1alpha2 c id verbose = do
    resp ← c.pod_sandbox_status id verbose
    verified_sandbox (from_v1alpha2 resp)
    pure (from_v1alpha2 resp)

  unfoldable pub pod_sandbox_status :
      Service W X → String → Bool → Exec W (PodSandboxStatusResponse X)
  unfolding pod_sandbox_status_v1 pod_sandbox_status_v1alpha2
  pod_sandbox_status s = with_client s pod_sandbox_status_v1 pod_sandbox_status_v1alpha2

  unfoldable pub container_status_v1 :
      RuntimeClient W X → String → Bool → Exec W (ContainerStatusResponse X)
  container_status_v1 c id verbose = do
    resp ← c.container_status id verbose
    verified_container resp
    pure resp

  -- The test for nil is of the message before its conversion.
  unfoldable pub container_status_v1alpha2 :
      RuntimeClient W X → String → Bool → Exec W (ContainerStatusResponse X)
  unfolding from_v1alpha2
  container_status_v1alpha2 c id verbose = do
    resp ← c.container_status id verbose
    verified_container resp
    pure (from_v1alpha2 resp)

  unfoldable pub container_status : Service W X → String → Bool → Exec W (ContainerStatusResponse X)
  unfolding container_status_v1 container_status_v1alpha2
  container_status s = with_client s container_status_v1 container_status_v1alpha2
