-- ===== src/Plugin/Runtime/Examples.antt =====
-- A runtime that speaks only v1alpha2 of the API, and has one sandbox.
use alibabacloud_erdma_contr.Prelude.{
  ◌≡◌, refl, ◌⊎◌, inl, inr, ℕ, pos, true, none, some, [], ◌∷◌, Text, codes, text_eq, if◌then◌else◌,
}
use alibabacloud_erdma_contr.Exec.{Error, ok, remote, done}
use alibabacloud_erdma_contr.Exec.Act.{pure, raise}
use alibabacloud_erdma_contr.Plugin.Runtime.{
  RuntimeClient, Service, PodSandboxStatusResponse, pod_sandbox_status, pod_sandbox_status_v1alpha2,
  from_v1alpha2,
}
use alibabacloud_erdma_contr.Plugin.Runtime.Endpoint.{
  Grpc, Url, parse_endpoint, with_fallback, address_of, parse_endpoint_with_fallback_protocol,
  get_address_and_dialer, get_connection, determine_api_version, new_remote_runtime_service,
}
use alibabacloud_erdma_contr.Plugin.Runtime.Verify.{
  PodSandboxStatus, is_zero, IsSandbox, verify_sandbox_status,
}
use alibabacloud_erdma_contr.Plugin.Runtime.Laws.{
  pod_sandbox_status-IsSandbox, new_remote_runtime_service-IsChosen, IsChosen,
}

abbrev sandbox : PodSandboxStatus ℕ
sandbox = record {
  id = "sb-1";
  metadata = some (record { name = "web"; namespace = "default"; uid = "u-1" });
  created_at = pos 17;
  rest = 0;
}

abbrev sandbox_response : PodSandboxStatusResponse ℕ
sandbox_response = record { status = some sandbox; rest = 0 }

abbrev answering : RuntimeClient ℕ ℕ
answering = record {
  version = λ v. pure (record {
    version = "0.1.0";
    runtime_name = "containerd";
    runtime_version = "1.4";
    runtime_api_version = "v1alpha2";
  });
  status = λ b. pure (record { conditions = some (0 ∷ 1 ∷ []); rest = 0 });
  pod_sandbox_status = λ id b. pure sandbox_response;
  pod_sandbox_stats = λ id. pure none;
  list_pod_sandbox_stats = λ f. pure [];
  list_pod_sandbox = λ f. pure (1 ∷ []);
  list_containers = λ f. pure [];
  list_container_stats = λ f. pure [];
  container_status = λ id b. pure (record { status = none; rest = 0 });
}

-- A server without v1 of the API.
abbrev refusing : RuntimeClient ℕ ℕ
refusing = record answering { version = λ v. raise (remote "unimplemented") }

-- A path alone is a URL without a scheme; behind `unix://` it is the path of the URL.
abbrev parse_url : Text → Error ⊎ Url
parse_url t =
    if text_eq t (codes "/run/cri.sock")
    then inr (record { scheme = []; host = []; path = t })
    else if text_eq t (codes "unix:///run/cri.sock")
    then inr (record { scheme = codes "unix"; host = []; path = codes "/run/cri.sock" })
    else inl (remote "not a URL")

abbrev local_grpc : Grpc ℕ ℕ ℕ
local_grpc = record {
  parse = parse_url;
  dial = λ addr. pure 5;
  new_client = λ conn. refusing;
  new_client_v1alpha2 = λ conn. answering;
  unimplemented = λ e. true;
}

abbrev local_service : Service ℕ ℕ
local_service = record { runtime_client = refusing; runtime_client_v1alpha2 = some answering }

sandbox_answered : pod_sandbox_status local_service "sb-1" true 0 ≡ done sandbox_response 0
unfolding pod_sandbox_status pod_sandbox_status_v1alpha2 from_v1alpha2 verify_sandbox_status is_zero
sandbox_answered = refl

pod_sandbox_status-IsSandbox_example : IsSandbox sandbox
pod_sandbox_status-IsSandbox_example =
    pod_sandbox_status-IsSandbox local_service "sb-1" true 0 0 sandbox_response sandbox
      sandbox_answered refl

service_made :
    new_remote_runtime_service local_grpc (codes "/run/cri.sock") 0 ≡ done local_service 0
unfolding new_remote_runtime_service get_connection determine_api_version get_address_and_dialer
    parse_endpoint_with_fallback_protocol with_fallback address_of parse_endpoint text_eq
service_made = refl

new_remote_runtime_service-IsChosen_example :
    (addr : Text) × (conn : ℕ) × (v : ℕ) × (get_address_and_dialer parse_url (codes "/run/cri.sock")
      ≡ ok addr)
    × (local_grpc.dial addr 0 ≡ done conn v)
    × (local_service.runtime_client ≡ local_grpc.new_client conn)
    × IsChosen local_grpc conn v local_service 0
new_remote_runtime_service-IsChosen_example =
    new_remote_runtime_service-IsChosen local_grpc (codes "/run/cri.sock") 0 0 local_service
      service_made
