-- ===== src/Plugin/Runtime/Laws.antt =====
-- The two versions of the CRI API behind one service, and what a status that it returns has.
use alibabacloud_erdma_contr.Prelude.{
  ◌≡◌, refl, arith, ◌⊎◌, inl, inr, String, Bool, true, Option, Option-cases, none, some, Text,
}
use alibabacloud_erdma_contr.Exec.{Error, ok, done, fail}
use alibabacloud_erdma_contr.Exec.Act.{lift, through, arrive, reword-done, lift-done}
use alibabacloud_erdma_contr.Plugin.Runtime.{
  RuntimeClient, Service, PodSandboxStatusResponse, ContainerStatusResponse, version, version_v1,
  version_v1alpha2, status, status_v1, status_v1alpha2, pod_sandbox_status, pod_sandbox_status_v1,
  pod_sandbox_status_v1alpha2, container_status, container_status_v1, container_status_v1alpha2,
  from_v1alpha2, VersionResponse,
}
use alibabacloud_erdma_contr.Plugin.Runtime.Listing.{
  to_v1alpha2, pod_sandbox_stats, pod_sandbox_stats_v1, pod_sandbox_stats_v1alpha2,
  list_pod_sandbox_stats, list_pod_sandbox_stats_v1, list_pod_sandbox_stats_v1alpha2,
  list_pod_sandbox, list_pod_sandbox_v1, list_pod_sandbox_v1alpha2, list_containers,
  list_containers_v1, list_containers_v1alpha2, list_container_stats, list_container_stats_v1,
  list_container_stats_v1alpha2,
}
use alibabacloud_erdma_contr.Plugin.Runtime.Endpoint.{
  Grpc, get_address_and_dialer, get_connection, determine_api_version, new_remote_runtime_service,
}
use alibabacloud_erdma_contr.Plugin.Runtime.Verify.{
  PodSandboxStatus, ContainerStatus, IsSandbox, IsContainer, verify_sandbox_status,
  verify_container_status, verify_sandbox_status_iff, verify_container_status_iff,
}

module _ {W X : Type 0} where
  abbrev pub over_v1 : RuntimeClient W X → Service W X
  over_v1 c = record { runtime_client = c; runtime_client_v1alpha2 = none }

  abbrev over_v1alpha2 : RuntimeClient W X → RuntimeClient W X → Service W X
  over_v1alpha2 c d = record { runtime_client = c; runtime_client_v1alpha2 = some d }

  -- A service over the v1alpha2 API does in every operation, from every world, what a service over
  -- the v1 API does whose client answers as the v1alpha2 client.
  pub versions_agree :
      (c d : RuntimeClient W X) (id : String) (verbose : Bool) (filter : Option X)
      → (version (over_v1alpha2 c d) id ≡ version (over_v1 d) id)
        × (status (over_v1alpha2 c d) verbose ≡ status (over_v1 d) verbose)
        × (pod_sandbox_status (over_v1alpha2 c d) id verbose
            ≡ pod_sandbox_status (over_v1 d) id verbose)
        × (container_status (over_v1alpha2 c d) id verbose
            ≡ container_status (over_v1 d) id verbose)
        × (pod_sandbox_stats (over_v1alpha2 c d) id ≡ pod_sandbox_stats (over_v1 d) id)
        × (list_pod_sandbox_stats (over_v1alpha2 c d) filter
            ≡ list_pod_sandbox_stats (over_v1 d) filter)
        × (list_pod_sandbox (over_v1alpha2 c d) filter ≡ list_pod_sandbox (over_v1 d) filter)
        × (list_containers (over_v1alpha2 c d) filter ≡ list_containers (over_v1 d) filter)
        × (list_container_stats (over_v1alpha2 c d) filter
            ≡ list_container_stats (over_v1 d) filter)
  unfolding version version_v1 version_v1alpha2 status status_v1 status_v1alpha2 pod_sandbox_status
      pod_sandbox_status_v1 pod_sandbox_status_v1alpha2 container_status container_status_v1
      container_status_v1alpha2 from_v1alpha2 to_v1alpha2 pod_sandbox_stats pod_sandbox_stats_v1
      pod_sandbox_stats_v1alpha2 list_pod_sandbox_stats list_pod_sandbox_stats_v1
      list_pod_sandbox_stats_v1alpha2 list_pod_sandbox list_pod_sandbox_v1 list_pod_sandbox_v1alpha2
      list_containers list_containers_v1 list_containers_v1alpha2 list_container_stats
      list_container_stats_v1 list_container_stats_v1alpha2
  versions_agree c d id verbose filter = (refl, refl, refl, refl, refl, refl, refl, refl, refl)

  sandbox_v1-IsSandbox :
      (c : RuntimeClient W X) (id : String) (verbose : Bool) (w w' : W)
      (r : PodSandboxStatusResponse X) (st : PodSandboxStatus X)
      → pod_sandbox_status_v1 c id verbose w ≡ done r w'
      → r.status ≡ some st
      → verify_sandbox_status st ≡ ok tt
  unfolding pod_sandbox_status_v1
  sandbox_v1-IsSandbox c id verbose w w' r st h e =
      elim (through (c.pod_sandbox_status id verbose w) _ h) [ arrive a v e1 f1 ↦ ground arith ]

  container_v1-IsContainer :
      (c : RuntimeClient W X) (id : String) (verbose : Bool) (w w' : W)
      (r : ContainerStatusResponse X) (st : ContainerStatus X)
      → container_status_v1 c id verbose w ≡ done r w'
      → r.status ≡ some st
      → verify_container_status st ≡ ok tt
  unfolding container_status_v1
  container_v1-IsContainer c id verbose w w' r st h e =
      elim (through (c.container_status id verbose w) _ h) [ arrive a v e1 f1 ↦ ground arith ]

  -- Where the service returns the status of a sandbox, over either version of the API, the status
  -- has all its required fields, if it is there.
  pub pod_sandbox_status-IsSandbox :
      (s : Service W X) (id : String) (verbose : Bool) (w w' : W) (r : PodSandboxStatusResponse X)
      (st : PodSandboxStatus X)
      → pod_sandbox_status s id verbose w ≡ done r w'
      → r.status ≡ some st
      → IsSandbox st
  unfolding pod_sandbox_status pod_sandbox_status_v1 pod_sandbox_status_v1alpha2 from_v1alpha2
  pod_sandbox_status-IsSandbox s id verbose w w' r st h e =
      (verify_sandbox_status_iff st).0 (elim (Option-cases s.runtime_client_v1alpha2) [
        | inl n ↦ sandbox_v1-IsSandbox s.runtime_client id verbose w w' r st (rw n at h) e
        | inr c ↦ sandbox_v1-IsSandbox c.0 id verbose w w' r st (rw c.1 at h) e
      ])

  -- Where the service returns the status of a container, over either version of the API, the
  -- status has all its required fields, if it is there.
  pub container_status-IsContainer :
      (s : Service W X) (id : String) (verbose : Bool) (w w' : W) (r : ContainerStatusResponse X)
      (st : ContainerStatus X)
      → container_status s id verbose w ≡ done r w'
      → r.status ≡ some st
      → IsContainer st
  unfolding container_status container_status_v1 container_status_v1alpha2 from_v1alpha2
  container_status-IsContainer s id verbose w w' r st h e =
      (verify_container_status_iff st).0 (elim (Option-cases s.runtime_client_v1alpha2) [
        | inl n ↦ container_v1-IsContainer s.runtime_client id verbose w w' r st (rw n at h) e
        | inr c ↦ container_v1-IsContainer c.0 id verbose w w' r st (rw c.1 at h) e
      ])

module _ {W X C : Type 0} (grpc : Grpc W X C) where
  -- How the version of the API was chosen: v1, whose Version was answered, or v1alpha2, after v1
  -- had said that it is not implemented.
  abbrev pub IsChosen : C → W → Service W X → W → Type 0
  IsChosen conn v s w =
      ((r : VersionResponse) × ((grpc.new_client conn).version "" v ≡ done r w)
        × (s.runtime_client_v1alpha2 ≡ none))
      ⊎ ((e : Error) × ((grpc.new_client conn).version "" v ≡ fail e w)
          × (grpc.unimplemented e ≡ true)
          × (s.runtime_client_v1alpha2 ≡ some (grpc.new_client_v1alpha2 conn)))

  determine_api_version-IsChosen :
      (conn : C) (v w : W) (s : Service W X)
      → determine_api_version grpc conn v ≡ done s w
      → (s.runtime_client ≡ grpc.new_client conn) × IsChosen conn v s w
  unfolding determine_api_version
  determine_api_version-IsChosen conn v w s h = ground arith

  -- A service that `new_remote_runtime_service` returns talks over a connection to the address of
  -- the endpoint, by v1 of the API if that answered Version, and by v1alpha2 only if v1 said that
  -- it is not implemented.
  pub new_remote_runtime_service-IsChosen :
      (endpoint : Text) (w w' : W) (s : Service W X)
      → new_remote_runtime_service grpc endpoint w ≡ done s w'
      → (addr : Text) × (conn : C) × (v : W) × (get_address_and_dialer grpc.parse endpoint
          ≡ ok addr)
        × (grpc.dial addr w ≡ done conn v)
        × (s.runtime_client ≡ grpc.new_client conn)
        × IsChosen conn v s w'
  unfolding new_remote_runtime_service get_connection
  new_remote_runtime_service-IsChosen endpoint w w' s h =
      elim (through (get_connection grpc endpoint w) _ h) [
        | arrive conn v e1 f1 ↦
            elim (through (lift (get_address_and_dialer grpc.parse endpoint) w) _ e1) [
              | arrive addr v' e2 f2 ↦
                  let (a, k) = lift-done (get_address_and_dialer grpc.parse endpoint) e2 in
                  let (c, l) = determine_api_version-IsChosen conn v w' s f1 in
                  (addr, conn, v, a, rw k at (reword-done _ (grpc.dial addr v') f2), c, l)
            ]
      ]
