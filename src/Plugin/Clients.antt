-- ===== src/Plugin/Clients.antt =====
-- initCriClient of internal/deviceplugin/pod_config.go: the container runtime that the plugin talks
-- to.
use alibabacloud_erdma_contr.Prelude.{
  ◌≡◌, ◌≢◌, arith, String, str_eq, Bool, true, false, Option, none, some, List, [], ◌∷◌,
  if◌then◌else◌,
}
use alibabacloud_erdma_contr.Exec.{Res, ok, err, panic, errorf, wrap, done, fail, crash, Exec}
use alibabacloud_erdma_contr.Exec.Act.{◌>>◌, pure, raise, lift, reword, handle}

-- The clients that initCriClient leaves in the two package variables, as the endpoint of the first
-- and whether there is the second.
pub record Clients : Type 0 where
  pub cri : Option String
  pub docker : Bool

-- os.LookupEnv("RUNTIME_SOCK"), os.Stat, NewRemoteRuntimeService and NewClientWithOpts. `exists` is
-- false exactly where errors.IsNotExist holds.
pub record Host : Type 0 where
  pub runtime_sock : Option String
  pub exists : String → Bool
  pub connect : String → Res (Unit {0})
  pub docker_client : Res (Unit {0})

abbrev docker_shim_socket : String
docker_shim_socket = "/var/run/dockershim.sock"

abbrev pub runtime_endpoints : List String
runtime_endpoints =
    docker_shim_socket ∷ "/run/containerd/containerd.sock" ∷ "/run/k3s/containerd/containerd.sock"
    ∷ "/var/run/cri-dockerd.sock" ∷ []

unfoldable pub init_docker_client : Host → Exec Clients (Unit {0})
init_docker_client host =
    handle (lift host.docker_client) (λ u c. done tt (record { cri = c.cri; docker = true }))
      (λ e c. fail e (record { cri = c.cri; docker = false }))

-- criClient, err = NewRemoteRuntimeService(…): a nil client where it fails.
unfoldable pub connect_cri : Host → String → Exec Clients (Unit {0})
connect_cri host sock c = elim (host.connect sock) [
  | ok u ↦ done tt (record { cri = some sock; docker = c.docker })
  | err e ↦ fail e (record { cri = none; docker = c.docker })
  | panic ↦ crash c
]

-- With dockershim a Docker client is needed too.
unfoldable pub docker_too : Host → String → Exec Clients (Unit {0})
unfolding init_docker_client
docker_too host sock = if str_eq sock docker_shim_socket then init_docker_client host else pure tt

unfoldable pub connect_sock : Host → String → Exec Clients (Unit {0})
unfolding connect_cri docker_too
connect_sock host sock = do connect_cri host sock; docker_too host sock

-- The candidates in their order; one that fails is passed over.
unfoldable pub try_endpoints : Host → List String → Exec Clients (Unit {0})
unfolding connect_sock
try_endpoints host [] c = fail (errorf "cannot find valid cri sock in %s" []) c
try_endpoints host (ep ∷ eps) c = elim (host.exists ep) [
  | false ↦ try_endpoints host eps c
  | true ↦ elim (connect_sock host ep c) [
    | done u c' ↦ done tt c'
    | fail e c' ↦ try_endpoints host eps c'
    | crash c' ↦ crash c'
  ]
]

unfoldable pub find_client : Host → List String → Exec Clients (Unit {0})
unfolding try_endpoints connect_cri docker_too
find_client host eps = elim host.runtime_sock [
  | none ↦ try_endpoints host eps
  | some sock ↦
      if host.exists sock
      then (do
        reword (wrap "connect cri sock %s error: %w" (sock ∷ [])) (connect_cri host sock)
        docker_too host sock)
      else raise (errorf "cannot find cri sock %s" (sock ∷ []))
]

unfoldable pub init_cri_client : Host → List String → Exec Clients (Unit {0})
unfolding find_client
init_cri_client host eps c = elim c.cri [ some sock ↦ done tt c | none ↦ find_client host eps c ]

abbrev IsConnected : Clients → Type 0
IsConnected c = c.cri ≢ none

connect_sock-IsConnected :
    (host : Host) (sock : String) (c c' : Clients) (u : Unit {0})
    → connect_sock host sock c ≡ done u c'
    → IsConnected c'
unfolding connect_sock connect_cri docker_too init_docker_client
connect_sock-IsConnected host sock c c' u h = ground arith

try_endpoints-IsConnected :
    (host : Host) (eps : List String) (c c' : Clients) (u : Unit {0})
    → try_endpoints host eps c ≡ done u c'
    → IsConnected c'
unfolding try_endpoints
try_endpoints-IsConnected host [] c c' u h = cc
try_endpoints-IsConnected host (ep ∷ eps) c c' u h =
    grind (arith, try_endpoints-IsConnected host eps, connect_sock-IsConnected host ep c)

find_client-IsConnected :
    (host : Host) (eps : List String) (c c' : Clients) (u : Unit {0})
    → find_client host eps c ≡ done u c'
    → IsConnected c'
unfolding find_client connect_cri docker_too init_docker_client
find_client-IsConnected host eps c c' u h =
    ground (arith, try_endpoints-IsConnected host eps c c' u)

-- A call of `init_cri_client` that succeeded left a client of a runtime: every later call, on any
-- host and with any endpoints, succeeds and changes nothing.
pub init_cri_client_once :
    (host : Host) (eps : List String) (c c' : Clients) (u : Unit {0})
    → init_cri_client host eps c ≡ done u c'
    → (host' : Host) (eps' : List String) → init_cri_client host' eps' c' ≡ done tt c'
unfolding init_cri_client
init_cri_client_once host eps c c' u h host' eps' =
    grind (arith, find_client-IsConnected host eps c c' u)
