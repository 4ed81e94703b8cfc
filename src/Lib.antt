-- ===== src/Lib.antt =====
-- alibabacloud-erdma-controller: a model of the controller, the node agent and the webhook that give
-- the pods of a Kubernetes cluster elastic RDMA interfaces (ERIs).
--
-- The parts and how they interact. The node controller watches nodes. For a node that is ready it
-- asks the cloud which interfaces the instance has, selects the ones to use and creates what is
-- missing, and records them in an ERdmaDevice resource. The device controller attaches or converts
-- the interfaces of a resource and reports their states. On the node, the agent brings the network
-- link of each interface up, finds its RDMA link, and offers the devices to the kubelet as a device
-- plugin. The webhook adds an init container to pods that use SMC-R.
--
-- The files and what they model:
--   Prelude, Exec          shared names, lists and texts; outcomes of Go calls: a value, an error or
--                          a panic, alone (Res) or with the world that a call leaves (Run)
--   Types                  internal/types/eri.go, internal/types/config.go, api/v1/erdmadevice_types.go
--   Ecs, Kube              the cloud API and the cluster client, as interfaces over a world W
--   Eri/*                  internal/controller/eri.go: Client has OwnENI, eniCardIndex and toEri;
--                          Select has SelectEriFromExist; Create has CreateEriForInstance; Choose
--                          has InstanceIDFromNode, EnsureEriTags, ConvertPrimaryENI,
--                          IsJumboFrameEnabled and SelectERIs; Ensure has EnsureEriForInstance;
--                          Connect has NewEriClient; Frame says what all of them leave alone
--   Controller/*           internal/controller/node_controller.go (Watch: isNodeReady, OwnNode,
--                          PredictNodeUpdate; Backfill: backfillEriTags; Remove: RemoveERdmaDevices;
--                          Node: Reconcile) and erdmadevice_controller.go (Device: Reconcile);
--                          Setup has SetupWithManager of both, and Life the two reconcilers at
--                          work on one cluster
--   Main                   cmd/controller/main.go: the start of the controller, composed of the
--                          models of Settings, Cert, Eri and Controller
--   Credential             internal/controller/credential.go: getCredential and the STS token
--   Settings               internal/config/config.go: parseConfig, parseCredential and InitConfig
--   Webhook                internal/webhook/mutating.go: the handler and podWebhook
--   Plugin/*               internal/deviceplugin: Devices and Allocate have NewERDMADevicePlugin,
--                          the ids of ListAndWatch, and Allocate; Server has Start, Stop, Register,
--                          cleanup, Serve, watchKubeletRestart and ListAndWatch; PreStart has
--                          PreStartContainer (Host: what the commands do, InitContainer: the
--                          comparison with smcr_init); PodResource has getPodDevices and
--                          getDevPod; PodConfig has getPodConfig; Clients has initCriClient; Runtime has the
--                          remoteRuntimeService of pod_config.go (Verify: the checks of a status,
--                          Listing: statistics and lists, Endpoint: its construction, Unused:
--                          the methods that do nothing)
--   Net/*                  internal/drivers/netdev.go and mtu.go: Mtu, Routes and Device
--   Driver/*               internal/drivers: of utils_linux.go Expose has checkExpose, Guid has
--                          GetERdmaFromLink and parseERdmaLinkHwAddr, Select has SelectERIs, and
--                          Pnet the uses of smc_pnet, with cmd/smcr_init/main.go; Shell has the
--                          commands of utils_linux.go and utils.go; Install and Probe have Install
--                          and ProbeDevice of default.go, compat.go and ofed.go; Registry has
--                          GetDriver of driver.go; Other the drivers of other builds
--   Agent                  internal/agent/agent.go and internal/k8s/k8s.go: NewAgent, WaitEriInfo
--                          and Run, composed of the models of Driver, Net and Plugin
--   Metadata               internal/utils/metadata.go: the metadata server, its token and retries
--   Cert                   internal/cert/webhook.go: SyncCert and GenerateCerts
-- A function keeps its name in snake case. Its parts (loops, branches) are definitions of their own,
-- next to it. A module Laws, or one named for a topic, has the theorems of the module above it;
-- Examples has the runs on concrete inputs.
--
-- State and effects. A call that acts on the cloud, the cluster, the kernel or the file system is a
-- field of an interface over a world W, and may answer, fail or panic in any way; theorems hold for
-- every such interface unless they name what they ask of it. In Plugin/Server and Driver/Pnet an
-- error of a function that returns none is the end of the process in klog.Fatalf or log.Fatal.
-- taggedENIs is passed and returned as the list of its members; an STS token is the world of the
-- operations on it. A Go map is a list of its entries in some order. Logging is left out, except
-- that what a log line evaluates and may panic on is evaluated. The functions of samber/lo (Filter,
-- Find, Map, ContainsBy, IndexOf, SliceToMap) are taken as documented. An instance that the cloud
-- lists has its type, so that the error message of SelectERIs that dereferences it does not panic.
-- The read of a resource in CreateOrPatch is current; a listing may come from a cache of any age.
--
-- Interleavings. In Controller/Life a step is one reconciliation of a node or of a resource, with
-- whatever answers its calls get, or a change from outside; the API server refuses an update of
-- another version, and a write that answers with an error may have been done or not.
--
-- Numbers. Counts and indices in the cloud's answers are natural numbers, as the API documents them;
-- the conversions to int32 are written out (int32 of Prelude/Ints). Sums of int, which has 64 bits,
-- are not bounded. Loops are structural. The decimal digits of a number n have fuel n + 1, more than
-- its digits. Times are seconds. The loop of getWithToken has fuel 2, and a theorem says that more
-- changes nothing; WaitEriInfo has as many rounds as it is given, since nothing bounds its wait.
--
-- Not modelled: the parsing of the flags of cmd/controller/main.go and cmd/agent/main.go; what the
-- manager does with the controllers once it is started, but for the reconciliations in some order
-- (Controller/Life); deadlines, and the concurrency of the gRPC server, whose handlers read what
-- does not change while it runs; and generated code.
pub mod Prelude
pub mod Exec
pub mod Types
pub mod Ecs
pub mod Eri
pub mod Kube
pub mod Controller
pub mod Plugin
pub mod Net
pub mod Driver
pub mod Webhook
pub mod Settings
pub mod Credential
pub mod Agent
pub mod Metadata
pub mod Cert
pub mod Main
