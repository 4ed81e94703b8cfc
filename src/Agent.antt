-- ===== src/Agent.antt =====
-- NewAgent and Run of internal/agent/agent.go, with WaitEriInfo of internal/k8s/k8s.go: the agent
-- of a node finds its devices, installs the driver, and serves the device plugin.
pub mod Laws
pub mod Examples
use alibabacloud_erdma_contr.Prelude.{
  ℕ, zero, suc, ℤ, pos, String, Bool, false, not, ◌&&◌, ◌||◌, str_eq, Option, none, some, List, [],
  ◌∷◌, map, Text, split, is_empty, if◌then◌else◌,
}
use alibabacloud_erdma_contr.Exec.{Res, ok, errorf, wrap, done, fail, crash, Exec, Run}
use alibabacloud_erdma_contr.Exec.Act.{◌>>=◌, ◌>>◌, pure, raise, lift, reword, handle}
use alibabacloud_erdma_contr.Types.{Eri, ERdmaDeviceInfo, DeviceInfo, ERdmaDevice, ERdmaDeviceSpec}
use alibabacloud_erdma_contr.Types.Caps.{has_cap, erdma_cap_smc_r}
use alibabacloud_erdma_contr.Driver.Shell.{Shell}
use alibabacloud_erdma_contr.Driver.Probe.{Sys}
use alibabacloud_erdma_contr.Driver.Pnet.{SmcPnet, config_smc_pnet_for_device}
use alibabacloud_erdma_contr.Driver.Registry.{
  Driver, driver_name, install, probe, registered, get_driver,
}
use alibabacloud_erdma_contr.Driver.Select.{Local, LocalLink, LocalEri, select_eris_local}
use alibabacloud_erdma_contr.Plugin.Allocate.{Plugin, new_plugin}
use alibabacloud_erdma_contr.Plugin.Server.{Os, Server, new_server, serve}

-- What the agent acts on: the commands, links and files of the node, the list of the node's
-- ERdmaDevices in the cluster, what SelectERIs reads, the outcome of initCriClient and of os.Stat
-- on rdma_cm, the system calls of the plugin, and its socket, whose name has the time in it.
-- `string` is the same text as a string.
pub record Node (W : Type 0) : Type 0 where
  pub shell : Shell W
  pub sys : Sys W
  pub smc : SmcPnet W
  pub list_devices : String → Exec W (List ERdmaDevice)
  pub local_view : List Text → Exec W (Local × Res (List LocalLink))
  pub init_cri : Exec W (Unit {0})
  pub rdma_cm_exists : W → Bool
  pub os : Os W
  pub socket : W → Text × Text
  pub string : Text → String

pub record Agent : Type 0 where
  pub node_name : String
  pub driver : Driver
  pub alloc_all_devices : Bool
  pub deviceplugin_pre_start : Bool
  pub local_eri_discovery : Bool
  pub exposed_local_eris : List Text
  pub jumbo_frame_mtu : ℤ

-- The flags of cmd/agent/main.go that NewAgent takes.
pub record Flags : Type 0 where
  pub prefer_driver : String
  pub alloc_all_devices : Bool
  pub deviceplugin_pre_start : Bool
  pub local_eri_discovery : Bool
  pub exposed_local_eris : Text
  pub erdma_installer_version : String
  pub jumbo_frame_mtu : ℤ

unfoldable pub eri_of_device : Agent → Bool → DeviceInfo → Eri
eri_of_device a jumbo_frame d = record {
  id = d.id;
  is_primary_eni = d.is_primary_eni;
  mac = d.mac;
  instance_id = d.instance_id;
  card_index = d.network_card_index;
  queue_pair = pos 0;
  jumbo_frame = jumbo_frame;
  jumbo_frame_mtu = a.jumbo_frame_mtu;
}

-- len(a.exposedLocalERIs) == 1 && a.exposedLocalERIs[0] == ""
unfoldable pub exposes_all : List Text → Bool
exposes_all (e ∷ []) = is_empty e
exposes_all _ = false

-- a.allocAllDevices when the plugin is made.
unfoldable pub allocates_all : Agent → Bool
unfolding exposes_all
allocates_all a =
    a.alloc_all_devices || (a.local_eri_discovery && not (exposes_all a.exposed_local_eris))

module _ {W : Type 0} (node : Node W) where
  -- `node_name` is the variable NODE_NAME, empty where it is not set. NewKubernetes fails without.
  unfoldable pub new_agent : String → Flags → Exec W Agent
  unfolding get_driver registered split
  new_agent node_name flags =
      if str_eq node_name "" then raise (errorf "failed to get NODE_NAME" []) else (do
        driver ← get_driver node.shell registered flags.prefer_driver flags.erdma_installer_version
        pure (record {
          node_name = node_name;
          driver = driver;
          alloc_all_devices = flags.alloc_all_devices;
          deviceplugin_pre_start = flags.deviceplugin_pre_start;
          local_eri_discovery = flags.local_eri_discovery;
          exposed_local_eris = split b',' flags.exposed_local_eris;
          jumbo_frame_mtu = flags.jumbo_frame_mtu;
        }))

  -- WaitEriInfo for a number of rounds, a minute each; none where it still waits.
  unfoldable pub wait_eri_info : ℕ → String → Exec W (Option ERdmaDevice)
  wait_eri_info zero node_name = pure none
  wait_eri_info (suc rounds) node_name =
      let rest = wait_eri_info rounds node_name in
      handle (node.list_devices node_name)
        (λ items. elim items [ [] ↦ rest | d ∷ ds ↦ pure (some d) ])
        (λ e. raise (
          wrap "failed to wait erdma devices, %v" []
            (wrap "failed to list erdma devices, %v" [] e)))

  -- The device of an ERI that was found on the node.
  unfoldable pub device_of_eri : LocalEri → DeviceInfo
  device_of_eri eri = record {
    instance_id = node.string eri.instance_id;
    mac = node.string eri.mac;
    is_primary_eni = eri.is_primary_eni;
    id = node.string eri.id;
    network_card_index = eri.card_index;
    queue_pair = eri.queue_pair;
  }

  unfoldable pub local_spec : Agent → Exec W ERdmaDeviceSpec
  unfolding device_of_eri select_eris_local
  local_spec a = do
    view ← node.local_view a.exposed_local_eris
    eris ←
        reword (wrap "LocalERIDiscovery: select eri failed: %v" [])
          (lift (select_eris_local view.0 view.1))
    pure (record { devices = map device_of_eri eris; jumbo_frame = false })

  -- The devices of the node; none while the cluster has none for it.
  unfoldable pub discover : Agent → ℕ → Exec W (Option ERdmaDeviceSpec)
  unfolding wait_eri_info local_spec
  discover a rounds =
      if a.local_eri_discovery then (do spec ← local_spec a; pure (some spec)) else (do
        found ← wait_eri_info rounds a.node_name
        pure (elim found [ none ↦ none | some d ↦ some d.spec ]))

  unfoldable pub probe_all : Agent → Bool → List DeviceInfo → Exec W (List ERdmaDeviceInfo)
  unfolding eri_of_device probe
  probe_all a jumbo_frame [] = pure []
  probe_all a jumbo_frame (d ∷ ds) = do
    info ←
        reword (wrap "probe device failed, err: %v" [])
          (probe node.sys a.driver (eri_of_device a jumbo_frame d))
    infos ← probe_all a jumbo_frame ds
    pure (info ∷ infos)

  -- The setup of SMC-R is best effort: an error is logged.
  unfoldable pub config_pnets : List ERdmaDeviceInfo → Exec W (Unit {0})
  unfolding has_cap config_smc_pnet_for_device
  config_pnets [] = pure tt
  config_pnets (info ∷ infos) = do
    (if has_cap info.capabilities erdma_cap_smc_r
        then handle (config_smc_pnet_for_device node.smc info) pure (λ e. pure tt)
        else pure tt)
    config_pnets infos

  -- NewERDMADevicePlugin: initCriClient acts on the node, only where the hook is asked for.
  unfoldable pub init_cri_of : Agent → Exec W (Unit {0})
  init_cri_of a = if a.deviceplugin_pre_start then node.init_cri else pure tt

  unfoldable pub make_plugin : Agent → List ERdmaDeviceInfo → Exec W Plugin
  unfolding new_plugin driver_name allocates_all
  make_plugin a infos w =
      lift
        (new_plugin infos (allocates_all a) a.deviceplugin_pre_start
          (str_eq (driver_name a.driver) "default") (ok tt) (node.rdma_cm_exists w))
        w

  unfoldable pub plugin_of : Agent → List ERdmaDeviceInfo → Exec W Plugin
  unfolding init_cri_of make_plugin
  plugin_of a infos =
      reword (wrap "new erdma device plugin failed, err: %v" [])
        (do init_cri_of a; make_plugin a infos)

  -- The steps of Run for the devices that were found, up to the plugin.
  unfoldable pub set_up : Agent → ERdmaDeviceSpec → Exec W Plugin
  unfolding install probe_all config_pnets plugin_of
  set_up a spec = do
    reword (wrap "install eri driver failed, err: %v" []) (install node.shell a.driver)
    infos ← probe_all a spec.jumbo_frame spec.devices
    config_pnets infos
    plugin_of a infos

  unfoldable pub set_up_found : Agent → Option ERdmaDeviceSpec → Exec W (Option Plugin)
  unfolding set_up
  set_up_found a none = pure none
  set_up_found a (some spec) = do plugin ← set_up a spec; pure (some plugin)

  -- Run up to the device plugin that it serves; none while it waits.
  unfoldable pub prepare : Agent → ℕ → Exec W (Option Plugin)
  unfolding discover set_up_found
  prepare a rounds = do found ← discover a rounds; set_up_found a found

  -- The outcome of a run on the server's state, as one on the world.
  abbrev of_server : Run (Server W) (Unit {0}) → Run W (Unit {0})
  of_server (done u p) = done u p.os
  of_server (fail e p) = fail e p.os
  of_server (crash p) = crash p.os

  unfoldable pub serve_plugin : Plugin → Exec W (Unit {0})
  unfolding serve new_server
  serve_plugin plugin w =
      let (socket, endpoint) = node.socket w in
      of_server (serve node.os (new_server socket endpoint plugin.prestart w))

  -- Run up to the rounds of watchKubeletRestart, from which the code does not come back.
  unfoldable pub run : Agent → ℕ → Exec W (Option Plugin)
  unfolding prepare serve_plugin
  run a rounds = do
    prepared ← prepare a rounds
    elim prepared [ none ↦ pure none | some plugin ↦ (do serve_plugin plugin; pure (some plugin)) ]
