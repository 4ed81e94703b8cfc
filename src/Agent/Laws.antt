-- ===== src/Agent/Laws.antt =====
-- What the agent serves: one device for each device of its node, in their order.
use alibabacloud_erdma_contr.Prelude.{
  ◌≡◌, ◌≢◌, inl, inr, Bool-cases, false, not, ◌&&◌, List, [], ◌∷◌, All, Text, codes, str_eq,
}
use alibabacloud_erdma_contr.Exec.{Error, Run, done, fail, crash}
use alibabacloud_erdma_contr.Exec.Act.{pure, branch, fail-then}
use alibabacloud_erdma_contr.Types.{ERdmaDeviceInfo, DeviceInfo}
use alibabacloud_erdma_contr.Types.Caps.{has_cap, erdma_cap_smc_r}
use alibabacloud_erdma_contr.Driver.Pnet.{config_smc_pnet_for_device}
use alibabacloud_erdma_contr.Driver.Registry.{Driver, driver_name}
use alibabacloud_erdma_contr.Plugin.Allocate.{Plugin}
use alibabacloud_erdma_contr.Plugin.Allocate.Order.{Distinct, HasDevice}
use mathlib.Core.List.{Mem}
use alibabacloud_erdma_contr.Agent.{Node, Agent, config_pnets, allocates_all}

abbrev pub info_mac : ERdmaDeviceInfo → Text
info_mac info = info.mac

abbrev pub device_mac : DeviceInfo → Text
device_mac d = codes d.mac

-- What the plugin has of the agent: its devices are among those probed and have names of their own,
-- and each name of those probed is the name of one.
abbrev pub IsPluginOf : Agent → List ERdmaDeviceInfo → Plugin → Type 0
IsPluginOf a infos p =
    Distinct p.devices
    × All (λ d. Mem d infos) p.devices
    × All (λ (d : ERdmaDeviceInfo). HasDevice p.devices d.name) infos
    × (p.alloc_all_devices ≡ allocates_all a)
    × ((p.alloc_rdma_cm && not (str_eq (driver_name a.driver) "default")) ≡ false)

module _ {W : Type 0} (node : Node W) where
  best_effort : (r : Run W (Unit {0})) (e : Error) (w : W) → branch r pure (λ x. pure tt) ≢ fail e w
  best_effort (done u v) e w h = cc
  best_effort (fail x v) e w h = cc
  best_effort (crash v) e w h = cc

  -- The setup of SMC-R for the devices never ends in an error, whatever smc_pnet does.
  pub config_pnets_no_error :
      (infos : List ERdmaDeviceInfo) (e : Error) (w w' : W) → config_pnets node infos w ≢ fail e w'
  unfolding config_pnets
  config_pnets_no_error [] e w w' h = cc
  config_pnets_no_error (info ∷ infos) e w w' h = elim (fail-then _ (config_pnets node infos) h) [
    | inl k ↦ elim (Bool-cases (has_cap info.capabilities erdma_cap_smc_r)) [
      | inl b ↦ best_effort (config_smc_pnet_for_device node.smc info w) e w' (rw b at k)
      | inr b ↦ cc
    ]
    | inr k ↦ config_pnets_no_error infos e k.0 w' k.1
  ]
