-- ===== src/Plugin/PreStart.antt =====
-- PreStartContainer of internal/deviceplugin/deviceplugin.go, and ConfigForNetnsNetDevice of
-- internal/drivers/utils_linux.go: the setup of SMC-R in a pod's network namespace.
pub mod Host
pub mod Network
pub mod Laws
pub mod InitContainer
pub mod Examples
use alibabacloud_erdma_contr.Prelude.{
  String, Bool, Option, none, some, List, [], ◌∷◌, Text, codes, if◌then◌else◌,
}
use alibabacloud_erdma_contr.Exec.{errorf, wrap, Exec}
use alibabacloud_erdma_contr.Exec.Pure.{deref}
use alibabacloud_erdma_contr.Exec.Act.{◌>>=◌, ◌>>◌, pure, raise, lift, reword}
use alibabacloud_erdma_contr.Types.{ERdmaDeviceInfo}
use alibabacloud_erdma_contr.Plugin.Devices.{DevMap, device_named, device_of_id, pnet_id_of_mac}
use alibabacloud_erdma_contr.Plugin.PodResource.{PodName}
use alibabacloud_erdma_contr.Plugin.PodConfig.{PodConfig}

-- The commands that are run, each with its output; `contains` is bytes.Contains.
pub record Commands (W : Type 0) : Type 0 where
  pub ensure_sysctl_fs_rw : Exec W Text
  pub sysctl_in : String → String → Exec W Text
  pub smc_pnet_stat_in : String → Exec W Text
  pub smc_pnet_add_in : String → Text → Text → Exec W Text
  pub contains : Text → Text → Bool

-- The last device of the ids that have a device's name; an unknown device is nil.
unfoldable pub last_device : DevMap → List Text → Option ERdmaDeviceInfo → Option ERdmaDeviceInfo
last_device m [] info = info
last_device m (id ∷ ids) info = elim (device_of_id id) [
  | none ↦ last_device m ids info
  | some name ↦ last_device m ids (device_named m name)
]

module _ {W : Type 0} (commands : Commands W) where
  unfoldable pub config_sysctl : String → String → Exec W (Unit {0})
  config_sysctl netns sysctl = do
    reword (wrap "can not exec nsenter %s, err: %v" []) (commands.sysctl_in netns sysctl)
    pure tt

  unfoldable pub config_for_netns_net_device : Text → Text → String → Exec W (Unit {0})
  config_for_netns_net_device pnet net_device netns = do
    output ←
        reword (wrap "failed to get smc-pnet stat for net device: %v, output: %v" [])
          (commands.smc_pnet_stat_in netns)
    if commands.contains output net_device then pure tt else (do
      reword (wrap "failed to config smc-pnet net device: %v, output: %v" [])
          (commands.smc_pnet_add_in netns pnet net_device)
      pure tt)

  unfoldable pub setup_smcr : DevMap → List Text → String → Exec W (Unit {0})
  unfolding config_sysctl config_for_netns_net_device last_device
  setup_smcr devices ids netns = do
    reword (wrap "can not ensure sysctl fs rw permission %s, err: %v" [])
        commands.ensure_sysctl_fs_rw
    reword
        (wrap
          "SMC-R is not supported on this kernel (net.smc.tcp2smc unavailable, e.g. removed on Alibaba Cloud Linux 4): %w"
          [])
        (config_sysctl netns "net.smc.tcp2smc=1")
    config_sysctl netns "net.ipv6.conf.all.disable_ipv6=1"
    info ← lift (deref (last_device devices ids none))
    config_for_netns_net_device (pnet_id_of_mac info.mac) (codes "eth0") netns

  -- `dev_pod` is getDevPod, and `pod_config` getPodConfig.
  unfoldable pub pre_start_container :
      (Text → Exec W (Option PodName))
      → (PodName → Exec W PodConfig)
      → DevMap
      → List Text
      → Exec W (Unit {0})
  unfolding setup_smcr
  pre_start_container dev_pod pod_config devices [] = pure tt
  pre_start_container dev_pod pod_config devices (id ∷ ids) = do
    found ← dev_pod id
    elim found [
      | none ↦ raise (errorf "can not find pod %s" [])
      | some pod ↦ (do
        config ← reword (wrap "can not get pod config %s, err, %v" []) (pod_config pod)
        if config.smcr then setup_smcr devices (id ∷ ids) config.netns else pure tt)
    ]
