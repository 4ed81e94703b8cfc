-- ===== src/Driver/Pnet.antt =====
-- ConfigSMCPnetForDevice and ConfigForNetDevice of internal/drivers/utils_linux.go, and the program
-- cmd/smcr_init/main.go, the init container that sets SMC-R up in a pod.
use alibabacloud_erdma_contr.Prelude.{String, Bool, [], Text, codes, is_empty, if◌then◌else◌}
use alibabacloud_erdma_contr.Exec.{errorf, wrap, Exec}
use alibabacloud_erdma_contr.Exec.Act.{◌>>=◌, ◌>>◌, pure, raise, reword}
use alibabacloud_erdma_contr.Types.{ERdmaDeviceInfo}
use alibabacloud_erdma_contr.Plugin.Devices.{pnet_id_of_mac}

-- The three uses of smc_pnet, with their output: `-s`, `-a pnet -D device` and
-- `-a pnet -I interface`; and bytes.Contains.
pub record SmcPnet (W : Type 0) : Type 0 where
  pub stat : Exec W Text
  pub add_device : Text → Text → Exec W Text
  pub add_interface : Text → Text → Exec W Text
  pub contains : Text → Text → Bool

module _ {W : Type 0} (smc : SmcPnet W) where
  unfoldable pub config_smc_pnet_for_device : ERdmaDeviceInfo → Exec W (Unit {0})
  config_smc_pnet_for_device info = do
    output ← reword (wrap "failed to get smc-pnet stat: %v, output: %v" []) smc.stat
    (if smc.contains output (pnet_id_of_mac info.mac) then pure tt else (do
      reword (wrap "failed to config smc-pnet rdma device: %v, output: %v" [])
          (smc.add_device (pnet_id_of_mac info.mac) info.name)
      pure tt))

  unfoldable pub config_for_net_device : Text → Text → Exec W (Unit {0})
  config_for_net_device pnet net_device = do
    output ← reword (wrap "failed to get smc-pnet stat for net device: %v, output: %v" []) smc.stat
    (if smc.contains output net_device then pure tt else (do
      reword (wrap "failed to config smc-pnet net device: %v, output: %v" [])
          (smc.add_interface pnet net_device)
      pure tt))

  -- The files under /proc/sys that the init container tests and writes. An error is log.Fatal.
  unfoldable pub smcr_init :
      Text
      → (String → Exec W (Unit {0}))
      → (String → String → Exec W (Unit {0}))
      → Exec W (Unit {0})
  unfolding config_for_net_device
  smcr_init pnetid stat write_file =
      if is_empty pnetid then raise (errorf "smcr pnetid is empty" []) else (do
        reword
            (wrap
              "SMC-R is not supported on this kernel: /proc/sys/net/smc/tcp2smc is unavailable (e.g. removed on Alibaba Cloud Linux 4): %v"
              [])
            (stat "/proc/sys/net/smc/tcp2smc")
        reword (wrap "error setting tcp2smc" []) (write_file "/proc/sys/net/smc/tcp2smc" "1")
        reword (wrap "error setting disable_ipv6" [])
            (write_file "/proc/sys/net/ipv6/conf/all/disable_ipv6" "1")
        reword (wrap "error config smcr pnet" []) (config_for_net_device pnetid (codes "eth0")))
