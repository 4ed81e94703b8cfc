-- ===== src/Driver/Other.antt =====
-- The drivers of builds that are not for eRDMA hardware: fake.go, and for other systems than Linux
-- unsupport.go, netdev_unsupported.go and utils_unsupported.go of internal/drivers.
use alibabacloud_erdma_contr.Prelude.{◌+◌, String, [], ◌∷◌, codes}
use alibabacloud_erdma_contr.Exec.{Res, ok, err, errorf}
use alibabacloud_erdma_contr.Types.{Eri, ERdmaDeviceInfo}
use alibabacloud_erdma_contr.Types.Caps.{
  erdma_cap_rdma_cm, erdma_cap_smc_r, erdma_cap_verbs, erdma_cap_gdr, erdma_cap_oob,
}

unfoldable pub fake_install : Res (Unit {0})
fake_install = ok tt

-- The bits are disjoint, so that their sum is their disjunction.
unfoldable pub fake_probe_device : Eri → Res ERdmaDeviceInfo
fake_probe_device eri = ok (record {
  name = codes "erdma_0";
  mac = codes eri.mac;
  dev_paths = codes "/dev/infiniband/uverbs0" ∷ [];
  numa = 0;
  capabilities =
      erdma_cap_gdr + erdma_cap_smc_r + erdma_cap_verbs + erdma_cap_rdma_cm + erdma_cap_oob;
})

unfoldable pub fake_name : String
fake_name = "fake"

unfoldable pub unsupport_install : Res (Unit {0})
unsupport_install = ok tt

-- `goos` is runtime.GOOS.
unfoldable pub unsupport_probe_device : String → Eri → Res ERdmaDeviceInfo
unsupport_probe_device goos eri = err (errorf "unsupport eri on %v" (goos ∷ []))

unfoldable pub unsupport_name : String
unsupport_name = "unsupported"

unfoldable pub unsupported_ensure_net_device : {L : Type 0} → L → Eri → Res (Unit {0})
unsupported_ensure_net_device link eri = ok tt

unfoldable pub unsupported_config_smc_pnet_for_device : ERdmaDeviceInfo → Res (Unit {0})
unsupported_config_smc_pnet_for_device info = ok tt

unfoldable pub unsupported_host_exec : String → Res String
unsupported_host_exec cmd = ok ""
