-- ===== src/Driver/Probe.antt =====
-- ProbeDevice of the three drivers in internal/drivers/default.go, compat.go and ofed.go, with
-- GetERdmaDevPathsFromRdmaLink and GetERDMANumaNode of internal/drivers/utils_linux.go: the device
-- that stands for an ERI.
pub mod Laws
use alibabacloud_erdma_contr.Prelude.{
  ℕ, ◌+◌, ℤ, pos, negsuc, String, str_eq, Bool, false, ◌&&◌, Option, none, some, List, [], ◌∷◌,
  ◌++◌, is_empty, Text, codes, text_eq, trim, if◌then◌else◌,
}
use alibabacloud_erdma_contr.Exec.{Res, ok, err, errorf, wrap, done, fail, Exec}
use alibabacloud_erdma_contr.Exec.Act.{◌>>=◌, ◌>>◌, pure, raise, lift, reword, handle}
use alibabacloud_erdma_contr.Types.{Eri, ERdmaDeviceInfo}
use alibabacloud_erdma_contr.Types.Caps.{
  erdma_cap_verbs, erdma_cap_rdma_cm, erdma_cap_smc_r, erdma_cap_oob,
}
use alibabacloud_erdma_contr.Net.Device.{Link, Netlink, ensure_net_device}
use alibabacloud_erdma_contr.Driver.Guid.{RdmaLink, get_erdma_from_link}

-- The files of the kernel that the code reads, and the RDMA links of netlink. `ibdev name` is the
-- content of /sys/class/infiniband_verbs/<name>/ibdev where os.Stat and os.ReadFile both succeed.
-- `bytes` are the bytes of a link's address, whose text is `hardware_addr`; none for a nil address.
pub record Sys (W : Type 0) : Type 0 where
  pub net : Netlink W
  pub bytes : Link → List ℕ
  pub rdma_link_list : Exec W (List RdmaLink)
  pub read_uverbs : Exec W (List Text)
  pub ibdev : Text → W → Option Text
  pub rdma_cm_exists : W → Bool
  pub read_numa_node : Text → Exec W Text
  pub atoi : Text → Res ℤ

abbrev newline : ℕ
newline = 10

abbrev pub infiniband : Text
infiniband = codes "/dev/infiniband/"

abbrev pub rdma_cm_path : Text
rdma_cm_path = codes "/dev/infiniband/rdma_cm"

-- HardwareAddr.String(): empty for a nil address.
abbrev pub hw_text : Link → String
hw_text link = elim link.hardware_addr [ none ↦ "" | some t ↦ t ]

-- A negative node stands for none, and counts as node 0.
unfoldable pub numa_of : ℤ → ℕ
numa_of (pos n) = n
numa_of (negsuc n) = 0

-- The link of the loop that the ERI's address selects.
unfoldable pub is_link_of : Eri → Link → Bool
is_link_of eri link = link.is_device && str_eq (hw_text link) eri.mac

module _ {W : Type 0} (sys : Sys W) where
  unfoldable pub is_dev_of : Text → Text → W → Bool
  is_dev_of name uverbs w = elim (sys.ibdev uverbs w) [
    | none ↦ false
    | some content ↦ text_eq (trim newline content) name
  ]

  unfoldable pub dev_paths_of : Text → List Text → W → List Text
  unfolding is_dev_of
  dev_paths_of name [] w = []
  dev_paths_of name (u ∷ us) w =
      let rest = dev_paths_of name us w in
      if is_dev_of name u w then (infiniband ++ u) ∷ rest else rest

  unfoldable pub with_rdma_cm : List Text → W → List Text
  with_rdma_cm paths w = if sys.rdma_cm_exists w then paths ++ rdma_cm_path ∷ [] else paths

  -- The loop reads files only; a file that cannot be read is passed over.
  unfoldable pub get_erdma_dev_paths_from_rdma_link : RdmaLink → Exec W (List Text)
  unfolding dev_paths_of with_rdma_cm
  get_erdma_dev_paths_from_rdma_link link = do
    uverbs ← reword (wrap "read dir /sys/class/infiniband_verbs/ failed: %v" []) sys.read_uverbs
    λ w.
        let paths = dev_paths_of link.name uverbs w in
        if is_empty paths
        then fail (errorf "can not find dev path for %s" []) w
        else done (with_rdma_cm paths w) w

  unfoldable pub get_erdma_numa_node : RdmaLink → Exec W ℕ
  unfolding numa_of
  get_erdma_numa_node link = do
    content ← reword (wrap "failed to get numa node for %s: %v" []) (sys.read_numa_node link.name)
    numa ←
        reword (wrap "failed to parse numa node for %s: %v" [])
          (lift (sys.atoi (trim newline content)))
    pure (numa_of numa)

  unfoldable pub erdma_of_link : Link → Exec W RdmaLink
  erdma_of_link link =
      handle sys.rdma_link_list (λ links. lift (get_erdma_from_link (sys.bytes link) (ok links)))
        (λ e. lift (get_erdma_from_link (sys.bytes link) (err e)))

  -- The body of the loop for the link that has the ERI's address.
  unfoldable pub probe_link : ℕ → Eri → Link → Exec W ERdmaDeviceInfo
  unfolding erdma_of_link get_erdma_dev_paths_from_rdma_link get_erdma_numa_node
  probe_link caps eri link = do
    reword (wrap "ensure net device failed: %v" []) (ensure_net_device sys.net link eri)
    rdma_link ← reword (wrap "get erdma link failed: %v" []) (erdma_of_link link)
    dev_paths ←
        reword (wrap "get erdma dev paths failed: %v" [])
          (get_erdma_dev_paths_from_rdma_link rdma_link)
    numa ← reword (wrap "get erdma dev numa failed: %v" []) (get_erdma_numa_node rdma_link)
    pure (record {
      name = rdma_link.name;
      mac = codes eri.mac;
      dev_paths = dev_paths;
      numa = numa;
      capabilities = caps;
    })

  unfoldable pub probe_links : ℕ → Eri → List Link → Exec W ERdmaDeviceInfo
  unfolding probe_link is_link_of
  probe_links caps eri [] = raise (errorf "erdma device not found" [])
  probe_links caps eri (link ∷ links) =
      let rest = probe_links caps eri links in
      if is_link_of eri link then probe_link caps eri link else rest

  -- The three methods differ in the capabilities only.
  unfoldable pub probe_device : ℕ → Eri → Exec W ERdmaDeviceInfo
  unfolding probe_links
  probe_device caps eri = do
    links ← reword (wrap "list link failed: %v" []) sys.net.link_list
    probe_links caps eri links

  unfoldable pub probe_default : Eri → Exec W ERdmaDeviceInfo
  unfolding probe_device
  probe_default = probe_device (erdma_cap_verbs + erdma_cap_rdma_cm + erdma_cap_smc_r)

  unfoldable pub probe_compat : Eri → Exec W ERdmaDeviceInfo
  unfolding probe_device
  probe_compat = probe_device (erdma_cap_verbs + erdma_cap_oob + erdma_cap_smc_r)

  unfoldable pub probe_ofed : Eri → Exec W ERdmaDeviceInfo
  unfolding probe_device
  probe_ofed = probe_device (erdma_cap_verbs + erdma_cap_oob)
