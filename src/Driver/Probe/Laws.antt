-- ===== src/Driver/Probe/Laws.antt =====
-- What the device that ProbeDevice returns has to do with the ERI.
use alibabacloud_erdma_contr.Prelude.{
  ◌≡◌, ◌⊎◌, ◌++◌, some, All, text_eq, trim, ℕ, true, false, List, is_empty, Text, codes,
}
use alibabacloud_erdma_contr.Exec.{ok, done}
use alibabacloud_erdma_contr.Types.{Eri, ERdmaDeviceInfo}
use alibabacloud_erdma_contr.Net.Device.{Link}
use alibabacloud_erdma_contr.Driver.Guid.{RdmaLink, get_erdma_from_link}
use alibabacloud_erdma_contr.Driver.Probe.{Sys, infiniband, rdma_cm_path}

module _ {W : Type 0} (sys : Sys W) where
  -- The RDMA link is the one of the link's address, among those that netlink listed.
  abbrev pub IsErdmaOf : Link → RdmaLink → Type 0
  IsErdmaOf link rl =
      (links : List RdmaLink) × (w : W) × (v : W) × (sys.rdma_link_list w ≡ done links v)
      × (get_erdma_from_link (sys.bytes link) (ok links) ≡ ok rl)

  -- A path of the device: a uverbs node that the kernel lists under the name of the RDMA link, or rdma_cm.
  abbrev pub IsPathOf : RdmaLink → Text → Type 0
  IsPathOf rl path =
      (path ≡ rdma_cm_path)
      ⊎ ((u : Text) × (w : W) × (content : Text) × (path ≡ infiniband ++ u)
          × (sys.ibdev u w ≡ some content)
          × (text_eq (trim 10 content) rl.name ≡ true))

  -- The part of a device that its link and its ERI decide.
  abbrev pub IsDeviceOf : ℕ → Eri → Link → ERdmaDeviceInfo → Type 0
  IsDeviceOf caps eri link info =
      (info.mac ≡ codes eri.mac)
      × (info.capabilities ≡ caps)
      × (is_empty info.dev_paths ≡ false)
      × ((rl : RdmaLink) × (info.name ≡ rl.name)
          × IsErdmaOf link rl
          × All (IsPathOf rl) info.dev_paths)
