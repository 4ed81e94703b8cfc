-- ===== src/Agent/Examples.antt =====
-- A node on a container-optimized OS with one ERI as its primary interface, for the theorems on the
-- agent and on the drivers.
use alibabacloud_erdma_contr.Prelude.{
  ◌≡◌, inl, inr, refl, ℕ, pos, String, str_eq, Bool, true, false, none, some, List, [], ◌∷◌, All,
  codes,
}
use alibabacloud_erdma_contr.Exec.{ok, remote, done, fail}
use alibabacloud_erdma_contr.Exec.Act.{world}
use alibabacloud_erdma_contr.Types.{Eri, ERdmaDeviceInfo, ERdmaDeviceSpec}
use alibabacloud_erdma_contr.Net.Routes.{RouteTable}
use alibabacloud_erdma_contr.Net.Device.{Link}
use alibabacloud_erdma_contr.Driver.Shell.{Shell, is_container_os}
use alibabacloud_erdma_contr.Driver.Install.{install_default, install_compat, install_ofed}
use alibabacloud_erdma_contr.Driver.Install.Laws.{IsInPlace, install_in_place}
use alibabacloud_erdma_contr.Driver.Probe.{Sys}
use alibabacloud_erdma_contr.Driver.Pnet.{SmcPnet}
use alibabacloud_erdma_contr.Driver.Registry.{default_driver}
use alibabacloud_erdma_contr.Plugin.Allocate.{Plugin}
use alibabacloud_erdma_contr.Plugin.Server.{Os, missing}
use alibabacloud_erdma_contr.Agent.{Node, Agent}

-- A shell that keeps the commands, the last one first.
abbrev log_shell : Shell (List (List String))
log_shell = record {
  command = λ args w. ((none, "5.10.0-lifsea"), args ∷ w);
  contains = λ s t. true;
  sprintf = λ format args. format;
}

abbrev is_nsenter : List String → Bool
is_nsenter [] = false
is_nsenter (a ∷ args) = str_eq a "nsenter"

-- No command entered the namespaces of the host.
abbrev IsInside : List (List String) → Type 0
IsInside = All (λ args. is_nsenter args ≡ false)

knows_os :
    (w : List (List String))
    → IsInside w
    → (v : List (List String)) × (is_container_os log_shell w ≡ done true v) × IsInside v
unfolding is_container_os
knows_os w i = (("uname" ∷ "-r" ∷ []) ∷ w, refl, (refl, i))

in_place-not_nsenter : (args : List String) → IsInPlace true args → is_nsenter args ≡ false
in_place-not_nsenter args (cmd, inl e) = rw e refl
in_place-not_nsenter args (cmd, inr e) = rw e refl

install_in_place_example :
    IsInside (world (install_default log_shell "1.5.9" []))
    × IsInside (world (install_compat log_shell "1.5.9" []))
    × IsInside (world (install_ofed log_shell []))
install_in_place_example =
    install_in_place log_shell IsInside true knows_os
      (λ args p w i. (in_place-not_nsenter args p, i)) "1.5.9" [] tt

abbrev shell : Shell ℕ
shell = record {
  command = λ args w. ((none, "5.10.0-lifsea"), w);
  contains = λ s t. true;
  sprintf = λ format args. format;
}

abbrev eth0 : Link
eth0 = record {
  index = 2;
  name = "eth0";
  is_device = true;
  hardware_addr = some "00:16:3e:00:00:02";
  oper_up = true;
  mtu = pos 1500;
}

abbrev no_routes : RouteTable ℕ
no_routes = record {
  route_list = λ l w. done [] w;
  route_add = λ r w. done tt w;
  route_del = λ r w. done tt w;
}

abbrev sys : Sys ℕ
sys = record {
  net = record {
    table = no_routes;
    link_list = λ w. done (eth0 ∷ []) w;
    link_set_mtu = λ l m w. done tt w;
    link_set_up = λ l w. done tt w;
    link_set_down = λ l w. done tt w;
    addr_list_v4 = λ l w. done [] w;
    addr_list_all = λ l w. done [] w;
    addr_add = λ l a w. done tt w;
    metadata = λ k w. done "" w;
    masked = λ ip mask. "10.0.0.0/24";
    parse_ip = λ s. some s;
    parse_cidr = λ s. some (s, "ffffff00");
  };
  bytes = λ l. 0 ∷ 22 ∷ 62 ∷ 0 ∷ 0 ∷ 2 ∷ [];
  rdma_link_list =
      λ w. done (record { name = codes "erdma_0"; node_guid = codes "2:0:0:0:0:3e:16:2" } ∷ []) w;
  read_uverbs = λ w. done (codes "uverbs0" ∷ []) w;
  ibdev = λ name w. some (codes "erdma_0\n");
  rdma_cm_exists = λ w. true;
  read_numa_node = λ name w. done (codes "0\n") w;
  atoi = λ t. ok (pos 0);
}

abbrev eri : Eri
eri = record {
  id = "eni-1";
  is_primary_eni = true;
  mac = "00:16:3e:00:00:02";
  instance_id = "i-1";
  card_index = pos 0;
  queue_pair = pos 0;
  jumbo_frame = false;
  jumbo_frame_mtu = pos 8500;
}

abbrev info : ERdmaDeviceInfo
info = record {
  name = codes "erdma_0";
  mac = codes "00:16:3e:00:00:02";
  dev_paths = codes "/dev/infiniband/uverbs0" ∷ codes "/dev/infiniband/rdma_cm" ∷ [];
  numa = 0;
  capabilities = 7;
}

-- smc_pnet reports that the module is not loaded.
abbrev broken_smc : SmcPnet ℕ
broken_smc = record {
  stat = λ w. fail (remote "SMC module not loaded") w;
  add_device = λ p d w. fail (remote "SMC module not loaded") w;
  add_interface = λ p d w. fail (remote "SMC module not loaded") w;
  contains = λ s t. false;
}

abbrev spec : ERdmaDeviceSpec
spec = record {
  devices =
      record {
        instance_id = "i-1";
        mac = "00:16:3e:00:00:02";
        is_primary_eni = true;
        id = "eni-1";
        network_card_index = pos 0;
        queue_pair = pos 16;
      }
      ∷ [];
  jumbo_frame = false;
}

abbrev os : Os ℕ
os = record {
  read_dir = λ w. (inr [], w);
  unlink = λ name w. (none, w);
  listen = λ name w. (none, w);
  stat = λ name w. missing;
  dial = λ w. (none, w);
  register = λ request w. (none, w);
}

abbrev node : Node ℕ
node = record {
  shell = shell;
  sys = sys;
  smc = broken_smc;
  list_devices = λ name w.
      done
        (record {
          name = "node-1";
          owner_uid = none;
          labels = [];
          finalizers = [];
          deletion_timestamp = none;
          spec = spec;
          status = [];
        }
          ∷ [])
        w;
  local_view = λ exposed w. fail (remote "not used") w;
  init_cri = λ w. fail (remote "not used") w;
  rdma_cm_exists = λ w. true;
  os = os;
  socket = λ w. (codes "1-erdma.sock", codes "1-erdma.sock");
  string = λ t. "";
}

abbrev agent : Agent
agent = record {
  node_name = "node-1";
  driver = default_driver "1.5.9";
  alloc_all_devices = false;
  deviceplugin_pre_start = false;
  local_eri_discovery = false;
  exposed_local_eris = [] ∷ [];
  jumbo_frame_mtu = pos 8500;
}

abbrev plugin : Plugin
plugin = record {
  devices = info ∷ [];
  alloc_all_devices = false;
  prestart = false;
  alloc_rdma_cm = true;
}
