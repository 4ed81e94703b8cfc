-- ===== src/Plugin/PreStart/Examples.antt =====
-- A node with one pod, for the theorem on PreStartContainer.
use alibabacloud_erdma_contr.Prelude.{
  ◌≡◌, ◌≢◌, refl, sym, inl, inr, Bool-cases, subst, String, Bool, true, false, ◌&&◌, ◌||◌, Option,
  none, some, List, [], ◌∷◌, ◌++◌, Text, codes, if◌then◌else◌, arith, str_eq, eq_iff, eq_refl, ◌==◌,
  ap, split, text_eq,
}
use alibabacloud_erdma_contr.Exec.{ok, done, Exec}
use alibabacloud_erdma_contr.Plugin.PodResource.{PodName}
use alibabacloud_erdma_contr.Plugin.PodConfig.{PodConfig}
use alibabacloud_erdma_contr.Exec.Act.{done_world, done_value}
use alibabacloud_erdma_contr.Plugin.Devices.{
  dev_map, put_device, device_of_id, device_named, pnet_id_of_mac, to_upper,
}
use alibabacloud_erdma_contr.Plugin.Allocate.{new_plugin}
use alibabacloud_erdma_contr.Driver.Pnet.{SmcPnet, config_for_net_device, smcr_init}
use alibabacloud_erdma_contr.Plugin.PreStart.InitContainer.{Inside, setup_smcr-smcr_init}
use alibabacloud_erdma_contr.Plugin.Examples.{
  erdma_of, two_devices, plugin_of, grant_0, first_grant,
}
use alibabacloud_erdma_contr.Plugin.PreStart.Laws.{IsPreStarted, pre_start_container-IsPreStarted}
use alibabacloud_erdma_contr.Plugin.PreStart.{
  Commands, last_device, config_sysctl, config_for_netns_net_device, setup_smcr,
  pre_start_container,
}
use alibabacloud_erdma_contr.Plugin.PreStart.Host.{Space, write, enter, After, Host}

abbrev Node : Type 0
Node = String → Space

abbrev change : String → (Space → Space) → Node → Node
change n f w m = if str_eq m n then f (w m) else w m

change-After :
    (n : String) (f : Space → Space) (w : Node) → After (λ (v : Node). v) n f w (change n f w)
change-After n f w = (rw (eq_refl n) refl, λ m other. elsewhere m other)
  where
    elsewhere : (m : String) → m ≢ n → change n f w m ≡ w m
    elsewhere m other = elim (Bool-cases (str_eq m n)) [
      | inl same ↦ absurd (ground (arith, other, eq_iff m n, same))
      | inr apart ↦ rw apart refl
    ]

abbrev starts_with : Text → Text → Bool
starts_with s [] = true
starts_with [] (c ∷ cs) = false
starts_with (x ∷ xs) (c ∷ cs) = x == c && starts_with xs cs

abbrev contains : Text → Text → Bool
contains [] t = starts_with [] t
contains (x ∷ xs) t = starts_with (x ∷ xs) t || contains xs t

abbrev printed : List (Text × Text) → Text
printed [] = []
printed ((pnet, device) ∷ rest) = pnet ++ (32 ∷ device) ++ (10 ∷ printed rest)

abbrev commands : Commands Node
commands = record {
  ensure_sysctl_fs_rw = λ w. done [] w;
  sysctl_in = λ n s w. done [] (change n (write s) w);
  smc_pnet_stat_in = λ n w. done (printed (w n).table) w;
  smc_pnet_add_in = λ n pnet device w. done [] (change n (enter pnet device) w);
  contains = contains;
}

change-done :
    (n : String) (f : Space → Space) (w v : Node) (out : Text)
    → done [] (change n f w) ≡ done out v
    → After (λ (u : Node). u) n f w v
change-done n f w v out e =
    subst (After (λ (u : Node). u) n f w) (done_world e) (change-After n f w)

abbrev host : Host commands
host = record {
  space = λ w. w;
  printed = printed;
  remounts = λ w v out e n. ap (λ (u : Node). u n) (sym (done_world e));
  writes = λ n s w v out e. change-done n (write s) w v out e;
  prints = λ n w v out e. (
    (
      ap (λ (u : Node). u n) (sym (done_world e)),
      λ m other. ap (λ (u : Node). u m) (sym (done_world e)),
    ),
    sym (done_value e),
  );
  enters = λ n pnet device w v out e. change-done n (enter pnet device) w v out e;
}

abbrev start : Node
start n = record { written = []; table = [] }

abbrev end : Node
end = change "net" (enter (codes "00163E000002") (codes "eth0")) (
    change "net" (write "net.ipv6.conf.all.disable_ipv6=1")
      (change "net" (write "net.smc.tcp2smc=1") start))

abbrev dev_pod : Text → Exec Node (Option PodName)
dev_pod id w = done (some (record { namespace = "ns"; name = "pod" })) w

abbrev pod_config : PodName → Exec Node PodConfig
pod_config pod w = done (record { netns = "net"; smcr = true }) w

new_plugin_cm : new_plugin two_devices false false true (ok tt) true ≡ ok (plugin_of false true)
unfolding new_plugin dev_map put_device text_eq
new_plugin_cm = refl

pre_started :
    pre_start_container commands dev_pod pod_config
      (plugin_of false true).devices
      (codes "erdma_0/3" ∷ [])
      start
    ≡ done tt end
unfolding pre_start_container setup_smcr config_sysctl config_for_netns_net_device last_device
    device_of_id split device_named text_eq pnet_id_of_mac to_upper write
pre_started = refl

pre_start_container-IsPreStarted_example :
    IsPreStarted host dev_pod pod_config (codes "erdma_0/3") grant_0.granted start end
pre_start_container-IsPreStarted_example =
    pre_start_container-IsPreStarted host dev_pod pod_config two_devices false false true true
      (ok tt) (plugin_of false true) (codes "erdma_0/3") [] grant_0 start end new_plugin_cm
      first_grant pre_started

-- The init container's view of a namespace of its own.
abbrev smc_inside : SmcPnet Space
smc_inside = record {
  stat = λ s. done (printed s.table) s;
  add_device = λ pnet device s. done [] s;
  add_interface = λ pnet device s. done [] (enter pnet device s);
  contains = contains;
}

abbrev stat_inside : String → Exec Space (Unit {0})
stat_inside file s = done tt s

abbrev write_inside : String → String → Exec Space (Unit {0})
write_inside file value s = done tt (
    if str_eq file "/proc/sys/net/smc/tcp2smc"
    then write "net.smc.tcp2smc=1" s
    else write "net.ipv6.conf.all.disable_ipv6=1" s)

abbrev inside : Inside smc_inside stat_inside write_inside
inside = record {
  space = λ s. s;
  printed = printed;
  tests = λ w v file e. sym (done_world e);
  writes_tcp2smc = λ w v e. sym (done_world e);
  writes_disable_ipv6 = λ w v e. sym (done_world e);
  prints = λ w v out e. (sym (done_world e), sym (done_value e));
  enters = λ pnet device w v out e. sym (done_world e);
}

set_up_outside :
    setup_smcr commands (plugin_of false true).devices (codes "erdma_0/3" ∷ []) "net" start
    ≡ done tt end
unfolding setup_smcr config_sysctl config_for_netns_net_device last_device device_of_id split
    device_named text_eq pnet_id_of_mac to_upper write
set_up_outside = refl

set_up_inside :
    smcr_init smc_inside
      (pnet_id_of_mac (erdma_of "erdma_0").mac)
      stat_inside
      write_inside
      (start "net")
    ≡ done tt (end "net")
unfolding smcr_init config_for_net_device pnet_id_of_mac to_upper write
set_up_inside = refl

last_found :
    last_device (plugin_of false true).devices (codes "erdma_0/3" ∷ []) none
    ≡ some (erdma_of "erdma_0")
unfolding last_device device_of_id split device_named text_eq
last_found = refl

setup_smcr-smcr_init_example : host.space end "net" ≡ inside.space (end "net")
setup_smcr-smcr_init_example =
    setup_smcr-smcr_init host inside (plugin_of false true).devices (codes "erdma_0/3" ∷ []) "net"
      (erdma_of "erdma_0") start end (start "net") (end "net") refl refl last_found refl
      set_up_outside set_up_inside
