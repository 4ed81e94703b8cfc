-- ===== src/Plugin/PreStart/Laws.antt =====
-- What PreStartContainer leaves in the network namespace of a pod.
use alibabacloud_erdma_contr.Prelude.{
  ◌≡◌, refl, sym, ap, subst, ◌∙◌, ◌⊎◌, inl, inr, String, Bool, true, false, Bool-cases,
  Option-cases, Option, none, some, List, [], ◌∷◌, Text, codes, if◌then◌else◌, arith,
}
use alibabacloud_erdma_contr.Exec.{Res, ok, done, Exec, wrap}
use alibabacloud_erdma_contr.Exec.Act.{◌>>◌, pure, reword, through, arrive, reword-done, done_world}
use alibabacloud_erdma_contr.Types.{ERdmaDeviceInfo}
use alibabacloud_erdma_contr.Plugin.Devices.{pnet_id_of_mac, DevMap}
use alibabacloud_erdma_contr.Plugin.PodResource.{PodName}
use alibabacloud_erdma_contr.Plugin.PodConfig.{PodConfig}
use alibabacloud_erdma_contr.Plugin.Allocate.{Plugin, Grant, grant_container, new_plugin}
use alibabacloud_erdma_contr.Plugin.PreStart.Network.{last_device-Granted}
use mathlib.Core.List.{Mem}
use alibabacloud_erdma_contr.Plugin.PreStart.Host.{Space, write, enter, After, Host}
use alibabacloud_erdma_contr.Plugin.PreStart.{
  Commands, last_device, config_sysctl, config_for_netns_net_device, setup_smcr,
  pre_start_container,
}

module _ {W : Type 0} {commands : Commands W} (host : Host commands) where
  -- The entry of eth0, unless the printed entries have one.
  unfoldable pub with_entry : Text → Text → Space → Space
  with_entry pnet device s =
      if commands.contains (host.printed s.table) device then s else enter pnet device s

  -- The whole setup of a namespace, for the device of the container.
  unfoldable pub set_up : ERdmaDeviceInfo → Space → Space
  set_up d s =
      with_entry (pnet_id_of_mac d.mac) (codes "eth0")
        (write "net.ipv6.conf.all.disable_ipv6=1" (write "net.smc.tcp2smc=1" s))

  After-trans :
      (n : String) (f h : Space → Space) (w v u : W)
      → After host.space n f w v
      → After host.space n h v u
      → After host.space n (λ s. h (f s)) w u
  After-trans n f h w v u a b = (b.0 ∙ ap h a.0, λ m other. b.1 m other ∙ a.1 m other)

  config_sysctl-After :
      (n sysctl : String) (w v : W)
      → config_sysctl commands n sysctl w ≡ done tt v
      → After host.space n (write sysctl) w v
  unfolding config_sysctl
  config_sysctl-After n sysctl w v h =
      let g = wrap "can not exec nsenter %s, err: %v" [] in
      elim (through (reword g (commands.sysctl_in n sysctl) w) _ h) [
        | arrive out u e f ↦
            subst (After host.space n (write sysctl) w) (done_world f)
              (host.writes n sysctl w u out (reword-done g (commands.sysctl_in n sysctl w) e))
      ]

  add-After :
      (n : String) (pnet device : Text) (w v : W)
      → (reword
              (wrap "failed to config smc-pnet net device: %v, output: %v" [])
              (commands.smc_pnet_add_in n pnet device)
            >> pure (tt {0}))
          w
        ≡ done (tt {0}) v
      → After host.space n (enter pnet device) w v
  add-After n pnet device w v h =
      let g = wrap "failed to config smc-pnet net device: %v, output: %v" [] in
      elim (through (reword g (commands.smc_pnet_add_in n pnet device) w) _ h) [
        | arrive out u e f ↦ subst (After host.space n (enter pnet device) w) (done_world f) (
            host.enters n pnet device w u out
              (reword-done g (commands.smc_pnet_add_in n pnet device w) e))
      ]

  config_for_netns_net_device-After :
      (n : String) (pnet device : Text) (w v : W)
      → config_for_netns_net_device commands pnet device n w ≡ done tt v
      → After host.space n (with_entry pnet device) w v
  unfolding config_for_netns_net_device with_entry
  config_for_netns_net_device-After n pnet device w v h =
      let g = wrap "failed to get smc-pnet stat for net device: %v, output: %v" [] in
      elim (through (reword g (commands.smc_pnet_stat_in n) w) _ h) [
        | arrive out u e f ↦
            let (same, shown) =
              host.prints n w u out (reword-done g (commands.smc_pnet_stat_in n w) e) in
            elim (Bool-cases (commands.contains out device)) [
              | inl listed ↦
                  let u≡v = done_world (rw listed at f) in
                  subst (After host.space n (with_entry pnet device) w) u≡v
                    (same.0 ∙ rw (← shown, listed, with_entry) refl, same.1)
              | inr absent ↦
                  let step = add-After n pnet device u v (rw absent at f) in
                  (
                    step.0 ∙ ap (enter pnet device) same.0 ∙ rw (← shown, absent, with_entry) refl,
                    λ m other. step.1 m other ∙ same.1 m other,
                  )
            ]
      ]

  remount-After :
      (n : String) (w v : W) (out : Text)
      → commands.ensure_sysctl_fs_rw w ≡ done out v
      → After host.space n (λ s. s) w v
  remount-After n w v out e = (host.remounts w v out e n, λ m other. host.remounts w v out e m)

  pub setup_smcr-After :
      (devices : DevMap) (ids : List Text) (n : String) (w v : W)
      → setup_smcr commands devices ids n w ≡ done tt v
      → (d : ERdmaDeviceInfo) × (last_device devices ids none ≡ some d)
        × After host.space n (set_up d) w v
  unfolding setup_smcr set_up
  setup_smcr-After devices ids n w v h =
      let g = wrap "can not ensure sysctl fs rw permission %s, err: %v" [] in
      let k =
        wrap
          "SMC-R is not supported on this kernel (net.smc.tcp2smc unavailable, e.g. removed on Alibaba Cloud Linux 4): %w"
          [] in
      let tcp : String = "net.smc.tcp2smc=1" in
      let ipv6 : String = "net.ipv6.conf.all.disable_ipv6=1" in
      elim (through (reword g commands.ensure_sysctl_fs_rw w) _ h) [
        | arrive out u1 e1 h1 ↦ elim (through (reword k (config_sysctl commands n tcp) u1) _ h1) [
          | arrive o2 u2 e2 h2 ↦ elim (through (config_sysctl commands n ipv6 u2) _ h2) [
            | arrive o3 u3 e3 h3 ↦ elim (Option-cases (last_device devices ids none)) [
              | inl gone ↦ absurd (grind (arith, gone, h3))
              | inr (d, found) ↦ (
                d,
                found,
                After-trans n (λ s. s) (set_up d) w u1 v
                    (remount-After n w u1 out (reword-done g (commands.ensure_sysctl_fs_rw w) e1))
                    (After-trans n (write tcp)
                      (λ s. with_entry (pnet_id_of_mac d.mac) (codes "eth0") (write ipv6 s)) u1 u2 v
                      (config_sysctl-After n tcp u1 u2
                        (reword-done k (config_sysctl commands n tcp u1) e2))
                      (After-trans n (write ipv6) (with_entry (pnet_id_of_mac d.mac) (codes "eth0"))
                        u2 u3 v (config_sysctl-After n ipv6 u2 u3 e3)
                        (config_for_netns_net_device-After n (pnet_id_of_mac d.mac) (codes "eth0")
                          u3 v (rw found at h3)))),
              )
            ]
          ]
        ]
      ]

-- What PreStartContainer found and left, for a container with the devices of `granted`: nothing but
-- the lookups where the pod does not ask for SMC-R, and else the setup of the pod's namespace for
-- one of these devices.
pub record IsPreStarted {W : Type 0} {commands : Commands W} (host : Host commands)
    (dev_pod : Text → Exec W (Option PodName)) (pod_config : PodName → Exec W PodConfig) (id : Text)
    (granted : List ERdmaDeviceInfo) (w w' : W) : Type 0 where
  pub pod : PodName
  pub config : PodConfig
  pub found : W
  pub read : W
  pub has_pod : dev_pod id w ≡ done (some pod) found
  pub has_config : pod_config pod found ≡ done config read
  pub outcome :
      ((config.smcr ≡ false) × (w' ≡ read))
      ⊎ ((config.smcr ≡ true)
          × (d : ERdmaDeviceInfo) × Mem d granted
          × After host.space config.netns (set_up host d) read w')

-- A PreStartContainer that succeeds, on the ids for which Allocate granted devices to a container
-- that is the first of its request, has found the pod and its configuration. If that asks for
-- SMC-R, both sysctls were written in the pod's network namespace, and an entry of smc_pnet was
-- added there that gives eth0 the network of a device that was granted, unless the code found the
-- text `eth0` in what `smc_pnet -s` printed; the other namespaces are as they were.
pub pre_start_container-IsPreStarted :
    {W : Type 0} {commands : Commands W} (host : Host commands)
    (dev_pod : Text → Exec W (Option PodName)) (pod_config : PodName → Exec W PodConfig)
    (ds : List ERdmaDeviceInfo) (every prestart cm cm_exists : Bool) (cri : Res (Unit {0}))
    (p : Plugin) (id : Text) (ids : List Text) (g : Grant) (w w' : W)
    → new_plugin ds every prestart cm cri cm_exists ≡ ok p
    → grant_container p (id ∷ ids) [] ≡ ok g
    → pre_start_container commands dev_pod pod_config p.devices (id ∷ ids) w ≡ done tt w'
    → IsPreStarted host dev_pod pod_config id g.granted w w'
unfolding pre_start_container
pre_start_container-IsPreStarted {commands = commands} host dev_pod pod_config ds every prestart cm
      cm_exists cri p id ids g w w' made granted h =
    let k = wrap "can not get pod config %s, err, %v" [] in
    elim (through (dev_pod id w) _ h) [
      | arrive none v e f ↦ cc
      | arrive (some pod) v e f ↦ elim (through (reword k (pod_config pod) v) _ f) [
        | arrive config u e2 f2 ↦ record {
          pod = pod;
          config = config;
          found = v;
          read = u;
          has_pod = e;
          has_config = reword-done k (pod_config pod v) e2;
          outcome = elim (Bool-cases config.smcr) [
            | inl smcr ↦
                let (d, last, step) =
                  setup_smcr-After host p.devices (id ∷ ids) config.netns u w' (rw smcr at f2) in
                inr (
                  smcr,
                  d,
                  last_device-Granted ds every prestart cm cm_exists cri p (id ∷ ids) g d made
                      granted last,
                  step,
                )
            | inr plain ↦ inl (plain, sym (done_world (rw plain at f2)))
          ];
        }
      ]
    ]
