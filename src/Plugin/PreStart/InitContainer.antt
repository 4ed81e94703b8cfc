-- ===== src/Plugin/PreStart/InitContainer.antt =====
-- The two ways to SMC-R in a pod: PreStartContainer, from outside, and the init container of
-- cmd/smcr_init/main.go, from inside.
use alibabacloud_erdma_contr.Prelude.{
  ◌≡◌, refl, sym, ap, ◌∙◌, String, Bool-cases, inl, inr, none, some, List, [], Text, codes,
  is_empty, if◌then◌else◌,
}
use mathlib.Core.Option.{some-injective}
use alibabacloud_erdma_contr.Exec.{done, Exec, wrap}
use alibabacloud_erdma_contr.Exec.Act.{reword, through, arrive, reword-done, done_world}
use alibabacloud_erdma_contr.Types.{ERdmaDeviceInfo}
use alibabacloud_erdma_contr.Plugin.Devices.{DevMap, pnet_id_of_mac}
use alibabacloud_erdma_contr.Driver.Pnet.{SmcPnet, config_for_net_device, smcr_init}
use alibabacloud_erdma_contr.Plugin.PreStart.{Commands, last_device, setup_smcr}
use alibabacloud_erdma_contr.Plugin.PreStart.Host.{Space, write, enter, Host}
use alibabacloud_erdma_contr.Plugin.PreStart.Laws.{with_entry, set_up, setup_smcr-After}

-- What the init container's calls do to the namespace that it runs in: a test of a file does
-- nothing, the two files under /proc/sys are the sysctls, and smc_pnet is as on the node.
pub record Inside {W : Type 0} (smc : SmcPnet W) (stat : String → Exec W (Unit {0}))
    (write_file : String → String → Exec W (Unit {0})) : Type 0 where
  pub space : W → Space
  pub printed : List (Text × Text) → Text
  pub tests : (w v : W) (file : String) → stat file w ≡ done tt v → space v ≡ space w
  pub writes_tcp2smc :
      (w v : W)
      → write_file "/proc/sys/net/smc/tcp2smc" "1" w ≡ done tt v
      → space v ≡ write "net.smc.tcp2smc=1" (space w)
  pub writes_disable_ipv6 :
      (w v : W)
      → write_file "/proc/sys/net/ipv6/conf/all/disable_ipv6" "1" w ≡ done tt v
      → space v ≡ write "net.ipv6.conf.all.disable_ipv6=1" (space w)
  pub prints :
      (w v : W) (out : Text)
      → smc.stat w ≡ done out v
      → (space v ≡ space w) × (out ≡ printed (space w).table)
  pub enters :
      (pnet device : Text) (w v : W) (out : Text)
      → smc.add_interface pnet device w ≡ done out v
      → space v ≡ enter pnet device (space w)

module _ {W : Type 0} {smc : SmcPnet W} {stat : String → Exec W (Unit {0})}
    {write_file : String → String → Exec W (Unit {0})} (inside : Inside smc stat write_file) where
  abbrev with_entry_inside : Text → Text → Space → Space
  with_entry_inside pnet device s =
      if smc.contains (inside.printed s.table) device then s else enter pnet device s

  config_for_net_device_lem :
      (pnet device : Text) (w v : W)
      → config_for_net_device smc pnet device w ≡ done tt v
      → inside.space v ≡ with_entry_inside pnet device (inside.space w)
  unfolding config_for_net_device
  config_for_net_device_lem pnet device w v h =
      let g = wrap "failed to get smc-pnet stat for net device: %v, output: %v" [] in
      let k = wrap "failed to config smc-pnet net device: %v, output: %v" [] in
      elim (through (reword g smc.stat w) _ h) [
        | arrive out u e f ↦
            let (same, shown) = inside.prints w u out (reword-done g (smc.stat w) e) in
            elim (Bool-cases (smc.contains out device)) [
              | inl listed ↦
                  ap inside.space (sym (done_world (rw listed at f)))
                  ∙ same
                  ∙ rw (← shown, listed) refl
              | inr absent ↦
                  elim (through (reword k (smc.add_interface pnet device) u) _ (rw absent at f)) [
                    | arrive out' u' e' f' ↦
                        ap inside.space (sym (done_world f'))
                        ∙ inside.enters pnet device u u' out'
                            (reword-done k (smc.add_interface pnet device u) e')
                        ∙ ap (enter pnet device) same
                        ∙ rw (← shown, absent) refl
                  ]
            ]
      ]

  smcr_init_lem :
      (pnet : Text) (w v : W)
      → smcr_init smc pnet stat write_file w ≡ done tt v
      → inside.space v
        ≡ with_entry_inside pnet
            (codes "eth0")
            (write "net.ipv6.conf.all.disable_ipv6=1" (write "net.smc.tcp2smc=1" (inside.space w)))
  unfolding smcr_init
  smcr_init_lem pnet w v h =
      let g1 =
        wrap
          "SMC-R is not supported on this kernel: /proc/sys/net/smc/tcp2smc is unavailable (e.g. removed on Alibaba Cloud Linux 4): %v"
          [] in
      let g2 = wrap "error setting tcp2smc" [] in
      let g3 = wrap "error setting disable_ipv6" [] in
      let tcp2smc = write_file "/proc/sys/net/smc/tcp2smc" "1" in
      let ipv6 = write_file "/proc/sys/net/ipv6/conf/all/disable_ipv6" "1" in
      let pnets = config_for_net_device smc pnet (codes "eth0") in
      elim (Bool-cases (is_empty pnet)) [
        | inl none' ↦ absurd (cc (rw none' at h))
        | inr some' ↦
            elim (through (reword g1 (stat "/proc/sys/net/smc/tcp2smc") w) _ (rw some' at h)) [
              | arrive o1 u1 e1 h1 ↦ elim (through (reword g2 tcp2smc u1) _ h1) [
                | arrive o2 u2 e2 h2 ↦ elim (through (reword g3 ipv6 u2) _ h2) [
                  | arrive o3 u3 e3 h3 ↦
                      let tested = inside.tests w u1 _ (reword-done g1 (stat _ w) e1) in
                      let a = inside.writes_tcp2smc u1 u2 (reword-done g2 (tcp2smc u1) e2) in
                      let b = inside.writes_disable_ipv6 u2 u3 (reword-done g3 (ipv6 u2) e3) in
                      let c =
                        config_for_net_device_lem pnet (codes "eth0") u3 v
                          (reword-done (wrap "error config smcr pnet" []) (pnets u3) h3) in
                      c ∙ rw (b, a, tested) refl
                ]
              ]
            ]
      ]

-- A pod that PreStartContainer sets up, and one that its init container sets up with the network
-- of the same device, end with the same namespace where they start from the same one: the same
-- sysctls are written and the same entries of smc_pnet stand, if `smc_pnet -s` prints the same.
pub setup_smcr-smcr_init :
    {W V : Type 0} {commands : Commands W} (host : Host commands) {smc : SmcPnet V}
    {stat : String → Exec V (Unit {0})} {write_file : String → String → Exec V (Unit {0})}
    (inside : Inside smc stat write_file) (devices : DevMap) (ids : List Text) (n : String)
    (d : ERdmaDeviceInfo) (w w' : W) (v v' : V)
    → commands.contains ≡ smc.contains
    → host.printed ≡ inside.printed
    → last_device devices ids none ≡ some d
    → host.space w n ≡ inside.space v
    → setup_smcr commands devices ids n w ≡ done tt w'
    → smcr_init smc (pnet_id_of_mac d.mac) stat write_file v ≡ done tt v'
    → host.space w' n ≡ inside.space v'
unfolding set_up with_entry
setup_smcr-smcr_init {commands = commands} host inside devices ids n d w w' v v' c p last same h k =
    let (e, found, step) = setup_smcr-After host devices ids n w w' h in
    let e≡d = some-injective e d (sym found ∙ last) in
    step.0 ∙ rw (e≡d, c, p, same) (sym (smcr_init_lem inside (pnet_id_of_mac d.mac) v v' k))
