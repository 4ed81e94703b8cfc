-- ===== src/Net/Device.antt =====
-- EnsureNetDevice, ensureAddress, hasNonLinkLocalAddr and getNetConfFromMetadata of
-- internal/drivers/netdev.go: brings a secondary interface up with its address and routes.
use alibabacloud_erdma_contr.Prelude.{
  ℕ, ◌≡◌, String, str_eq, ℤ, pos, negsuc, ◌==◌, arith, ◌⊎◌, Bool, true, false, not, ◌&&◌, Option,
  none, some, List, [], ◌∷◌, any, if◌then◌else◌,
}
use alibabacloud_erdma_contr.Exec.{Exec, Run, Error, errorf}
use alibabacloud_erdma_contr.Exec.Act.{◌>>=◌, ◌>>◌, pure, raise, handle}
use alibabacloud_erdma_contr.Types.{Eri}
use alibabacloud_erdma_contr.Net.Mtu.{jumbo_mtu}
use alibabacloud_erdma_contr.Net.Routes.{RouteTable, Route, ensure_routes, gen_routes_for_addr}

-- A link of netlink; `is_device` is whether it is a *netlink.Device, and `hardware_addr` the text of
-- its address, none where it is nil.
pub record Link : Type 0 where
  pub index : ℕ
  pub name : String
  pub is_device : Bool
  pub hardware_addr : Option String
  pub oper_up : Bool
  pub mtu : ℤ

-- An address of a link, with the tests of net.IP that the code makes.
pub record Addr : Type 0 where
  pub ip : String
  pub is_link_local_unicast : Bool
  pub is_link_local_multicast : Bool

-- The address and the network mask of the interface, and the range that the two make.
pub record NetConf : Type 0 where
  pub ip : String
  pub mask : String
  pub routes : List Route

-- `masked ip mask` is the text of the range of the address. `parse_ip` and `parse_cidr` give the
-- text of the address, and the range with its mask, or nothing where net cannot parse.
pub record Netlink (W : Type 0) : Type 0 where
  pub table : RouteTable W
  pub link_list : Exec W (List Link)
  pub link_set_mtu : Link → ℤ → Exec W (Unit {0})
  pub link_set_up : Link → Exec W (Unit {0})
  pub link_set_down : Link → Exec W (Unit {0})
  pub addr_list_v4 : Link → Exec W (List Addr)
  pub addr_list_all : Link → Exec W (List Addr)
  pub addr_add : Link → String × String → Exec W (Unit {0})
  pub metadata : String × String → Exec W String
  pub masked : String → String → String
  pub parse_ip : String → Option String
  pub parse_cidr : String → Option (String × String)

abbrev pub same_int : ℤ → ℤ → Bool
same_int (pos m) (pos n) = m == n
same_int (pos m) (negsuc n) = false
same_int (negsuc m) (pos n) = false
same_int (negsuc m) (negsuc n) = m == n

module _ {W : Type 0} (net : Netlink W) where
  unfoldable pub ensure_mtu : Link → ℤ → Exec W (Unit {0})
  ensure_mtu link mtu = if same_int link.mtu mtu then pure tt else net.link_set_mtu link mtu

  -- An address with a wider scope than the link; an error counts as none.
  unfoldable pub has_non_link_local_addr : Link → Exec W Bool
  has_non_link_local_addr link =
      handle (net.addr_list_all link)
        (λ addrs.
          pure (
            any (λ (a : Addr). not a.is_link_local_unicast && not a.is_link_local_multicast) addrs))
        (λ e. pure false)

  -- The range's route that the kernel makes by itself is removed, if that works.
  unfoldable pub ensure_address : Link → NetConf → Exec W (Unit {0})
  ensure_address link conf = do
    addrs ← net.addr_list_v4 link
    if any (λ (a : Addr). str_eq a.ip conf.ip) addrs then pure tt else (do
      net.addr_add link (conf.ip, conf.mask)
      handle
          (net.table.route_del (record {
            dst = some (net.masked conf.ip conf.mask);
            link_index = link.index;
            priority = 0;
          }))
          (λ x. pure tt) (λ e. pure tt))

  unfoldable pub get_net_conf_from_metadata : String → Exec W NetConf
  get_net_conf_from_metadata mac = do
    addr ← net.metadata ("primary-ip-address", mac)
    elim (net.parse_ip addr) [
      | none ↦ raise (errorf "invalid ip address: %s" (addr ∷ []))
      | some ip ↦ (do
        cidr ← net.metadata ("vswitch-cidr-block", mac)
        elim (net.parse_cidr cidr) [
          | none ↦ raise (errorf "invalid cidr: %s" (cidr ∷ []))
          | some range ↦ (do
            gw ← net.metadata ("gateway", mac)
            elim (net.parse_ip gw) [
              | none ↦ raise (errorf "invalid gateway address: %s" (gw ∷ []))
              | some gateway ↦ (do
                routes ← gen_routes_for_addr net.table gateway range.0
                pure (record { ip = ip; mask = range.1; routes = routes }))
            ])
        ])
    ]

  unfoldable pub jumbo_step : Link → Eri → Exec W (Unit {0})
  unfolding ensure_mtu
  jumbo_step link eri = if eri.jumbo_frame then ensure_mtu link (jumbo_mtu eri) else pure tt

  -- The deferred LinkSetDown: an error after the link is up takes it down again.
  unfoldable pub down_on_error : Link → Exec W (Unit {0}) → Exec W (Unit {0})
  down_on_error link m =
      handle m pure (λ e. handle (net.link_set_down link) (λ x. raise e) (λ x. raise e))

  unfoldable pub bring_up : Link → Eri → NetConf → Exec W (Unit {0})
  unfolding jumbo_step down_on_error ensure_address
  bring_up link eri conf = do
    jumbo_step link eri
    net.link_set_up link
    down_on_error link (do ensure_address link conf; ensure_routes net.table link.index conf.routes)

  -- A link in use is only checked: a missing address is logged.
  unfoldable pub check_up : Link → Eri → Exec W (Unit {0})
  unfolding jumbo_step
  check_up link eri = do jumbo_step link eri; addrs ← net.addr_list_v4 link; pure tt

  -- The test reads the addresses only of a link that is up.
  unfoldable pub needs_setup : Link → Exec W Bool
  unfolding has_non_link_local_addr
  needs_setup link =
      if link.oper_up then (do has ← has_non_link_local_addr link; pure (not has)) else pure true

  unfoldable pub ensure_net_device : Link → Eri → Exec W (Unit {0})
  unfolding bring_up check_up needs_setup get_net_conf_from_metadata
  ensure_net_device link eri = if eri.is_primary_eni then pure tt else (do
    conf ← get_net_conf_from_metadata eri.mac
    setup ← needs_setup link
    if setup then bring_up link eri conf else check_up link eri)

-- When the MTU step and LinkSetUp succeed and the address or the routes then fail, LinkSetDown is
-- called where they failed, whether it works or not, and the error is the one of the failure.
pub bring_up_failure :
    {W : Type 0} (net : Netlink W) (link : Link) (eri : Eri) (conf : NetConf) (e : Error)
    (w w1 w2 v u : W)
    → jumbo_step net link eri w ≡ Run.done tt w1
    → net.link_set_up link w1 ≡ Run.done tt w2
    → (ensure_address net link conf >> ensure_routes net.table link.index conf.routes) w2
      ≡ Run.fail e v
    → ((net.link_set_down link v ≡ Run.done tt u)
        ⊎ ((x : Error) × (net.link_set_down link v ≡ Run.fail x u)))
    → bring_up net link eri conf w ≡ Run.fail e u
unfolding bring_up down_on_error
bring_up_failure net link eri conf e w w1 w2 v u mtu up failed down =
    rw (mtu, up, bring_up) (rw (failed, down_on_error) (ground arith))
