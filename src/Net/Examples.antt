-- ===== src/Net/Examples.antt =====
-- A kernel with two routes and a link that cannot get its address, for the theorems on
-- internal/drivers/netdev.go.
use alibabacloud_erdma_contr.Prelude.{
  ℕ, ◌+◌, ◌≤◌, ◌≡◌, inl, refl, pos, true, false, none, some, List, [], ◌∷◌, All,
}
use alibabacloud_erdma_contr.Exec.{remote, done, fail}
use alibabacloud_erdma_contr.Exec.Act.{◌>>◌}
use alibabacloud_erdma_contr.Types.{Eri}
use alibabacloud_erdma_contr.Net.Routes.{
  Route, KernelRoute, RouteTable, default_metric, select_metric, ensure_routes,
}
use alibabacloud_erdma_contr.Net.Routes.Laws.{IsBelow, select_metric_fresh}
use alibabacloud_erdma_contr.Net.Mtu.{jumbo_mtu}
use alibabacloud_erdma_contr.Net.Device.{
  Link, NetConf, Netlink, jumbo_step, ensure_mtu, ensure_address, bring_up, bring_up_failure,
}

abbrev kernel_routes : List KernelRoute
kernel_routes =
    record { dst = some "10.0.0.0/24"; link_index = 2; priority = 200 }
    ∷ record { dst = none; link_index = 2; priority = 201 }
    ∷ []

abbrev direct_route : Route
direct_route = record { destination = some "10.0.0.0/24"; gateway = none; metric = 200 }

abbrev default_route : Route
default_route = record { destination = none; gateway = some "10.0.0.253"; metric = 201 }

abbrev two_routes : List Route
two_routes = direct_route ∷ default_route ∷ []

-- The world counts the calls that change something, and the calls of LinkSetDown as tens.
abbrev kernel : RouteTable ℕ
kernel = record {
  route_list = λ l w. done kernel_routes w;
  route_add = λ r w. done tt (w + 1);
  route_del = λ r w. done tt (w + 1);
}

select_metric_fresh_example :
    (default_metric ≤ select_metric kernel_routes (some "10.0.0.0/24"))
    × All
        (IsBelow (some "10.0.0.0/24") (select_metric kernel_routes (some "10.0.0.0/24")))
        kernel_routes
select_metric_fresh_example = select_metric_fresh kernel_routes (some "10.0.0.0/24")

abbrev netlink : Netlink ℕ
netlink = record {
  table = kernel;
  link_list = λ w. done [] w;
  link_set_mtu = λ l m w. done tt (w + 1);
  link_set_up = λ l w. done tt (w + 1);
  link_set_down = λ l w. done tt (w + 10);
  addr_list_v4 = λ l w. done [] w;
  addr_list_all = λ l w. done [] w;
  addr_add = λ l a w. fail (remote "no permission") w;
  metadata = λ k w. done "" w;
  masked = λ ip mask. "10.0.0.0/24";
  parse_ip = λ s. some s;
  parse_cidr = λ s. some (s, "ffffff00");
}

abbrev eth1 : Link
eth1 = record {
  index = 2;
  name = "eth1";
  is_device = true;
  hardware_addr = some "00:16:3e:00:00:02";
  oper_up = false;
  mtu = pos 1500;
}

abbrev jumbo_eri : Eri
jumbo_eri = record {
  id = "eni-2";
  is_primary_eni = false;
  mac = "00:16:3e:00:00:02";
  instance_id = "i-1";
  card_index = pos 1;
  queue_pair = pos 8;
  jumbo_frame = true;
  jumbo_frame_mtu = pos 8000;
}

abbrev eth1_conf : NetConf
eth1_conf = record { ip = "10.0.0.5"; mask = "ffffff00"; routes = two_routes }

mtu_set : jumbo_step netlink eth1 jumbo_eri 0 ≡ done tt 1
unfolding jumbo_step ensure_mtu jumbo_mtu
mtu_set = refl

address_fails :
    (ensure_address netlink eth1 eth1_conf >> ensure_routes kernel 2 two_routes) 2
    ≡ fail (remote "no permission") 2
unfolding ensure_address
address_fails = refl

bring_up_failure_example :
    bring_up netlink eth1 jumbo_eri eth1_conf 0 ≡ fail (remote "no permission") 12
bring_up_failure_example =
    bring_up_failure netlink eth1 jumbo_eri eth1_conf (remote "no permission") 0 1 2 2 12 mtu_set
      refl address_fails (inl refl)
