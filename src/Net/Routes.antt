-- ===== src/Net/Routes.antt =====
-- genRoutesForAddr and ensureRoutes of internal/drivers/netdev.go. An address range or a gateway is
-- the text that its String method gives; `none` is a nil range or a nil gateway.
pub mod Laws
use alibabacloud_erdma_contr.Prelude.{
  ℕ, ◌+◌, String, str_eq, Bool, true, false, ◌&&◌, Option, none, some, List, [], ◌∷◌, ltb, ◌==◌,
  find, if◌then◌else◌,
}
use alibabacloud_erdma_contr.Exec.{Exec, errorf, wrap}
use alibabacloud_erdma_contr.Exec.Act.{◌>>=◌, ◌>>◌, pure, raise, reword}

abbrev pub default_metric : ℕ
default_metric = 200

abbrev pub metric_addition : ℕ
metric_addition = 1

pub record Route : Type 0 where
  pub destination : Option String
  pub gateway : Option String
  pub metric : ℕ

-- A route of the kernel; priorities are unsigned there.
pub record KernelRoute : Type 0 where
  pub dst : Option String
  pub link_index : ℕ
  pub priority : ℕ

-- What RouteAdd is given.
pub record NewRoute : Type 0 where
  pub dst : Option String
  pub gw : Option String
  pub link_index : ℕ
  pub priority : ℕ
  pub scope_link : Bool

-- The test of genRoutesForAddr and of the second loop of ensureRoutes, whether a kernel route goes
-- where the route goes. (`String` of a nil range gives "<nil>", which is the text of no range.)
unfoldable pub same_destination : Option String → Option String → Bool
same_destination none none = true
same_destination none (some k) = str_eq k "0.0.0.0/0"
same_destination (some d) none = false
same_destination (some d) (some k) = str_eq k d

-- The test of the first loop of ensureRoutes.
unfoldable pub is_direct : Option String → Option String → Bool
is_direct d none = false
is_direct none (some k) = false
is_direct (some d) (some k) = str_eq k d

unfoldable pub has_no_gateway : Route → Bool
has_no_gateway r = elim r.gateway [ none ↦ true | some gw ↦ false ]

-- lo.ForEach over the kernel's routes: the highest priority of those that match.
unfoldable pub highest_metric : Option String → List KernelRoute → ℕ → ℕ
unfolding same_destination
highest_metric d [] best = best
highest_metric d (k ∷ ks) best =
    highest_metric d ks
      (if same_destination d k.dst && ltb best k.priority then k.priority else best)

unfoldable pub select_metric : List KernelRoute → Option String → ℕ
unfolding highest_metric
select_metric exist d =
    let metric = highest_metric d exist 0 + metric_addition in
    if ltb metric default_metric then default_metric else metric

unfoldable pub routes_for : List KernelRoute → String → String → List Route
unfolding select_metric
routes_for exist gateway cidr =
    record { destination = some cidr; gateway = none; metric = select_metric exist (some cidr) }
    ∷ record { destination = none; gateway = some gateway; metric = select_metric exist none }
    ∷ []

-- The calls of netlink that the routes need; a list of `none` is over all links.
pub record RouteTable (W : Type 0) : Type 0 where
  pub route_list : Option ℕ → Exec W (List KernelRoute)
  pub route_add : NewRoute → Exec W (Unit {0})
  pub route_del : KernelRoute → Exec W (Unit {0})

module _ {W : Type 0} (table : RouteTable W) where
  unfoldable pub gen_routes_for_addr : String → String → Exec W (List Route)
  unfolding routes_for
  gen_routes_for_addr gateway cidr = do
    exist ← table.route_list none
    pure (routes_for exist gateway cidr)

module _ {W : Type 0} (table : RouteTable W) (link : ℕ) where
  unfoldable pub new_route : Route → Bool → NewRoute
  new_route r scoped = record {
    dst = r.destination;
    gw = r.gateway;
    link_index = link;
    priority = r.metric;
    scope_link = scoped;
  }

  -- A kernel route with the route's metric stays, one with another is replaced.
  unfoldable pub replace_route : String → String → Route → KernelRoute → Exec W (Unit {0})
  unfolding new_route
  replace_route no_del no_add r k = if r.metric == k.priority then pure tt else (do
    reword (wrap no_del []) (table.route_del k)
    reword (wrap no_add []) (table.route_add (new_route r true)))

  -- A loop over the kernel's routes; whether one of them goes where the route goes comes back.
  unfoldable pub sync_route :
      (Option String → Bool) → String → String → Route → List KernelRoute → Bool → Exec W Bool
  unfolding replace_route
  sync_route goes no_del no_add r [] found = pure found
  sync_route goes no_del no_add r (k ∷ ks) found = elim (goes k.dst) [
    | true ↦ (do replace_route no_del no_add r k; sync_route goes no_del no_add r ks true)
    | false ↦ sync_route goes no_del no_add r ks found
  ]

  -- The loop finds the route, or it is added.
  unfoldable pub ensure_route :
      (Option String → Bool)
      → String × String × String
      → Bool
      → Route
      → List KernelRoute
      → Exec W (Unit {0})
  unfolding sync_route new_route
  ensure_route goes texts scoped r kernel = do
    found ← sync_route goes texts.0 texts.1 r kernel false
    if found then pure tt else reword (wrap texts.2 []) (table.route_add (new_route r scoped))

  unfoldable pub ensure_gateway_routes : List Route → List KernelRoute → Exec W (Unit {0})
  unfolding ensure_route
  ensure_gateway_routes [] kernel = pure tt
  ensure_gateway_routes (r ∷ rs) kernel = elim r.gateway [
    | none ↦ ensure_gateway_routes rs kernel
    | some gw ↦ (do
      ensure_route (same_destination r.destination)
          ("delete route failed: %v", "update route failed: %v", "create route failed: %+v, %v, %v")
          false r kernel
      ensure_gateway_routes rs kernel)
  ]

  unfoldable pub ensure_routes : List Route → Exec W (Unit {0})
  unfolding ensure_route ensure_gateway_routes has_no_gateway
  ensure_routes routes = do
    kernel ← reword (wrap "list route failed: %v" []) (table.route_list (some link))
    elim (find has_no_gateway routes) [
      | none ↦ raise (errorf "no direct route found" [])
      | some direct ↦ (do
        ensure_route (is_direct direct.destination)
            (
              "delete direct route failed: %v", "update direct route failed: %v",
              "create direct route failed: %v",
            )
            true direct kernel
        ensure_gateway_routes routes kernel)
    ]
