-- ===== src/Net/Routes/Laws.antt =====
-- Metrics that collide with no route of the kernel.
use alibabacloud_erdma_contr.Prelude.{
  ℕ, ◌+◌, ◌≤◌, ◌<◌, ◌≡◌, String, true, Option, List, [], ◌∷◌, All, All-map, arith,
}
use alibabacloud_erdma_contr.Net.Routes.{
  KernelRoute, default_metric, same_destination, highest_metric, select_metric,
}

-- The kernel route goes elsewhere, or has a smaller metric.
abbrev pub IsBelow : Option String → ℕ → KernelRoute → Type 0
IsBelow d m k = same_destination d k.dst ≡ true → k.priority < m

highest_metric-le :
    (d : Option String) (ks : List KernelRoute) (best : ℕ) → best ≤ highest_metric d ks best
unfolding highest_metric
highest_metric-le d [] best = omega arith
highest_metric-le d (k ∷ ks) best =
    ground (arith, highest_metric-le d ks k.priority, highest_metric-le d ks best)

highest_metric-IsBelow :
    (d : Option String) (ks : List KernelRoute) (best : ℕ)
    → All (IsBelow d (highest_metric d ks best + 1)) ks
unfolding highest_metric
highest_metric-IsBelow d [] best = tt
highest_metric-IsBelow d (k ∷ ks) best = (
  (λ same. ground (arith, highest_metric-le d ks k.priority, highest_metric-le d ks best)),
  highest_metric-IsBelow d ks _,
)

-- The metric chosen for a route is at least the default, and larger than that of every route of
-- the kernel to the same destination.
pub select_metric_fresh :
    (exist : List KernelRoute) (d : Option String)
    → (default_metric ≤ select_metric exist d) × All (IsBelow d (select_metric exist d)) exist
unfolding select_metric
select_metric_fresh exist d = (
  ground arith,
  All-map (IsBelow d (highest_metric d exist 0 + 1)) _ exist
      (λ k below same. ground (arith, below same)) (highest_metric-IsBelow d exist 0),
)
