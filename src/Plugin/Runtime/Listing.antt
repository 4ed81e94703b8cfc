-- ===== src/Plugin/Runtime/Listing.antt =====
-- The statistics and lists of remoteRuntimeService in internal/deviceplugin/pod_config.go. Of each
-- response only one field is returned, which stands for it here.
use alibabacloud_erdma_contr.Prelude.{String, Option, List}
use alibabacloud_erdma_contr.Exec.{Exec}
use alibabacloud_erdma_contr.Exec.Act.{◌>>=◌, pure}
use alibabacloud_erdma_contr.Plugin.Runtime.{RuntimeClient, Service, with_client, from_v1alpha2}

-- The conversion of a filter goes through unsafe.Pointer too.
unfoldable pub to_v1alpha2 {ℓ} : {A : Type ℓ} → A → A
to_v1alpha2 a = a

module _ {W X : Type 0} where
  unfoldable pub pod_sandbox_stats_v1 : RuntimeClient W X → String → Exec W (Option X)
  pod_sandbox_stats_v1 c id = do resp ← c.pod_sandbox_stats id; pure resp

  unfoldable pub pod_sandbox_stats_v1alpha2 : RuntimeClient W X → String → Exec W (Option X)
  unfolding from_v1alpha2
  pod_sandbox_stats_v1alpha2 c id = do resp ← c.pod_sandbox_stats id; pure (from_v1alpha2 resp)

  unfoldable pub pod_sandbox_stats : Service W X → String → Exec W (Option X)
  unfolding pod_sandbox_stats_v1 pod_sandbox_stats_v1alpha2
  pod_sandbox_stats s = with_client s pod_sandbox_stats_v1 pod_sandbox_stats_v1alpha2

  unfoldable pub list_pod_sandbox_stats_v1 : RuntimeClient W X → Option X → Exec W (List X)
  list_pod_sandbox_stats_v1 c filter = do resp ← c.list_pod_sandbox_stats filter; pure resp

  unfoldable pub list_pod_sandbox_stats_v1alpha2 : RuntimeClient W X → Option X → Exec W (List X)
  unfolding from_v1alpha2 to_v1alpha2
  list_pod_sandbox_stats_v1alpha2 c filter = do
    resp ← c.list_pod_sandbox_stats (to_v1alpha2 filter)
    pure (from_v1alpha2 resp)

  unfoldable pub list_pod_sandbox_stats : Service W X → Option X → Exec W (List X)
  unfolding list_pod_sandbox_stats_v1 list_pod_sandbox_stats_v1alpha2
  list_pod_sandbox_stats s = with_client s list_pod_sandbox_stats_v1 list_pod_sandbox_stats_v1alpha2

  unfoldable pub list_pod_sandbox_v1 : RuntimeClient W X → Option X → Exec W (List X)
  list_pod_sandbox_v1 c filter = do resp ← c.list_pod_sandbox filter; pure resp

  unfoldable pub list_pod_sandbox_v1alpha2 : RuntimeClient W X → Option X → Exec W (List X)
  unfolding from_v1alpha2 to_v1alpha2
  list_pod_sandbox_v1alpha2 c filter = do
    resp ← c.list_pod_sandbox (to_v1alpha2 filter)
    pure (from_v1alpha2 resp)

  unfoldable pub list_pod_sandbox : Service W X → Option X → Exec W (List X)
  unfolding list_pod_sandbox_v1 list_pod_sandbox_v1alpha2
  list_pod_sandbox s = with_client s list_pod_sandbox_v1 list_pod_sandbox_v1alpha2

  unfoldable pub list_containers_v1 : RuntimeClient W X → Option X → Exec W (List X)
  list_containers_v1 c filter = do resp ← c.list_containers filter; pure resp

  unfoldable pub list_containers_v1alpha2 : RuntimeClient W X → Option X → Exec W (List X)
  unfolding from_v1alpha2 to_v1alpha2
  list_containers_v1alpha2 c filter = do
    resp ← c.list_containers (to_v1alpha2 filter)
    pure (from_v1alpha2 resp)

  unfoldable pub list_containers : Service W X → Option X → Exec W (List X)
  unfolding list_containers_v1 list_containers_v1alpha2
  list_containers s = with_client s list_containers_v1 list_containers_v1alpha2

  unfoldable pub list_container_stats_v1 : RuntimeClient W X → Option X → Exec W (List X)
  list_container_stats_v1 c filter = do resp ← c.list_container_stats filter; pure resp

  unfoldable pub list_container_stats_v1alpha2 : RuntimeClient W X → Option X → Exec W (List X)
  unfolding from_v1alpha2 to_v1alpha2
  list_container_stats_v1alpha2 c filter = do
    resp ← c.list_container_stats (to_v1alpha2 filter)
    pure (from_v1alpha2 resp)

  unfoldable pub list_container_stats : Service W X → Option X → Exec W (List X)
  unfolding list_container_stats_v1 list_container_stats_v1alpha2
  list_container_stats s = with_client s list_container_stats_v1 list_container_stats_v1alpha2
