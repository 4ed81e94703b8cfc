-- ===== src/Plugin/Runtime/Unused.antt =====
-- The operations of remoteRuntimeService that the plugin has no use for: each answers at once with
-- nothing and no error, whatever the version of the API. `X` stands for their messages.
use alibabacloud_erdma_contr.Prelude.{ℕ, ℤ, String, Text, Option, none, List, []}
use alibabacloud_erdma_contr.Exec.{Res, ok}

unfoldable pub attach : {X : Type 0} → X → Res (Option X)
attach r = ok none

unfoldable pub checkpoint_container : {X : Type 0} → X → Res (Unit {0})
checkpoint_container r = ok tt

unfoldable pub container_stats : {X : Type 0} → String → Res (Option X)
container_stats id = ok none

unfoldable pub create_container : {X : Type 0} → String → X → X → Res String
create_container sandbox config sandbox_config = ok ""

unfoldable pub exec : {X : Type 0} → X → Res (Option X)
exec r = ok none

unfoldable pub exec_sync : String → List String → ℕ → Res (Text × Text)
exec_sync id cmd timeout = ok ([], [])

unfoldable pub get_container_events : {X : Type 0} → X → Res (Unit {0})
get_container_events events = ok tt

unfoldable pub port_forward : {X : Type 0} → X → Res (Option X)
port_forward r = ok none

unfoldable pub remove_container : String → Res (Unit {0})
remove_container id = ok tt

unfoldable pub remove_pod_sandbox : String → Res (Unit {0})
remove_pod_sandbox id = ok tt

unfoldable pub reopen_container_log : String → Res (Unit {0})
reopen_container_log id = ok tt

unfoldable pub run_pod_sandbox : {X : Type 0} → X → String → Res String
run_pod_sandbox config handler = ok ""

unfoldable pub start_container : String → Res (Unit {0})
start_container id = ok tt

unfoldable pub stop_container : String → ℤ → Res (Unit {0})
stop_container id timeout = ok tt

unfoldable pub stop_pod_sandbox : String → Res (Unit {0})
stop_pod_sandbox id = ok tt

unfoldable pub update_container_resources : {X : Type 0} → String → X → Res (Unit {0})
update_container_resources id resources = ok tt

unfoldable pub update_runtime_config : {X : Type 0} → X → Res (Unit {0})
update_runtime_config config = ok tt
