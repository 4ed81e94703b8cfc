-- ===== src/Controller/Remove/Examples.antt =====
-- A cluster that is its list of resources, two of them of one node and held by finalizers, for the
-- theorem on RemoveERdmaDevices.
use alibabacloud_erdma_contr.Prelude.{
  ◌≡◌, refl, sym, any, str_eq, ◌&&◌, All, Bool, false, String, true, none, List, [], ◌∷◌, keep,
}
use alibabacloud_erdma_contr.Exec.{done, fail, Error}
use alibabacloud_erdma_contr.Exec.Act.{done_world}
use alibabacloud_erdma_contr.Types.{ERdmaDevice}
use alibabacloud_erdma_contr.Kube.{Kube}
use alibabacloud_erdma_contr.Controller.Remove.{
  settled, remove_finalizer, released, with_meta_of, release_all, delete_all, remove_erdma_devices,
}
use alibabacloud_erdma_contr.Controller.Remove.Laws.{
  named, patch_named, delete_named, IsCluster, remove_erdma_devices_removes,
}

abbrev held : String → String → ERdmaDevice
held name node = record {
  name = name;
  owner_uid = none;
  labels = ("alibabacloud.com/nodename", node) ∷ [];
  finalizers = "network.alibabacloud.com/erdma-controller" ∷ "example.com/hold" ∷ [];
  deletion_timestamp = none;
  spec = record { devices = []; jumbo_frame = true };
  status = [];
}

abbrev pub carries : String × String → ERdmaDevice → Bool
carries q d = any (λ l. str_eq l.0 q.0 && str_eq l.1 q.1) d.labels

abbrev server : Kube (List ERdmaDevice)
server = record {
  get_node = λ n w. fail (Error.not_found "none") w;
  get_device = λ n w. fail (Error.not_found "none") w;
  list_devices = λ q w. done (keep (carries q) w) w;
  create_device = λ d w. done tt (d ∷ w);
  create_or_patch = λ d f w. done tt (patch_named d f w);
  delete_device = λ d w. done tt (delete_named 100 d.name w);
  update_status = λ d w. done tt w;
  poll = λ m w. done tt w;
  seconds_now = λ w. 100;
  split_dots = λ s. s ∷ [];
}

abbrev server_cluster : IsCluster server
server_cluster = record {
  store = λ w. w;
  lists = λ q w v ds h. sym (done_world h);
  patches = λ d f w v h. sym (done_world h);
  deletes = λ d w v h. sym (done_world h);
}

abbrev three : List ERdmaDevice
three = held "a" "node-1" ∷ held "b" "node-2" ∷ held "c" "node-1" ∷ []

two_removed : remove_erdma_devices server "node-1" three ≡ done settled (held "b" "node-2" ∷ [])
unfolding remove_erdma_devices release_all delete_all with_meta_of released remove_finalizer
two_removed = refl

remove_erdma_devices_removes_example :
    (listed : List ERdmaDevice) × (v : List ERdmaDevice) × (server.list_devices
        ("alibabacloud.com/nodename", "node-1")
        three
      ≡ done listed v)
    × All (λ (e : ERdmaDevice). named e.name listed ≡ false) (held "b" "node-2" ∷ [])
remove_erdma_devices_removes_example =
    remove_erdma_devices_removes server server_cluster "node-1" three (held "b" "node-2" ∷ [])
      settled two_removed
