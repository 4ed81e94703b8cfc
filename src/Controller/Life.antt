-- ===== src/Controller/Life.antt =====
-- The reconcilers of nodes and of resources on one cluster, in any order, with changes from outside
-- between them.
pub mod Frame
pub mod Settled
pub mod Examples
use alibabacloud_erdma_contr.Prelude.{
  Bool, ℕ, ◌≡◌, ◌⊎◌, String, str_eq, true, List, [], ◌∷◌, ◌++◌, map, All, if◌then◌else◌,
}
use alibabacloud_erdma_contr.Exec.{Exec}
use alibabacloud_erdma_contr.Exec.Act.{world}
use alibabacloud_erdma_contr.Exec.Stays.{Stays}
use alibabacloud_erdma_contr.Types.{ERdmaDevice, Config}
use alibabacloud_erdma_contr.Ecs.{Ecs}
use alibabacloud_erdma_contr.Kube.{Kube}
use alibabacloud_erdma_contr.Eri.Client.{EriClient}
use alibabacloud_erdma_contr.Eri.Frame.{Spares}
use alibabacloud_erdma_contr.Controller.Remove.Laws.{patch_stored, delete_named}
use alibabacloud_erdma_contr.Controller.Device.{reconcile_device}
use alibabacloud_erdma_contr.Controller.Node.{reconcile_node}

-- Status().Update writes the status of the resource of the name.
abbrev pub set_status : ERdmaDevice → ERdmaDevice → ERdmaDevice
set_status d e = if str_eq e.name d.name then record e { status = d.status } else e

-- A resource is created without its status, which is a subresource.
abbrev pub without_status : ERdmaDevice → ERdmaDevice
without_status d = record d { status = [] }

-- An update is refused where the stored resource is another version, so that its spec is the one
-- that was read.
abbrev pub SameSpec : ERdmaDevice → ERdmaDevice → Type 0
SameSpec d e = str_eq e.name d.name ≡ true → e.spec ≡ d.spec

-- A cluster and a cloud in which resources are kept by the API server only. A call that changes the
-- store does so or does not, also where it answers with an error.
pub record IsStore {W : Type 0} (kube : Kube W) (ecs : Ecs W) : Type 0 where
  pub store : W → List ERdmaDevice
  pub cloud : (s : List ERdmaDevice) → Spares (λ w. store w ≡ s) ecs
  pub gets_node : (s : List ERdmaDevice) (n : String) → Stays (λ w. store w ≡ s) (kube.get_node n)
  pub gets : (s : List ERdmaDevice) (n : String) → Stays (λ w. store w ≡ s) (kube.get_device n)
  pub lists :
      (s : List ERdmaDevice) (q : String × String) → Stays (λ w. store w ≡ s) (kube.list_devices q)
  pub polls :
      (s : List ERdmaDevice) (m : Exec W Bool)
      → Stays (λ w. store w ≡ s) m
      → Stays (λ w. store w ≡ s) (kube.poll m)
  pub creates :
      (d : ERdmaDevice) (w : W)
      → (store (world (kube.create_device d w)) ≡ store w)
        ⊎ (store (world (kube.create_device d w)) ≡ store w ++ (without_status d ∷ []))
  pub patches :
      (d : ERdmaDevice) (f : ERdmaDevice → ERdmaDevice) (w : W)
      → (store (world (kube.create_or_patch d f w)) ≡ store w)
        ⊎ ((store (world (kube.create_or_patch d f w)) ≡ patch_stored d.name f (store w))
            ⊎ (store (world (kube.create_or_patch d f w)) ≡ store w ++ (without_status (f d) ∷ [])))
  pub deletes :
      (d : ERdmaDevice) (w : W)
      → (store (world (kube.delete_device d w)) ≡ store w)
        ⊎ (store (world (kube.delete_device d w))
            ≡ delete_named (kube.seconds_now w) d.name (store w))
  pub updates :
      (d : ERdmaDevice) (w : W)
      → (store (world (kube.update_status d w)) ≡ store w)
        ⊎ (All (SameSpec d) (store w)
            × (store (world (kube.update_status d w)) ≡ map (set_status d) (store w)))

module _ {W : Type 0} (kube : Kube W) (ecs : Ecs W) (c : EriClient) (config : Config)
    (server : IsStore kube ecs) where
  -- A step is one reconciliation, with any set taggedENIs and whatever its calls answer, a deletion
  -- of a resource by somebody else, or a change that leaves the resources alone.
  pub data Step (w : W) (v : W) : Type 0 where
    of_node :
        (tagged : List String) (name : String)
        → world (reconcile_node kube ecs c config tagged name w) ≡ v
        → Step w v
    of_device : (name : String) → world (reconcile_device kube ecs name w) ≡ v → Step w v
    deletion :
        (now : ℕ) (name : String)
        → server.store v ≡ delete_named now name (server.store w)
        → Step w v
    elsewhere : server.store v ≡ server.store w → Step w v

  pub data Reach (s : W) : W → Type 0 where
    here : Reach s s
    next : {w v : W} → Reach s w → Step w v → Reach s v
