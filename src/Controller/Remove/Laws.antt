-- ===== src/Controller/Remove/Laws.antt =====
-- RemoveERdmaDevices over a cluster that keeps the resources.
use alibabacloud_erdma_contr.Prelude.{
  ℕ, ◌≡◌, refl, ◌⊎◌, inl, inr, String, str_eq, Bool, Bool-cases, true, false, none, some, List, [],
  ◌∷◌, ◌&&◌, ◌||◌, ◌++◌, any, All, All-map, is_empty, if◌then◌else◌, arith,
}
use alibabacloud_erdma_contr.Exec.{done}
use alibabacloud_erdma_contr.Exec.Act.{◌>>◌, pure, after, done_world, arrive, through}
use alibabacloud_erdma_contr.Types.{ERdmaDevice}
use alibabacloud_erdma_contr.Kube.{Kube}
use alibabacloud_erdma_contr.Controller.Remove.{
  Outcome, settled, remove_finalizer, released, with_meta_of, release_all, delete_all,
  remove_erdma_devices,
}

abbrev pub named : String → List ERdmaDevice → Bool
named n = any (λ (d : ERdmaDevice). str_eq n d.name)

abbrev pub is_deleting : ERdmaDevice → Bool
is_deleting e = elim e.deletion_timestamp [ none ↦ false | some t ↦ true ]

-- No patch sets or clears the time of the deletion.
abbrev pub patched : (ERdmaDevice → ERdmaDevice) → ERdmaDevice → ERdmaDevice
patched f e = record (f e) { deletion_timestamp = e.deletion_timestamp }

-- A patch changes the stored resource of the name, and removes one that is being deleted with its
-- last finalizer.
abbrev pub patch_stored : String → (ERdmaDevice → ERdmaDevice) → List ERdmaDevice → List ERdmaDevice
patch_stored n f [] = []
patch_stored n f (e ∷ es) =
    let rest = patch_stored n f es in
    if str_eq e.name n
    then (if is_deleting e && is_empty (f e).finalizers then rest else patched f e ∷ rest)
    else e ∷ rest

-- Where there is none of the name, it is created.
abbrev pub patch_named :
    ERdmaDevice → (ERdmaDevice → ERdmaDevice) → List ERdmaDevice → List ERdmaDevice
patch_named d f es =
    if any (λ (e : ERdmaDevice). str_eq e.name d.name) es
    then patch_stored d.name f es
    else es ++ (record (f d) { deletion_timestamp = none } ∷ [])

-- A deletion removes the resource of the name, or marks it where it has finalizers.
abbrev pub delete_named : ℕ → String → List ERdmaDevice → List ERdmaDevice
delete_named now n [] = []
delete_named now n (e ∷ es) =
    let rest = delete_named now n es in
    if str_eq e.name n
    then (if is_empty e.finalizers then rest else record e { deletion_timestamp = some now } ∷ rest)
    else e ∷ rest

-- A cluster that keeps resources as the API server does, while nobody else changes them. A listing
-- comes from a cache and may be of any age; CreateOrPatch reads the one resource as it is stored.
pub record IsCluster {W : Type 0} (kube : Kube W) : Type 0 where
  pub store : W → List ERdmaDevice
  pub lists :
      (q : String × String) (w v : W) (ds : List ERdmaDevice)
      → kube.list_devices q w ≡ done ds v
      → store v ≡ store w
  pub patches :
      (d : ERdmaDevice) (f : ERdmaDevice → ERdmaDevice) (w v : W)
      → kube.create_or_patch d f w ≡ done tt v
      → store v ≡ patch_named d f (store w)
  pub deletes :
      (d : ERdmaDevice) (w v : W)
      → kube.delete_device d w ≡ done tt v
      → store v ≡ delete_named (kube.seconds_now w) d.name (store w)

All_lem {ℓ κ} : {A : Type ℓ} (P : A → Type κ) → ((a : A) → P a) → (l : List A) → All P l
All_lem P h [] = tt
All_lem P h (a ∷ l) = (h a, All_lem P h l)

-- Of the listed resources `listed`, those of `left` are still to be released, or to be deleted.
module _ (listed : List ERdmaDevice) where
  abbrev Released : List ERdmaDevice → ERdmaDevice → Type 0
  Released left e = named e.name listed ≡ true → (e.finalizers ≡ []) ⊎ (named e.name left ≡ true)

  abbrev Deleted : List ERdmaDevice → ERdmaDevice → Type 0
  Deleted left e = named e.name listed ≡ true → (e.finalizers ≡ []) × (named e.name left ≡ true)

  marked :
      (e d : ERdmaDevice) (left : List ERdmaDevice)
      → is_empty e.finalizers ≡ false
      → (e.finalizers ≡ []) × (named e.name (d ∷ left) ≡ true)
      → (e.finalizers ≡ []) × (named e.name left ≡ true)
  marked e d left c (f, n) = ground arith

  kept :
      (e d : ERdmaDevice) (left : List ERdmaDevice)
      → str_eq e.name d.name ≡ false
      → (e.finalizers ≡ []) × (named e.name (d ∷ left) ≡ true)
      → (e.finalizers ≡ []) × (named e.name left ≡ true)
  kept e d left b (f, n) = (f, rw b at n)

  delete_one :
      (now : ℕ) (d : ERdmaDevice) (left es : List ERdmaDevice)
      → All (Deleted (d ∷ left)) es
      → All (Deleted left) (delete_named now d.name es)
  delete_one now d left [] a = tt
  delete_one now d left (e ∷ es) a = elim (Bool-cases (str_eq e.name d.name)) [
    | inl b ↦ elim (Bool-cases (is_empty e.finalizers)) [
      | inl c ↦ rw (b, c) (delete_one now d left es a.1)
      | inr c ↦ rw (b, c) ((λ k. marked e d left c (a.0 k)), delete_one now d left es a.1)
    ]
    | inr b ↦ rw b ((λ k. kept e d left b (a.0 k)), delete_one now d left es a.1)
  ]

  neither : (a b : Bool) → (a || b) ≡ false → (a ≡ false) × (b ≡ false)
  neither a b h = ground arith

  not_first :
      (d : ERdmaDevice) (left : List ERdmaDevice) (e : ERdmaDevice)
      → str_eq e.name d.name ≡ false
      → (e.finalizers ≡ []) ⊎ (named e.name (d ∷ left) ≡ true)
      → (e.finalizers ≡ []) ⊎ (named e.name left ≡ true)
  not_first d left e b (inl g) = inl g
  not_first d left e b (inr g) = inr (rw b at g)

  release_stored :
      (d : ERdmaDevice) (left es : List ERdmaDevice)
      → All (Released (d ∷ left)) es
      → All (Released left) (patch_stored d.name (with_meta_of (released d)) es)
  unfolding with_meta_of released remove_finalizer
  release_stored d left [] a = tt
  release_stored d left (e ∷ es) a = elim (Bool-cases (str_eq e.name d.name)) [
    | inl b ↦ elim (Bool-cases (is_deleting e)) [
      | inl gone ↦ rw (b, gone) (release_stored d left es a.1)
      | inr stays ↦ rw (b, stays) ((λ k. inl refl), release_stored d left es a.1)
    ]
    | inr b ↦ rw b ((λ k. not_first d left e b (a.0 k)), release_stored d left es a.1)
  ]

  release_add :
      (d : ERdmaDevice) (left es : List ERdmaDevice)
      → All (Released (d ∷ left)) es
      → any (λ (e : ERdmaDevice). str_eq e.name d.name) es ≡ false
      → All
          (Released left)
          (es ++ (record (with_meta_of (released d) d) { deletion_timestamp = none } ∷ []))
  unfolding with_meta_of released remove_finalizer
  release_add d left [] a m = ((λ k. inl refl), tt)
  release_add d left (e ∷ es) a m =
      let (here, there) = neither _ _ m in
      ((λ k. not_first d left e here (a.0 k)), release_add d left es a.1 there)

  release_named :
      (d : ERdmaDevice) (left es : List ERdmaDevice)
      → All (Released (d ∷ left)) es
      → All (Released left) (patch_named d (with_meta_of (released d)) es)
  release_named d left es a =
      elim (Bool-cases (any (λ (e : ERdmaDevice). str_eq e.name d.name) es)) [
        | inl b ↦ rw b (release_stored d left es a)
        | inr b ↦ rw b (release_add d left es a b)
      ]

  module _ {W : Type 0} (kube : Kube W) (cluster : IsCluster kube) where
    release_all-Released :
        (left : List ERdmaDevice) (w w' : W)
        → All (Released left) (cluster.store w)
        → release_all kube left w ≡ done tt w'
        → All (Released []) (cluster.store w')
    unfolding release_all released remove_finalizer
    release_all-Released [] w w' a h = rw (done_world h) at a
    release_all-Released (d ∷ left) w w' a h =
        elim (through (kube.create_or_patch (released d) (with_meta_of (released d)) w) _ h) [
          | arrive t v e k ↦
              release_all-Released left v w'
                (rw (cluster.patches (released d) (with_meta_of (released d)) w v e)
                  (release_named d left (cluster.store w) a))
                k
        ]

    delete_all-Deleted :
        (left : List ERdmaDevice) (w w' : W)
        → All (Deleted left) (cluster.store w)
        → delete_all kube left w ≡ done tt w'
        → All (Deleted []) (cluster.store w')
    unfolding delete_all
    delete_all-Deleted [] w w' a h = rw (done_world h) at a
    delete_all-Deleted (d ∷ left) w w' a h = elim (through (kube.delete_device d w) _ h) [
      | arrive t v e k ↦
          delete_all-Deleted left v w'
            (rw (cluster.deletes d w v e)
              (delete_one (kube.seconds_now w) d left (cluster.store w) a))
            k
    ]

  Released-Deleted : (e : ERdmaDevice) → Released [] e → Deleted listed e
  Released-Deleted e r k = elim (r k) [ inl g ↦ (g, k) | inr never ↦ cc ]

  Deleted-gone : (e : ERdmaDevice) → Deleted [] e → named e.name listed ≡ false
  Deleted-gone e a = elim (Bool-cases (named e.name listed)) [
    | inl b ↦ absurd (cc ((a b).1))
    | inr b ↦ b
  ]

  removed :
      {W : Type 0} (kube : Kube W) (cluster : IsCluster kube) (v w' : W) (o : Outcome)
      → after (release_all kube listed v) (λ t. delete_all kube listed >> pure settled) ≡ done o w'
      → All (λ (e : ERdmaDevice). named e.name listed ≡ false) (cluster.store w')
  removed kube cluster v w' o h = elim (through (release_all kube listed v) _ h) [
    | arrive t u e k ↦ elim (through (delete_all kube listed u) _ k) [
      | arrive t2 x e2 k2 ↦
          let free =
            release_all-Released kube cluster listed v u
              (All_lem _ (λ e k. inr k) (cluster.store v)) e in
          let gone =
            delete_all-Deleted kube cluster listed u x
              (All-map _ _ (cluster.store u) Released-Deleted free) e2 in
          rw (done_world k2) at (All-map (Deleted []) _ (cluster.store x) Deleted-gone gone)
    ]
  ]

-- On a cluster that keeps resources as the API server does, in which nobody else changes them and
-- CreateOrPatch reads a resource as it is stored, a RemoveERdmaDevices that succeeds has listed
-- resources by the label of the node's name, and none of the names listed is stored when it ends,
-- whatever finalizers they had.
pub remove_erdma_devices_removes :
    {W : Type 0} (kube : Kube W) (cluster : IsCluster kube) (node_name : String) (w w' : W)
    (o : Outcome)
    → remove_erdma_devices kube node_name w ≡ done o w'
    → (listed : List ERdmaDevice) × (v : W) × (kube.list_devices
          ("alibabacloud.com/nodename", node_name)
          w
        ≡ done listed v)
      × All (λ (e : ERdmaDevice). named e.name listed ≡ false) (cluster.store w')
unfolding remove_erdma_devices
remove_erdma_devices_removes kube cluster node_name w w' o h =
    elim (through (kube.list_devices ("alibabacloud.com/nodename", node_name) w) _ h) [
      | arrive [] v e k ↦ ([], v, e, All_lem _ (λ x. refl) (cluster.store w'))
      | arrive (d ∷ ds) v e k ↦ (d ∷ ds, v, e, removed (d ∷ ds) kube cluster v w' o k)
    ]
