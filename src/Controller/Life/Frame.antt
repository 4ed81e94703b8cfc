-- ===== src/Controller/Life/Frame.antt =====
-- What the reconcilers keep of the statuses in the store.
use alibabacloud_erdma_contr.Prelude.{
  ℕ, ◌≡◌, refl, sym, subst, inl, inr, String, str_eq, Bool-cases, Option-cases, Option, none, some,
  true, false, List, [], ◌∷◌, map, All, All-append, is_empty, ◌&&◌,
}
use alibabacloud_erdma_contr.Exec.{Exec}
use alibabacloud_erdma_contr.Exec.Act.{◌>>=◌, ◌>>◌, pure, handle}
use alibabacloud_erdma_contr.Exec.Stays.{
  Stays, Stays-pure, Stays-raise, Stays-bind, Stays-bind-result, Stays-then, Stays-handle, Stays-if,
  stays_rules,
}
use alibabacloud_erdma_contr.Types.{ERdmaDevice, Config, Eri, DeviceInfo}
use alibabacloud_erdma_contr.Ecs.{Ecs}
use alibabacloud_erdma_contr.Kube.{Kube, Node}
use alibabacloud_erdma_contr.Eri.Client.{EriClient}
use alibabacloud_erdma_contr.Eri.Choose.{is_jumbo_frame_enabled}
use alibabacloud_erdma_contr.Eri.Ensure.Laws.{
  Reports, nothing, silent, ensure_eri_for_instance-Reports,
}
use alibabacloud_erdma_contr.Eri.Frame.{
  Spares, instance_id_from_node-Stays, ensure_eri_tags-Stays, is_jumbo_frame_enabled-Stays,
  select_eris-Stays, ensure_eri_for_instance-Stays,
}
use alibabacloud_erdma_contr.Controller.Remove.{
  with_meta_of, released, release_all, delete_all, remove_erdma_devices, Outcome, settled,
}
use alibabacloud_erdma_contr.Controller.Remove.Laws.{patch_stored, is_deleting, delete_named}
use alibabacloud_erdma_contr.Controller.Backfill.{backfill_eri_tags}
use alibabacloud_erdma_contr.Controller.Device.{configure, reconcile_device}
use alibabacloud_erdma_contr.Controller.Watch.{is_node_ready}
use alibabacloud_erdma_contr.Controller.Node.{
  device_for, provision, serve_node, remove_node, within_timeout, reconcile_live, reconcile_node,
}
use alibabacloud_erdma_contr.Controller.Life.{set_status, SameSpec, IsStore}

-- Each device of the resource has one status at most, with its id, in the order of the devices.
abbrev pub IsReported : ERdmaDevice → Type 0
IsReported d = Reports d.spec.devices d.status

pub Reports-none : (ds : List DeviceInfo) → Reports ds []
Reports-none [] = nothing
Reports-none (d ∷ ds) = silent d (Reports-none ds)

pub delete_named-IsReported :
    (now : ℕ) (n : String) (es : List ERdmaDevice)
    → All IsReported es
    → All IsReported (delete_named now n es)
delete_named-IsReported now n [] a = tt
delete_named-IsReported now n (e ∷ es) a =
    let rest = delete_named-IsReported now n es a.1 in
    elim (Bool-cases (str_eq e.name n)) [
      | inl b ↦ elim (Bool-cases (is_empty e.finalizers)) [
        | inl k ↦ rw (b, k) rest
        | inr k ↦ rw (b, k) (a.0, rest)
      ]
      | inr b ↦ rw b (a.0, rest)
    ]

patch_stored-IsReported :
    (d : ERdmaDevice) (n : String) (es : List ERdmaDevice)
    → All IsReported es
    → All IsReported (patch_stored n (with_meta_of d) es)
unfolding with_meta_of
patch_stored-IsReported d n [] a = tt
patch_stored-IsReported d n (e ∷ es) a =
    let rest = patch_stored-IsReported d n es a.1 in
    elim (Bool-cases (str_eq e.name n)) [
      | inl b ↦ elim (Bool-cases (is_deleting e && is_empty d.finalizers)) [
        | inl gone ↦ rw (b, gone) rest
        | inr stays ↦ rw (b, stays) (a.0, rest)
      ]
      | inr b ↦ rw b (a.0, rest)
    ]

set_status-IsReported :
    (d : ERdmaDevice) (es : List ERdmaDevice)
    → IsReported d
    → All (SameSpec d) es
    → All IsReported es
    → All IsReported (map (set_status d) es)
set_status-IsReported d [] r s a = tt
set_status-IsReported d (e ∷ es) r s a = elim (Bool-cases (str_eq e.name d.name)) [
  | inl b ↦ rw b (rw (s.0 b) r, set_status-IsReported d es r s.1 a.1)
  | inr b ↦ rw b (a.0, set_status-IsReported d es r s.1 a.1)
]

module _ {W : Type 0} (kube : Kube W) (ecs : Ecs W) (server : IsStore kube ecs) where
  abbrev pub AllReported : W → Type 0
  AllReported w = All IsReported (server.store w)

  -- What leaves the store alone keeps it reported.
  quiet {ℓ} :
      {A : Type ℓ} (m : Exec W A)
      → ((s : List ERdmaDevice) → Stays (λ w. server.store w ≡ s) m)
      → Stays AllReported m
  quiet m h = record {
    stays = λ w i. subst (All IsReported) (sym ((h (server.store w)).stays w refl)) i;
  }

  cloud-Spares : Spares AllReported ecs
  cloud-Spares = record {
    instances = λ q. quiet _ (λ s. (server.cloud s).instances q);
    types = λ q. quiet _ (λ s. (server.cloud s).types q);
    interfaces = λ q. quiet _ (λ s. (server.cloud s).interfaces q);
    creates = λ q. quiet _ (λ s. (server.cloud s).creates q);
    modifies = λ q. quiet _ (λ s. (server.cloud s).modifies q);
    attaches = λ q. quiet _ (λ s. (server.cloud s).attaches q);
    tags = λ q. quiet _ (λ s. (server.cloud s).tags q);
    attributes = λ q. quiet _ (λ s. (server.cloud s).attributes q);
  }

  same : {w v : W} → server.store v ≡ server.store w → AllReported w → AllReported v
  same e i = subst (All IsReported) (sym e) i

  create-Stays : (d : ERdmaDevice) → Stays AllReported (kube.create_device d)
  create-Stays d = record {
    stays = λ w i. elim (server.creates d w) [
      | inl e ↦ same e i
      | inr e ↦ rw e (All-append IsReported _ _ i (Reports-none d.spec.devices, tt))
    ];
  }

  patch-Stays : (d : ERdmaDevice) → Stays AllReported (kube.create_or_patch d (with_meta_of d))
  unfolding with_meta_of
  patch-Stays d = record {
    stays = λ w i. elim (server.patches d (with_meta_of d) w) [
      | inl e ↦ same e i
      | inr (inl e) ↦ rw e (patch_stored-IsReported d d.name (server.store w) i)
      | inr (inr e) ↦ rw e (All-append IsReported _ _ i (Reports-none d.spec.devices, tt))
    ];
  }

  delete-Stays : (d : ERdmaDevice) → Stays AllReported (kube.delete_device d)
  delete-Stays d = record {
    stays = λ w i. elim (server.deletes d w) [
      | inl e ↦ same e i
      | inr e ↦ rw e (delete_named-IsReported (kube.seconds_now w) d.name (server.store w) i)
    ];
  }

  update-Stays : (d : ERdmaDevice) → IsReported d → Stays AllReported (kube.update_status d)
  update-Stays d r = record {
    stays = λ w i. elim (server.updates d w) [
      | inl e ↦ same e i
      | inr (s, e) ↦ rw e (set_status-IsReported d (server.store w) r s i)
    ];
  }

  release_all-Stays : (ds : List ERdmaDevice) → Stays AllReported (release_all kube ds)
  unfolding release_all
  release_all-Stays [] = Stays-pure AllReported tt
  release_all-Stays (d ∷ ds) =
      Stays-then AllReported _ _ (patch-Stays (released d)) (release_all-Stays ds)

  delete_all-Stays : (ds : List ERdmaDevice) → Stays AllReported (delete_all kube ds)
  unfolding delete_all
  delete_all-Stays [] = Stays-pure AllReported tt
  delete_all-Stays (d ∷ ds) = Stays-then AllReported _ _ (delete-Stays d) (delete_all-Stays ds)

  lists-Stays : (q : String × String) → Stays AllReported (kube.list_devices q)
  lists-Stays q = quiet _ (λ s. server.lists s q)

  remove-Stays : (name : String) → Stays AllReported (remove_erdma_devices kube name)
  unfolding remove_erdma_devices
  remove-Stays name = search (stays_rules, lists-Stays, release_all-Stays, delete_all-Stays)

  configure-Stays : (d : ERdmaDevice) → Stays AllReported (configure kube ecs d)
  unfolding configure
  configure-Stays d =
      Stays-bind-result AllReported _ _
        (ensure_eri_for_instance-Stays AllReported ecs cloud-Spares d.spec.devices)
        (λ statuses w v i e.
          Stays-then AllReported _ _
            (update-Stays (record d { status = statuses })
              (ensure_eri_for_instance-Reports ecs d.spec.devices statuses w v e))
            (Stays-pure AllReported _))

  pub reconcile_device-Stays : (name : String) → Stays AllReported (reconcile_device kube ecs name)
  unfolding reconcile_device
  reconcile_device-Stays name =
      Stays-handle AllReported _ _ _ (quiet _ (λ s. server.gets s name))
        (λ d. elim (Option-cases d.deletion_timestamp) [
          | inl e ↦ rw e (Stays-if AllReported _ _ _ (Stays-pure AllReported _) (configure-Stays d))
          | inr (t, e) ↦ rw e (remove-Stays name)
        ])
        (λ e. Stays-if AllReported _ _ _ (Stays-pure AllReported _) (Stays-raise AllReported e))

  module _ (c : EriClient) (config : Config) where
    created-Stays :
        (node : Node) (instance_id : String) (chosen : Option (List Eri))
        → Stays AllReported (elim chosen as (λ x. Exec W Outcome) [
          | none ↦ pure settled
          | some eris ↦ (do
            jumbo ← handle (is_jumbo_frame_enabled ecs instance_id) pure (λ e. pure false)
            kube.create_device (device_for node instance_id jumbo eris)
            handle
                (kube.poll (handle (kube.get_device node.name) (λ d. pure true) (λ e. pure false)))
                (λ x. pure settled)
                (λ e. pure settled))
        ])
    created-Stays node instance_id none = Stays-pure AllReported _
    created-Stays node instance_id (some eris) =
        Stays-bind AllReported _ _
          (Stays-handle AllReported _ _ _
            (is_jumbo_frame_enabled-Stays AllReported ecs cloud-Spares instance_id)
            (Stays-pure AllReported) (λ e. Stays-pure AllReported false))
          (λ jumbo.
            Stays-then AllReported _ _ (create-Stays (device_for node instance_id jumbo eris)) (
              Stays-handle AllReported _ _ _
                (quiet _ (λ s. server.polls s _ (
                  Stays-handle _ _ _ _ (server.gets s node.name) (λ d. Stays-pure _ true)
                    (λ e. Stays-pure _ false))))
                (λ x. Stays-pure AllReported settled) (λ e. Stays-pure AllReported settled)))

    provision-Stays :
        (node : Node) (instance_id : String)
        → Stays AllReported (provision kube ecs c config node instance_id)
    unfolding provision
    provision-Stays node instance_id =
        Stays-bind AllReported _ _ (select_eris-Stays AllReported ecs cloud-Spares c instance_id)
          (created-Stays node instance_id)

    backfill-Stays :
        (tagged : List String) (ds : List ERdmaDevice) (instance_id : String)
        → Stays AllReported (backfill_eri_tags ecs tagged ds instance_id)
    unfolding backfill_eri_tags
    backfill-Stays tagged ds instance_id =
        search (stays_rules, ensure_eri_tags-Stays AllReported ecs cloud-Spares)

    serve_node-Stays :
        (tagged : List String) (node : Node)
        → Stays AllReported (serve_node kube ecs c config tagged node)
    unfolding serve_node
    serve_node-Stays tagged node = search (
      stays_rules,
      instance_id_from_node-Stays AllReported ecs cloud-Spares,
      lists-Stays,
      provision-Stays,
      backfill-Stays,
    )

    reconcile_live-Stays :
        (tagged : List String) (node : Node)
        → Stays AllReported (reconcile_live kube ecs c config tagged node)
    unfolding reconcile_live
    reconcile_live-Stays tagged node = record {
      stays = λ w i. elim (Bool-cases (is_node_ready node)) [
        | inl b ↦ rw b ((serve_node-Stays tagged node).stays w i)
        | inr b ↦
            elim (Bool-cases (
              within_timeout (kube.seconds_now w) node.creation_timestamp
                config.wait_node_ready_timeout_seconds)) [
                  | inl k ↦ rw (b, k) i
                  | inr k ↦ rw (b, k) ((serve_node-Stays tagged node).stays w i)
                ]
      ];
    }

    pub reconcile_node-Stays :
        (tagged : List String) (name : String)
        → Stays AllReported (reconcile_node kube ecs c config tagged name)
    unfolding reconcile_node remove_node
    reconcile_node-Stays tagged name =
        Stays-handle AllReported _ _ _ (quiet _ (λ s. server.gets_node s name))
          (λ node. elim (Option-cases node.deletion_timestamp) [
            | inl e ↦ rw e (reconcile_live-Stays tagged node)
            | inr (t, e) ↦
                rw e
                  (Stays-bind AllReported _ _ (remove-Stays name) (λ o. Stays-pure AllReported _))
          ])
          (λ e.
            Stays-if AllReported _ _ _
              (Stays-bind AllReported _ _ (remove-Stays name) (λ o. Stays-pure AllReported _))
              (Stays-raise AllReported e))
