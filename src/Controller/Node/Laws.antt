-- ===== src/Controller/Node/Laws.antt =====
-- What Reconcile stores for a node that has no ERdmaDevice yet.
use alibabacloud_erdma_contr.Prelude.{
  ℕ, ◌≡◌, ◌∙◌, ap, sym, ◌⊎◌, inl, inr, String, ℤ, pos, true, false, some, none, arith, Option,
  Option-cases, head?, map, refl, List, [], ◌∷◌, Bool-cases, ◌==◌,
}
use alibabacloud_erdma_contr.Exec.{ok, done, wrap, Exec, Run, fail, crash}
use alibabacloud_erdma_contr.Exec.Act.{
  ◌>>=◌, pure, lift, handle, branch, reword, lift-done, done_value, done_world, arrive, through,
}
use alibabacloud_erdma_contr.Types.{Eri, Config, DeviceInfo, ERdmaDevice}
use alibabacloud_erdma_contr.Ecs.{
  Ecs, Instance, InstanceType, InstancesAnswer, EnisAnswer, by_id, by_instance,
}
use alibabacloud_erdma_contr.Kube.{Kube, Node}
use alibabacloud_erdma_contr.Eri.Client.{EriClient}
use alibabacloud_erdma_contr.Eri.Choose.{
  first_instance, type_limits, select_within, select_eris, instance_id_from_node,
  is_jumbo_frame_enabled,
}
use alibabacloud_erdma_contr.Eri.Choose.Laws.{IsChoice, select_within-IsChoice}
use alibabacloud_erdma_contr.Controller.Remove.{Outcome, settled}
use alibabacloud_erdma_contr.Controller.Watch.{is_node_ready}
use alibabacloud_erdma_contr.Controller.Node.{
  device_info, device_for, provision, serve_node, reconcile_live, reconcile_node,
}

-- What the resource records of an interface.
abbrev pub recorded : Eri → DeviceInfo
recorded e = record {
  instance_id = e.instance_id;
  mac = e.mac;
  is_primary_eni = e.is_primary_eni;
  id = e.id;
  network_card_index = e.card_index;
  queue_pair = e.queue_pair;
}

module _ {W : Type 0} (ecs : Ecs W) (c : EriClient) (instance_id : String) where
  -- The interfaces were chosen, from `w` on, of the listing of the instance that the cloud found by its id,
  -- within the limits of the type that it lists for the instance.
  pub record IsChosenFor (eris : List Eri) (w : W) : Type 0 where
    pub found : InstancesAnswer
    pub w1 : W
    pub finds :
        reword
          (wrap "cannot found instance %s, %s" (instance_id ∷ []))
          (ecs.describe_instances (by_id instance_id))
          w
        ≡ done found w1
    pub info : Instance
    pub first : head? found.instances ≡ some info
    pub types : List InstanceType
    pub w2 : W
    pub lists_types :
        reword
          (wrap "cannot found instance type %s, %s" [])
          (ecs.describe_instance_types info.instance_type)
          w1
        ≡ done types w2
    pub limits : ℕ × ℤ
    pub within : type_limits info.instance_type types (0, pos 0) ≡ ok (some limits)
    pub answer : EnisAnswer
    pub w3 : W
    pub lists : ecs.describe_network_interfaces (by_instance instance_id) w2 ≡ done answer w3
    pub choice : IsChoice c info limits.0 limits.1 answer eris

  -- `none` says nothing of the interfaces.
  abbrev ChosenIfAny : W → Option (List Eri) → Type 0
  ChosenIfAny w none = Unit {0}
  ChosenIfAny w (some eris) = IsChosenFor eris w

  first_instance-done :
      (found : InstancesAnswer) (info : Instance) (w v : W)
      → first_instance ecs found w ≡ done info v
      → (head? found.instances ≡ some info) × (v ≡ w)
  unfolding first_instance
  first_instance-done found info w v h = elim (Option-cases (head? found.instances)) [
    | inl none' ↦ absurd (cc (rw (none', first_instance) at h))
    | inr (i, some') ↦
        let h' : done i w ≡ done info v = rw (some', first_instance) at h in
        (some' ∙ ap some (done_value h'), sym (done_world h'))
  ]

  abbrev choose_if : Instance → Option (ℕ × ℤ) → Exec W (Option (List Eri))
  choose_if info none = pure none
  choose_if info (some l) = do eris ← select_within ecs c info instance_id l; pure (some eris)

  choose_if-within :
      (info : Instance) (l : Option (ℕ × ℤ)) (w w' : W) (eris : List Eri)
      → choose_if info l w ≡ done (some eris) w'
      → (limits : ℕ × ℤ) × (l ≡ some limits)
        × (select_within ecs c info instance_id limits w ≡ done eris w')
  choose_if-within info none w w' eris h = cc
  choose_if-within info (some l) w w' eris h =
      elim (through (select_within ecs c info instance_id l w) _ h) [
        | arrive xs v e k ↦ (l, refl, grind (arith, e, k))
      ]

  select_eris-IsChosenFor :
      (w w' : W) (eris : List Eri)
      → select_eris ecs c instance_id w ≡ done (some eris) w'
      → IsChosenFor eris w
  unfolding select_eris
  select_eris-IsChosenFor w w' eris h =
      elim (through
        (reword (wrap "cannot found instance %s, %s" (instance_id ∷ []))
          (ecs.describe_instances (by_id instance_id)) w)
        _ h) [
          | arrive found w1 e1 h1 ↦ elim (Bool-cases (found.total_count == 0)) [
            | inl b ↦ absurd (cc (rw b at h1))
            | inr b ↦ elim (through (first_instance ecs found w1) _ (rw b at h1)) [
              | arrive info v e2 h2 ↦
                  let (first, same) = first_instance-done found info w1 v e2 in
                  elim (through
                    (reword (wrap "cannot found instance type %s, %s" [])
                      (ecs.describe_instance_types info.instance_type) v)
                    _ h2) [
                      | arrive types w2 e3 h3 ↦
                          elim (through (lift (type_limits info.instance_type types (0, pos 0)) w2)
                            _ h3) [
                              | arrive l x e4 h4 ↦
                                  let (limits, some', e5) = choose_if-within info l x w' eris h4 in
                                  let (t, stay) = lift-done _ e4 in
                                  let (answer, u, lists, choice) =
                                    select_within-IsChoice ecs c info instance_id limits x w' eris
                                      e5 in
                                  record {
                                    found = found;
                                    w1 = w1;
                                    finds = e1;
                                    info = info;
                                    first = first;
                                    types = types;
                                    w2 = w2;
                                    lists_types = rw same at e3;
                                    limits = limits;
                                    within = t ∙ ap ok some';
                                    answer = answer;
                                    w3 = u;
                                    lists = rw stay at lists;
                                    choice = choice;
                                  }
                            ]
                    ]
            ]
          ]
        ]

module _ {W : Type 0} (kube : Kube W) (ecs : Ecs W) (c : EriClient) (config : Config) where
  -- The resource of the node that was stored in the cluster, with the interfaces it is about, which
  -- were chosen from `w` on.
  pub record Stored (node : Node) (instance_id : String) (w : W) : Type 0 where
    pub eris : List Eri
    pub resource : ERdmaDevice
    pub before : W
    pub after_it : W
    pub stored : kube.create_device resource before ≡ done tt after_it
    pub named : resource.name ≡ node.name
    pub labelled :
        resource.labels
        ≡ ("alibabacloud.com/instance-id", instance_id)
          ∷ ("alibabacloud.com/nodename", node.name)
          ∷ []
    pub devices : resource.spec.devices ≡ map recorded eris
    pub chosen : IsChosenFor ecs c instance_id eris w

  always_settled :
      (m : Run W (Unit {0})) (w' : W) (o : Outcome)
      → branch m (λ x. pure settled) (λ e. pure settled) ≡ done o w'
      → o ≡ settled
  always_settled (done x w) w' o h = sym (done_value h)
  always_settled (fail e w) w' o h = sym (done_value h)
  always_settled (crash w) w' o h = cc

  provision_lem :
      (node : Node) (instance_id : String) (w w' : W) (o : Outcome)
      → provision kube ecs c config node instance_id w ≡ done o w'
      → (o ≡ settled)
        × ((select_eris ecs c instance_id w ≡ done none w') ⊎ Stored node instance_id w)
  unfolding provision device_for device_info
  provision_lem node instance_id w w' o h = elim (through (select_eris ecs c instance_id w) _ h) [
    | arrive none v e1 h1 ↦ (sym (done_value h1), inl (e1 ∙ ap (done none) (done_world h1)))
    | arrive (some eris) v e1 h1 ↦
        elim (through (handle (is_jumbo_frame_enabled ecs instance_id) pure (λ e. pure false) v) _
          h1) [
            | arrive jumbo u e2 h2 ↦
                elim (through (kube.create_device (device_for node instance_id jumbo eris) u) _
                  h2) [
                    | arrive t x e3 h3 ↦ (
                      always_settled _ _ _ h3,
                      inr (record {
                        eris = eris;
                        resource = device_for node instance_id jumbo eris;
                        before = u;
                        after_it = x;
                        stored = e3;
                        named = refl;
                        labelled = refl;
                        devices = refl;
                        chosen = select_eris-IsChosenFor ecs c instance_id w v eris e1;
                      }),
                    )
                  ]
          ]
  ]

  -- Where Reconcile succeeds for a ready node that is not being deleted, whose instance is known and
  -- that has no resource, either the node has no ERI support and nothing more was done, or a
  -- resource with the node's name and labels was created whose devices are, field by field, the
  -- interfaces chosen for the node: the cloud was asked for the instance, for its type and for
  -- its interfaces, and of this listing they are the selected ones, followed by one of the instance
  -- for each card in need, within the limits of the type and the queue pairs left. There is no
  -- requeue, and taggedENIs is as before.
  pub reconcile_node_first :
      (tagged : List String) (name instance_id : String) (node : Node) (w v1 v2 v3 w' : W)
      (r : Outcome × List String)
      → kube.get_node name w ≡ done node v1
      → node.deletion_timestamp ≡ none
      → is_node_ready node ≡ true
      → instance_id_from_node ecs (kube.split_dots node.provider_id) node.addresses v1
        ≡ done instance_id v2
      → kube.list_devices ("alibabacloud.com/instance-id", instance_id) v2 ≡ done [] v3
      → reconcile_node kube ecs c config tagged name w ≡ done r w'
      → (r ≡ (settled, tagged))
        × ((select_eris ecs c instance_id v3 ≡ done none w') ⊎ Stored node instance_id v3)
  unfolding reconcile_node reconcile_live serve_node
  reconcile_node_first tagged name instance_id node w v1 v2 v3 w' r g d y i l h =
      elim (through (provision kube ecs c config node instance_id v3) (λ o. pure (o, tagged))
        (rw (g, d, y, i, l) at h)) [
          | arrive o v e k ↦
              let (s, rest) = provision_lem node instance_id v3 v o e in
              (sym (done_value k) ∙ ap (λ x. (x, tagged)) s, rw (done_world k) at rest)
        ]
