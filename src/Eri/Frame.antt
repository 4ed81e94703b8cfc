-- ===== src/Eri/Frame.antt =====
-- What the operations on ERIs leave alone: a property of the world that every call of the cloud API
-- keeps.
use alibabacloud_erdma_contr.Prelude.{
  ℕ, String, ℤ, Bool, some, none, Option, List, [], ◌∷◌, ◌++◌, Option-cases, find, str_eq, not,
  ◌&&◌, if◌then◌else◌, inl, inr,
}
use alibabacloud_erdma_contr.Exec.{Exec, wrap}
use alibabacloud_erdma_contr.Exec.Pure.{deref}
use alibabacloud_erdma_contr.Exec.Act.{◌>>=◌, pure, lift, reword}
use alibabacloud_erdma_contr.Exec.Stays.{
  Stays, Stays-bind, Stays-reword, Stays-pure, Stays-raise, Stays-lift, Stays-if, stays_rules,
}
use alibabacloud_erdma_contr.Types.{
  Eri, DeviceInfo, DeviceStatus, device_status_ready, eni_status_available,
}
use alibabacloud_erdma_contr.Ecs.{
  Ecs, Eni, Instance, InstanceQuery, InstancesAnswer, EniQuery, CreateRequest, ModifyRequest,
  AttachRequest, TagRequest, by_instance,
}
use alibabacloud_erdma_contr.Eri.Client.{EriClient, to_eri}
use alibabacloud_erdma_contr.Eri.Select.{select_eri_from_exist}
use alibabacloud_erdma_contr.Eri.Create.{
  create_request, take_over, create_each, create_eri_for_instance,
}
use alibabacloud_erdma_contr.Eri.Choose.{
  NodeAddress, first_instance, first_id, id_by_address, instance_id_from_node, ensure_eri_tags,
  convert_primary_eni, is_jumbo_frame_enabled, select_within, select_eris,
}
use alibabacloud_erdma_contr.Eri.Ensure.{
  eni_with_id, in_use_rdma, attach_device, convert_device, ensure_device, or_missing,
  ensure_devices, ensure_eri_for_instance,
}

-- Every call of the cloud keeps the property, whatever it answers.
pub record Spares {W : Type 0} (I : W → Type 0) (api : Ecs W) : Type 0 where
  pub instances : (q : InstanceQuery) → Stays I (api.describe_instances q)
  pub types : (t : Option String) → Stays I (api.describe_instance_types t)
  pub interfaces : (q : EniQuery) → Stays I (api.describe_network_interfaces q)
  pub creates : (r : CreateRequest) → Stays I (api.create_network_interface r)
  pub modifies : (r : ModifyRequest) → Stays I (api.modify_network_interface_attribute r)
  pub attaches : (r : AttachRequest) → Stays I (api.attach_network_interface r)
  pub tags : (r : TagRequest) → Stays I (api.tag_resources r)
  pub attributes : (i : String) → Stays I (api.describe_instance_attribute i)

module _ {W : Type 0} (I : W → Type 0) (api : Ecs W) (s : Spares I api) where
  first_id-Stays : (resp : InstancesAnswer) → Stays I (first_id api resp)
  unfolding first_id first_instance
  first_id-Stays resp = search stays_rules

  id_by_address-Stays : (found : List NodeAddress) → Stays I (id_by_address api found)
  unfolding id_by_address
  id_by_address-Stays found = elim (Option-cases (find (λ a. str_eq a.type "InternalIP") found)) [
    | inl e ↦ rw (e, id_by_address) (Stays-raise I _)
    | inr (ip, e) ↦ rw (e, id_by_address) (search (stays_rules, s.instances, first_id-Stays))
  ]

  pub instance_id_from_node-Stays :
      (provider : List String) (addresses : List NodeAddress)
      → Stays I (instance_id_from_node api provider addresses)
  unfolding instance_id_from_node
  instance_id_from_node-Stays provider addresses =
      search (stays_rules, first_id-Stays, id_by_address-Stays, s.instances)

  pub ensure_eri_tags-Stays :
      (ids : List String) (instance_id : String) → Stays I (ensure_eri_tags api ids instance_id)
  unfolding ensure_eri_tags
  ensure_eri_tags-Stays ids instance_id = search (stays_rules, s.tags)

  convert_primary_eni-Stays :
      (eni instance_id : String) (pairs : ℤ)
      → Stays I (convert_primary_eni api eni instance_id pairs)
  unfolding convert_primary_eni
  convert_primary_eni-Stays eni instance_id pairs =
      search (stays_rules, s.modifies, ensure_eri_tags-Stays)

  pub is_jumbo_frame_enabled-Stays :
      (instance_id : String) → Stays I (is_jumbo_frame_enabled api instance_id)
  unfolding is_jumbo_frame_enabled
  is_jumbo_frame_enabled-Stays instance_id = search (stays_rules, s.attributes)

  take_over-Stays :
      (info : Instance) (pairs : ℕ) (es : List Eni) (cards : List ℕ)
      → Stays I (take_over info pairs es cards)
  unfolding take_over
  take_over-Stays info pairs [] cards = search stays_rules
  take_over-Stays info pairs (e ∷ es) [] = take_over-Stays info pairs es []
  take_over-Stays info pairs (e ∷ es) (card ∷ cards) =
      Stays-bind I (lift (to_eri e pairs)) _ (Stays-lift I _) λ eri.
        Stays-bind I (lift (deref info.instance_id)) _ (Stays-lift I _) λ id.
          Stays-bind I (take_over info pairs es cards) _ (take_over-Stays info pairs es cards)
            λ rest. Stays-pure I _

  create_each-Stays :
      (info : Instance) (pairs : ℕ) (cards : List ℕ) → Stays I (create_each api info pairs cards)
  unfolding create_each
  create_each-Stays info pairs [] = search stays_rules
  create_each-Stays info pairs (card ∷ cards) =
      Stays-bind I (lift (deref info.instance_id)) _ (Stays-lift I _) λ id.
        Stays-bind I (api.create_network_interface (create_request info id card pairs)) _
          (s.creates _)
          λ created.
            Stays-bind I (lift (deref created.network_interface_id)) _ (Stays-lift I _) λ eni.
              Stays-bind I (lift (deref created.mac_address)) _ (Stays-lift I _) λ mac.
                Stays-bind I (create_each api info pairs cards) _
                  (create_each-Stays info pairs cards) λ rest. Stays-pure I _

  create_eri_for_instance-Stays :
      (info : Instance) (cards : List ℕ) (pairs : ℕ)
      → Stays I (create_eri_for_instance api info cards pairs)
  unfolding create_eri_for_instance
  create_eri_for_instance-Stays info cards pairs =
      search (stays_rules, s.interfaces, take_over-Stays, create_each-Stays)

  select_within-Stays :
      (c : EriClient) (info : Instance) (instance_id : String) (limits : ℕ × ℤ)
      → Stays I (select_within api c info instance_id limits)
  unfolding select_within
  select_within-Stays c info instance_id limits =
      Stays-bind I
        (reword (wrap "cannot found node eni: %v" [])
          (api.describe_network_interfaces (by_instance instance_id)))
        _ (Stays-reword I _ _ (s.interfaces _))
        λ answer.
          Stays-bind I
            (reword (wrap "cannot generate eri config list from exist enis: %v" [])
              (lift (select_eri_from_exist c answer.enis limits.1 limits.0)))
            _ (Stays-reword I _ _ (Stays-lift I _))
            λ chosen.
              Stays-bind I _ _ (create_eri_for_instance-Stays info chosen.need chosen.quota)
                λ created. search (stays_rules, ensure_eri_tags-Stays)

  chosen_limits-Stays :
      (c : EriClient) (info : Instance) (instance_id : String) (limits : Option (ℕ × ℤ))
      → Stays I (elim limits as (λ x. Exec W (Option (List Eri))) [
        | none ↦ pure none
        | some l ↦ (do eris ← select_within api c info instance_id l; pure (some eris))
      ])
  chosen_limits-Stays c info instance_id none = Stays-pure I _
  chosen_limits-Stays c info instance_id (some l) =
      Stays-bind I _ _ (select_within-Stays c info instance_id l) λ eris. Stays-pure I _

  pub select_eris-Stays :
      (c : EriClient) (instance_id : String) → Stays I (select_eris api c instance_id)
  unfolding select_eris first_instance
  select_eris-Stays c instance_id = Stays-bind I _ _ (Stays-reword I _ _ (s.instances _)) λ found.
      Stays-if I _ _ _ (Stays-raise I _) (
        Stays-bind I _ _ (Stays-lift I _) λ info.
          Stays-bind I _ _ (Stays-reword I _ _ (s.types _))
            λ types. Stays-bind I _ _ (Stays-lift I _) (chosen_limits-Stays c info instance_id))

  attach_device-Stays : (d : DeviceInfo) → Stays I (attach_device api d)
  unfolding attach_device
  attach_device-Stays d = search (stays_rules, s.attaches)

  convert_device-Stays : (d : DeviceInfo) → Stays I (convert_device api d)
  unfolding convert_device
  convert_device-Stays d = search (stays_rules, convert_primary_eni-Stays)

  or_missing-Stays : (d : DeviceInfo) (e : Option Eni) → Stays I (or_missing api d e)
  unfolding or_missing
  or_missing-Stays d none = search stays_rules
  or_missing-Stays d (some e) = search stays_rules

  -- The parts of EnsureEriForInstance for one device.
  abbrev ready_if : DeviceInfo → Option Bool → List DeviceStatus
  ready_if d none = []
  ready_if d (some rdma) =
      if rdma then record { id = d.id; status = device_status_ready; message = "" } ∷ [] else []

  abbrev attach_if : DeviceInfo → String → Exec W (List DeviceStatus)
  attach_if d status =
      if not d.is_primary_eni && str_eq status eni_status_available
      then (do s ← attach_device api d; pure (s ∷ []))
      else pure []

  attach_if-Stays : (d : DeviceInfo) (status : String) → Stays I (attach_if d status)
  attach_if-Stays d status = search (stays_rules, attach_device-Stays)

  abbrev convert_if : DeviceInfo → Option Bool → Exec W (List DeviceStatus)
  convert_if d none = pure []
  convert_if d (some rdma) =
      if d.is_primary_eni && not rdma then (do s ← convert_device api d; pure (s ∷ [])) else pure []

  convert_if-Stays : (d : DeviceInfo) (mode : Option Bool) → Stays I (convert_if d mode)
  convert_if-Stays d none = Stays-pure I _
  convert_if-Stays d (some rdma) = search (stays_rules, convert_device-Stays)

  ensure_device-Stays : (d : DeviceInfo) (e : Eni) → Stays I (ensure_device api d e)
  unfolding ensure_device
  ensure_device-Stays d e = elim (Option-cases e.status) [
    | inl b ↦ rw b (Stays-raise I _)
    | inr (status, b) ↦ rw b (
        Stays-bind I (lift (in_use_rdma e status)) _ (Stays-lift I _) λ mode.
          Stays-bind I (pure (ready_if d mode)) _ (Stays-pure I _) λ ready.
            Stays-bind I (attach_if d status) _ (attach_if-Stays d status) λ attached.
              Stays-bind I (convert_if d mode) _ (convert_if-Stays d mode)
                λ converted. Stays-pure I (ready ++ attached ++ converted))
  ]

  ensure_devices-Stays :
      (enis : List Eni) (ds : List DeviceInfo) → Stays I (ensure_devices api enis ds)
  unfolding ensure_devices
  ensure_devices-Stays enis [] = search stays_rules
  ensure_devices-Stays enis (d ∷ ds) =
      Stays-bind I (lift (eni_with_id enis d.id)) _ (Stays-lift I _) λ found.
        Stays-bind I (or_missing api d found) _ (or_missing-Stays d found) λ eni.
          Stays-bind I (ensure_device api d eni) _ (ensure_device-Stays d eni) λ here.
            Stays-bind I (ensure_devices api enis ds) _ (ensure_devices-Stays enis ds)
              λ rest. Stays-pure I _

  pub ensure_eri_for_instance-Stays :
      (ds : List DeviceInfo) → Stays I (ensure_eri_for_instance api ds)
  unfolding ensure_eri_for_instance
  ensure_eri_for_instance-Stays ds = search (stays_rules, s.interfaces, ensure_devices-Stays)
