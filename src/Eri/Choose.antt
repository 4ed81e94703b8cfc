-- ===== src/Eri/Choose.antt =====
-- InstanceIDFromNode, EnsureEriTags, ConvertPrimaryENI, IsJumboFrameEnabled and SelectERIs: the
-- operations that call the cloud API for a whole node.
pub mod Laws
pub mod Repeat
use alibabacloud_erdma_contr.Prelude.{
  ℕ, ◌*◌, String, str_eq, ℤ, pos, int32, Bool, true, false, ◌&&◌, Option, none, some, List, [], ◌∷◌,
  ◌++◌, map, ltb, ◌==◌, head?, find, is_empty, if◌then◌else◌,
}
use Prim.Native.Nat.{min}
use alibabacloud_erdma_contr.Exec.{Res, ok, panic, Exec, errorf, wrap}
use alibabacloud_erdma_contr.Exec.Pure.{deref}
use alibabacloud_erdma_contr.Exec.Act.{◌>>=◌, ◌>>◌, pure, raise, lift, handle, reword}
use alibabacloud_erdma_contr.Types.{Eri}
use alibabacloud_erdma_contr.Ecs.{
  Ecs, Instance, InstanceType, InstancesAnswer, by_id, by_private_ip, by_instance,
}
use alibabacloud_erdma_contr.Eri.Client.{
  EriClient, traffic_mode_rdma, eri_tag_instance_id_key, eri_tag_excluded_key,
  eri_tag_excluded_value, eni_resource_type, jumbo_frame_from_attr,
}
use alibabacloud_erdma_contr.Eri.Select.{select_eri_from_exist}
use alibabacloud_erdma_contr.Eri.Create.{create_eri_for_instance}

-- What the operations read of a node: the provider id, taken apart at the dots, is `a.b` or not.
pub record NodeAddress : Type 0 where
  pub type : String
  pub address : String

-- An id that `strings.Split(providerID, ".")` leaves alone in second place, of two.
unfoldable pub second_of_two : List String → String
second_of_two (region ∷ id ∷ []) = id
second_of_two _ = ""

unfoldable pub tags_for : String → List (String × String)
tags_for instance_id =
    (eri_tag_excluded_key, eri_tag_excluded_value)
    ∷ (if str_eq instance_id "" then [] else (eri_tag_instance_id_key, instance_id) ∷ [])

-- The number of network cards to serve, for a type with `quantity` interfaces.
unfoldable pub card_count_of : Option ℕ → ℕ → ℕ
card_count_of none quantity = 1
card_count_of (some cards) quantity = if ltb cards 2 then 1 else min cards quantity

-- A GPU instance has the queue pairs of each card, multiplied as int32.
unfoldable pub queue_pair_count_of : Option ℕ → ℕ → ℕ → ℤ
queue_pair_count_of none pairs cards = pos pairs
queue_pair_count_of (some gpus) pairs cards =
    if ltb 0 gpus then int32 (pos (pairs * cards)) else pos pairs

-- The limits of an instance type; `none` where it supports no ERI.
unfoldable pub type_limits : Option String → List InstanceType → ℕ × ℤ → Res (Option (ℕ × ℤ))
type_limits wanted [] limits = ok (some limits)
type_limits wanted (t ∷ ts) limits = elim t.eri_quantity [
  | none ↦ ok none
  | some quantity ↦ elim t.instance_type_id [
    | none ↦ panic
    | some id ↦ elim wanted [
      | none ↦ panic
      | some want ↦ elim (str_eq id want && quantity == 0) [
        | true ↦ ok none
        | false ↦ elim t.queue_pair_number [
          | none ↦ panic
          | some pairs ↦
              let cards : ℕ = card_count_of t.network_card_quantity quantity in
              type_limits wanted ts (cards, queue_pair_count_of t.gpu_amount pairs cards)
        ]
      ]
    ]
  ]
]

module _ {W : Type 0} (api : Ecs W) where
  unfoldable pub first_instance : InstancesAnswer → Exec W Instance
  first_instance resp = lift (deref (head? resp.instances))

  unfoldable pub first_id : InstancesAnswer → Exec W String
  unfolding first_instance
  first_id resp = do i ← first_instance resp; lift (deref i.instance_id)

  unfoldable pub id_by_address : List NodeAddress → Exec W String
  unfolding first_id
  id_by_address addresses = elim (find (λ a. str_eq a.type "InternalIP") addresses) [
    | none ↦ raise (errorf "cannot found instance from node internal ip" [])
    | some ip ↦ (do
      resp ←
          reword (wrap "cannot found instance %s, %s" (ip.address ∷ []))
            (api.describe_instances (by_private_ip ip.address))
      if resp.total_count == 0
          then raise (errorf "cannot found instance from node internal ip %s" (ip.address ∷ []))
          else if ltb 1 resp.total_count
          then raise (errorf "found multiple instance from node internal ip %s" (ip.address ∷ []))
          else first_id resp)
  ]

  -- `provider` is the provider id split at its dots.
  unfoldable pub instance_id_from_node : List String → List NodeAddress → Exec W String
  unfolding first_id id_by_address second_of_two
  instance_id_from_node provider addresses =
      let id = second_of_two provider in
      if str_eq id "" then id_by_address addresses else (do
        resp ←
            reword (wrap "cannot found instance %s, %s" (id ∷ []))
              (api.describe_instances (by_id id))
        if resp.total_count == 0 then id_by_address addresses else first_id resp)

  unfoldable pub ensure_eri_tags : List String → String → Exec W (Unit {0})
  unfolding tags_for
  ensure_eri_tags eni_ids instance_id =
      if is_empty eni_ids
      then pure tt
      else reword (wrap "tag ERI resources %v: %w" eni_ids) (
          api.tag_resources (record {
            resource_type = eni_resource_type;
            resource_ids = eni_ids;
            tags = tags_for instance_id;
          }))

  -- A failure to tag is logged and no failure of the conversion.
  unfoldable pub convert_primary_eni : String → String → ℤ → Exec W (Unit {0})
  unfolding ensure_eri_tags
  convert_primary_eni primary_eni instance_id queue_pair = do
    api.modify_network_interface_attribute (record {
      network_interface_id = primary_eni;
      traffic_mode = traffic_mode_rdma;
      queue_pair_number = int32 queue_pair;
    })
    handle (ensure_eri_tags (primary_eni ∷ []) instance_id) pure (λ e. pure tt)

  unfoldable pub is_jumbo_frame_enabled : String → Exec W Bool
  unfolding jumbo_frame_from_attr
  is_jumbo_frame_enabled instance_id = do
    attr ←
        reword (wrap "cannot describe instance attribute %s: %s" (instance_id ∷ []))
          (api.describe_instance_attribute instance_id)
    pure (jumbo_frame_from_attr attr)

  -- The part of SelectERIs for an instance whose type has the limits.
  unfoldable pub select_within : EriClient → Instance → String → ℕ × ℤ → Exec W (List Eri)
  unfolding ensure_eri_tags
  select_within c info instance_id limits = do
    answer ←
        reword (wrap "cannot found node eni: %v" [])
          (api.describe_network_interfaces (by_instance instance_id))
    chosen ←
        reword (wrap "cannot generate eri config list from exist enis: %v" [])
          (lift (select_eri_from_exist c answer.enis limits.1 limits.0))
    created ← create_eri_for_instance api info chosen.need chosen.quota
    let all_eris = chosen.eris ++ created
    handle (ensure_eri_tags (map (λ (e : Eri). e.id) all_eris) instance_id) pure (λ e. pure tt)
    pure all_eris

  -- `none` is the nil list of a node without ERI support.
  unfoldable pub select_eris : EriClient → String → Exec W (Option (List Eri))
  unfolding first_instance select_within type_limits
  select_eris c instance_id = do
    found ←
        reword (wrap "cannot found instance %s, %s" (instance_id ∷ []))
          (api.describe_instances (by_id instance_id))
    if found.total_count == 0
        then raise (errorf "cannot found instance %s" (instance_id ∷ []))
        else (do
          info ← first_instance found
          types ←
              reword (wrap "cannot found instance type %s, %s" [])
                (api.describe_instance_types info.instance_type)
          limits ← lift (type_limits info.instance_type types (0, pos 0))
          elim limits [
            | none ↦ pure none
            | some l ↦ (do eris ← select_within c info instance_id l; pure (some eris))
          ])
