-- ===== src/Eri/Create.antt =====
-- CreateEriForInstance: takes over the interfaces that this controller has created for the
-- instance before, and creates one for each network card that is left.
pub mod Laws
use alibabacloud_erdma_contr.Prelude.{
  ℕ, String, pos, int32, false, some, List, [], ◌∷◌, ◌++◌, ◌==◌, if◌then◌else◌,
}
use alibabacloud_erdma_contr.Exec.{Exec, errorf}
use alibabacloud_erdma_contr.Exec.Pure.{deref}
use alibabacloud_erdma_contr.Exec.Act.{◌>>=◌, pure, raise, lift}
use alibabacloud_erdma_contr.Types.{Eri}
use alibabacloud_erdma_contr.Ecs.{Ecs, Eni, Instance, CreateRequest, by_tags, EniQuery, EniQuery}
use alibabacloud_erdma_contr.Eri.Client.{
  to_eri, traffic_mode_rdma, eri_tag_creator_key, eri_tag_creator_value, eri_tag_instance_id_key,
  eri_tag_excluded_key, eri_tag_excluded_value,
}

unfoldable pub create_request : Instance → String → ℕ → ℕ → CreateRequest
create_request info id card queue_pair = record {
  name_parts = ("eri", id, card);
  traffic_mode = traffic_mode_rdma;
  queue_pair_number = int32 (pos queue_pair);
  security_group_ids = info.security_group_ids;
  tags =
      (eri_tag_creator_key, some eri_tag_creator_value)
      ∷ (eri_tag_instance_id_key, info.instance_id)
      ∷ (eri_tag_excluded_key, some eri_tag_excluded_value)
      ∷ [];
  v_switch_id = info.v_switch_id;
}

-- The interfaces that this controller has created for the instance.
unfoldable pub tagged_query : Instance → EniQuery
tagged_query info = by_tags (
    (eri_tag_creator_key, some eri_tag_creator_value)
    ∷ (eri_tag_instance_id_key, info.instance_id)
    ∷ [])

module _ {W : Type 0} where
  -- Found interfaces go to the first cards, one each; what comes back is the cards left over.
  unfoldable pub take_over : Instance → ℕ → List Eni → List ℕ → Exec W (List Eri × List ℕ)
  take_over info queue_pair [] cards = pure ([], cards)
  take_over info queue_pair (e ∷ es) [] = take_over info queue_pair es []
  take_over info queue_pair (e ∷ es) (card ∷ cards) = do
    eri ← lift (to_eri e queue_pair)
    id ← lift (deref info.instance_id)
    rest ← take_over info queue_pair es cards
    pure (record eri { instance_id = id; card_index = pos card } ∷ rest.0, rest.1)

  unfoldable pub create_each : Ecs W → Instance → ℕ → List ℕ → Exec W (List Eri)
  create_each api info queue_pair [] = pure []
  create_each api info queue_pair (card ∷ cards) = do
    id ← lift (deref info.instance_id)
    created ← api.create_network_interface (create_request info id card queue_pair)
    eni ← lift (deref created.network_interface_id)
    mac ← lift (deref created.mac_address)
    rest ← create_each api info queue_pair cards
    pure (
        record {
          id = eni;
          is_primary_eni = false;
          mac = mac;
          instance_id = id;
          card_index = pos card;
          queue_pair = pos 0;
          jumbo_frame = false;
          jumbo_frame_mtu = pos 0;
        }
        ∷ rest)

  unfoldable pub create_eri_for_instance : Ecs W → Instance → List ℕ → ℕ → Exec W (List Eri)
  create_eri_for_instance api info card_index queue_pair = do
    resp ← api.describe_network_interfaces (tagged_query info)
    if resp.status_code == 200
        then (do
          taken ← take_over info queue_pair resp.enis card_index
          created ← create_each api info queue_pair taken.1
          pure (taken.0 ++ created))
        else raise (errorf "describe network interface failed, status code: %d" [])
