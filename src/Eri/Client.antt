-- ===== src/Eri/Client.antt =====
-- The client's settings, and what the code reads off one network interface: OwnENI, eniCardIndex,
-- toEri, jumboFrameFromAttr.
use alibabacloud_erdma_contr.Prelude.{
  ℕ, ◌≡◌, refl, String, pos, Bool, true, false, ◌&&◌, Option, none, some, any, opt_is, str_eq, ltb,
  if◌then◌else◌, arith,
}
use alibabacloud_erdma_contr.Exec.{Res, ok}
use alibabacloud_erdma_contr.Exec.Pure.{◌>>=◌, deref}
use alibabacloud_erdma_contr.Types.{Eri}
use alibabacloud_erdma_contr.Ecs.{Eni, EniTag}

abbrev pub eri_tag_creator_key : String
eri_tag_creator_key = "creator"

abbrev pub eri_tag_creator_value : String
eri_tag_creator_value = "alibabacloud-erdma-controller"

abbrev pub eri_tag_instance_id_key : String
eri_tag_instance_id_key = "instance-id"

abbrev pub eri_tag_excluded_key : String
eri_tag_excluded_key = "terway.alibabacloud.com/excluded"

abbrev pub eri_tag_excluded_value : String
eri_tag_excluded_value = "true"

abbrev pub eni_resource_type : String
eni_resource_type = "eni"

abbrev pub traffic_mode_rdma : String
traffic_mode_rdma = "HighPerformance"

-- `region_id` goes into every request as it is, and is left out of the requests of the model.
pub record EriClient : Type 0 where
  pub region_id : String
  pub managed_non_owned : Bool

unfoldable pub is_creator_tag : EniTag → Bool
is_creator_tag tag =
    opt_is tag.tag_key eri_tag_creator_key && opt_is tag.tag_value eri_tag_creator_value

unfoldable pub own_eni : EriClient → Eni → Bool
own_eni c eni =
    if c.managed_non_owned
    then true
    else elim eni.tags [ none ↦ false | some tags ↦ any is_creator_tag tags ]

unfoldable pub eni_card_index : Eni → ℕ
eni_card_index eni = elim eni.attachment [
  | none ↦ 0
  | some index ↦ elim index [ none ↦ 0 | some i ↦ i ]
]

-- The queue pairs that an interface has, or the preferred number where it has none.
unfoldable pub queue_pair_of : Option ℕ → ℕ → ℕ
queue_pair_of none prefer = prefer
queue_pair_of (some n) prefer = if ltb 0 n then n else prefer

abbrev pub or_blank : Option String → String
or_blank none = ""
or_blank (some s) = s

unfoldable pub to_eri : Eni → ℕ → Res Eri
unfolding eni_card_index queue_pair_of
to_eri eni prefer = do
  id ← deref eni.network_interface_id
  type ← deref eni.type
  mac ← deref eni.mac_address
  ok (record {
    id = id;
    is_primary_eni = str_eq type "Primary";
    mac = mac;
    instance_id = or_blank eni.instance_id;
    card_index = pos (eni_card_index eni);
    queue_pair = pos (queue_pair_of eni.queue_pair_number prefer);
    jumbo_frame = false;
    jumbo_frame_mtu = pos 0;
  })

unfoldable pub jumbo_frame_from_attr : Option Bool → Bool
jumbo_frame_from_attr none = false
jumbo_frame_from_attr (some b) = b

-- The fields without which `to_eri` panics.
abbrev pub HasIdentity : Eni → Type 0
HasIdentity eni =
    ((id : String) × (eni.network_interface_id ≡ some id))
    × ((type : String) × (eni.type ≡ some type))
    × ((mac : String) × (eni.mac_address ≡ some mac))

pub to_eri-HasIdentity :
    (eni : Eni) (prefer : ℕ) → HasIdentity eni → (eri : Eri) × (to_eri eni prefer ≡ ok eri)
unfolding to_eri
to_eri-HasIdentity eni prefer ((id, p), (type, q), (mac, r)) = rw (p, q, r) (_, refl)

-- What is kept of an interface that converts.
pub to_eri-fields :
    (eni : Eni) (prefer : ℕ) (eri : Eri)
    → to_eri eni prefer ≡ ok eri
    → (eri.card_index ≡ pos (eni_card_index eni)) × (eni.network_interface_id ≡ some eri.id)
unfolding to_eri
to_eri-fields eni prefer eri h = ground arith
