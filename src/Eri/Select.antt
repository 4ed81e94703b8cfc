-- ===== src/Eri/Select.antt =====
-- SelectEriFromExist: which of a node's interfaces are used as they are, whether its primary
-- interface is converted, and which network cards get a new one, within the queue pair budget.
pub mod CardMap
pub mod Primary
pub mod Laws
pub mod Panics
use alibabacloud_erdma_contr.Prelude.{
  ℕ, zero, suc, ◌+◌, ◌-◌, ◌/◌, ℤ, pos, negsuc, Bool, true, false, ◌&&◌, ◌||◌, Option, none, some,
  List, [], ◌∷◌, ◌++◌, length, is_empty, opt_is, ltb, leb, ◌==◌, if◌then◌else◌,
}
use alibabacloud_erdma_contr.Exec.{Res, ok, err, panic, errorf}
use alibabacloud_erdma_contr.Exec.Pure.{◌>>=◌, ◌>>◌, deref, map_res}
use alibabacloud_erdma_contr.Types.{Eri}
use alibabacloud_erdma_contr.Ecs.{Eni}
use alibabacloud_erdma_contr.Eri.Client.{
  EriClient, own_eni, eni_card_index, to_eri, traffic_mode_rdma,
}

unfoldable pub is_rdma : Eni → Bool
is_rdma eni = opt_is eni.network_interface_traffic_mode traffic_mode_rdma

-- The interfaces in RDMA mode, and the sum of their queue pairs.
unfoldable pub scan_rdma : List Eni → Res (List Eni × ℕ)
scan_rdma [] = ok ([], 0)
scan_rdma (e ∷ es) = elim (is_rdma e) [
  | true ↦ (do n ← deref e.queue_pair_number; rest ← scan_rdma es; ok (e ∷ rest.0, n + rest.1))
  | false ↦ scan_rdma es
]

-- cardIndexENI, newest first.
abbrev pub Cards : Type 0
Cards = List (ℕ × Eri)

-- `_, ok := cardIndexENI[i]`
unfoldable pub has_card : Cards → ℕ → Bool
has_card [] i = false
has_card (c ∷ cards) i = c.0 == i || has_card cards i

-- cardIndexENI with selectedENIs.
pub record Picked : Type 0 where
  pub cards : Cards
  pub selected : List Eni

-- The first owned interface of each network card.
unfoldable pub pick_owned : EriClient → List Eni → Picked → Res Picked
pick_owned c [] p = ok p
pick_owned c (e ∷ es) p = elim (own_eni c e) [
  | false ↦ pick_owned c es p
  | true ↦ elim (has_card p.cards (eni_card_index e)) [
    | true ↦ pick_owned c es p
    | false ↦ (do
      eri ← to_eri e 0
      pick_owned c es
          (record { cards = (eni_card_index e, eri) ∷ p.cards; selected = p.selected ++ e ∷ [] }))
  ]
]

-- queuePairCount - existQueuePairCount, where existQueuePairCount <= queuePairCount.
unfoldable pub queue_budget : ℤ → ℕ → Option ℕ
queue_budget (pos q) exist = if leb exist q then some (q - exist) else none
queue_budget (negsuc n) exist = none

-- The cards i, …, i + k - 1 that have no interface.
unfoldable pub missing_cards : Cards → ℕ → ℕ → List ℕ
missing_cards cards i zero = []
missing_cards cards i (suc k) =
    let rest = missing_cards cards (suc i) k in if has_card cards i then rest else i ∷ rest

-- append(l[:j], l[j+1:]...) for j = lo.IndexOf(l, x), which is -1 where x is not in l.
unfoldable pub cut_out : ℕ → List ℕ → Res (List ℕ)
cut_out x [] = panic
cut_out x (y ∷ ys) = elim (y == x) [
  | true ↦ ok ys
  | false ↦ (do rest ← cut_out x ys; ok (y ∷ rest))
]

pub record Plan : Type 0 where
  pub cards : Cards
  pub selected : List Eni
  pub need : List ℕ

-- The primary interface becomes the one of card 0.
unfoldable pub use_primary : ℕ → List Eni → Plan → Res Plan
use_primary quota [] p = ok p
use_primary quota (e ∷ es) p = elim (opt_is e.type "Primary") [
  | true ↦ (do
    eri ← to_eri e quota
    need ← cut_out 0 p.need
    use_primary quota es
        (record { cards = (0, eri) ∷ p.cards; selected = p.selected ++ e ∷ []; need = need }))
  | false ↦ use_primary quota es p
]

pub record Selection : Type 0 where
  pub eris : List Eri
  pub need : List ℕ
  pub quota : ℕ

abbrev no_interface : Plan → Res Plan
no_interface p =
    if is_empty p.cards
    then err (errorf "cannot find node primary ENI or existing ENI" [])
    else ok p

-- The branch where each missing card gets `quota` queue pairs, more than none.
unfoldable pub fill_card_zero : ℕ → List Eni → Plan → Res Plan
fill_card_zero quota enis p = do
  filled ← if has_card p.cards 0 then ok p else use_primary quota enis p
  no_interface filled

-- The plan with the queue pairs for each missing card; `none` is a budget that is exceeded.
unfoldable pub allot : List Eni → ℕ → Picked → Option ℕ → Res (Plan × ℕ)
unfolding fill_card_zero
allot enis card_count p none = ok (record { cards = p.cards; selected = p.selected; need = [] }, 0)
allot enis card_count p (some budget) =
    let need = missing_cards p.cards 0 card_count in
    let quota = budget / length need in
    let plan : Plan = record { cards = p.cards; selected = p.selected; need = need } in
    if is_empty need
    then ok (plan, 0)
    else if ltb 0 quota
    then (do filled ← fill_card_zero quota enis plan; ok (filled, quota))
    else ok (record plan { need = [] }, quota)

unfoldable pub select_eri_from_exist : EriClient → List Eni → ℤ → ℕ → Res Selection
unfolding queue_budget
select_eri_from_exist c exist_enis queue_pair_count card_count = do
  rdma ← scan_rdma exist_enis
  map_res (λ e. to_eri e 0) rdma.0
  picked ← pick_owned c rdma.0 (record { cards = []; selected = [] })
  allotted ← allot exist_enis card_count picked (queue_budget queue_pair_count rdma.1)
  eris ← map_res (λ e. to_eri e allotted.1) allotted.0.selected
  if is_empty eris && is_empty allotted.0.need
      then err (errorf "cannot create ERI for instance due to no available slot" [])
      else ok (record { eris = eris; need = allotted.0.need; quota = allotted.1 })
