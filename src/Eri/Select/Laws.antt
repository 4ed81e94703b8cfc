-- ===== src/Eri/Select/Laws.antt =====
-- What SelectEriFromExist promises: the queue pair budget, the cards, and when it can fail.
use alibabacloud_erdma_contr.Prelude.{
  ℕ, ◌+◌, ◌-◌, ◌*◌, ◌≤◌, ◌<◌, ◌≡◌, ◌∙◌, ap, ◌⊎◌, inl, inr, ℤ, pos, negsuc, true, false, ◌&&◌, none,
  some, List, [], ◌∷◌, any, keep, All, All-map, length, is_empty, Bool-cases, arith,
}
use alibabacloud_erdma_contr.Exec.{Res, ok}
use alibabacloud_erdma_contr.Exec.Pure.{map_res, through, via}
use alibabacloud_erdma_contr.Types.{Eri}
use alibabacloud_erdma_contr.Ecs.{Eni}
use alibabacloud_erdma_contr.Eri.Client.{EriClient, to_eri}
use alibabacloud_erdma_contr.Eri.Select.{
  is_rdma, has_card, scan_rdma, Picked, pick_owned, Plan, queue_budget, allot, Selection,
  select_eri_from_exist,
}
use alibabacloud_erdma_contr.Eri.Select.CardMap.{
  rdma_pairs, scan_rdma-keep, contains, owned_on, has_card-pick_owned, IsMissing,
  contains-missing_cards,
}
use alibabacloud_erdma_contr.Eri.Select.Primary.{
  is_primary, allot-All, allot-budget, allot-IsServed,
}

-- The steps of a selection that succeeds.
record Steps (c : EriClient) (enis : List Eni) (pairs : ℤ) (count : ℕ) (s : Selection)
    : Type 0 where
  picked : Picked
  plan : Plan
  pick : pick_owned c (keep is_rdma enis) (record { cards = []; selected = [] }) ≡ ok picked
  share : allot enis count picked (queue_budget pairs (rdma_pairs enis)) ≡ ok (plan, s.quota)
  convert : map_res (λ e. to_eri e s.quota) plan.selected ≡ ok s.eris
  need : s.need ≡ plan.need
  some_card : (is_empty s.eris && is_empty s.need) ≡ false

select-Steps :
    (c : EriClient) (enis : List Eni) (pairs : ℤ) (count : ℕ) (s : Selection)
    → select_eri_from_exist c enis pairs count ≡ ok s
    → Steps c enis pairs count s
unfolding select_eri_from_exist
select-Steps c enis pairs count s h = elim (through (scan_rdma enis) _ h) [
  | via rdma scanned h1 ↦ elim (through (map_res (λ e. to_eri e 0) rdma.0) _ h1) [
    | via logged _ h2 ↦ elim (through (pick_owned c rdma.0 _) _ h2) [
      | via picked pick h3 ↦ elim (through (allot enis count picked _) _ h3) [
        | via allotted share h4 ↦
            elim (through (map_res (λ e. to_eri e allotted.1) allotted.0.selected) _ h4) [
              | via eris convert h5 ↦
                  let r = scan_rdma-keep enis rdma scanned in
                  record {
                    picked = picked;
                    plan = allotted.0;
                    pick = grind arith;
                    share = grind arith;
                    convert = grind arith;
                    need = grind arith;
                    some_card = grind arith;
                  }
            ]
      ]
    ]
  ]
]

-- The queue pairs that `pairs` leaves over the RDMA interfaces of the node.
pub pairs_left : ℤ → List Eni → ℕ
pairs_left (pos q) enis = q - rdma_pairs enis
pairs_left (negsuc n) enis = 0

-- The first owned interface in RDMA mode of each card.
abbrev pub owned_picks : EriClient → List Eni → Res Picked
owned_picks c enis = pick_owned c (keep is_rdma enis) (record { cards = []; selected = [] })

length-map_res {ℓ κ} :
    {A : Type ℓ} {B : Type κ} (f : A → Res B) (xs : List A) (ys : List B)
    → map_res f xs ≡ ok ys
    → length ys ≡ length xs
unfolding map_res
length-map_res f [] ys h = grind arith
length-map_res f (x ∷ xs) ys h = grind (arith, length-map_res f xs)

primary-to_eri :
    (e : Eni) (quota : ℕ) (eri : Eri) → to_eri e quota ≡ ok eri → eri.is_primary_eni ≡ is_primary e
unfolding to_eri
primary-to_eri e quota eri h = grind arith

primary-map_res :
    (quota : ℕ) (es : List Eni) (eris : List Eri)
    → map_res (λ e. to_eri e quota) es ≡ ok eris
    → any (λ (e : Eri). e.is_primary_eni) eris ≡ any is_primary es
unfolding map_res
primary-map_res quota [] eris h = grind arith
primary-map_res quota (e ∷ es) eris h =
    grind (arith, primary-map_res quota es, primary-to_eri e quota)

budget_bound :
    (pairs : ℤ) (enis : List Eni)
    → elim (queue_budget pairs (rdma_pairs enis)) [ none ↦ 0 | some n ↦ n ] ≤ pairs_left pairs enis
unfolding queue_budget pairs_left
budget_bound (pos q) enis = ground arith
budget_bound (negsuc n) enis = ground arith

-- When a selection succeeds, the interfaces to create and the ones used beyond the owned RDMA
-- interfaces (first of each card), at the quota of queue pairs each, fit into the queue pairs
-- that the limit leaves over all RDMA interfaces of the node.
pub select-within_budget :
    (c : EriClient) (enis : List Eni) (pairs : ℤ) (count : ℕ) (s : Selection)
    → select_eri_from_exist c enis pairs count ≡ ok s
    → (picked : Picked) × (owned_picks c enis ≡ ok picked)
      × (s.quota * (length s.need + length s.eris - length picked.selected) ≤ pairs_left pairs enis)
select-within_budget c enis pairs count s h =
    let t = select-Steps c enis pairs count s h in
    (
      t.picked,
      t.pick,
      grind (
        arith,
        allot-budget enis count t.picked (queue_budget pairs (rdma_pairs enis)) t.plan s.quota
            t.share,
        budget_bound pairs enis,
        length-map_res (λ (e : Eni). to_eri e s.quota) t.plan.selected s.eris t.convert,
        ap length t.need,
      ),
    )

-- When a selection succeeds, each card that it asks to create is one of the instance's `count`
-- cards and has no owned interface in RDMA mode.
pub select-need_free :
    (c : EriClient) (enis : List Eni) (pairs : ℤ) (count : ℕ) (s : Selection)
    → select_eri_from_exist c enis pairs count ≡ ok s
    → All (λ i. (i < count) × (owned_on c (keep is_rdma enis) i ≡ false)) s.need
select-need_free c enis pairs count s h =
    let t = select-Steps c enis pairs count s h in
    rw t.need (
      All-map (IsMissing t.picked.cards 0 count) _ t.plan.need
        (λ j m. (
          omega arith,
          grind (arith, has_card-pick_owned c (keep is_rdma enis) t.picked j _ t.pick),
        ))
        (allot-All enis count t.picked _ t.plan s.quota t.share))

-- When a selection succeeds with a positive quota, each of the `count` cards has an owned interface
-- in RDMA mode, or is to be created, or is card 0 while a primary interface is selected.
pub select_covers_cards :
    (c : EriClient) (enis : List Eni) (pairs : ℤ) (count : ℕ) (s : Selection) (i : ℕ)
    → select_eri_from_exist c enis pairs count ≡ ok s
    → 0 < s.quota
    → i < count
    → (owned_on c (keep is_rdma enis) i ≡ true)
      ⊎ ((contains s.need i ≡ true)
          ⊎ ((i ≡ 0) × (any (λ (e : Eri). e.is_primary_eni) s.eris ≡ true)))
unfolding has_card
select_covers_cards c enis pairs count s i h q l =
    let t = select-Steps c enis pairs count s h in
    let taken = has_card-pick_owned c (keep is_rdma enis) t.picked i _ t.pick in
    elim (Bool-cases (has_card t.picked.cards i)) [
      | inl old ↦ inl (grind arith)
      | inr new ↦ inr (
          rw t.need
            (elim (allot-IsServed enis count t.picked _ t.plan s.quota i t.share q
              (contains-missing_cards t.picked.cards 0 count i (omega arith) (omega arith) new)) [
                | inl created ↦ inl created
                | inr (first, found) ↦
                    inr (first, primary-map_res s.quota t.plan.selected s.eris t.convert ∙ found)
              ]))
    ]
