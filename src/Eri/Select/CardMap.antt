-- ===== src/Eri/Select/CardMap.antt =====
-- Facts on the card map of SelectEriFromExist: what the loops over the interfaces leave in it, and
-- which cards are still missing.
use alibabacloud_erdma_contr.Prelude.{
  ℕ, zero, suc, ◌+◌, ◌≤◌, ◌<◌, ◌≡◌, ◌≢◌, inl, inr, Bool, true, false, ◌&&◌, ◌||◌, none, some, List,
  [], ◌∷◌, any, keep, All, All-map, length, ◌==◌, Bool-cases, arith, if◌then◌else◌,
}
use alibabacloud_erdma_contr.Exec.{ok}
use alibabacloud_erdma_contr.Ecs.{Eni}
use alibabacloud_erdma_contr.Eri.Client.{EriClient, own_eni, eni_card_index}
use alibabacloud_erdma_contr.Eri.Select.{
  is_rdma, scan_rdma, Cards, has_card, Picked, pick_owned, missing_cards, cut_out,
}

-- The queue pairs that the interfaces in RDMA mode have.
pub rdma_pairs : List Eni → ℕ
rdma_pairs [] = 0
rdma_pairs (e ∷ es) =
    (if is_rdma e then elim e.queue_pair_number [ none ↦ 0 | some n ↦ n ] else 0) + rdma_pairs es

pub scan_rdma-keep :
    (es : List Eni) (r : List Eni × ℕ)
    → scan_rdma es ≡ ok r
    → (r.0 ≡ keep is_rdma es) × (r.1 ≡ rdma_pairs es)
unfolding scan_rdma rdma_pairs
scan_rdma-keep [] r h = ground arith
scan_rdma-keep (e ∷ es) r h = grind (arith, scan_rdma-keep es)

abbrev pub contains : List ℕ → ℕ → Bool
contains l i = any (λ j. j == i) l

-- An owned interface in the list sits on the card.
abbrev pub owned_on : EriClient → List Eni → ℕ → Bool
owned_on c es i = any (λ e. own_eni c e && eni_card_index e == i) es

pub has_card-pick_owned :
    (c : EriClient) (es : List Eni) (q : Picked) (i : ℕ) (p : Picked)
    → pick_owned c es p ≡ ok q
    → has_card q.cards i ≡ (has_card p.cards i || owned_on c es i)
unfolding pick_owned has_card
has_card-pick_owned c [] q i p h = ground arith
has_card-pick_owned c (e ∷ es) q i p h = grind (arith, has_card-pick_owned c es q i)

-- Card `j` is one of the `k` cards from `i` on, and has no interface.
abbrev pub IsMissing : Cards → ℕ → ℕ → ℕ → Type 0
IsMissing cards i k j = (i ≤ j) × (j < i + k) × (has_card cards j ≡ false)

pub missing_cards-All :
    (cards : Cards) (i k : ℕ) → All (IsMissing cards i k) (missing_cards cards i k)
unfolding missing_cards
missing_cards-All cards i zero = tt
missing_cards-All cards i (suc k) =
    let rest : All (IsMissing cards i (suc k)) (missing_cards cards (suc i) k) =
      All-map (IsMissing cards (suc i) k) (IsMissing cards i (suc k))
        (missing_cards cards (suc i) k) (λ j m. (omega arith, omega arith, m.2))
        (missing_cards-All cards (suc i) k) in
    elim (Bool-cases (has_card cards i)) [
      | inl old ↦ rw old rest
      | inr new ↦ rw new ((omega arith, omega arith, new), rest)
    ]

pub contains-missing_cards :
    (cards : Cards) (i k j : ℕ)
    → i ≤ j
    → j < i + k
    → has_card cards j ≡ false
    → contains (missing_cards cards i k) j ≡ true
unfolding missing_cards
contains-missing_cards cards i zero j h l f = absurd (omega arith)
contains-missing_cards cards i (suc k) j h l f =
    ground (arith, contains-missing_cards cards (suc i) k j)

module _ (P : ℕ → Type 0) where
  pub cut_out-All : (x : ℕ) (ys zs : List ℕ) → cut_out x ys ≡ ok zs → All P ys → All P zs
  unfolding cut_out
  cut_out-All x [] zs h a = cc
  cut_out-All x (y ∷ ys) zs h a = grind (arith, cut_out-All x ys)

pub length-cut_out : (x : ℕ) (ys zs : List ℕ) → cut_out x ys ≡ ok zs → length ys ≡ suc (length zs)
unfolding cut_out
length-cut_out x [] zs h = cc
length-cut_out x (y ∷ ys) zs h = grind (arith, length-cut_out x ys)

pub contains-cut_out :
    (x : ℕ) (ys zs : List ℕ) (j : ℕ)
    → cut_out x ys ≡ ok zs
    → j ≢ x
    → contains ys j ≡ true
    → contains zs j ≡ true
unfolding cut_out
contains-cut_out x [] zs j h d m = cc
contains-cut_out x (y ∷ ys) zs j h d m = grind (arith, contains-cut_out x ys)
