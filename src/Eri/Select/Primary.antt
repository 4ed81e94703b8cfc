-- ===== src/Eri/Select/Primary.antt =====
-- The loop that turns the primary interface into the one of card 0, and the budget branch around it.
use alibabacloud_erdma_contr.Prelude.{
  ℕ, ◌+◌, ◌-◌, ◌*◌, ◌/◌, ◌≤◌, ◌<◌, ◌≡◌, ◌≢◌, ◌⊎◌, Bool, true, false, Option, none, some, List, [],
  ◌∷◌, any, any-append, All, length, length-append, opt_is, Bool-cases, arith,
}
use alibabacloud_erdma_contr.Exec.{ok}
use alibabacloud_erdma_contr.Ecs.{Eni}
use alibabacloud_erdma_contr.Eri.Select.{
  Picked, missing_cards, Plan, use_primary, fill_card_zero, allot,
}
use alibabacloud_erdma_contr.Eri.Select.CardMap.{
  contains, cut_out-All, length-cut_out, contains-cut_out, IsMissing, missing_cards-All,
}

abbrev pub is_primary : Eni → Bool
is_primary e = opt_is e.type "Primary"

module _ (P : ℕ → Type 0) (quota : ℕ) where
  pub use_primary-All :
      (es : List Eni) (q p : Plan) → use_primary quota es p ≡ ok q → All P p.need → All P q.need
  unfolding use_primary
  use_primary-All [] q p h a = grind arith
  use_primary-All (e ∷ es) q p h a = grind (arith, use_primary-All es q, cut_out-All P 0)

module _ (quota : ℕ) where
  pub length-use_primary :
      (es : List Eni) (q p : Plan)
      → use_primary quota es p ≡ ok q
      → length q.need + length q.selected ≡ length p.need + length p.selected
  unfolding use_primary
  length-use_primary [] q p h = grind arith
  length-use_primary (e ∷ es) q p h =
      grind (arith, length-use_primary es q, length-cut_out 0, length-append {A = Eni})

  pub contains-use_primary :
      (es : List Eni) (q : Plan) (j : ℕ) (p : Plan)
      → use_primary quota es p ≡ ok q
      → j ≢ 0
      → contains p.need j ≡ true
      → contains q.need j ≡ true
  unfolding use_primary
  contains-use_primary [] q j p h d m = grind arith
  contains-use_primary (e ∷ es) q j p h d m =
      grind (arith, contains-use_primary es q j, contains-cut_out 0)

  -- Without a primary interface nothing changes.
  pub use_primary-none :
      (es : List Eni) (q p : Plan)
      → use_primary quota es p ≡ ok q
      → any is_primary es ≡ false
      → q ≡ p
  unfolding use_primary
  use_primary-none [] q p h a = grind arith
  use_primary-none (e ∷ es) q p h a = grind (arith, use_primary-none es q)

  pub use_primary-keeps :
      (es : List Eni) (q p : Plan)
      → use_primary quota es p ≡ ok q
      → any is_primary p.selected ≡ true
      → any is_primary q.selected ≡ true
  unfolding use_primary
  use_primary-keeps [] q p h a = grind arith
  use_primary-keeps (e ∷ es) q p h a =
      grind (arith, use_primary-keeps es q, any-append is_primary p.selected (e ∷ []))

  -- A primary interface is selected.
  pub use_primary-some :
      (es : List Eni) (q p : Plan)
      → use_primary quota es p ≡ ok q
      → any is_primary es ≡ true
      → any is_primary q.selected ≡ true
  unfolding use_primary
  use_primary-some [] q p h a = cc
  use_primary-some (e ∷ es) q p h a = grind (
    arith,
    use_primary-some es q,
    use_primary-keeps es q,
    any-append is_primary p.selected (e ∷ []),
  )

-- What the budget leaves of the plan: the cards that still need an interface are missing ones.
pub fill_card_zero-All :
    (P : ℕ → Type 0) (quota : ℕ) (es : List Eni) (p q : Plan)
    → fill_card_zero quota es p ≡ ok q
    → All P p.need
    → All P q.need
unfolding fill_card_zero
fill_card_zero-All P quota es p q h a = grind (arith, use_primary-All P quota es q)

pub length-fill_card_zero :
    (quota : ℕ) (es : List Eni) (p q : Plan)
    → fill_card_zero quota es p ≡ ok q
    → length q.need + length q.selected ≡ length p.need + length p.selected
unfolding fill_card_zero
length-fill_card_zero quota es p q h = grind (arith, length-use_primary quota es q)

-- Card `j` is served: taken before, left to be created, or card 0 with a primary interface.
abbrev pub IsServed : Plan → ℕ → Type 0
IsServed q j = (contains q.need j ≡ true) ⊎ ((j ≡ 0) × (any is_primary q.selected ≡ true))

pub fill_card_zero-IsServed :
    (quota : ℕ) (es : List Eni) (p q : Plan) (j : ℕ)
    → fill_card_zero quota es p ≡ ok q
    → contains p.need j ≡ true
    → IsServed q j
unfolding fill_card_zero
fill_card_zero-IsServed quota es p q j h m = grind (
  arith,
  contains-use_primary quota es q j,
  use_primary-none quota es q,
  use_primary-some quota es q,
  Bool-cases (any is_primary es),
)

-- A share of `b`, taken as often as there are shares or less, stays within `b`.
shares_le : (b n k : ℕ) → k ≤ n → b / n * k ≤ b
shares_le b n k h = grind arith

module _ (es : List Eni) (count : ℕ) (p : Picked) where
  pub allot-All :
      (b : Option ℕ) (plan : Plan) (quota : ℕ)
      → allot es count p b ≡ ok (plan, quota)
      → All (IsMissing p.cards 0 count) plan.need
  unfolding allot
  allot-All none plan quota h = grind arith
  allot-All (some b) plan quota h =
      grind
        (arith, fill_card_zero-All (IsMissing p.cards 0 count), missing_cards-All p.cards 0 count)

  allot-added :
      (b : ℕ) (plan : Plan) (quota : ℕ)
      → allot es count p (some b) ≡ ok (plan, quota)
      → length plan.need + length plan.selected - length p.selected
        ≤ length (missing_cards p.cards 0 count)
  unfolding allot
  allot-added b plan quota h = grind (arith, length-fill_card_zero)

  allot-quota :
      (b : ℕ) (plan : Plan) (quota : ℕ)
      → allot es count p (some b) ≡ ok (plan, quota)
      → quota ≤ b / length (missing_cards p.cards 0 count)
  unfolding allot
  allot-quota b plan quota h = grind arith

  pub allot-budget :
      (b : Option ℕ) (plan : Plan) (quota : ℕ)
      → allot es count p b ≡ ok (plan, quota)
      → quota * (length plan.need + length plan.selected - length p.selected)
        ≤ elim b [ none ↦ 0 | some n ↦ n ]
  unfolding allot
  allot-budget none plan quota h = grind arith
  allot-budget (some b) plan quota h =
      grind (arith, allot-quota b plan quota h, shares_le b _ _ (allot-added b plan quota h))

  pub allot-IsServed :
      (b : Option ℕ) (plan : Plan) (quota : ℕ) (j : ℕ)
      → allot es count p b ≡ ok (plan, quota)
      → 0 < quota
      → contains (missing_cards p.cards 0 count) j ≡ true
      → IsServed plan j
  unfolding allot
  allot-IsServed none plan quota j h pos m = grind arith
  allot-IsServed (some b) plan quota j h pos m = grind (arith, fill_card_zero-IsServed)
