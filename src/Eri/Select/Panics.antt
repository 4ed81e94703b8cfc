-- ===== src/Eri/Select/Panics.antt =====
-- SelectEriFromExist dereferences fields of the cloud's answer and cuts card 0 out of a list by an
-- index that may be -1. On an answer that has the fields, and one primary interface at most, no
-- such step panics.
use alibabacloud_erdma_contr.Prelude.{
  ℕ, zero, suc, ◌+◌, ◌/◌, ◌≤◌, ◌≡◌, ◌≢◌, refl, subst, inl, inr, ℤ, true, false, ◌&&◌, Option, none,
  some, List, [], ◌∷◌, All, All-append, All-map, length, is_empty, ltb, ◌==◌, Bool-cases, arith,
  if◌then◌else◌,
}
use alibabacloud_erdma_contr.Exec.{Res, ok, err, panic, errorf}
use alibabacloud_erdma_contr.Exec.Pure.{◌>>=◌, map_res}
use alibabacloud_erdma_contr.Types.{Eri}
use alibabacloud_erdma_contr.Ecs.{Eni}
use alibabacloud_erdma_contr.Eri.Client.{EriClient, own_eni, eni_card_index, to_eri, HasIdentity}
use alibabacloud_erdma_contr.Eri.Select.{
  is_rdma, Cards, has_card, scan_rdma, Picked, pick_owned, missing_cards, cut_out, Plan,
  use_primary, fill_card_zero, no_interface, allot, Selection, select_eri_from_exist,
}
use alibabacloud_erdma_contr.Eri.Select.CardMap.{contains}
use alibabacloud_erdma_contr.Eri.Select.Primary.{is_primary}

-- The answer's fields that the selection dereferences.
abbrev pub HasFields : Eni → Type 0
HasFields e = HasIdentity e × (is_rdma e ≡ true → (n : ℕ) × (e.queue_pair_number ≡ some n))

unfoldable pub primaries : List Eni → ℕ
primaries [] = 0
primaries (e ∷ es) = (if is_primary e then 1 else 0) + primaries es

-- The result is a value or an error, and a value meets `P`.
abbrev pub Safe {ℓ} : {A : Type ℓ} → (A → Type 0) → Res A → Type 0
Safe P (ok a) = P a
Safe P (err e) = Unit {0}
Safe P panic = ⊥

pub Safe-bind {ℓ κ} :
    {A : Type ℓ} {B : Type κ} (P : A → Type 0) (Q : B → Type 0) (m : Res A) (f : A → Res B)
    → Safe P m
    → ((a : A) → P a → Safe Q (f a))
    → Safe Q (m >>= f)
Safe-bind P Q (ok a) f s k = k a s
Safe-bind P Q (err e) f s k = tt
Safe-bind P Q panic f s k = absurd s

-- No condition on the value.
abbrev Whatever {ℓ} : {A : Type ℓ} → A → Type 0
Whatever x = Unit {0}

to_eri-Safe : (e : Eni) (quota : ℕ) → HasIdentity e → Safe Whatever (to_eri e quota)
unfolding to_eri
to_eri-Safe e quota ((id, p), (type, q), (mac, r)) = rw (p, q, r) tt

map_res-Safe :
    (quota : ℕ) (es : List Eni)
    → All HasIdentity es
    → Safe Whatever (map_res (λ e. to_eri e quota) es)
unfolding map_res
map_res-Safe quota [] h = tt
map_res-Safe quota (e ∷ es) h =
    Safe-bind Whatever Whatever (to_eri e quota) _ (to_eri-Safe e quota h.0) λ eri _.
      Safe-bind Whatever Whatever (map_res (λ e. to_eri e quota) es) _ (map_res-Safe quota es h.1)
        (λ eris _. tt)

scan_rdma-Safe : (es : List Eni) → All HasFields es → Safe (λ r. All HasIdentity r.0) (scan_rdma es)
unfolding scan_rdma
scan_rdma-Safe [] h = tt
scan_rdma-Safe (e ∷ es) h = elim (Bool-cases (is_rdma e)) [
  | inl rdma ↦
      let (n, known) = h.0.1 rdma in
      rw (rdma, known, scan_rdma)
        (Safe-bind (λ r. All HasIdentity r.0) (λ r. All HasIdentity r.0) (scan_rdma es) _
          (scan_rdma-Safe es h.1) (λ r k. (h.0.0, k)))
  | inr other ↦ rw (other, scan_rdma) (scan_rdma-Safe es h.1)
]

pick_owned-Safe :
    (c : EriClient) (es : List Eni) (p : Picked)
    → All HasIdentity es
    → All HasIdentity p.selected
    → Safe (λ q. All HasIdentity q.selected) (pick_owned c es p)
unfolding pick_owned
pick_owned-Safe c [] p h k = k
pick_owned-Safe c (e ∷ es) p h k = elim (Bool-cases (own_eni c e)) [
  | inr other ↦ rw (other, pick_owned) (pick_owned-Safe c es p h.1 k)
  | inl own ↦ elim (Bool-cases (has_card p.cards (eni_card_index e))) [
    | inl old ↦ rw (own, old, pick_owned) (pick_owned-Safe c es p h.1 k)
    | inr new ↦
        rw (own, new, pick_owned)
          (Safe-bind Whatever (λ q. All HasIdentity q.selected) (to_eri e 0) _ (to_eri-Safe e 0 h.0)
            (λ eri _.
              pick_owned-Safe c es _ h.1 (All-append HasIdentity p.selected (e ∷ []) k (h.0, tt))))
  ]
]

use_primary-unchanged :
    (quota : ℕ) (es : List Eni) (p : Plan) → primaries es ≡ 0 → use_primary quota es p ≡ ok p
unfolding use_primary primaries
use_primary-unchanged quota [] p h = refl
use_primary-unchanged quota (e ∷ es) p h = ground (arith, use_primary-unchanged quota es p)

cut_out-contains :
    (x : ℕ) (ys : List ℕ) → contains ys x ≡ true → (zs : List ℕ) × (cut_out x ys ≡ ok zs)
unfolding cut_out
cut_out-contains x [] h = cc
cut_out-contains x (y ∷ ys) h = elim (Bool-cases (y == x)) [
  | inl here ↦ (ys, rw (here, cut_out))
  | inr there ↦
      let (zs, e) = cut_out-contains x ys (ground arith) in (y ∷ zs, rw (there, e, cut_out))
]

use_primary-Safe :
    (quota : ℕ) (es : List Eni) (p : Plan)
    → All HasIdentity es
    → All HasIdentity p.selected
    → primaries es ≤ 1
    → contains p.need 0 ≡ true
    → Safe (λ q. All HasIdentity q.selected) (use_primary quota es p)
unfolding use_primary primaries
use_primary-Safe quota [] p h k one z = k
use_primary-Safe quota (e ∷ es) p h k one z = elim (Bool-cases (is_primary e)) [
  | inr other ↦ rw (other, use_primary) (use_primary-Safe quota es p h.1 k (ground arith) z)
  | inl first ↦
      let (need, cut) = cut_out-contains 0 p.need z in
      rw (first, use_primary)
        (Safe-bind Whatever (λ q. All HasIdentity q.selected) (to_eri e quota) _
          (to_eri-Safe e quota h.0)
          (λ eri _.
            rw (cut, use_primary-unchanged quota es _ (ground arith))
              (All-append HasIdentity p.selected (e ∷ []) k (h.0, tt))))
]

no_interface-Safe :
    (p : Plan)
    → All HasIdentity p.selected
    → Safe (λ q. All HasIdentity q.selected) (no_interface p)
no_interface-Safe p k = elim (Bool-cases (is_empty p.cards)) [
  | inl none' ↦ rw (none', no_interface) tt
  | inr some' ↦ rw (some', no_interface) k
]

fill_card_zero-Safe :
    (quota : ℕ) (es : List Eni) (p : Plan)
    → All HasIdentity es
    → All HasIdentity p.selected
    → primaries es ≤ 1
    → (has_card p.cards 0 ≡ false → contains p.need 0 ≡ true)
    → Safe (λ q. All HasIdentity q.selected) (fill_card_zero quota es p)
unfolding fill_card_zero
fill_card_zero-Safe quota es p h k one z = elim (Bool-cases (has_card p.cards 0)) [
  | inl old ↦ rw (old, fill_card_zero) (no_interface-Safe p k)
  | inr new ↦
      rw (new, fill_card_zero)
        (Safe-bind (λ q. All HasIdentity q.selected) (λ q. All HasIdentity q.selected)
          (use_primary quota es p) no_interface (use_primary-Safe quota es p h k one (z new))
          no_interface-Safe)
]

first_missing :
    (cards : Cards) (count : ℕ)
    → is_empty (missing_cards cards 0 count) ≡ false
    → has_card cards 0 ≡ false
    → contains (missing_cards cards 0 count) 0 ≡ true
unfolding missing_cards
first_missing cards zero h f = cc
first_missing cards (suc k) h f = ground arith

allot-Safe :
    (es : List Eni) (count : ℕ) (p : Picked) (b : Option ℕ)
    → All HasIdentity es
    → All HasIdentity p.selected
    → primaries es ≤ 1
    → Safe (λ r. All HasIdentity r.0.selected) (allot es count p b)
unfolding allot
allot-Safe es count p none h k one = k
allot-Safe es count p (some b) h k one =
    let need = missing_cards p.cards 0 count in
    let quota = b / length need in
    elim (Bool-cases (is_empty need)) [
      | inl full ↦ rw (full, allot) k
      | inr open' ↦ elim (Bool-cases (ltb 0 quota)) [
        | inr short ↦ rw (open', short, allot) k
        | inl enough ↦
            rw (open', enough, allot)
              (Safe-bind (λ q. All HasIdentity q.selected) (λ r. All HasIdentity r.0.selected)
                (fill_card_zero quota es _) _
                (fill_card_zero-Safe quota es _ h k one (first_missing p.cards count open'))
                (λ q m. m))
      ]
    ]

finish-Safe :
    (eris : List Eri) (a : Plan × ℕ)
    → Safe {A = Selection} Whatever (
        if is_empty eris && is_empty a.0.need
        then err (errorf "cannot create ERI for instance due to no available slot" [])
        else ok (record { eris = eris; need = a.0.need; quota = a.1 }))
finish-Safe eris a = elim (Bool-cases (is_empty eris && is_empty a.0.need)) [
  | inl bad ↦ rw bad tt
  | inr good ↦ rw good tt
]

select-Safe :
    (c : EriClient) (enis : List Eni) (pairs : ℤ) (count : ℕ)
    → All HasFields enis
    → primaries enis ≤ 1
    → Safe Whatever (select_eri_from_exist c enis pairs count)
unfolding select_eri_from_exist
select-Safe c enis pairs count h one =
    let all_known = All-map HasFields HasIdentity enis (λ e f. f.0) h in
    Safe-bind (λ r. All HasIdentity r.0) Whatever (scan_rdma enis) _ (scan_rdma-Safe enis h)
      λ rdma k1.
        Safe-bind Whatever Whatever (map_res (λ e. to_eri e 0) rdma.0) _ (map_res-Safe 0 rdma.0 k1)
          λ logged _.
            Safe-bind (λ q. All HasIdentity q.selected) Whatever (pick_owned c rdma.0 _) _
              (pick_owned-Safe c rdma.0 _ k1 tt)
              λ picked k2.
                Safe-bind (λ r. All HasIdentity r.0.selected) Whatever (allot enis count picked _) _
                  (allot-Safe enis count picked _ all_known k2 one)
                  λ a k3.
                    Safe-bind Whatever Whatever (map_res (λ e. to_eri e a.1) a.0.selected) _
                      (map_res-Safe a.1 a.0.selected k3) λ eris _. finish-Safe eris a

-- On an answer of the cloud whose interfaces all have an id, a type and a MAC address, whose RDMA
-- interfaces have a queue pair number, and with at most one primary interface, the selection
-- returns a value or an error and does not panic.
pub select_safe :
    (c : EriClient) (enis : List Eni) (pairs : ℤ) (count : ℕ)
    → All HasFields enis
    → primaries enis ≤ 1
    → select_eri_from_exist c enis pairs count ≢ panic
select_safe c enis pairs count h one =
    λ e. subst (Safe Whatever) e (select-Safe c enis pairs count h one)
