-- ===== src/Eri/Create/Laws.antt =====
-- What CreateEriForInstance hands back: one interface for each card asked for, in their order.
use alibabacloud_erdma_contr.Prelude.{
  ℕ, ◌-◌, ◌≤◌, ◌≤◌, ◌≡◌, refl, ℤ, pos, some, List, [], ◌∷◌, ◌++◌, map, length, All, All-append,
  arith,
}
use mathlib.Core.List.{map-append}
use alibabacloud_erdma_contr.Exec.{done}
use alibabacloud_erdma_contr.Exec.Pure.{deref}
use alibabacloud_erdma_contr.Exec.Act.{◌>>=◌, pure, after, lift-done, arrive, through}
use alibabacloud_erdma_contr.Types.{Eri}
use alibabacloud_erdma_contr.Ecs.{Ecs, Eni, Instance, EnisAnswer}
use alibabacloud_erdma_contr.Eri.Client.{to_eri}
use alibabacloud_erdma_contr.Eri.Create.{
  take_over, create_each, tagged_query, create_eri_for_instance,
}

abbrev pub card_of : Eri → ℤ
card_of e = e.card_index

-- The interfaces belong to the instance, and are those of the cards in their order.
pub record Serves (info : Instance) (cards : List ℕ) (eris : List Eri) : Type 0 where
  pub in_order : map card_of eris ≡ map pos cards
  pub of_instance : All (λ (e : Eri). info.instance_id ≡ some e.instance_id) eris

abbrev OwnedBy : Instance → Eri → Type 0
OwnedBy info e = info.instance_id ≡ some e.instance_id

module _ {W : Type 0} (info : Instance) (queue_pair : ℕ) where
  take_over-cards :
      (es : List Eni) (cards : List ℕ) (w w' : W) (r : List Eri × List ℕ)
      → take_over info queue_pair es cards w ≡ done r w'
      → map card_of r.0 ++ map pos r.1 ≡ map pos cards
  unfolding take_over
  take_over-cards [] cards w w' r h = grind arith
  take_over-cards (e ∷ es) [] w w' r h = take_over-cards es [] w w' r h
  take_over-cards (e ∷ es) (card ∷ cards) w w' r h = grind (arith, take_over-cards es cards)

  take_over-owned :
      (es : List Eni) (cards : List ℕ) (w w' : W) (r : List Eri × List ℕ)
      → take_over info queue_pair es cards w ≡ done r w'
      → All (OwnedBy info) r.0
  unfolding take_over
  take_over-owned [] cards w w' r h = grind arith
  take_over-owned (e ∷ es) [] w w' r h = take_over-owned es [] w w' r h
  take_over-owned (e ∷ es) (card ∷ cards) w w' r h = grind (arith, take_over-owned es cards)

  module _ (api : Ecs W) where
    create_each-Serves :
        (cards : List ℕ) (w w' : W) (eris : List Eri)
        → create_each api info queue_pair cards w ≡ done eris w'
        → (map card_of eris ≡ map pos cards) × All (OwnedBy info) eris
    unfolding create_each
    create_each-Serves [] w w' eris h = grind arith
    create_each-Serves (card ∷ cards) w w' eris h = grind (arith, create_each-Serves cards)

  module _ (api : Ecs W) where
    -- The rest of CreateEriForInstance, once the tagged interfaces are known.
    fill-Serves :
        (enis : List Eni) (cards : List ℕ) (w w' : W) (eris : List Eri)
        → after (take_over info queue_pair enis cards w) (λ taken.
          create_each api info queue_pair taken.1 >>= λ created. pure (taken.0 ++ created))
          ≡ done eris w'
        → Serves info cards eris
    fill-Serves enis cards w w' eris h =
        elim (through (take_over info queue_pair enis cards w) _ h) [
          | arrive taken v e1 h1 ↦ elim (through (create_each api info queue_pair taken.1 v) _ h1) [
            | arrive created u e2 h2 ↦
                let a = create_each-Serves api taken.1 v u created e2 in
                record {
                  in_order = grind (
                    arith,
                    map-append card_of taken.0 created,
                    take_over-cards enis cards w v taken e1,
                    a.0,
                  );
                  of_instance = grind (
                    arith,
                    All-append (OwnedBy info) taken.0 created
                        (take_over-owned enis cards w v taken e1) a.1,
                  );
                }
          ]
        ]

-- When interfaces for a list of network cards are returned, there is one for each card, in the
-- order of the list, and every one is of the instance.
pub create_eri_for_instance-Serves :
    {W : Type 0} (api : Ecs W) (info : Instance) (cards : List ℕ) (queue_pair : ℕ) (eris : List Eri)
    (w w' : W)
    → create_eri_for_instance api info cards queue_pair w ≡ done eris w'
    → Serves info cards eris
unfolding create_eri_for_instance
create_eri_for_instance-Serves api info cards queue_pair eris w w' h =
    grind (arith, fill-Serves info queue_pair api)

module _ {W : Type 0} (info : Instance) (queue_pair : ℕ) where
  take_over-rest :
      (es : List Eni) (cards : List ℕ) (w w' : W) (r : List Eri × List ℕ)
      → take_over info queue_pair es cards w ≡ done r w'
      → (w' ≡ w) × (length r.1 ≡ length cards - length es)
  unfolding take_over
  take_over-rest [] cards w w' r h = grind arith
  take_over-rest (e ∷ es) [] w w' r h = grind (arith, take_over-rest es [] w w' r h)
  take_over-rest (e ∷ es) (card ∷ cards) w w' r h = grind (
    arith,
    take_over-rest es cards,
    lift-done {W = W} (to_eri e queue_pair),
    lift-done {W = W} (deref info.instance_id),
  )

  create_each-none :
      (api : Ecs W) (cards : List ℕ) (w : W)
      → length cards ≤ 0
      → create_each api info queue_pair cards w ≡ done [] w
  unfolding create_each
  create_each-none api [] w h = refl
  create_each-none api (card ∷ cards) w h = absurd (omega arith)

-- When the cloud lists at least as many interfaces with the controller's tags for the instance as
-- there are cards to fill, a run that succeeds ends in the world in which that listing left the
-- cloud: no interface is created.
create_eri_for_instance_reuses :
    {W : Type 0} (api : Ecs W) (info : Instance) (cards : List ℕ) (queue_pair : ℕ)
    (answer : EnisAnswer) (eris : List Eri) (w v w' : W)
    → api.describe_network_interfaces (tagged_query info) w ≡ done answer v
    → length cards ≤ length answer.enis
    → create_eri_for_instance api info cards queue_pair w ≡ done eris w'
    → w' ≡ v
unfolding create_eri_for_instance create_each
create_eri_for_instance_reuses api info cards queue_pair answer eris w v w' q l h =
    grind (
      arith,
      take_over-rest info queue_pair answer.enis cards,
      create_each-none info queue_pair api,
    )
