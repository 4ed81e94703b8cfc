-- ===== src/Eri/Choose/Laws.antt =====
-- What SelectERIs promises of a node: the interfaces selected and those created for it together.
use alibabacloud_erdma_contr.Prelude.{
  ℕ, ◌-◌, ◌*◌, ◌≤◌, ◌<◌, ◌≡◌, sym, subst, ap, String, ℤ, pos, false, List, [], ◌++◌, map, keep, All,
  length, length-append, length-map, arith,
}
use alibabacloud_erdma_contr.Exec.{ok, done, wrap}
use alibabacloud_erdma_contr.Exec.Act.{
  pure, lift, handle, reword, lift-done, reword-done, done_value, arrive, through,
}
use alibabacloud_erdma_contr.Types.{Eri}
use alibabacloud_erdma_contr.Ecs.{Ecs, Instance, EnisAnswer, by_instance}
use alibabacloud_erdma_contr.Eri.Client.{EriClient}
use alibabacloud_erdma_contr.Eri.Select.{is_rdma, Picked, Selection, select_eri_from_exist}
use alibabacloud_erdma_contr.Eri.Select.CardMap.{owned_on}
use alibabacloud_erdma_contr.Eri.Select.Laws.{
  pairs_left, owned_picks, select-within_budget, select-need_free,
}
use alibabacloud_erdma_contr.Eri.Create.{create_eri_for_instance}
use alibabacloud_erdma_contr.Eri.Create.Laws.{Serves, card_of, create_eri_for_instance-Serves}
use alibabacloud_erdma_contr.Eri.Choose.{ensure_eri_tags, select_within}

-- The interfaces of a node: the selected ones, then one for each card that had none, at most as
-- many as the queue pairs that are left allow.
pub record IsChoice (c : EriClient) (info : Instance) (cards : ℕ) (pairs : ℤ) (answer : EnisAnswer)
    (eris : List Eri) : Type 0 where
  pub s : Selection
  pub created : List Eri
  pub selects : select_eri_from_exist c answer.enis pairs cards ≡ ok s
  pub joined : eris ≡ s.eris ++ created
  pub serves : Serves info s.need created
  pub free : All (λ i. (i < cards) × (owned_on c (keep is_rdma answer.enis) i ≡ false)) s.need
  pub picked : Picked
  pub picks : owned_picks c answer.enis ≡ ok picked
  pub budget : s.quota * (length eris - length picked.selected) ≤ pairs_left pairs answer.enis

length-Serves :
    (info : Instance) (need : List ℕ) (created : List Eri)
    → Serves info need created
    → length created ≡ length need
length-Serves info need created v =
    grind (arith, length-map card_of created, length-map {B = ℤ} pos need, ap length v.in_order)

-- The calls of a run of SelectERIs that succeeds.
pub record Stages {W : Type 0} (api : Ecs W) (c : EriClient) (info : Instance)
    (instance_id : String) (limits : ℕ × ℤ) (w : W) (eris : List Eri) : Type 0 where
  pub answer : EnisAnswer
  pub s : Selection
  pub created : List Eri
  pub listed : W
  pub made : W
  pub lists : api.describe_network_interfaces (by_instance instance_id) w ≡ done answer listed
  pub selects : select_eri_from_exist c answer.enis limits.1 limits.0 ≡ ok s
  pub creates : create_eri_for_instance api info s.need s.quota listed ≡ done created made
  pub joined : s.eris ++ created ≡ eris

module _ {W : Type 0} (api : Ecs W) (c : EriClient) (info : Instance) (instance_id : String)
    (limits : ℕ × ℤ) where
  pub select_within-Stages :
      (w w' : W) (eris : List Eri)
      → select_within api c info instance_id limits w ≡ done eris w'
      → Stages api c info instance_id limits w eris
  unfolding select_within
  select_within-Stages w w' eris h =
      elim (through
        (reword (wrap "cannot found node eni: %v" [])
          (api.describe_network_interfaces (by_instance instance_id)) w)
        _ h) [
          | arrive answer v e1 h1 ↦
              elim (through
                (reword (wrap "cannot generate eri config list from exist enis: %v" [])
                  (lift (select_eri_from_exist c answer.enis limits.1 limits.0)) v)
                _ h1) [
                  | arrive s u e2 h2 ↦
                      elim (through (create_eri_for_instance api info s.need s.quota u) _ h2) [
                        | arrive created x e3 h3 ↦
                            elim (through
                              (handle
                                (ensure_eri_tags api (map (λ (e : Eri). e.id) (s.eris ++ created))
                                  instance_id)
                                pure (λ e. pure tt) x)
                              _ h3) [
                                | arrive t y e4 h4 ↦
                                    let (selects, same) = lift-done _ (reword-done _ _ e2) in
                                    record {
                                      answer = answer;
                                      s = s;
                                      created = created;
                                      listed = v;
                                      made = x;
                                      lists = reword-done _ _ e1;
                                      selects = selects;
                                      creates =
                                          subst
                                            (λ z.
                                              create_eri_for_instance api info s.need s.quota z
                                              ≡ done created x)
                                            same e3;
                                      joined = done_value h4;
                                    }
                              ]
                      ]
                ]
        ]

  choice :
      (answer : EnisAnswer) (s : Selection) (created eris : List Eri)
      → select_eri_from_exist c answer.enis limits.1 limits.0 ≡ ok s
      → s.eris ++ created ≡ eris
      → Serves info s.need created
      → IsChoice c info limits.0 limits.1 answer eris
  choice answer s created eris sel j v =
      let (picked, picks, budget) = select-within_budget c answer.enis limits.1 limits.0 s sel in
      record {
        s = s;
        created = created;
        selects = sel;
        joined = sym j;
        serves = v;
        free = select-need_free c answer.enis limits.1 limits.0 s sel;
        picked = picked;
        picks = picks;
        budget =
            subst (λ n. s.quota * (n - length picked.selected) ≤ pairs_left limits.1 answer.enis)
              (grind (
                arith,
                length-Serves info s.need created v,
                length-append s.eris created,
                ap length j,
              ))
              budget;
      }

  -- When the interfaces of a node are returned, the node's interfaces were listed; those returned
  -- are the selected ones of that listing followed by one of the instance for each card in need,
  -- in the order of the cards, each such card being one of the instance's that had no owned
  -- interface in RDMA mode; and all but the owned ones in RDMA mode (first of each card) fit, at
  -- the quota of queue pairs each, into the queue pairs left.
  pub select_within-IsChoice :
      (w w' : W) (eris : List Eri)
      → select_within api c info instance_id limits w ≡ done eris w'
      → (answer : EnisAnswer) × (v : W) × (api.describe_network_interfaces
            (by_instance instance_id)
            w
          ≡ done answer v)
        × IsChoice c info limits.0 limits.1 answer eris
  select_within-IsChoice w w' eris h =
      let t = select_within-Stages w w' eris h in
      (
        t.answer,
        t.listed,
        t.lists,
        choice t.answer t.s t.created eris t.selects t.joined (
            create_eri_for_instance-Serves api info t.s.need t.s.quota t.created t.listed t.made
              t.creates),
      )
