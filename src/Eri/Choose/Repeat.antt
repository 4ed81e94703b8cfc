-- ===== src/Eri/Choose/Repeat.antt =====
-- SelectERIs where CreateEriForInstance finds, under the controller's tags, an interface of the node
-- that is selected already.
use alibabacloud_erdma_contr.Prelude.{
  ℕ, ◌≡◌, ap, ◌∙◌, sym, String, ℤ, pos, some, List, ◌∷◌, ◌++◌, arith,
}
use alibabacloud_erdma_contr.Exec.{ok, done}
use alibabacloud_erdma_contr.Exec.Act.{
  ◌>>=◌, pure, lift, after, lift-done, done_value, done_world, arrive, through,
}
use alibabacloud_erdma_contr.Exec.Pure.{deref}
use alibabacloud_erdma_contr.Types.{Eri}
use alibabacloud_erdma_contr.Ecs.{Ecs, Eni, Instance, EnisAnswer, by_instance}
use alibabacloud_erdma_contr.Eri.Client.{EriClient, to_eri}
use alibabacloud_erdma_contr.Eri.Select.{Selection, select_eri_from_exist}
use alibabacloud_erdma_contr.Eri.Create.{
  take_over, create_each, tagged_query, create_eri_for_instance,
}
use alibabacloud_erdma_contr.Eri.Choose.{select_within}
use alibabacloud_erdma_contr.Eri.Choose.Laws.{select_within-Stages}

-- The list starts with the interface.
abbrev StartsWith : Eni → List Eri → Type 0
StartsWith e eris =
    (y : Eri) × (rest : List Eri) × (eris ≡ y ∷ rest) × (e.network_interface_id ≡ some y.id)

id-to_eri :
    (e : Eni) (quota : ℕ) (eri : Eri)
    → to_eri e quota ≡ ok eri
    → e.network_interface_id ≡ some eri.id
unfolding to_eri
id-to_eri e quota eri h = grind arith

ok_value : {A : Type 0} {a b : A} → ok a ≡ ok b → a ≡ b
ok_value h = ground arith

module _ {W : Type 0} (api : Ecs W) (info : Instance) where
  take_over_first :
      (quota card : ℕ) (cards : List ℕ) (e : Eni) (es : List Eni) (w w' : W) (r : List Eri × List ℕ)
      → take_over info quota (e ∷ es) (card ∷ cards) w ≡ done r w'
      → StartsWith e r.0
  unfolding take_over
  take_over_first quota card cards e es w w' r h = elim (through (lift (to_eri e quota) w) _ h) [
    | arrive y v1 e1 h1 ↦ elim (through (lift (deref info.instance_id) v1) _ h1) [
      | arrive id v2 e2 h2 ↦ elim (through (take_over info quota es cards v2) _ h2) [
        | arrive rest v3 e3 h3 ↦ (
          record y { instance_id = id; card_index = pos card },
          rest.0,
          sym (ap (λ (p : List Eri × List ℕ). p.0) (done_value h3)),
          id-to_eri e quota y (lift-done _ e1).0,
        )
      ]
    ]
  ]

  StartsWith-append :
      (e : Eni) (front back eris : List Eri)
      → front ++ back ≡ eris
      → StartsWith e front
      → StartsWith e eris
  StartsWith-append e front back eris j (y, rest, f, i) =
      (y, rest ++ back, sym j ∙ ap (λ l. l ++ back) f, i)

  fill_first :
      (quota card : ℕ) (cards : List ℕ) (e : Eni) (es : List Eni) (w w' : W) (eris : List Eri)
      → after
          (take_over info quota (e ∷ es) (card ∷ cards) w)
          (λ taken. create_each api info quota taken.1 >>= λ created. pure (taken.0 ++ created))
        ≡ done eris w'
      → StartsWith e eris
  fill_first quota card cards e es w w' eris h =
      elim (through (take_over info quota (e ∷ es) (card ∷ cards) w) _ h) [
        | arrive taken v e1 h1 ↦ elim (through (create_each api info quota taken.1 v) _ h1) [
          | arrive created x e2 h2 ↦
              StartsWith-append e taken.0 created eris (done_value h2)
                (take_over_first quota card cards e es w v taken e1)
        ]
      ]

  create_takes_first :
      (quota card : ℕ) (cards : List ℕ) (e : Eni) (es : List Eni) (tagged : EnisAnswer) (w u w' : W)
      (eris : List Eri)
      → api.describe_network_interfaces (tagged_query info) w ≡ done tagged u
      → tagged.enis ≡ e ∷ es
      → create_eri_for_instance api info (card ∷ cards) quota w ≡ done eris w'
      → StartsWith e eris
  unfolding create_eri_for_instance
  create_takes_first quota card cards e es tagged w u w' eris q t h =
      grind (arith, fill_first quota card cards e es)

  -- When the node's interfaces that are selected leave some card to create and the first interface
  -- listed with the controller's tags for the instance has the id of one of the selected, a
  -- SelectERIs that succeeds returns an interface of that id again behind the selected ones.
  pub select_within_repeats :
      (c : EriClient) (instance_id : String) (limits : ℕ × ℤ) (answer tagged : EnisAnswer)
      (s : Selection) (card : ℕ) (cards : List ℕ) (e : Eni) (es : List Eni) (x : Eri)
      (before behind : List Eri) (w v u w' : W) (eris : List Eri)
      → api.describe_network_interfaces (by_instance instance_id) w ≡ done answer v
      → select_eri_from_exist c answer.enis limits.1 limits.0 ≡ ok s
      → s.need ≡ card ∷ cards
      → s.eris ≡ before ++ (x ∷ behind)
      → api.describe_network_interfaces (tagged_query info) v ≡ done tagged u
      → tagged.enis ≡ e ∷ es
      → e.network_interface_id ≡ some x.id
      → select_within api c info instance_id limits w ≡ done eris w'
      → (y : Eri) × (rest : List Eri) × (eris ≡ (before ++ (x ∷ behind)) ++ (y ∷ rest))
        × (y.id ≡ x.id)
  select_within_repeats c instance_id limits answer tagged s card cards e es x before behind w v u
        w' eris lists selects need sel q t same h =
      let g = select_within-Stages api c info instance_id limits w w' eris h in
      let a : (g.answer ≡ answer) = done_value (sym g.lists ∙ lists) in
      let l : (g.listed ≡ v) = done_world (sym g.lists ∙ lists) in
      let same_s : (g.s ≡ s) = ok_value (sym g.selects ∙ (rw a selects)) in
      let made : (create_eri_for_instance api info (card ∷ cards) s.quota v
          ≡ done g.created g.made) =
        rw (same_s, need, l) at g.creates in
      let (y, rest, f, i) =
        create_takes_first s.quota card cards e es tagged v u g.made g.created q t made in
      (y, rest, sym g.joined ∙ grind (arith, same_s, sel, f), grind (arith, i, same))
