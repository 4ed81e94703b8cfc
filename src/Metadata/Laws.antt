-- ===== src/Metadata/Laws.antt =====
-- The loop of getWithToken ends after two rounds, within a bound of requests.
use alibabacloud_erdma_contr.Prelude.{
  ℕ, zero, suc, ◌+◌, ◌*◌, ◌≤◌, ◌≡◌, ◌≢◌, refl, sym, ap, ◌∙◌, arith, inl, inr, String, Bool-cases,
  true, false, Option, Option-cases, none, some, Text,
}
use alibabacloud_erdma_contr.Metadata.{
  Http, MetaError, Answer, got, failed, Meta, with_retry_steps, with_retry, backoff_steps,
  keep_token, get_token, ask_with, ask, round, token_refused, get_with_token_loop, rounds,
  get_with_token,
}

of_some :
    {W : Type 0} (r : Answer × Meta W) {answer : Answer} {m : Meta W}
    → some r ≡ some (answer, m)
    → m ≡ r.1
of_some r h = ground arith

module _ {W : Type 0} (http : Http W) where
  last_round :
      (url : Text) (m : Meta W) → get_with_token_loop http 1 true url m ≡ some (round http url m)
  unfolding get_with_token_loop
  last_round url m = ground arith

  -- Two rounds are enough: with more fuel the loop does the same, and with two rounds it returns an
  -- answer.
  pub get_with_token_ends :
      (fuel : ℕ) (url : Text) (m : Meta W)
      → (get_with_token_loop http (rounds + fuel) false url m ≡ get_with_token http url m)
        × (get_with_token http url m ≢ none)
  unfolding get_with_token get_with_token_loop
  get_with_token_ends fuel url m = elim (Bool-cases (token_refused http url m)) [
    | inl b ↦ ground arith
    | inr b ↦ ground arith
  ]

  module _ (count : W → ℕ)
      (counts : (method : String) (url : Text) (header : String × Text) (w : W)
        → count ((http.send method url header w).1) ≡ suc (count w)) where
    steps_bound :
        (steps : ℕ) (url : Text) (header : String × Text) (inner : Option MetaError) (w : W)
        → count ((with_retry_steps http steps url header inner w).1) ≤ steps + count w
    unfolding with_retry_steps
    steps_bound zero url header inner w = omega arith
    steps_bound (suc steps) url header inner w = grind (arith, steps_bound steps url header, counts)

    keep_token-world : (r : Answer × W) → ((keep_token http r).1).world ≡ r.1
    unfolding keep_token
    keep_token-world (got t, w) = refl
    keep_token-world (failed e, w) = refl

    get_token_bound :
        (m : Meta W) → count ((get_token http m).1).world ≤ backoff_steps + count m.world
    unfolding get_token with_retry
    get_token_bound m = elim (Option-cases m.token) [
      | inl n ↦ rw (n, keep_token-world) (steps_bound backoff_steps _ _ none m.world)
      | inr t ↦ rw t.1 (omega arith)
    ]

    ask_bound :
        (url token : Text) (m : Meta W)
        → count ((ask http url token m).1).world ≤ backoff_steps + count m.world
    unfolding ask with_retry
    ask_bound url token m = steps_bound backoff_steps url _ none m.world

    ask_with_bound :
        (url : Text) (r : Answer × Meta W)
        → count ((ask_with http url r).1).world ≤ backoff_steps + count (r.1).world
    unfolding ask_with
    ask_with_bound url (got t, m) = ask_bound url t m
    ask_with_bound url (failed e, m) = omega arith

    round_bound :
        (url : Text) (m : Meta W)
        → count ((round http url m).1).world ≤ 2 * backoff_steps + count m.world
    unfolding round
    round_bound url m = omega (arith, get_token_bound m, ask_with_bound url (get_token http m))

    -- A call of `get_with_token` makes at most 16 requests: two rounds, of a request for the token
    -- and one for the value, each sent at most four times. `count` is any count of the requests.
    get_with_token_bound :
        (url : Text) (m m' : Meta W) (answer : Answer)
        → get_with_token http url m ≡ some (answer, m')
        → count m'.world ≤ 16 + count m.world
    unfolding get_with_token get_with_token_loop
    get_with_token_bound url m m' answer h = elim (Bool-cases (token_refused http url m)) [
      | inl b ↦
          let m2 : Meta W = record { token = none; world = ((round http url m).1).world } in
          let e : m' ≡ (round http url m2).1 =
            of_some (round http url m2) (sym (last_round url m2) ∙ (rw b at h)) in
          omega (arith, round_bound url m, round_bound url m2, ap (λ (x : Meta W). count x.world) e)
      | inr b ↦
          let e : m' ≡ (round http url m).1 = of_some (round http url m) (rw b at h) in
          omega (arith, round_bound url m, ap (λ (x : Meta W). count x.world) e)
    ]
