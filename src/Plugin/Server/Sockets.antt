-- ===== src/Plugin/Server/Sockets.antt =====
-- The sockets that cleanup of internal/deviceplugin/deviceplugin.go removes.
use alibabacloud_erdma_contr.Prelude.{
  ◌≡◌, refl, ap, ◌∙◌, arith, inl, inr, Bool, true, not, ◌||◌, List, [], ◌∷◌, ◌++◌, Bool-cases,
  Option-cases, none, some, subst, ◌⊎◌, false, keep, any, All, All-map, Text, codes, text_eq,
  text_eq_refl, text_eq_iff,
}
use alibabacloud_erdma_contr.Exec.{Error, done}
use alibabacloud_erdma_contr.Plugin.Server.{
  Os, Server, is_erdma_sock, drop_prefix, unlink_socks, cleanup,
}

or_true : (a b : Bool) → b ≡ true → (a || b) ≡ true
or_true a b h = ground arith

-- The names that the plugin makes of the time, `%d-erdma.sock`, are among those removed.
pub is_erdma_sock-append : (time : Text) → is_erdma_sock (time ++ codes "-erdma.sock") ≡ true
unfolding is_erdma_sock drop_prefix
is_erdma_sock-append [] = refl
is_erdma_sock-append (c ∷ time) = or_true _ _ (is_erdma_sock-append time)

abbrev text_in : List Text → Text → Bool
text_in l t = any (λ s. text_eq s t) l

abbrev is_other : Text → Bool
is_other t = not (is_erdma_sock t)

text_in-All : (l : List Text) → All (λ t. text_in l t ≡ true) l
text_in-All [] = tt
text_in-All (t ∷ l) =
    (ground (arith, text_eq_refl t), All-map _ _ l (λ s h. ground arith) (text_in-All l))

-- To remove a socket leaves the other files.
keep-other :
    (n : Text) (l : List Text)
    → is_erdma_sock n ≡ true
    → keep is_other (keep (λ t. not (text_eq n t)) l) ≡ keep is_other l
keep-other n [] h = refl
keep-other n (t ∷ l) h = ground (arith, text_eq_iff n t, ap is_erdma_sock, keep-other n l h)

All-keep {ℓ κ μ} :
    {A : Type ℓ} (P : A → Type κ) (Q : A → Type μ) (p : A → Bool) (l : List A)
    → ((a : A) → p a ≡ true → P a → Q a)
    → All P l
    → All Q (keep p l)
All-keep P Q p [] f h = tt
All-keep P Q p (a ∷ l) f h = elim (Bool-cases (p a)) [
  | inl b ↦ rw b (f a b h.0, All-keep P Q p l f h.1)
  | inr b ↦ rw b (All-keep P Q p l f h.1)
]

module _ {W : Type 0} (sys : Os W) where
  -- A call of unlink for the name has answered with an error.
  abbrev pub Stuck : Text → Type 0
  Stuck t = (w : W) × (e : Error) × ((sys.unlink t w).0 ≡ some e)

  -- A file of the directory while the names `l` are still to be looked at.
  abbrev Left : List Text → Text → Type 0
  Left l t = (is_erdma_sock t ≡ false) ⊎ (Stuck t ⊎ (text_in l t ≡ true))

  looked_at :
      (n t : Text) (l : List Text)
      → ((is_erdma_sock n ≡ false) ⊎ Stuck n) ⊎ (text_eq n t ≡ false)
      → Left (n ∷ l) t
      → Left l t
  looked_at n t l c (inl other) = inl other
  looked_at n t l c (inr (inl stuck)) = inr (inl stuck)
  looked_at n t l (inr apart) (inr (inr here)) = inr (inr (ground arith))
  looked_at n t l (inl c) (inr (inr here)) = elim (Bool-cases (text_eq n t)) [
    | inl same ↦
        let names : n ≡ t = ground (arith, text_eq_iff n t, same) in
        elim c [
          | inl other ↦ inl (subst (λ x. is_erdma_sock x ≡ false) names other)
          | inr stuck ↦ inr (inl (subst Stuck names stuck))
        ]
    | inr apart ↦ inr (inr (ground arith))
  ]

  module _ (names : W → List Text)
      (unlinks : (name : Text) (w : W)
        → (sys.unlink name w).0 ≡ none
        → names ((sys.unlink name w).1) ≡ keep (λ t. not (text_eq name t)) (names w))
      (refuses : (name : Text) (w : W) (e : Error)
        → (sys.unlink name w).0 ≡ some e
        → names ((sys.unlink name w).1) ≡ names w) where
    unlink_socks_lem :
        (l : List Text) (w : W)
        → All (Left l) (names w)
        → (keep is_other (names (unlink_socks sys l w)) ≡ keep is_other (names w))
          × All (Left []) (names (unlink_socks sys l w))
    unfolding unlink_socks
    unlink_socks_lem [] w h = (refl, h)
    unlink_socks_lem (n ∷ l) w h = elim (Bool-cases (is_erdma_sock n)) [
      | inl sock ↦ elim (Option-cases ((sys.unlink n w).0)) [
        | inl removed ↦
            let same = unlinks n w removed in
            let (k, a) = unlink_socks_lem l ((sys.unlink n w).1) (
              rw same (
                All-keep (Left (n ∷ l)) (Left l) (λ t. not (text_eq n t)) (names w)
                  (λ t apart. looked_at n t l (inr (ground arith))) h)) in
            rw (sock, unlink_socks) (k ∙ ap (keep is_other) same ∙ keep-other n (names w) sock, a)
        | inr (e, refused) ↦
            let same = refuses n w e refused in
            let (k, a) = unlink_socks_lem l ((sys.unlink n w).1) (
              rw same (
                All-map (Left (n ∷ l)) (Left l) (names w)
                  (λ t. looked_at n t l (inl (inr (w, e, refused)))) h)) in
            rw (sock, unlink_socks) (k ∙ ap (keep is_other) same, a)
      ]
      | inr other ↦
          rw (other, unlink_socks)
            (unlink_socks_lem l w (
              All-map (Left (n ∷ l)) (Left l) (names w) (λ t. looked_at n t l (inl (inl other))) h))
    ]

    cleanup-done :
        (p q : Server W) (u : Unit {0})
        → cleanup sys p ≡ done u q
        → (l : List Text) × ((sys.read_dir p.os).0 ≡ inr l)
          × (q.os ≡ unlink_socks sys l ((sys.read_dir p.os).1))
    unfolding cleanup
    cleanup-done p q u h = ground arith

    seen : (t : Text) → Left [] t → (is_erdma_sock t ≡ false) ⊎ Stuck t
    seen t (inl other) = inl other
    seen t (inr (inl stuck)) = inr stuck
    seen t (inr (inr never)) = cc

    -- A cleanup that succeeds keeps in the directory, in their order, all files whose names do not
    -- match the pattern, and of the others only such as a call of unlink failed for; if a call of
    -- unlink that succeeds removes the name it is given and no other, one that fails removes none, and to read the
    -- directory lists its names and changes none.
    pub cleanup_removes :
        ((w : W)
          → (l : List Text) → (sys.read_dir w).0 ≡ inr l
          → (l ≡ names w) × (names ((sys.read_dir w).1) ≡ names w))
        → (p q : Server W) (u : Unit {0}) → cleanup sys p ≡ done u q
        → (keep is_other (names q.os) ≡ keep is_other (names p.os))
          × All (λ t. (is_erdma_sock t ≡ false) ⊎ Stuck t) (names q.os)
    cleanup_removes reads p q u h =
        let (l, r, o) = cleanup-done p q u h in
        let (names_l, names_r) = reads p.os l r in
        let start : All (Left l) (names ((sys.read_dir p.os).1)) =
          rw (names_r, ← names_l) (All-map _ _ l (λ t m. inr (inr m)) (text_in-All l)) in
        let (k, a) = unlink_socks_lem l ((sys.read_dir p.os).1) start in
        rw o (k ∙ ap (keep is_other) names_r, All-map (Left []) _ _ seen a)
