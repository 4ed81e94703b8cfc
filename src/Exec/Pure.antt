-- ===== src/Exec/Pure.antt =====
-- `Res` as a monad: the chains of `if err != nil { return err }` in code without effects.
use alibabacloud_erdma_contr.Prelude.{
  arith, ◌≡◌, refl, ◌⊎◌, inl, inr, Option, none, some, List, [], ◌∷◌,
}
use alibabacloud_erdma_contr.Exec.{Error, Res, ok, err, panic}

infixl 5 ◌>>=◌ ◌>>◌
abbrev pub ◌>>=◌ {ℓ κ} : {A : Type ℓ} {B : Type κ} → Res A → (A → Res B) → Res B
ok a >>= f = f a
err e >>= f = err e
panic >>= f = panic

abbrev pub ◌>>◌ {ℓ κ} : {A : Type ℓ} {B : Type κ} → Res A → Res B → Res B
m >> k = m >>= λ _. k

-- `*p`
abbrev pub deref {ℓ} : {A : Type ℓ} → Option A → Res A
deref none = panic
deref (some a) = ok a

-- A loop that stops at the first error or panic.
unfoldable pub map_res {ℓ κ} : {A : Type ℓ} {B : Type κ} → (A → Res B) → List A → Res (List B)
map_res f [] = ok []
map_res f (x ∷ xs) = do y ← f x; ys ← map_res f xs; ok (y ∷ ys)

pub ok_value {ℓ} : {A : Type ℓ} {a b : A} → ok a ≡ ok b → a ≡ b
ok_value e = ground arith

-- A bind that ends in `b` went through the value `a`.
pub data Through {ℓ κ} {A : Type ℓ} {B : Type κ} (m : Res A) (f : A → Res B) (b : B)
    : Type (ℓ ⊔ κ) where
  via : (a : A) → m ≡ ok a → f a ≡ ok b → Through m f b

pub through {ℓ κ} :
    {A : Type ℓ} {B : Type κ} (m : Res A) (f : A → Res B) {b : B} → (m >>= f) ≡ ok b → Through m f b
through (ok a) f h = via a refl h
through (err e) f h = cc
through panic f h = cc

abbrev pub IsOk {ℓ} : {A : Type ℓ} → Res A → Type 0
IsOk (ok a) = Unit {0}
IsOk _ = ⊥

-- A value that is returned meets `P`.
abbrev pub Post {ℓ} : {A : Type ℓ} → (A → Type 0) → Res A → Type 0
Post P (ok a) = P a
Post P _ = Unit {0}

pub Post-ok {ℓ} : {A : Type ℓ} (P : A → Type 0) (r : Res A) {a : A} → r ≡ ok a → Post P r → P a
Post-ok P r e p = rw e at p

pub Post-bind {ℓ κ} :
    {A : Type ℓ} {B : Type κ} (P : A → Type 0) (Q : B → Type 0) (m : Res A) (f : A → Res B)
    → Post P m
    → ((a : A) → P a → Post Q (f a))
    → Post Q (m >>= f)
Post-bind P Q (ok a) f h k = k a h
Post-bind P Q (err e) f h k = tt
Post-bind P Q panic f h k = tt

pub IsOk-bind {ℓ κ} :
    {A : Type ℓ} {B : Type κ} (m : Res A) (f : A → Res B)
    → IsOk m
    → ((a : A) → IsOk (f a))
    → IsOk (m >>= f)
IsOk-bind (ok a) f h k = k a
IsOk-bind (err e) f h k = absurd h
IsOk-bind panic f h k = absurd h

pub Res-cases {ℓ} :
    {A : Type ℓ} (r : Res A) → ((a : A) × (r ≡ ok a)) ⊎ (((e : Error) × (r ≡ err e)) ⊎ (r ≡ panic))
Res-cases (ok a) = inl (a, refl)
Res-cases (err e) = inr (inl (e, refl))
Res-cases panic = inr (inr refl)
