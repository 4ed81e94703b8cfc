-- ===== src/Exec/Act.antt =====
-- `Run` as a monad over functions of the world, with the error handlers that the program uses.
use alibabacloud_erdma_contr.Prelude.{◌≡◌, refl, arith, ◌⊎◌, inl, inr}
use alibabacloud_erdma_contr.Exec.{Error, Res, ok, err, panic, Run, done, fail, crash, Exec}

module _ {ℓ κ} {W : Type ℓ} {A : Type κ} where
  abbrev pub pure : A → Exec W A
  pure a w = done a w

  abbrev pub raise : Error → Exec W A
  raise e w = fail e w

  abbrev pub lift : Res A → Exec W A
  lift (ok a) w = done a w
  lift (err e) w = fail e w
  lift panic w = crash w

  -- The world in which a call ends.
  abbrev pub world : Run W A → W
  world (done a w) = w
  world (fail e w) = w
  world (crash w) = w

module _ {ℓ κ μ} {W : Type ℓ} {A : Type κ} {B : Type μ} where
  abbrev pub after : Run W A → (A → Exec W B) → Run W B
  after (done a w) f = f a w
  after (fail e w) f = fail e w
  after (crash w) f = crash w

  infixl 5 ◌>>=◌ ◌>>◌
  abbrev pub ◌>>=◌ : Exec W A → (A → Exec W B) → Exec W B
  ◌>>=◌ m f w = after (m w) f

  abbrev pub ◌>>◌ : Exec W A → Exec W B → Exec W B
  ◌>>◌ m k w = after (m w) (λ _. k)

  -- `v, err := m` where both outcomes go on.
  abbrev pub branch : Run W A → (A → Exec W B) → (Error → Exec W B) → Run W B
  branch (done a w) f h = f a w
  branch (fail e w) f h = h e w
  branch (crash w) f h = crash w

  abbrev pub handle : Exec W A → (A → Exec W B) → (Error → Exec W B) → Exec W B
  handle m f h w = branch (m w) f h

module _ {ℓ κ} {W : Type ℓ} {A : Type κ} where
  -- An error that is returned under a message of its own.
  abbrev pub reword : (Error → Error) → Exec W A → Exec W A
  reword g m = handle m pure (λ e. raise (g e))

-- A bind that ends in `b` went through the value `a` and the world `v`.
pub data Arrives {ℓ κ μ} {W : Type ℓ} {A : Type κ} {B : Type μ} (m : Run W A) (f : A → Exec W B)
    (b : B) (w' : W) : Type (ℓ ⊔ κ ⊔ μ) where
  arrive : (a : A) (v : W) → m ≡ done a v → f a v ≡ done b w' → Arrives m f b w'

pub through {ℓ κ μ} :
    {W : Type ℓ} {A : Type κ} {B : Type μ} (m : Run W A) (f : A → Exec W B) {b : B} {w' : W}
    → after m f ≡ done b w'
    → Arrives m f b w'
through (done a v) f h = arrive a v refl h
through (fail e v) f h = cc
through (crash v) f h = cc

-- A pure step leaves the world alone.
pub lift-done {ℓ κ} :
    {W : Type ℓ} {A : Type κ} (r : Res A) {a : A} {w v : W}
    → lift r w ≡ done a v
    → (r ≡ ok a) × (v ≡ w)
lift-done (ok a) h = grind arith
lift-done (err e) h = cc
lift-done panic h = cc

pub reword-done {ℓ κ} :
    {W : Type ℓ} {A : Type κ} (g : Error → Error) (r : Run W A) {a : A} {v : W}
    → branch r pure (λ e. raise (g e)) ≡ done a v
    → r ≡ done a v
reword-done g (done b w) h = h
reword-done g (fail e w) h = cc
reword-done g (crash w) h = cc

pub done_value {ℓ κ} : {W : Type ℓ} {A : Type κ} {a b : A} {w v : W} → done a w ≡ done b v → a ≡ b
done_value h = ground arith

pub done_world {ℓ κ} : {W : Type ℓ} {A : Type κ} {a b : A} {w v : W} → done a w ≡ done b v → w ≡ v
done_world h = ground arith

-- An error of two steps is one of the first or of the second.
pub fail-then {ℓ κ μ} :
    {W : Type ℓ} {A : Type κ} {B : Type μ} (m : Run W A) (n : Exec W B) {e : Error} {v : W}
    → after m (λ _. n) ≡ fail e v
    → (m ≡ fail e v) ⊎ ((u : W) × (n u ≡ fail e v))
fail-then (done a w) n h = inr (w, h)
fail-then (fail e w) n h = inl (ground arith)
fail-then (crash w) n h = cc

-- A handled call that ends in `b` went on from its value or from its error.
pub through_branch {ℓ κ μ} :
    {W : Type ℓ} {A : Type κ} {B : Type μ} (m : Run W A) (f : A → Exec W B) (g : Error → Exec W B)
    {b : B} {w' : W}
    → branch m f g ≡ done b w'
    → ((a : A) × (v : W) × (m ≡ done a v) × (f a v ≡ done b w'))
      ⊎ ((e : Error) × (v : W) × (m ≡ fail e v) × (g e v ≡ done b w'))
through_branch (done a v) f g h = inl (a, v, refl, h)
through_branch (fail e v) f g h = inr (e, v, refl, h)
through_branch (crash v) f g h = cc
