-- ===== src/Exec/Stays.antt =====
-- What every step of a run leaves true of the world, its errors and panics included.
use alibabacloud_erdma_contr.Prelude.{◌≡◌, refl, Bool, true, false, if◌then◌else◌}
use alibabacloud_erdma_contr.Exec.{Res, ok, err, panic, Error, Run, done, fail, crash, Exec}
use alibabacloud_erdma_contr.Exec.Act.{
  ◌>>=◌, ◌>>◌, pure, raise, lift, handle, reword, after, branch, world,
}

pub record Stays {ℓ κ μ} {W : Type ℓ} (I : W → Type κ) {A : Type μ} (m : Exec W A)
    : Type (ℓ ⊔ κ) where
  pub stays : (w : W) → I w → I (world (m w))

module _ {ℓ κ μ} {W : Type ℓ} (I : W → Type κ) {A : Type μ} where
  pub Stays-pure : (a : A) → Stays I (pure a)
  Stays-pure a = record { stays = λ w i. i }

  pub Stays-raise : (e : Error) → Stays I {A = A} (raise e)
  Stays-raise e = record { stays = λ w i. i }

  pub Stays-lift : (r : Res A) → Stays I (lift r)
  Stays-lift (ok a) = record { stays = λ w i. i }
  Stays-lift (err e) = record { stays = λ w i. i }
  Stays-lift panic = record { stays = λ w i. i }

  pub Stays-if : (b : Bool) (m n : Exec W A) → Stays I m → Stays I n → Stays I (if b then m else n)
  Stays-if true m n h k = h
  Stays-if false m n h k = k

module _ {ℓ κ μ ν} {W : Type ℓ} (I : W → Type κ) {A : Type μ} {B : Type ν} where
  Stays-after :
      (m : Run W A) (f : A → Exec W B)
      → I (world m)
      → ((a : A) → Stays I (f a))
      → I (world (after m f))
  Stays-after (done a w) f h k = (k a).stays w h
  Stays-after (fail e w) f h k = h
  Stays-after (crash w) f h k = h

  pub Stays-bind :
      (m : Exec W A) (f : A → Exec W B) → Stays I m → ((a : A) → Stays I (f a)) → Stays I (m >>= f)
  Stays-bind m f h k = record { stays = λ w i. Stays-after (m w) f (h.stays w i) k }

  Stays-after-result :
      (m : Run W A) (f : A → Exec W B)
      → I (world m)
      → ((a : A) (v : W) → m ≡ done a v → Stays I (f a))
      → I (world (after m f))
  Stays-after-result (done a w) f h k = (k a w refl).stays w h
  Stays-after-result (fail e w) f h k = h
  Stays-after-result (crash w) f h k = h

  -- The rest may use what the step answers in a world that has the property.
  pub Stays-bind-result :
      (m : Exec W A) (f : A → Exec W B)
      → Stays I m
      → ((a : A) (w v : W) → I w → m w ≡ done a v → Stays I (f a))
      → Stays I (m >>= f)
  Stays-bind-result m f h k = record {
    stays = λ w i. Stays-after-result (m w) f (h.stays w i) (λ a v e. k a w v i e);
  }

  pub Stays-then : (m : Exec W A) (n : Exec W B) → Stays I m → Stays I n → Stays I (m >> n)
  Stays-then m n h k = record { stays = λ w i. Stays-after (m w) (λ a. n) (h.stays w i) (λ a. k) }

  Stays-branch :
      (m : Run W A) (f : A → Exec W B) (g : Error → Exec W B)
      → I (world m)
      → ((a : A) → Stays I (f a))
      → ((e : Error) → Stays I (g e))
      → I (world (branch m f g))
  Stays-branch (done a w) f g h k l = (k a).stays w h
  Stays-branch (fail e w) f g h k l = (l e).stays w h
  Stays-branch (crash w) f g h k l = h

  pub Stays-handle :
      (m : Exec W A) (f : A → Exec W B) (g : Error → Exec W B)
      → Stays I m
      → ((a : A) → Stays I (f a))
      → ((e : Error) → Stays I (g e))
      → Stays I (handle m f g)
  Stays-handle m f g h k l = record { stays = λ w i. Stays-branch (m w) f g (h.stays w i) k l }

module _ {ℓ κ μ} {W : Type ℓ} (I : W → Type κ) {A : Type μ} where
  pub Stays-reword : (g : Error → Error) (m : Exec W A) → Stays I m → Stays I (reword g m)
  Stays-reword g m h = Stays-handle I m pure _ h (Stays-pure I) (λ e. Stays-raise I (g e))

pub ruleset stays_rules = (
  Stays-pure, Stays-raise, Stays-lift, Stays-if, Stays-bind, Stays-then, Stays-handle, Stays-reword,
)
