-- ===== src/Exec.antt =====
-- Go functions that return a value and an error, with and without effects on a world `W`: what the
-- cloud, the cluster, the kernel or the file system hold. A nil dereference or an index out of
-- range is a panic, and is an outcome too. `fmt.Errorf(format, …)` is `errorf format args`, and a
-- `%w` or a printed inner error is `wrap`.
pub mod Pure
pub mod Act
pub mod Stays
use alibabacloud_erdma_contr.Prelude.{String, List}

pub data Error : Type 0 where
  remote : String → Error
  not_found : String → Error
  errorf : String → List String → Error
  wrap : String → List String → Error → Error

-- The outcome of code that reads nothing but its arguments.
pub data Res {ℓ} (A : Type ℓ) : Type ℓ where
  ok : A → Res A
  err : Error → Res A
  panic : Res A

-- The outcome of code that acts on a world, with the world that it leaves.
pub data Run {ℓ κ} (W : Type ℓ) (A : Type κ) : Type (ℓ ⊔ κ) where
  done : A → W → Run W A
  fail : Error → W → Run W A
  crash : W → Run W A

abbrev pub Exec {ℓ κ} : Type ℓ → Type κ → Type (ℓ ⊔ κ)
Exec W A = W → Run W A
