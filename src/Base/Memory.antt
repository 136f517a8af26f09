-- ===== src/Base/Memory.antt =====
-- Memory as a total function of the address, so that a read past the end of an array is a read of
-- what lies there.
use Prim.Native.Nat.{ℕ}
use mathlib.Core.Path.{◌≡◌}
use mathlib.Core.Logic.{◌≢◌}
use native.Mathlib.Omega.{arith}
use amog_os.Base.Tests.{◌==◌, if◌then◌else◌}

module _ {ℓ} {A : Type ℓ} where
  abbrev pub update : (ℕ → A) → ℕ → A → ℕ → A
  update m i v j = if i == j then v else m j

  pub update_self : (m : ℕ → A) (i : ℕ) (v : A) → update m i v i ≡ v
  update_self m i v = ground arith

  pub update_ne : (m : ℕ → A) (i j : ℕ) (v : A) → i ≢ j → update m i v j ≡ m j
  update_ne m i j v h = ground arith
