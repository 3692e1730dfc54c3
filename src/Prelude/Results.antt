-- ===== src/Prelude/Results.antt =====
-- What a Go call can do: return a value with a nil error, return an error, panic, or still be
-- running when the rounds allowed to its loop are used up. Also Go's signed integers.
use Prim.Native.Nat.{ℕ}
use mathlib.Core.Path.{◌≡◌, refl}
use mathlib.Core.Bool.{Bool, false}
use mini_ipfs.Prelude.Tests.{◌==◌}

pub data Result {ℓ κ} (E : Type ℓ) (A : Type κ) : Type (ℓ ⊔ κ) where
  ok : A → Result E A
  err : E → Result E A
  panic : Result E A
  running : Result E A

infixl 5 ◌>>=◌
abbrev pub ◌>>=◌ {ℓ κ μ} :
    {E : Type ℓ} {A : Type κ} {B : Type μ} → Result E A → (A → Result E B) → Result E B
ok a >>= f = f a
err e >>= f = err e
panic >>= f = panic
running >>= f = running

module _ {ℓ κ μ} {E : Type ℓ} {A : Type κ} {B : Type μ} (f : A → Result E B) where
  -- The first call of two that together succeed returned a value.
  pub >>=-eq-ok : (b : B) (m : Result E A) → (m >>= f) ≡ ok b → (a : A) × (f a ≡ ok b) × (m ≡ ok a)
  >>=-eq-ok b (ok a) h = (a, h, refl)
  >>=-eq-ok b (err e) h = cc
  >>=-eq-ok b panic h = cc
  >>=-eq-ok b running h = cc

-- `negsuc n` is -(n + 1).
pub data ℤ : Type 0 where
  pos : ℕ → ℤ
  negsuc : ℕ → ℤ

abbrev pub eq_int : ℤ → ℤ → Bool
eq_int (pos a) (pos b) = a == b
eq_int (negsuc a) (negsuc b) = a == b
eq_int _ _ = false
