-- ===== src/Base/Bits/Digits.antt =====
-- `&` and `|` by their lowest binary digit. The native operations run on fuel, which goes here.
use Prim.Native.Nat.{
  ℕ, zero, suc, ◌+◌, ◌*◌, ◌/◌, ◌%◌, ◌≤◌, ◌<◌, min, max, digits, bit_and, bit_or, bit_and-bitwise,
  bit_or-bitwise,
}
use mathlib.Core.Path.{◌≡◌, refl}
use native.Mathlib.Omega.{arith}

module _ (end : ℕ → ℕ) (join : ℕ → ℕ → ℕ) where
  -- Fuel `f` that reaches down to zero gives the digits that any larger fuel gives.
  spare_fuel : (f g a b : ℕ) → a ≤ f → f ≤ g → digits end join g a b ≡ digits end join f a b
  spare_fuel zero zero a b p q = refl
  spare_fuel zero (suc g) zero b p q = refl
  spare_fuel zero (suc g) (suc a) b p q = absurd (omega arith)
  spare_fuel (suc f) zero a b p q = absurd (omega arith)
  spare_fuel (suc f) (suc g) zero b p q = refl
  spare_fuel (suc f) (suc g) (suc a) b p q =
      rw (spare_fuel f g (suc a / 2) (b / 2) (omega arith) (omega arith))

  next_digit :
      (a b : ℕ)
      → digits end join (suc a) (suc a) b
        ≡ digits end join (suc a / 2) (suc a / 2) (b / 2) * 2 + join (suc a % 2) (b % 2)
  next_digit a b = rw (spare_fuel (suc a / 2) a (suc a / 2) (b / 2) (omega arith) (omega arith))

pub bit_and_digit : (a b : ℕ) → bit_and a b ≡ bit_and (a / 2) (b / 2) * 2 + min (a % 2) (b % 2)
bit_and_digit zero b = simp bit_and-bitwise (omega arith)
bit_and_digit (suc a) b = simp bit_and-bitwise (next_digit (λ _. 0) min a b)

pub bit_or_digit : (a b : ℕ) → bit_or a b ≡ bit_or (a / 2) (b / 2) * 2 + max (a % 2) (b % 2)
bit_or_digit zero b = simp bit_or-bitwise (omega arith)
bit_or_digit (suc a) b = simp bit_or-bitwise (next_digit (λ y. y) max a b)

bit_and_zero_below : (n a : ℕ) → a < n → bit_and a 0 ≡ 0
bit_and_zero_below zero a h = absurd (omega arith)
bit_and_zero_below (suc n) zero h = refl
bit_and_zero_below (suc n) (suc a) h =
    omega (arith, bit_and_digit (suc a) 0, bit_and_zero_below n (suc a / 2) (omega arith))

pub bit_and-zero : (a : ℕ) → bit_and a 0 ≡ 0
bit_and-zero a = bit_and_zero_below (suc a) a (omega arith)

bit_or_zero_below : (n a : ℕ) → a < n → bit_or a 0 ≡ a
bit_or_zero_below zero a h = absurd (omega arith)
bit_or_zero_below (suc n) zero h = refl
bit_or_zero_below (suc n) (suc a) h =
    omega (arith, bit_or_digit (suc a) 0, bit_or_zero_below n (suc a / 2) (omega arith))

pub bit_or-zero : (a : ℕ) → bit_or a 0 ≡ a
bit_or-zero a = bit_or_zero_below (suc a) a (omega arith)
