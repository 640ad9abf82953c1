-- ===== src/Base/Bits.antt =====
-- The bits of a word, and what `&`, `|`, `!` and `trailing_zeros` do to them, at every width.
mod Digits
use Digits.{bit_and_digit, bit_or_digit, bit_and-zero, bit_or-zero}
use Prim.Native.Nat.{
  ℕ, zero, suc, ◌+◌, ◌-◌, ◌*◌, ◌/◌, ◌%◌, ◌^◌, ◌≤◌, ◌<◌, min, max, bit_and, bit_or, bit_and-bitwise,
  bit_or-bitwise,
}
use mathlib.Core.Path.{◌≡◌, refl, ap, ◌∙◌}
use mathlib.Core.Logic.{◌≢◌, inl, inr}
use native.Mathlib.Nat.{pow-suc, pow-succ', one-le-pow, mul_assoc, div-div-eq-div-mul}
use native.Mathlib.Omega.{arith}
use kfs.Base.Tests.{◌==◌, if◌then◌else◌, Bool-cases}

-- Bit `j` of `a`, as 0 or 1.
pub bit_at : ℕ → ℕ → ℕ
bit_at zero a = a % 2
bit_at (suc j) a = bit_at j (a / 2)

pub bit_at-lt : (j a : ℕ) → bit_at j a < 2
unfolding bit_at
bit_at-lt zero a = omega arith
bit_at-lt (suc j) a = bit_at-lt j (a / 2)

pub bit_at-zero : (j : ℕ) → bit_at j 0 ≡ 0
unfolding bit_at
bit_at-zero zero = refl
bit_at-zero (suc j) = bit_at-zero j

pub bit_at-bit_and : (j a b : ℕ) → bit_at j (bit_and a b) ≡ min (bit_at j a) (bit_at j b)
unfolding bit_at
bit_at-bit_and zero a b = omega (arith, bit_and_digit a b)
bit_at-bit_and (suc j) a b = ground (arith, bit_and_digit a b, bit_at-bit_and j (a / 2) (b / 2))

pub bit_at-bit_or : (j a b : ℕ) → bit_at j (bit_or a b) ≡ max (bit_at j a) (bit_at j b)
unfolding bit_at
bit_at-bit_or zero a b = omega (arith, bit_or_digit a b)
bit_at-bit_or (suc j) a b = ground (arith, bit_or_digit a b, bit_at-bit_or j (a / 2) (b / 2))

pub bit_at-pow : (j k : ℕ) → bit_at j (2 ^ k) ≡ (if j == k then 1 else 0)
unfolding bit_at
bit_at-pow zero zero = refl
bit_at-pow zero (suc k) = ground (arith, pow-suc 2 k)
bit_at-pow (suc j) zero = ground (arith, bit_at-zero j)
bit_at-pow (suc j) (suc k) = ground (arith, pow-suc 2 k, bit_at-pow j k)

-- The complement within `n` bits.
pub bit_at_complement : (n j m : ℕ) → m < 2 ^ n → j < n → bit_at j (2 ^ n - 1 - m) ≡ 1 - bit_at j m
unfolding bit_at
bit_at_complement zero j m fits below = absurd (omega arith)
bit_at_complement (suc n) zero m fits below = omega (arith, pow-suc 2 n)
bit_at_complement (suc n) (suc j) m fits below =
    ground (arith, pow-suc 2 n, bit_at_complement n j (m / 2))

bit_and-double : (a m : ℕ) → bit_and a (m * 2) ≡ bit_and (a / 2) m * 2
bit_and-double a m = ground (arith, bit_and_digit a (m * 2))

-- A mask that is shifted left by `k`.
pub bit_and_shifted : (k a m : ℕ) → bit_and a (m * 2 ^ k) ≡ bit_and (a / 2 ^ k) m * 2 ^ k
bit_and_shifted zero a m = ground arith
bit_and_shifted (suc k) a m =
    let halved : m * 2 ^ suc k ≡ m * 2 ^ k * 2 = rw (pow-suc, mul_assoc) in
    let quotient : a / 2 ^ suc k ≡ a / 2 / 2 ^ k = rw (pow-succ', ← div-div-eq-div-mul) in
    rw (halved, quotient)
      (omega (
        arith,
        bit_and-double a (m * 2 ^ k),
        bit_and_shifted k (a / 2) m,
        ap (λ (t : ℕ). bit_and (a / 2 / 2 ^ k) m * t) (pow-suc 2 k),
      ))

bit_and_low_fields : (k q r : ℕ) → r < 2 ^ k → bit_and (q * 2 ^ k + r) (2 ^ k - 1) ≡ r
bit_and_low_fields zero q r fits = ground (arith, bit_and-zero (q * 2 ^ 0 + r))
bit_and_low_fields (suc k) q r fits = ground (
  arith,
  bit_and_digit (q * 2 ^ suc k + r) (2 ^ suc k - 1),
  ap (λ (t : ℕ). q * t) (pow-suc 2 k),
  pow-suc 2 k,
  one-le-pow k 2,
  bit_and_low_fields k q (r / 2),
)

-- A mask of the `k` low bits is a remainder.
pub bit_and_low : (k a : ℕ) → bit_and a (2 ^ k - 1) ≡ a % 2 ^ k
bit_and_low k a = ground (arith, one-le-pow k 2, bit_and_low_fields k (a / 2 ^ k) (a % 2 ^ k))

pub bit_or_fields : (k q r : ℕ) → r < 2 ^ k → bit_or (q * 2 ^ k) r ≡ q * 2 ^ k + r
bit_or_fields zero q r fits = ground (arith, bit_or-zero q)
bit_or_fields (suc k) q r fits = ground (
  arith,
  bit_or_digit (q * 2 ^ suc k) r,
  ap (λ (t : ℕ). q * t) (pow-suc 2 k),
  pow-suc 2 k,
  bit_or_fields k q (r / 2),
)

pub bit_at-div : (k a : ℕ) → bit_at k a ≡ a / 2 ^ k % 2
unfolding bit_at
bit_at-div zero a = omega arith
bit_at-div (suc k) a = rw (pow-succ', ← div-div-eq-div-mul) (bit_at-div k (a / 2))

-- `a & (1 << k)`.
pub bit_and-pow : (k a : ℕ) → bit_and a (2 ^ k) ≡ bit_at k a * 2 ^ k
bit_and-pow k a = ground (arith, bit_at-div k a, bit_and_shifted k a 1, bit_and_low 1 (a / 2 ^ k))

pub bit_and-lt : (n a b : ℕ) → a < 2 ^ n → bit_and a b < 2 ^ n
bit_and-lt zero a b h = let e : a ≡ 0 = omega arith in rw e (simp bit_and-bitwise (omega arith))
bit_and-lt (suc n) a b h = omega (
  arith,
  bit_and_digit a b,
  pow-suc 2 n,
  bit_and-lt n (a / 2) (b / 2) (omega (arith, pow-suc 2 n)),
)

pub bit_and-none : (b : ℕ) → bit_and 0 b ≡ 0
bit_and-none b = simp bit_and-bitwise

pub bit_or-lt : (n a b : ℕ) → a < 2 ^ n → b < 2 ^ n → bit_or a b < 2 ^ n
bit_or-lt zero a b h k =
    let e : a ≡ 0 = omega arith in let e' : b ≡ 0 = omega arith in rw (e, e') (omega arith)
bit_or-lt (suc n) a b h k =
    ground (arith, bit_or_digit a b, pow-suc 2 n, bit_or-lt n (a / 2) (b / 2))

-- The core library's `u32::trailing_zeros`, over a word of `n` bits.
unfoldable pub trailing_zeros : ℕ → ℕ → ℕ
trailing_zeros zero a = 0
trailing_zeros (suc n) a = if a % 2 == 1 then 0 else suc (trailing_zeros n (a / 2))

clear_below_suc :
    (t a : ℕ)
    → a % 2 ≡ 0
    → ((j : ℕ) → j < t → bit_at j (a / 2) ≡ 0)
    → (j : ℕ) → j < suc t
    → bit_at j a ≡ 0
unfolding bit_at
clear_below_suc t a e clear zero h = e
clear_below_suc t a e clear (suc j) h = clear j (omega arith)

-- In a word that is not 0 it finds the lowest bit that is set.
pub trailing_zeros_lem :
    (n a : ℕ)
    → a < 2 ^ n
    → a ≢ 0
    → (trailing_zeros n a < n)
      × (bit_at (trailing_zeros n a) a ≡ 1)
      × ((j : ℕ) → j < trailing_zeros n a → bit_at j a ≡ 0)
unfolding trailing_zeros bit_at
trailing_zeros_lem zero a fits ne = absurd (ne (omega arith))
trailing_zeros_lem (suc n) a fits ne = elim (Bool-cases (a % 2 == 1)) [
  | inl odd ↦ rw odd (omega arith, ground arith, λ j h. absurd (omega arith))
  | inr even ↦
      let e : a % 2 ≡ 0 = ground arith in
      let (below, hit, clear) =
        trailing_zeros_lem n (a / 2) (omega (arith, pow-suc 2 n)) (λ z. ne (omega arith)) in
      rw even (omega arith, hit, clear_below_suc _ _ e clear)
]

pub bit_or_one : (a : ℕ) → bit_or a 1 ≡ a / 2 * 2 + 1
bit_or_one a = omega (arith, bit_or_digit a 1, bit_or-zero (a / 2))

bit_or-none : (b : ℕ) → bit_or 0 b ≡ b
bit_or-none b = simp bit_or-bitwise

pub bit_or_above : (k r q : ℕ) → r < 2 ^ k → bit_or r (q * 2 ^ k) ≡ q * 2 ^ k + r
bit_or_above zero r q fits =
    let e : r ≡ 0 = omega arith in rw e (bit_or-none (q * 2 ^ 0) ∙ omega arith)
bit_or_above (suc k) r q fits = ground (
  arith,
  bit_or_digit r (q * 2 ^ suc k),
  ap (λ (t : ℕ). q * t) (pow-suc 2 k),
  pow-suc 2 k,
  bit_or_above k (r / 2) q,
)
