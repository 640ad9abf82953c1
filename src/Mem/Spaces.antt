-- ===== src/Mem/Spaces.antt =====
-- The layout of kernel/src/mem.rs against `space_of`, `is_kernel` and `is_demand`.
use kfs.Base.{
  ℕ, ◌+◌, ◌-◌, ◌*◌, ◌/◌, ◌^◌, ◌≤◌, ◌<◌, ◌≡◌, refl, true, false, List, [], ◌∷◌, ltb, arith, ap, ◌∙◌,
}
use Prim.{Unit, tt}
use kfs.Base.Bits.{bit_and-lt, bit_and_shifted, bit_and_low}
use kfs.Mem.{
  demand_base, demand_end, kernel_space, kernel_phys, Named, layout, space_of, is_kernel, is_demand,
  page_of,
}

-- Each range of the list begins after the one before it, and lies in the space that it names.
pub Ordered : ℕ → List Named → Type 0
Ordered from [] = Unit {0}
Ordered from (n ∷ ns) =
    (from ≤ n.base)
    × (n.base ≤ n.last)
    × ((a : ℕ) → n.base ≤ a → a ≤ n.last → space_of a ≡ n.space)
    × Ordered (n.last + 1) ns

-- The ranges of LAYOUT stand in order and do not overlap, and every address of each lies in the
-- space that the range is said to be in.
pub layout-Ordered : Ordered 0 layout
unfolding Ordered space_of
layout-Ordered = (
  omega arith,
  omega arith,
  λ a l u. ground arith,
  (
    omega arith,
    omega arith,
    λ a l u. ground arith,
    (
      omega arith,
      omega arith,
      λ a l u. ground arith,
      (
        omega arith,
        omega arith,
        λ a l u. ground arith,
        (
          omega arith,
          omega arith,
          λ a l u. ground arith,
          (
            omega arith,
            omega arith,
            λ a l u. ground arith,
            (
              omega arith,
              omega arith,
              λ a l u. ground arith,
              (omega arith, omega arith, λ a l u. ground arith, tt),
            ),
          ),
        ),
      ),
    ),
  ),
)

pub is_demand-range : (a : ℕ) → is_demand a ≡ true → (demand_base ≤ a) × (a < demand_end)
unfolding is_demand
is_demand-range a e = (ground arith, ground arith)

pub range-is_demand : (a : ℕ) → demand_base ≤ a → a < demand_end → is_demand a ≡ true
unfolding is_demand
range-is_demand a low high = ground arith

-- An address that is paged in on demand is a user address.
pub is_demand-user : (a : ℕ) → is_demand a ≡ true → is_kernel a ≡ false
unfolding is_demand is_kernel space_of
is_demand-user a e = ground arith

-- `page_of` is the start of the page of 4096 bytes that holds the address.
pub page_of_lem : (a : ℕ) → a < 2 ^ 32 → page_of a ≡ a / 4096 * 4096
unfolding page_of
page_of_lem a h =
    bit_and_shifted 12 a (2 ^ 20 - 1)
    ∙ ap (λ n. n * 2 ^ 12) (bit_and_low 20 (a / 2 ^ 12))
    ∙ omega arith

pub is_kernel_above : (a : ℕ) → kernel_space ≤ a → is_kernel a ≡ true
unfolding is_kernel space_of
is_kernel_above a h =
    let low : ltb a 0x00400000 ≡ false = ground arith in
    let high : ltb a 0xC0000000 ≡ false = ground arith in rw (low, high) refl

pub kernel_phys_lem : (p : ℕ) → p < 2 ^ 22 → kernel_phys (kernel_space + p) ≡ p
unfolding kernel_phys
kernel_phys_lem p h = omega arith

pub kernel_phys_minus : (a : ℕ) → kernel_space ≤ a → a < 2 ^ 32 → kernel_phys a ≡ a - kernel_space
unfolding kernel_phys
kernel_phys_minus a l h = omega arith

pub page_of_fits : (a : ℕ) → a < 2 ^ 32 → page_of a < 2 ^ 32
unfolding page_of
page_of_fits a h = bit_and-lt 32 a _ h
