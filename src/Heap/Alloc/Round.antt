-- ===== src/Heap/Alloc/Round.antt =====
-- `round_up` of kernel/src/heap.rs gives the least payload size a block may have.
use kfs.Base.{
  ℕ, ◌+◌, ◌-◌, ◌*◌, ◌/◌, ◌^◌, ◌≤◌, ◌<◌, ◌≡◌, bit_and, max, ltb, if◌then◌else◌, arith, ◌∙◌, ap, u32,
  u32_max, sub32,
}
use kfs.Base.Bits.{bit_and_shifted, bit_and_low}
use kfs.Heap.{round_up, align, smallest}

-- The mask of `round_up` clears the three low bits.
mask_lem : (a : ℕ) → a < 2 ^ 32 → bit_and a (u32_max - (align - 1)) ≡ a / 8 * 8
mask_lem a h =
    bit_and_shifted 3 a (2 ^ 29 - 1)
    ∙ ap (λ n. n * 2 ^ 3) (bit_and_low 29 (a / 2 ^ 3))
    ∙ omega arith

-- `round_up` of a size that leaves room below 4 GB is the least multiple of 8 that is 8 at least
-- and holds the size.
pub round_up_lem : (size : ℕ) → size + 16 ≤ 2 ^ 32 → round_up size ≡ (max size 8 + 7) / 8 * 8
unfolding round_up
round_up_lem size h =
    let size' = if ltb size smallest then smallest else size in
    let m : size' ≡ max size 8 = ground arith in
    let q : sub32 (u32 (size' + align)) 1 ≡ max size 8 + 7 = omega (arith, m) in
    rw q (mask_lem (max size 8 + 7) (omega arith))
