-- ===== src/Pmm/View.antt =====
-- What the bitmap of kernel/src/pmm.rs holds after one bit of it is set or cleared.
use kfs.Base.{
  ℕ, ◌+◌, ◌-◌, ◌/◌, ◌%◌, ◌^◌, ◌≤◌, ◌<◌, ◌≡◌, false, ◌&&◌, arith, ltb, ◌==◌, if◌then◌else◌, u32,
  u32_max, sub32, update, bit_and, bit_or,
}
use kfs.Base.Bits.{
  bit_at, bit_at-lt, bit_and-pow, bit_at-bit_or, bit_at-bit_and, bit_at-pow, bit_at_complement,
}
use kfs.Pmm.{Pmm, max_frames, free_bit, set_free, set_used}
use native.Mathlib.Nat.{one-le-pow, pow-le-pow_right}

-- A frame is free when it is in range and its bit is 1.
pub free_bit_lem :
    (s : Pmm) (g : ℕ) → free_bit s g ≡ (ltb g max_frames && bit_at (g % 32) (s.free (g / 32)) == 1)
unfolding free_bit
free_bit_lem s g = ground (
  arith,
  bit_and-pow (g % 32) (s.free (g / 32)),
  one-le-pow (g % 32) 2,
  bit_at-lt (g % 32) (s.free (g / 32)),
)

pub pow_fits : (f : ℕ) → 2 ^ (f % 32) < 2 ^ 32
pow_fits f =
    let h : f % 32 ≤ 31 = omega arith in omega (arith, pow-le-pow_right {n = 2} (omega arith) h)

-- The bit of `g` after a write to the word of `f`.
bit_at-update :
    (s : Pmm) (f g v n : ℕ)
    → free_bit (record s { free = update s.free (f / 32) v; available = n }) g
      ≡ (ltb g max_frames && bit_at (g % 32) (if g / 32 == f / 32 then v else s.free (g / 32)) == 1)
bit_at-update s f g v n =
    free_bit_lem (record s { free = update s.free (f / 32) v; available = n }) g

pub free_bit-set_free :
    (s : Pmm) (f g : ℕ)
    → free_bit (set_free s f) g ≡ (if f == g then ltb f max_frames else free_bit s g)
unfolding set_free
free_bit-set_free s f g =
    let w = s.free (f / 32) in
    ground (
      arith,
      free_bit_lem s f,
      free_bit_lem s g,
      bit_at-update s f g (bit_or w (2 ^ (f % 32))) (u32 (s.available + 1)),
      bit_at-bit_or (g % 32) w (2 ^ (f % 32)),
      bit_at-pow (g % 32) (f % 32),
      bit_at-lt (g % 32) w,
    )

pub free_bit-set_used :
    (s : Pmm) (f g : ℕ) → free_bit (set_used s f) g ≡ (if f == g then false else free_bit s g)
unfolding set_used
free_bit-set_used s f g =
    let w = s.free (f / 32) in
    ground (
      arith,
      free_bit_lem s f,
      free_bit_lem s g,
      bit_at-update s f g (bit_and w (u32_max - 2 ^ (f % 32))) (sub32 s.available 1),
      bit_at-bit_and (g % 32) w (u32_max - 2 ^ (f % 32)),
      bit_at_complement 32 (g % 32) (2 ^ (f % 32)),
      pow_fits f,
      bit_at-pow (g % 32) (f % 32),
      bit_at-lt (g % 32) w,
    )
