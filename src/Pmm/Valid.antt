-- ===== src/Pmm/Valid.antt =====
-- The invariant of the frame allocator: AVAILABLE counts the free frames, and each word of the
-- bitmap fits 32 bits.
use kfs.Base.{
  ℕ, ◌+◌, ◌-◌, ◌%◌, ◌/◌, ◌^◌, ◌<◌, ◌≡◌, true, false, arith, Bool-cases, inl, inr, ltb, u32, sub32,
  u32_max, leb, sym, ◌||◌, not,
}
use kfs.Base.Bits.{bit_or-lt, bit_and-lt, bit_and-none}
use kfs.Pmm.{Pmm, start, max_frames, free_bit, set_free, set_used}
use kfs.Pmm.Count.{count, count-le, count_changed, count-zero}
use kfs.Pmm.View.{free_bit-set_free, free_bit-set_used, pow_fits}

pub record IsValid (s : Pmm) : Type 0 where
  pub counted : s.available ≡ count (free_bit s) max_frames
  pub fits : (w : ℕ) → s.free w < 2 ^ 32

pub free_bit-lt : (s : Pmm) (f : ℕ) → free_bit s f ≡ true → f < max_frames
unfolding free_bit
free_bit-lt s f h = ground arith

pub free_bit-start : (g : ℕ) → free_bit start g ≡ false
unfolding free_bit
free_bit-start g = ground (arith, bit_and-none (2 ^ (g % 32)))

pub start-IsValid : IsValid start
start-IsValid = record {
  counted = sym (count-zero (free_bit start) max_frames λ g k. free_bit-start g);
  fits = λ w. omega arith;
}

-- A frame that is out of range or free already is left alone.
pub set_free_same : (s : Pmm) (f : ℕ) → (leb max_frames f || free_bit s f) ≡ true → set_free s f ≡ s
unfolding set_free
set_free_same s f e = rw e

pub set_used_same :
    (s : Pmm) (f : ℕ) → (leb max_frames f || not (free_bit s f)) ≡ true → set_used s f ≡ s
unfolding set_used
set_used_same s f e = rw e

module _ (s : Pmm) (f : ℕ) (v : IsValid s) where
  set_free_counted : (set_free s f).available ≡ count (free_bit (set_free s f)) max_frames
  set_free_counted = elim (Bool-cases (leb max_frames f || free_bit s f)) [
    | inl e ↦ rw (set_free_same s f e) v.counted
    | inr e ↦
        let less = count-le (free_bit s) max_frames in
        let change =
          count_changed (free_bit s) (free_bit (set_free s f)) f (ltb f max_frames)
            (free_bit-set_free s f) max_frames in
        ground (arith, available_more s f e, v.counted, less, change)
  ]
    where
      available_more :
          (s : Pmm) (f : ℕ)
          → (leb max_frames f || free_bit s f) ≡ false
          → (set_free s f).available ≡ u32 (s.available + 1)
      available_more s f e = unfold set_free in rw e

  set_used_counted : (set_used s f).available ≡ count (free_bit (set_used s f)) max_frames
  set_used_counted = elim (Bool-cases (leb max_frames f || not (free_bit s f))) [
    | inl e ↦ rw (set_used_same s f e) v.counted
    | inr e ↦
        let less = count-le (free_bit s) max_frames in
        let change =
          count_changed (free_bit s) (free_bit (set_used s f)) f false (free_bit-set_used s f)
            max_frames in
        ground (arith, available_less s f e, v.counted, less, change)
  ]
    where
      available_less :
          (s : Pmm) (f : ℕ)
          → (leb max_frames f || not (free_bit s f)) ≡ false
          → (set_used s f).available ≡ sub32 s.available 1
      available_less s f e = unfold set_used in rw e

  pub set_free-IsValid : IsValid (set_free s f)
  set_free-IsValid = record {
    counted = set_free_counted;
    fits = λ w.
        unfold set_free in
        ground (
          arith,
          v.fits w,
          v.fits (f / 32),
          bit_or-lt 32 (s.free (f / 32)) (2 ^ (f % 32)),
          pow_fits f,
        );
  }

  pub set_used-IsValid : IsValid (set_used s f)
  set_used-IsValid = record {
    counted = set_used_counted;
    fits = λ w.
        unfold set_used in
        ground (
          arith,
          v.fits w,
          v.fits (f / 32),
          bit_and-lt 32 (s.free (f / 32)) (u32_max - 2 ^ (f % 32)),
        );
  }

pub set_used-total : (s : Pmm) (f : ℕ) → (set_used s f).total ≡ s.total
unfolding set_used
set_used-total s f = ground arith

pub set_free-total : (s : Pmm) (f : ℕ) → (set_free s f).total ≡ s.total
unfolding set_free
set_free-total s f = ground arith

-- Taking a free frame counts one less.
pub set_used_available :
    (s : Pmm) (f : ℕ) → IsValid s → free_bit s f ≡ true → (set_used s f).available + 1 ≡ s.available
set_used_available s f v h = ground (
  arith,
  v.counted,
  (set_used-IsValid s f v).counted,
  free_bit-lt s f h,
  count_changed (free_bit s) (free_bit (set_used s f)) f false (free_bit-set_used s f) max_frames,
)
