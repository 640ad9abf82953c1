-- ===== src/Multiboot/Regions/Bounds.antt =====
-- What every list of regions built by `push` of kernel/src/multiboot.rs satisfies.
use kfs.Base.{
  ℕ, zero, suc, ◌+◌, ◌-◌, ◌^◌, ◌*◌, ◌≤◌, ◌<◌, ◌≡◌, refl, true, ◌||◌, leb, ◌==◌, u32_max, update,
  arith, Bool-cases, inl, inr,
}
use kfs.Multiboot.Regions.{
  Region, Ram, max_regions, nothing, saturating_add, end_of, add_region, push,
}

-- The bytes of the first `n` regions.
pub total : (ℕ → Region) → ℕ → ℕ
total regions zero = 0
total regions (suc n) = total regions n + ((regions n).end - (regions n).base)

-- Each region is not empty and ends below 4 GB, `highest` is no lower than any end, and `usable` is
-- the sum of the sizes.
pub record Sound (ram : Ram) : Type 0 where
  pub room : ram.count ≤ max_regions
  pub proper : (i : ℕ) → i < ram.count → (ram.regions i).base < (ram.regions i).end
  pub low : (i : ℕ) → i < ram.count → (ram.regions i).end < 2 ^ 32
  pub below : (i : ℕ) → i < ram.count → (ram.regions i).end ≤ ram.highest
  pub sum : ram.usable ≡ total ram.regions ram.count
  pub small : ram.usable ≤ ram.count * 2 ^ 32

pub nothing-Sound : Sound nothing
unfolding total
nothing-Sound = record {
  room = omega arith;
  proper = λ i h. absurd (omega arith);
  low = λ i h. absurd (omega arith);
  below = λ i h. absurd (omega arith);
  sum = refl;
  small = omega arith;
}

total-update :
    (regions : ℕ → Region) (n k : ℕ) (r : Region)
    → n ≤ k
    → total (update regions k r) n ≡ total regions n
unfolding total
total-update regions zero k r h = refl
total-update regions (suc n) k r h = ground (arith, total-update regions n k r)

total-next :
    (regions : ℕ → Region) (n : ℕ) (r : Region)
    → total (update regions n r) (n + 1) ≡ total regions n + (r.end - r.base)
unfolding total
total-next regions n r =
    let q : n + 1 ≡ suc n = omega arith in
    let e : (n == n) ≡ true = ground arith in
    rw (q, total) (ground (arith, e, total-update regions n n r))

Sound-add_region :
    (ram : Ram) (base end : ℕ)
    → Sound ram
    → ram.count < max_regions
    → base < end
    → end < 2 ^ 32
    → Sound (add_region ram base end)
Sound-add_region ram base end s room proper low = record {
  room = omega arith;
  proper = λ i h. ground (arith, s.proper i);
  low = λ i h. ground (arith, s.low i);
  below = λ i h. ground (arith, s.below i);
  sum =
      ground (
        arith,
        s.sum,
        s.small,
        total-next ram.regions ram.count (record { base = base; end = end }),
      );
  small = ground (arith, s.small);
}

-- `push` keeps the list sound, whatever 64-bit base and length it is given.
pub push-Sound : (ram : Ram) (base length : ℕ) → Sound ram → Sound (push ram base length)
unfolding push
push-Sound ram base length s = elim (Bool-cases (ram.count == max_regions || length == 0)) [
  | inl full ↦ rw full s
  | inr room ↦ elim (Bool-cases (leb u32_max base)) [
    | inl high ↦ rw (room, high) s
    | inr low ↦ elim (Bool-cases (leb (end_of (saturating_add 64 base length)) base)) [
      | inl empty ↦ rw (room, low, empty) s
      | inr proper ↦
          rw (room, low, proper)
            (Sound-add_region ram base (end_of (saturating_add 64 base length)) s
              (ground (arith, s.room)) (ground arith) (ground arith))
    ]
  ]
]
