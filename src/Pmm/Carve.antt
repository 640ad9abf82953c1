-- ===== src/Pmm/Carve.antt =====
-- `carve` of kernel/src/pmm.rs: the block for the kernel heap, halved until a run is found.
use kfs.Base.{
  ℕ, zero, suc, ◌+◌, ◌-◌, ◌*◌, ◌/◌, ◌^◌, ◌≤◌, ◌<◌, ◌≡◌, refl, true, false, arith, subst, Bool-cases,
  inl, inr, leb, u32, Option, none, some, leb→le, ◌⊎◌, sym, ap, ◌≢◌,
}
use native.Mathlib.Nat.{pow-suc}
use kfs.Pmm.{Pmm, page_size, max_frames, free_bit, alloc_range, carve_loop, carve}
use kfs.Pmm.Valid.{IsValid, free_bit-lt}
use kfs.Pmm.Run.{IsRun}
use kfs.Pmm.Ranges.{TakenRun, TakesRun, alloc_range-TakesRun}

-- `q` is `p` halved some number of times.
pub data Halved (p : ℕ) : ℕ → Type 0 where
  whole : Halved p p
  half : {q : ℕ} → Halved p q → Halved p (q / 2)

half_first : {p q : ℕ} → Halved (p / 2) q → Halved p q
half_first whole = half whole
half_first (half h) = half (half_first h)

-- The window of the largest halving of `pages` that has at least 16 frames and finds a run, or
-- `none` and the same state where no such halving finds one.
abbrev pub Carves : Pmm → ℕ → Option (ℕ × ℕ) × Pmm → Type 0
Carves s pages (some (lo, hi), s') =
    (q : ℕ) × Halved pages q
    × (16 ≤ q)
    × ((r : ℕ) → Halved pages r → q < r → (b : ℕ) → ¬ IsRun s b r)
    × (b : ℕ) × (lo ≡ b * page_size)
    × (hi ≡ lo + q * page_size)
    × TakenRun s b q s'
Carves s pages (none, s') = (s' ≡ s) × ((q : ℕ) → Halved pages q → 16 ≤ q → (b : ℕ) → ¬ IsRun s b q)

Halved-le : {p q : ℕ} → Halved p q → q ≤ p
Halved-le whole = omega arith
Halved-le (half h) = omega (arith, Halved-le h)

-- A halving is the number itself or a halving of its half.
Halved-cases : {p q : ℕ} → Halved p q → (q ≡ p) ⊎ Halved (p / 2) q
Halved-cases whole = inl refl
Halved-cases {p} (half h) = elim (Halved-cases h) [
  | inl e ↦ inr (subst (λ t. Halved (p / 2) (t / 2)) (sym e) whole)
  | inr k ↦ inr (half k)
]

-- Once `pages` itself has no run, its halvings are those of its half.
Carves-half :
    (s : Pmm) (pages : ℕ) (r : Option (ℕ × ℕ) × Pmm)
    → ((b : ℕ) → ¬ IsRun s b pages)
    → Carves s (pages / 2) r
    → Carves s pages r
Carves-half s pages (none, s') gone (same, rest) = (
  same,
  λ q h big. elim (Halved-cases h) [
    | inl e ↦ subst (λ t. (b : ℕ) → ¬ IsRun s b t) (sym e) gone
    | inr k ↦ rest q k big
  ],
)
Carves-half s pages (some (lo, hi), s') gone (q, h, big, largest, b, at, ends, taken) = (
  q,
  half_first h,
  big,
  λ r k above. elim (Halved-cases k) [
    | inl e ↦ subst (λ t. (b : ℕ) → ¬ IsRun s b t) (sym e) gone
    | inr k' ↦ largest r k' above
  ],
  b,
  at,
  ends,
  taken,
)

module _ (s : Pmm) (v : IsValid s) (top : free_bit s (max_frames - 1) ≡ false) where
  -- A run below the last frame ends below 2 ^ 20, so its end address does not wrap.
  run_below_top : (b q : ℕ) → 0 < q → IsRun s b q → b + q < max_frames
  run_below_top b q pos run =
      let last = run (q - 1) (omega arith) in
      let ne : b + (q - 1) ≢ max_frames - 1 = λ e. ground (arith, ap (free_bit s) e, top, last) in
      omega (arith, free_bit-lt s (b + (q - 1)) last)

  module _ (fuel pages : ℕ) where
    carve_stops : leb 16 pages ≡ false → carve_loop s (suc fuel) pages ≡ (none, s)
    carve_stops small = unfold carve_loop in rw (small, carve_loop)

    carve_found :
        (base : ℕ) (s' : Pmm)
        → leb 16 pages ≡ true
        → alloc_range s pages ≡ (some base, s')
        → carve_loop s (suc fuel) pages ≡ (some (base, u32 (base + u32 (pages * page_size))), s')
    carve_found base s' big e =
        unfold carve_loop in
        rw (big, ap (λ (r : Option ℕ × Pmm). r.0) e, ap (λ (r : Option ℕ × Pmm). r.1) e, carve_loop)

    carve_halves :
        (s' : Pmm)
        → leb 16 pages ≡ true
        → alloc_range s pages ≡ (none, s')
        → carve_loop s (suc fuel) pages ≡ carve_loop s' fuel (pages / 2)
    carve_halves s' big e =
        unfold carve_loop in
        rw (big, ap (λ (r : Option ℕ × Pmm). r.0) e, ap (λ (r : Option ℕ × Pmm). r.1) e, carve_loop)

    carve_round :
        (r : Option ℕ × Pmm)
        → pages ≤ max_frames
        → leb 16 pages ≡ true
        → Carves s (pages / 2) (carve_loop s fuel (pages / 2))
        → alloc_range s pages ≡ r
        → TakesRun s pages r
        → Carves s pages (carve_loop s (suc fuel) pages)
    carve_round (none, s') fits big rest e (same, gone) =
        rw (carve_halves s' big e, same) (Carves-half s pages _ gone rest)
    carve_round (some base, s') fits big rest e (b, at, taken, first) =
        let ends = run_below_top b pages (ground arith) taken.was_free in
        rw (carve_found base s' big e) (
          pages,
          whole,
          leb→le _ _ big,
          λ r h above. absurd (omega (arith, Halved-le h)),
          b,
          at,
          omega arith,
          taken,
        )

  carve_loop-Carves :
      (fuel pages : ℕ)
      → pages ≤ max_frames
      → pages < 2 ^ fuel
      → Carves s pages (carve_loop s fuel pages)
  carve_loop-Carves zero pages fits small =
      unfold carve_loop in (refl, λ q h big. absurd (omega (arith, Halved-le h)))
  carve_loop-Carves (suc fuel) pages fits small = elim (Bool-cases (leb 16 pages)) [
    | inr few ↦
        rw (carve_stops fuel pages few) (refl, λ q h big. absurd (ground (arith, Halved-le h)))
    | inl big ↦
        carve_round fuel pages (alloc_range s pages) fits big
          (carve_loop-Carves fuel (pages / 2) (omega arith) (omega (arith, pow-suc 2 fuel))) refl
          (alloc_range-TakesRun s pages v (ground arith) fits)
  ]

  -- `carve` on any 32-bit size.
  pub carve-Carves : (size : ℕ) → size < 2 ^ 32 → Carves s (size / page_size) (carve s size)
  unfolding carve
  carve-Carves size h = carve_loop-Carves 21 (size / page_size) (omega arith) (omega arith)
