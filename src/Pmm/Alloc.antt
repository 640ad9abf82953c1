-- ===== src/Pmm/Alloc.antt =====
-- `alloc_frame` and `free_frame` of kernel/src/pmm.rs against the set of free frames.
use kfs.Base.{
  ℕ, zero, suc, ◌+◌, ◌*◌, ◌%◌, ◌/◌, ◌≤◌, ◌<◌, ◌≡◌, refl, true, false, arith, Bool-cases, inl, inr,
  ltb, ◌==◌, Option, none, some, if◌then◌else◌, ◌≢◌, subst, ltb→lt, ==→eq,
}
use kfs.Base.Bits.{bit_at, bit_at-zero, trailing_zeros, trailing_zeros_lem}
use kfs.Pmm.{
  Pmm, words, max_frames, page_size, frame_of, address_of, free_bit, set_used, alloc_loop,
  alloc_frame, free_frame,
}
use kfs.Pmm.Count.{count_ext}
use kfs.Pmm.View.{free_bit_lem, free_bit-set_free, free_bit-set_used}
use kfs.Pmm.Valid.{
  IsValid, free_bit-lt, set_used-IsValid, set_free-IsValid, set_used_available, set_used-total,
}

-- The frame `f` was free, is taken, and nothing else changes.
pub record Taken (s : Pmm) (f : ℕ) (s' : Pmm) : Type 0 where
  pub was_free : free_bit s f ≡ true
  pub view : (g : ℕ) → free_bit s' g ≡ (if f == g then false else free_bit s g)
  pub fewer : s'.available + 1 ≡ s.available
  pub total : s'.total ≡ s.total
  pub valid : IsValid s'

-- What an allocation returns: the address of the lowest free frame, which it takes, or `none`
-- and the same state when every frame is in use.
abbrev pub TakesLowest : Pmm → Option ℕ × Pmm → Type 0
TakesLowest s (some phys, s') =
    (f : ℕ) × (phys ≡ f * page_size) × Taken s f s' × ((g : ℕ) → g < f → free_bit s g ≡ false)
TakesLowest s (none, s') = (s' ≡ s) × ((g : ℕ) → free_bit s g ≡ false)

pub set_used-Taken : (s : Pmm) (f : ℕ) → IsValid s → free_bit s f ≡ true → Taken s f (set_used s f)
set_used-Taken s f v h = record {
  was_free = h;
  view = free_bit-set_used s f;
  fewer = set_used_available s f v h;
  total = set_used-total s f;
  valid = set_used-IsValid s f v;
}

module _ (s : Pmm) (v : IsValid s) where
  empty_word : (word : ℕ) → s.free word ≡ 0 → (g : ℕ) → g / 32 ≡ word → free_bit s g ≡ false
  empty_word word e g h = rw (free_bit_lem, h, e, bit_at-zero) (ground arith)

  earlier :
      (word : ℕ)
      → ((g : ℕ) → g < word * 32 → free_bit s g ≡ false)
      → {t : ℕ} → ((j : ℕ) → j < t → bit_at j (s.free word) ≡ 0)
      → (g : ℕ) → g < word * 32 + t
      → t < 32
      → free_bit s g ≡ false
  earlier word before clear g k below = elim (Bool-cases (ltb g (word * 32))) [
    | inl h ↦ before g (ltb→lt _ _ h)
    | inr h ↦
        let q : g / 32 ≡ word = ground arith in
        rw (free_bit_lem, q, clear (g % 32) (ground arith)) (ground arith)
  ]

  all_used :
      (word : ℕ)
      → words ≤ word
      → ((g : ℕ) → g < word * 32 → free_bit s g ≡ false)
      → (g : ℕ) → free_bit s g ≡ false
  all_used word e before g = elim (Bool-cases (free_bit s g)) [
    | inl h ↦ before g (omega (arith, free_bit-lt s g h))
    | inr h ↦ h
  ]

  next_word :
      (word : ℕ)
      → s.free word ≡ 0
      → ((g : ℕ) → g < word * 32 → free_bit s g ≡ false)
      → (g : ℕ) → g < (word + 1) * 32
      → free_bit s g ≡ false
  next_word word e before g h = elim (Bool-cases (ltb g (word * 32))) [
    | inl k ↦ before g (ltb→lt _ _ k)
    | inr k ↦ empty_word word e g (ground arith)
  ]

  lowest_in_word :
      (word : ℕ)
      → word < words
      → s.free word ≢ 0
      → ((g : ℕ) → g < word * 32 → free_bit s g ≡ false)
      → TakesLowest s (
        some (address_of (word * 32 + trailing_zeros 32 (s.free word))),
        set_used s (word * 32 + trailing_zeros 32 (s.free word)),
      )
  lowest_in_word word h ne before =
      let (low, hit, clear) = trailing_zeros_lem 32 (s.free word) (v.fits word) ne in
      let f = word * 32 + trailing_zeros 32 (s.free word) in
      let q : f / 32 ≡ word = omega arith in
      let r : f % 32 ≡ trailing_zeros 32 (s.free word) = omega arith in
      (
        f,
        unfold address_of in omega arith,
        set_used-Taken s f v (rw (free_bit_lem, q, r, hit) (ground arith)),
        λ g k. earlier word before clear g k low,
      )

  skip_word :
      (left word : ℕ)
      → (s.free word == 0) ≡ true
      → alloc_loop s (suc left) word ≡ alloc_loop s left (word + 1)
  unfolding alloc_loop
  skip_word left word e = rw (e, alloc_loop)

  take_word :
      (left word : ℕ)
      → (s.free word == 0) ≡ false
      → alloc_loop s (suc left) word ≡ (
        some (address_of (word * 32 + trailing_zeros 32 (s.free word))),
        set_used s (word * 32 + trailing_zeros 32 (s.free word)),
      )
  unfolding alloc_loop
  take_word left word e = rw (e, alloc_loop)

  alloc_loop-TakesLowest :
      (left word : ℕ)
      → left + word ≡ words
      → ((g : ℕ) → g < word * 32 → free_bit s g ≡ false)
      → TakesLowest s (alloc_loop s left word)
  alloc_loop-TakesLowest zero word e before =
      unfold alloc_loop in (refl, all_used word (omega arith) before)
  alloc_loop-TakesLowest (suc left) word e before = elim (Bool-cases (s.free word == 0)) [
    | inl empty ↦ rw (skip_word left word empty) (
        alloc_loop-TakesLowest left (word + 1) (omega arith)
          (next_word word (==→eq _ _ empty) before))
    | inr some_set ↦
        rw (take_word left word some_set) (lowest_in_word word (omega arith) (ground arith) before)
  ]

  -- `alloc_frame` takes the lowest free frame, and fails only when no frame is free.
  pub alloc_frame-TakesLowest : TakesLowest s (alloc_frame s)
  unfolding alloc_frame
  alloc_frame-TakesLowest =
      alloc_loop-TakesLowest words 0 (omega arith) (λ g h. absurd (omega arith))

-- `free_frame` makes the frame of the address free, if there is such a frame, and no other.
pub free_bit-free_frame :
    (s : Pmm) (phys g : ℕ)
    → free_bit (free_frame s phys) g
      ≡ (if frame_of phys == g then ltb (frame_of phys) max_frames else free_bit s g)
unfolding free_frame
free_bit-free_frame s phys g = free_bit-set_free s (frame_of phys) g

pub free_frame-IsValid : (s : Pmm) (phys : ℕ) → IsValid s → IsValid (free_frame s phys)
unfolding free_frame
free_frame-IsValid s phys v = set_free-IsValid s (frame_of phys) v

same_available :
    (s t : Pmm)
    → IsValid s
    → IsValid t
    → ((g : ℕ) → free_bit t g ≡ free_bit s g)
    → t.available ≡ s.available
same_available s t v w same =
    omega (arith, v.counted, w.counted, count_ext (free_bit s) (free_bit t) max_frames same)

-- Giving back what `alloc_frame` gave out restores the set of free frames and their number.
pub free_frame-alloc_frame :
    (s : Pmm) (phys : ℕ) (s' : Pmm)
    → IsValid s
    → alloc_frame s ≡ (some phys, s')
    → ((g : ℕ) → free_bit (free_frame s' phys) g ≡ free_bit s g)
      × ((free_frame s' phys).available ≡ s.available)
free_frame-alloc_frame s phys s' v e =
    let (f, at, taken, _) = subst (TakesLowest s) e (alloc_frame-TakesLowest s v) in
    let q : frame_of phys ≡ f = unfold frame_of in omega arith in
    let same : (g : ℕ) → free_bit (free_frame s' phys) g ≡ free_bit s g = λ g. ground (
      arith,
      q,
      free_bit-free_frame s' phys g,
      taken.view g,
      taken.was_free,
      free_bit-lt s f taken.was_free,
    ) in
    (same, same_available s (free_frame s' phys) v (free_frame-IsValid s' phys taken.valid) same)
