-- ===== src/Pmm/Boot.antt =====
-- `init` of kernel/src/pmm.rs: which frames are free once the regions are read.
use kfs.Base.{
  ℕ, zero, suc, ◌+◌, ◌-◌, ◌*◌, ◌/◌, ◌%◌, ◌^◌, ◌≤◌, ◌<◌, ◌≡◌, refl, Bool, true, false, ◌&&◌, ◌||◌,
  arith, Bool-cases, inl, inr, ltb, leb, ◌==◌, u32, List, [], ◌∷◌, sym, ◌∙◌,
}
use kfs.Multiboot.Regions.{Region}
use kfs.Pmm.{
  Pmm, start, page_size, max_frames, frame_of, free_bit, set_free, add_frame, init_frames,
  init_region, init, total_frames, free_frames, used_frames,
}
use kfs.Pmm.Count.{count-le, count_ext}
use kfs.Pmm.View.{free_bit-set_free}
use kfs.Pmm.Valid.{IsValid, free_bit-start, start-IsValid, set_free-IsValid}

-- The frame lies wholly inside the region.
abbrev pub covers : Region → ℕ → Bool
covers region g = leb region.base (g * page_size) && leb (g * page_size + page_size) region.end

pub covered : List Region → ℕ → Bool
covered [] g = false
covered (region ∷ rest) g = covers region g || covered rest g

-- The bounds are 32-bit numbers, and rounding the base up does not wrap.
abbrev pub Rounds : Region → Type 0
Rounds region = (region.base + (page_size - 1) < 2 ^ 32) × (region.end < 2 ^ 32)

abbrev pub AllRound : List Region → Type 0
AllRound [] = Unit {0}
AllRound (region ∷ rest) = Rounds region × AllRound rest

-- Every free frame has been counted in TOTAL, once.
abbrev pub IsFresh : Pmm → Type 0
IsFresh s = IsValid s × (s.total ≡ s.available)

-- TOTAL plays no part in the bitmap.
abbrev recount : Pmm → Pmm
recount s = record s { total = u32 (s.total + 1) }

free_bit-recount : (s : Pmm) (g : ℕ) → free_bit (recount s) g ≡ free_bit s g
unfolding free_bit
free_bit-recount s g = refl

recount-IsValid : (s : Pmm) → IsValid s → IsValid (recount s)
recount-IsValid s v = record {
  counted =
      v.counted
      ∙ sym (count_ext (free_bit s) (free_bit (recount s)) max_frames (free_bit-recount s));
  fits = v.fits;
}

add_frame-IsFresh : (s : Pmm) (f : ℕ) → f < max_frames → IsFresh s → IsFresh (add_frame s f)
add_frame-IsFresh s f h (v, e) = elim (Bool-cases (free_bit s f)) [
  | inl seen ↦ unfold add_frame in rw seen (v, e)
  | inr fresh ↦
      unfold add_frame in
      rw fresh (set_free-IsValid (recount s) f (recount-IsValid s v), both fresh)
]
  where
    both :
        free_bit s f ≡ false → (set_free (recount s) f).total ≡ (set_free (recount s) f).available
    both fresh = unfold set_free in ground (arith, free_bit-recount s f)

free_bit-add_frame :
    (s : Pmm) (f g : ℕ) → f < max_frames → free_bit (add_frame s f) g ≡ (f == g || free_bit s g)
unfolding add_frame
free_bit-add_frame s f g h = ground (arith, free_bit-set_free (recount s) f g, free_bit-recount s g)

init_frames_stops :
    (left : ℕ) (s : Pmm) (frame : ℕ)
    → leb max_frames frame ≡ true
    → init_frames s (suc left) frame ≡ s
unfolding init_frames
init_frames_stops left s frame e = rw (e, init_frames)

init_frames_adds :
    (left : ℕ) (s : Pmm) (frame : ℕ)
    → leb max_frames frame ≡ false
    → init_frames s (suc left) frame ≡ init_frames (add_frame s frame) left (frame + 1)
unfolding init_frames
init_frames_adds left s frame e = rw (e, init_frames)

free_bit-init_frames :
    (left : ℕ) (s : Pmm) (frame g : ℕ)
    → free_bit (init_frames s left frame) g
      ≡ (free_bit s g || (leb frame g && ltb g (frame + left) && ltb g max_frames))
free_bit-init_frames zero s frame g = unfold init_frames in ground arith
free_bit-init_frames (suc left) s frame g = elim (Bool-cases (leb max_frames frame)) [
  | inl e ↦ rw (init_frames_stops left s frame e) (ground arith)
  | inr e ↦ rw (init_frames_adds left s frame e) (
      ground (
        arith,
        free_bit-init_frames left (add_frame s frame) (frame + 1) g,
        free_bit-add_frame s frame g,
      ))
]

init_frames-IsFresh :
    (left : ℕ) (s : Pmm) (frame : ℕ) → IsFresh s → IsFresh (init_frames s left frame)
init_frames-IsFresh zero s frame h = unfold init_frames in h
init_frames-IsFresh (suc left) s frame h = elim (Bool-cases (leb max_frames frame)) [
  | inl e ↦ rw (init_frames_stops left s frame e) h
  | inr e ↦ rw (init_frames_adds left s frame e) (
      init_frames-IsFresh left (add_frame s frame) (frame + 1)
        (add_frame-IsFresh s frame (ground arith) h))
]

free_bit-init_region :
    (s : Pmm) (region : Region) (g : ℕ)
    → Rounds region
    → free_bit (init_region s region) g ≡ (free_bit s g || covers region g)
unfolding init_region frame_of
free_bit-init_region s region g (low, high) =
    let first = (region.base + 4095) % 2 ^ 32 / 4096 in
    let last = region.end / 4096 in ground (arith, free_bit-init_frames (last - first) s first g)

init-IsFresh : (regions : List Region) (s : Pmm) → IsFresh s → IsFresh (init s regions)
unfolding init init_region
init-IsFresh [] s h = h
init-IsFresh (region ∷ rest) s h = init-IsFresh rest _ (init_frames-IsFresh _ s _ h)

free_bit-init :
    (regions : List Region) (s : Pmm) (g : ℕ)
    → AllRound regions
    → free_bit (init s regions) g ≡ (free_bit s g || covered regions g)
unfolding init covered
free_bit-init [] s g h = ground arith
free_bit-init (region ∷ rest) s g (round, rounds) = ground (
  arith,
  free_bit-init rest (init_region s region) g rounds,
  free_bit-init_region s region g round,
)

abbrev pub AllEnd : ℕ → List Region → Type 0
AllEnd top [] = Unit {0}
AllEnd top (region ∷ rest) = (region.end ≤ top) × AllEnd top rest

pub covered_le :
    (top : ℕ) (regions : List Region) (g : ℕ)
    → AllEnd top regions
    → covered regions g ≡ true
    → g * page_size + page_size ≤ top
unfolding covered
covered_le top [] g h e = absurd (cc)
covered_le top (region ∷ rest) g (h, hs) e = elim (Bool-cases (covers region g)) [
  | inl here ↦ ground arith
  | inr other ↦ covered_le top rest g hs (ground arith)
]

-- Of regions whose bounds are below 4 GB, and whose base is not in the last 4095 bytes below it: after
-- `init` a frame is free exactly when some region holds the whole of it. AVAILABLE is the
-- number of such frames and TOTAL is the same number, so that none counts as used.
pub init-covered :
    (regions : List Region)
    → AllRound regions
    → ((g : ℕ) → free_bit (init start regions) g ≡ covered regions g)
      × IsValid (init start regions)
      × (total_frames (init start regions) ≡ free_frames (init start regions))
      × (used_frames (init start regions) ≡ 0)
unfolding total_frames free_frames used_frames
init-covered regions h =
    let (v, e) = init-IsFresh regions start (start-IsValid, refl) in
    (
      λ g. ground (arith, free_bit-init regions start g h, free_bit-start g),
      v,
      e,
      ground (arith, v.counted, count-le (free_bit (init start regions)) max_frames),
    )

-- A region that begins in the last 4095 bytes of the 32-bit range wraps when its base is rounded
-- up: `init` then frees every frame below its end, also those that no region holds.
pub free_bit-init_region_wraps :
    (s : Pmm) (region : Region) (g : ℕ)
    → 2 ^ 32 ≤ region.base + (page_size - 1)
    → region.base < region.end
    → region.end < 2 ^ 32
    → free_bit (init_region s region) g ≡ (free_bit s g || ltb g (max_frames - 1))
unfolding init_region frame_of
free_bit-init_region_wraps s region g wraps below fits =
    let first = (region.base + 4095) % 2 ^ 32 / 4096 in
    let last = region.end / 4096 in ground (arith, free_bit-init_frames (last - first) s first g)
