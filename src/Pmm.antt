-- ===== src/Pmm.antt =====
-- kernel/src/pmm.rs: the physical frame allocator, one bit for each 4 kb frame.
-- The statics FREE, TOTAL and AVAILABLE are one record that each function takes and returns;
-- `usize` is 32 bits wide on this target. The proofs stand in the children.
pub mod Count
pub mod View
pub mod Valid
pub mod Alloc
pub mod Run
pub mod Ranges
pub mod Carve
pub mod Largest
pub mod Boot
mod Tests
use kfs.Base.{
  ℕ, zero, suc, ◌+◌, ◌-◌, ◌*◌, ◌/◌, ◌%◌, ◌^◌, Bool, true, false, not, ◌&&◌, ◌||◌, Option, none,
  some, List, [], ◌∷◌, bit_and, bit_or, ltb, leb, ◌==◌, if◌then◌else◌, u32, u32_max, sub32, update,
}
use kfs.Base.Bits.{trailing_zeros}
use kfs.Multiboot.Regions.{Region}

abbrev pub page_shift : ℕ
page_shift = 12

abbrev pub page_size : ℕ
page_size = 4096

abbrev pub max_frames : ℕ
max_frames = 2 ^ 20

abbrev pub words : ℕ
words = max_frames / 32

pub record Pmm : Type 0 where
  pub free : ℕ → ℕ
  pub total : ℕ
  pub available : ℕ

abbrev pub start : Pmm
start = record { free = λ _. 0; total = 0; available = 0 }

unfoldable pub frame_of : ℕ → ℕ
frame_of phys = phys / 2 ^ page_shift

unfoldable pub address_of : ℕ → ℕ
address_of frame = u32 (frame * 2 ^ page_shift)

pub free_bit : Pmm → ℕ → Bool
free_bit s frame =
    ltb frame max_frames && not (bit_and (s.free (frame / 32)) (2 ^ (frame % 32)) == 0)

pub set_free : Pmm → ℕ → Pmm
set_free s frame = if leb max_frames frame || free_bit s frame then s else record s {
  free = update s.free (frame / 32) (bit_or (s.free (frame / 32)) (2 ^ (frame % 32)));
  available = u32 (s.available + 1);
}

pub set_used : Pmm → ℕ → Pmm
set_used s frame = if leb max_frames frame || not (free_bit s frame) then s else record s {
  free = update s.free (frame / 32) (bit_and (s.free (frame / 32)) (u32_max - 2 ^ (frame % 32)));
  available = sub32 s.available 1;
}

-- The body of the loop of `init`, for one frame that is in range.
pub add_frame : Pmm → ℕ → Pmm
add_frame s frame =
    if free_bit s frame then s else set_free (record s { total = u32 (s.total + 1) }) frame

-- `for frame in first..last`, on the rounds that are left.
pub init_frames : Pmm → ℕ → ℕ → Pmm
init_frames s zero frame = s
init_frames s (suc left) frame = elim (leb max_frames frame) [
  | true ↦ s
  | false ↦ init_frames (add_frame s frame) left (frame + 1)
]

pub init_region : Pmm → Region → Pmm
init_region s region =
    let first = frame_of (u32 (region.base + page_size - 1)) in
    let last = frame_of region.end in init_frames s (last - first) first

pub init : Pmm → List Region → Pmm
init s [] = s
init s (region ∷ rest) = init (init_region s region) rest

-- `for frame in first..last { set_used(frame) }`, on the rounds that are left.
pub use_frames : Pmm → ℕ → ℕ → Pmm
use_frames s zero frame = s
use_frames s (suc left) frame = use_frames (set_used s frame) left (frame + 1)

pub reserve : Pmm → ℕ → ℕ → Pmm
reserve s from to =
    let first = frame_of from in
    let last = frame_of (u32 (to + page_size - 1)) in use_frames s (last - first) first

pub total_frames : Pmm → ℕ
total_frames s = s.total

pub free_frames : Pmm → ℕ
free_frames s = s.available

pub used_frames : Pmm → ℕ
used_frames s = sub32 (total_frames s) (free_frames s)

-- `for word in 0..WORDS`, on the rounds that are left.
pub alloc_loop : Pmm → ℕ → ℕ → Option ℕ × Pmm
alloc_loop s zero word = (none, s)
alloc_loop s (suc left) word = elim (s.free word == 0) [
  | true ↦ alloc_loop s left (word + 1)
  | false ↦
      let frame = word * 32 + trailing_zeros 32 (s.free word) in
      (some (address_of frame), set_used s frame)
]

pub alloc_frame : Pmm → Option ℕ × Pmm
alloc_frame s = alloc_loop s words 0

pub free_frame : Pmm → ℕ → Pmm
free_frame s phys = set_free s (frame_of phys)

-- `while span < count && free_bit(frame + span)`, at most `count` rounds.
pub span_loop : Pmm → ℕ → ℕ → ℕ → ℕ → ℕ
span_loop s zero frame count span = span
span_loop s (suc fuel) frame count span = elim (ltb span count && free_bit s (u32 (frame + span))) [
  | true ↦ span_loop s fuel frame count (span + 1)
  | false ↦ span
]

-- `while frame + count <= MAX_FRAMES`. Each round moves `frame` up.
pub find_loop : Pmm → ℕ → ℕ → ℕ → Option ℕ
find_loop s zero count frame = none
find_loop s (suc fuel) count frame = elim (leb (u32 (frame + count)) max_frames) [
  | false ↦ none
  | true ↦ elim (free_bit s frame) [
    | false ↦ find_loop s fuel count (u32 (frame + 1))
    | true ↦
        let span = span_loop s count frame count 1 in
        elim (span == count) [
          | true ↦ some frame
          | false ↦ find_loop s fuel count (u32 (frame + u32 (span + 1)))
        ]
  ]
]

pub find_run : Pmm → ℕ → Option ℕ
find_run s count = if count == 0 then none else find_loop s (max_frames + 1) count 0

pub alloc_range : Pmm → ℕ → Option ℕ × Pmm
alloc_range s count = elim (find_run s count) [
  | none ↦ (none, s)
  | some base ↦ (some (address_of base), use_frames s count base)
]

-- `while pages >= 16`, which halves `pages` at each round.
pub carve_loop : Pmm → ℕ → ℕ → Option (ℕ × ℕ) × Pmm
carve_loop s zero pages = (none, s)
carve_loop s (suc fuel) pages = elim (leb 16 pages) [
  | false ↦ (none, s)
  | true ↦
      let (got, s') = alloc_range s pages in
      elim got [
        | some base ↦ (some (base, u32 (base + u32 (pages * page_size))), s')
        | none ↦ carve_loop s' fuel (pages / 2)
      ]
]

-- `pages` is below 2 ^ 20, so 21 halvings bring it to 0.
pub carve : Pmm → ℕ → Option (ℕ × ℕ) × Pmm
carve s size = carve_loop s 21 (size / page_size)

-- The loop of `largest_run` at `frame`, with `left` rounds to go.
pub run_loop : Pmm → ℕ → ℕ → ℕ → ℕ → ℕ
run_loop s zero frame best run = best
run_loop s (suc left) frame best run = elim (free_bit s frame) [
  | true ↦ run_loop s left (frame + 1) (if ltb best (run + 1) then run + 1 else best) (run + 1)
  | false ↦ run_loop s left (frame + 1) best 0
]

pub largest_run : Pmm → ℕ
largest_run s = run_loop s max_frames 0 0 0
