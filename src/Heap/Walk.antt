-- ===== src/Heap/Walk.antt =====
-- The walks of kernel/src/heap.rs over its blocks: `last_block` and `find_block`.
pub mod Laws
use kfs.Base.{
  ℕ, zero, suc, ◌+◌, ◌-◌, ◌*◌, ◌/◌, ◌%◌, ◌^◌, Bool, true, false, not, ◌&&◌, ◌||◌, Option, none,
  some, bit_and, ltb, leb, ◌==◌, if◌then◌else◌, u32, u32_max, sub32, min, ℤ, pos, negsuc,
}
use kfs.Pager.{Pager}
use kfs.Heap.{
  Heap, Stats, Backing, contiguous, scattered, is_contiguous, header, smallest, page_size, round_up,
  next_at, size_at, used_at, write_header,
}

module _ (p : Pager) where
  open p use {World, read, write, map_page, unmap_page, alloc_frame, free_frame, oops}

  -- The walk of `last_block`; each round moves `at` up by 8 at least.
  pub last_loop : ℕ → World → ℕ → ℕ → Option ℕ → Option ℕ
  last_loop zero w to at last = last
  last_loop (suc fuel) w to at last = elim (leb (u32 (at + header)) to) [
    | true ↦ last_loop fuel w to (next_at at (size_at p w at)) (some at)
    | false ↦ last
  ]

  pub last_block : Heap → World → ℕ → Option ℕ
  last_block h w to = last_loop (suc (to - h.base)) w to h.base none

  pub find_loop : ℕ → Heap → World → ℕ → ℕ → Option ℕ
  find_loop zero h w payload at = none
  find_loop (suc fuel) h w payload at = elim (leb (u32 (at + header)) h.brk) [
    | false ↦ none
    | true ↦ elim (u32 (at + header) == payload) [
      | true ↦ some at
      | false ↦ find_loop fuel h w payload (next_at at (size_at p w at))
    ]
  ]

  pub find_block : Heap → World → ℕ → Option ℕ
  find_block h w payload = find_loop (suc (h.brk - h.base)) h w payload h.base
