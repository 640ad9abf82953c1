-- ===== src/Heap/Fit.antt =====
-- `first_fit` and `take` of kernel/src/heap.rs.
pub mod Merge
pub mod Row
pub mod Search
pub mod Take
use kfs.Base.{
  ℕ, zero, suc, ◌+◌, ◌-◌, ◌*◌, ◌/◌, ◌%◌, ◌^◌, Bool, true, false, not, ◌&&◌, ◌||◌, Option, none,
  some, bit_and, ltb, leb, ◌==◌, if◌then◌else◌, u32, u32_max, sub32, min, ℤ, pos, negsuc,
}
use kfs.Pager.{Pager}
use kfs.Heap.{
  Heap, Stats, Backing, contiguous, scattered, is_contiguous, header, smallest, page_size, round_up,
  next_at, size_at, used_at, write_header,
}

module _ (p : Pager) where
  open p use {World, read, write, map_page, unmap_page, alloc_frame, free_frame, oops}

  -- The inner `loop` of `first_fit`: the free blocks that follow join the one at `at`.
  unfoldable pub merge_loop : ℕ → Heap → World → ℕ → ℕ → ℕ × World
  merge_loop zero h w at size = (size, w)
  merge_loop (suc fuel) h w at size =
      let next = next_at at size in
      elim (ltb h.brk (u32 (next + header)) || used_at p w next) [
        | true ↦ (size, w)
        | false ↦
            let more = u32 (size + u32 (header + size_at p w next)) in
            merge_loop fuel h (write_header p w at more false) at more
      ]

  unfoldable pub fit_loop : ℕ → Heap → World → ℕ → ℕ → Option ℕ × World
  fit_loop zero h w need at = (none, w)
  fit_loop (suc fuel) h w need at = elim (leb (u32 (at + header)) h.brk) [
    | false ↦ (none, w)
    | true ↦ elim (used_at p w at) [
      | true ↦ fit_loop fuel h w need (next_at at (size_at p w at))
      | false ↦
          let (size, w1) = merge_loop (suc (h.brk - at)) h w at (size_at p w at) in
          elim (leb need size) [
            | true ↦ (some at, w1)
            | false ↦ fit_loop fuel h w1 need (next_at at size)
          ]
    ]
  ]

  unfoldable pub first_fit : Heap → World → ℕ → Option ℕ × World
  first_fit h w need = fit_loop (suc (h.brk - h.base)) h w need h.base

  -- The pointer to the payload, and the headers of the block and of what is left of it.
  unfoldable pub take : World → ℕ → ℕ → ℕ × World
  take w block need =
      let size = size_at p w block in
      if leb (u32 (u32 (need + header) + smallest)) size
      then (
        u32 (block + header),
        write_header p (write_header p w block need true) (next_at block need)
            (sub32 (sub32 size need) header) false,
      )
      else (u32 (block + header), write_header p w block size true)
