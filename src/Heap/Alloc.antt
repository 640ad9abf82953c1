-- ===== src/Heap/Alloc.antt =====
-- `alloc`, `free`, `size` and `stats` of kernel/src/heap.rs.
pub mod Free
pub mod Round
pub mod Laws
pub mod Lifetime
pub mod Totals
use kfs.Base.{
  ℕ, zero, suc, ◌+◌, ◌-◌, ◌*◌, ◌/◌, ◌%◌, ◌^◌, Bool, true, false, not, ◌&&◌, ◌||◌, Option, none,
  some, bit_and, ltb, leb, ◌==◌, if◌then◌else◌, u32, u32_max, sub32, min, ℤ, pos, negsuc,
}
use kfs.Pager.{Pager}
use kfs.Heap.{
  Heap, Stats, Backing, contiguous, scattered, is_contiguous, header, smallest, page_size, round_up,
  next_at, size_at, used_at, write_header,
}
use kfs.Heap.Walk.{find_block}
use kfs.Heap.Fit.{first_fit, take}
use kfs.Heap.Break.{grow}

module _ (p : Pager) where
  open p use {World, read, write, map_page, unmap_page, alloc_frame, free_frame, oops}

  pub alloc_pages : ℕ → ℕ
  alloc_pages need = sub32 (u32 (u32 (need + header) + page_size)) 1 / page_size

  -- The second search, after the heap has grown.
  pub alloc_again : Heap → World → ℕ → ℕ × Heap × World
  alloc_again h w need =
      let (got, w1) = first_fit p h w need in
      elim got [
        | some block ↦ ((take p w1 block need).0, h, (take p w1 block need).1)
        | none ↦ (0, h, w1)
      ]

  pub alloc_grown : Heap → World → ℕ → ℕ × Heap × World
  alloc_grown h w need =
      let (grew, h1, w1) = grow p h w (alloc_pages need) in
      if grew then alloc_again h1 w1 need else (0, h1, w1)

  unfoldable pub alloc_rounded : Heap → World → ℕ → ℕ × Heap × World
  alloc_rounded h w need =
      let (got, w1) = first_fit p h w need in
      elim got [
        | some block ↦ ((take p w1 block need).0, h, (take p w1 block need).1)
        | none ↦ alloc_grown h w1 need
      ]

  unfoldable pub alloc : Heap → World → ℕ → ℕ × Heap × World
  alloc h w want =
      if want == 0
      then (0, h, w)
      else (if ltb (sub32 (sub32 h.limit h.base) header) want
          then (0, h, oops w)
          else alloc_rounded h w (round_up want))

  pub free : Heap → World → ℕ → World
  free h w pointer = if pointer == 0 then w else elim (find_block p h w pointer) [
    | none ↦ oops w
    | some block ↦
        if not (used_at p w block) then oops w else write_header p w block (size_at p w block) false
  ]

  pub size : Heap → World → ℕ → ℕ × World
  size h w pointer = if pointer == 0 then (0, w) else elim (find_block p h w pointer) [
    | none ↦ (0, oops w)
    | some block ↦ (size_at p w block, w)
  ]

  -- What one block adds to the figures.
  pub tally : World → ℕ → Stats → Stats
  tally w at s =
      let size = size_at p w at in
      if used_at p w at
      then record s {
        blocks = u32 (s.blocks + 1);
        used = u32 (s.used + size);
        live = u32 (s.live + 1);
      }
      else record s { blocks = u32 (s.blocks + 1); free = u32 (s.free + size) }

  pub stats_loop : ℕ → Heap → World → ℕ → Stats → Stats
  stats_loop zero h w at s = s
  stats_loop (suc fuel) h w at s = elim (leb (u32 (at + header)) h.brk) [
    | false ↦ s
    | true ↦ stats_loop fuel h w (next_at at (size_at p w at)) (tally w at s)
  ]

  pub stats : Heap → World → Stats
  stats h w = stats_loop (suc (h.brk - h.base)) h w h.base (record {
    name = h.name;
    base = h.base;
    brk = h.brk;
    limit = h.limit;
    used = 0;
    free = 0;
    blocks = 0;
    live = 0;
    contiguous = is_contiguous h.backing;
    phys_base = h.phys_base;
    phys_end = h.phys_end;
  })
