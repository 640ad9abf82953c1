-- ===== src/Heap/Break.antt =====
-- How kernel/src/heap.rs moves the break: `grow`, `shrink` and `brk`.
pub mod Frames
pub mod Grow
pub mod Extend
pub mod Fill
pub mod Unmap
pub mod Release
pub mod Shrink
pub mod Brk
use kfs.Base.{
  ℕ, zero, suc, ◌+◌, ◌-◌, ◌*◌, ◌/◌, ◌%◌, ◌^◌, Bool, true, false, not, ◌&&◌, ◌||◌, Option, none,
  some, bit_and, ltb, leb, ◌==◌, if◌then◌else◌, u32, u32_max, sub32, min, ℤ, pos, negsuc,
}
use kfs.Pager.{Pager}
use kfs.Heap.{
  Heap, Stats, Backing, contiguous, scattered, is_contiguous, header, smallest, page_size, round_up,
  next_at, size_at, used_at, write_header,
}
use kfs.Heap.Walk.{last_block}

module _ (p : Pager) where
  open p use {World, read, write, map_page, unmap_page, alloc_frame, free_frame, oops}

  pub frame_for : Heap → World → ℕ → Option ℕ × World
  frame_for h w at = elim h.backing [
    | contiguous ↦
        let frame = u32 (h.phys_base + sub32 at h.base) in
        if ltb h.phys_end (u32 (frame + page_size)) then (none, oops w) else (some frame, w)
    | scattered ↦
        let (got, w') = alloc_frame w in
        elim got [ some frame ↦ (some frame, w') | none ↦ (none, oops w') ]
  ]

  -- `pmm::free_frame` of a frame, where the heap took it from the frame allocator.
  pub give_back : Heap → World → ℕ → World
  give_back h w frame = elim h.backing [ scattered ↦ free_frame w frame | contiguous ↦ w ]

  -- `for _ in 0..pages` in `grow`: the address that it reaches.
  pub grow_loop : Heap → ℕ → World → ℕ → ℕ × World
  grow_loop h zero w at = (at, w)
  grow_loop h (suc pages) w at = elim (ltb h.limit (u32 (at + page_size))) [
    | true ↦ (at, oops w)
    | false ↦
        let (got, w1) = frame_for h w at in
        elim got [
          | none ↦ (at, w1)
          | some frame ↦
              let (mapped, w2) = map_page w1 at frame h.flags in
              elim mapped [
                | false ↦ (at, give_back h w2 frame)
                | true ↦ grow_loop h pages w2 (u32 (at + page_size))
              ]
        ]
  ]

  -- The pages from `from` to `to` join the free block `tail`, or become a block.
  pub extend_tail : World → Option ℕ → ℕ → ℕ → World
  extend_tail w none from to = write_header p w from (sub32 (sub32 to from) header) false
  extend_tail w (some block) from to =
      if used_at p w block
      then write_header p w from (sub32 (sub32 to from) header) false
      else write_header p w block (u32 (size_at p w block + sub32 to from)) false

  pub grow : Heap → World → ℕ → Bool × Heap × World
  grow h w pages =
      let (at, w1) = grow_loop h pages w h.brk in
      if at == h.brk
      then (false, h, w1)
      else (true, record h { brk = at }, extend_tail w1 (last_block p h w1 h.brk) h.brk at)

  -- What `shrink` does to the top block, before it unmaps: `false` is its refusal.
  pub trim : World → ℕ → ℕ → Bool × World
  trim w block target =
      if used_at p w block || ltb target block
      then (false, oops w)
      else (if ltb block target
          then (if ltb target (u32 (u32 (block + header) + smallest))
              then (false, oops w)
              else (true, write_header p w block (sub32 (sub32 target block) header) false))
          else (true, w))

  -- `while at < self.brk`, a page a round.
  pub unmap_loop : Heap → ℕ → World → ℕ → World
  unmap_loop h zero w at = w
  unmap_loop h (suc fuel) w at = elim (ltb at h.brk) [
    | false ↦ w
    | true ↦
        let (got, w1) = unmap_page w at in
        unmap_loop h fuel (elim got [ some frame ↦ give_back h w1 frame | none ↦ w1 ])
          (u32 (at + page_size))
  ]

  -- The rounds are the pages of the span and one for the last test.
  pub release : Heap → World → ℕ → Heap × World
  release h w target =
      (record h { brk = target }, unmap_loop h (suc ((h.brk - target) / page_size)) w target)

  pub shrink : Heap → World → ℕ → Bool × Heap × World
  shrink h w pages =
      let span = min (u32 (pages * page_size)) (sub32 h.brk h.base) in
      let target = sub32 h.brk span in
      if span == 0 then (true, h, w) else (elim (last_block p h w h.brk) [
        | none ↦ (true, (release h w target).0, (release h w target).1)
        | some block ↦
            let (fits, w1) = trim w block target in
            if fits
            then (true, (release h w1 target).0, (release h w1 target).1)
            else (false, h, w1)
      ])

  -- The break moves by a signed number of bytes, rounded up to pages.
  pub brk : Heap → World → ℤ → ℕ × Heap × World
  brk h w (pos zero) = (h.brk, h, w)
  brk h w (pos (suc n)) =
      let (moved, h', w') = grow h w (sub32 (u32 (suc n + page_size)) 1 / page_size) in
      (if moved then h.brk else 0, h', w')
  brk h w (negsuc n) =
      let (moved, h', w') = shrink h w (sub32 (u32 (suc n + page_size)) 1 / page_size) in
      (if moved then h.brk else 0, h', w')
