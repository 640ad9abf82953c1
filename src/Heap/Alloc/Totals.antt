-- ===== src/Heap/Alloc/Totals.antt =====
-- `stats` of kernel/src/heap.rs counts the blocks and bytes of the row.
use kfs.Base.{
  ℕ, zero, suc, ◌+◌, ◌-◌, ◌*◌, ◌^◌, ◌≤◌, ◌<◌, ◌≡◌, refl, Bool, true, false, List, [], ◌∷◌, leb,
  if◌then◌else◌, arith, Bool-cases, inl, inr, ◌∙◌, u32,
}
use kfs.Pager.{Pager, View}
use kfs.Heap.{Heap, Stats, header, next_at, size_at, used_at, is_contiguous}
use kfs.Heap.Blocks.{Block, Tiled, Tiled-le}
use kfs.Heap.State.{IsHeap}
use kfs.Heap.Walk.Laws.{used_at-flag}
use kfs.Heap.Alloc.{tally, stats_loop, stats}

-- The payload bytes of the blocks whose mark is `u`.
pub bytes : Bool → List Block → ℕ
bytes u [] = 0
bytes u (b ∷ bs) =
    (if b.used then (if u then b.size else 0) else (if u then 0 else b.size)) + bytes u bs

pub count : List Block → ℕ
count [] = 0
count (b ∷ bs) = 1 + count bs

pub count_live : List Block → ℕ
count_live [] = 0
count_live (b ∷ bs) = (if b.used then 1 else 0) + count_live bs

-- The figures `s'` are `s` with the blocks of a row added.
pub record Adds (s : Stats) (bs : List Block) (s' : Stats) : Type 0 where
  pub used : s'.used ≡ s.used + bytes true bs
  pub free : s'.free ≡ s.free + bytes false bs
  pub blocks : s'.blocks ≡ s.blocks + count bs
  pub live : s'.live ≡ s.live + count_live bs
  pub base : s'.base ≡ s.base
  pub brk : s'.brk ≡ s.brk
  pub limit : s'.limit ≡ s.limit

module _ (p : Pager) where
  open p use {World, read}

  -- The row fills the memory.
  pub bytes-Tiled :
      (rd : ℕ → ℕ) (at end : ℕ) (bs : List Block)
      → Tiled rd at end bs
      → at + bytes true bs + bytes false bs + 8 * count bs ≡ end
  unfolding bytes count
  bytes-Tiled rd at end [] t = omega (arith, t)
  bytes-Tiled rd at end (b ∷ bs) t = ground (arith, bytes-Tiled rd (at + 8 + b.size) end bs t.4)

  count_live-le : (bs : List Block) → count_live bs ≤ count bs
  unfolding count count_live
  count_live-le [] = omega arith
  count_live-le (b ∷ bs) = ground (arith, count_live-le bs)

  tally_used :
      (w : World) (at : ℕ) (s : Stats)
      → used_at p w at ≡ true
      → tally p w at s ≡ record s {
        blocks = u32 (s.blocks + 1);
        used = u32 (s.used + read w at);
        live = u32 (s.live + 1);
      }
  unfolding size_at
  tally_used w at s e = unfold tally in rw e

  tally_free :
      (w : World) (at : ℕ) (s : Stats)
      → used_at p w at ≡ false
      → tally p w at s ≡ record s { blocks = u32 (s.blocks + 1); free = u32 (s.free + read w at) }
  unfolding size_at
  tally_free w at s e = unfold tally in rw e

  Adds-tally :
      (w : World) (at : ℕ) (s : Stats) (b : Block)
      → read w at ≡ b.size
      → used_at p w at ≡ b.used
      → s.used + bytes true (b ∷ []) < 2 ^ 32
      → s.free + bytes false (b ∷ []) < 2 ^ 32
      → s.blocks + 1 < 2 ^ 32
      → s.live + count_live (b ∷ []) < 2 ^ 32
      → Adds s (b ∷ []) (tally p w at s)
  unfolding bytes count count_live
  Adds-tally w at s b size test u f k l = elim (Bool-cases b.used) [
    | inl used ↦ rw (tally_used w at s (test ∙ used)) (record {
      used = ground arith;
      free = ground arith;
      blocks = ground arith;
      live = ground arith;
      base = refl;
      brk = refl;
      limit = refl;
    })
    | inr unused ↦ rw (tally_free w at s (test ∙ unused)) (record {
      used = ground arith;
      free = ground arith;
      blocks = ground arith;
      live = ground arith;
      base = refl;
      brk = refl;
      limit = refl;
    })
  ]

  Adds-cons :
      (s s' s'' : Stats) (b : Block) (bs : List Block)
      → Adds s (b ∷ []) s'
      → Adds s' bs s''
      → Adds s (b ∷ bs) s''
  unfolding bytes count count_live
  Adds-cons s s' s'' b bs m n = record {
    used = omega (arith, m.used, n.used);
    free = omega (arith, m.free, n.free);
    blocks = omega (arith, m.blocks, n.blocks);
    live = omega (arith, m.live, n.live);
    base = n.base ∙ m.base;
    brk = n.brk ∙ m.brk;
    limit = n.limit ∙ m.limit;
  }

  Adds-nil : (s : Stats) → Adds s [] s
  unfolding bytes count count_live
  Adds-nil s = record {
    used = omega arith;
    free = omega arith;
    blocks = omega arith;
    live = omega arith;
    base = refl;
    brk = refl;
    limit = refl;
  }

  module _ (h : Heap) (w : World) (low : h.brk + 0x10000 ≤ 2 ^ 32) where
    stats_ends :
        (fuel at : ℕ) (s : Stats)
        → h.brk < at + 8
        → at ≤ h.brk
        → stats_loop p (suc fuel) h w at s ≡ s
    stats_ends fuel at s a b =
        let q : leb (u32 (at + header)) h.brk ≡ false = ground arith in
        unfold stats_loop in rw (q, stats_loop)

    stats_moves :
        (fuel at : ℕ) (s : Stats)
        → at + 8 + read w at ≤ h.brk
        → stats_loop p (suc fuel) h w at s
          ≡ stats_loop p fuel h w (at + 8 + read w at) (tally p w at s)
    stats_moves fuel at s a =
        let q : leb (u32 (at + header)) h.brk ≡ true = ground arith in
        let n : next_at at (read w at) ≡ at + 8 + read w at = omega arith in
        unfold stats_loop size_at in rw (q, n, stats_loop)

    -- The counters stay below what of the heap has been passed.
    abbrev Small : Stats → ℕ → Type 0
    Small s at = (s.used ≤ at) × (s.free ≤ at) × (s.blocks ≤ at) × (s.live ≤ at)

    Small-next :
        (at : ℕ) (s s' : Stats) (b : Block)
        → Small s at
        → Adds s (b ∷ []) s'
        → Small s' (at + 8 + b.size)
    unfolding bytes count count_live
    Small-next at s s' b (a, c, d, e) m = (
      ground (arith, m.used),
      ground (arith, m.free),
      ground (arith, m.blocks),
      ground (arith, m.live),
    )

    Adds-block :
        (at : ℕ) (s : Stats) (b : Block) (bs : List Block)
        → Tiled (read w) at h.brk (b ∷ bs)
        → Small s at
        → Adds s (b ∷ []) (tally p w at s)
    unfolding bytes count count_live
    Adds-block at s b bs t (a, c, d, e) =
        let fits = Tiled-le (read w) (at + 8 + b.size) h.brk bs t.4 in
        Adds-tally w at s b t.0 (used_at-flag p w at b.used (omega arith) t.1) (ground arith)
          (ground arith) (ground arith) (ground arith)

    stats_loop-Adds :
        (fuel at : ℕ) (bs : List Block) (s : Stats)
        → h.brk < fuel + at
        → Tiled (read w) at h.brk bs
        → Small s at
        → Adds s bs (stats_loop p fuel h w at s)
    stats_loop-Adds zero at bs s enough t small =
        absurd (omega (arith, Tiled-le (read w) at h.brk bs t))
    stats_loop-Adds (suc fuel) at [] s enough t small =
        rw (stats_ends fuel at s (omega arith) (omega arith)) (Adds-nil s)
    stats_loop-Adds (suc fuel) at (b ∷ bs) s enough t small =
        let m = Adds-block at s b bs t small in
        let n : at + 8 + read w at ≡ at + 8 + b.size = omega (arith, t.0) in
        rw
          (
            stats_moves fuel at s
                (omega (arith, t.0, Tiled-le (read w) (at + 8 + b.size) h.brk bs t.4)),
            n,
          )
          (Adds-cons s (tally p w at s) _ b bs m (
            stats_loop-Adds fuel (at + 8 + b.size) bs (tally p w at s) (omega arith) t.4
              (Small-next at s (tally p w at s) b small m)))

  -- What `stats` says of the row `bs`.
  pub record Totals (h : Heap) (bs : List Block) (s : Stats) : Type 0 where
    pub used : s.used ≡ bytes true bs
    pub free : s.free ≡ bytes false bs
    pub blocks : s.blocks ≡ count bs
    pub live : s.live ≡ count_live bs
    pub base : s.base ≡ h.base
    pub brk : s.brk ≡ h.brk
    pub limit : s.limit ≡ h.limit
    pub whole : s.used + s.free + 8 * s.blocks ≡ s.brk - s.base

  -- `stats` counts the blocks and the allocations, and the bytes in use and free, none of which
  -- wraps; with 8 bytes a block for the headers they make up the whole heap.
  pub stats-Totals :
      (v : View p.World) (h : Heap) (w : World) (bs : List Block)
      → IsHeap p v h w bs
      → Totals h bs (stats p h w)
  unfolding stats
  stats-Totals v h w bs is =
      let l = is.placed in
      let start : Stats = record {
        name = h.name;
        base = h.base;
        brk = h.brk;
        limit = h.limit;
        used = 0;
        free = 0;
        blocks = 0;
        live = 0;
        contiguous = is_contiguous h.backing;
        phys_base = h.phys_base;
        phys_end = h.phys_end;
      } in
      let m =
        stats_loop-Adds h w (omega (arith, l.brk_le, l.room)) (suc (h.brk - h.base)) h.base bs start
          (omega (arith, l.base_le)) is.tiled
          (omega arith, omega arith, omega arith, omega arith) in
      let full = bytes-Tiled (read w) h.base h.brk bs is.tiled in
      record {
        used = m.used ∙ omega arith;
        free = m.free ∙ omega arith;
        blocks = m.blocks ∙ omega arith;
        live = m.live ∙ omega arith;
        base = m.base;
        brk = m.brk;
        limit = m.limit;
        whole = omega (arith, full, m.used, m.free, m.blocks, m.base, m.brk);
      }
