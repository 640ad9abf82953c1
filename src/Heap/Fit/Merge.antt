-- ===== src/Heap/Fit/Merge.antt =====
-- The inner loop of `first_fit` in kernel/src/heap.rs: a free block takes in the free blocks
-- behind it, and no allocation moves.
use kfs.Base.{
  ℕ, zero, suc, ◌+◌, ◌%◌, ◌≤◌, ◌<◌, ◌≡◌, refl, true, false, ◌||◌, List, [], ◌∷◌, ltb, arith,
  Bool-cases, inl, inr, ◌∙◌, subst, u32,
}
use kfs.Pager.{Pager, View, Laws, Mapped, page_of}
use kfs.Heap.{Heap, header, next_at, size_at, used_at, write_header}
use kfs.Heap.Blocks.{
  Block, block, Tiled, Tiled-le, Tiled-Agrees, block_at-here, block_at-later, block_at-below, live,
}
use kfs.Heap.State.{Placed, Pages, Within, Within-trans, Within-widen, write_header-Put}
use kfs.Heap.Walk.Laws.{used_at-flag}
use kfs.Heap.Fit.{merge_loop}

module _ (p : Pager) (v : View p.World) where
  open p use {World, read}
  open v use {Valid, lo, hi}

  -- The memory of the heap can be read and written.
  pub record Usable (h : Heap) (w : World) : Type 0 where
    pub placed : Placed lo hi h
    pub valid : Valid w
    pub pages : Pages p v w h.base h.brk

  pub Usable-Mapped :
      {h : Heap} {w : World} (u : Usable h w) (a : ℕ)
      → a % 4 ≡ 0
      → h.base ≤ a
      → a < h.brk
      → Mapped p v w a
  Usable-Mapped u a e lower upper =
      (e, u.pages (page_of a) (omega arith) (omega (arith, u.placed.base_even)) (omega arith))

  pub Within-Usable :
      {from to : ℕ} {h : Heap} {w w' : World} → Within p v from to w w' → Usable h w → Usable h w'
  Within-Usable k u = record {
    placed = u.placed;
    valid = k.valid;
    pages = λ q e a l. rw (k.frames q) (u.pages q e a l);
  }

  -- From `at` on the row `bs` has become `bs'`, with the same allocations.
  pub record Refits (h : Heap) (w w' : World) (at : ℕ) (bs bs' : List Block) : Type 0 where
    pub within : Within p v at h.brk w w'
    pub tiled : Tiled (read w') at h.brk bs'
    pub same : (y : ℕ) → live at bs' y ≡ live at bs y

  -- The row is empty or begins with a block in use.
  abbrev pub HeadUsed : List Block → Type 0
  HeadUsed [] = Unit {0}
  HeadUsed (b ∷ bs) = b.used ≡ true

  pub record Merged (h : Heap) (w : World) (at size : ℕ) (bs : List Block) (r : ℕ × World)
      : Type 0 where
    pub rest : List Block
    pub refits : Refits h w r.1 at (block size false ∷ bs) (block r.0 false ∷ rest)
    pub stops : HeadUsed rest

  module _ (h : Heap) where
    merge_stops :
        (fuel : ℕ) (w : World) (at size : ℕ)
        → (ltb h.brk (u32 (next_at at size + header)) || used_at p w (next_at at size)) ≡ true
        → merge_loop p (suc fuel) h w at size ≡ (size, w)
    merge_stops fuel w at size e = unfold merge_loop in rw (e, merge_loop)

    merge_joins :
        (fuel : ℕ) (w : World) (at size more : ℕ)
        → (ltb h.brk (u32 (next_at at size + header)) || used_at p w (next_at at size)) ≡ false
        → u32 (size + u32 (header + size_at p w (next_at at size))) ≡ more
        → merge_loop p (suc fuel) h w at size
          ≡ merge_loop p fuel h (write_header p w at more false) at more
    merge_joins fuel w at size more e n = unfold merge_loop in rw (e, n, merge_loop)

  joined_live :
      (rd : ℕ → ℕ) (at size : ℕ) (c : Block) (bs : List Block) (y : ℕ)
      → c.used ≡ false
      → live at (block (size + (8 + c.size)) false ∷ bs) y ≡ live at (block size false ∷ c ∷ bs) y
  joined_live rd at size c bs y unused =
      let q : at + 8 + (size + (8 + c.size)) ≡ at + 8 + size + 8 + c.size = omega arith in
      ground (
        arith,
        q,
        block_at-here at (block size false) (c ∷ bs) y,
        block_at-later at (block size false) (c ∷ bs) y,
        block_at-here at (block (size + (8 + c.size)) false) bs y,
        block_at-later at (block (size + (8 + c.size)) false) bs y,
        block_at-here (at + 8 + size) c bs y,
        block_at-later (at + 8 + size) c bs y,
        block_at-below rd (at + 8 + size + 8 + c.size) bs y,
      )

  pub Refits-refl :
      {h : Heap} {w : World} {at : ℕ} {bs : List Block}
      → Usable h w
      → Tiled (read w) at h.brk bs
      → Refits h w w at bs bs
  Refits-refl u t = record {
    within = record {
      valid = u.valid;
      frames = λ q. refl;
      spare = λ g s. s;
      words = λ b m o. refl;
    };
    tiled = t;
    same = λ y. refl;
  }

  pub Refits-trans :
      {h : Heap} {w w' w'' : World} {at : ℕ} {xs ys zs : List Block}
      → Refits h w w' at xs ys
      → Refits h w' w'' at ys zs
      → Refits h w w'' at xs zs
  Refits-trans {h} {w} {w'} {w''} {at} k l = record {
    within = Within-trans p v at h.brk w w' w'' k.within l.within;
    tiled = l.tiled;
    same = λ y. l.same y ∙ k.same y;
  }

  module _ (laws : Laws p v) (h : Heap) where
    -- One free block joins.
    join-Refits :
        (w : World) (at size : ℕ) (c : Block) (bs : List Block)
        → Usable h w
        → h.base ≤ at
        → at % 8 ≡ 0
        → Tiled (read w) at h.brk (block size false ∷ c ∷ bs)
        → c.used ≡ false
        → Refits h w
            (write_header p w at (size + (8 + c.size)) false)
            at
            (block size false ∷ c ∷ bs)
            (block (size + (8 + c.size)) false ∷ bs)
    join-Refits w at size c bs u lower even t unused =
        let g = u.placed in
        let more = size + (8 + c.size) in
        let fits = Tiled-le (read w) (at + 8 + size + 8 + c.size) h.brk bs t.4.4 in
        let put =
          write_header-Put p v laws w at more false u.valid
            (Usable-Mapped u at (omega arith) lower (omega arith))
            (Usable-Mapped u (at + 4) (omega arith) (omega arith) (omega arith))
            (omega (arith, g.brk_le, g.room)) (omega (arith, g.brk_le, g.room)) in
        let w' = write_header p w at more false in
        let q : at + 8 + size + 8 + c.size ≡ at + 8 + more = omega arith in
        let kept =
          Tiled-Agrees (read w) (read w') (at + 8 + size + 8 + c.size) h.brk bs (omega arith)
            (λ a e l k.
              put.within.words a (Usable-Mapped u a e (omega arith) k) (inr (omega arith)))
            t.4.4 in
        record {
          within =
              Within-widen p v at (at + 8) at h.brk w w' (omega arith) (omega arith) put.within;
          tiled = (
            put.size_there,
            put.used_there,
            omega arith,
            omega arith,
            subst (λ m. Tiled (read w') m h.brk bs) q kept,
          );
          same = λ y. joined_live (read w) at size c bs y unused;
        }

    next_here :
        (w : World) (at size : ℕ) (bs : List Block)
        → Usable h w
        → Tiled (read w) at h.brk (block size false ∷ bs)
        → next_at at size ≡ at + 8 + size
    next_here w at size bs u t =
        omega
          (arith, u.placed.brk_le, u.placed.room, Tiled-le (read w) (at + 8 + size) h.brk bs t.4)

    stop_test :
        (fuel : ℕ) (w : World) (at size : ℕ) (bs : List Block)
        → Usable h w
        → Tiled (read w) at h.brk (block size false ∷ bs)
        → HeadUsed bs
        → (ltb h.brk (u32 (next_at at size + header)) || used_at p w (next_at at size)) ≡ true
    stop_test fuel w at size [] u t stop =
        let n = next_here w at size [] u t in ground (arith, n, t.4, u.placed.brk_le, u.placed.room)
    stop_test fuel w at size (c ∷ bs) u t stop =
        let n = next_here w at size (c ∷ bs) u t in
        let fits = Tiled-le (read w) (at + 8 + size + 8 + c.size) h.brk bs t.4.4 in
        let q =
          used_at-flag p w (at + 8 + size) c.used (omega (arith, u.placed.brk_le, u.placed.room))
            t.4.1 in
        ground (arith, n, q)

    join_test :
        (w : World) (at size : ℕ) (c : Block) (bs : List Block)
        → Usable h w
        → Tiled (read w) at h.brk (block size false ∷ c ∷ bs)
        → c.used ≡ false
        → (ltb h.brk (u32 (next_at at size + header)) || used_at p w (next_at at size)) ≡ false
    join_test w at size c bs u t unused =
        let n = next_here w at size (c ∷ bs) u t in
        let fits = Tiled-le (read w) (at + 8 + size + 8 + c.size) h.brk bs t.4.4 in
        let q =
          used_at-flag p w (at + 8 + size) c.used (omega (arith, u.placed.brk_le, u.placed.room))
            t.4.1 in
        ground (arith, n, q, fits, u.placed.brk_le, u.placed.room)

    join_size :
        (w : World) (at size : ℕ) (c : Block) (bs : List Block)
        → Usable h w
        → Tiled (read w) at h.brk (block size false ∷ c ∷ bs)
        → u32 (size + u32 (header + size_at p w (next_at at size))) ≡ size + (8 + c.size)
    unfolding size_at
    join_size w at size c bs u t =
        let n = next_here w at size (c ∷ bs) u t in
        let fits = Tiled-le (read w) (at + 8 + size + 8 + c.size) h.brk bs t.4.4 in
        rw (n, t.4.0) (omega (arith, u.placed.brk_le, u.placed.room))

    Merged-stop :
        (w : World) (at size : ℕ) (bs : List Block)
        → Usable h w
        → Tiled (read w) at h.brk (block size false ∷ bs)
        → HeadUsed bs
        → Merged h w at size bs (size, w)
    Merged-stop w at size bs u t stop = record { rest = bs; refits = Refits-refl u t; stops = stop }

    pub merge_loop-Merged :
        (fuel : ℕ) (w : World) (at size : ℕ) (bs : List Block)
        → h.brk < fuel + (at + 8 + size)
        → Usable h w
        → h.base ≤ at
        → at % 8 ≡ 0
        → Tiled (read w) at h.brk (block size false ∷ bs)
        → Merged h w at size bs (merge_loop p fuel h w at size)
    merge_loop-Merged zero w at size bs enough u lower even t =
        absurd (omega (arith, Tiled-le (read w) (at + 8 + size) h.brk bs t.4))
    merge_loop-Merged (suc fuel) w at size [] enough u lower even t =
        rw (merge_stops h fuel w at size (stop_test fuel w at size [] u t tt))
          (Merged-stop w at size [] u t tt)
    merge_loop-Merged (suc fuel) w at size (c ∷ bs) enough u lower even t =
        elim (Bool-cases c.used) [
          | inl used ↦
              rw (merge_stops h fuel w at size (stop_test fuel w at size (c ∷ bs) u t used))
                (Merged-stop w at size (c ∷ bs) u t used)
          | inr unused ↦
              let more = size + (8 + c.size) in
              let w' = write_header p w at more false in
              let fits = Tiled-le (read w) (at + 8 + size + 8 + c.size) h.brk bs t.4.4 in
              let step = join-Refits w at size c bs u lower even t unused in
              let rest =
                merge_loop-Merged fuel w' at more bs (omega arith) (Within-Usable step.within u)
                  lower even step.tiled in
              rw
                (merge_joins h fuel w at size more (join_test w at size c bs u t unused)
                  (join_size w at size c bs u t))
                (record {
                  rest = rest.rest;
                  refits = Refits-trans step rest.refits;
                  stops = rest.stops;
                })
        ]
