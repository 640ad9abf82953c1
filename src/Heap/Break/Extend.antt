-- ===== src/Heap/Break/Extend.antt =====
-- `grow` of kernel/src/heap.rs: the new pages join the free block at the top, or become a block.
use kfs.Base.{
  ℕ, ◌+◌, ◌-◌, ◌%◌, ◌≤◌, ◌<◌, ◌≡◌, refl, Bool, true, false, Option, none, some, List, [], ◌∷◌, ◌++◌,
  ltb, ◌==◌, arith, Bool-cases, ==→eq, inl, inr, ◌∙◌, ap, subst, u32, sub32,
}
use kfs.Pager.{Pager, View, Laws, page_of}
use kfs.Heap.{Heap, header, size_at, used_at, write_header}
use kfs.Heap.Blocks.{
  Block, block, Tiled, Tiled-append, Tiled-Agrees, block_at, block_at-nil, block_at-here,
  block_at-later, block_at-Found, block_at-inside, block_at-above, block_at-append, live, replace,
}
use kfs.Heap.Blocks.Last.{Tiled-replace_last, block_at-replace_last}
use kfs.Heap.State.{Window, Window-Within, Pages, IsHeap, Within, Put, write_header-Put}
use kfs.Heap.Walk.{last_block}
use kfs.Heap.Walk.Laws.{LastOutcome, last_block-of_Tiled, used_at-flag}
use kfs.Heap.Fit.Merge.{Usable, Usable-Mapped}
use kfs.Heap.Break.{grow_loop, extend_tail, grow}
use kfs.Heap.Break.Grow.{Grows, grow_loop-Grows}

module _ (p : Pager) (v : View p.World) where
  open p use {World, read}
  open v use {Valid, lo, hi}

  -- The break has moved up to `brk`, and the allocations are those of `bs`.
  pub record Grew (h : Heap) (bs : List Block) (h' : Heap) (w' : World) : Type 0 where
    pub same : h' ≡ record h { brk = h'.brk }
    pub moved : h.brk < h'.brk
    pub row : List Block
    pub heap : IsHeap p v h' w' row
    pub view : (y : ℕ) → live h.base row y ≡ live h.base bs y

  abbrev pub GrowOutcome : Heap → List Block → Bool × Heap × World → Type 0
  GrowOutcome h bs (true, h', w') = Grew h bs h' w'
  GrowOutcome h bs (false, h', w') = (h' ≡ h) × IsHeap p v h w' bs

  module _ (laws : Laws p v) {h : Heap} {w : World} {bs : List Block} (is : IsHeap p v h w bs)
      (at : ℕ) (w1 : World) (g : Grows p v h w h.brk (at, w1)) where
    kept : Tiled (read w1) h.base h.brk bs
    kept =
        Tiled-Agrees (read w) (read w1) h.base h.brk bs (omega (arith, is.placed.base_even))
          (λ a e l u. g.words a (
            e,
            is.pages (page_of a) (omega arith) (omega (arith, is.placed.base_even)) (omega arith),
          ))
          is.tiled

    Pages-up : Pages p v w1 h.base at
    Pages-up q e a b = elim (Bool-cases (ltb q h.brk)) [
      | inl below ↦ rw (g.before q (ground arith)) (is.pages q e a (ground arith))
      | inr above ↦ g.pages q e (ground arith) b
    ]

    -- Where the loop mapped nothing, the heap is what it was.
    pub IsHeap-still : at ≡ h.brk → IsHeap p v h w1 bs
    IsHeap-still stays = record {
      placed = is.placed;
      valid = g.valid;
      pages = λ q e a b. Pages-up q e a (omega arith);
      tiled = kept;
      window = λ c. subst (λ b. Window p v (record h { brk = b }) w1) stays (g.window c);
    }

    module _ (up : h.brk < at) where
      abbrev higher : Heap
      higher = record h { brk = at }

      higher-Usable : Usable p v higher w1
      higher-Usable =
          let l = is.placed in
          record {
            placed = record {
              base_even = l.base_even;
              brk_even = g.even;
              limit_even = l.limit_even;
              not_null = l.not_null;
              base_le = omega (arith, l.base_le);
              brk_le = g.le_limit;
              room = l.room;
              above = l.above;
              below = l.below;
              flags_small = l.flags_small;
            };
            valid = g.valid;
            pages = Pages-up;
          }

      -- A header below the new break is written, and `row` is what the memory then says.
      Grew-of_Within :
          (z : ℕ) (w2 : World) (row : List Block)
          → Within p v z (z + 8) w1 w2
          → Tiled (read w2) h.base at row
          → ((y : ℕ) → live h.base row y ≡ live h.base bs y)
          → Grew h bs higher w2
      Grew-of_Within z w2 row k t view = record {
        same = refl;
        moved = up;
        row = row;
        heap = record {
          placed = higher-Usable.placed;
          valid = k.valid;
          pages = λ q e a b. rw (k.frames q) (Pages-up q e a b);
          tiled = t;
          window = λ c. Window-Within p v z (z + 8) higher w1 w2 k (g.window c);
        };
        view = view;
      }

      header-Put :
          (z s : ℕ)
          → z % 8 ≡ 0
          → h.base ≤ z
          → z + 8 ≤ at
          → s ≤ at
          → Put p v laws w1 z s false (write_header p w1 z s false)
      header-Put z s e a b c =
          let u = higher-Usable in
          write_header-Put p v laws w1 z s false g.valid
            (Usable-Mapped p v u z (omega arith) a (omega arith))
            (Usable-Mapped p v u (z + 4) (omega arith) (omega arith) (omega arith))
            (omega (arith, u.placed.brk_le, u.placed.room))
            (omega (arith, u.placed.brk_le, u.placed.room))

      -- The new pages are a block of their own.
      Grew-append : Grew h bs higher (write_header p w1 h.brk (sub32 (sub32 at h.brk) header) false)
      Grew-append =
          let l = is.placed in
          let k = at - h.brk - 8 in
          let q : sub32 (sub32 at h.brk) header ≡ k =
            omega (arith, g.le_limit, l.room, g.even, l.brk_even) in
          let put =
            header-Put h.brk k (omega (arith, l.brk_even)) l.base_le
              (omega (arith, g.even, l.brk_even)) (omega arith) in
          let w2 = write_header p w1 h.brk k false in
          let new = block k false ∷ [] in
          let before : Tiled (read w2) h.base h.brk bs =
            Tiled-Agrees (read w1) (read w2) h.base h.brk bs (omega (arith, l.base_even))
              (λ a e m u.
                put.within.words a (Usable-Mapped p v higher-Usable a e m (omega arith)) (inl u))
              kept in
          let cut : Tiled (read w2) h.brk at new = (
            put.size_there,
            put.used_there,
            omega (arith, g.even, l.brk_even),
            omega (arith, g.even, l.brk_even),
            omega (arith, g.even, l.brk_even),
          ) in
          rw q (
            Grew-of_Within h.brk w2 (bs ++ new) put.within
              (Tiled-append (read w2) h.base h.brk at bs new before cut)
              λ y. ground (
                arith,
                block_at-append (read w2) h.base h.brk bs new y before,
                block_at-above (read w2) h.base h.brk bs y (omega (arith, l.base_even)) before,
                block_at-here h.brk (block k false) [] y,
                block_at-later h.brk (block k false) [] y,
                block_at-nil (h.brk + 8 + k) y,
              ))

      -- The new pages join the free block `b` at the top.
      Grew-join :
          (x s : ℕ)
          → block_at h.base bs x ≡ some (block s false)
          → x + 8 + s ≡ h.brk
          → Grew h bs higher (write_header p w1 x (u32 (size_at p w1 x + sub32 at h.brk)) false)
      unfolding size_at
      Grew-join x s found last =
          let l = is.placed in
          let f =
            block_at-Found (read w1) h.base h.brk bs x (omega (arith, l.base_even)) kept found in
          let k = s + (at - h.brk) in
          let q : u32 (s + sub32 at h.brk) ≡ k = omega (arith, g.le_limit, l.room) in
          let put = header-Put x k f.aligned f.above (omega arith) (omega arith) in
          let w2 = write_header p w1 x k false in
          let new = block k false ∷ [] in
          let cut : Tiled (read w2) x at new = (
            put.size_there,
            put.used_there,
            omega (arith, f.big),
            omega (arith, f.even, g.even, l.brk_even),
            omega arith,
          ) in
          rw (f.size, q)
            (Grew-of_Within x w2 (replace h.base bs x new) put.within
              (Tiled-replace_last (read w1) (read w2) h.brk at x (block s false) new last h.base bs
                (omega (arith, l.base_even)) kept found
                (λ a e m u.
                  put.within.words a (Usable-Mapped p v higher-Usable a e m (omega arith)) (inl u))
                cut)
              λ y. ground (
                arith,
                block_at-replace_last (read w1) (read w2) h.brk at x (block s false) new last h.base
                    bs y (omega (arith, l.base_even)) kept found,
                block_at-above (read w1) h.base h.brk bs y (omega (arith, l.base_even)) kept,
                block_at-inside (read w1) h.base h.brk bs x (block s false) y
                    (omega (arith, l.base_even)) kept found,
                block_at-here x (block k false) [] y,
                block_at-later x (block k false) [] y,
                block_at-nil (x + 8 + k) y,
                found,
              ))

      extend_none :
          extend_tail p w1 none h.brk at
          ≡ write_header p w1 h.brk (sub32 (sub32 at h.brk) header) false
      unfolding extend_tail
      extend_none = refl

      extend_used :
          (x : ℕ)
          → used_at p w1 x ≡ true
          → extend_tail p w1 (some x) h.brk at
            ≡ write_header p w1 h.brk (sub32 (sub32 at h.brk) header) false
      extend_used x e = unfold extend_tail in rw e

      extend_free :
          (x : ℕ)
          → used_at p w1 x ≡ false
          → extend_tail p w1 (some x) h.brk at
            ≡ write_header p w1 x (u32 (size_at p w1 x + sub32 at h.brk)) false
      extend_free x e = unfold extend_tail in rw e

      Grew-extend :
          (r : Option ℕ)
          → LastOutcome h.base h.brk bs r
          → Grew h bs higher (extend_tail p w1 r h.brk at)
      Grew-extend none empty = rw extend_none Grew-append
      Grew-extend (some x) (b, found, last) =
          let l = is.placed in
          let f =
            block_at-Found (read w1) h.base h.brk bs x (omega (arith, l.base_even)) kept found in
          let test = used_at-flag p w1 x b.used (omega (arith, f.below, l.brk_le, l.room)) f.used in
          elim (Bool-cases b.used) [
            | inl used ↦ rw (extend_used x (test ∙ used)) Grew-append
            | inr free ↦
                let same : b ≡ block b.size false = ground arith in
                rw (extend_free x (test ∙ free))
                  (Grew-join x b.size (found ∙ ap (λ c. some c) same) last)
          ]

      -- The heap with the pages that the loop has mapped.
      pub Grew-higher : Grew h bs higher (extend_tail p w1 (last_block p h w1 h.brk) h.brk at)
      Grew-higher =
          let l = is.placed in
          Grew-extend (last_block p h w1 h.brk) (
            last_block-of_Tiled p h w1 (omega (arith, l.brk_le, l.room)) h.brk bs l.base_le
              (omega (arith, l.brk_le, l.room)) kept)

  pub grow_none :
      (h : Heap) (w : World) (pages : ℕ)
      → ((grow_loop p h pages w h.brk).0 == h.brk) ≡ true
      → grow p h w pages ≡ (false, h, (grow_loop p h pages w h.brk).1)
  grow_none h w pages e = unfold grow in rw e

  pub grow_some :
      (h : Heap) (w : World) (pages : ℕ)
      → ((grow_loop p h pages w h.brk).0 == h.brk) ≡ false
      → grow p h w pages ≡ (
        true,
        record h { brk = (grow_loop p h pages w h.brk).0 },
        extend_tail p
            (grow_loop p h pages w h.brk).1
            (last_block p h (grow_loop p h pages w h.brk).1 h.brk)
            h.brk
            (grow_loop p h pages w h.brk).0,
      )
  grow_some h w pages e = unfold grow in rw e

  -- `grow` maps whole pages behind the break and gives them to the heap as free memory, and says
  -- `false`, with the heap as it was, when it could not map one. No allocation changes either way.
  pub grow-GrowOutcome :
      Laws p v
      → (h : Heap) (w : World) (bs : List Block) (pages : ℕ) → IsHeap p v h w bs
      → GrowOutcome h bs (grow p h w pages)
  grow-GrowOutcome laws h w bs pages is =
      let l = is.placed in
      let g =
        grow_loop-Grows p v laws h l.room l.above l.below l.flags_small pages w h.brk is.valid
          l.brk_even l.base_le l.brk_le is.window in
      let at = (grow_loop p h pages w h.brk).0 in
      let w1 = (grow_loop p h pages w h.brk).1 in
      elim (Bool-cases (at == h.brk)) [
        | inl stays ↦
            rw (grow_none h w pages stays) (refl, IsHeap-still laws is at w1 g (==→eq _ _ stays))
        | inr up ↦
            rw (grow_some h w pages up) (Grew-higher laws is at w1 g (ground (arith, g.from_le)))
      ]
