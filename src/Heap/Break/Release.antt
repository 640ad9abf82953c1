-- ===== src/Heap/Break/Release.antt =====
-- `shrink` of kernel/src/heap.rs where it does not refuse: the free top of the heap is given back.
use kfs.Base.{
  ℕ, suc, ◌+◌, ◌-◌, ◌/◌, ◌%◌, ◌≤◌, ◌<◌, ◌≡◌, refl, ◌≢◌, Bool, true, false, none, some, List, [],
  ◌∷◌, ltb, arith, Bool-cases, inl, inr, ◌∙◌, ap,
}
use kfs.Pager.{Pager, View, Laws, page_of, Keeps}
use kfs.Heap.{Heap, page_size, write_header}
use kfs.Heap.Blocks.{
  Block, block, Tiled, Tiled-Agrees, Found, block_at, block_at-nil, block_at-here, block_at-later,
  block_at-Found, block_at-inside, block_at-above, live, live_size, replace,
}
use kfs.Heap.Blocks.Last.{Tiled-replace_last, block_at-replace_last}
use kfs.Heap.State.{
  Within-widen, Window-Within, IsHeap, Within, Keeps-Within, write_header-Put, heap-Mapped,
}
use kfs.Heap.Fit.Merge.{Refits-refl}
use kfs.Heap.Break.{unmap_loop, release}
use kfs.Heap.Break.Unmap.{unmap_loop-Unmaps}

module _ (p : Pager) (v : View p.World) where
  open p use {World, read, oops}
  open v use {Valid, lo, hi}

  -- What a heap does not see does not change it.
  pub IsHeap-Keeps :
      {h : Heap} {w w' : World} {bs : List Block}
      → IsHeap p v h w bs
      → Keeps p v w w'
      → IsHeap p v h w' bs
  IsHeap-Keeps {h} {w} {w'} {bs} is k = record {
    placed = is.placed;
    valid = k.valid;
    pages = λ q e a b. rw (k.frames q) (is.pages q e a b);
    tiled =
        Tiled-Agrees (read w) (read w') h.base h.brk bs (omega (arith, is.placed.base_even))
          (λ a e l u. k.words a (heap-Mapped p v is a e l u)) is.tiled;
    window = λ c.
        Window-Within p v h.base h.brk h w w' (Keeps-Within p v h.base h.brk w w' k) (is.window c);
  }

  -- The break has moved down to `target`, and the allocations are those of `bs`.
  pub record Shrank (h : Heap) (bs : List Block) (target : ℕ) (h' : Heap) (w' : World)
      : Type 0 where
    pub same : h' ≡ record h { brk = target }
    pub row : List Block
    pub heap : IsHeap p v h' w' row
    pub view : (y : ℕ) → live h.base row y ≡ live h.base bs y

  abbrev pub ShrinkOutcome : Heap → List Block → ℕ → Bool × Heap × World → Type 0
  ShrinkOutcome h bs target (true, h', w') = Shrank h bs target h' w'
  ShrinkOutcome h bs target (false, h', w') =
      (h' ≡ h)
      × IsHeap p v h w' bs
      × ((x s : ℕ)
          → block_at h.base bs x ≡ some (block s false)
          → x + 8 + s ≡ h.brk
          → (x ≢ target) × (target < x + 16))

  module _ (laws : Laws p v) {h : Heap} {w : World} {bs : List Block} (is : IsHeap p v h w bs)
      (target : ℕ) (even : target % 4096 ≡ 0) (lower : h.base ≤ target)
      (upper : target ≤ h.brk) where
    abbrev lowered : Heap
    lowered = record h { brk = target }

    -- The memory from `target` up goes, once `row` ends there.
    pub Shrank-release :
        (w1 : World) (row : List Block)
        → Within p v h.base h.brk w w1
        → Tiled (read w1) h.base target row
        → ((y : ℕ) → live h.base row y ≡ live h.base bs y)
        → Shrank h bs target (release p h w1 target).0 (release p h w1 target).1
    unfolding release
    Shrank-release w1 row k t view =
        let l = is.placed in
        let w2 = unmap_loop p h (suc ((h.brk - target) / page_size)) w1 target in
        let u =
          unmap_loop-Unmaps p v laws h (suc ((h.brk - target) / page_size)) w1 target (omega arith)
            k.valid even l.brk_even (omega (arith, l.above)) (omega (arith, l.brk_le, l.below))
            (omega (arith, l.brk_le, l.room)) in
        record {
          same = refl;
          row = row;
          heap = record {
            placed = record {
              base_even = l.base_even;
              brk_even = even;
              limit_even = l.limit_even;
              not_null = l.not_null;
              base_le = lower;
              brk_le = omega (arith, l.brk_le);
              room = l.room;
              above = l.above;
              below = l.below;
              flags_small = l.flags_small;
            };
            valid = u.valid;
            pages = λ q e a b. rw (u.frames q b, k.frames q) (is.pages q e a (omega arith));
            tiled =
                Tiled-Agrees (read w1) (read w2) h.base target row (omega (arith, l.base_even))
                  (λ a e m n.
                    let m0 = heap-Mapped p v is a e m (omega arith) in
                    u.words a (m0.0, rw (k.frames (page_of a)) m0.1) (omega arith))
                  t;
            window = λ c.
                let win = is.window c in
                record {
                  fits = win.fits;
                  shows = λ q e a b. u.frames q b ∙ k.frames q ∙ win.shows q e a (omega arith);
                  spare = λ q e a b n. elim (Bool-cases (ltb q h.brk)) [
                    | inl inner ↦
                        u.freed c q _ e a (ground arith)
                          (k.frames q ∙ win.shows q e (omega arith) (ground arith))
                    | inr outer ↦ u.spare c _ (k.spare _ (win.spare q e (ground arith) b n))
                  ];
                };
          };
          view = view;
        }

    module _ (x s : ℕ) (found : block_at h.base bs x ≡ some (block s false))
        (last : x + 8 + s ≡ h.brk) where
      f : Found (read w) h.base h.brk x (block s false)
      f =
          block_at-Found (read w) h.base h.brk bs x (omega (arith, is.placed.base_even)) is.tiled
            found

      cut_view :
          (rd' : ℕ → ℕ) (new : List Block)
          → ((y : ℕ) → x ≤ y → live x new y ≡ none)
          → (y : ℕ) → live h.base (replace h.base bs x new) y ≡ live h.base bs y
      cut_view rd' new none_live y = ground (
        arith,
        block_at-replace_last (read w) rd' h.brk target x (block s false) new last h.base bs y
            (omega (arith, is.placed.base_even)) is.tiled found,
        block_at-above (read w) h.base h.brk bs y (omega (arith, is.placed.base_even)) is.tiled,
        block_at-inside (read w) h.base h.brk bs x (block s false) y
            (omega (arith, is.placed.base_even)) is.tiled found,
        none_live y,
        found,
      )

      -- The free block at the top goes whole.
      pub Shrank-whole :
          x ≡ target → Shrank h bs target (release p h w target).0 (release p h w target).1
      Shrank-whole e =
          Shrank-release w (replace h.base bs x [])
            (Refits-refl p v (record { placed = is.placed; valid = is.valid; pages = is.pages })
              is.tiled).within
            (Tiled-replace_last (read w) (read w) h.brk target x (block s false) [] last h.base bs
              (omega (arith, is.placed.base_even)) is.tiled found (λ a _ _ _. refl) e)
            (cut_view (read w) [] λ y a. ap live_size (block_at-nil x y))

      -- The free block at the top is cut off at `target`.
      pub Shrank-part :
          x + 16 ≤ target
          → (let w1 = write_header p w x (target - x - 8) false in
              Shrank h bs target (release p h w1 target).0 (release p h w1 target).1)
      Shrank-part room =
          let l = is.placed in
          let k = target - x - 8 in
          let w1 = write_header p w x k false in
          let put =
            write_header-Put p v laws w x k false is.valid
              (heap-Mapped p v is x (omega (arith, f.aligned)) f.above (omega arith))
              (heap-Mapped p v is (x + 4) (omega (arith, f.aligned)) (omega (arith, f.above))
                (omega arith))
              (omega (arith, l.brk_le, l.room)) (omega (arith, l.brk_le, l.room)) in
          let new = block k false ∷ [] in
          let cut : Tiled (read w1) x target new =
            (put.size_there, put.used_there, omega arith, omega (arith, f.aligned), omega arith) in
          Shrank-release w1 (replace h.base bs x new)
            (Within-widen p v x (x + 8) h.base h.brk w w1 f.above (omega arith) put.within)
            (Tiled-replace_last (read w) (read w1) h.brk target x (block s false) new last h.base bs
              (omega (arith, l.base_even)) is.tiled found
              (λ a e m n. put.within.words a (heap-Mapped p v is a e m (omega arith)) (inl n)) cut)
            (cut_view (read w1) new λ y a. ground (
              arith,
              block_at-here x (block k false) [] y,
              block_at-later x (block k false) [] y,
              block_at-nil (x + 8 + k) y,
            ))
