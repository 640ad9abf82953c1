-- ===== src/Heap/Fit/Take.antt =====
-- `take` of kernel/src/heap.rs: a free block becomes an allocation, and what is left of it,
-- where that is a block, stays free.
use kfs.Base.{
  ℕ, ◌+◌, ◌-◌, ◌%◌, ◌≤◌, ◌<◌, ◌≡◌, refl, true, false, none, some, List, [], ◌∷◌, leb, ◌==◌,
  if◌then◌else◌, arith, Bool-cases, inl, inr, ◌∙◌, u32, sub32,
}
use kfs.Pager.{Pager, View, Laws}
use kfs.Heap.{Heap, header, smallest, size_at, write_header}
use kfs.Heap.Blocks.{
  Block, block, Tiled, Found, block_at, block_at-nil, block_at-here, block_at-later, block_at-Found,
  block_at-replace, block_at-inside, live, replace,
}
use kfs.Heap.State.{
  IsHeap, Put, write_header-Put, heap-Mapped, IsHeap-replace, Within-widen, Within-trans,
  Window-Within,
}
use kfs.Heap.Fit.{take}
use kfs.Heap.Fit.Merge.{Usable, Usable-Mapped, Within-Usable, Refits}

module _ (p : Pager) (v : View p.World) where
  open p use {World, read}

  pub Refits-IsHeap :
      {h : Heap} {w w' : World} {bs row : List Block}
      → IsHeap p v h w bs
      → Refits p v h w w' h.base bs row
      → IsHeap p v h w' row
  Refits-IsHeap {h} {w} {w'} is r = record {
    placed = is.placed;
    valid = r.within.valid;
    pages = λ q e a l. rw (r.within.frames q) (is.pages q e a l);
    tiled = r.tiled;
    window = λ c. Window-Within p v h.base h.brk h w w' r.within (is.window c);
  }

  -- The allocation at `x` is new, holds `need` bytes or more, and every other one stays.
  pub record Taken (h : Heap) (bs : List Block) (x need : ℕ) (r : ℕ × World) : Type 0 where
    pub pointer : r.0 ≡ x + 8
    pub given : ℕ
    pub enough : need ≤ given
    pub row : List Block
    pub heap : IsHeap p v h r.1 row
    pub view : (y : ℕ) → live h.base row y ≡ (if x == y then some given else live h.base bs y)

  module _ (laws : Laws p v) {h : Heap} {w : World} {bs : List Block} (is : IsHeap p v h w bs)
      (x s need : ℕ) (found : block_at h.base bs x ≡ some (block s false)) (fits : need ≤ s)
      (big : 8 ≤ need) (even : need % 8 ≡ 0) where
    there : Found (read w) h.base h.brk x (block s false)
    there =
        block_at-Found (read w) h.base h.brk bs x (omega (arith, is.placed.base_even)) is.tiled
          found

    whole : Put p v laws w x s true (write_header p w x s true)
    whole =
        let g = is.placed in
        write_header-Put p v laws w x s true is.valid
          (heap-Mapped p v is x (omega (arith, there.aligned)) there.above
            (omega (arith, there.below)))
          (heap-Mapped p v is (x + 4) (omega (arith, there.aligned)) (omega (arith, there.above))
            (omega (arith, there.below)))
          (omega (arith, there.below, g.brk_le, g.room))
          (omega (arith, there.below, g.brk_le, g.room))

    take_whole :
        leb (u32 (u32 (need + header) + smallest)) s ≡ false
        → take p w x need ≡ (x + 8, write_header p w x s true)
    unfolding take size_at
    take_whole less =
        let q : u32 (x + header) ≡ x + 8 =
          omega (arith, there.below, is.placed.brk_le, is.placed.room) in
        rw (there.size, less, q)

    take_part :
        leb (u32 (u32 (need + header) + smallest)) s ≡ true
        → need + 16 ≤ s
        → take p w x need ≡ (
          x + 8,
          write_header p (write_header p w x need true) (x + 8 + need) (s - need - 8) false,
        )
    unfolding take size_at
    take_part more room =
        let q : u32 (x + header) ≡ x + 8 =
          omega (arith, there.below, is.placed.brk_le, is.placed.room) in
        let n : u32 (x + 8 + need) ≡ x + 8 + need =
          omega (arith, there.below, is.placed.brk_le, is.placed.room) in
        let k : sub32 (sub32 s need) header ≡ s - need - 8 =
          omega (arith, there.below, is.placed.brk_le, is.placed.room) in
        rw (there.size, more, q, n, k)

    cut_view :
        (w' : World) (new : List Block) (k : ℕ)
        → Tiled (read w') x (x + 8 + s) new
        → ((y : ℕ) → x ≤ y → y < x + 8 + s → live x new y ≡ (if x == y then some k else none))
        → (y : ℕ)
        → live h.base (replace h.base bs x new) y ≡ (if x == y then some k else live h.base bs y)
    cut_view w' new k cut inner y = ground (
      arith,
      block_at-replace (read w) (read w') h.brk x (block s false) new h.base bs y
          (omega (arith, is.placed.base_even)) is.tiled found cut,
      inner y,
      block_at-inside (read w) h.base h.brk bs x (block s false) y
          (omega (arith, is.placed.base_even)) is.tiled found,
    )

    parted :
        need + 16 ≤ s
        → Taken h bs x need (
          x + 8,
          write_header p (write_header p w x need true) (x + 8 + need) (s - need - 8) false,
        )
    parted room =
        let g = is.placed in
        let f = there in
        let u : Usable p v h w = record { placed = g; valid = is.valid; pages = is.pages } in
        let one =
          write_header-Put p v laws w x need true is.valid
            (Usable-Mapped p v u x (omega (arith, f.aligned)) f.above (omega (arith, f.below)))
            (Usable-Mapped p v u (x + 4) (omega (arith, f.aligned)) (omega (arith, f.above))
              (omega (arith, f.below)))
            (omega (arith, f.below, g.brk_le, g.room)) (omega (arith, f.below, g.brk_le, g.room)) in
        let w1 = write_header p w x need true in
        let u1 = Within-Usable p v one.within u in
        let z = x + 8 + need in
        let two =
          write_header-Put p v laws w1 z (s - need - 8) false one.within.valid
            (Usable-Mapped p v u1 z (omega (arith, f.aligned)) (omega (arith, f.above))
              (omega (arith, f.below)))
            (Usable-Mapped p v u1 (z + 4) (omega (arith, f.aligned)) (omega (arith, f.above))
              (omega (arith, f.below)))
            (omega (arith, f.below, g.brk_le, g.room)) (omega (arith, f.below, g.brk_le, g.room)) in
        let w2 = write_header p w1 z (s - need - 8) false in
        let within =
          Within-trans p v x (x + 8 + s) w w1 w2
            (Within-widen p v x (x + 8) x (x + 8 + s) w w1 (omega arith) (omega arith) one.within)
            (Within-widen p v z (z + 8) x (x + 8 + s) w1 w2 (omega arith) (omega arith)
              two.within) in
        let new = block need true ∷ block (s - need - 8) false ∷ [] in
        let cut : Tiled (read w2) x (x + 8 + s) new = (
          two.within.words x
                (Usable-Mapped p v u1 x (omega (arith, f.aligned)) f.above (omega (arith, f.below)))
                (inl (omega arith))
              ∙ one.size_there,
          two.within.words (x + 4)
                (Usable-Mapped p v u1 (x + 4) (omega (arith, f.aligned)) (omega (arith, f.above))
                  (omega (arith, f.below)))
                (inl (omega arith))
              ∙ one.used_there,
          big,
          even,
          (two.size_there, two.used_there, omega arith, omega (arith, f.even), omega arith),
        ) in
        record {
          pointer = refl;
          given = need;
          enough = omega arith;
          row = replace h.base bs x new;
          heap = IsHeap-replace p v is w2 x (block s false) new found within cut;
          view = cut_view w2 new need cut λ y a b. ground (
            arith,
            block_at-here x (block need true) (block (s - need - 8) false ∷ []) y,
            block_at-later x (block need true) (block (s - need - 8) false ∷ []) y,
            block_at-here z (block (s - need - 8) false) [] y,
            block_at-later z (block (s - need - 8) false) [] y,
            block_at-nil (z + 8 + (s - need - 8)) y,
          );
        }

    -- `take` gives the free block at `x` to the caller.
    pub take-Taken : Taken h bs x need (take p w x need)
    take-Taken = elim (Bool-cases (leb (u32 (u32 (need + header) + smallest)) s)) [
      | inl more ↦
          let room : need + 16 ≤ s =
            ground (arith, there.below, is.placed.brk_le, is.placed.room) in
          rw (take_part more room) (parted room)
      | inr less ↦
          let w' = write_header p w x s true in
          let new = block s true ∷ [] in
          let cut : Tiled (read w') x (x + 8 + s) new =
            (whole.size_there, whole.used_there, there.big, there.even, refl) in
          let within =
            Within-widen p v x (x + 8) x (x + 8 + s) w w' (omega arith) (omega arith)
              whole.within in
          rw (take_whole less) (record {
            pointer = refl;
            given = s;
            enough = fits;
            row = replace h.base bs x new;
            heap = IsHeap-replace p v is w' x (block s false) new found within cut;
            view = cut_view w' new s cut λ y a b. ground (
              arith,
              block_at-here x (block s true) [] y,
              block_at-later x (block s true) [] y,
              block_at-nil (x + 8 + s) y,
            );
          })
    ]
