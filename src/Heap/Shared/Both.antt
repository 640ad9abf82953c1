-- ===== src/Heap/Shared/Both.antt =====
-- What an operation of kernel/src/heap.rs does to its own heap, and that it leaves the other one as it is.
use kfs.Base.{
  ℕ, ◌+◌, ◌-◌, ◌≤◌, ◌≡◌, refl, Bool, true, false, ◌||◌, none, List, arith, ltb, ◌==◌, if◌then◌else◌,
  inl, inr, ◌∙◌, ap, Bool-cases, Option-cases, ℤ, subst,
}
use kfs.Pager.{Pager, View, Laws, Keeps}
use kfs.Heap.{Heap, is_contiguous}
use kfs.Heap.Alloc.{alloc, free}
use kfs.Heap.Alloc.Free.{free-Updates, free-oops}
use kfs.Heap.Alloc.Laws.{alloc-Allocates, alloc-refuses}
use kfs.Heap.Break.{brk}
use kfs.Heap.Break.Brk.{brk-Moves}
use kfs.Heap.Blocks.{Block, live}
use kfs.Heap.State.{IsHeap}
use kfs.Heap.Shared.{other-IsHeap, narrow}

module _ (p : Pager) (v : View p.World) where
  open p use {World, oops}

  -- A heap that is well formed, the same but for its break.
  pub record After (h h1 : Heap) (w1 : World) : Type 0 where
    pub same : h1 ≡ record h { brk = h1.brk }
    pub row : List Block
    pub heap : IsHeap p v h1 w1 row

  Keeps-After :
      (h : Heap) (w w' : World) (bs : List Block)
      → IsHeap p v h w bs
      → Keeps p v w w'
      → After h h w'
  Keeps-After h w w' bs is k = record {
    same = refl;
    row = bs;
    heap =
        other-IsHeap p v h bs w w' is k.valid (λ q a l. k.frames q) (λ f i s. k.spare f s)
          (λ b n a l. k.words b n);
  }

  oops-After :
      (laws : Laws p v) (h : Heap) (w : World) (bs : List Block) (t : Bool)
      → IsHeap p v h w bs
      → After h h (if t then w else oops w)
  oops-After laws h w bs true is = record { same = refl; row = bs; heap = is }
  oops-After laws h w bs false is = Keeps-After h w (oops w) bs is (laws.oops-Keeps w is.valid)

  pub alloc-After :
      (laws : Laws p v) (h : Heap) (w : World) (bs : List Block) (want : ℕ)
      → IsHeap p v h w bs
      → h.base + 8 ≤ h.limit
      → After h (alloc p h w want).1 (alloc p h w want).2
  alloc-After laws h w bs want is room =
      elim (Bool-cases (want == 0 || ltb h.limit (h.base + 8 + want))) [
        | inl refused ↦
            rw (alloc-refuses p v h w want room (omega (arith, is.placed.room)) (ground arith))
              (oops-After laws h w bs (want == 0) is)
        | inr tried ↦ elim (alloc-Allocates p v laws h w bs want is (ground arith) (ground arith)) [
          | inl f ↦ record { same = f.same; row = f.row; heap = f.heap }
          | inr a ↦ record { same = a.same; row = a.row; heap = a.heap }
        ]
      ]

  pub brk-After :
      (laws : Laws p v) (h : Heap) (w : World) (bs : List Block) (delta : ℤ)
      → IsHeap p v h w bs
      → After h (brk p h w delta).1 (brk p h w delta).2
  brk-After laws h w bs delta is =
      let m = brk-Moves p v laws h w bs delta is in
      record { same = m.same; row = m.row; heap = m.heap }

  nothing_there :
      (laws : Laws p v) (h : Heap) (w : World) (bs : List Block) (pointer : ℕ)
      → IsHeap p v h w bs
      → ((x : ℕ) → x + 8 ≡ pointer → live h.base bs x ≡ none)
      → After h h (free p h w pointer)
  nothing_there laws h w bs pointer is dead =
      rw (free-oops p v laws h w bs pointer is dead) (oops-After laws h w bs (pointer == 0) is)

  -- `free` of any pointer at all.
  pub free-After :
      (laws : Laws p v) (h : Heap) (w : World) (bs : List Block) (pointer : ℕ)
      → IsHeap p v h w bs
      → After h h (free p h w pointer)
  free-After laws h w bs pointer is = elim (Option-cases (live h.base bs (pointer - 8))) [
    | inr (s, e) ↦ elim (Bool-cases (ltb pointer 8)) [
      | inr high ↦
          let u = free-Updates p v laws h w bs (pointer - 8) s is e in
          let at : pointer - 8 + 8 ≡ pointer = ground arith in
          subst (λ n. After h h (free p h w n)) at
            (record { same = refl; row = u.row; heap = u.heap })
      | inl low ↦ nothing_there laws h w bs pointer is (λ x q. absurd (ground (arith, q)))
    ]
    | inl dead ↦
        nothing_there laws h w bs pointer is (λ x q.
          ap (λ n. live h.base bs n) (let f : x ≡ pointer - 8 = omega (arith, q) in f) ∙ dead)
  ]

-- The heap `h` between `from` and `to`, beside the other one.
module _ (p : Pager) (v : View p.World) (other : Heap) (bs : List Block) (from to : ℕ) where
  open p use {World}

  pub narrow-IsHeap :
      (h : Heap) (w : World) (cs : List Block)
      → from ≤ h.base
      → h.limit ≤ to
      → (is_contiguous h.backing ≡ true → is_contiguous other.backing ≡ false)
      → IsHeap p v h w cs
      → IsHeap p v other w bs
      → IsHeap p (narrow p v other bs from to) h w cs
  narrow-IsHeap h w cs above below one is is_other =
      let g = is.placed in
      record {
        placed = record {
          base_even = g.base_even;
          brk_even = g.brk_even;
          limit_even = g.limit_even;
          not_null = g.not_null;
          base_le = g.base_le;
          brk_le = g.brk_le;
          room = g.room;
          above = above;
          below = below;
          flags_small = g.flags_small;
        };
        valid = (is.valid, is_other);
        pages = λ q e a l gone. is.pages q e a l (ground (arith, gone, g.brk_le));
        tiled = is.tiled;
        window = λ c.
            let win = is.window c in
            record {
              fits = win.fits;
              shows = λ q e a l. ground (arith, win.shows q e a l, g.brk_le);
              spare = λ q e a l n. (win.spare q e a l n, λ i. ground (arith, i.0, one c));
            };
      }

  pub wide-IsHeap :
      (h : Heap) (w : World) (cs : List Block)
      → v.lo ≤ from
      → to ≤ v.hi
      → IsHeap p (narrow p v other bs from to) h w cs
      → IsHeap p v h w cs
  wide-IsHeap h w cs above below is =
      let g = is.placed in
      record {
        placed = record {
          base_even = g.base_even;
          brk_even = g.brk_even;
          limit_even = g.limit_even;
          not_null = g.not_null;
          base_le = g.base_le;
          brk_le = g.brk_le;
          room = g.room;
          above = omega (arith, g.above);
          below = omega (arith, g.below);
          flags_small = g.flags_small;
        };
        valid = is.valid.0;
        pages = λ q e a l gone. is.pages q e a l (ground (arith, gone));
        tiled = is.tiled;
        window = λ c.
            let win = is.window c in
            record {
              fits = win.fits;
              shows = λ q e a l. ground (arith, win.shows q e a l, g.above, g.below, g.brk_le);
              spare = λ q e a l n. (win.spare q e a l n).0;
            };
      }
