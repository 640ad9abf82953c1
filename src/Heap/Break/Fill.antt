-- ===== src/Heap/Break/Fill.antt =====
-- How many pages the loop of `grow` of kernel/src/heap.rs maps, and what makes it stop.
use kfs.Base.{
  ℕ, zero, suc, ◌+◌, ◌*◌, ◌^◌, ◌≤◌, ◌<◌, ◌≡◌, refl, Bool, true, false, Option, none, some, List,
  ltb, ◌==◌, arith, Bool-cases, ==→eq, inl, inr, ◌⊎◌, ap, subst, u32,
}
use kfs.Pager.{Pager, View, Laws}
use kfs.Heap.{Heap, page_size}
use kfs.Heap.Blocks.{Block}
use kfs.Heap.State.{IsHeap}
use kfs.Heap.Break.{frame_for, grow_loop, grow}
use kfs.Heap.Break.Grow.{grow_stops, grow_lacks, grow_fails, grow_maps, grow_none}
use kfs.Heap.Break.Extend as Extend
use kfs.Heap.Break.Extend.{GrowOutcome, grow-GrowOutcome}

module _ (p : Pager) (h : Heap) where
  open p use {World, map_page}

  -- A frame is found for the page `at`, and it is mapped there.
  pub record MapsOne (at : ℕ) (w w2 : World) : Type 0 where
    pub room : at + 4096 ≤ h.limit
    pub frame : ℕ
    pub between : World
    pub found : frame_for p h w at ≡ (some frame, between)
    pub mapped : map_page between at frame h.flags ≡ (true, w2)

  -- The `k` pages from `at` on are mapped, one after the other.
  abbrev pub Maps : ℕ → ℕ → World → World → Type 0
  Maps zero at w w' = w' ≡ w
  Maps (suc k) at w w' = (w1 : World) × MapsOne at w w1 × Maps k (at + 4096) w1 w'

  -- The page `at` cannot be mapped: the heap ends, there is no frame for it, or its mapping fails.
  abbrev pub Lacks : ℕ → World → Type 0
  Lacks at w =
      (h.limit < at + 4096)
      ⊎ (((frame_for p h w at).0 ≡ none)
          ⊎ ((f : ℕ) × (w1 : World) × (frame_for p h w at ≡ (some f, w1))
              × ((map_page w1 at f h.flags).0 ≡ false)))

  -- The loop has mapped `k` of the `n` pages, and the rest only if it could.
  pub record Filled (n at : ℕ) (w : World) (top : ℕ) : Type 0 where
    pub count : ℕ
    pub top_is : top ≡ at + count * 4096
    pub after : World
    pub maps : Maps count at w after
    pub ends : (count ≡ n) ⊎ ((count < n) × Lacks (at + count * 4096) after)

  Filled-stop : (n at : ℕ) (w : World) → Lacks at w → Filled (suc n) at w at
  Filled-stop n at w l = record {
    count = 0;
    top_is = omega arith;
    after = w;
    maps = refl;
    ends = inr (omega arith, rw (let e : at + 0 * 4096 ≡ at = omega arith in e) l);
  }

  Filled-more :
      (n at : ℕ) (w w1 : World) (top : ℕ)
      → MapsOne at w w1
      → Filled n (at + 4096) w1 top
      → Filled (suc n) at w top
  Filled-more n at w w1 top m f = record {
    count = suc f.count;
    top_is = omega (arith, f.top_is);
    after = f.after;
    maps = (w1, m, f.maps);
    ends = ends_more f.ends;
  }
    where
      ends_more :
          (f.count ≡ n) ⊎ ((f.count < n) × Lacks (at + 4096 + f.count * 4096) f.after)
          → (suc f.count ≡ suc n)
            ⊎ ((suc f.count < suc n) × Lacks (at + suc f.count * 4096) f.after)
      ends_more (inl e) = inl (ap (λ k. suc k) e)
      ends_more (inr (b, l)) =
          let e : at + suc f.count * 4096 ≡ at + 4096 + f.count * 4096 = omega arith in
          inr (omega arith, rw e l)

  module _ (v : View p.World) (laws : Laws p v) (low : h.limit + 0x10000 ≤ 2 ^ 32) where
    module _ (n : ℕ)
        (ih : (w : World) (at : ℕ) → at ≤ h.limit → Filled n at w (grow_loop p h n w at).0)
        (w : World) (at : ℕ) (upper : at ≤ h.limit)
        (fits : ltb h.limit (u32 (at + page_size)) ≡ false) where
      Filled-mapped :
          (f : ℕ) (w1 : World)
          → frame_for p h w at ≡ (some f, w1)
          → (r : Bool × World) → map_page w1 at f h.flags ≡ r
          → Filled (suc n) at w (grow_loop p h (suc n) w at).0
      Filled-mapped f w1 q (false, w2) e =
          rw (grow_fails p v laws h n w at f w1 w2 fits q e)
            (Filled-stop n at w (inr (inr (f, w1, q, ap (λ (r : Bool × World). r.0) e))))
      Filled-mapped f w1 q (true, w2) e =
          let next : u32 (at + page_size) ≡ at + 4096 = omega arith in
          let room : at + 4096 ≤ h.limit = ground arith in
          rw (grow_maps p v laws h n w at f w1 w2 fits q e, next)
            (Filled-more n at w w2 _
              (record { room = room; frame = f; between = w1; found = q; mapped = e })
              (ih w2 (at + 4096) room))

      Filled-framed :
          (r : Option ℕ × World)
          → frame_for p h w at ≡ r
          → Filled (suc n) at w (grow_loop p h (suc n) w at).0
      Filled-framed (none, w1) q =
          rw (grow_lacks p v laws h n w at w1 fits q)
            (Filled-stop n at w (inr (inl (ap (λ (r : Option ℕ × World). r.0) q))))
      Filled-framed (some f, w1) q = Filled-mapped f w1 q (map_page w1 at f h.flags) refl

    pub grow_loop-Filled :
        (n : ℕ) (w : World) (at : ℕ) → at ≤ h.limit → Filled n at w (grow_loop p h n w at).0
    grow_loop-Filled zero w at upper =
        rw (grow_none p v laws h w at)
          (record { count = 0; top_is = omega arith; after = w; maps = refl; ends = inl refl })
    grow_loop-Filled (suc n) w at upper = elim (Bool-cases (ltb h.limit (u32 (at + page_size)))) [
      | inl out ↦ rw (grow_stops p v laws h n w at out) (Filled-stop n at w (inl (ground arith)))
      | inr fits ↦ Filled-framed n (grow_loop-Filled n) w at upper fits (frame_for p h w at) refl
    ]

  -- The new break, and whether `grow` says that it has moved.
  abbrev pub Fills : ℕ → World → Bool × Heap × World → Type 0
  Fills pages w (moved, h', w') = Filled pages h.brk w h'.brk × (moved ≡ ltb h.brk h'.brk)

  -- `grow` maps the pages behind the break one after the other, each at a frame of the heap's, until it
  -- has mapped as many as were asked for or the next cannot be mapped: the heap's limit is near, there
  -- is no frame, or its mapping fails. The break moves up by the pages that were mapped, which are the
  -- heap's free memory then, and `grow` says whether there was one; where there was none the heap
  -- stays as it was. No allocation changes.
  pub grow-Fills :
      (v : View p.World)
      → Laws p v
      → (w : World) (bs : List Block) (pages : ℕ) → IsHeap p v h w bs
      → GrowOutcome p v h bs (grow p h w pages) × Fills pages w (grow p h w pages)
  grow-Fills v laws w bs pages is =
      let l = is.placed in
      let f = grow_loop-Filled v laws l.room pages w h.brk l.brk_le in
      (grow-GrowOutcome p v laws h w bs pages is, by_top f)
    where
      by_top :
          Filled pages h.brk w (grow_loop p h pages w h.brk).0 → Fills pages w (grow p h w pages)
      by_top f = elim (Bool-cases ((grow_loop p h pages w h.brk).0 == h.brk)) [
        | inl stays ↦
            rw (Extend.grow_none p v h w pages stays)
              (subst (λ t. Filled pages h.brk w t) (==→eq _ _ stays) f, ground arith)
        | inr up ↦ rw (Extend.grow_some p v h w pages up) (f, ground (arith, f.top_is))
      ]
