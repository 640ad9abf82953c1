-- ===== src/Heap/Fit/Search.antt =====
-- `first_fit` of kernel/src/heap.rs finds the first free block that is large enough once the
-- free blocks before it have taken in their free neighbours, and moves no allocation.
use kfs.Base.{
  ℕ, zero, suc, ◌+◌, ◌-◌, ◌%◌, ◌≤◌, ◌<◌, ◌≡◌, true, false, Option, none, some, List, [], ◌∷◌, leb,
  arith, leb→le, Bool-cases, inl, inr, ◌∙◌, subst, u32,
}
use kfs.Pager.{Pager, View, Laws}
use kfs.Heap.{Heap, header, next_at, size_at, used_at}
use kfs.Heap.Blocks.{Block, block, Tiled, Tiled-le, block_at-nil, block_at-here, block_at-below}
use kfs.Heap.State.{IsHeap}
use kfs.Heap.Walk.Laws.{used_at-flag}
use kfs.Heap.Fit.{merge_loop, fit_loop, first_fit}
use kfs.Heap.Fit.Merge.{
  Usable, Within-Usable, Refits, Refits-refl, Refits-trans, HeadUsed, Merged, merge_loop-Merged,
}
use kfs.Heap.Fit.Row.{FitOutcome, Refits-cons, Searched-cons, behind}

module _ (p : Pager) (v : View p.World) (h : Heap) where
  open p use {World, read}

  module _ (laws : Laws p v) where
    fit_ends :
        (fuel : ℕ) (w : World) (need at : ℕ)
        → leb (u32 (at + header)) h.brk ≡ false
        → fit_loop p (suc fuel) h w need at ≡ (none, w)
    fit_ends fuel w need at e = unfold fit_loop in rw (e, fit_loop)

    fit_skips :
        (fuel : ℕ) (w : World) (need at : ℕ)
        → leb (u32 (at + header)) h.brk ≡ true
        → used_at p w at ≡ true
        → fit_loop p (suc fuel) h w need at ≡ fit_loop p fuel h w need (next_at at (size_at p w at))
    fit_skips fuel w need at e used = unfold fit_loop in rw (e, used, fit_loop)

    -- The pair that the inner loop gives for the free block at `at`.
    abbrev merged : World → ℕ → ℕ × World
    merged w at = merge_loop p (suc (h.brk - at)) h w at (size_at p w at)

    fit_hits :
        (fuel : ℕ) (w : World) (need at : ℕ)
        → leb (u32 (at + header)) h.brk ≡ true
        → used_at p w at ≡ false
        → leb need (merged w at).0 ≡ true
        → fit_loop p (suc fuel) h w need at ≡ (some at, (merged w at).1)
    fit_hits fuel w need at e free enough = unfold fit_loop in rw (e, free, enough, fit_loop)

    fit_misses :
        (fuel : ℕ) (w : World) (need at : ℕ)
        → leb (u32 (at + header)) h.brk ≡ true
        → used_at p w at ≡ false
        → leb need (merged w at).0 ≡ false
        → fit_loop p (suc fuel) h w need at
          ≡ fit_loop p fuel h (merged w at).1 need (next_at at (merged w at).0)
    fit_misses fuel w need at e free less = unfold fit_loop in rw (e, free, less, fit_loop)

    -- The outcome behind a block in front.
    FitOutcome-cons :
        (w w0 : World) (at : ℕ) (c : Block) (bs0 bs : List Block) (need : ℕ) (r : Option ℕ × World)
        → Usable p v h w0
        → h.base ≤ at
        → at % 8 ≡ 0
        → Refits p v h w w0 at bs0 (c ∷ bs)
        → (HeadUsed p v bs0 → c.used ≡ true)
        → (c.used ≡ false → (c.size < need) × HeadUsed p v bs)
        → FitOutcome p v h w0 (at + 8 + c.size) bs need r
        → FitOutcome p v h w at bs0 need r
    FitOutcome-cons w w0 at c bs0 bs need (none, w') u lower even first head less (row, rest) = (
      c ∷ row,
      record {
        refits =
            Refits-trans p v first
              (Refits-cons p v h w0 w' at c bs row u lower even first.tiled rest.refits);
        searched = Searched-cons p v h w0 need h.brk at c bs row less rest.head rest.searched;
        head = head;
      },
    )
    FitOutcome-cons w w0 at c bs0 bs need (some x, w') u lower even first head less
          (row, rest, s, found, big) =
        (
          c ∷ row,
          record {
            refits =
                Refits-trans p v first
                  (Refits-cons p v h w0 w' at c bs row u lower even first.tiled rest.refits);
            searched = Searched-cons p v h w0 need x at c bs row less rest.head rest.searched;
            head = head;
          },
          s,
          behind p v h (read w') at c row x rest.refits.tiled found,
          big,
        )

    in_row :
        (w : World) (at : ℕ) (c : Block) (bs : List Block)
        → Usable p v h w
        → Tiled (read w) at h.brk (c ∷ bs)
        → leb (u32 (at + header)) h.brk ≡ true
    in_row w at c bs u t =
        ground
          (arith, Tiled-le (read w) (at + 8 + c.size) h.brk bs t.4, u.placed.brk_le, u.placed.room)

    test_used :
        (w : World) (at : ℕ) (c : Block) (bs : List Block)
        → Usable p v h w
        → Tiled (read w) at h.brk (c ∷ bs)
        → used_at p w at ≡ c.used
    test_used w at c bs u t =
        let fits = Tiled-le (read w) (at + 8 + c.size) h.brk bs t.4 in
        used_at-flag p w at c.used (omega (arith, u.placed.brk_le, u.placed.room)) t.1

    test_free :
        (w : World) (at : ℕ) (c : Block) (bs : List Block)
        → Usable p v h w
        → Tiled (read w) at h.brk (c ∷ bs)
        → c.used ≡ false
        → used_at p w at ≡ false
    test_free w at c bs u t free = test_used w at c bs u t ∙ free

    free_header :
        (w : World) (at : ℕ) (c : Block) (bs : List Block)
        → Tiled (read w) at h.brk (c ∷ bs)
        → c.used ≡ false
        → c ≡ block (size_at p w at) false
    unfolding size_at
    free_header w at c bs t free = ground (arith, t.0)

    skipped :
        (fuel : ℕ) (w : World) (need at : ℕ) (c : Block) (bs : List Block)
        → Usable p v h w
        → Tiled (read w) at h.brk (c ∷ bs)
        → c.used ≡ true
        → FitOutcome p v h w at (c ∷ bs) need (fit_loop p fuel h w need (at + 8 + c.size))
        → FitOutcome p v h w at (c ∷ bs) need (fit_loop p (suc fuel) h w need at)
    unfolding size_at
    skipped fuel w need at c bs u t used o =
        let fits = Tiled-le (read w) (at + 8 + c.size) h.brk bs t.4 in
        let n : next_at at (read w at) ≡ at + 8 + c.size =
          omega (arith, t.0, u.placed.brk_le, u.placed.room) in
        rw (fit_skips fuel w need at (in_row w at c bs u t) (test_used w at c bs u t ∙ used), n) o

    hit_outcome :
        (w : World) (at need : ℕ) (bs : List Block)
        → (mg : Merged p v h w at (size_at p w at) bs (merged w at))
        → leb need (merged w at).0 ≡ true
        → FitOutcome p v h w at (block (size_at p w at) false ∷ bs) need (some at, (merged w at).1)
    hit_outcome w at need bs mg enough =
        let row = block (merged w at).0 false ∷ mg.rest in
        (
          row,
          record {
            refits = mg.refits;
            searched = record {
              small = λ y t k e. absurd (cc (block_at-below (read w) at row y k, e));
              apart = λ y t z k e. absurd (cc (block_at-below (read w) at row y k, e));
            };
            head = λ k. k;
          },
          (merged w at).0,
          block_at-here at (block (merged w at).0 false) mg.rest at (ground arith),
          leb→le _ _ enough,
        )

    fit_loop-FitOutcome :
        (fuel : ℕ) (w : World) (need at : ℕ) (bs : List Block)
        → h.brk < fuel + at
        → Usable p v h w
        → h.base ≤ at
        → at % 8 ≡ 0
        → Tiled (read w) at h.brk bs
        → FitOutcome p v h w at bs need (fit_loop p fuel h w need at)
    fit_loop-FitOutcome zero w need at bs enough u lower even t =
        absurd (omega (arith, Tiled-le (read w) at h.brk bs t))
    fit_loop-FitOutcome (suc fuel) w need at [] enough u lower even t =
        let g = u.placed in
        rw (fit_ends fuel w need at (ground (arith, t, g.brk_le, g.room))) (
          [],
          record {
            refits = Refits-refl p v u t;
            searched = record {
              small = λ y z k e. absurd (cc (block_at-nil at y, e));
              apart = λ y z a k e. absurd (cc (block_at-nil at y, e));
            };
            head = λ x. x;
          },
        )
    fit_loop-FitOutcome (suc fuel) w need at (c ∷ bs) enough u lower even t =
        elim (Bool-cases c.used) [
          | inl used ↦ skipped fuel w need at c bs u t used (
              FitOutcome-cons w w at c (c ∷ bs) bs need _ u lower even (Refits-refl p v u t)
                (λ k. k) (λ free. absurd (cc))
                (fit_loop-FitOutcome fuel w need (at + 8 + c.size) bs (omega arith) u (omega arith)
                  (omega arith) t.4))
          | inr free ↦
              let q = free_header w at c bs t free in
              let t' = subst (λ d. Tiled (read w) at h.brk (d ∷ bs)) q t in
              let fits = Tiled-le (read w) (at + 8 + size_at p w at) h.brk bs t'.4 in
              let mg =
                merge_loop-Merged p v laws h (suc (h.brk - at)) w at (size_at p w at) bs
                  (omega arith) u lower even t' in
              let u' = Within-Usable p v mg.refits.within u in
              let t'' = mg.refits.tiled in
              let fits' =
                Tiled-le (read (merged w at).1) (at + 8 + (merged w at).0) h.brk mg.rest t''.4 in
              rw q (elim (Bool-cases (leb need (merged w at).0)) [
                | inl enough' ↦
                    rw
                      (fit_hits fuel w need at (in_row w at c bs u t) (test_free w at c bs u t free)
                        enough')
                      (hit_outcome w at need bs mg enough')
                | inr less ↦
                    let n : next_at at (merged w at).0 ≡ at + 8 + (merged w at).0 =
                      omega (arith, u.placed.brk_le, u.placed.room) in
                    rw
                      (
                        fit_misses fuel w need at (in_row w at c bs u t)
                            (test_free w at c bs u t free) less,
                        n,
                      )
                      (FitOutcome-cons w (merged w at).1 at (block (merged w at).0 false)
                        (block (size_at p w at) false ∷ bs) mg.rest need _ u' lower even mg.refits
                        (λ k. absurd (cc)) (λ _. (ground arith, mg.stops))
                        (fit_loop-FitOutcome fuel (merged w at).1 need (at + 8 + (merged w at).0)
                          mg.rest (omega arith) u' (omega arith) (omega arith) t''.4))
              ])
        ]

    -- `first_fit` hands out the first free block of the new row that holds `need` bytes, and
    -- `none` when no free block does, although none of them has a free neighbour.
    pub first_fit-FitOutcome :
        (w : World) (bs : List Block) (need : ℕ)
        → IsHeap p v h w bs
        → FitOutcome p v h w h.base bs need (first_fit p h w need)
    unfolding first_fit
    first_fit-FitOutcome w bs need is =
        fit_loop-FitOutcome (suc (h.brk - h.base)) w need h.base bs
          (omega (arith, is.placed.base_le))
          (record { placed = is.placed; valid = is.valid; pages = is.pages }) (omega arith)
          (omega (arith, is.placed.base_even)) is.tiled
