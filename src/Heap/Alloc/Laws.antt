-- ===== src/Heap/Alloc/Laws.antt =====
-- `alloc` of kernel/src/heap.rs: the search, the growth and the second search.
use kfs.Base.{
  ℕ, ◌+◌, ◌-◌, ◌*◌, ◌/◌, ◌%◌, ◌^◌, ◌≤◌, ◌<◌, ◌≡◌, refl, ◌≢◌, Bool, true, false, Option, none, some,
  List, max, ltb, ◌==◌, if◌then◌else◌, arith, inl, inr, ◌⊎◌, ◌∙◌, sym, ap, subst, sub32,
}
use kfs.Pager.{Pager, View, Laws}
use kfs.Heap.{Heap, header, round_up}
use kfs.Heap.Blocks.{Block, block, block_at, live, live_size}
use kfs.Heap.State.{IsHeap}
use kfs.Heap.Fit.{first_fit, take}
use kfs.Heap.Fit.Row.{FitOutcome}
use kfs.Heap.Fit.Search.{first_fit-FitOutcome}
use kfs.Heap.Fit.Take.{Refits-IsHeap, take-Taken}
use kfs.Heap.Break.{grow}
use kfs.Heap.Break.Extend.{GrowOutcome, grow-GrowOutcome}
use kfs.Heap.Alloc.{alloc, alloc_rounded, alloc_grown, alloc_again, alloc_pages}
use kfs.Heap.Alloc.Free.{block-Found, block_of_live}
use kfs.Heap.Alloc.Round.{round_up_lem}

module _ (p : Pager) (v : View p.World) where
  open p use {World, oops}
  open v use {lo, hi}

  -- A null pointer: no allocation has changed, and no free block could have served.
  pub record Fails (h : Heap) (bs : List Block) (need : ℕ) (r : ℕ × Heap × World) : Type 0 where
    pub null : r.0 ≡ 0
    pub same : r.1 ≡ record h { brk = r.1.brk }
    pub up : h.brk ≤ r.1.brk
    pub row : List Block
    pub heap : IsHeap p v r.1 r.2 row
    pub view : (y : ℕ) → live h.base row y ≡ live h.base bs y
    pub full : (y t : ℕ) → block_at h.base row y ≡ some (block t false) → t < need

  -- A pointer to `given` bytes at the block `x`, where there was no allocation.
  pub record Allocates (h : Heap) (bs : List Block) (need : ℕ) (r : ℕ × Heap × World) : Type 0 where
    pub x : ℕ
    pub pointer : r.0 ≡ x + 8
    pub aligned : x % 8 ≡ 0
    pub given : ℕ
    pub enough : need ≤ given
    pub above : h.base ≤ x
    pub below : x + 8 + given ≤ r.1.brk
    pub same : r.1 ≡ record h { brk = r.1.brk }
    pub up : h.brk ≤ r.1.brk
    pub row : List Block
    pub heap : IsHeap p v r.1 r.2 row
    pub was_none : live h.base bs x ≡ none
    pub view : (y : ℕ) → live h.base row y ≡ (if x == y then some given else live h.base bs y)

  module _ (laws : Laws p v) (h : Heap) (bs : List Block) (need : ℕ) (big : 8 ≤ need)
      (even : need % 8 ≡ 0) where
    -- The heap with its break at `b`, and with the allocations of `bs`.
    module _ (b : ℕ) (up : h.brk ≤ b) (w : World) (bs1 : List Block)
        (is : IsHeap p v (record h { brk = b }) w bs1)
        (view : (y : ℕ) → live h.base bs1 y ≡ live h.base bs y) where
      abbrev higher : Heap
      higher = record h { brk = b }

      Allocates-take :
          (x : ℕ) (w2 : World)
          → FitOutcome p v higher w h.base bs1 need (some x, w2)
          → Allocates h bs need ((take p w2 x need).0, higher, (take p w2 x need).1)
      Allocates-take x w2 (row, found, s, there, fits) =
          let is2 = Refits-IsHeap p v is found.refits in
          let t = take-Taken p v laws is2 x s need there fits big even in
          let mine : live h.base t.row x ≡ some t.given = t.view x ∙ ground arith in
          let f = block-Found p v t.heap (block_of_live _ t.given mine) in
          record {
            x = x;
            pointer = t.pointer;
            aligned = f.aligned;
            given = t.given;
            enough = t.enough;
            above = f.above;
            below = f.below;
            same = refl;
            up = up;
            row = t.row;
            heap = t.heap;
            was_none = sym (view x) ∙ sym (found.refits.same x) ∙ ap live_size there;
            view = λ y. t.view y ∙ ground (arith, found.refits.same y, view y);
          }

      Fails-none :
          (w2 : World)
          → FitOutcome p v higher w h.base bs1 need (none, w2)
          → Fails h bs need (0, higher, w2)
      Fails-none w2 (row, found) =
          let is2 = Refits-IsHeap p v is found.refits in
          record {
            null = refl;
            same = refl;
            up = up;
            row = row;
            heap = is2;
            view = λ y. found.refits.same y ∙ view y;
            full =
                λ y t e. found.searched.small y t (omega (arith, (block-Found p v is2 e).below)) e;
          }

      again_some :
          (x : ℕ) (w2 : World)
          → first_fit p higher w need ≡ (some x, w2)
          → alloc_again p higher w need ≡ ((take p w2 x need).0, higher, (take p w2 x need).1)
      again_some x w2 q =
          unfold alloc_again in
          (ap
            (λ (r : Option ℕ × World). elim r.0 [
              | some block ↦ ((take p r.1 block need).0, higher, (take p r.1 block need).1)
              | none ↦ (0, higher, r.1)
            ])
            q)

      again_none :
          (w2 : World)
          → first_fit p higher w need ≡ (none, w2)
          → alloc_again p higher w need ≡ (0, higher, w2)
      again_none w2 q =
          unfold alloc_again in
          (ap
            (λ (r : Option ℕ × World). elim r.0 [
              | some block ↦ ((take p r.1 block need).0, higher, (take p r.1 block need).1)
              | none ↦ (0, higher, r.1)
            ])
            q)

      again-Outcome :
          (r : Option ℕ × World)
          → first_fit p higher w need ≡ r
          → FitOutcome p v higher w h.base bs1 need r
          → Fails h bs need (alloc_again p higher w need)
            ⊎ Allocates h bs need (alloc_again p higher w need)
      again-Outcome (some x, w2) q o = inr (rw (again_some x w2 q) (Allocates-take x w2 o))
      again-Outcome (none, w2) q o = inl (rw (again_none w2 q) (Fails-none w2 o))

    abbrev Outcome : ℕ × Heap × World → Type 0
    Outcome r = Fails h bs need r ⊎ Allocates h bs need r

    grown_true :
        (w : World) (h1 : Heap) (w1 : World)
        → grow p h w (alloc_pages p need) ≡ (true, h1, w1)
        → alloc_grown p h w need ≡ alloc_again p h1 w1 need
    grown_true w h1 w1 q =
        unfold alloc_grown in
        ap (λ (r : Bool × Heap × World). if r.0 then alloc_again p r.1 r.2 need else (0, r.1, r.2))
          q

    grown_false :
        (w : World) (h1 : Heap) (w1 : World)
        → grow p h w (alloc_pages p need) ≡ (false, h1, w1)
        → alloc_grown p h w need ≡ (0, h1, w1)
    grown_false w h1 w1 q =
        unfold alloc_grown in
        ap (λ (r : Bool × Heap × World). if r.0 then alloc_again p r.1 r.2 need else (0, r.1, r.2))
          q

    -- The growth, when the search of the row `bs1` has found nothing.
    grown-Outcome :
        (w : World) (bs1 : List Block)
        → IsHeap p v h w bs1
        → ((y : ℕ) → live h.base bs1 y ≡ live h.base bs y)
        → ((y t : ℕ) → block_at h.base bs1 y ≡ some (block t false) → t < need)
        → (r : Bool × Heap × World) → grow p h w (alloc_pages p need) ≡ r
        → GrowOutcome p v h bs1 r
        → Outcome (alloc_grown p h w need)
    grown-Outcome w bs1 is view full (true, h1, w1) q g =
        let is1 = subst (λ k. IsHeap p v k w1 g.row) g.same g.heap in
        rw (grown_true w h1 w1 q) (
          subst (λ k. Outcome (alloc_again p k w1 need)) (sym g.same)
            (again-Outcome h1.brk (omega (arith, g.moved)) w1 g.row is1 (λ y. g.view y ∙ view y)
              (first_fit p (record h { brk = h1.brk }) w1 need) refl
              (first_fit-FitOutcome p v (record h { brk = h1.brk }) laws w1 g.row need is1)))
    grown-Outcome w bs1 is view full (false, h1, w1) q (same, still) =
        rw (grown_false w h1 w1 q, same)
          (inl (record {
            null = refl;
            same = refl;
            up = omega arith;
            row = bs1;
            heap = still;
            view = view;
            full = full;
          }))

    rounded_some :
        (w : World) (x : ℕ) (w2 : World)
        → first_fit p h w need ≡ (some x, w2)
        → alloc_rounded p h w need ≡ ((take p w2 x need).0, h, (take p w2 x need).1)
    rounded_some w x w2 q =
        unfold alloc_rounded in
        (ap
          (λ (r : Option ℕ × World). elim r.0 [
            | some block ↦ ((take p r.1 block need).0, h, (take p r.1 block need).1)
            | none ↦ alloc_grown p h r.1 need
          ])
          q)

    rounded_none :
        (w w2 : World)
        → first_fit p h w need ≡ (none, w2)
        → alloc_rounded p h w need ≡ alloc_grown p h w2 need
    rounded_none w w2 q =
        unfold alloc_rounded in
        (ap
          (λ (r : Option ℕ × World). elim r.0 [
            | some block ↦ ((take p r.1 block need).0, h, (take p r.1 block need).1)
            | none ↦ alloc_grown p h r.1 need
          ])
          q)

    rounded-Outcome :
        (w : World)
        → IsHeap p v h w bs
        → (r : Option ℕ × World) → first_fit p h w need ≡ r
        → FitOutcome p v h w h.base bs need r
        → Outcome (alloc_rounded p h w need)
    rounded-Outcome w is (some x, w2) q o =
        inr (
          rw (rounded_some w x w2 q)
            (Allocates-take h.brk (omega arith) w bs is (λ y. refl) x w2 o))
    rounded-Outcome w is (none, w2) q o =
        let f = Fails-none h.brk (omega arith) w bs is (λ y. refl) w2 o in
        rw (rounded_none w w2 q) (
          grown-Outcome w2 f.row f.heap f.view f.full (grow p h w2 (alloc_pages p need)) refl
            (grow-GrowOutcome p v laws h w2 f.row (alloc_pages p need) f.heap))

  module _ (h : Heap) (w : World) (want : ℕ) where
    alloc_tries :
        (want == 0) ≡ false
        → ltb (sub32 (sub32 h.limit h.base) header) want ≡ false
        → alloc p h w want ≡ alloc_rounded p h w (round_up want)
    alloc_tries e q = unfold alloc in rw (e, q) refl

  -- `alloc` of a size that the heap can hold returns a pointer to that many bytes or more, 8-aligned and
  -- inside the heap, where there was no allocation, and leaves every other allocation as it is;
  -- or it returns null, no allocation changes, and no free block holds the size rounded up. The
  -- break may have moved up.
  pub alloc-Allocates :
      Laws p v
      → (h : Heap) (w : World) (bs : List Block) (want : ℕ) → IsHeap p v h w bs
      → want ≢ 0
      → h.base + 8 + want ≤ h.limit
      → Fails h bs ((max want 8 + 7) / 8 * 8) (alloc p h w want)
        ⊎ Allocates h bs ((max want 8 + 7) / 8 * 8) (alloc p h w want)
  alloc-Allocates laws h w bs want is some_bytes fits =
      let l = is.placed in
      let need = (max want 8 + 7) / 8 * 8 in
      let e : (want == 0) ≡ false = ground arith in
      let q : ltb (sub32 (sub32 h.limit h.base) header) want ≡ false = ground (arith, l.room) in
      rw (alloc_tries h w want e q, round_up_lem want (omega (arith, l.room)))
        (rounded-Outcome laws h bs need (omega arith) (omega arith) w is (first_fit p h w need) refl
          (first_fit-FitOutcome p v h laws w bs need is))

  -- `alloc` of no bytes, or of more than the heap can ever hold, returns null and changes nothing;
  -- it complains of the second.
  pub alloc-refuses :
      (h : Heap) (w : World) (want : ℕ)
      → h.base + 8 ≤ h.limit
      → h.limit < 2 ^ 32
      → (want ≡ 0) ⊎ (h.limit < h.base + 8 + want)
      → alloc p h w want ≡ (0, h, if want == 0 then w else oops w)
  unfolding alloc
  alloc-refuses h w want lower low too =
      let q : sub32 (sub32 h.limit h.base) header ≡ h.limit - h.base - 8 = omega arith in
      rw q (ground arith)
