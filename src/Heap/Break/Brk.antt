-- ===== src/Heap/Break/Brk.antt =====
-- `brk` of kernel/src/heap.rs moves the break and no allocation.
use kfs.Base.{
  ℕ, zero, suc, ◌+◌, ◌^◌, ◌<◌, ◌≢◌, some, ltb, arith, ap, ◌/◌, ◌≡◌, refl, Bool, true, false, List,
  if◌then◌else◌, ◌⊎◌, inl, inr, sym, subst, u32, sub32, ℤ, pos, negsuc,
}
use kfs.Pager.{Pager, View, Laws}
use kfs.Heap.{Heap, page_size}
use kfs.Heap.Blocks.{Block, block, block_at, live}
use kfs.Heap.State.{IsHeap}
use kfs.Heap.Break.{grow, shrink, brk}
use kfs.Heap.Break.Extend.{GrowOutcome, grow-GrowOutcome}
use kfs.Heap.Break.Fill.{Filled, Fills, grow-Fills}
use kfs.Heap.Break.Release.{ShrinkOutcome}
use kfs.Heap.Break.Shrink.{target_of, shrink-ShrinkOutcome}

module _ (p : Pager) (v : View p.World) where
  open p use {World}

  -- The old break, or null with the heap's bounds as they were; the allocations are those of `bs`.
  pub record Moves (h : Heap) (bs : List Block) (r : ℕ × Heap × World) : Type 0 where
    pub result : (r.0 ≡ h.brk) ⊎ ((r.0 ≡ 0) × (r.1 ≡ h))
    pub same : r.1 ≡ record h { brk = r.1.brk }
    pub row : List Block
    pub heap : IsHeap p v r.1 r.2 row
    pub view : (y : ℕ) → live h.base row y ≡ live h.base bs y

  module _ (h : Heap) (bs : List Block) where
    abbrev answer : Bool × Heap × World → ℕ × Heap × World
    answer (moved, h', w') = (if moved then h.brk else 0, h', w')

    Moves-refused : (w' : World) → IsHeap p v h w' bs → Moves h bs (0, h, w')
    Moves-refused w' is = record {
      result = inr (refl, refl);
      same = refl;
      row = bs;
      heap = is;
      view = λ y. refl;
    }

    Moves-grow : (r : Bool × Heap × World) → GrowOutcome p v h bs r → Moves h bs (answer r)
    Moves-grow (true, h', w') g = record {
      result = inl refl;
      same = g.same;
      row = g.row;
      heap = g.heap;
      view = g.view;
    }
    Moves-grow (false, h', w') (same, is) =
        subst (λ k. Moves h bs (0, k, w')) (sym same) (Moves-refused w' is)

    Moves-shrink :
        (target : ℕ) (r : Bool × Heap × World)
        → ShrinkOutcome p v h bs target r
        → Moves h bs (answer r)
    Moves-shrink target (true, h', w') g = record {
      result = inl refl;
      same = rw g.same refl;
      row = g.row;
      heap = g.heap;
      view = g.view;
    }
    Moves-shrink target (false, h', w') (same, is, _) =
        subst (λ k. Moves h bs (0, k, w')) (sym same) (Moves-refused w' is)

  pub brk-Moves :
      Laws p v
      → (h : Heap) (w : World) (bs : List Block) (delta : ℤ) → IsHeap p v h w bs
      → Moves h bs (brk p h w delta)
  unfolding brk
  brk-Moves laws h w bs (pos zero) is = record {
    result = inl refl;
    same = refl;
    row = bs;
    heap = is;
    view = λ y. refl;
  }
  brk-Moves laws h w bs (pos (suc n)) is =
      let pages = sub32 (u32 (suc n + page_size)) 1 / page_size in
      Moves-grow h bs (grow p h w pages) (grow-GrowOutcome p v laws h w bs pages is)
  brk-Moves laws h w bs (negsuc n) is =
      let pages = sub32 (u32 (suc n + page_size)) 1 / page_size in
      Moves-shrink h bs (target_of p v h pages) (shrink p h w pages)
        (shrink-ShrinkOutcome p v laws h w bs pages is)

  -- A signed 32-bit number of bytes.
  abbrev pub Fits : ℤ → Type 0
  Fits (pos n) = n < 2 ^ 31
  Fits (negsuc n) = n < 2 ^ 31

  -- The break went to `target`; or no free block at the top of the heap leaves room for that.
  abbrev pub Lowers : Heap → List Block → ℕ → ℕ × Heap × World → Type 0
  Lowers h bs target (was, h', w') =
      ((was ≡ h.brk) × (h'.brk ≡ target))
      ⊎ ((was ≡ 0)
          × (h' ≡ h)
          × ((x s : ℕ)
              → block_at h.base bs x ≡ some (block s false)
              → x + 8 + s ≡ h.brk
              → (x ≢ target) × (target < x + 16)))

  -- The break went up by the pages that could be mapped, if any could.
  abbrev pub Raises : Heap → World → ℕ → ℕ × Heap × World → Type 0
  Raises h w pages (was, h', w') =
      Filled p h pages h.brk w h'.brk × (was ≡ (if ltb h.brk h'.brk then h.brk else 0))

  -- Where the break goes, by the sign of `delta`.
  abbrev pub Follows : Heap → World → List Block → ℤ → ℕ × Heap × World → Type 0
  Follows h w bs (pos zero) r = r ≡ (h.brk, h, w)
  Follows h w bs (pos (suc n)) r = Raises h w ((suc n + 4095) / 4096) r
  Follows h w bs (negsuc n) r = Lowers h bs (target_of p v h ((suc n + 4095) / 4096)) r

  module _ (laws : Laws p v) (h : Heap) (w : World) (bs : List Block) (is : IsHeap p v h w bs) where
    pages_up :
        (n : ℕ) → n < 2 ^ 31 → sub32 (u32 (suc n + page_size)) 1 / page_size ≡ (suc n + 4095) / 4096
    pages_up n fits = let e : sub32 (u32 (suc n + 4096)) 1 ≡ suc n + 4095 = omega arith in rw e refl

    Lowers-shrink :
        (target : ℕ) (r : Bool × Heap × World)
        → ShrinkOutcome p v h bs target r
        → Lowers h bs target (answer h bs r)
    Lowers-shrink target (true, h', w') g = inl (refl, ap (λ (k : Heap). k.brk) g.same)
    Lowers-shrink target (false, h', w') (same, _, why) = inr (refl, same, why)

    Raises-grow :
        (pages : ℕ) (r : Bool × Heap × World)
        → Fills p h pages w r
        → Raises h w pages (answer h bs r)
    Raises-grow pages (moved, h', w') (f, e) = (f, rw e refl)

    brk-Goes : (delta : ℤ) → Fits delta → Follows h w bs delta (brk p h w delta)
    unfolding brk
    brk-Goes (pos zero) fits = refl
    brk-Goes (pos (suc n)) fits = rw (pages_up n (omega arith)) (
        Raises-grow ((suc n + 4095) / 4096) (grow p h w ((suc n + 4095) / 4096))
          (grow-Fills p h v laws w bs ((suc n + 4095) / 4096) is).1)
    brk-Goes (negsuc n) fits = rw (pages_up n fits) (
        Lowers-shrink (target_of p v h ((suc n + 4095) / 4096))
          (shrink p h w ((suc n + 4095) / 4096))
          (shrink-ShrinkOutcome p v laws h w bs ((suc n + 4095) / 4096) is))

  -- `brk` of no bytes returns the break and changes nothing. Of more, it rounds them up to pages and
  -- raises the break by as many of them as can be mapped; of a negative number it lowers the break by
  -- as many, or to the base where that is less, unless no free block at the top leaves room for that.
  -- It returns the old break, or null, with the heap's bounds unchanged, where not one page could be
  -- mapped or where there is no such room. No allocation changes.
  pub brk-Follows :
      Laws p v
      → (h : Heap) (w : World) (bs : List Block) (delta : ℤ) → IsHeap p v h w bs
      → Fits delta
      → Moves h bs (brk p h w delta) × Follows h w bs delta (brk p h w delta)
  brk-Follows laws h w bs delta is fits =
      (brk-Moves laws h w bs delta is, brk-Goes laws h w bs is delta fits)
