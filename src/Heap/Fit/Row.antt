-- ===== src/Heap/Fit/Row.antt =====
-- The row that `first_fit` of kernel/src/heap.rs leaves, a block in front at a time.
use kfs.Base.{
  ℕ, ◌+◌, ◌%◌, ◌≤◌, ◌<◌, ◌≡◌, ◌≢◌, true, false, Option, none, some, List, [], ◌∷◌, arith,
  Bool-cases, inl, inr, ◌∙◌, subst,
}
use kfs.Pager.{Pager, View}
use kfs.Heap.{Heap}
use kfs.Heap.Blocks.{
  Block, block, Tiled, Tiled-le, block_at, block_at-nil, block_at-here, block_at-later,
  block_at-below,
}
use kfs.Heap.State.{Within-widen}
use kfs.Heap.Fit.Merge.{Usable, Usable-Mapped, Refits, HeadUsed}

-- Before `bound` each free block of the row is smaller than `need`, and no free block follows it.
pub record Searched (need bound at : ℕ) (row : List Block) : Type 0 where
  pub small : (y t : ℕ) → y < bound → block_at at row y ≡ some (block t false) → t < need
  pub apart :
      (y t z : ℕ)
      → y < bound
      → block_at at row y ≡ some (block t false)
      → block_at at row (y + 8 + t) ≢ some (block z false)

module _ (p : Pager) (v : View p.World) (h : Heap) where
  open p use {World, read}

  pub record Row (w w' : World) (at : ℕ) (bs : List Block) (need bound : ℕ) (row : List Block)
      : Type 0 where
    pub refits : Refits p v h w w' at bs row
    pub searched : Searched need bound at row
    pub head : HeadUsed p v bs → HeadUsed p v row

  abbrev pub FitOutcome : World → ℕ → List Block → ℕ → Option ℕ × World → Type 0
  FitOutcome w at bs need (some x, w') =
      (row : List Block) × Row w w' at bs need x row
      × (s : ℕ) × (block_at at row x ≡ some (block s false))
      × (need ≤ s)
  FitOutcome w at bs need (none, w') = (row : List Block) × Row w w' at bs need h.brk row

  -- A block in front that stays as it is.
  pub Refits-cons :
      (w w' : World) (at : ℕ) (c : Block) (bs row : List Block)
      → Usable p v h w
      → h.base ≤ at
      → at % 8 ≡ 0
      → Tiled (read w) at h.brk (c ∷ bs)
      → Refits p v h w w' (at + 8 + c.size) bs row
      → Refits p v h w w' at (c ∷ bs) (c ∷ row)
  Refits-cons w w' at c bs row u lower even t r =
      let fits = Tiled-le (read w) (at + 8 + c.size) h.brk bs t.4 in
      record {
        within =
            Within-widen p v (at + 8 + c.size) h.brk at h.brk w w' (omega arith) (omega arith)
              r.within;
        tiled = (
          r.within.words at (Usable-Mapped p v u at (omega arith) lower (omega arith))
                (inl (omega arith))
              ∙ t.0,
          r.within.words (at + 4)
                (Usable-Mapped p v u (at + 4) (omega arith) (omega arith) (omega arith))
                (inl (omega arith))
              ∙ t.1,
          t.2,
          t.3,
          r.tiled,
        );
        same = λ y. ground (
          arith,
          block_at-here at c bs y,
          block_at-later at c bs y,
          block_at-here at c row y,
          block_at-later at c row y,
          r.same y,
        );
      }

  Searched-used :
      (need bound at : ℕ) (c : Block) (row : List Block)
      → c.used ≡ true
      → Searched need bound (at + 8 + c.size) row
      → Searched need bound at (c ∷ row)
  Searched-used need bound at c row used s = record {
    small = λ y t k e.
        s.small y t k (ground (arith, block_at-here at c row y, block_at-later at c row y));
    apart = λ y t z k e. ground (
      arith,
      block_at-here at c row y,
      block_at-later at c row y,
      block_at-later at c row (y + 8 + t),
      block_at-here at c row (y + 8 + t),
      s.apart y t z k,
    );
  }

  head_not_free :
      (at z : ℕ) (row : List Block) → HeadUsed p v row → block_at at row at ≢ some (block z false)
  head_not_free at z [] used e = cc (block_at-nil at at, e)
  head_not_free at z (c ∷ row) used e = ground (arith, block_at-here at c row at)

  Searched-free :
      (rd : ℕ → ℕ) (need bound at size : ℕ) (row : List Block)
      → size < need
      → HeadUsed p v row
      → Searched need bound (at + 8 + size) row
      → Searched need bound at (block size false ∷ row)
  Searched-free rd need bound at size row less used s = record {
    small = λ y t k e. ground (
      arith,
      block_at-here at (block size false) row y,
      block_at-later at (block size false) row y,
      s.small y t k,
    );
    apart = λ y t z k e. ground (
      arith,
      block_at-here at (block size false) row y,
      block_at-later at (block size false) row y,
      block_at-later at (block size false) row (y + 8 + t),
      block_at-below rd (at + 8 + size) row y,
      head_not_free (at + 8 + size) z row used,
      s.apart y t z k,
    );
  }

  -- `rest.head` says that the row behind begins with a block in use if the old one did.
  pub Searched-cons :
      (w : World) (need bound at : ℕ) (c : Block) (bs row : List Block)
      → (c.used ≡ false → (c.size < need) × HeadUsed p v bs)
      → (HeadUsed p v bs → HeadUsed p v row)
      → Searched need bound (at + 8 + c.size) row
      → Searched need bound at (c ∷ row)
  Searched-cons w need bound at c bs row less keep s = elim (Bool-cases c.used) [
    | inl used ↦ Searched-used need bound at c row used s
    | inr free ↦
        let (short, stop) = less free in
        let same : block c.size false ≡ c = ground arith in
        subst (λ d. Searched need bound at (d ∷ row)) same
          (Searched-free (read w) need bound at c.size row short (keep stop) s)
  ]

  pub behind :
      (rd : ℕ → ℕ) (at : ℕ) (c : Block) (row : List Block) (x : ℕ) {b : Block}
      → Tiled rd (at + 8 + c.size) h.brk row
      → block_at (at + 8 + c.size) row x ≡ some b
      → block_at at (c ∷ row) x ≡ some b
  behind rd at c row x t found =
      ground (arith, block_at-later at c row x, block_at-below rd (at + 8 + c.size) row x)
