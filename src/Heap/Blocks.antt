-- ===== src/Heap/Blocks.antt =====
-- The row of blocks that the memory of a heap of kernel/src/heap.rs stands for, and what happens
-- to the row when one block of it is rewritten.
pub mod Last
use kfs.Base.{
  ℕ, zero, suc, ◌+◌, ◌-◌, ◌%◌, ◌≤◌, ◌<◌, ◌≡◌, refl, ◌≢◌, Bool, true, false, ◌&&◌, Option, none,
  some, List, [], ◌∷◌, ◌++◌, ltb, leb, ◌==◌, if◌then◌else◌, arith, ==→eq, Bool-cases, Option-cases,
  inl, inr, ◌⊎◌, ◌∙◌, subst, sym,
}

pub record Block : Type 0 where
  pub size : ℕ
  pub used : Bool

abbrev pub block : ℕ → Bool → Block
block size used = record { size = size; used = used }

abbrev pub flag : Bool → ℕ
flag used = if used then 1 else 0

-- The memory `rd` from `at` to `end` is the row `bs`: headers and payloads with no gap.
abbrev pub Tiled : (ℕ → ℕ) → ℕ → ℕ → List Block → Type 0
Tiled rd at end [] = at ≡ end
Tiled rd at end (b ∷ bs) =
    (rd at ≡ b.size)
    × (rd (at + 4) ≡ flag b.used)
    × (8 ≤ b.size)
    × (b.size % 8 ≡ 0)
    × Tiled rd (at + 8 + b.size) end bs

-- The block whose header is at `x`, in the row that begins at `at`.
pub block_at : ℕ → List Block → ℕ → Option Block
block_at at [] x = none
block_at at (b ∷ bs) x = if at == x then some b else block_at (at + 8 + b.size) bs x

abbrev pub live_size : Option Block → Option ℕ
live_size none = none
live_size (some b) = if b.used then some b.size else none

-- The size of the allocation whose header is at `x`.
abbrev pub live : ℕ → List Block → ℕ → Option ℕ
live at bs x = live_size (block_at at bs x)

-- The row with the block at `x` cut into the blocks `new`.
pub replace : ℕ → List Block → ℕ → List Block → List Block
replace at [] x new = []
replace at (b ∷ bs) x new = if at == x then new ++ bs else b ∷ replace (at + 8 + b.size) bs x new

-- The rewritten memory agrees with `rd` from `at` to `end`.
abbrev pub Agrees : (ℕ → ℕ) → (ℕ → ℕ) → ℕ → ℕ → Type 0
Agrees rd rd' at end = (a : ℕ) → a % 4 ≡ 0 → at ≤ a → a < end → rd' a ≡ rd a

module _ (rd : ℕ → ℕ) where
  pub Tiled-le : (at end : ℕ) (bs : List Block) → Tiled rd at end bs → at ≤ end
  Tiled-le at end [] t = omega arith
  Tiled-le at end (b ∷ bs) t = omega (arith, Tiled-le (at + 8 + b.size) end bs t.4)

  pub Tiled-aligned : (at end : ℕ) (bs : List Block) → at % 8 ≡ 0 → Tiled rd at end bs → end % 8 ≡ 0
  Tiled-aligned at end [] e t = omega arith
  Tiled-aligned at end (b ∷ bs) e t = Tiled-aligned (at + 8 + b.size) end bs (omega arith) t.4

  pub Tiled-append :
      (at mid end : ℕ) (xs ys : List Block)
      → Tiled rd at mid xs
      → Tiled rd mid end ys
      → Tiled rd at end (xs ++ ys)
  Tiled-append at mid end [] ys t u = rw t u
  Tiled-append at mid end (x ∷ xs) ys t u =
      (t.0, t.1, t.2, t.3, Tiled-append (at + 8 + x.size) mid end xs ys t.4 u)

  pub Tiled-Agrees :
      (rd' : ℕ → ℕ) (at end : ℕ) (bs : List Block)
      → at % 8 ≡ 0
      → Agrees rd rd' at end
      → Tiled rd at end bs
      → Tiled rd' at end bs
  Tiled-Agrees rd' at end [] e same t = t
  Tiled-Agrees rd' at end (b ∷ bs) e same t = (
    same at (omega arith) (omega arith) (omega (arith, Tiled-le (at + 8 + b.size) end bs t.4))
        ∙ t.0,
    same (at + 4) (omega arith) (omega arith) (omega (arith, Tiled-le (at + 8 + b.size) end bs t.4))
        ∙ t.1,
    t.2,
    t.3,
    Tiled-Agrees rd' (at + 8 + b.size) end bs (omega arith) (λ a h k l. same a h (omega arith) l)
        t.4,
  )

pub block_at-nil : (at x : ℕ) → block_at at [] x ≡ none
unfolding block_at
block_at-nil at x = refl

module _ (at : ℕ) (c : Block) (bs : List Block) (x : ℕ) where
  pub block_at-here : (at == x) ≡ true → block_at at (c ∷ bs) x ≡ some c
  block_at-here e = unfold block_at in rw e

  pub block_at-later : (at == x) ≡ false → block_at at (c ∷ bs) x ≡ block_at (at + 8 + c.size) bs x
  block_at-later e = unfold block_at in rw e

  pub replace-here : (new : List Block) → (at == x) ≡ true → replace at (c ∷ bs) x new ≡ new ++ bs
  replace-here new e = unfold replace in rw e

  pub replace-later :
      (new : List Block)
      → (at == x) ≡ false
      → replace at (c ∷ bs) x new ≡ c ∷ replace (at + 8 + c.size) bs x new
  replace-later new e = unfold replace in rw e

-- What the header of a block that the row holds says, and where the block lies.
pub record Found (rd : ℕ → ℕ) (at end x : ℕ) (b : Block) : Type 0 where
  pub size : rd x ≡ b.size
  pub used : rd (x + 4) ≡ flag b.used
  pub big : 8 ≤ b.size
  pub even : b.size % 8 ≡ 0
  pub aligned : x % 8 ≡ 0
  pub above : at ≤ x
  pub below : x + 8 + b.size ≤ end

module _ (rd : ℕ → ℕ) where
  pub block_at-Found :
      (at end : ℕ) (bs : List Block) (x : ℕ) {b : Block}
      → at % 8 ≡ 0
      → Tiled rd at end bs
      → block_at at bs x ≡ some b
      → Found rd at end x b
  block_at-Found at end [] x e t h = absurd (unfold block_at in cc)
  block_at-Found at end (c ∷ bs) x {b} e t h = elim (Bool-cases (at == x)) [
    | inl here ↦ first here (head_block here h)
    | inr later ↦
        widen (block_at-Found (at + 8 + c.size) end bs x (omega arith) t.4 (tail_block later h))
  ]
    where
      head_block : (at == x) ≡ true → block_at at (c ∷ bs) x ≡ some b → b ≡ c
      head_block here h = unfold block_at in ground arith

      tail_block :
          (at == x) ≡ false
          → block_at at (c ∷ bs) x ≡ some b
          → block_at (at + 8 + c.size) bs x ≡ some b
      tail_block later h = unfold block_at in ground arith

      first : (at == x) ≡ true → b ≡ c → Found rd at end x b
      first here same = record {
        size = ground arith;
        used = ground arith;
        big = ground arith;
        even = ground arith;
        aligned = ground arith;
        above = ground arith;
        below = ground (arith, Tiled-le rd (at + 8 + c.size) end bs t.4);
      }

      widen : Found rd (at + 8 + c.size) end x b → Found rd at end x b
      widen f = record {
        size = f.size;
        used = f.used;
        big = f.big;
        even = f.even;
        aligned = f.aligned;
        above = omega (arith, f.above);
        below = f.below;
      }

  -- Nothing is found below the row.
  pub block_at-below : (at : ℕ) (bs : List Block) (x : ℕ) → x < at → block_at at bs x ≡ none
  unfolding block_at
  block_at-below at [] x h = refl
  block_at-below at (b ∷ bs) x h = ground (arith, block_at-below (at + 8 + b.size) bs x)

  -- Nothing is found behind the row.
  pub block_at-above :
      (at end : ℕ) (bs : List Block) (x : ℕ)
      → at % 8 ≡ 0
      → Tiled rd at end bs
      → end ≤ x
      → block_at at bs x ≡ none
  block_at-above at end bs x e t h = elim (Option-cases (block_at at bs x)) [
    | inl gone ↦ gone
    | inr (b, found) ↦ absurd (omega (arith, (block_at-Found at end bs x e t found).below))
  ]

  pub block_at-append :
      (at mid : ℕ) (xs ys : List Block) (x : ℕ)
      → Tiled rd at mid xs
      → block_at at (xs ++ ys) x ≡ (if ltb x mid then block_at at xs x else block_at mid ys x)
  unfolding block_at
  block_at-append at mid [] ys x t = ground (arith, block_at-below at ys x)
  block_at-append at mid (b ∷ xs) ys x t = ground (
    arith,
    block_at-append (at + 8 + b.size) mid xs ys x t.4,
    Tiled-le rd (at + 8 + b.size) mid xs t.4,
  )

  -- No block begins inside another one.
  pub block_at-inside :
      (at end : ℕ) (bs : List Block) (x : ℕ) (b : Block) (y : ℕ)
      → at % 8 ≡ 0
      → Tiled rd at end bs
      → block_at at bs x ≡ some b
      → x < y
      → y < x + 8 + b.size
      → block_at at bs y ≡ none
  block_at-inside at end [] x b y e t h low high = block_at-nil at y
  block_at-inside at end (c ∷ bs) x b y e t h low high = elim (Bool-cases (at == x)) [
    | inl here ↦
        let same : some c ≡ some b = sym (block_at-here at c bs x here) ∙ h in
        block_at-later at c bs y (ground arith)
        ∙ block_at-below (at + 8 + c.size) bs y (ground arith)
    | inr later ↦
        let h' = sym (block_at-later at c bs x later) ∙ h in
        let f = block_at-Found (at + 8 + c.size) end bs x (omega arith) t.4 h' in
        block_at-later at c bs y (ground (arith, f.above))
        ∙ block_at-inside (at + 8 + c.size) end bs x b y (omega arith) t.4 h' low high
  ]

module _ (rd rd' : ℕ → ℕ) (end x : ℕ) (b : Block) (new : List Block) where
  pub Tiled-replace :
      (at : ℕ) (bs : List Block)
      → at % 8 ≡ 0
      → Tiled rd at end bs
      → block_at at bs x ≡ some b
      → Agrees rd rd' at x
      → Agrees rd rd' (x + 8 + b.size) end
      → Tiled rd' x (x + 8 + b.size) new
      → Tiled rd' at end (replace at bs x new)
  Tiled-replace at [] e t h before after cut = absurd (unfold block_at in cc)
  Tiled-replace at (c ∷ bs) e t h before after cut = elim (Bool-cases (at == x)) [
    | inl here ↦
        let same : some c ≡ some b = sym (block_at-here at c bs x here) ∙ h in
        let q : at + 8 + c.size ≡ x + 8 + b.size = ground arith in
        let tail = subst (λ m. Tiled rd m end bs) q t.4 in
        let kept = Tiled-Agrees rd rd' (x + 8 + b.size) end bs (ground arith) after tail in
        let whole = Tiled-append rd' x (x + 8 + b.size) end new bs cut kept in
        rw (replace-here at c bs x new here)
          (subst (λ m. Tiled rd' m end (new ++ bs)) (sym (==→eq _ _ here)) whole)
    | inr later ↦
        let h' = sym (block_at-later at c bs x later) ∙ h in
        let f = block_at-Found rd (at + 8 + c.size) end bs x (omega arith) t.4 h' in
        rw (replace-later at c bs x new later) (
          before at (omega arith) (omega arith) (omega (arith, f.above)) ∙ t.0,
          before (at + 4) (omega arith) (omega arith) (omega (arith, f.above)) ∙ t.1,
          t.2,
          t.3,
          Tiled-replace (at + 8 + c.size) bs (omega arith) t.4 h'
              (λ a k l m. before a k (omega arith) m) after cut,
        )
  ]

  -- What the row holds at `y` after the cut.
  pub block_at-replace :
      (at : ℕ) (bs : List Block) (y : ℕ)
      → at % 8 ≡ 0
      → Tiled rd at end bs
      → block_at at bs x ≡ some b
      → Tiled rd' x (x + 8 + b.size) new
      → block_at at (replace at bs x new) y
        ≡ (if leb x y && ltb y (x + 8 + b.size) then block_at x new y else block_at at bs y)
  block_at-replace at [] y e t h cut = absurd (unfold block_at in cc)
  block_at-replace at (c ∷ bs) y e t h cut = elim (Bool-cases (at == x)) [
    | inl here ↦
        let same : some c ≡ some b = sym (block_at-here at c bs x here) ∙ h in
        let q : at + 8 + c.size ≡ x + 8 + b.size = ground arith in
        rw (replace-here at c bs x new here, ==→eq at x here)
          (ground (
            arith,
            block_at-append rd' x (x + 8 + b.size) new bs y cut,
            block_at-below rd x new y,
            block_at-below rd at (c ∷ bs) y,
            block_at-later at c bs y,
            q,
          ))
    | inr later ↦
        let h' = sym (block_at-later at c bs x later) ∙ h in
        let f = block_at-Found rd (at + 8 + c.size) end bs x (omega arith) t.4 h' in
        rw (replace-later at c bs x new later) (
          ground (
            arith,
            f.above,
            block_at-here at c bs y,
            block_at-later at c bs y,
            block_at-here at c (replace (at + 8 + c.size) bs x new) y,
            block_at-later at c (replace (at + 8 + c.size) bs x new) y,
            block_at-replace (at + 8 + c.size) bs y (omega arith) t.4 h' cut,
          ))
  ]
