-- ===== src/Heap/Blocks/Last.antt =====
-- Rewriting the last block of a row, which may move the end of the row.
use kfs.Base.{
  ℕ, ◌+◌, ◌%◌, ◌≡◌, refl, some, List, [], ◌∷◌, ltb, ◌==◌, if◌then◌else◌, arith, ==→eq, Bool-cases,
  inl, inr, ◌∙◌, subst, sym,
}
use mathlib.Core.List.{append-nil}
use kfs.Heap.Blocks.{
  Block, Tiled, Agrees, block_at, replace, block_at-here, block_at-later, replace-here,
  replace-later, block_at-Found, block_at-below, Tiled-append, Tiled-le,
}

-- A row whose blocks take no room has no blocks.
pub nil_of_eq : (rd : ℕ → ℕ) (at : ℕ) (bs : List Block) → Tiled rd at at bs → bs ≡ []
nil_of_eq rd at [] t = refl
nil_of_eq rd at (b ∷ bs) t = absurd (omega (arith, Tiled-le rd (at + 8 + b.size) at bs t.4))

module _ (rd rd' : ℕ → ℕ) (end end' x : ℕ) (b : Block) (new : List Block)
    (last : x + 8 + b.size ≡ end) where
  pub Tiled-replace_last :
      (at : ℕ) (bs : List Block)
      → at % 8 ≡ 0
      → Tiled rd at end bs
      → block_at at bs x ≡ some b
      → Agrees rd rd' at x
      → Tiled rd' x end' new
      → Tiled rd' at end' (replace at bs x new)
  Tiled-replace_last at [] e t h before cut = absurd (unfold block_at in cc)
  Tiled-replace_last at (c ∷ bs) e t h before cut = elim (Bool-cases (at == x)) [
    | inl here ↦
        let same : some c ≡ some b = sym (block_at-here at c bs x here) ∙ h in
        let q : at + 8 + c.size ≡ end = ground arith in
        let empty = nil_of_eq rd end bs (subst (λ m. Tiled rd m end bs) q t.4) in
        rw (replace-here at c bs x new here, empty, ==→eq at x here)
          (Tiled-append rd' x end' end' new [] cut refl)
    | inr later ↦
        let h' = sym (block_at-later at c bs x later) ∙ h in
        let f = block_at-Found rd (at + 8 + c.size) end bs x (omega arith) t.4 h' in
        rw (replace-later at c bs x new later) (
          before at (omega arith) (omega arith) (omega (arith, f.above)) ∙ t.0,
          before (at + 4) (omega arith) (omega arith) (omega (arith, f.above)) ∙ t.1,
          t.2,
          t.3,
          Tiled-replace_last (at + 8 + c.size) bs (omega arith) t.4 h'
              (λ a k l m. before a k (omega arith) m) cut,
        )
  ]

  pub block_at-replace_last :
      (at : ℕ) (bs : List Block) (y : ℕ)
      → at % 8 ≡ 0
      → Tiled rd at end bs
      → block_at at bs x ≡ some b
      → block_at at (replace at bs x new) y
        ≡ (if ltb y x then block_at at bs y else block_at x new y)
  block_at-replace_last at [] y e t h = absurd (unfold block_at in cc)
  block_at-replace_last at (c ∷ bs) y e t h = elim (Bool-cases (at == x)) [
    | inl here ↦
        let same : some c ≡ some b = sym (block_at-here at c bs x here) ∙ h in
        let q : at + 8 + c.size ≡ end = ground arith in
        let empty = nil_of_eq rd end bs (subst (λ m. Tiled rd m end bs) q t.4) in
        rw (replace-here at c bs x new here, empty, ==→eq at x here, append-nil)
          (ground (arith, block_at-below rd x new y, block_at-below rd x (c ∷ []) y))
    | inr later ↦
        let h' = sym (block_at-later at c bs x later) ∙ h in
        let f = block_at-Found rd (at + 8 + c.size) end bs x (omega arith) t.4 h' in
        rw (replace-later at c bs x new later) (
          ground (
            arith,
            f.above,
            block_at-here at c bs y,
            block_at-later at c bs y,
            block_at-here at c (replace (at + 8 + c.size) bs x new) y,
            block_at-later at c (replace (at + 8 + c.size) bs x new) y,
            block_at-replace_last (at + 8 + c.size) bs y (omega arith) t.4 h',
          ))
  ]
