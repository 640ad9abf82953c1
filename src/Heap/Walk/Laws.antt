-- ===== src/Heap/Walk/Laws.antt =====
-- `last_block` and `find_block` of kernel/src/heap.rs find the blocks of the row.
use kfs.Base.{
  ℕ, zero, suc, ◌+◌, ◌-◌, ◌^◌, ◌≤◌, ◌<◌, ◌≡◌, refl, ◌≢◌, Bool, true, false, Option, none, some,
  List, [], ◌∷◌, leb, ◌==◌, arith, ==→eq, Bool-cases, inl, inr, ◌∙◌, u32, ne_of_test,
}
use kfs.Pager.{Pager, View}
use kfs.Heap.{Heap, header, next_at, size_at, used_at}
use kfs.Heap.Blocks.{
  Block, flag, Tiled, Tiled-le, block_at, block_at-nil, block_at-here, block_at-later,
  block_at-below,
}
use kfs.Heap.State.{IsHeap}
use kfs.Heap.Walk.{last_loop, last_block, find_loop, find_block}

-- The block whose payload is at `payload`, or `none` where the row has no such block.
abbrev pub FindOutcome : ℕ → List Block → ℕ → Option ℕ → Type 0
FindOutcome at bs payload none = (x : ℕ) → x + 8 ≡ payload → block_at at bs x ≡ none
FindOutcome at bs payload (some x) = (x + 8 ≡ payload) × (b : Block) × (block_at at bs x ≡ some b)

-- The block that ends where the row ends, or `none` where the row is empty.
abbrev pub LastOutcome : ℕ → ℕ → List Block → Option ℕ → Type 0
LastOutcome at end bs none = bs ≡ []
LastOutcome at end bs (some x) = (b : Block) × (block_at at bs x ≡ some b) × (x + 8 + b.size ≡ end)

-- The walk of `last_block` from `at`, with `last` the block before.
abbrev LastFrom : ℕ → ℕ → List Block → Option ℕ → Option ℕ → Type 0
LastFrom at end [] last r = r ≡ last
LastFrom at end (b ∷ bs) last r =
    (x : ℕ) × (r ≡ some x)
    × (c : Block) × (block_at at (b ∷ bs) x ≡ some c)
    × (x + 8 + c.size ≡ end)

LastFrom-cons :
    (rd : ℕ → ℕ) (at end : ℕ) (b : Block) (bs : List Block) (r : Option ℕ)
    → Tiled rd at end (b ∷ bs)
    → LastFrom (at + 8 + b.size) end bs (some at) r
    → (x : ℕ) × (r ≡ some x)
      × (c : Block) × (block_at at (b ∷ bs) x ≡ some c)
      × (x + 8 + c.size ≡ end)
LastFrom-cons rd at end b [] r t e = (at, e, b, block_at-here at b [] at (ground arith), t.4)
LastFrom-cons rd at end b (c ∷ bs) r t (x, e, d, found, last) = (
  x,
  e,
  d,
  block_at-later at b (c ∷ bs) x (elim (Bool-cases (at == x)) [
    | inl same ↦ absurd (cc (block_at-below rd (at + 8 + b.size) (c ∷ bs) x (ground arith), found))
    | inr other ↦ other
  ])
      ∙ found,
  last,
)

LastOutcome-of_LastFrom :
    (at end : ℕ) (bs : List Block) (r : Option ℕ)
    → LastFrom at end bs none r
    → LastOutcome at end bs r
LastOutcome-of_LastFrom at end [] none e = refl
LastOutcome-of_LastFrom at end [] (some x) e = absurd (cc)
LastOutcome-of_LastFrom at end (b ∷ bs) none (x, e, _, _, _) = absurd (cc)
LastOutcome-of_LastFrom at end (b ∷ bs) (some y) (x, e, c, found, last) =
    let q : y ≡ x = ground arith in rw q (c, found, last)

FindOutcome-later :
    (at : ℕ) (b : Block) (bs : List Block) (payload : ℕ) (r : Option ℕ)
    → at + 8 ≢ payload
    → FindOutcome (at + 8 + b.size) bs payload r
    → FindOutcome at (b ∷ bs) payload r
FindOutcome-later at b bs payload none ne o = λ x e. block_at-later at b bs x (ground arith) ∙ o x e
FindOutcome-later at b bs payload (some x) ne (e, c, found) =
    (e, c, block_at-later at b bs x (ground arith) ∙ found)

module _ (p : Pager) where
  open p use {World, read}

  pub used_at-flag :
      (w : World) (x : ℕ) (u : Bool) → x + 4 < 2 ^ 32 → read w (x + 4) ≡ flag u → used_at p w x ≡ u
  unfolding used_at
  used_at-flag w x u h e = let q : u32 (x + 4) ≡ x + 4 = omega arith in ground (arith, q)

  module _ (h : Heap) (w : World) (low : h.brk + 0x10000 ≤ 2 ^ 32) where
    find_ends :
        (fuel payload at : ℕ)
        → h.brk < at + 8
        → at ≤ h.brk
        → find_loop p (suc fuel) h w payload at ≡ none
    find_ends fuel payload at a b =
        let q : leb (u32 (at + header)) h.brk ≡ false = ground arith in
        unfold find_loop in rw (q, find_loop)

    find_hits :
        (fuel payload at : ℕ)
        → at + 8 ≤ h.brk
        → at + 8 ≡ payload
        → find_loop p (suc fuel) h w payload at ≡ some at
    find_hits fuel payload at a e =
        let q : leb (u32 (at + header)) h.brk ≡ true = ground arith in
        let r : (u32 (at + header) == payload) ≡ true = ground arith in
        unfold find_loop in rw (q, r, find_loop)

    find_moves :
        (fuel payload at : ℕ)
        → at + 8 + read w at ≤ h.brk
        → at + 8 ≢ payload
        → find_loop p (suc fuel) h w payload at ≡ find_loop p fuel h w payload (at + 8 + read w at)
    find_moves fuel payload at a ne =
        let q : leb (u32 (at + header)) h.brk ≡ true = ground arith in
        let r : (u32 (at + header) == payload) ≡ false = ground arith in
        let n : next_at at (read w at) ≡ at + 8 + read w at = omega arith in
        unfold find_loop size_at in rw (q, r, n, find_loop)

    find_loop-FindOutcome :
        (fuel payload at : ℕ) (bs : List Block)
        → h.brk < fuel + at
        → Tiled (read w) at h.brk bs
        → FindOutcome at bs payload (find_loop p fuel h w payload at)
    find_loop-FindOutcome zero payload at bs enough t =
        absurd (omega (arith, Tiled-le (read w) at h.brk bs t))
    find_loop-FindOutcome (suc fuel) payload at [] enough t =
        rw (find_ends fuel payload at (omega arith) (omega arith)) (λ x e. block_at-nil at x)
    find_loop-FindOutcome (suc fuel) payload at (b ∷ bs) enough t =
        elim (Bool-cases (at + 8 == payload)) [
          | inl hit ↦
              rw
                (find_hits fuel payload at
                  (omega (arith, Tiled-le (read w) (at + 8 + b.size) h.brk bs t.4)) (==→eq _ _ hit))
                (==→eq _ _ hit, b, block_at-here at b bs at (ground arith))
          | inr miss ↦
              let n : at + 8 + read w at ≡ at + 8 + b.size = omega (arith, t.0) in
              let fits = Tiled-le (read w) (at + 8 + b.size) h.brk bs t.4 in
              rw (find_moves fuel payload at (omega (arith, t.0)) (ne_of_test _ _ miss), n)
                (FindOutcome-later at b bs payload _ (ne_of_test _ _ miss)
                  (find_loop-FindOutcome fuel payload (at + 8 + b.size) bs (omega arith) t.4))
        ]

    last_ends :
        (fuel to at : ℕ) (last : Option ℕ)
        → to < at + 8
        → at ≤ to
        → to + 0x10000 ≤ 2 ^ 32
        → last_loop p (suc fuel) w to at last ≡ last
    last_ends fuel to at last a b c =
        let q : leb (u32 (at + header)) to ≡ false = ground arith in
        unfold last_loop in rw (q, last_loop)

    last_moves :
        (fuel to at : ℕ) (last : Option ℕ)
        → at + 8 + read w at ≤ to
        → to + 0x10000 ≤ 2 ^ 32
        → last_loop p (suc fuel) w to at last ≡ last_loop p fuel w to (at + 8 + read w at) (some at)
    last_moves fuel to at last a c =
        let q : leb (u32 (at + header)) to ≡ true = ground arith in
        let n : next_at at (read w at) ≡ at + 8 + read w at = omega arith in
        unfold last_loop size_at in rw (q, n, last_loop)

    last_loop-LastFrom :
        (fuel to at : ℕ) (bs : List Block) (last : Option ℕ)
        → to < fuel + at
        → to + 0x10000 ≤ 2 ^ 32
        → Tiled (read w) at to bs
        → LastFrom at to bs last (last_loop p fuel w to at last)
    last_loop-LastFrom zero to at bs last enough c t =
        absurd (omega (arith, Tiled-le (read w) at to bs t))
    last_loop-LastFrom (suc fuel) to at [] last enough c t =
        last_ends fuel to at last (omega arith) (omega arith) c
    last_loop-LastFrom (suc fuel) to at (b ∷ bs) last enough c t =
        let n : at + 8 + read w at ≡ at + 8 + b.size = omega (arith, t.0) in
        let fits = Tiled-le (read w) (at + 8 + b.size) to bs t.4 in
        rw (last_moves fuel to at last (omega (arith, t.0)) c, n)
          (LastFrom-cons (read w) at to b bs _ t
            (last_loop-LastFrom fuel to (at + 8 + b.size) bs (some at) (omega arith) c t.4))

    -- `last_block` of any row that begins at the heap's base.
    pub last_block-of_Tiled :
        (to : ℕ) (bs : List Block)
        → h.base ≤ to
        → to + 0x10000 ≤ 2 ^ 32
        → Tiled (read w) h.base to bs
        → LastOutcome h.base to bs (last_block p h w to)
    unfolding last_block
    last_block-of_Tiled to bs lower room t =
        LastOutcome-of_LastFrom h.base to bs _
          (last_loop-LastFrom (suc (to - h.base)) to h.base bs none (omega arith) room t)

  module _ (v : View p.World) {h : Heap} {w : World} {bs : List Block}
      (is : IsHeap p v h w bs) where
    -- `find_block` finds the block with the payload, or says that there is none.
    pub find_block-FindOutcome :
        (payload : ℕ) → FindOutcome h.base bs payload (find_block p h w payload)
    unfolding find_block
    find_block-FindOutcome payload =
        let g = is.placed in
        find_loop-FindOutcome h w (omega (arith, g.room, g.brk_le)) (suc (h.brk - h.base)) payload
          h.base bs (omega (arith, g.base_le)) is.tiled

    -- `last_block` finds the block that ends at the break.
    pub last_block-LastOutcome : LastOutcome h.base h.brk bs (last_block p h w h.brk)
    last_block-LastOutcome =
        let g = is.placed in
        last_block-of_Tiled h w (omega (arith, g.room, g.brk_le)) h.brk bs g.base_le
          (omega (arith, g.room, g.brk_le)) is.tiled
