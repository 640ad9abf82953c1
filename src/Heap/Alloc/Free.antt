-- ===== src/Heap/Alloc/Free.antt =====
-- `free` and `size` of kernel/src/heap.rs against the row of blocks.
use kfs.Base.{
  ℕ, ◌+◌, ◌≡◌, refl, Bool, true, false, Option, none, some, List, [], ◌∷◌, ◌==◌, if◌then◌else◌,
  arith, Bool-cases, inl, inr, ◌∙◌, subst, ap,
}
use kfs.Pager.{Pager, View, Laws}
use kfs.Heap.{Heap, size_at, used_at, write_header}
use kfs.Heap.Blocks.{
  Block, block, Tiled, Found, block_at, block_at-here, block_at-later, block_at-nil, block_at-Found,
  block_at-replace, block_at-inside, live, live_size, replace,
}
use kfs.Heap.State.{IsHeap, write_header-Put, heap-Mapped, IsHeap-replace, Within-widen}
use kfs.Heap.Walk.{find_block}
use kfs.Heap.Walk.Laws.{FindOutcome, find_block-FindOutcome, used_at-flag}
use kfs.Heap.Alloc.{free, size}

pub block_of_live : (o : Option Block) (s : ℕ) → live_size o ≡ some s → o ≡ some (block s true)
block_of_live none s e = absurd (cc)
block_of_live (some b) s e = ground arith

unused_of_live : (o : Option Block) (b : Block) → o ≡ some b → live_size o ≡ none → b.used ≡ false
unused_of_live none b e l = absurd (cc)
unused_of_live (some c) b e l = ground arith

-- `free` and `size` by their tests.
module _ (p : Pager) (h : Heap) (w : p.World) where
  free_null : (pointer : ℕ) → (pointer == 0) ≡ true → free p h w pointer ≡ w
  free_null pointer e = unfold free in rw (e, free)

  size_null : (pointer : ℕ) → (pointer == 0) ≡ true → size p h w pointer ≡ (0, w)
  size_null pointer e = unfold size in rw (e, size)

  free_frees :
      (x : ℕ)
      → find_block p h w (x + 8) ≡ some x
      → used_at p w x ≡ true
      → free p h w (x + 8) ≡ write_header p w x (size_at p w x) false
  free_frees x hit used =
      let e : (x + 8 == 0) ≡ false = ground arith in unfold free in rw (e, hit, used, free)

  size_hits : (x : ℕ) → find_block p h w (x + 8) ≡ some x → size p h w (x + 8) ≡ (size_at p w x, w)
  size_hits x hit = let e : (x + 8 == 0) ≡ false = ground arith in unfold size in rw (e, hit, size)

  module _ (pointer : ℕ) (there : (pointer == 0) ≡ false) where
    free_missing : find_block p h w pointer ≡ none → free p h w pointer ≡ p.oops w
    free_missing miss = unfold free in rw (there, miss, free)

    free_dead :
        (x : ℕ)
        → find_block p h w pointer ≡ some x
        → used_at p w x ≡ false
        → free p h w pointer ≡ p.oops w
    free_dead x hit unused = unfold free in rw (there, hit, unused, free)

    size_misses : find_block p h w pointer ≡ none → size p h w pointer ≡ (0, p.oops w)
    size_misses miss = unfold size in rw (there, miss, size)

module _ (p : Pager) (v : View p.World) where
  open p use {World, read, oops}

  -- A heap that has the allocations of `bs`, but for `x`, where it has `now`.
  pub record Updates (h : Heap) (bs : List Block) (x : ℕ) (now : Option ℕ) (w' : World)
      : Type 0 where
    pub row : List Block
    pub heap : IsHeap p v h w' row
    pub view : (y : ℕ) → live h.base row y ≡ (if x == y then now else live h.base bs y)

  -- What the row says of a block, and where it lies.
  pub block-Found :
      {h : Heap} {w : World} {bs : List Block} {x : ℕ} {b : Block}
      → IsHeap p v h w bs
      → block_at h.base bs x ≡ some b
      → Found (read w) h.base h.brk x b
  block-Found {h} {w} {bs} {x} is found =
      block_at-Found (read w) h.base h.brk bs x (omega (arith, is.placed.base_even)) is.tiled found

  module _ (laws : Laws p v) {h : Heap} {w : World} {bs : List Block} (is : IsHeap p v h w bs) where
    -- The header of a block is rewritten, and only that.
    pub reheader :
        (x : ℕ) (b : Block) (u : Bool)
        → block_at h.base bs x ≡ some b
        → Updates h bs x (live_size (some (block b.size u))) (write_header p w x b.size u)
    reheader x b u found =
        let f = block-Found is found in
        let g = is.placed in
        let put =
          write_header-Put p v laws w x b.size u is.valid
            (heap-Mapped p v is x (omega (arith, f.aligned)) f.above (omega (arith, f.below)))
            (heap-Mapped p v is (x + 4) (omega (arith, f.aligned)) (omega (arith, f.above))
              (omega (arith, f.below)))
            (omega (arith, f.below, g.brk_le, g.room)) (omega (arith, f.below, g.brk_le, g.room)) in
        let w' = write_header p w x b.size u in
        let within =
          Within-widen p v x (x + 8) x (x + 8 + b.size) w w' (omega arith) (omega arith)
            put.within in
        let cut : Tiled (read w') x (x + 8 + b.size) (block b.size u ∷ []) =
          (put.size_there, put.used_there, f.big, f.even, refl) in
        record {
          row = replace h.base bs x (block b.size u ∷ []);
          heap = IsHeap-replace p v is w' x b (block b.size u ∷ []) found within cut;
          view = λ y. ground (
            arith,
            block_at-replace (read w) (read w') h.brk x b (block b.size u ∷ []) h.base bs y
                (omega (arith, g.base_even)) is.tiled found cut,
            block_at-here x (block b.size u) [] y,
            block_at-later x (block b.size u) [] y,
            block_at-nil (x + 8 + b.size) y,
            block_at-inside (read w) h.base h.brk bs x b y (omega (arith, g.base_even)) is.tiled
                found,
          );
        }

    -- How `find_block` comes out for the pointer behind a block.
    found_there :
        (x : ℕ) (b : Block) (r : Option ℕ)
        → block_at h.base bs x ≡ some b
        → FindOutcome h.base bs (x + 8) r
        → r ≡ some x
    found_there x b none found o = absurd (cc (o x refl, found))
    found_there x b (some y) found (e, c, h') = let q : y ≡ x = omega arith in rw q

    used_there : (x : ℕ) (b : Block) → block_at h.base bs x ≡ some b → used_at p w x ≡ b.used
    used_there x b found =
        let f = block-Found is found in
        used_at-flag p w x b.used (omega (arith, f.below, is.placed.brk_le, is.placed.room)) f.used

    freed :
        (x s : ℕ)
        → block_at h.base bs x ≡ some (block s true)
        → Updates h bs x none (free p h w (x + 8))
    unfolding size_at
    freed x s found =
        let outcome = find_block-FindOutcome p v is (x + 8) in
        let hit = found_there x (block s true) (find_block p h w (x + 8)) found outcome in
        let size_there : size_at p w x ≡ s = (block-Found is found).size in
        rw (free_frees p h w x hit (used_there x (block s true) found), size_there)
          (reheader x (block s true) false found)

    refused :
        (pointer : ℕ)
        → (pointer == 0) ≡ false
        → ((x : ℕ) → x + 8 ≡ pointer → live h.base bs x ≡ none)
        → (r : Option ℕ) → find_block p h w pointer ≡ r
        → free p h w pointer ≡ oops w
    refused pointer there dead none miss = free_missing p h w pointer there miss
    refused pointer there dead (some x) hit =
        let (e, b, found) =
          subst (FindOutcome h.base bs pointer) hit (find_block-FindOutcome p v is pointer) in
        let unused : b.used ≡ false = unused_of_live _ b found (dead x e) in
        free_dead p h w pointer there x hit (used_there x b found ∙ unused)

    missing :
        (pointer : ℕ)
        → (pointer == 0) ≡ false
        → ((x : ℕ) → x + 8 ≡ pointer → block_at h.base bs x ≡ none)
        → (r : Option ℕ) → find_block p h w pointer ≡ r
        → size p h w pointer ≡ (0, oops w)
    missing pointer there gone none miss = size_misses p h w pointer there miss
    missing pointer there gone (some x) hit =
        let (e, b, found) =
          subst (FindOutcome h.base bs pointer) hit (find_block-FindOutcome p v is pointer) in
        absurd (cc (gone x e, found))

  -- `free` of the pointer to an allocation ends that allocation, leaves every other one as it is,
  -- and keeps the heap well formed.
  pub free-Updates :
      (laws : Laws p v) (h : Heap) (w : World) (bs : List Block) (x s : ℕ)
      → IsHeap p v h w bs
      → live h.base bs x ≡ some s
      → Updates h bs x none (free p h w (x + 8))
  free-Updates laws h w bs x s is l = freed laws is x s (block_of_live _ s l)

  -- `free` of a pointer that is not one to an allocation, as after a first `free`, changes
  -- nothing, and complains unless the pointer is null.
  pub free-oops :
      (laws : Laws p v) (h : Heap) (w : World) (bs : List Block) (pointer : ℕ)
      → IsHeap p v h w bs
      → ((x : ℕ) → x + 8 ≡ pointer → live h.base bs x ≡ none)
      → free p h w pointer ≡ (if pointer == 0 then w else oops w)
  free-oops laws h w bs pointer is dead = elim (Bool-cases (pointer == 0)) [
    | inl null ↦ rw null (free_null p h w pointer null)
    | inr there ↦ rw there (refused laws is pointer there dead (find_block p h w pointer) refl)
  ]

  -- `size` of the pointer behind a block is the size of that block, in use or not.
  pub size-block :
      (laws : Laws p v) (h : Heap) (w : World) (bs : List Block) (x : ℕ) (b : Block)
      → IsHeap p v h w bs
      → block_at h.base bs x ≡ some b
      → size p h w (x + 8) ≡ (b.size, w)
  unfolding size_at
  size-block laws h w bs x b is found =
      let hit =
        found_there laws is x b (find_block p h w (x + 8)) found
          (find_block-FindOutcome p v is (x + 8)) in
      rw (size_hits p h w x hit) (ap (λ n. (n, w)) (block-Found is found).size)

  -- `size` of a pointer with no block before it is 0, with a complaint unless the pointer is null.
  pub size-oops :
      (laws : Laws p v) (h : Heap) (w : World) (bs : List Block) (pointer : ℕ)
      → IsHeap p v h w bs
      → ((x : ℕ) → x + 8 ≡ pointer → block_at h.base bs x ≡ none)
      → size p h w pointer ≡ (0, if pointer == 0 then w else oops w)
  size-oops laws h w bs pointer is gone = elim (Bool-cases (pointer == 0)) [
    | inl null ↦ rw null (size_null p h w pointer null)
    | inr there ↦ rw there (missing laws is pointer there gone (find_block p h w pointer) refl)
  ]
