-- ===== src/Heap/Break/Shrink.antt =====
-- `shrink` of kernel/src/heap.rs: what it refuses, and that it keeps the heap.
use kfs.Base.{
  ℕ, ◌+◌, ◌-◌, ◌*◌, ◌%◌, ◌^◌, ◌≤◌, ◌<◌, ◌≡◌, refl, ◌≢◌, Bool, true, false, ◌||◌, Option, none, some,
  List, min, ltb, leb, ◌==◌, arith, Bool-cases, ==→eq, inl, inr, ◌∙◌, sym, ap, subst, u32, sub32,
}
use kfs.Pager.{Pager, View, Laws}
use kfs.Heap.{Heap, header, smallest, page_size, used_at, write_header}
use kfs.Heap.Blocks.{Block, block, Tiled, block_at, block_at-Found, block_at-inside}
use kfs.Heap.State.{IsHeap, Within}
use kfs.Heap.Walk.{last_block}
use kfs.Heap.Walk.Laws.{LastOutcome, last_block-LastOutcome, used_at-flag}
use kfs.Heap.Fit.Merge.{Refits-refl}
use kfs.Heap.Break.{trim, release, shrink}
use kfs.Heap.Break.Release.{IsHeap-Keeps, ShrinkOutcome, Shrank-whole, Shrank-part}

module _ (p : Pager) (v : View p.World) where
  open p use {World, read, oops}
  open v use {Valid, lo, hi}

  module _ (h : Heap) (w : World) (x target : ℕ) where
    trim_refuses : (used_at p w x || ltb target x) ≡ true → trim p w x target ≡ (false, oops w)
    trim_refuses e = unfold trim in rw e

    trim_whole : used_at p w x ≡ false → x ≡ target → trim p w x target ≡ (true, w)
    trim_whole e q =
        let a : ltb target x ≡ false = ground arith in
        let b : ltb x target ≡ false = ground arith in unfold trim in rw (e, a, b)

    trim_small :
        used_at p w x ≡ false
        → x < target
        → target < x + 16
        → x + 16 < 2 ^ 32
        → trim p w x target ≡ (false, oops w)
    trim_small e q r s =
        let a : ltb target x ≡ false = ground arith in
        let b : ltb x target ≡ true = ground arith in
        let c : ltb target (u32 (u32 (x + header) + smallest)) ≡ true = ground arith in
        unfold trim in rw (e, a, b, c)

    trim_cuts :
        used_at p w x ≡ false
        → x + 16 ≤ target
        → target < 2 ^ 32
        → trim p w x target ≡ (true, write_header p w x (target - x - 8) false)
    trim_cuts e q r =
        let a : ltb target x ≡ false = ground arith in
        let b : ltb x target ≡ true = ground arith in
        let c : ltb target (u32 (u32 (x + header) + smallest)) ≡ false = ground arith in
        let d : sub32 (sub32 target x) header ≡ target - x - 8 = omega arith in
        unfold trim in rw (e, a, b, c, d)

  -- Where the break goes.
  abbrev pub target_of : Heap → ℕ → ℕ
  target_of h pages = h.brk - min (pages * 4096 % 2 ^ 32) (h.brk - h.base)

  module _ (h : Heap) (w : World) (pages : ℕ) (low : h.brk < 2 ^ 32) (lower : h.base ≤ h.brk) where
    spans : min (u32 (pages * page_size)) (sub32 h.brk h.base) ≡ h.brk - target_of h pages
    spans = let q : sub32 h.brk h.base ≡ h.brk - h.base = omega arith in rw q (omega arith)

    aims : sub32 h.brk (min (u32 (pages * page_size)) (sub32 h.brk h.base)) ≡ target_of h pages
    aims = let q : sub32 h.brk h.base ≡ h.brk - h.base = omega arith in rw q (omega arith)

    shrink_stays : target_of h pages ≡ h.brk → shrink p h w pages ≡ (true, h, w)
    shrink_stays e =
        let q : (h.brk - target_of h pages == 0) ≡ true = ground arith in
        unfold shrink in rw (spans, q)

    shrink_moves :
        (x : ℕ) (w1 : World)
        → target_of h pages < h.brk
        → last_block p h w h.brk ≡ some x
        → trim p w x (target_of h pages) ≡ (true, w1)
        → shrink p h w pages
          ≡ (true, (release p h w1 (target_of h pages)).0, (release p h w1 (target_of h pages)).1)
    shrink_moves x w1 e q t =
        let a : (min (u32 (pages * page_size)) (sub32 h.brk h.base) == 0) ≡ false =
          ground (arith, spans) in
        unfold shrink in
        rw (a, q, aims, ap (λ (r : Bool × World). r.0) t, ap (λ (r : Bool × World). r.1) t)

    shrink_refuses :
        (x : ℕ) (w1 : World)
        → target_of h pages < h.brk
        → last_block p h w h.brk ≡ some x
        → trim p w x (target_of h pages) ≡ (false, w1)
        → shrink p h w pages ≡ (false, h, w1)
    shrink_refuses x w1 e q t =
        let a : (min (u32 (pages * page_size)) (sub32 h.brk h.base) == 0) ≡ false =
          ground (arith, spans) in
        unfold shrink in
        rw (a, q, aims, ap (λ (r : Bool × World). r.0) t, ap (λ (r : Bool × World). r.1) t)

  module _ (laws : Laws p v) (h : Heap) (w : World) (bs : List Block) (pages : ℕ)
      (is : IsHeap p v h w bs) where
    abbrev target : ℕ
    target = target_of h pages

    target_even : target % 4096 ≡ 0
    target_even = omega (arith, is.placed.base_even, is.placed.brk_even)

    abbrev Outcome : Bool × Heap × World → Type 0
    Outcome = ShrinkOutcome p v h bs target

    still : Within p v h.base h.brk w w
    still =
        (Refits-refl p v (record { placed = is.placed; valid = is.valid; pages = is.pages })
          is.tiled).within

    last_of :
        (y s x : ℕ) (b : Block)
        → block_at h.base bs x ≡ some b
        → x + 8 + b.size ≡ h.brk
        → block_at h.base bs y ≡ some (block s false)
        → y + 8 + s ≡ h.brk
        → (y ≡ x) × (b.used ≡ false)
    last_of y s x b found last there ends =
        let e : h.base % 8 ≡ 0 = omega (arith, is.placed.base_even) in
        let f = block_at-Found (read w) h.base h.brk bs x e is.tiled found in
        let g = block_at-Found (read w) h.base h.brk bs y e is.tiled there in
        let q : y ≡ x = ground (
          arith,
          f.big,
          g.big,
          block_at-inside (read w) h.base h.brk bs x b y e is.tiled found,
          block_at-inside (read w) h.base h.brk bs y (block s false) x e is.tiled there,
        ) in
        (q, ground (arith, q))

    -- A refusal, with the reason.
    refused :
        (x : ℕ) (b : Block)
        → target < h.brk
        → last_block p h w h.brk ≡ some x
        → trim p w x target ≡ (false, oops w)
        → block_at h.base bs x ≡ some b
        → x + 8 + b.size ≡ h.brk
        → (b.used ≡ false → (x ≢ target) × (target < x + 16))
        → Outcome (shrink p h w pages)
    refused x b down q t found last why =
        rw
          (shrink_refuses h w pages (omega (arith, is.placed.brk_le, is.placed.room))
            is.placed.base_le x (oops w) down q t)
          (
            refl,
            IsHeap-Keeps p v is (laws.oops-Keeps w is.valid),
            λ y s there ends.
                let (same, free) = last_of y s x b found last there ends in
                let (ne, tight) = why free in
                (ground (arith, same, ne), ground (arith, same, tight)),
          )

    trimmed :
        (x s : ℕ)
        → target < h.brk
        → last_block p h w h.brk ≡ some x
        → block_at h.base bs x ≡ some (block s false)
        → x + 8 + s ≡ h.brk
        → used_at p w x ≡ false
        → Outcome (shrink p h w pages)
    trimmed x s down q found last free =
        let l = is.placed in
        let low : h.brk < 2 ^ 32 = omega (arith, l.brk_le, l.room) in
        let lower : h.base ≤ target = omega (arith, l.base_le) in
        elim (Bool-cases (x == target)) [
          | inl whole ↦
              rw
                (shrink_moves h w pages low l.base_le x w down q
                  (trim_whole h w x target free (==→eq _ _ whole)))
                (Shrank-whole p v laws is target target_even lower (omega arith) x s found last
                  (==→eq _ _ whole))
          | inr part ↦ elim (Bool-cases (leb (x + 16) target)) [
            | inl room ↦
                rw
                  (shrink_moves h w pages low l.base_le x _ down q
                    (trim_cuts h w x target free (ground arith) (omega arith)))
                  (Shrank-part p v laws is target target_even lower (omega arith) x s found last
                    (ground arith))
            | inr tight ↦ elim (Bool-cases (ltb target x)) [
              | inl over ↦
                  refused x (block s false) down q (trim_refuses h w x target (rw free over)) found
                    last (λ _. (ground arith, ground arith))
              | inr under ↦
                  refused x (block s false) down q
                    (trim_small h w x target free (ground arith) (ground arith)
                      (ground (arith, l.brk_le, l.room)))
                    found last (λ _. (ground arith, ground arith))
            ]
          ]
        ]

    at_last :
        (r : Option ℕ)
        → target < h.brk
        → last_block p h w h.brk ≡ r
        → LastOutcome h.base h.brk bs r
        → Outcome (shrink p h w pages)
    at_last none down q empty = absurd (
        omega (arith, subst (λ m. Tiled (read w) h.base h.brk m) empty is.tiled, is.placed.base_le))
    at_last (some x) down q (b, found, last) =
        let l = is.placed in
        let f =
          block_at-Found (read w) h.base h.brk bs x (omega (arith, l.base_even)) is.tiled found in
        let test = used_at-flag p w x b.used (omega (arith, f.below, l.brk_le, l.room)) f.used in
        elim (Bool-cases b.used) [
          | inl used ↦
              refused x b down q (trim_refuses h w x target (rw (test, used) refl)) found last
                (λ free. absurd (cc))
          | inr free ↦
              let same : b ≡ block b.size false = ground arith in
              trimmed x b.size down q (found ∙ ap (λ c. some c) same) last (test ∙ free)
        ]

    shrink-Outcome : Outcome (shrink p h w pages)
    shrink-Outcome =
        let l = is.placed in
        let low : h.brk < 2 ^ 32 = omega (arith, l.brk_le, l.room) in
        elim (Bool-cases (target == h.brk)) [
          | inl stays ↦
              let q : target ≡ h.brk = ==→eq _ _ stays in
              rw (shrink_stays h w pages low l.base_le q) (record {
                same = ap (λ b. record h { brk = b }) (sym q);
                row = bs;
                heap = is;
                view = λ y. refl;
              })
          | inr moves ↦
              at_last (last_block p h w h.brk) (ground arith) refl (last_block-LastOutcome p v is)
        ]

  -- `shrink` lowers the break by the pages asked for, or to the base where that is less, and
  -- no allocation changes; or it says `false` and the heap stays as it was, which it does only
  -- when the blocks leave no free block at the top that ends at the break and either begins at
  -- the new break or has room there for what is left of it.
  pub shrink-ShrinkOutcome :
      Laws p v
      → (h : Heap) (w : World) (bs : List Block) (pages : ℕ) → IsHeap p v h w bs
      → ShrinkOutcome p v h bs (target_of h pages) (shrink p h w pages)
  shrink-ShrinkOutcome laws h w bs pages is = shrink-Outcome laws h w bs pages is
