-- ===== src/Heap/State.antt =====
-- The invariant of a heap of kernel/src/heap.rs, and what a write of one header does to it.
use kfs.Base.{
  ℕ, ◌+◌, ◌-◌, ◌%◌, ◌^◌, ◌≤◌, ◌<◌, ◌≡◌, ◌≢◌, Bool, true, false, none, some, List, arith, u32, ◌⊎◌,
  inl, inr, ◌∙◌, ap,
}
use kfs.Pager.{Pager, View, Laws, Mapped, page_of, Keeps}
use kfs.Heap.{Heap, is_contiguous, page_size, write_header}
use kfs.Heap.Blocks.{Block, flag, Tiled, Tiled-replace, block_at, block_at-Found, replace}

-- Where a heap lies: in the pages from `lo` to `hi`, at page bounds, with room below 4 GB;
-- its flags are among the low 12 bits of a page table entry.
pub record Placed (lo hi : ℕ) (h : Heap) : Type 0 where
  pub base_even : h.base % 4096 ≡ 0
  pub brk_even : h.brk % 4096 ≡ 0
  pub limit_even : h.limit % 4096 ≡ 0
  pub not_null : 0 < h.base
  pub base_le : h.base ≤ h.brk
  pub brk_le : h.brk ≤ h.limit
  pub room : h.limit + 0x10000 ≤ 2 ^ 32
  pub above : lo ≤ h.base
  pub below : h.limit ≤ hi
  pub flags_small : h.flags < 4096

module _ (p : Pager) (v : View p.World) where
  open p use {World, read, write}
  open v use {Valid, Spare, frame_at, lo, hi}

  -- A contiguous heap shows, page after page, the frames that follow `phys_base`, and those that
  -- it does not show yet are its to map.
  pub record Window (h : Heap) (w : World) : Type 0 where
    pub fits : h.phys_base + (h.limit - h.base) + page_size ≤ 2 ^ 32
    pub shows :
        (q : ℕ)
        → q % 4096 ≡ 0
        → h.base ≤ q
        → q < h.brk
        → frame_at w q ≡ some (h.phys_base + (q - h.base))
    pub spare :
        (q : ℕ)
        → q % 4096 ≡ 0
        → h.brk ≤ q
        → q + page_size ≤ h.limit
        → h.phys_base + (q - h.base) + page_size ≤ h.phys_end
        → Spare w (h.phys_base + (q - h.base))

  abbrev pub Pages : World → ℕ → ℕ → Type 0
  Pages w from to = (q : ℕ) → q % 4096 ≡ 0 → from ≤ q → q < to → frame_at w q ≢ none

  -- The memory from `base` to `brk` is mapped, and it is the row of blocks `bs`.
  pub record IsHeap (h : Heap) (w : World) (bs : List Block) : Type 0 where
    pub placed : Placed lo hi h
    pub valid : Valid w
    pub pages : Pages w h.base h.brk
    pub tiled : Tiled (read w) h.base h.brk bs
    pub window : is_contiguous h.backing ≡ true → Window h w

  -- Only words from `from` to `to` change.
  pub record Within (from to : ℕ) (w w' : World) : Type 0 where
    pub valid : Valid w'
    pub frames : (q : ℕ) → frame_at w' q ≡ frame_at w q
    pub spare : (g : ℕ) → Spare w g → Spare w' g
    pub words : (b : ℕ) → Mapped p v w b → (b < from) ⊎ (to ≤ b) → read w' b ≡ read w b

  pub Keeps-Within : (from to : ℕ) (w w' : World) → Keeps p v w w' → Within from to w w'
  Keeps-Within from to w w' k = record {
    valid = k.valid;
    frames = k.frames;
    spare = k.spare;
    words = λ b m _. k.words b m;
  }

  pub Within-trans :
      (from to : ℕ) (w w' w'' : World)
      → Within from to w w'
      → Within from to w' w''
      → Within from to w w''
  Within-trans from to w w' w'' k l = record {
    valid = l.valid;
    frames = λ q. l.frames q ∙ k.frames q;
    spare = λ g s. l.spare g (k.spare g s);
    words = λ b m o. l.words b (m.0, rw (k.frames (page_of b)) m.1) o ∙ k.words b m o;
  }

  pub Within-widen :
      (from to from' to' : ℕ) (w w' : World)
      → from' ≤ from
      → to ≤ to'
      → Within from to w w'
      → Within from' to' w w'
  Within-widen from to from' to' w w' a b k = record {
    valid = k.valid;
    frames = k.frames;
    spare = k.spare;
    words = λ c m o. k.words c m (narrow c o);
  }
    where
      narrow : (c : ℕ) → (c < from') ⊎ (to' ≤ c) → (c < from) ⊎ (to ≤ c)
      narrow c o = ground arith

  pub Window-Within :
      (from to : ℕ) (h : Heap) (w w' : World) → Within from to w w' → Window h w → Window h w'
  Window-Within from to h w w' k win = record {
    fits = win.fits;
    shows = λ q e a l. k.frames q ∙ win.shows q e a l;
    spare = λ q e a l m. k.spare _ (win.spare q e a l m);
  }

  module _ {h : Heap} {w : World} {bs : List Block} (is : IsHeap h w bs) where
    pub heap-Mapped : (a : ℕ) → a % 4 ≡ 0 → h.base ≤ a → a < h.brk → Mapped p v w a
    heap-Mapped a e lower upper =
        let g = is.placed in
        (e, is.pages (page_of a) (omega arith) (omega (arith, g.base_even)) (omega arith))

    -- A change that stays within one block of the row replaces it.
    pub IsHeap-replace :
        (w' : World) (x : ℕ) (b : Block) (new : List Block)
        → block_at h.base bs x ≡ some b
        → Within x (x + 8 + b.size) w w'
        → Tiled (read w') x (x + 8 + b.size) new
        → IsHeap h w' (replace h.base bs x new)
    IsHeap-replace w' x b new found within cut =
        let g = is.placed in
        let f =
          block_at-Found (read w) h.base h.brk bs x (omega (arith, g.base_even)) is.tiled found in
        record {
          placed = is.placed;
          valid = within.valid;
          pages = λ q e a k. rw (within.frames q) (is.pages q e a k);
          tiled =
              Tiled-replace (read w) (read w') h.brk x b new h.base bs (omega (arith, g.base_even))
                is.tiled found
                (λ a e l k.
                  within.words a (heap-Mapped a e l (omega (arith, f.below, f.big))) (inl k))
                (λ a e l k. within.words a (heap-Mapped a e (omega (arith, f.above)) k) (inr l))
                cut;
          window = λ c. Window-Within x (x + 8 + b.size) h w w' within (is.window c);
        }

  header_words :
      (w : World) (x size : ℕ) (used : Bool)
      → x + 4 < 2 ^ 32
      → write_header p w x size used ≡ write (write w x size) (x + 4) (flag used)
  unfolding write_header
  header_words w x size used low =
      let q : u32 (x + 4) ≡ x + 4 = omega arith in ap (λ a. write (write w x size) a (flag used)) q

  module _ (laws : Laws p v) where
    pub record Put (w : World) (x size : ℕ) (used : Bool) (w' : World) : Type 0 where
      pub within : Within x (x + 8) w w'
      pub size_there : read w' x ≡ size
      pub used_there : read w' (x + 4) ≡ flag used

    pub write_header-Put :
        (w : World) (x size : ℕ) (used : Bool)
        → Valid w
        → Mapped p v w x
        → Mapped p v w (x + 4)
        → x + 4 < 2 ^ 32
        → size < 2 ^ 32
        → Put w x size used (write_header p w x size used)
    write_header-Put w x size used valid here there low small =
        let w1 = write w x size in
        let one = laws.write-Wrote w x size valid here small in
        let there' : Mapped p v w1 (x + 4) = (there.0, rw (one.frames (page_of (x + 4))) there.1) in
        let two = laws.write-Wrote w1 (x + 4) (flag used) one.valid there' (flag-lt used) in
        rw (header_words w x size used low) (record {
          within = record {
            valid = two.valid;
            frames = λ r. two.frames r ∙ one.frames r;
            spare = λ g s. two.spare g (one.spare g s);
            words = λ b m o.
                ground (arith, two.words b (m.0, rw (one.frames (page_of b)) m.1), one.words b m);
          };
          size_there =
              ground
                (arith, two.words x (here.0, rw (one.frames (page_of x)) here.1), one.words x here);
          used_there = ground (arith, two.words (x + 4) there');
        })
      where
        flag-lt : (u : Bool) → flag u < 2 ^ 32
        flag-lt true = omega arith
        flag-lt false = omega arith
