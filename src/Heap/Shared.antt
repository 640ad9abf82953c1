-- ===== src/Heap/Shared.antt =====
-- Two heaps of kernel/src/heap.rs over one memory: the work on one of them, seen through its own range
-- of pages, leaves the other as it is.
pub mod Laws
pub mod Both
use kfs.Base.{
  ℕ, suc, ◌+◌, ◌-◌, ◌%◌, ◌^◌, ◌≤◌, ◌<◌, ◌≡◌, ◌≢◌, refl, Bool, true, false, ◌&&◌, Option, none, some,
  List, arith, ltb, leb, ◌==◌, if◌then◌else◌, ◌⊎◌, inl, inr, ◌∙◌, ap, sym, Bool-cases,
}
use kfs.Pager.{Pager, View, Mapped, page_of}
use kfs.Heap.{Heap, is_contiguous, page_size}
use kfs.Heap.Blocks.{Block, Tiled-Agrees}
use kfs.Heap.State.{Placed, IsHeap, Window}

module _ (p : Pager) (v : View p.World) (other : Heap) (bs : List Block) where
  open p use {World, read, write, map_page, unmap_page, alloc_frame, free_frame, oops}
  open v use {Valid, Spare, frame_at, lo, hi}

  -- A frame that the other heap counts on mapping.
  abbrev pub InWindow : ℕ → Type 0
  InWindow f =
      (is_contiguous other.backing ≡ true)
      × (q : ℕ) × (q % 4096 ≡ 0)
      × (other.brk ≤ q)
      × (q + page_size ≤ other.limit)
      × (other.phys_base + (q - other.base) + page_size ≤ other.phys_end)
      × (f ≡ other.phys_base + (q - other.base))

  -- The other heap stays where its pages, words and window do.
  pub other-IsHeap :
      (w w' : World)
      → IsHeap p v other w bs
      → Valid w'
      → ((q : ℕ) → other.base ≤ q → q < other.limit → frame_at w' q ≡ frame_at w q)
      → ((f : ℕ) → InWindow f → Spare w f → Spare w' f)
      → ((b : ℕ) → Mapped p v w b → other.base ≤ b → b < other.limit → read w' b ≡ read w b)
      → IsHeap p v other w' bs
  other-IsHeap w w' is valid frames spare words =
      let g = is.placed in
      record {
        placed = g;
        valid = valid;
        pages = λ q e a l. rw (frames q a (omega (arith, g.brk_le))) (is.pages q e a l);
        tiled =
            Tiled-Agrees (read w) (read w') other.base other.brk bs (omega (arith, g.base_even))
              (λ a e m n.
                words a
                  (e, is.pages (page_of a) (omega arith) (omega (arith, g.base_even)) (omega arith))
                  m (omega (arith, g.brk_le)))
              is.tiled;
        window = λ c.
            let win = is.window c in
            record {
              fits = win.fits;
              shows = λ q e a l. frames q a (omega (arith, g.brk_le)) ∙ win.shows q e a l;
              spare = λ q e a l n. spare _ (c, q, e, a, l, n, refl) (win.spare q e a l n);
            };
      }

  -- The memory as the heap between `from` and `to` sees it.
  abbrev pub narrow : ℕ → ℕ → View World
  narrow from to = record {
    Valid = λ w. Valid w × IsHeap p v other w bs;
    Spare = λ w f. Spare w f × ¬ InWindow f;
    frame_at = λ w q. if leb from q && ltb q to then frame_at w q else none;
    lo = from;
    hi = to;
  }
