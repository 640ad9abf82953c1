-- ===== src/Heap/Statics/Empty.antt =====
-- The heaps of kernel/src/heap.rs as `init` leaves them, and the first `kmalloc`.
use kfs.Base.{ℕ, ◌+◌, ◌-◌, ◌%◌, ◌^◌, ◌≤◌, ◌≡◌, refl, [], arith}
use kfs.Pager.{Pager, View}
use kfs.Mem.{kheap_base, vmalloc_limit}
use kfs.Heap.{new, attach}
use kfs.Heap.State.{IsHeap}
use kfs.Heap.Statics.{kernel_heap, virtual_heap, boot, init}
use kfs.Heap.Statics.Steps.{Sound}

module _ (p : Pager) (v : View p.World) where
  open p use {World}
  open v use {Valid, Spare, lo, hi}

  pub init_world : (w : World) (window : ℕ × ℕ) → (init p (boot p w) window).world ≡ w
  unfolding init boot
  init_world w window = refl

  -- The frames from `from` to `to` are the heap's to map.
  abbrev pub Reserved : World → ℕ × ℕ → Type 0
  Reserved w (from, to) = (f : ℕ) → f % 4096 ≡ 0 → from ≤ f → f + 4096 ≤ to → Spare w f

  -- After `init` with a window of frames at a page bound that is the heap's own, both heaps are well formed and
  -- have no block.
  pub init-IsHeap :
      (w : World) (from to : ℕ)
      → Valid w
      → lo ≤ kheap_base
      → vmalloc_limit ≤ hi
      → from % 4096 ≡ 0
      → from + 0x02000000 + 4096 ≤ 2 ^ 32
      → Reserved w (from, to)
      → IsHeap p v (init p (boot p w) (from, to)).kernel w []
        × IsHeap p v (init p (boot p w) (from, to)).virtual w []
  unfolding init boot kernel_heap virtual_heap new attach
  init-IsHeap w from to valid above below even fits mine = (
    record {
      placed = record {
        base_even = refl;
        brk_even = refl;
        limit_even = refl;
        not_null = omega arith;
        base_le = omega arith;
        brk_le = omega arith;
        room = omega arith;
        above = above;
        below = omega arith;
        flags_small = omega arith;
      };
      valid = valid;
      pages = λ q e a b. absurd (omega arith);
      tiled = refl;
      window = λ c. record {
        fits = omega arith;
        shows = λ q e a b. absurd (omega arith);
        spare = λ q e a b n. mine (from + (q - kheap_base)) (omega arith) (omega arith) n;
      };
    },
    record {
      placed = record {
        base_even = refl;
        brk_even = refl;
        limit_even = refl;
        not_null = omega arith;
        base_le = omega arith;
        brk_le = omega arith;
        room = omega arith;
        above = omega arith;
        below = below;
        flags_small = omega arith;
      };
      valid = valid;
      pages = λ q e a b. absurd (omega arith);
      tiled = refl;
      window = λ c. absurd (cc);
    },
  )

  pub init-Sound :
      (w : World) (from to : ℕ)
      → Valid w
      → lo ≤ kheap_base
      → vmalloc_limit ≤ hi
      → from % 4096 ≡ 0
      → from + 0x02000000 + 4096 ≤ 2 ^ 32
      → Reserved w (from, to)
      → Sound p v (init p (boot p w) (from, to))
  unfolding init boot kernel_heap virtual_heap new attach
  init-Sound w from to valid above below even fits mine =
      let (kernel, virtual) = init-IsHeap w from to valid above below even fits mine in
      record {
        kernel_row = [];
        virtual_row = [];
        kernel = kernel;
        virtual = virtual;
        kernel_base = refl;
        kernel_limit = refl;
        virtual_base = refl;
        virtual_limit = refl;
        scattered = refl;
      }
