-- ===== src/Heap/Statics.antt =====
-- The two heaps of kernel/src/heap.rs and the functions that the kernel calls: `kmalloc` and its
-- like on frames in a row, `vmalloc` and its like on frames from anywhere.
pub mod Empty
pub mod Steps
use kfs.Base.{ℕ, ℤ}
use kfs.Pager.{Pager}
use kfs.Mem.{kheap_base, kheap_limit, vmalloc_base, vmalloc_limit}
use kfs.Paging.{kernel_page}
use kfs.Heap.{Heap, Stats, contiguous, scattered, new, attach}
use kfs.Heap.Alloc.{alloc, free, size, stats}
use kfs.Heap.Break.{brk}

pub kernel_heap : Heap
kernel_heap = new "kmalloc" kheap_base kheap_limit contiguous kernel_page

pub virtual_heap : Heap
virtual_heap = new "vmalloc" vmalloc_base vmalloc_limit scattered kernel_page

module _ (p : Pager) where
  open p use {World}

  -- KERNEL_HEAP and VIRTUAL_HEAP, and the memory under them.
  pub record Heaps : Type 0 where
    pub kernel : Heap
    pub virtual : Heap
    pub world : World

  pub boot : World → Heaps
  boot w = record { kernel = kernel_heap; virtual = virtual_heap; world = w }

  pub init : Heaps → ℕ × ℕ → Heaps
  init s window = record s { kernel = attach s.kernel window }

  pub kmalloc : Heaps → ℕ → ℕ × Heaps
  kmalloc s want =
      let (pointer, h, w) = alloc p s.kernel s.world want in
      (pointer, record s { kernel = h; world = w })

  pub kfree : Heaps → ℕ → Heaps
  kfree s pointer = record s { world = free p s.kernel s.world pointer }

  pub ksize : Heaps → ℕ → ℕ × Heaps
  ksize s pointer =
      let (bytes, w) = size p s.kernel s.world pointer in (bytes, record s { world = w })

  pub kbrk : Heaps → ℤ → ℕ × Heaps
  kbrk s delta =
      let (was, h, w) = brk p s.kernel s.world delta in (was, record s { kernel = h; world = w })

  pub vmalloc : Heaps → ℕ → ℕ × Heaps
  vmalloc s want =
      let (pointer, h, w) = alloc p s.virtual s.world want in
      (pointer, record s { virtual = h; world = w })

  pub vfree : Heaps → ℕ → Heaps
  vfree s pointer = record s { world = free p s.virtual s.world pointer }

  pub vsize : Heaps → ℕ → ℕ × Heaps
  vsize s pointer =
      let (bytes, w) = size p s.virtual s.world pointer in (bytes, record s { world = w })

  pub vbrk : Heaps → ℤ → ℕ × Heaps
  vbrk s delta =
      let (was, h, w) = brk p s.virtual s.world delta in (was, record s { virtual = h; world = w })

  pub kernel_stats : Heaps → Stats
  kernel_stats s = stats p s.kernel s.world

  pub virtual_stats : Heaps → Stats
  virtual_stats s = stats p s.virtual s.world
