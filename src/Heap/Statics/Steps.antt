-- ===== src/Heap/Statics/Steps.antt =====
-- The calls of the kernel's two heaps of kernel/src/heap.rs as steps, and what every run of them keeps.
use kfs.Base.{ℕ, ◌+◌, ◌≤◌, ◌≡◌, refl, false, List, arith, inl, inr, ℤ, ap, ◌∙◌}
use kfs.Mem.{kheap_base, kheap_limit, vmalloc_base, vmalloc_limit}
use kfs.Pager.{Pager, View, Laws}
use kfs.Heap.{Heap, is_contiguous}
use kfs.Heap.Blocks.{Block}
use kfs.Heap.State.{IsHeap}
use kfs.Heap.Statics.{Heaps, kmalloc, kfree, kbrk, vmalloc, vfree, vbrk}
use kfs.Heap.Shared.{narrow}
use kfs.Heap.Shared.Laws.{Fresh, narrow-Laws}
use kfs.Heap.Shared.Both.{After, alloc-After, free-After, brk-After, narrow-IsHeap, wide-IsHeap}

-- One call, with any argument.
pub data Step (p : Pager) : Heaps p → Heaps p → Type 0 where
  kmallocs : (s : Heaps p) (want : ℕ) → Step p s (kmalloc p s want).1
  kfrees : (s : Heaps p) (pointer : ℕ) → Step p s (kfree p s pointer)
  kbrks : (s : Heaps p) (delta : ℤ) → Step p s (kbrk p s delta).1
  vmallocs : (s : Heaps p) (want : ℕ) → Step p s (vmalloc p s want).1
  vfrees : (s : Heaps p) (pointer : ℕ) → Step p s (vfree p s pointer)
  vbrks : (s : Heaps p) (delta : ℤ) → Step p s (vbrk p s delta).1

-- Any number of calls, one after the other.
pub data Reaches (p : Pager) (s : Heaps p) : Heaps p → Type 0 where
  stay : Reaches p s s
  next : {t u : Heaps p} → Reaches p s t → Step p t u → Reaches p s u

module _ (p : Pager) (v : View p.World) where
  -- Both heaps are well formed, each in its own range.
  pub record Sound (s : Heaps p) : Type 0 where
    pub kernel_row : List Block
    pub virtual_row : List Block
    pub kernel : IsHeap p v s.kernel s.world kernel_row
    pub virtual : IsHeap p v s.virtual s.world virtual_row
    pub kernel_base : s.kernel.base ≡ kheap_base
    pub kernel_limit : s.kernel.limit ≡ kheap_limit
    pub virtual_base : s.virtual.base ≡ vmalloc_base
    pub virtual_limit : s.virtual.limit ≡ vmalloc_limit
    pub scattered : is_contiguous s.virtual.backing ≡ false

  module _ (laws : Laws p v) (fresh : Fresh p v) (above : v.lo ≤ kheap_base)
      (below : vmalloc_limit ≤ v.hi) where
    -- The kernel's heap has moved on, seen beside the other.
    kernel-Sound :
        (s : Heaps p) (sound : Sound s) (h1 : Heap) (w1 : p.World)
        → After p (narrow p v s.virtual sound.virtual_row kheap_base kheap_limit) s.kernel h1 w1
        → Sound (record s { kernel = h1; world = w1 })
    kernel-Sound s sound h1 w1 a = record {
      kernel_row = a.row;
      virtual_row = sound.virtual_row;
      kernel =
          wide-IsHeap p v s.virtual sound.virtual_row kheap_base kheap_limit h1 w1 a.row above
            (omega arith) a.heap;
      virtual = a.heap.valid.1;
      kernel_base = ap (λ (h : Heap). h.base) a.same ∙ sound.kernel_base;
      kernel_limit = ap (λ (h : Heap). h.limit) a.same ∙ sound.kernel_limit;
      virtual_base = sound.virtual_base;
      virtual_limit = sound.virtual_limit;
      scattered = sound.scattered;
    }

    virtual-Sound :
        (s : Heaps p) (sound : Sound s) (h1 : Heap) (w1 : p.World)
        → After p (narrow p v s.kernel sound.kernel_row vmalloc_base vmalloc_limit) s.virtual h1 w1
        → Sound (record s { virtual = h1; world = w1 })
    virtual-Sound s sound h1 w1 a = record {
      kernel_row = sound.kernel_row;
      virtual_row = a.row;
      kernel = a.heap.valid.1;
      virtual =
          wide-IsHeap p v s.kernel sound.kernel_row vmalloc_base vmalloc_limit h1 w1 a.row
            (omega arith) below a.heap;
      kernel_base = sound.kernel_base;
      kernel_limit = sound.kernel_limit;
      virtual_base = ap (λ (h : Heap). h.base) a.same ∙ sound.virtual_base;
      virtual_limit = ap (λ (h : Heap). h.limit) a.same ∙ sound.virtual_limit;
      scattered = ap (λ (h : Heap). is_contiguous h.backing) a.same ∙ sound.scattered;
    }

    module _ (s : Heaps p) (sound : Sound s) where
      abbrev beside_virtual : View p.World
      beside_virtual = narrow p v s.virtual sound.virtual_row kheap_base kheap_limit

      abbrev beside_kernel : View p.World
      beside_kernel = narrow p v s.kernel sound.kernel_row vmalloc_base vmalloc_limit

      virtual_laws : Laws p beside_virtual
      virtual_laws =
          narrow-Laws p v laws fresh s.virtual sound.virtual_row kheap_base kheap_limit refl above
            (omega arith) (inr (omega (arith, sound.virtual_base)))

      kernel_laws : Laws p beside_kernel
      kernel_laws =
          narrow-Laws p v laws fresh s.kernel sound.kernel_row vmalloc_base vmalloc_limit refl
            (omega arith) below (inl (omega (arith, sound.kernel_limit)))

      kernel-IsHeap : IsHeap p beside_virtual s.kernel s.world sound.kernel_row
      kernel-IsHeap =
          narrow-IsHeap p v s.virtual sound.virtual_row kheap_base kheap_limit s.kernel s.world
            sound.kernel_row (omega (arith, sound.kernel_base)) (omega (arith, sound.kernel_limit))
            (λ _. sound.scattered) sound.kernel sound.virtual

      virtual-IsHeap : IsHeap p beside_kernel s.virtual s.world sound.virtual_row
      virtual-IsHeap =
          narrow-IsHeap p v s.kernel sound.kernel_row vmalloc_base vmalloc_limit s.virtual s.world
            sound.virtual_row (omega (arith, sound.virtual_base))
            (omega (arith, sound.virtual_limit)) (λ c. absurd (cc (c, sound.scattered)))
            sound.virtual sound.kernel

      kernel_room : s.kernel.base + 8 ≤ s.kernel.limit
      kernel_room = omega (arith, sound.kernel_base, sound.kernel_limit)

      virtual_room : s.virtual.base + 8 ≤ s.virtual.limit
      virtual_room = omega (arith, sound.virtual_base, sound.virtual_limit)

    -- Each call keeps both heaps well formed.
    pub Step-Sound : (s t : Heaps p) → Step p s t → Sound s → Sound t
    unfolding kmalloc kfree kbrk vmalloc vfree vbrk
    Step-Sound _ _ (kmallocs s want) k = kernel-Sound s k _ _ (
        alloc-After p (beside_virtual s k) (virtual_laws s k) s.kernel s.world k.kernel_row want
          (kernel-IsHeap s k) (kernel_room s k))
    Step-Sound _ _ (kfrees s pointer) k = kernel-Sound s k _ _ (
        free-After p (beside_virtual s k) (virtual_laws s k) s.kernel s.world k.kernel_row pointer
          (kernel-IsHeap s k))
    Step-Sound _ _ (kbrks s delta) k = kernel-Sound s k _ _ (
        brk-After p (beside_virtual s k) (virtual_laws s k) s.kernel s.world k.kernel_row delta
          (kernel-IsHeap s k))
    Step-Sound _ _ (vmallocs s want) k = virtual-Sound s k _ _ (
        alloc-After p (beside_kernel s k) (kernel_laws s k) s.virtual s.world k.virtual_row want
          (virtual-IsHeap s k) (virtual_room s k))
    Step-Sound _ _ (vfrees s pointer) k = virtual-Sound s k _ _ (
        free-After p (beside_kernel s k) (kernel_laws s k) s.virtual s.world k.virtual_row pointer
          (virtual-IsHeap s k))
    Step-Sound _ _ (vbrks s delta) k = virtual-Sound s k _ _ (
        brk-After p (beside_kernel s k) (kernel_laws s k) s.virtual s.world k.virtual_row delta
          (virtual-IsHeap s k))

    pub Reaches-Sound : (s t : Heaps p) → Reaches p s t → Sound s → Sound t
    Reaches-Sound s _ stay k = k
    Reaches-Sound s u (next {t} r step) k = Step-Sound t u step (Reaches-Sound s t r k)
