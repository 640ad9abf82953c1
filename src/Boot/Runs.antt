-- ===== src/Boot/Runs.antt =====
-- What the kernel's calls of kmalloc, vmalloc and their like of kernel/src/heap.rs keep, over the page
-- tables of kernel/src/paging.rs and the frames of kernel/src/pmm.rs.
use kfs.Base.{arith}
use kfs.Paging.Owned.{paged, paged_view}
use kfs.Paging.Owned.Laws.{paged-Laws}
use kfs.Paging.Owned.Fresh.{paged-Fresh}
use kfs.Heap.Statics.{Heaps}
use kfs.Heap.Statics.Steps.{Reaches, Sound, Reaches-Sound}

-- From a state in which both heaps are well formed, as `init` leaves them, every run of calls of
-- `kmalloc`, `kfree`, `kbrk`, `vmalloc`, `vfree` and `vbrk`, with any arguments and in any order,
-- reaches a state in which both are well formed, over one set of page tables and frames in which no
-- frame has two uses.
pub run-Sound :
    (s t : Heaps paged) → Reaches paged s t → Sound paged paged_view s → Sound paged paged_view t
run-Sound = Reaches-Sound paged paged_view paged-Laws paged-Fresh (omega arith) (omega arith)
