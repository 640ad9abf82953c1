-- ===== src/Paging/Owned/Fresh.antt =====
-- The paging code of kernel/src/paging.rs with kernel/src/pmm.rs hands out no frame that is the
-- caller's already, so that two heaps can share it.
use kfs.Base.{ℕ, ◌≡◌, Option, none, some, arith, ap}
use kfs.Pmm.{Pmm, alloc_frame}
use kfs.Pmm.Alloc.{TakesLowest, alloc_frame-TakesLowest}
use kfs.Paging.{Machine}
use kfs.Paging.Owned.{Spare, paged, paged_view, take_frame}
use kfs.Paging.Owned.Frames.{page_held}
use kfs.Heap.Shared.Laws.{Fresh}

-- A frame that is handed out was free.
handed_apart :
    (m : Machine) (r : Option ℕ × Pmm) (f : ℕ) → TakesLowest m.pmm r → r.0 ≡ some f → Spare m f → ⊥
handed_apart m (some phys, s) f (n, at, t, _) e spare =
    ground (arith, t.was_free, spare.taken, e, at)
handed_apart m (none, s) f t e spare = cc

pub paged-Fresh : Fresh paged paged_view
unfolding take_frame
paged-Fresh = record {
  shown = λ m q f k e s. s.unheld q (page_held m k q f e);
  handed = λ m m' f k e s.
      handed_apart m (alloc_frame m.pmm) f (alloc_frame-TakesLowest m.pmm k.frames)
        (ap (λ (r : Option ℕ × Machine). r.0) e) s;
}
