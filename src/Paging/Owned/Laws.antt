-- ===== src/Paging/Owned/Laws.antt =====
-- kernel/src/paging.rs and kernel/src/pmm.rs keep what kernel/src/heap.rs relies on.
use kfs.Base.{ℕ, ◌%◌, ◌+◌, ◌≤◌, ◌<◌, ◌≡◌, true, false, Bool-cases, inl, inr, arith, ◌&&◌}
use kfs.Mem.{is_kernel}
use kfs.Pager.{MapOutcome, UnmapOutcome, Laws}
use kfs.Paging.{Machine, user, has, get_page, map_page, unmap_page}
use kfs.Paging.Holds.{lo, hi}
use kfs.Paging.Owned.{Owned, Spare, paged, paged_view}
use kfs.Paging.Owned.Frames.{
  oops_Keeps, write_volatile-Wrote, take_frame-AllocOutcome, give_frame-Gives,
}
use kfs.Paging.Owned.Pages.{get_page-GetOutcome}
use kfs.Paging.Owned.Entries.{map_refused, map_mapped, unmap_unmapped}
use kfs.Paging.Owned.Outcomes.{mapped-MapOutcome, unmapped-UnmapOutcome}

map_page_outcome :
    (m : Machine) (at f flags : ℕ)
    → Owned m
    → Spare m f
    → at % 4096 ≡ 0
    → lo ≤ at
    → at + 4096 ≤ hi
    → flags < 4096
    → MapOutcome paged paged_view m at f (map_page m at f flags)
map_page_outcome m at f flags k s even low high small =
    elim (Bool-cases (has flags user && is_kernel at)) [
      | inl refused ↦ rw (map_refused m at f flags refused) (oops_Keeps m k)
      | inr allowed ↦ rw (map_mapped m at f flags allowed) (
          mapped-MapOutcome m k at even low high f flags s small (get_page m at true)
            (get_page-GetOutcome m k at low (omega arith) true))
    ]

unmap_page_outcome :
    (m : Machine) (at : ℕ)
    → Owned m
    → at % 4096 ≡ 0
    → lo ≤ at
    → at + 4096 ≤ hi
    → UnmapOutcome paged paged_view m at (unmap_page m at)
unmap_page_outcome m at k even low high = rw (unmap_unmapped m at) (
    unmapped-UnmapOutcome m k at even low high (get_page m at false)
      (get_page-GetOutcome m k at low (omega arith) false))

-- The paging code and the frame allocator implement what the heap relies on. On a machine where no
-- frame has two uses, none in use is free, and the directory is the table of its own entries, for
-- whole pages of the range of the two heaps: a store to a page that is there, which is taken to be
-- writable, changes the word at its address and no other; `map_page` of a frame that is the
-- caller's, with flags below 4096, shows that frame at the page, which showed none, or fails, and
-- no other page's frame or words change; `unmap_page` hands the page's frame to the caller, or
-- says that there was none; an allocated frame is the caller's; a frame given back is not. The
-- machine stays such a machine after each.
pub paged-Laws : Laws paged paged_view
paged-Laws = record {
  write-Wrote = λ m a x k n low. write_volatile-Wrote m k a x n low;
  map_page-MapOutcome = map_page_outcome;
  unmap_page-UnmapOutcome = unmap_page_outcome;
  alloc_frame-AllocOutcome = take_frame-AllocOutcome;
  free_frame-Gives = λ m f k s. give_frame-Gives m k f s;
  oops-Keeps = oops_Keeps;
}
