-- ===== src/Heap/Tests.antt =====
-- Small heaps, and the theorems on kernel/src/heap.rs at them.
use kfs.Base.{
  ◌+◌, ◌-◌, ◌*◌, ◌/◌, ◌≡◌, refl, true, false, ◌&&◌, none, some, List, [], ◌∷◌, ap, ltb, leb, ◌==◌,
  if◌then◌else◌, arith, max, ◌⊎◌, negsuc,
}
use kfs.Pager.Flat.{Flat, flat, flat_view, flat-Laws}
use kfs.Heap.{Heap, contiguous, round_up, size_at, used_at, write_header}
use kfs.Heap.Fit.Row.{FitOutcome}
use kfs.Heap.Fit.Search.{first_fit-FitOutcome}
use kfs.Heap.Fit.{merge_loop, fit_loop, first_fit, take}
use kfs.Heap.Blocks.{Block, block, live, live_size, block_at-here, block_at-later, block_at-nil}
use kfs.Heap.State.{IsHeap}
use kfs.Heap.Alloc.{alloc, alloc_rounded, free, size, stats}
use kfs.Heap.Alloc.Free.{Updates, free-Updates, free-oops, size-block}
use kfs.Heap.Alloc.Laws.{Fails, Allocates, alloc-Allocates}
use kfs.Heap.Alloc.Lifetime.{Restores, free-alloc}
use kfs.Heap.Alloc.Totals.{Totals, stats-Totals}
use kfs.Heap.Break.{grow, shrink, brk}
use kfs.Heap.Break.Extend.{GrowOutcome}
use kfs.Heap.Break.Fill.{Fills, grow-Fills}
use kfs.Heap.Break.Release.{ShrinkOutcome}
use kfs.Heap.Break.Shrink.{target_of, shrink-ShrinkOutcome}
use kfs.Heap.Break.Brk.{Moves, Follows, brk-Follows}

-- Two pages of a contiguous heap of four: an allocation of 24 bytes, then free memory.
abbrev heap : Heap
heap = record {
  name = "kernel";
  base = 0x10000;
  limit = 0x14000;
  brk = 0x12000;
  backing = contiguous;
  phys_base = 0x50000;
  phys_end = 0x54000;
  flags = 3;
}

abbrev world : Flat
world = record {
  words = λ a.
      if a == 0x10000
      then 24
      else (if a == 0x10004 then 1 else (if a == 0x10020 then 0x1fd8 else 0));
  shown = λ q. if leb 0x10000 q && ltb q 0x12000 then some (0x50000 + (q - 0x10000)) else none;
  spare = λ f. leb 0x52000 f && ltb f 0x54000;
  next = 0x60000;
  oopses = 0;
}

abbrev blocks : List Block
blocks = block 24 true ∷ block 0x1fd8 false ∷ []

heap-IsHeap : IsHeap flat flat_view heap world blocks
heap-IsHeap = record {
  placed = record {
    base_even = refl;
    brk_even = refl;
    limit_even = refl;
    not_null = omega arith;
    base_le = omega arith;
    brk_le = omega arith;
    room = omega arith;
    above = omega arith;
    below = omega arith;
    flags_small = omega arith;
  };
  valid = refl;
  pages = λ q e a l. ground arith;
  tiled = (refl, refl, omega arith, refl, (refl, refl, omega arith, refl, refl));
  window = λ c. record {
    fits = omega arith;
    shows = λ q e a l. ground arith;
    spare = λ q e a l n. ground arith;
  };
}

live_there : live 0x10000 blocks 0x10000 ≡ some 24
live_there =
    ap live_size (block_at-here 0x10000 (block 24 true) (block 0x1fd8 false ∷ []) 0x10000 refl)

free-Updates_example :
    Updates flat flat_view heap blocks 0x10000 none (free flat heap world (0x10000 + 8))
free-Updates_example =
    free-Updates flat flat_view flat-Laws heap world blocks 0x10000 24 heap-IsHeap live_there

free-oops_example : free flat heap world 0x10028 ≡ (if 0x10028 == 0 then world else flat.oops world)
free-oops_example = free-oops flat flat_view flat-Laws heap world blocks 0x10028 heap-IsHeap λ x e.
    ground (
      arith,
      block_at-later 0x10000 (block 24 true) (block 0x1fd8 false ∷ []) x,
      block_at-here 0x10020 (block 0x1fd8 false) [] x,
      block_at-later 0x10020 (block 0x1fd8 false) [] x,
      block_at-nil 0x12000 x,
    )

size-block_example : size flat heap world (0x10000 + 8) ≡ (24, world)
size-block_example =
    size-block flat flat_view flat-Laws heap world blocks 0x10000 (block 24 true) heap-IsHeap
      (block_at-here 0x10000 (block 24 true) (block 0x1fd8 false ∷ []) 0x10000 refl)

alloc-Allocates_example :
    Fails flat flat_view heap blocks ((max 100 8 + 7) / 8 * 8) (alloc flat heap world 100)
    ⊎ Allocates flat flat_view heap blocks ((max 100 8 + 7) / 8 * 8) (alloc flat heap world 100)
alloc-Allocates_example =
    alloc-Allocates flat flat_view flat-Laws heap world blocks 100 heap-IsHeap (omega arith)
      (omega arith)

grow-Fills_example :
    GrowOutcome flat flat_view heap blocks (grow flat heap world 1)
    × Fills flat heap 1 world (grow flat heap world 1)
grow-Fills_example = grow-Fills flat heap flat_view flat-Laws world blocks 1 heap-IsHeap

shrink-ShrinkOutcome_example :
    ShrinkOutcome flat flat_view heap blocks
      (target_of flat flat_view heap 1)
      (shrink flat heap world 1)
shrink-ShrinkOutcome_example =
    shrink-ShrinkOutcome flat flat_view flat-Laws heap world blocks 1 heap-IsHeap

brk-Follows_example :
    Moves flat flat_view heap blocks (brk flat heap world (negsuc 4999))
    × Follows flat flat_view heap world blocks (negsuc 4999) (brk flat heap world (negsuc 4999))
brk-Follows_example =
    brk-Follows flat flat_view flat-Laws heap world blocks (negsuc 4999) heap-IsHeap (omega arith)

stats-Totals_example : Totals flat heap blocks (stats flat heap world)
stats-Totals_example = stats-Totals flat flat_view heap world blocks heap-IsHeap

alloc_runs : (alloc flat heap world 100).0 ≡ 0x10028
unfolding alloc alloc_rounded round_up first_fit fit_loop merge_loop take size_at used_at
    write_header
alloc_runs = refl

free-alloc_example : Restores flat flat_view heap blocks (alloc flat heap world 100).1 (
    free flat
      (alloc flat heap world 100).1
      (alloc flat heap world 100).2
      (alloc flat heap world 100).0)
free-alloc_example =
    free-alloc flat flat_view flat-Laws heap world blocks 100 heap-IsHeap (omega arith)
      (omega arith) (omega (arith, alloc_runs))

first_fit-FitOutcome_example :
    FitOutcome flat flat_view heap world 0x10000 blocks 104 (first_fit flat heap world 104)
first_fit-FitOutcome_example =
    first_fit-FitOutcome flat flat_view heap flat-Laws world blocks 104 heap-IsHeap
