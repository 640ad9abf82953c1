-- ===== src/Pmm/Tests.antt =====
-- The theorems on kernel/src/pmm.rs at small bitmaps, and the functions at concrete inputs.
use kfs.Base.{
  ℕ, ◌+◌, ◌-◌, ◌*◌, ◌/◌, ◌≤◌, ◌≡◌, refl, false, ◌||◌, ◌&&◌, some, [], ◌∷◌, if◌then◌else◌, ltb, leb,
  arith,
}
use kfs.Base.Bits.{trailing_zeros}
use kfs.Multiboot.Regions.{Region}
use kfs.Pmm.{
  Pmm, alloc_loop, address_of, find_loop, span_loop, start, max_frames, page_size, free_bit,
  set_free, set_used, alloc_frame, alloc_range, find_run, carve, free_frame, largest_run, reserve,
  init, init_region, total_frames, free_frames, used_frames,
}
use kfs.Pmm.Valid.{IsValid, start-IsValid, set_free-IsValid}
use kfs.Pmm.Alloc.{TakesLowest, alloc_frame-TakesLowest, free_frame-alloc_frame}
use kfs.Pmm.Run.{IsRun, FirstRun, find_run-FirstRun}
use kfs.Pmm.Ranges.{TakesRun, alloc_range-TakesRun, free_bit-reserve}
use kfs.Pmm.Carve.{Carves, carve-Carves}
use kfs.Pmm.Largest.{largest_run-longest}
use kfs.Pmm.Boot.{covered, init-covered, free_bit-init_region_wraps}

-- Frames 5, 6 and 40 are free.
abbrev sample : Pmm
sample = set_free (set_free (set_free start 5) 6) 40

sample-IsValid : IsValid sample
sample-IsValid =
    set_free-IsValid _ 40 (set_free-IsValid _ 6 (set_free-IsValid start 5 start-IsValid))

sample_top : free_bit sample (max_frames - 1) ≡ false
unfolding set_free free_bit
sample_top = refl

-- The state after `alloc_frame` on `sample`.
abbrev taken : Pmm
taken = set_used sample 5

alloc_frame_runs : alloc_frame sample ≡ (some 0x5000, taken)
unfolding alloc_frame alloc_loop set_free free_bit address_of trailing_zeros set_used
alloc_frame_runs = refl

find_run_runs : find_run sample 2 ≡ some 5
unfolding find_run find_loop free_bit set_free span_loop
find_run_runs = refl

alloc_frame-TakesLowest_example : TakesLowest sample (alloc_frame sample)
alloc_frame-TakesLowest_example = alloc_frame-TakesLowest sample sample-IsValid

free_frame-alloc_frame_example :
    ((g : ℕ) → free_bit (free_frame taken 0x5000) g ≡ free_bit sample g)
    × ((free_frame taken 0x5000).available ≡ sample.available)
free_frame-alloc_frame_example =
    free_frame-alloc_frame sample 0x5000 taken sample-IsValid alloc_frame_runs

find_run-FirstRun_example : FirstRun sample 2 (find_run sample 2)
find_run-FirstRun_example = find_run-FirstRun sample 2 (omega arith) (omega arith)

alloc_range-TakesRun_example : TakesRun sample 2 (alloc_range sample 2)
alloc_range-TakesRun_example =
    alloc_range-TakesRun sample 2 sample-IsValid (omega arith) (omega arith)

carve-Carves_example : Carves sample (0x20000 / page_size) (carve sample 0x20000)
carve-Carves_example = carve-Carves sample sample-IsValid sample_top 0x20000 (omega arith)

largest_run-longest_example :
    ((b : ℕ) × IsRun sample b (largest_run sample))
    × ((b c : ℕ) → IsRun sample b c → c ≤ largest_run sample)
largest_run-longest_example = largest_run-longest sample

abbrev low_ram : Region
low_ram = record { base = 0x800; end = 0x4800 }

-- The last 2048 bytes below 4 GB, less one.
abbrev last_bytes : Region
last_bytes = record { base = 0xffff_f800; end = 0xffff_ffff }

init-covered_example :
    ((g : ℕ) → free_bit (init start (low_ram ∷ [])) g ≡ covered (low_ram ∷ []) g)
    × IsValid (init start (low_ram ∷ []))
    × (total_frames (init start (low_ram ∷ [])) ≡ free_frames (init start (low_ram ∷ [])))
    × (used_frames (init start (low_ram ∷ [])) ≡ 0)
init-covered_example = init-covered (low_ram ∷ []) ((omega arith, omega arith), tt)

free_bit-reserve_example : free_bit (reserve sample 0x5800 0x5900) 5 ≡ (
    if leb 0x5800 (5 * page_size + (page_size - 1)) && ltb (5 * page_size) 0x5900
    then false
    else free_bit sample 5)
free_bit-reserve_example = free_bit-reserve sample 0x5800 0x5900 5 (omega arith) (omega arith)

free_bit-init_region_wraps_example :
    free_bit (init_region start last_bytes) 7 ≡ (free_bit start 7 || ltb 7 (max_frames - 1))
free_bit-init_region_wraps_example =
    free_bit-init_region_wraps start last_bytes 7 (omega arith) (omega arith) (omega arith)
