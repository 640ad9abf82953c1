-- ===== src/Boot/Tests.antt =====
-- The theorems on `init` of kernel/src/mem.rs, on the calls of the heaps and the page faults that follow
-- it, and on kernel/src/paging.rs, on the tables that boot/boot.asm makes for a kernel loaded at 1 MB.
use Prim.Native.String.{String}
use kfs.Base.{
  ℕ, ◌+◌, ◌-◌, ◌*◌, ◌/◌, ◌^◌, ◌≡◌, ◌≢◌, refl, false, ◌&&◌, ◌||◌, arith, ltb, leb, ◌==◌,
  if◌then◌else◌, ◌⊎◌, ap, some, none, true, ◌∙◌, pos,
}
use kfs.Multiboot.Tests.{mapped, highest_of, probe_highest}
use kfs.Mem.{Image, is_demand}
use kfs.Mem.Spaces.{range-is_demand}
use kfs.Pmm.{start, free_bit, set_free}
use kfs.Pmm.View.{free_bit-set_free}
use kfs.Pmm.Valid.{free_bit-start, start-IsValid, set_free-IsValid}
use kfs.Paging.{Machine, directory_phys, walk, has, writable, handle_fault}
use kfs.Paging as Paging
use kfs.Paging.Init.{Low, init-walk}
use kfs.Paging.Holds.{holds, shown, walk_gone}
use kfs.Paging.Holds.Start.{holds-start}
use kfs.Paging.Dump.{dump}
use kfs.Paging.Demand.Mapped.{directory_at}
use kfs.Paging.Demand.Outcome.{Missing, Faulted}
use kfs.Paging.Demand.Fault.{handle_fault-Faulted}
use kfs.Paging.Dump.Runs.{pages_of_all}
use kfs.Paging.Dump.Runs.Memory.{memory_pages, dump-memory_pages}
use kfs.Paging.Owned.{Owned, paged, paged_view}
use kfs.Heap.Statics.{Heaps, boot, kmalloc, kfree, vbrk}
use kfs.Heap.Statics as Statics
use kfs.Heap.Statics.Steps.{Sound, stay, next, kmallocs, kfrees, vbrks}
use kfs.Heap.Statics.Empty.{init-Sound}
use kfs.Boot.{Linked, Memory, init}
use kfs.Boot.Ready.{Started}
use kfs.Boot.Start.{Booted, init-Booted}
use kfs.Boot.Runs.{run-Sound}

abbrev boot_words : ℕ → ℕ
boot_words x =
    if x == 0x101000 || x == 0x101C00
    then 0x102003
    else (if x == 0x101FFC
        then 0x101003
        else (if leb 0x102000 x && ltb x 0x103000 then (x - 0x102000) / 4 * 4096 + 3 else 0))

abbrev machine : Machine
machine = record { words = boot_words; cr0 = 0x80000001; cr3 = 0x101000; pmm = start; oopses = 0 }

abbrev image : Image
image = record {
  start = 0xC0103000;
  code_end = 0xC0104800;
  readonly_end = 0xC0105000;
  end = 0xC0110000;
}

abbrev linked : Linked
linked = record { load = 0x100000; image = image; table = 0xC0106000 }

root : directory_phys machine ≡ 0x101000
unfolding directory_phys
root = refl

machine-Low : Low machine 0x102000
machine-Low = record {
  small = λ x. ground arith;
  root_even = rw root refl;
  root_below = rw root (omega arith);
  low_even = refl;
  low_below = omega arith;
  apart = rw root (omega arith);
  self = rw root refl;
  window = rw root refl;
  identity = λ i h. ground arith;
}

machine-Started : Started machine linked 0x102000
machine-Started = record {
  tables = machine-Low;
  gone = λ d a b. rw root (ground arith);
  pmm = refl;
  table_even = refl;
  table_above = omega arith;
  table_end = omega arith;
  not_low = omega arith;
  not_root = rw root (omega arith);
  loaded = rw root (omega arith);
  inside = rw root (omega arith);
}

init-Booted_example :
    (r : String ⊎ Memory) × (init mapped (2 ^ 32) machine linked 0x2BADB002 0x9000 ≡ some r)
    × Booted mapped linked 0x2BADB002 0x9000 r
init-Booted_example =
    init-Booted mapped machine linked 0x2BADB002 0x9000 0x102000 machine-Started
      (λ a visit h. ground arith) (λ ram e. omega (arith, probe_highest, ap highest_of e))

init-walk_example :
    (walk (Paging.init machine image 0xC0106000) 0xC0104123 ≡ some 0x104123)
    × (has ((Paging.init machine image 0xC0106000).words (0x106000 + 4 * 0x104)) writable ≡ false)
init-walk_example =
    init-walk 0x102000 0x106000 refl (omega arith) image (omega arith) machine 0xC0104123
      machine-Low (rw root (omega arith)) (omega arith) (omega arith)

-- The kernel's machine with frame 0x400 free and the frames from 0x200000 to 0x300000 kept for the heap.
abbrev spare_machine : Machine
spare_machine = record machine { pmm = set_free start 0x400 }

spare_root : directory_phys spare_machine ≡ 0x101000
unfolding directory_phys
spare_root = refl

spare_held : (u : ℕ) → holds spare_machine u ≡ (if u == 1023 then some 0x101000 else none)
spare_held u =
    holds-start spare_machine (rw spare_root refl) (rw spare_root refl)
      (λ d a b. rw spare_root (ground arith)) u
    ∙ ap (λ n. if u == 1023 then some n else none) spare_root

spare_free : (n : ℕ) → free_bit spare_machine.pmm n ≡ (n == 0x400)
spare_free n = ground (arith, free_bit-set_free start 0x400 n, free_bit-start n)

spare_machine-Owned : Owned spare_machine
spare_machine-Owned = record {
  tables = record {
    small = λ x. ground arith;
    self = rw spare_root (spare_held 1023);
    apart = λ u v f a b. ground (arith, a, b, spare_held u, spare_held v);
  };
  frames = set_free-IsValid start 0x400 start-IsValid;
  unused = λ n u free e. ground (arith, free, spare_free n, e, spare_held u);
}

abbrev heaps : Heaps paged
heaps = Statics.init paged (boot paged spare_machine) (0x200000, 0x300000)

heaps-Sound : Sound paged paged_view heaps
heaps-Sound =
    init-Sound paged paged_view spare_machine 0x200000 0x300000 spare_machine-Owned (omega arith)
      (omega arith) refl (omega arith)
      λ f even low high. record {
        even = even;
        low = omega arith;
        taken = ground (arith, spare_free (f / 4096));
        unheld = λ u e. ground (arith, e, spare_held u);
      }

abbrev after_kmalloc : Heaps paged
after_kmalloc = (kmalloc paged heaps 100).1

abbrev after_vbrk : Heaps paged
after_vbrk = (vbrk paged after_kmalloc (pos 8192)).1

run-Sound_example : Sound paged paged_view (kfree paged after_vbrk 0xD0000008)
run-Sound_example =
    run-Sound heaps (kfree paged after_vbrk 0xD0000008)
      (next (next (next stay (kmallocs heaps 100)) (vbrks after_kmalloc (pos 8192)))
        (kfrees after_vbrk 0xD0000008))
      heaps-Sound

dump-memory_pages_example : pages_of_all (dump machine) ≡ memory_pages machine (2 ^ 20) 0
dump-memory_pages_example =
    dump-memory_pages machine (record { there = rw root refl; self = rw root refl })
      (λ x. ground arith)

-- The kernel's machine with the frames 0x400 and 0x401 free, and no table for the demand range.
abbrev demand_machine : Machine
demand_machine = record machine { pmm = set_free (set_free start 0x400) 0x401 }

demand_root : directory_phys demand_machine ≡ 0x101000
unfolding directory_phys
demand_root = refl

demand_free : (n : ℕ) → free_bit demand_machine.pmm n ≡ (n == 0x400 || n == 0x401)
demand_free n = ground (
  arith,
  free_bit-set_free (set_free start 0x400) 0x401 n,
  free_bit-set_free start 0x400 n,
  free_bit-start n,
)

no_table : (t : ℕ) → shown (demand_machine.words (directory_at demand_machine 0x800123)) ≢ some t
no_table t e =
    let gone : shown (demand_machine.words (directory_at demand_machine 0x800123)) ≡ none =
      rw demand_root refl in
    cc

demand_machine-Missing : Missing demand_machine 0x800123
demand_machine-Missing = record {
  small = λ x. ground arith;
  recursive = record { there = rw demand_root refl; self = rw demand_root refl };
  gone = walk_gone demand_machine (λ x. ground arith) 0x800123 (rw demand_root refl);
  root_even = rw demand_root refl;
  apart = λ t e. absurd (no_table t e);
  frames = set_free-IsValid _ 0x401 (set_free-IsValid start 0x400 start-IsValid);
  root_used = λ n free e. ground (arith, free, demand_free n, e, demand_root);
  table_used = λ n t free e. absurd (no_table t e);
}

demand_there : is_demand 0x800123 ≡ true
demand_there = range-is_demand 0x800123 (omega arith) (omega arith)

handle_fault-Faulted_example :
    Faulted demand_machine 0x800123 (handle_fault demand_machine 0x800123 2)
handle_fault-Faulted_example =
    handle_fault-Faulted demand_machine 0x800123 2 demand_machine-Missing demand_there refl
