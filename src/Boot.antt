-- ===== src/Boot.antt =====
-- `init` of kernel/src/mem.rs, which brings up the frame allocator, the page tables and the heaps.
-- The linker's symbols and the address of KERNEL_TABLE are a record, and a text stands for
-- a panic. Setting the statics RAM and WINDOW is returning them; the two lines that are printed
-- are left out.
pub mod Frames
pub mod Ready
pub mod Start
pub mod Runs
mod Tests
use Prim.Native.String.{String}
use kfs.Base.{
  ℕ, zero, suc, ◌+◌, ◌-◌, ◌/◌, Option, none, some, ◌⊎◌, inl, inr, List, [], ◌∷◌, min, ltb,
  if◌then◌else◌, u32,
}
use kfs.Multiboot.{probe}
use kfs.Multiboot.Regions.{Region, Ram}
use kfs.Mem.{Image, kernel_window_end, kernel_phys, kheap_base, kheap_limit, page_of}
use kfs.Pmm.{Pmm, reserve, carve}
use kfs.Pmm as Pmm
use kfs.Paging.{Machine}
use kfs.Paging as Paging
use kfs.Paging.Owned.{paged}
use kfs.Heap.Statics.{Heaps, boot}
use kfs.Heap.Statics as Statics

abbrev pub bios_end : ℕ
bios_end = 0x00100000

-- BOOT_START, the symbols of `image`, and KERNEL_TABLE of paging.rs.
pub record Linked : Type 0 where
  pub load : ℕ
  pub image : Image
  pub table : ℕ

pub record Memory : Type 0 where
  pub ram : Ram
  pub window : ℕ × ℕ
  pub heaps : Heaps paged

-- The regions in use, from the one at `at` on.
pub regions_from : Ram → ℕ → ℕ → List Region
regions_from ram zero at = []
regions_from ram (suc left) at = ram.regions at ∷ regions_from ram left (at + 1)

-- The calls of `pmm`.
pub reserved : Pmm → Ram → Linked → Pmm
reserved s ram l =
    reserve (reserve (Pmm.init s (regions_from ram ram.count 0)) 0 bios_end) l.load
      (kernel_phys l.image.end)

-- What follows the carving of the heap's window.
abbrev pub carved_at : Ram → Machine → Option (ℕ × ℕ) × Pmm → String ⊎ Memory
carved_at ram m (none, s) = inl "no contiguous physical block left for the kernel heap"
carved_at ram m (some window, s) = inr (record {
  ram = ram;
  window = window;
  heaps = Statics.init paged (boot paged (record m { pmm = s })) window;
})

pub carved : Ram → Machine → String ⊎ Memory
carved ram m =
    let want = u32 (min (kheap_limit - kheap_base) (ram.usable / 4)) in
    carved_at ram m (carve m.pmm (page_of want))

pub init_ram : Machine → Linked → Ram → String ⊎ Memory
init_ram m l ram =
    if ltb kernel_window_end l.image.end
    then inl "the kernel image ends past its 4 mb window"
    else carved ram (Paging.init (record m { pmm = reserved m.pmm ram l }) l.image l.table)

abbrev pub with_ram : Machine → Linked → String ⊎ Ram → String ⊎ Memory
with_ram m l (inl why) = inl why
with_ram m l (inr ram) = init_ram m l ram

-- `rd` is the words that the boot loader has left, and `fuel` bounds the loop of `probe`.
pub init : (ℕ → ℕ) → ℕ → Machine → Linked → ℕ → ℕ → Option (String ⊎ Memory)
init rd fuel m l magic info = elim (probe rd fuel magic info) [
  | none ↦ none
  | some answer ↦ some (with_ram m l answer)
]
