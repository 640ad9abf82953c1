-- ===== src/Paging.antt =====
-- kernel/src/paging.rs: page directories and tables, which the kernel reads and writes through
-- the directory's entry for itself, at 0xFFC00000. A machine is its physical memory, in words
-- of 4 bytes at multiples of 4, with the control registers and the frame allocator. A load or
-- a store goes through the two levels of the page table, as the processor's does; a page
-- that is not present reads 0 and takes no store. `invalidate` and `flush`, which the processor's
-- cache of translations needs, do nothing here. The loops that print are left out.
pub mod Index
pub mod Translate
pub mod Holds
pub mod Owned
pub mod Init
pub mod Dump
pub mod Demand
use Prim.Native.String.{String}
use kfs.Base.{
  ℕ, zero, suc, ◌+◌, ◌-◌, ◌*◌, ◌/◌, ◌%◌, ◌^◌, Bool, true, false, not, ◌&&◌, ◌||◌, Option, none,
  some, List, [], ◌∷◌, bit_and, bit_or, ltb, leb, ◌==◌, if◌then◌else◌, u32, u32_max, sub32, update,
}
use kfs.Mem.{
  page_size, entries, kernel_space, table_window, Image, is_kernel, is_demand, kernel_phys, page_of,
}
use kfs.Pmm.{Pmm, alloc_frame, free_frame}

abbrev pub present : ℕ
present = 2 ^ 0

abbrev pub writable : ℕ
writable = 2 ^ 1

abbrev pub user : ℕ
user = 2 ^ 2

abbrev pub kernel_page : ℕ
kernel_page = present + writable

abbrev pub kernel_readonly : ℕ
kernel_readonly = present

abbrev pub user_page : ℕ
user_page = present + writable + user

abbrev pub flag_bits : ℕ
flag_bits = 0xfff

abbrev pub frame_bits : ℕ
frame_bits = u32_max - 0xfff

abbrev pub paging_on : ℕ
paging_on = 2 ^ 31

abbrev pub write_protect : ℕ
write_protect = 2 ^ 16

abbrev pub directory : ℕ
directory = 0xfffff000

pub record Machine : Type 0 where
  pub words : ℕ → ℕ
  pub cr0 : ℕ
  pub cr3 : ℕ
  pub pmm : Pmm
  pub oopses : ℕ

pub oops : Machine → Machine
oops m = record m { oopses = suc m.oopses }

-- `value & mask != 0`.
abbrev pub has : ℕ → ℕ → Bool
has value mask = not (bit_and value mask == 0)

pub dir_index : ℕ → ℕ
dir_index addr = addr / 2 ^ 22

pub table_index : ℕ → ℕ
table_index addr = bit_and (addr / 2 ^ 12) 0x3ff

pub offset : ℕ → ℕ
offset addr = bit_and addr (page_size - 1)

pub table : ℕ → ℕ
table dir = u32 (table_window + dir * page_size)

-- `pointer.add(i)` of a pointer to words.
abbrev pub add : ℕ → ℕ → ℕ
add pointer i = u32 (pointer + 4 * i)

pub enabled : Machine → Bool
enabled m = has m.cr0 paging_on

pub write_protected : Machine → Bool
write_protected m = has m.cr0 write_protect

unfoldable pub directory_phys : Machine → ℕ
directory_phys m = bit_and m.cr3 frame_bits

-- The physical address that the processor reaches for a virtual one.
pub walk : Machine → ℕ → Option ℕ
walk m addr =
    let pde = m.words (directory_phys m + 4 * dir_index addr) in
    if not (has pde present)
    then none
    else (let pte = m.words (bit_and pde frame_bits + 4 * table_index addr) in
        if not (has pte present) then none else some (bit_and pte frame_bits + offset addr))

pub read_volatile : Machine → ℕ → ℕ
read_volatile m addr = elim (walk m addr) [ some at ↦ m.words at | none ↦ 0 ]

-- A store to a page that is there succeeds: the processor's check of the writable bit, which `init` turns
-- on, is left out.
pub write_volatile : Machine → ℕ → ℕ → Machine
write_volatile m addr value = elim (walk m addr) [
  | some at ↦ record m { words = update m.words at value }
  | none ↦ m
]

pub directory_entry : Machine → ℕ → ℕ
directory_entry m dir = read_volatile m (add directory dir)

-- `for i in 0..count { write_volatile(pointer.add(i), 0) }`, on the rounds that are left.
pub zero_words : Machine → ℕ → ℕ → ℕ → Machine
zero_words m pointer zero i = m
zero_words m pointer (suc left) i =
    zero_words (write_volatile m (add pointer i) 0) pointer left (suc i)

pub get_page : Machine → ℕ → Bool → Option ℕ × Machine
get_page m addr create =
    let dir = dir_index addr in
    let entry = add (table dir) (table_index addr) in
    if has (directory_entry m dir) present
    then (some entry, m)
    else (if not create
        then (none, m)
        else (let (got, pmm) = alloc_frame m.pmm in
            let m1 = record m { pmm = pmm } in
            elim got [
              | none ↦ (none, m1)
              | some frame ↦
                  let flags = if is_kernel addr then kernel_page else bit_or kernel_page user in
                  let m2 = write_volatile m1 (add directory dir) (bit_or frame flags) in
                  (some entry, zero_words m2 (table dir) entries 0)
            ]))

pub entry_of : Machine → ℕ → Option ℕ
entry_of m addr = elim (get_page m addr false).0 [
  | none ↦ none
  | some entry ↦ let value = read_volatile m entry in if has value present then some value else none
]

pub translate : Machine → ℕ → Option ℕ
translate m addr = elim (entry_of m addr) [
  | none ↦ none
  | some entry ↦ some (bit_or (bit_and entry frame_bits) (offset addr))
]

pub map_page : Machine → ℕ → ℕ → ℕ → Bool × Machine
map_page m addr frame flags =
    if has flags user && is_kernel addr
    then (false, oops m)
    else (let (got, m1) = get_page m addr true in
        elim got [
          | none ↦ (false, oops m1)
          | some entry ↦ if has (read_volatile m1 entry) present then (false, oops m1) else (
            true,
            write_volatile m1 entry (bit_or (bit_or (bit_and frame frame_bits) flags) present),
          )
        ])

pub unmap_page : Machine → ℕ → Option ℕ × Machine
unmap_page m addr =
    let (got, m1) = get_page m addr false in
    elim got [
      | none ↦ (none, m1)
      | some entry ↦
          let value = read_volatile m1 entry in
          if not (has value present)
          then (none, m1)
          else (some (bit_and value frame_bits), write_volatile m1 entry 0)
    ]

pub protect : Machine → ℕ → ℕ → Bool × Machine
protect m addr flags =
    let (got, m1) = get_page m addr false in
    elim got [
      | none ↦ (false, m1)
      | some entry ↦
          let value = read_volatile m1 entry in
          if not (has value present) then (false, m1) else (
            true,
            write_volatile m1 entry (bit_or (bit_or (bit_and value frame_bits) flags) present),
          )
    ]

pub map_new : Machine → ℕ → ℕ → Option ℕ × Machine
map_new m addr flags =
    let (got, pmm) = alloc_frame m.pmm in
    let m1 = record m { pmm = pmm } in
    elim got [
      | none ↦ (none, m1)
      | some frame ↦
          let (mapped, m2) = map_page m1 addr frame (bit_or flags writable) in
          if not mapped
          then (none, record m2 { pmm = free_frame m2.pmm frame })
          else (let m3 = zero_words m2 (page_of addr) (page_size / 4) 0 in
              (some frame, if has flags writable then m3 else (protect m3 addr flags).1))
    ]

pub rights : ℕ → String
rights entry =
    if has entry user
    then (if has entry writable then "rw user" else "r  user")
    else (if has entry writable then "rw kernel" else "r  kernel")

pub handle_fault : Machine → ℕ → ℕ → Bool × Machine
handle_fault m addr error =
    if has error present || not (is_demand addr)
    then (false, m)
    else (let (got, m1) = map_new m (page_of addr) user_page in
        (elim got [ some frame ↦ true | none ↦ false ], m1))

-- The kernel's own table, in `init`; `table` is the virtual address of `KERNEL_TABLE`, in the kernel's
-- window, where a virtual address is its physical one and `kernel_space`.
pub fill_table : Machine → Image → ℕ → ℕ → ℕ → Machine
fill_table m image table zero i = m
fill_table m image table (suc left) i =
    let virt = u32 (kernel_space + u32 (i * page_size)) in
    let phys = u32 (i * page_size) in
    let readonly = leb image.start virt && ltb virt image.readonly_end in
    let flags = if readonly then kernel_readonly else kernel_page in
    fill_table (write_volatile m (add table i) (bit_or phys flags)) image table left (suc i)

pub init : Machine → Image → ℕ → Machine
init m image table =
    let m1 = fill_table m image table entries 0 in
    let phys = kernel_phys table in
    let m2 = write_volatile m1 (add directory (dir_index kernel_space)) (bit_or phys kernel_page) in
    record m2 { cr0 = bit_or m2.cr0 write_protect }

pub record Run : Type 0 where
  pub virt : ℕ
  pub phys : ℕ
  pub flags : ℕ
  pub pages : ℕ

pub record Page : Type 0 where
  pub at : ℕ
  pub frame : ℕ
  pub bits : ℕ

abbrev pub run_of : Page → Run
run_of n = record { virt = n.at; phys = n.frame; flags = n.bits; pages = 1 }

-- `extend_run`, with the runs that it prints.
pub extend_run : Option Run → Option Page → Option Run × List Run
extend_run (some r) (some n) =
    let follows =
      n.at == u32 (r.virt + u32 (r.pages * page_size))
      && n.frame == u32 (r.phys + u32 (r.pages * page_size))
      && bit_and n.bits (writable + user) == bit_and r.flags (writable + user) in
    if follows
    then (some (record r { pages = u32 (r.pages + 1) }), [])
    else (some (run_of n), r ∷ [])
extend_run (some r) none = (none, r ∷ [])
extend_run none (some n) = (some (run_of n), [])
extend_run none none = (none, [])
