-- ===== src/Mem.antt =====
-- kernel/src/mem.rs: the layout of the address space and the tests on addresses. `init` and the
-- statics RAM and WINDOW, and the linker's symbols, are left out.
pub mod Spaces
use Prim.Native.String.{String}
use kfs.Base.{
  ℕ, ◌+◌, ◌-◌, ◌*◌, Bool, true, false, not, ◌&&◌, List, [], ◌∷◌, bit_and, ltb, leb, if◌then◌else◌,
  u32_max, sub32,
}

abbrev pub page_size : ℕ
page_size = 4096

abbrev pub entries : ℕ
entries = 1024

abbrev pub table_span : ℕ
table_span = page_size * entries

abbrev pub low_window : ℕ
low_window = 0x00000000

abbrev pub low_window_end : ℕ
low_window_end = 0x00400000

abbrev pub kernel_space : ℕ
kernel_space = 0xC0000000

abbrev pub user_base : ℕ
user_base = low_window_end

abbrev pub user_end : ℕ
user_end = kernel_space

abbrev pub demand_base : ℕ
demand_base = 0x00800000

abbrev pub demand_end : ℕ
demand_end = 0x00900000

abbrev pub kernel_window_end : ℕ
kernel_window_end = kernel_space + table_span

abbrev pub kheap_base : ℕ
kheap_base = 0xD0000000

abbrev pub kheap_limit : ℕ
kheap_limit = kheap_base + 0x02000000

abbrev pub vmalloc_base : ℕ
vmalloc_base = 0xE0000000

abbrev pub vmalloc_limit : ℕ
vmalloc_limit = vmalloc_base + 0x10000000

abbrev pub table_window : ℕ
table_window = 0xFFC00000

pub data Space : Type 0 where
  low user kernel : Space

pub space_name : Space → String
space_name Space.low = "kernel"
space_name Space.user = "user"
space_name Space.kernel = "kernel"

pub record Named : Type 0 where
  pub name : String
  pub base : ℕ
  pub last : ℕ
  pub space : Space
  pub holds : String

abbrev pub named : String → ℕ → ℕ → Space → String → Named
named name base last space holds = record {
  name = name;
  base = base;
  last = last;
  space = space;
  holds = holds;
}

abbrev pub layout : List Named
layout =
    named "low window" low_window (low_window_end - 1) Space.low "identity: gdt, vga, kernel image"
    ∷ named "user space" user_base (demand_base - 1) Space.user "free for user pages"
    ∷ named "user demand" demand_base (demand_end - 1) Space.user "paged in by the fault handler"
    ∷ named "user space" demand_end (user_end - 1) Space.user "free for user pages"
    ∷ named "kernel image" kernel_space (kernel_window_end - 1) Space.kernel
        "ram 0..4mb, kernel code read only"
    ∷ named "kernel heap" kheap_base (kheap_limit - 1) Space.kernel "kmalloc, contiguous physical"
    ∷ named "vmalloc" vmalloc_base (vmalloc_limit - 1) Space.kernel "vmalloc, scattered frames"
    ∷ named "page tables" table_window u32_max Space.kernel "the directory mapped into itself"
    ∷ []

pub record Image : Type 0 where
  pub start : ℕ
  pub code_end : ℕ
  pub readonly_end : ℕ
  pub end : ℕ

pub space_of : ℕ → Space
space_of addr =
    if ltb addr low_window_end
    then Space.low
    else (if ltb addr kernel_space then Space.user else Space.kernel)

abbrev pub is_user : Space → Bool
is_user Space.user = true
is_user Space.low = false
is_user Space.kernel = false

pub is_kernel : ℕ → Bool
is_kernel addr = not (is_user (space_of addr))

pub is_demand : ℕ → Bool
is_demand addr = leb demand_base addr && ltb addr demand_end

pub kernel_phys : ℕ → ℕ
kernel_phys addr = sub32 addr kernel_space

pub page_of : ℕ → ℕ
page_of addr = bit_and addr (u32_max - (page_size - 1))
