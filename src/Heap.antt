-- ===== src/Heap.antt =====
-- kernel/src/heap.rs: the allocator behind `kmalloc` and `vmalloc`. A heap is a row of blocks
-- from `base` to `brk`, each with a header of two words: the payload's size, and whether it is
-- in use. A null pointer is 0. Sums are those of `u32`, which wrap in a release build. The text
-- of the oopses is left out.
pub mod Blocks
pub mod State
pub mod Walk
pub mod Break
pub mod Fit
pub mod Alloc
pub mod Statics
pub mod Shared
mod Tests
use Prim.Native.String.{String}
use kfs.Base.{
  ℕ, zero, suc, ◌+◌, ◌-◌, ◌*◌, ◌/◌, ◌%◌, ◌^◌, Bool, true, false, not, ◌&&◌, ◌||◌, Option, none,
  some, bit_and, ltb, leb, ◌==◌, if◌then◌else◌, u32, u32_max, sub32, min, ℤ, pos, negsuc,
}
use kfs.Pager.{Pager}

abbrev pub header : ℕ
header = 8

abbrev pub align : ℕ
align = 8

abbrev pub smallest : ℕ
smallest = 8

abbrev pub page_size : ℕ
page_size = 4096

pub data Backing : Type 0 where
  contiguous scattered : Backing

pub record Heap : Type 0 where
  pub name : String
  pub base : ℕ
  pub limit : ℕ
  pub brk : ℕ
  pub backing : Backing
  pub phys_base : ℕ
  pub phys_end : ℕ
  pub flags : ℕ

pub record Stats : Type 0 where
  pub name : String
  pub base : ℕ
  pub brk : ℕ
  pub limit : ℕ
  pub used : ℕ
  pub free : ℕ
  pub blocks : ℕ
  pub live : ℕ
  pub contiguous : Bool
  pub phys_base : ℕ
  pub phys_end : ℕ

abbrev pub is_contiguous : Backing → Bool
is_contiguous contiguous = true
is_contiguous scattered = false

pub round_up : ℕ → ℕ
round_up size =
    let size' = if ltb size smallest then smallest else size in
    bit_and (sub32 (u32 (size' + align)) 1) (u32_max - (align - 1))

pub new : String → ℕ → ℕ → Backing → ℕ → Heap
new name base limit backing flags = record {
  name = name;
  base = base;
  limit = limit;
  brk = base;
  backing = backing;
  phys_base = 0;
  phys_end = 0;
  flags = flags;
}

pub attach : Heap → ℕ × ℕ → Heap
attach h (from, to) = record h { phys_base = from; phys_end = to }

-- `at + HEADER + size`, as each walk over the blocks has it.
abbrev pub next_at : ℕ → ℕ → ℕ
next_at at size = u32 (u32 (at + header) + size)

module _ (p : Pager) where
  open p use {World, read, write}

  pub size_at : World → ℕ → ℕ
  size_at w at = read w at

  pub used_at : World → ℕ → Bool
  used_at w at = not (read w (u32 (at + 4)) == 0)

  pub write_header : World → ℕ → ℕ → Bool → World
  write_header w at size used = write (write w at size) (u32 (at + 4)) (if used then 1 else 0)
