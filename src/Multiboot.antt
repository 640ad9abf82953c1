-- ===== src/Multiboot.antt =====
-- kernel/src/multiboot.rs: the memory that the boot loader describes. `rd` is the 32-bit word at an
-- address, aligned or not, and the two words of a `u64` stand low word first. The loop over
-- the entries moves on by a size that it reads, so it is given a number of rounds, and is `none`
-- where they do not end it.
pub mod Regions
pub mod Probe
pub mod Tests
use Prim.Native.String.{String}
use kfs.Base.{
  ℕ, zero, suc, ◌+◌, ◌*◌, ◌^◌, ◌%◌, ◌-◌, Bool, true, false, not, ◌&&◌, ◌||◌, Option, none, some,
  ◌⊎◌, inl, inr, bit_and, ltb, leb, ◌==◌, min, if◌then◌else◌, u32,
}
use Regions.{Ram, nothing, saturating_add, push}

abbrev pub boot_magic : ℕ
boot_magic = 0x2BADB002

abbrev pub flag_memory : ℕ
flag_memory = 2 ^ 0

abbrev pub flag_mmap : ℕ
flag_mmap = 2 ^ 6

abbrev pub kind_available : ℕ
kind_available = 1

abbrev pub reachable : ℕ
reachable = 0x00400000

module _ (rd : ℕ → ℕ) where
  abbrev pub rd64 : ℕ → ℕ
  rd64 at = rd at + rd (at + 4) * 2 ^ 32

  -- The entry at `at`: size, base, length and kind lie 0, 4, 12 and 20 bytes in.
  pub push_entry : Ram → ℕ → Ram
  push_entry ram at =
      if rd (at + 20) == kind_available then push ram (rd64 (at + 4)) (rd64 (at + 12)) else ram

  pub mmap_loop : ℕ → Ram → ℕ → ℕ → Option Ram
  mmap_loop zero ram at stop = none
  mmap_loop (suc fuel) ram at stop = elim (leb (u32 (at + 8)) stop) [
    | false ↦ some ram
    | true ↦ elim (rd at == 0) [
      | true ↦ some (push_entry ram at)
      | false ↦ mmap_loop fuel (push_entry ram at) (u32 (at + u32 (rd at + 4))) stop
    ]
  ]

  -- The memory map, where the loader has left one.
  pub from_mmap : ℕ → ℕ → Ram → Option Ram
  from_mmap fuel info ram =
      let length = rd (info + 44) in
      let start = rd (info + 48) in
      if not (bit_and (rd info) flag_mmap == 0) && (not (start == 0) && ltb start reachable)
      then mmap_loop fuel (record ram { source = "multiboot memory map" }) start
          (saturating_add 32 start length)
      else some ram

  -- The two sizes that older loaders give, where there is no map.
  pub from_sizes : ℕ → Ram → Ram
  from_sizes info ram =
      if ram.count == 0 && not (bit_and (rd info) flag_memory == 0)
      then push
          (push (record ram { source = "multiboot mem_lower and mem_upper" }) 0
            (rd (info + 4) * 1024))
          0x00100000 (rd (info + 8) * 1024)
      else ram

  pub finish : Option Ram → ℕ → Option (String ⊎ Ram)
  finish none info = none
  finish (some ram) info =
      let ram' = from_sizes info ram in
      some (if ram'.count == 0 then inl "the loader described no usable memory" else inr ram')

  pub probe : ℕ → ℕ → ℕ → Option (String ⊎ Ram)
  probe fuel magic info =
      if not (magic == boot_magic)
      then some (inl "no multiboot magic in eax, this kernel needs a multiboot loader")
      else (if info == 0 || leb reachable info
          then some (inl "the multiboot information is out of the low window")
          else finish (from_mmap fuel info nothing) info)
