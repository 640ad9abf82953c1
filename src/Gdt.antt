-- ===== src/Gdt.antt =====
-- kernel/src/gdt.rs: the segment descriptors, which `install` writes to memory at `base`; and how
-- kernel/src/shell.rs reads a descriptor back. Loading the table into the processor is left out.
pub mod Ranges
use Prim.Native.String.{String}
use kfs.Base.{
  ℕ, zero, suc, ◌+◌, ◌-◌, ◌*◌, ◌/◌, ◌%◌, ◌^◌, Bool, true, false, not, ◌&&◌, Option, none, some,
  List, [], ◌∷◌, bit_and, bit_or, ltb, ◌==◌, if◌then◌else◌, u32, u32_max, update, length,
}

abbrev pub base : ℕ
base = 0x00000800

abbrev pub kernel_code : ℕ
kernel_code = 0x08

abbrev pub kernel_data : ℕ
kernel_data = 0x10

abbrev pub kernel_stack : ℕ
kernel_stack = 0x18

abbrev pub kernel_exec : ℕ
kernel_exec = 0x9a

abbrev pub kernel_rw : ℕ
kernel_rw = 0x92

abbrev pub user_exec : ℕ
user_exec = 0xfa

abbrev pub user_rw : ℕ
user_rw = 0xf2

pub record Segment : Type 0 where
  pub name : String
  pub selector : ℕ
  pub descriptor : ℕ

abbrev pub segment : String → ℕ → ℕ → Segment
segment name selector descriptor = record {
  name = name;
  selector = selector;
  descriptor = descriptor;
}

pub flat : ℕ → ℕ
flat access = bit_or (bit_or 0xffff (access * 2 ^ 40)) (0xcf * 2 ^ 48)

abbrev pub segments : List Segment
segments =
    segment "null" 0x00 0
    ∷ segment "kernel code" kernel_code (flat kernel_exec)
    ∷ segment "kernel data" kernel_data (flat kernel_rw)
    ∷ segment "kernel stack" kernel_stack (flat kernel_rw)
    ∷ segment "user code" (bit_or 0x20 3) (flat user_exec)
    ∷ segment "user data" (bit_or 0x28 3) (flat user_rw)
    ∷ segment "user stack" (bit_or 0x30 3) (flat user_rw)
    ∷ []

abbrev pub limit : ℕ
limit = length segments * 8 - 1

-- The loop of `install`, over the table of 64-bit words that begins at `base`.
pub install : (ℕ → ℕ) → List Segment → ℕ → ℕ → ℕ
install table [] i = table
install table (s ∷ rest) i = install (update table i s.descriptor) rest (suc i)

-- `descriptor & (1 << bit) != 0`.
abbrev pub has_bit : ℕ → ℕ → Bool
has_bit descriptor bit = not (bit_and descriptor (2 ^ bit) == 0)

pub seg_range : ℕ → Option (ℕ × ℕ)
seg_range descriptor =
    if descriptor == 0
    then none
    else (let base = u32 (
          bit_or (bit_and (descriptor / 2 ^ 16) 0xffffff)
            (bit_and (descriptor / 2 ^ 56) 0xff * 2 ^ 24)) in
        let raw =
          u32 (bit_or (bit_and descriptor 0xffff) (bit_and (descriptor / 2 ^ 48) 0xf * 2 ^ 16)) in
        let limit = if has_bit descriptor 55 then bit_or (u32 (raw * 2 ^ 12)) 0xfff else raw in
        if not (has_bit descriptor 43) && has_bit descriptor 42
        then (if ltb (limit + 1) (2 ^ 32) then some (u32 (base + (limit + 1)), u32_max) else none)
        else some (base, u32 (base + limit)))

pub seg_type : ℕ → String
seg_type descriptor =
    let rw = has_bit descriptor 41 in
    let dc = has_bit descriptor 42 in
    if has_bit descriptor 43
    then (if rw then (if dc then "code rx c" else "code rx") else "code x")
    else (if rw then (if dc then "data rw dn" else "data rw") else "data r")
