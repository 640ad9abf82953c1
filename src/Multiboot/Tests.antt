-- ===== src/Multiboot/Tests.antt =====
-- What kernel/src/multiboot.rs makes of a loader that leaves a memory map of two entries.
use Prim.Native.String.{String}
use kfs.Base.{ℕ, ◌||◌, ◌^◌, ◌≡◌, refl, ◌==◌, if◌then◌else◌, Option, none, some, ◌⊎◌, inl, inr}
use kfs.Multiboot.{probe, from_mmap, mmap_loop, push_entry, from_sizes, finish}
use kfs.Multiboot.Regions.{Ram, push}

-- The table at 0x9000 has a map at 0x2000: 31 MB of memory from 1 MB on, and 1 MB that is reserved.
abbrev pub mapped : ℕ → ℕ
mapped a =
    if a == 0x9000
    then 64
    else (if a == 0x902C
        then 48
        else (if a == 0x9030
            then 0x2000
            else (if a == 0x2000 || a == 0x2018
                then 20
                else (if a == 0x2004
                    then 0x100000
                    else (if a == 0x200C
                        then 0x1F00000
                        else (if a == 0x2014
                            then 1
                            else (if a == 0x201C
                                then 0x2000000
                                else (if a == 0x2024
                                    then 0x100000
                                    else (if a == 0x202C then 2 else 0)))))))))

abbrev pub highest_of : Option (String ⊎ Ram) → ℕ
highest_of none = 0
highest_of (some (inl why)) = 0
highest_of (some (inr ram)) = ram.highest

pub probe_highest : highest_of (probe mapped (2 ^ 32) 0x2BADB002 0x9000) ≡ 0x2000000
unfolding probe from_mmap mmap_loop push_entry from_sizes finish push
probe_highest = refl
