-- ===== src/Tests.antt =====
-- The theorems on the small parts of kernel/src (klib.rs, keyboard.rs, mem.rs, multiboot.rs,
-- paging.rs and vga.rs) at concrete inputs.
use Prim.Native.String.{String}
use kfs.Base.{
  ℕ, ◌+◌, ◌-◌, ◌*◌, ◌/◌, ◌^◌, ◌<◌, ◌≡◌, refl, true, none, some, [], ◌∷◌, ◌⊎◌, ltb, ◌==◌,
  if◌then◌else◌, arith, bit_or,
}
use kfs.Klib.{utoa, parse_u32}
use kfs.Klib.Decimal.{parse_u32-utoa}
use kfs.Keyboard.{poll}
use kfs.Keyboard.Keys.{Proper, poll-Proper}
use kfs.Mem.{page_of}
use kfs.Mem.Spaces.{page_of_lem}
use kfs.Multiboot.{mmap_loop, probe}
use kfs.Multiboot.Regions.{Ram, nothing}
use kfs.Multiboot.Probe.{Answer, probe-Answer, mmap_loop-none}
use kfs.Paging.{
  Machine, directory_phys, dir_index, table_index, offset, walk, translate, add, directory,
}
use kfs.Paging.Index.{Recursive, index_parts, walk-directory}
use kfs.Paging.Translate.{translate-walk}
use kfs.Pmm as Frames
use kfs.Vga.{Vga, start, num_cells, blank, width, print, scroll, switch_screen}
use kfs.Vga.Screens.{OnScreen, SameDisplay, print-OnScreen, scroll_lem, switch_screen-switch_screen}

parse_u32-utoa_example : parse_u32 (utoa 4294967295 (λ i. 0)) ≡ some 4294967295
parse_u32-utoa_example = parse_u32-utoa 4294967295 (λ i. 0) (omega arith)

poll-Proper_example : Proper (poll true 1 0x1E).0
poll-Proper_example = poll-Proper true 1 0x1E

page_of_lem_example : page_of 0xC0001234 ≡ 0xC0001234 / 4096 * 4096
page_of_lem_example = page_of_lem 0xC0001234 (omega arith)

-- The loader's table at 0x1000: the sizes of low and high memory, and a map of one entry at 0x2000.
abbrev info_words : ℕ → ℕ
info_words a =
    if a == 0x1000
    then 64
    else (if a == 0x102C
        then 24
        else (if a == 0x1030
            then 0x2000
            else (if a == 0x2000
                then 20
                else (if a == 0x2004
                    then 0x100000
                    else (if a == 0x200C then 0x7F00000 else (if a == 0x2014 then 1 else 0))))))

probe-Answer_example :
    (r : String ⊎ Ram) × (probe info_words (2 ^ 32) 0x2BADB002 0x1000 ≡ some r)
    × Answer info_words r
probe-Answer_example = probe-Answer info_words 0x2BADB002 0x1000 (λ a visit h. ground arith)

mmap_loop-none_example : mmap_loop (λ a. 2 ^ 32 - 4) 1000 nothing 0x2000 0x2018 ≡ none
mmap_loop-none_example =
    mmap_loop-none (λ a. 2 ^ 32 - 4) 1000 nothing 0x2000 0x2018 (omega arith) (omega arith) refl

-- A directory at 0x5000 whose last entry is itself, with one table at 0x6000 that maps the page at
-- 0x401000 to the frame 0x9000.
abbrev machine : Machine
machine = record {
  words = λ a.
      if a == 0x5FFC
      then 0x5003
      else (if a == 0x5004 then 0x6003 else (if a == 0x6004 then 0x9003 else 0));
  cr0 = 0;
  cr3 = 0x5000;
  pmm = Frames.start;
  oopses = 0;
}

machine-Recursive : Recursive machine
unfolding directory_phys
machine-Recursive = record { there = refl; self = refl }

index_parts_example :
    (dir_index 0x401234 * 2 ^ 22 + table_index 0x401234 * 2 ^ 12 + offset 0x401234 ≡ 0x401234)
    × (dir_index 0x401234 < 1024)
    × (table_index 0x401234 < 1024)
    × (offset 0x401234 < 4096)
index_parts_example = index_parts 0x401234 (omega arith)

walk-directory_example : walk machine (add directory 1) ≡ some (directory_phys machine + 4 * 1)
walk-directory_example = walk-directory machine machine-Recursive 1 (omega arith)

translate-walk_example : translate machine 0x401234 ≡ walk machine 0x401234
translate-walk_example = translate-walk machine 0x401234 machine-Recursive (omega arith)

abbrev screen : Vga
screen = start (λ i. 0)

screen-OnScreen : OnScreen screen
unfolding OnScreen start
screen-OnScreen = omega arith

print-OnScreen_example : OnScreen (print screen (104 ∷ 105 ∷ 10 ∷ []))
print-OnScreen_example = print-OnScreen screen (104 ∷ 105 ∷ 10 ∷ []) screen-OnScreen

switch_screen-switch_screen_example :
    SameDisplay screen (switch_screen (switch_screen screen 1) screen.active)
unfolding start
switch_screen-switch_screen_example =
    switch_screen-switch_screen screen 1 (omega arith) (omega arith) (omega arith)

scroll_lem_example :
    (scroll screen).cells 5
    ≡ (if ltb 5 (num_cells - width) then screen.cells (5 + width) else bit_or screen.attr blank)
scroll_lem_example = scroll_lem screen 5 (omega arith)
