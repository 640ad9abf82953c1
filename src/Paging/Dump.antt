-- ===== src/Paging/Dump.antt =====
-- `dump` of kernel/src/paging.rs: the lines that it prints for the page tables, each of which is a run
-- of pages. The two lines of the heading are left out.
pub mod Runs
use kfs.Base.{
  ℕ, zero, suc, ◌+◌, ◌*◌, ◌-◌, ◌^◌, Bool, true, false, not, Option, none, some, List, [], ◌∷◌, ◌++◌,
  bit_and, bit_or, ◌==◌, if◌then◌else◌, u32,
}
use kfs.Mem.{entries}
use kfs.Paging.{
  Machine, Run, Page, present, flag_bits, frame_bits, has, table, add, read_volatile,
  directory_entry, extend_run,
}

-- The page that the entry `pte` shows.
pub page_at : ℕ → ℕ → ℕ → Page
page_at dir index pte = record {
  at = bit_or (u32 (dir * 2 ^ 22)) (u32 (index * 2 ^ 12));
  frame = bit_and pte frame_bits;
  bits = bit_and pte flag_bits;
}

-- `for index in 0..ENTRIES`, on the rounds that are left: the open run, and the lines printed.
pub dump_table : Machine → ℕ → ℕ → ℕ → Option Run → Option Run × List Run
dump_table m dir zero index run = (run, [])
dump_table m dir (suc left) index run =
    let pte = read_volatile m (add (table dir) index) in
    let (run1, lines) =
      extend_run run (if has pte present then some (page_at dir index pte) else none) in
    let (run2, more) = dump_table m dir left (suc index) run1 in (run2, lines ++ more)

-- `for dir in 0..ENTRIES`.
pub dump_dirs : Machine → ℕ → ℕ → Option Run → Option Run × List Run
dump_dirs m zero dir run = (run, [])
dump_dirs m (suc left) dir run =
    let (run1, lines) =
      if has (directory_entry m dir) present
      then dump_table m dir entries 0 run
      else extend_run run none in
    let (run2, more) = dump_dirs m left (suc dir) run1 in (run2, lines ++ more)

pub dump : Machine → List Run
dump m = let (run, lines) = dump_dirs m entries 0 none in lines ++ (extend_run run none).1
