-- ===== src/Paging/Owned/Entries.antt =====
-- `map_page` and `unmap_page` of kernel/src/paging.rs, which write one entry of a table, by what a
-- heap sees of them.
use kfs.Base.{
  ℕ, ◌+◌, ◌*◌, ◌/◌, ◌%◌, ◌^◌, ◌≤◌, ◌<◌, ◌≡◌, ◌≢◌, refl, true, false, Bool, Option, none, some, ◌&&◌,
  ◌==◌, if◌then◌else◌, arith, ◌∙◌, ap, sym, bit_and, bit_or, not,
}
use kfs.Mem.{is_kernel}
use kfs.Pager.{page_of}
use kfs.Paging.{
  Machine, read_volatile, write_volatile, walk, get_page, table, add, has, present, user,
  frame_bits, map_page, unmap_page, oops, table_index,
}
use kfs.Paging.Holds.{
  lo, hi, shown, entry_at, table_frame, page_frame, page_frame_lem, holds, table_frame_lem,
  page_frame-inside,
}
use kfs.Paging.Holds.Changes.{holds-entry}
use kfs.Paging.Index.{table_index_lem}
use kfs.Paging.Translate.{read_there, write_there}
use kfs.Paging.Owned.{Owned, Spare, Owned-Recursive}
use kfs.Paging.Owned.Frames.{poke, poke-root, page_held, words_apart}
use kfs.Paging.Owned.Change.{Change, Change-read}
use kfs.Paging.Owned.Tables.{entry_there}

-- The entry of the page at `at`, in the table at `t`.
module _ (m : Machine) (k : Owned m) (at t : ℕ) (even : at % 4096 ≡ 0) (low : lo ≤ at)
    (high : at + 4096 ≤ hi) (there : table_frame m (at / 2 ^ 22) ≡ some t) where
  abbrev dir : ℕ
  dir = at / 2 ^ 22

  abbrev index : ℕ
  index = at / 2 ^ 12 % 1024

  abbrev pub slot : ℕ
  slot = add (table dir) (table_index at)

  walk-entry : walk m slot ≡ some (t + 4 * index)
  walk-entry = rw (table_index_lem at) (
      entry_there dir t (omega arith) m index k.tables.small (Owned-Recursive m k)
        (sym (table_frame_lem m dir (omega arith) (omega arith)) ∙ there) (omega arith))

  pub read-entry : read_volatile m slot ≡ m.words (t + 4 * index)
  read-entry = read_there m slot (t + 4 * index) walk-entry

  pub write-entry : (v : ℕ) → write_volatile m slot v ≡ poke m (t + 4 * index) v
  write-entry v = write_there m slot (t + 4 * index) v walk-entry

  pub page-entry : page_frame m at ≡ shown (m.words (t + 4 * index))
  page-entry = page_frame_lem m at (ground arith) ∙ ap (λ o. entry_at m o index) there

  pub entry_Change :
      (v : ℕ)
      → v < 2 ^ 32
      → ((f : ℕ) → shown v ≡ some f → Spare m f)
      → Change m at (shown v) (poke m (t + 4 * index) v)
  entry_Change v small spare =
      let here : dir * 2 ^ 22 + index * 2 ^ 12 ≡ at = omega arith in
      let m' = poke m (t + 4 * index) v in
      let e =
        holds-entry m m' k.tables (poke-root m (t + 4 * index) v) dir index t (omega arith)
          (omega arith) (omega arith) there (λ x ne. ground arith) in
      let w : m'.words (t + 4 * index) ≡ v = ground arith in
      record {
        small = λ b. ground (arith, k.tables.small b);
        root = poke-root m (t + 4 * index) v;
        pmm = refl;
        held = λ u.
            e u
            ∙ ap (λ n. if u == n then shown (m'.words (t + 4 * index)) else holds m u) here
            ∙ ap (λ n. if u == at then shown n else holds m u) w;
        spare = spare;
        not_root = omega arith;
      }

  pub entry-read :
      (v : ℕ) (c : Change m at (shown v) (poke m (t + 4 * index) v)) (b g : ℕ)
      → page_frame m (page_of b) ≡ some g
      → page_of b ≢ at
      → read_volatile (poke m (t + 4 * index) v) b ≡ read_volatile m b
  entry-read v c b g e ne =
      let held = page_held m k (page_of b) g e in
      let table_held : holds m dir ≡ some t = ground (arith, there) in
      let inside = page_frame-inside m (page_of b) g e in
      let apart =
        words_apart m k (page_of b) dir g t (b % 4096) (4 * index) held table_held
          (ground (arith, inside)) (omega arith) (omega arith) in
      Change-read m (poke m (t + 4 * index) v) at (shown v) k c b g e ne (ground (arith, apart))

-- `map_page` and `unmap_page` by what `get_page` answers.
abbrev pub mapped : ℕ → ℕ → Option ℕ × Machine → Bool × Machine
mapped f flags (none, m) = (false, oops m)
mapped f flags (some entry, m) =
    if has (read_volatile m entry) present
    then (false, oops m)
    else (true, write_volatile m entry (bit_or (bit_or (bit_and f frame_bits) flags) present))

abbrev pub unmapped : Option ℕ × Machine → Option ℕ × Machine
unmapped (none, m) = (none, m)
unmapped (some entry, m) =
    if not (has (read_volatile m entry) present)
    then (none, m)
    else (some (bit_and (read_volatile m entry) frame_bits), write_volatile m entry 0)

pub map_refused :
    (m : Machine) (at f flags : ℕ)
    → (has flags user && is_kernel at) ≡ true
    → map_page m at f flags ≡ (false, oops m)
map_refused m at f flags e = unfold map_page in rw e refl

pub map_mapped :
    (m : Machine) (at f flags : ℕ)
    → (has flags user && is_kernel at) ≡ false
    → map_page m at f flags ≡ mapped f flags (get_page m at true)
map_mapped m at f flags e =
    unfold map_page in rw e (by_got (get_page m at true).0 (get_page m at true).1)
  where
    by_got :
        (got : Option ℕ) (m1 : Machine)
        → (elim got [
          | none ↦ (false, oops m1)
          | some entry ↦ if has (read_volatile m1 entry) present then (false, oops m1) else (
            true,
            write_volatile m1 entry (bit_or (bit_or (bit_and f frame_bits) flags) present),
          )
        ])
          ≡ mapped f flags (got, m1)
    by_got none m1 = refl
    by_got (some entry) m1 = refl

pub unmap_unmapped : (m : Machine) (at : ℕ) → unmap_page m at ≡ unmapped (get_page m at false)
unmap_unmapped m at = unfold unmap_page in by_got (get_page m at false).0 (get_page m at false).1
  where
    by_got :
        (got : Option ℕ) (m1 : Machine)
        → (elim got [
          | none ↦ (none, m1)
          | some entry ↦
              let value = read_volatile m1 entry in
              if not (has value present)
              then (none, m1)
              else (some (bit_and value frame_bits), write_volatile m1 entry 0)
        ])
          ≡ unmapped (got, m1)
    by_got none m1 = refl
    by_got (some entry) m1 = refl
