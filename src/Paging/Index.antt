-- ===== src/Paging/Index.antt =====
-- The parts of a virtual address, and the page tables of kernel/src/paging.rs seen through the
-- directory's entry for itself.
use kfs.Base.{ℕ, ◌+◌, ◌*◌, ◌/◌, ◌%◌, ◌^◌, ◌<◌, ◌≡◌, refl, true, some, bit_and, arith, ◌∙◌}
use kfs.Base.Bits.{bit_and_low}
use kfs.Paging.{
  Machine, present, frame_bits, directory, has, dir_index, table_index, offset, table, add,
  directory_phys, walk,
}

pub table_index_lem : (a : ℕ) → table_index a ≡ a / 2 ^ 12 % 2 ^ 10
unfolding table_index
table_index_lem a = bit_and_low 10 (a / 2 ^ 12)

pub offset_lem : (a : ℕ) → offset a ≡ a % 2 ^ 12
unfolding offset
offset_lem a = bit_and_low 12 a

pub dir_index_lem : (a : ℕ) → dir_index a ≡ a / 2 ^ 22
unfolding dir_index
dir_index_lem a = refl

-- `dir_index`, `table_index` and `offset` cut an address into parts of 10, 10 and 12 bits, which
-- together make up the address.
pub index_parts :
    (a : ℕ)
    → a < 2 ^ 32
    → (dir_index a * 2 ^ 22 + table_index a * 2 ^ 12 + offset a ≡ a)
      × (dir_index a < 1024)
      × (table_index a < 1024)
      × (offset a < 4096)
index_parts a h =
    rw (table_index_lem a, offset_lem a, dir_index_lem a)
      (omega arith, omega arith, omega arith, omega arith)

-- The directory's last entry is the directory itself.
pub record Recursive (m : Machine) : Type 0 where
  pub there : has (m.words (directory_phys m + 4 * 1023)) present ≡ true
  pub self : bit_and (m.words (directory_phys m + 4 * 1023)) frame_bits ≡ directory_phys m

module _ (m : Machine) (r : Recursive m) where
  walk_through :
      (a dir index low : ℕ)
      → dir_index a ≡ dir
      → table_index a ≡ index
      → offset a ≡ low
      → has (m.words (directory_phys m + 4 * dir)) present ≡ true
      → has
          (m.words (bit_and (m.words (directory_phys m + 4 * dir)) frame_bits + 4 * index))
          present
        ≡ true
      → walk m a
        ≡ some (
            bit_and
              (m.words (bit_and (m.words (directory_phys m + 4 * dir)) frame_bits + 4 * index))
              frame_bits
            + low)
  walk_through a dir index low d i o e f = unfold walk in rw (d, i, o, e, f)

  -- A word of the directory, read at 0xFFFFF000, is the word of its frame.
  pub walk-directory :
      (dir : ℕ) → dir < 1024 → walk m (add directory dir) ≡ some (directory_phys m + 4 * dir)
  walk-directory dir h =
      let a = add directory dir in
      let w =
        walk_through a 1023 1023 (4 * dir) (dir_index_lem a ∙ omega arith)
          (table_index_lem a ∙ omega arith) (offset_lem a ∙ omega arith) r.there
          (rw r.self r.there) in
      w ∙ rw (r.self, r.self) refl

  -- A word of a page table, read in the window at 0xFFC00000, is the word of the table's frame.
  pub walk-table :
      (dir i : ℕ)
      → dir < 1024
      → i < 1024
      → has (m.words (directory_phys m + 4 * dir)) present ≡ true
      → walk m (add (table dir) i)
        ≡ some (bit_and (m.words (directory_phys m + 4 * dir)) frame_bits + 4 * i)
  unfolding table
  walk-table dir i h k e =
      let a = add (table dir) i in
      let w =
        walk_through a 1023 dir (4 * i) (dir_index_lem a ∙ omega arith)
          (table_index_lem a ∙ omega arith) (offset_lem a ∙ omega arith) r.there (rw r.self e) in
      w ∙ rw r.self refl
