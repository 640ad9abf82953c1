-- ===== src/Paging/Translate.antt =====
-- `translate` of kernel/src/paging.rs against the processor's own walk of the tables, and what the
-- kernel's checks refuse.
use kfs.Base.{
  ℕ, ◌+◌, ◌-◌, ◌*◌, ◌/◌, ◌^◌, ◌<◌, ◌≡◌, refl, true, false, none, some, bit_and, bit_or, Bool-cases,
  inl, inr, ◌⊎◌, ◌∙◌, ap, sym, update,
}
use kfs.Base.Bits.{bit_and_shifted, bit_or_fields}
use kfs.Mem.{is_kernel, is_demand}
use kfs.Paging.{
  Machine, present, user, frame_bits, directory, has, dir_index, table_index, offset, table, add,
  directory_phys, walk, read_volatile, write_volatile, directory_entry, get_page, entry_of,
  translate, map_page, handle_fault, oops,
}
use kfs.Paging.Index.{Recursive, walk-directory, walk-table, index_parts}

-- A frame's address and an offset in it share no bit.
frame_or :
    (e a : ℕ)
    → offset a < 4096
    → bit_or (bit_and e frame_bits) (offset a) ≡ bit_and e frame_bits + offset a
frame_or e a h =
    let q : bit_and e frame_bits ≡ bit_and (e / 2 ^ 12) (2 ^ 20 - 1) * 2 ^ 12 =
      bit_and_shifted 12 e (2 ^ 20 - 1) in
    rw (q) (bit_or_fields 12 (bit_and (e / 2 ^ 12) (2 ^ 20 - 1)) (offset a) h)

pub read_there : (m : Machine) (a at : ℕ) → walk m a ≡ some at → read_volatile m a ≡ m.words at
read_there m a at e = unfold read_volatile in rw (e, read_volatile)

pub write_there :
    (m : Machine) (a at x : ℕ)
    → walk m a ≡ some at
    → write_volatile m a x ≡ record m { words = update m.words at x }
write_there m a at x e = unfold write_volatile in rw (e, write_volatile)

-- `entry_of` and `translate` by what they find.
module _ (m : Machine) (a : ℕ) where
  entry_gone : (get_page m a false).0 ≡ none → entry_of m a ≡ none
  entry_gone e = unfold entry_of in rw (e, entry_of)

  entry_there :
      (at value : ℕ)
      → (get_page m a false).0 ≡ some at
      → read_volatile m at ≡ value
      → has value present ≡ true
      → entry_of m a ≡ some value
  entry_there at value e v there = unfold entry_of in rw (e, entry_of, v, there)

  entry_absent :
      (at value : ℕ)
      → (get_page m a false).0 ≡ some at
      → read_volatile m at ≡ value
      → has value present ≡ false
      → entry_of m a ≡ none
  entry_absent at value e v gone = unfold entry_of in rw (e, entry_of, v, gone)

  translate_gone : entry_of m a ≡ none → translate m a ≡ none
  translate_gone e = unfold translate in rw (e, translate)

  translate_there :
      (value : ℕ)
      → entry_of m a ≡ some value
      → translate m a ≡ some (bit_or (bit_and value frame_bits) (offset a))
  translate_there value e = unfold translate in rw (e, translate)

module _ (m : Machine) (r : Recursive m) (a : ℕ) (low : a < 2 ^ 32) where
  abbrev pde : ℕ
  pde = m.words (directory_phys m + 4 * dir_index a)

  abbrev pte : ℕ
  pte = m.words (bit_and pde frame_bits + 4 * table_index a)

  abbrev entry : ℕ
  entry = add (table (dir_index a)) (table_index a)

  pde_read : directory_entry m (dir_index a) ≡ pde
  unfolding directory_entry
  pde_read =
      read_there m (add directory (dir_index a)) _
        (walk-directory m r (dir_index a) (index_parts a low).1)

  pte_read : has pde present ≡ true → read_volatile m entry ≡ pte
  pte_read e =
      let p = index_parts a low in
      read_there m entry _ (walk-table m r (dir_index a) (table_index a) p.1 p.2 e)

  get_none : has pde present ≡ false → (get_page m a false).0 ≡ none
  get_none e = unfold get_page in rw (pde_read, e) refl

  get_some : has pde present ≡ true → (get_page m a false).0 ≡ some entry
  get_some e = unfold get_page in rw (pde_read, e) refl

  translate-walk_none : has pde present ≡ false → translate m a ≡ walk m a
  translate-walk_none e =
      let w : walk m a ≡ none = unfold walk in rw e in
      translate_gone m a (entry_gone m a (get_none e)) ∙ sym w

  translate-walk_some : has pde present ≡ true → translate m a ≡ walk m a
  translate-walk_some e = elim (Bool-cases (has pte present)) [
    | inl there ↦
        let q = entry_there m a entry pte (get_some e) (pte_read e) there in
        let w : walk m a ≡ some (bit_and pte frame_bits + offset a) =
          unfold walk in rw (e, there) in
        translate_there m a pte q ∙ ap (λ n. some n) (frame_or pte a (index_parts a low).3) ∙ sym w
    | inr gone ↦
        let q = entry_absent m a entry pte (get_some e) (pte_read e) gone in
        let w : walk m a ≡ none = unfold walk in rw (e, gone) in translate_gone m a q ∙ sym w
  ]

-- Where the directory's last entry is the directory itself, `translate` gives the physical address
-- that the processor reaches, or nothing where the processor would fault.
pub translate-walk : (m : Machine) (a : ℕ) → Recursive m → a < 2 ^ 32 → translate m a ≡ walk m a
translate-walk m a r low =
    elim (Bool-cases (has (m.words (directory_phys m + 4 * dir_index a)) present)) [
      | inl there ↦ translate-walk_some m r a low there
      | inr gone ↦ translate-walk_none m r a low gone
    ]

-- A page that user code may reach is never mapped in kernel space: `map_page` refuses it,
-- complains and changes nothing.
pub map_page-is_kernel :
    (m : Machine) (addr frame flags : ℕ)
    → has flags user ≡ true
    → is_kernel addr ≡ true
    → map_page m addr frame flags ≡ (false, oops m)
map_page-is_kernel m addr frame flags u k = unfold map_page in rw (u, k) refl

-- `handle_fault` turns down a fault on a page that is there, and one outside the range that is paged
-- in on demand, and changes nothing then.
pub handle_fault-is_demand :
    (m : Machine) (addr error : ℕ)
    → (has error present ≡ true) ⊎ (is_demand addr ≡ false)
    → handle_fault m addr error ≡ (false, m)
unfolding handle_fault
handle_fault-is_demand m addr error (inl e) = rw e refl
handle_fault-is_demand m addr error (inr e) = elim (Bool-cases (has error present)) [
  | inl p ↦ rw p refl
  | inr q ↦ rw (q, e) refl
]
