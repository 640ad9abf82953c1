-- ===== src/Paging/Owned.antt =====
-- kernel/src/paging.rs as the pager of kernel/src/heap.rs: a machine whose tables, pages and free
-- frames are apart, and what the heap sees of it.
pub mod Frames
pub mod Change
pub mod Tables
pub mod Pages
pub mod Entries
pub mod Outcomes
pub mod Laws
pub mod Fresh
use kfs.Base.{
  ℕ, ◌+◌, ◌-◌, ◌*◌, ◌/◌, ◌%◌, ◌^◌, ◌≤◌, ◌<◌, ◌≡◌, ◌≢◌, refl, true, false, Option, none, some, ltb,
  ◌==◌, if◌then◌else◌, arith, Option-cases, Bool-cases, inl, inr, ◌∙◌, ap, sym, update,
}
use kfs.Pmm.{Pmm, alloc_frame, free_frame, free_bit}
use kfs.Pmm.Valid.{IsValid}
use kfs.Pager.{Pager, View, page_of, Mapped}
use kfs.Paging.{
  Machine, present, frame_bits, oops, map_page, unmap_page, read_volatile, write_volatile, has,
  directory_phys, walk,
}
use kfs.Paging.Holds.{
  lo, hi, shown, table_frame, page_frame, is_page, holds, page_frame-low, root_frame_lem,
  with_offset, walk-page_frame, page_frame-inside, page_frame-even, has-present, frame_bits_lem,
}
use kfs.Paging.Holds.Changes.{Apart}
use kfs.Paging.Index.{Recursive}
use kfs.Paging.Translate.{read_there, write_there}

pub record Owned (m : Machine) : Type 0 where
  pub tables : Apart m
  pub frames : IsValid m.pmm
  pub unused : (n u : ℕ) → free_bit m.pmm n ≡ true → holds m u ≢ some (n * 4096)

-- The frame at `f` is the caller's: it is not free, and it has no use.
pub record Spare (m : Machine) (f : ℕ) : Type 0 where
  pub even : f % 4096 ≡ 0
  pub low : f < 2 ^ 32
  pub taken : free_bit m.pmm (f / 4096) ≡ false
  pub unheld : (u : ℕ) → holds m u ≢ some f

pub take_frame : Machine → Option ℕ × Machine
take_frame m = let (got, s) = alloc_frame m.pmm in (got, record m { pmm = s })

pub give_frame : Machine → ℕ → Machine
give_frame m f = record m { pmm = free_frame m.pmm f }

abbrev pub paged : Pager
paged = record {
  World = Machine;
  read = read_volatile;
  write = write_volatile;
  map_page = map_page;
  unmap_page = unmap_page;
  alloc_frame = take_frame;
  free_frame = give_frame;
  oops = oops;
}

abbrev pub paged_view : View Machine
paged_view = record { Valid = Owned; Spare = Spare; frame_at = page_frame; lo = lo; hi = hi }

-- A page is seen by what it holds.
pub page_frame_holds :
    (m m' : Machine) (at : ℕ) (o : Option ℕ)
    → 1024 ≤ at
    → ((u : ℕ) → holds m' u ≡ (if u == at then o else holds m u))
    → (q : ℕ) → page_frame m' q ≡ (if at == q then o else page_frame m q)
page_frame_holds m m' at o h e q = elim (Bool-cases (ltb q 1024)) [
  | inl small ↦ rw (page_frame-low m q small, page_frame-low m' q small) (ground arith)
  | inr large ↦
      let there : page_frame m' q ≡ (if q == at then o else page_frame m q) =
        ground (arith, large, e q) in
      there ∙ ground arith
]

pub page_frame-same :
    (m m' : Machine)
    → ((u : ℕ) → holds m' u ≡ holds m u)
    → (q : ℕ) → page_frame m' q ≡ page_frame m q
page_frame-same m m' e q = elim (Bool-cases (ltb q 1024)) [
  | inl small ↦ page_frame-low m' q small ∙ sym (page_frame-low m q small)
  | inr large ↦ ground (arith, large, e q)
]

module _ (m : Machine) (k : Owned m) where
  pub Owned-Recursive : Recursive m
  Owned-Recursive =
      let e = sym (root_frame_lem m) ∙ k.tables.self in
      let v = m.words (directory_phys m + 4 * 1023) in
      record {
        there = ground (arith, e, has-present v);
        self = ground (arith, e, frame_bits_lem v (k.tables.small _));
      }

  -- Where the page of `b` is, and the word at `b`.
  pub word_at : (b g : ℕ) → page_frame m (page_of b) ≡ some g → walk m b ≡ some (g + b % 4096)
  word_at b g e =
      let inside = page_frame-inside m (page_of b) g e in
      walk-page_frame m k.tables.small b (ground arith) (ground arith)
      ∙ ap (λ o. with_offset m k.tables.small o (b % 4096)) e

  pub read_word :
      (b g : ℕ) → page_frame m (page_of b) ≡ some g → read_volatile m b ≡ m.words (g + b % 4096)
  read_word b g e = read_there m b (g + b % 4096) (word_at b g e)
