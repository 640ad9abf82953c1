-- ===== src/Paging/Holds.antt =====
-- What a word of a page table of kernel/src/paging.rs says, and which frames the tables hold: the
-- directory, the tables of the kernel's two heaps, and their pages.
pub mod Changes
pub mod Start
use kfs.Base.{
  ℕ, ◌+◌, ◌-◌, ◌*◌, ◌/◌, ◌%◌, ◌^◌, ◌≤◌, ◌<◌, ◌≡◌, ◌≢◌, refl, Bool, true, false, not, ◌&&◌, ◌||◌,
  Option, none, some, bit_and, bit_or, ltb, leb, ◌==◌, if◌then◌else◌, arith, Bool-cases, inl, inr,
  ◌∙◌, ap, sym, u32, u32_max, update,
}
use kfs.Base.Bits.{bit_and_shifted, bit_and_low, bit_or_fields, bit_or_one}
use kfs.Mem.{kheap_base, vmalloc_limit}
use kfs.Paging.{
  Machine, present, kernel_page, frame_bits, has, dir_index, table_index, offset, directory_phys,
  walk,
}
use kfs.Paging.Index.{table_index_lem, offset_lem, dir_index_lem}

pub has-present : (v : ℕ) → has v present ≡ (v % 2 == 1)
has-present v = ground (arith, bit_and_low 1 v)

pub frame_bits_lem : (v : ℕ) → v < 2 ^ 32 → bit_and v frame_bits ≡ v / 4096 * 4096
frame_bits_lem v h =
    bit_and_shifted 12 v (2 ^ 20 - 1)
    ∙ ap (λ n. n * 2 ^ 12) (bit_and_low 20 (v / 2 ^ 12))
    ∙ omega arith

-- The frame that an entry shows.
abbrev pub shown : ℕ → Option ℕ
shown v = if v % 2 == 1 then some (v / 4096 * 4096) else none

-- The entry that `map_page` writes.
pub shown-entry :
    (f flags : ℕ)
    → f % 4096 ≡ 0
    → f < 2 ^ 32
    → flags < 4096
    → (shown (bit_or (bit_or (bit_and f frame_bits) flags) present) ≡ some f)
      × (bit_or (bit_or (bit_and f frame_bits) flags) present < 2 ^ 32)
shown-entry f flags even low small =
    let a : bit_and f frame_bits ≡ f / 4096 * 2 ^ 12 = frame_bits_lem f low in
    let b : bit_or (f / 4096 * 2 ^ 12) flags ≡ f / 4096 * 2 ^ 12 + flags =
      bit_or_fields 12 (f / 4096) flags small in
    rw (a, b, bit_or_one (f / 4096 * 2 ^ 12 + flags)) (ground arith, ground arith)

-- The entry of the directory that `get_page` writes.
pub shown-table :
    (f : ℕ)
    → f % 4096 ≡ 0
    → f < 2 ^ 32
    → (shown (bit_or f kernel_page) ≡ some f) × (bit_or f kernel_page < 2 ^ 32)
shown-table f even low =
    let b : bit_or (f / 4096 * 2 ^ 12) kernel_page ≡ f / 4096 * 2 ^ 12 + 3 =
      bit_or_fields 12 (f / 4096) 3 (omega arith) in
    let c : f ≡ f / 4096 * 2 ^ 12 = omega arith in
    let d : bit_or f kernel_page ≡ f + 3 = ap (λ g. bit_or g kernel_page) c ∙ b ∙ omega arith in
    rw d (ground arith, ground arith)

abbrev pub lo : ℕ
lo = kheap_base

abbrev pub hi : ℕ
hi = vmalloc_limit

-- The tables of a heap's address range, and the directory, which is the table of its own entries.
pub table_frame : Machine → ℕ → Option ℕ
table_frame m d =
    if (leb (lo / 2 ^ 22) d && ltb d (hi / 2 ^ 22)) || d == 1023
    then shown (m.words (directory_phys m + 4 * d))
    else none

abbrev pub entry_at : Machine → Option ℕ → ℕ → Option ℕ
entry_at m none i = none
entry_at m (some t) i = shown (m.words (t + 4 * i))

abbrev pub is_page : ℕ → Bool
is_page q = q % 4096 == 0 && (leb lo q && ltb q hi)

-- The frame of the page at `q`, of a heap's address range.
pub page_frame : Machine → ℕ → Option ℕ
page_frame m q =
    if is_page q then entry_at m (table_frame m (q / 2 ^ 22)) (q / 2 ^ 12 % 1024) else none

-- What the frame of each use is: a table below 1024, a page from 4096 on.
abbrev pub holds : Machine → ℕ → Option ℕ
holds m u = if ltb u 1024 then table_frame m u else page_frame m u

shown-even : (v f : ℕ) → v < 2 ^ 32 → shown v ≡ some f → (f % 4096 ≡ 0) × (f < 2 ^ 32)
shown-even v f h e = (ground arith, ground arith)

module _ (m : Machine) where
  pub page_frame-inside : (q f : ℕ) → page_frame m q ≡ some f → is_page q ≡ true
  unfolding page_frame
  page_frame-inside q f e = ground arith

  pub page_frame_lem :
      (q : ℕ)
      → is_page q ≡ true
      → page_frame m q ≡ entry_at m (table_frame m (q / 2 ^ 22)) (q / 2 ^ 12 % 1024)
  unfolding page_frame
  page_frame_lem q e = rw e refl

  pub page_frame-outside : (q : ℕ) → is_page q ≡ false → page_frame m q ≡ none
  unfolding page_frame
  page_frame-outside q e = rw e refl

  pub page_frame-low : (q : ℕ) → ltb q 1024 ≡ true → page_frame m q ≡ none
  unfolding page_frame
  page_frame-low q e = ground arith

  pub root_frame_lem : table_frame m 1023 ≡ shown (m.words (directory_phys m + 4 * 1023))
  unfolding table_frame
  root_frame_lem = refl

  pub table_frame_lem :
      (d : ℕ)
      → lo / 2 ^ 22 ≤ d
      → d < hi / 2 ^ 22
      → table_frame m d ≡ shown (m.words (directory_phys m + 4 * d))
  unfolding table_frame
  table_frame_lem d a b = ground arith

module _ (m : Machine) (small : (x : ℕ) → m.words x < 2 ^ 32) where
  pub table_frame-even : (d f : ℕ) → table_frame m d ≡ some f → (f % 4096 ≡ 0) × (f < 2 ^ 32)
  unfolding table_frame
  table_frame-even d f e =
      shown-even (m.words (directory_phys m + 4 * d)) f (small _) (ground arith)

  entry_at-even : (o : Option ℕ) (i f : ℕ) → entry_at m o i ≡ some f → (f % 4096 ≡ 0) × (f < 2 ^ 32)
  entry_at-even none i f e = absurd (cc)
  entry_at-even (some t) i f e = shown-even (m.words (t + 4 * i)) f (small _) e

  pub page_frame-even : (q f : ℕ) → page_frame m q ≡ some f → (f % 4096 ≡ 0) × (f < 2 ^ 32)
  unfolding page_frame
  page_frame-even q f e =
      entry_at-even (table_frame m (q / 2 ^ 22)) (q / 2 ^ 12 % 1024) f (ground arith)

  abbrev pub with_offset : Option ℕ → ℕ → Option ℕ
  with_offset none r = none
  with_offset (some f) r = some (f + r)

  -- The processor's walk by its two entries.
  pub walk_gone :
      (a : ℕ) → (m.words (directory_phys m + 4 * (a / 2 ^ 22)) % 2 == 1) ≡ false → walk m a ≡ none
  walk_gone a e =
      unfold walk in
      rw (dir_index_lem a, has-present (m.words (directory_phys m + 4 * (a / 2 ^ 22))), e) refl

  pub walk_there :
      (a t : ℕ)
      → shown (m.words (directory_phys m + 4 * (a / 2 ^ 22))) ≡ some t
      → walk m a ≡ with_offset (shown (m.words (t + 4 * (a / 2 ^ 12 % 1024)))) (a % 4096)
  walk_there a t e =
      let pde = m.words (directory_phys m + 4 * (a / 2 ^ 22)) in
      let pte = m.words (t + 4 * (a / 2 ^ 12 % 1024)) in
      let p : (pde % 2 == 1) ≡ true = ground arith in
      let q : bit_and pde frame_bits ≡ t = frame_bits_lem pde (small _) ∙ ground arith in
      unfold walk in
      rw
        (
          dir_index_lem a,
          table_index_lem a,
          offset_lem a,
          has-present pde,
          p,
          q,
          has-present pte,
          frame_bits_lem pte (small _),
        )
        (ground arith)

  walk_by :
      (a : ℕ) (o : Option ℕ)
      → shown (m.words (directory_phys m + 4 * (a / 2 ^ 22))) ≡ o
      → walk m a ≡ with_offset (entry_at m o (a / 2 ^ 12 % 1024)) (a % 4096)
  walk_by a none e = walk_gone a (ground arith)
  walk_by a (some t) e = walk_there a t e

  -- The processor's walk in a heap's range.
  pub walk-page_frame :
      (a : ℕ) → lo ≤ a → a < hi → walk m a ≡ with_offset (page_frame m (a - a % 4096)) (a % 4096)
  walk-page_frame a l u =
      let q = a - a % 4096 in
      let d : q / 2 ^ 22 ≡ a / 2 ^ 22 = omega arith in
      let i : q / 2 ^ 12 % 1024 ≡ a / 2 ^ 12 % 1024 = omega arith in
      walk_by a (table_frame m (a / 2 ^ 22))
        (sym (table_frame_lem m (a / 2 ^ 22) (omega arith) (omega arith)))
      ∙ sym
          (ap (λ o. with_offset o (a % 4096)) (page_frame_lem m q (ground arith) ∙ rw (d, i) refl))
