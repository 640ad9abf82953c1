-- ===== src/Paging/Dump/Runs/Memory.antt =====
-- The lines of `dump` of kernel/src/paging.rs against the page tables as they lie in memory.
use kfs.Base.{
  ℕ, zero, suc, ◌+◌, ◌*◌, ◌/◌, ◌%◌, ◌^◌, ◌<◌, ◌≤◌, ◌≡◌, refl, true, false, ◌&&◌, List, [], ◌∷◌,
  ◌++◌, bit_and, bit_or, ◌==◌, if◌then◌else◌, u32, arith, ◌∙◌, ap, sym, Bool-cases, inl, inr,
}
use kfs.Base.Bits.{bit_and_low, bit_and_shifted, bit_or_fields}
use kfs.Paging.{
  Machine, present, writable, user, flag_bits, has, directory, table, add, read_volatile,
  directory_entry, directory_phys,
}
use kfs.Paging.Holds.{has-present, frame_bits_lem}
use kfs.Paging.Index.{Recursive, walk-directory, walk-table}
use kfs.Paging.Translate.{read_there}
use kfs.Paging.Dump.{page_at, dump}
use kfs.Paging.Dump.Runs.{
  Shown, pages_of_all, shown_page, table_pages, directory_pages, dump-directory_pages,
}

-- The two words that the processor reads for the page number `n`.
abbrev pub directory_word : Machine → ℕ → ℕ
directory_word m n = m.words (directory_phys m + 4 * (n / 1024))

abbrev pub table_word : Machine → ℕ → ℕ
table_word m n = m.words (directory_word m n / 4096 * 4096 + 4 * (n % 1024))

-- The page number `n` with what its word says: the frame, and bits 1 and 2, for writing and for users.
abbrev pub page_of_word : ℕ → ℕ → Shown
page_of_word n v = record { at = n * 4096; frame = v / 4096 * 4096; rights = v % 8 / 2 * 2 }

-- The pages that are there, of the `left` page numbers from `n` on.
pub memory_pages : Machine → ℕ → ℕ → List Shown
memory_pages m zero n = []
memory_pages m (suc left) n =
    let rest = memory_pages m left (suc n) in
    if directory_word m n % 2 == 1 && table_word m n % 2 == 1
    then page_of_word n (table_word m n) ∷ rest
    else rest

rights_lem : (v : ℕ) → bit_and (bit_and v flag_bits) (writable + user) ≡ v % 8 / 2 * 2
rights_lem v =
    let w = v % 4096 in
    ap (λ n. bit_and n 6) (bit_and_low 12 v)
    ∙ bit_and_shifted 1 w 3
    ∙ ap (λ n. n * 2) (bit_and_low 2 (w / 2))
    ∙ omega arith

address_lem :
    (dir index : ℕ)
    → dir < 1024
    → index < 1024
    → bit_or (u32 (dir * 2 ^ 22)) (u32 (index * 2 ^ 12)) ≡ (dir * 1024 + index) * 4096
address_lem dir index h k =
    let a : u32 (dir * 2 ^ 22) ≡ dir * 2 ^ 22 = omega arith in
    let b : u32 (index * 2 ^ 12) ≡ index * 2 ^ 12 = omega arith in
    rw (a, b) (bit_or_fields 22 dir (index * 2 ^ 12) (omega arith) ∙ omega arith)

page_lem :
    (dir index v : ℕ)
    → dir < 1024
    → index < 1024
    → v < 2 ^ 32
    → shown_page (page_at dir index v) ≡ page_of_word (dir * 1024 + index) v
unfolding page_at
page_lem dir index v h k low =
    rw (address_lem dir index h k, frame_bits_lem v low, rights_lem v) refl

directory_word_lem :
    (m : Machine) (dir index : ℕ)
    → index < 1024
    → directory_word m (dir * 1024 + index) ≡ m.words (directory_phys m + 4 * dir)
directory_word_lem m dir index h =
    let d : (dir * 1024 + index) / 1024 ≡ dir = omega arith in
    ap (λ k. m.words (directory_phys m + 4 * k)) d

memory_pages-append :
    (m : Machine) (a b n : ℕ)
    → memory_pages m (a + b) n ≡ memory_pages m a n ++ memory_pages m b (n + a)
unfolding memory_pages
memory_pages-append m zero b n =
    let e : n + 0 ≡ n = omega arith in let f : 0 + b ≡ b = omega arith in rw (e, f) refl
memory_pages-append m (suc a) b n =
    let e : n + suc a ≡ suc n + a = omega arith in
    let ih = memory_pages-append m a b (suc n) in
    let f : suc a + b ≡ suc (a + b) = omega arith in
    elim (Bool-cases (directory_word m n % 2 == 1 && table_word m n % 2 == 1)) [
      | inl there ↦
          rw (e, f, memory_pages, there) (ap (λ ps. page_of_word n (table_word m n) ∷ ps) ih)
      | inr gone ↦ rw (e, f, memory_pages, gone) ih
    ]

memory_pages-none :
    (m : Machine) (dir left index : ℕ)
    → index + left ≤ 1024
    → (m.words (directory_phys m + 4 * dir) % 2 == 1) ≡ false
    → memory_pages m left (dir * 1024 + index) ≡ []
unfolding memory_pages
memory_pages-none m dir zero index h e = refl
memory_pages-none m dir (suc left) index h e =
    let gone : (directory_word m (dir * 1024 + index) % 2 == 1) ≡ false =
      ap (λ v. v % 2 == 1) (directory_word_lem m dir index (omega arith)) ∙ e in
    let up : suc (dir * 1024 + index) ≡ dir * 1024 + suc index = omega arith in
    rw (gone, memory_pages)
      (ap (λ n. memory_pages m left n) up
        ∙ memory_pages-none m dir left (suc index) (omega arith) e)

module _ (m : Machine) (r : Recursive m) (small : (x : ℕ) → m.words x < 2 ^ 32) where
  directory_read :
      (dir : ℕ) → dir < 1024 → directory_entry m dir ≡ m.words (directory_phys m + 4 * dir)
  unfolding directory_entry
  directory_read dir h = read_there m (add directory dir) _ (walk-directory m r dir h)

  table_read :
      (dir index : ℕ)
      → dir < 1024
      → index < 1024
      → (m.words (directory_phys m + 4 * dir) % 2 == 1) ≡ true
      → read_volatile m (add (table dir) index) ≡ table_word m (dir * 1024 + index)
  table_read dir index h k e =
      let v = m.words (directory_phys m + 4 * dir) in
      let i : (dir * 1024 + index) % 1024 ≡ index = omega arith in
      let there : has v present ≡ true = has-present v ∙ e in
      read_there m (add (table dir) index) _ (walk-table m r dir index h k there)
      ∙ ap (λ n. m.words (n + 4 * index)) (frame_bits_lem v (small _))
      ∙ ap (λ w. m.words (w / 4096 * 4096 + 4 * index)) (sym (directory_word_lem m dir index k))
      ∙ ap (λ j. m.words (directory_word m (dir * 1024 + index) / 4096 * 4096 + 4 * j)) (sym i)

  table-memory_pages :
      (dir left index : ℕ)
      → dir < 1024
      → index + left ≤ 1024
      → (m.words (directory_phys m + 4 * dir) % 2 == 1) ≡ true
      → table_pages m dir left index ≡ memory_pages m left (dir * 1024 + index)
  unfolding table_pages memory_pages
  table-memory_pages dir zero index h k e = refl
  table-memory_pages dir (suc left) index h k e =
      let n = dir * 1024 + index in
      let v = table_word m n in
      let up : suc n ≡ dir * 1024 + suc index = omega arith in
      let there : (directory_word m n % 2 == 1) ≡ true =
        ap (λ w. w % 2 == 1) (directory_word_lem m dir index (omega arith)) ∙ e in
      let ih =
        table-memory_pages dir left (suc index) h (omega arith) e
        ∙ ap (λ k. memory_pages m left k) (sym up) in
      let q = table_read dir index h (omega arith) e in
      elim (Bool-cases (v % 2 == 1)) [
        | inl shown ↦
            let p : has v present ≡ true = has-present v ∙ shown in
            rw (q, p, memory_pages, there, shown)
              (ap (λ s. s ∷ table_pages m dir left (suc index))
                  (page_lem dir index v h (omega arith) (small _))
                ∙ ap (λ ps. page_of_word n v ∷ ps) ih)
        | inr gone ↦
            let p : has v present ≡ false = has-present v ∙ gone in
            rw (q, p, memory_pages, there, gone) ih
      ]

  directory-memory_pages :
      (left dir : ℕ)
      → dir + left ≤ 1024
      → directory_pages m left dir ≡ memory_pages m (left * 1024) (dir * 1024)
  unfolding directory_pages
  directory-memory_pages zero dir h = unfold memory_pages in refl
  directory-memory_pages (suc left) dir h =
      let v = m.words (directory_phys m + 4 * dir) in
      let many : suc left * 1024 ≡ 1024 + left * 1024 = omega arith in
      let up : dir * 1024 + 1024 ≡ suc dir * 1024 = omega arith in
      let at : dir * 1024 + 0 ≡ dir * 1024 = omega arith in
      let ih = directory-memory_pages left (suc dir) (omega arith) in
      let cut = memory_pages-append m 1024 (left * 1024) (dir * 1024) in
      let whole : memory_pages m (suc left * 1024) (dir * 1024)
          ≡ memory_pages m 1024 (dir * 1024) ++ memory_pages m (left * 1024) (suc dir * 1024) =
        ap (λ n. memory_pages m n (dir * 1024)) many
        ∙ cut
        ∙ ap (λ n. memory_pages m 1024 (dir * 1024) ++ memory_pages m (left * 1024) n) up in
      elim (Bool-cases (v % 2 == 1)) [
        | inl shown ↦
            let p : has (directory_entry m dir) present ≡ true =
              rw (directory_read dir (omega arith)) (has-present v ∙ shown) in
            let t =
              table-memory_pages dir 1024 0 (omega arith) (omega arith) shown
              ∙ ap (λ n. memory_pages m 1024 n) at in
            rw p (
              ap (λ ps. ps ++ directory_pages m left (suc dir)) t
              ∙ ap (λ ps. memory_pages m 1024 (dir * 1024) ++ ps) ih
              ∙ sym whole)
        | inr gone ↦
            let p : has (directory_entry m dir) present ≡ false =
              rw (directory_read dir (omega arith)) (has-present v ∙ gone) in
            let none_there =
              sym (ap (λ n. memory_pages m 1024 n) at)
              ∙ memory_pages-none m dir 1024 0 (omega arith) gone in
            rw p (
              ih
              ∙ sym (
                  whole
                  ∙ ap (λ ps. ps ++ memory_pages m (left * 1024) (suc dir * 1024)) none_there))
      ]

  -- On a machine whose directory is the table of its own entries, the lines that `dump` prints stand for
  -- the pages of the whole address space that are there: each page number whose entry of the directory
  -- and whose entry of the table there have bit 0 is shown once, in order, at 4096 times its number,
  -- with the frame of its entry and the bits 1 and 2 for its rights, and no other page is.
  pub dump-memory_pages : pages_of_all (dump m) ≡ memory_pages m (2 ^ 20) 0
  dump-memory_pages = dump-directory_pages m ∙ directory-memory_pages 1024 0 (omega arith)
