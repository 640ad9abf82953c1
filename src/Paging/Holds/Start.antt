-- ===== src/Paging/Holds/Start.antt =====
-- The tables of kernel/src/paging.rs before the first page of a heap is mapped: only the directory
-- has a use.
use kfs.Base.{
  ℕ, ◌+◌, ◌*◌, ◌/◌, ◌%◌, ◌^◌, ◌≤◌, ◌<◌, ◌≡◌, refl, false, ◌&&◌, none, some, ltb, leb, ◌==◌,
  if◌then◌else◌, arith, Bool-cases, inl, inr, ◌∙◌, ap, ==→eq,
}
use kfs.Paging.{Machine, directory_phys}
use kfs.Paging.Holds.{
  lo, hi, shown, table_frame, page_frame, entry_at, is_page, holds, page_frame_lem, table_frame_lem,
  root_frame_lem, page_frame-outside,
}

module _ (m : Machine) (even : directory_phys m % 4096 ≡ 0)
    (self : m.words (directory_phys m + 4 * 1023) ≡ directory_phys m + 3)
    (gone : (d : ℕ)
      → lo / 2 ^ 22 ≤ d
      → d < hi / 2 ^ 22
      → m.words (directory_phys m + 4 * d) ≡ 0) where
  pub start-root : table_frame m 1023 ≡ some (directory_phys m)
  start-root = root_frame_lem m ∙ ap (λ n. shown n) self ∙ ground (arith, even)

  start_gone : (d : ℕ) → lo / 2 ^ 22 ≤ d → d < hi / 2 ^ 22 → table_frame m d ≡ none
  start_gone d a b = table_frame_lem m d a b ∙ ap (λ n. shown n) (gone d a b) ∙ refl

  start_other : (d : ℕ) → (d == 1023) ≡ false → table_frame m d ≡ none
  unfolding table_frame
  start_other d ne = elim (Bool-cases (leb (lo / 2 ^ 22) d && ltb d (hi / 2 ^ 22))) [
    | inl inside ↦ start_gone d (ground arith) (ground arith)
    | inr out ↦ rw (out, ne) refl
  ]

  start_page : (q : ℕ) → page_frame m q ≡ none
  start_page q = elim (Bool-cases (is_page q)) [
    | inl inside ↦
        page_frame_lem m q inside
        ∙ ap (λ o. entry_at m o (q / 2 ^ 12 % 1024))
            (start_gone (q / 2 ^ 22) (ground arith) (ground arith))
    | inr out ↦ page_frame-outside m q out
  ]

  pub holds-start : (u : ℕ) → holds m u ≡ (if u == 1023 then some (directory_phys m) else none)
  holds-start u = elim (Bool-cases (ltb u 1024)) [
    | inl low ↦ elim (Bool-cases (u == 1023)) [
      | inl here ↦ rw (low, here, ==→eq u 1023 here) start-root
      | inr other ↦ rw (low, other) (start_other u other)
    ]
    | inr high ↦ let ne : (u == 1023) ≡ false = ground arith in rw (high, ne) (start_page u)
  ]
