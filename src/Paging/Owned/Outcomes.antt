-- ===== src/Paging/Owned/Outcomes.antt =====
-- `map_page` and `unmap_page` of kernel/src/paging.rs on every outcome, by what a heap sees.
use kfs.Base.{
  ℕ, ◌+◌, ◌*◌, ◌/◌, ◌%◌, ◌^◌, ◌≤◌, ◌<◌, ◌≡◌, refl, true, false, Option, none, some, ◌==◌,
  if◌then◌else◌, arith, Option-cases, Bool-cases, inl, inr, ◌∙◌, ap, sym, subst, bit_and, bit_or,
}
use kfs.Pmm.{free_bit}
use kfs.Pager.{page_of, Keeps, MapOutcome, MapsAt, UnmapOutcome, UnmapsAt}
use kfs.Paging.{Machine, read_volatile, table, add, has, present, frame_bits, oops, table_index}
use kfs.Paging.Holds.{
  lo, hi, holds, page_frame_lem, entry_at, shown, table_frame, page_frame, has-present,
  frame_bits_lem, shown-entry,
}
use kfs.Paging.Owned.{Owned, Spare, paged, paged_view}
use kfs.Paging.Owned.Frames.{poke, page_held, held_even, one_use, oops_Keeps}
use kfs.Paging.Owned.Change.{Change, Change-Owned, Change-Spare, Change-frame}
use kfs.Paging.Owned.Pages.{GetOutcome}
use kfs.Paging.Owned.Entries.{
  mapped, unmapped, entry_Change, entry-read, read-entry, write-entry, page-entry,
}

Keeps-trans :
    (a b c : Machine)
    → Keeps paged paged_view a b
    → Keeps paged paged_view b c
    → Keeps paged paged_view a c
Keeps-trans a b c j l = record {
  valid = l.valid;
  frames = λ q. l.frames q ∙ j.frames q;
  spare = λ g s. l.spare g (j.spare g s);
  words = λ w n. l.words w (n.0, λ e. n.1 (sym (j.frames (page_of w)) ∙ e)) ∙ j.words w n;
}

module _ (m : Machine) (k : Owned m) (at : ℕ) (even : at % 4096 ≡ 0) (low : lo ≤ at)
    (high : at + 4096 ≤ hi) where
  -- The word of a page's entry.
  abbrev word : Machine → ℕ → ℕ
  word m1 t = t + 4 * (at / 2 ^ 12 % 1024)

  abbrev entry : ℕ
  entry = add (table (at / 2 ^ 22)) (table_index at)

  absent_none :
      (m1 : Machine) (k1 : Owned m1) (t : ℕ)
      → table_frame m1 (at / 2 ^ 22) ≡ some t
      → has (read_volatile m1 entry) present ≡ false
      → page_frame m1 at ≡ none
  absent_none m1 k1 t there e =
      let v = m1.words (word m1 t) in
      let r = read-entry m1 k1 at t even low high there in
      let h : (v % 2 == 1) ≡ false = sym (has-present v) ∙ ap (λ n. has n present) (sym r) ∙ e in
      page-entry m1 k1 at t even low high there ∙ ground (arith, h)

  there_some :
      (m1 : Machine) (k1 : Owned m1) (t : ℕ)
      → table_frame m1 (at / 2 ^ 22) ≡ some t
      → has (read_volatile m1 entry) present ≡ true
      → page_frame m1 at ≡ some (bit_and (read_volatile m1 entry) frame_bits)
  there_some m1 k1 t there e =
      let v = m1.words (word m1 t) in
      let r = read-entry m1 k1 at t even low high there in
      let h : (v % 2 == 1) ≡ true = sym (has-present v) ∙ ap (λ n. has n present) (sym r) ∙ e in
      let f : bit_and (read_volatile m1 entry) frame_bits ≡ v / 4096 * 4096 =
        ap (λ n. bit_and n frame_bits) r ∙ frame_bits_lem v (k1.tables.small _) in
      page-entry m1 k1 at t even low high there ∙ ground (arith, h, f)

  maps_entry :
      (m1 : Machine) (t f flags : ℕ)
      → Spare m f
      → flags < 4096
      → Keeps paged paged_view m m1
      → table_frame m1 (at / 2 ^ 22) ≡ some t
      → has (read_volatile m1 entry) present ≡ false
      → MapsAt paged paged_view m at f
          (poke m1 (word m1 t) (bit_or (bit_or (bit_and f frame_bits) flags) present))
  maps_entry m1 t f flags s small j there e =
      let v = bit_or (bit_or (bit_and f frame_bits) flags) present in
      let shows = shown-entry f flags s.even s.low small in
      let m' = poke m1 (word m1 t) v in
      let c : Change m1 at (shown v) m' =
        entry_Change m1 j.valid at t even low high there v shows.1
          (λ g q. j.spare g (subst (Spare m) (ground (arith, q, shows)) s)) in
      let none_at : page_frame m at ≡ none = sym (j.frames at) ∙ absent_none m1 j.valid t there e in
      record {
        was_none = none_at;
        valid = Change-Owned m1 m' at (shown v) j.valid c;
        frames = λ q.
            Change-frame m1 m' at (shown v) j.valid c (omega arith) q
            ∙ ap (λ o. if at == q then o else page_frame m1 q) shows.0
            ∙ ap (λ o. if at == q then some f else o) (j.frames q);
        spare = λ g n ne.
            Change-Spare m1 m' at (shown v) j.valid c g (j.spare g n)
              (λ same. ne (ground (arith, same, shows.0)));
        words = λ b n. elim (Option-cases (page_frame m1 (page_of b))) [
          | inl gone ↦ absurd (n.1 (sym (j.frames (page_of b)) ∙ gone))
          | inr (g, r) ↦
              entry-read m1 j.valid at t even low high there v c b g r
                (λ same. n.1 (ap (λ q. page_frame m q) same ∙ none_at))
              ∙ j.words b n
        ];
      }

  -- The frame of a page that is unmapped is the caller's.
  freed :
      (m1 : Machine) (k1 : Owned m1) (f : ℕ) (m' : Machine)
      → Change m1 at none m'
      → page_frame m1 at ≡ some f
      → Spare m' f
  freed m1 k1 f m' c e =
      let held = page_held m1 k1 at f e in
      let p = held_even m1 k1 at f held in
      record {
        even = p.0;
        low = p.1;
        taken = elim (Bool-cases (free_bit m'.pmm (f / 4096))) [
          | inr taken ↦ taken
          | inl free ↦ absurd (
              k1.unused (f / 4096) at (rw (sym c.pmm) free)
                (held ∙ ap (λ n. some n) (let q : f ≡ f / 4096 * 4096 = omega (arith, p) in q)))
        ];
        unheld = λ u h. elim (Bool-cases (u == at)) [
          | inl here ↦ ground (arith, h, c.held u)
          | inr other ↦
              let o : holds m1 u ≡ some f =
                ap (λ t. if t then none else holds m1 u) (sym other) ∙ sym (c.held u) ∙ h in
              ground (arith, one_use m1 k1 u at f o held)
        ];
      }

  unmaps_entry :
      (m1 : Machine) (t : ℕ)
      → Keeps paged paged_view m m1
      → table_frame m1 (at / 2 ^ 22) ≡ some t
      → has (read_volatile m1 entry) present ≡ true
      → UnmapsAt paged paged_view m at
          (bit_and (read_volatile m1 entry) frame_bits)
          (poke m1 (word m1 t) 0)
  unmaps_entry m1 t j there e =
      let m' = poke m1 (word m1 t) 0 in
      let f = bit_and (read_volatile m1 entry) frame_bits in
      let was = there_some m1 j.valid t there e in
      let c : Change m1 at none m' =
        entry_Change m1 j.valid at t even low high there 0 (omega arith) (λ g q. absurd (cc)) in
      record {
        was_some = sym (j.frames at) ∙ was;
        valid = Change-Owned m1 m' at none j.valid c;
        frames = λ q.
            Change-frame m1 m' at none j.valid c (omega arith) q
            ∙ ap (λ o. if at == q then none else o) (j.frames q);
        spare = λ g n. Change-Spare m1 m' at none j.valid c g (j.spare g n) (λ same. absurd (cc));
        fresh = freed m1 j.valid f m' c was;
        words = λ b n ne. elim (Option-cases (page_frame m1 (page_of b))) [
          | inl gone ↦ absurd (n.1 (sym (j.frames (page_of b)) ∙ gone))
          | inr (g, r) ↦ entry-read m1 j.valid at t even low high there 0 c b g r ne ∙ j.words b n
        ];
      }

  pub mapped-MapOutcome :
      (f flags : ℕ)
      → Spare m f
      → flags < 4096
      → (r : Option ℕ × Machine) → GetOutcome m at true r
      → MapOutcome paged paged_view m at f (mapped f flags r)
  mapped-MapOutcome f flags s small (none, m1) (j, _) =
      Keeps-trans m m1 (oops m1) j (oops_Keeps m1 j.valid)
  mapped-MapOutcome f flags s small (some e, m1) (q, t, there, j) =
      elim (Bool-cases (has (read_volatile m1 entry) present)) [
        | inl present_one ↦
            rw (q, present_one) (Keeps-trans m m1 (oops m1) j (oops_Keeps m1 j.valid))
        | inr absent ↦
            rw (q, absent, write-entry m1 j.valid at t even low high there _)
              (maps_entry m1 t f flags s small j there absent)
      ]

  pub unmapped-UnmapOutcome :
      (r : Option ℕ × Machine)
      → GetOutcome m at false r
      → UnmapOutcome paged paged_view m at (unmapped r)
  unmapped-UnmapOutcome (none, m1) (j, gone) = (
    page_frame_lem m at (ground arith) ∙ ap (λ o. entry_at m o (at / 2 ^ 12 % 1024)) (gone refl),
    j,
  )
  unmapped-UnmapOutcome (some e, m1) (q, t, there, j) =
      elim (Bool-cases (has (read_volatile m1 entry) present)) [
        | inl present_one ↦
            rw (q, present_one, write-entry m1 j.valid at t even low high there 0)
              (unmaps_entry m1 t j there present_one)
        | inr absent ↦ rw (q, absent) (sym (j.frames at) ∙ absent_none m1 j.valid t there absent, j)
      ]
