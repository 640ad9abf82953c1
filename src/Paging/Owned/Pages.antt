-- ===== src/Paging/Owned/Pages.antt =====
-- `get_page`, `map_page` and `unmap_page` of kernel/src/paging.rs by what a heap sees of them.
use kfs.Base.{
  ℕ, ◌+◌, ◌*◌, ◌/◌, ◌^◌, ◌≤◌, ◌<◌, ◌≡◌, refl, true, false, Bool, Option, none, some, arith,
  Option-cases, inl, inr, ◌∙◌, ap, sym, bit_or,
}
use kfs.Mem.{entries}
use kfs.Mem.Spaces.{is_kernel_above}
use kfs.Pmm.{Pmm, alloc_frame}
use kfs.Pmm.Alloc.{TakesLowest, alloc_frame-TakesLowest}
use kfs.Pager.{Keeps}
use kfs.Paging.{
  Machine, write_volatile, directory_phys, get_page, table, add, has, present, directory,
  directory_entry, zero_words, kernel_page, dir_index, table_index,
}
use kfs.Paging.Holds.{lo, hi, shown, table_frame, has-present, table_frame_lem}
use kfs.Paging.Index.{dir_index_lem}
use kfs.Paging.Owned.{Owned, paged, paged_view}
use kfs.Paging.Owned.Frames.{own_frame, took, with_pmm}
use kfs.Paging.Owned.Tables.{directory_there, made-table, made-Keeps}

-- What `get_page` answers for an address of a heap's range.
abbrev pub GetOutcome : Machine → ℕ → Bool → Option ℕ × Machine → Type 0
GetOutcome m a create (some e, m') =
    (e ≡ add (table (a / 2 ^ 22)) (table_index a))
    × (t : ℕ) × (table_frame m' (a / 2 ^ 22) ≡ some t)
    × Keeps paged paged_view m m'
GetOutcome m a create (none, m') =
    Keeps paged paged_view m m' × (create ≡ false → table_frame m (a / 2 ^ 22) ≡ none)

pub Keeps-refl : (m : Machine) → Owned m → Keeps paged paged_view m m
Keeps-refl m k = record { valid = k; frames = λ q. refl; spare = λ g s. s; words = λ b n. refl }

module _ (m : Machine) (k : Owned m) (a : ℕ) (low : lo ≤ a) (high : a < hi) where
  abbrev dir : ℕ
  dir = a / 2 ^ 22

  abbrev entry : ℕ
  entry = add (table (a / 2 ^ 22)) (table_index a)

  directory_word : directory_entry m (dir_index a) ≡ m.words (directory_phys m + 4 * dir)
  directory_word = rw (dir_index_lem a) (directory_there m k dir (omega arith))

  dir_there :
      (t : ℕ) → table_frame m dir ≡ some t → has (directory_entry m (dir_index a)) present ≡ true
  dir_there t e =
      let v = m.words (directory_phys m + 4 * dir) in
      let f = table_frame_lem m dir (omega arith) (omega arith) in
      ground (arith, directory_word, f, has-present v, e)

  dir_gone : table_frame m dir ≡ none → has (directory_entry m (dir_index a)) present ≡ false
  dir_gone e =
      let v = m.words (directory_phys m + 4 * dir) in
      let f = table_frame_lem m dir (omega arith) (omega arith) in
      ground (arith, directory_word, f, has-present v, e)

  get_there : (c : Bool) (t : ℕ) → table_frame m dir ≡ some t → get_page m a c ≡ (some entry, m)
  get_there c t e = unfold get_page in rw (dir_there t e, dir_index_lem a) refl

  get_gone : table_frame m dir ≡ none → get_page m a false ≡ (none, m)
  get_gone e = unfold get_page in rw (dir_gone e) refl

  get_full :
      (s : Pmm)
      → table_frame m dir ≡ none
      → alloc_frame m.pmm ≡ (none, s)
      → get_page m a true ≡ (none, record m { pmm = s })
  get_full s e q =
      unfold get_page in
      rw (dir_gone e, ap (λ (r : Option ℕ × Pmm). r.0) q)
        (ap (λ (r : Option ℕ × Pmm). (none, record m { pmm = r.1 })) q)

  get_made :
      (f : ℕ) (s : Pmm)
      → table_frame m dir ≡ none
      → alloc_frame m.pmm ≡ (some f, s)
      → get_page m a true ≡ (
        some entry,
        zero_words
            (write_volatile (record m { pmm = s }) (add directory dir) (bit_or f kernel_page))
            (table dir)
            entries
            0,
      )
  get_made f s e q =
      unfold get_page in
      rw
        (
          dir_gone e,
          ap (λ (r : Option ℕ × Pmm). r.0) q,
          is_kernel_above a (omega arith),
          dir_index_lem a,
        )
        (ap
          (λ (r : Option ℕ × Pmm). (
            some entry,
            zero_words
                (write_volatile (record m { pmm = r.1 }) (add directory dir) (bit_or f kernel_page))
                (table dir) entries 0,
          ))
          q)

  get_new :
      (r : Option ℕ × Pmm)
      → alloc_frame m.pmm ≡ r
      → TakesLowest m.pmm r
      → table_frame m dir ≡ none
      → GetOutcome m a true (get_page m a true)
  get_new (none, s) q t e = rw (get_full s e q) (took m k (none, s) t, λ c. absurd (cc))
  get_new (some f, s) q (n, at, t, _) e =
      let (spare, j) = own_frame m k f s n at t in
      let m1 : Machine = record m { pmm = s } in
      let gone : table_frame m1 dir ≡ none =
        table_frame_lem m1 dir (omega arith) (omega arith)
        ∙ ap (λ r. shown (m.words (r + 4 * dir))) (with_pmm m k s t.valid).root
        ∙ sym (table_frame_lem m dir (omega arith) (omega arith))
        ∙ e in
      rw (get_made f s e q) (
        refl,
        f,
        made-table m1 j.valid dir f (omega arith) (omega arith) gone spare,
        made-Keeps m1 j.valid dir f (omega arith) (omega arith) gone spare m j
            λ g o same. ground (arith, o.taken, t.was_free, same, at),
      )

  pub get_page-GetOutcome : (c : Bool) → GetOutcome m a c (get_page m a c)
  get_page-GetOutcome c = elim (Option-cases (table_frame m dir)) [
    | inr (t, e) ↦ rw (get_there c t e) (refl, t, e, Keeps-refl m k)
    | inl e ↦ by_create c e
  ]
    where
      by_create : (c : Bool) → table_frame m dir ≡ none → GetOutcome m a c (get_page m a c)
      by_create false e = rw (get_gone e) (Keeps-refl m k, λ _. e)
      by_create true e = get_new (alloc_frame m.pmm) refl (alloc_frame-TakesLowest m.pmm k.frames) e
