-- ===== src/Paging/Demand/Mapped.antt =====
-- `map_new` of kernel/src/paging.rs on a page of the demand range, once its table is there.
use kfs.Base.{
  ℕ, ◌+◌, ◌*◌, ◌/◌, ◌%◌, ◌^◌, ◌≤◌, ◌<◌, ◌≡◌, ◌≢◌, refl, true, false, ◌&&◌, Option, none, some,
  arith, ◌∙◌, ap, bit_and, bit_or, ◌⊎◌,
}
use kfs.Mem.{is_demand, is_kernel, page_of, demand_base, demand_end}
use kfs.Mem.Spaces.{page_of_lem, is_demand-user, is_demand-range, range-is_demand}
use kfs.Pmm.{Pmm, alloc_frame}
use kfs.Paging.{
  Machine, present, writable, user, user_page, frame_bits, read_volatile, directory_phys, walk, add,
  zero_words, table, directory, directory_entry, dir_index, table_index, has, get_page, map_page,
  map_new, handle_fault,
}
use kfs.Paging.Holds.{shown, shown-entry, has-present}
use kfs.Paging.Index.{Recursive, walk-directory, dir_index_lem, table_index_lem}
use kfs.Paging.Translate.{read_there, write_there}
use kfs.Paging.Owned.Frames.{poke, poke-root}
use kfs.Paging.Owned.Tables.{entry_there}
use kfs.Paging.Owned.Entries.{map_mapped}
use kfs.Paging.Demand.{PageAt, PageAt-walk, zero_words-PageAt}

-- The entry of the page of `a` in the table at `t`.
abbrev pub entry_at : ℕ → ℕ → ℕ
entry_at t a = t + 4 * (a / 2 ^ 12 % 1024)

-- The entry of the directory for `a`.
abbrev pub directory_at : Machine → ℕ → ℕ
directory_at m a = directory_phys m + 4 * (a / 2 ^ 22)

-- The directory is the table of its own entries, and `t` is a table of it in which the page of `a` is
-- not there.
pub record Tabled (m : Machine) (a t : ℕ) : Type 0 where
  pub small : (x : ℕ) → m.words x < 2 ^ 32
  pub recursive : Recursive m
  pub table : shown (m.words (directory_at m a)) ≡ some t
  pub entry : shown (m.words (entry_at t a)) ≡ none
  pub root_even : directory_phys m % 4096 ≡ 0
  pub table_even : t % 4096 ≡ 0
  pub apart : t ≢ directory_phys m

-- The page of `a` is the frame `f`, which is zeros, and only its entry has changed else.
pub record PagedIn (m : Machine) (a t f : ℕ) (m' : Machine) : Type 0 where
  pub pmm : m'.pmm ≡ m.pmm
  pub reaches : (b : ℕ) → b / 4096 ≡ a / 4096 → walk m' b ≡ some (f + b % 4096)
  pub zeros : (b : ℕ) → b / 4096 ≡ a / 4096 → b % 4 ≡ 0 → read_volatile m' b ≡ 0
  pub others : (x : ℕ) → (x < f) ⊎ (f + 4096 ≤ x) → x ≢ entry_at t a → m'.words x ≡ m.words x

-- The address of a word of the directory, read through its entry for itself.
pub directory_read :
    (m : Machine) (d : ℕ)
    → Recursive m
    → d < 1024
    → directory_entry m d ≡ m.words (directory_phys m + 4 * d)
directory_read m d r h =
    unfold directory_entry in read_there m (add directory d) _ (walk-directory m r d h)

module _ (a : ℕ) (here : is_demand a ≡ true) where
  pub in_range : (demand_base ≤ a) × (a < demand_end)
  in_range = is_demand-range a here

  abbrev pub page : ℕ
  page = a / 4096 * 4096

  pub page_lem : page_of a ≡ page
  page_lem = page_of_lem a (omega (arith, in_range))

  pub again : page_of page ≡ page
  again = page_of_lem page (omega (arith, in_range)) ∙ omega arith

  pub not_kernel : is_kernel page ≡ false
  not_kernel =
      is_demand-user page (range-is_demand page (omega (arith, in_range)) (omega (arith, in_range)))

  abbrev pub flags : ℕ
  flags = bit_or user_page writable

  abbrev pub entry : ℕ
  entry = add (table (page / 2 ^ 22)) (table_index page)

  -- `map_new` once `get_page` has found the table `t`.
  module _ (m : Machine) (t f : ℕ) (k : Tabled m a t) (even : f % 4096 ≡ 0) (low : f < 2 ^ 32)
      (not_table : f ≢ t) (not_root : f ≢ directory_phys m) where
    abbrev value : ℕ
    value = bit_or (bit_or (bit_and f frame_bits) flags) present

    abbrev pub linked : Machine
    linked = poke m (entry_at t a) value

    entry_walk : walk m entry ≡ some (entry_at t a)
    entry_walk =
        let d : page / 2 ^ 22 ≡ a / 2 ^ 22 = omega arith in
        let i : table_index page ≡ a / 2 ^ 12 % 1024 = table_index_lem page ∙ omega arith in
        rw (d, i)
          (entry_there (a / 2 ^ 22) t (omega (arith, in_range)) m (a / 2 ^ 12 % 1024) k.small
            k.recursive k.table (omega arith))

    absent : has (read_volatile m entry) present ≡ false
    absent =
        let v = m.words (entry_at t a) in
        rw (read_there m entry (entry_at t a) entry_walk) (ground (arith, has-present v, k.entry))

    pub maps :
        (m0 : Machine)
        → get_page m0 page true ≡ (some entry, m)
        → map_page m0 page f flags ≡ (true, linked)
    maps m0 gets =
        let no : (has flags user && is_kernel page) ≡ false = rw not_kernel refl in
        map_mapped m0 page f flags no
        ∙ rw (gets, absent, write_there m entry (entry_at t a) value entry_walk) refl

    linked-PageAt : PageAt linked page t f
    linked-PageAt =
        let shows = shown-entry f flags even low (omega arith) in
        let r : directory_phys linked ≡ directory_phys m = poke-root m (entry_at t a) value in
        let d : page / 2 ^ 22 ≡ a / 2 ^ 22 = omega arith in
        let i : page / 2 ^ 12 % 1024 ≡ a / 2 ^ 12 % 1024 = omega arith in
        let upper : linked.words (directory_at m a) ≡ m.words (directory_at m a) =
          let inside = in_range in ground (arith, k.table_even, k.root_even, k.apart) in
        let lower : linked.words (entry_at t a) ≡ value = ground arith in
        record {
          small = λ x. ground (arith, k.small x, shows);
          table = rw (r, d, upper) k.table;
          entry = rw (i, lower) shows.0;
          root_even = rw r k.root_even;
          table_even = k.table_even;
          frame_even = even;
          not_table = not_table;
          not_root = rw r not_root;
        }

    abbrev pub cleared : Machine
    cleared = zero_words linked page 1024 0

    pub cleared-PagedIn : PagedIn m a t f cleared
    cleared-PagedIn =
        let (z, p) =
          zero_words-PageAt page t f (omega arith) (omega (arith, in_range)) 1024 0 linked refl
            linked-PageAt in
        let there : (b : ℕ) → b / 4096 ≡ a / 4096 → walk cleared b ≡ some (f + b % 4096) = λ b e.
          PageAt-walk page t f (omega arith) (omega (arith, in_range)) cleared b p (omega arith) in
        record {
          pmm = z.pmm;
          reaches = there;
          zeros = λ b e four.
              read_there cleared b (f + b % 4096) (there b e)
              ∙ z.words (f + b % 4096)
              ∙ ground (arith, even);
          others = λ x out ne. z.words x ∙ ground (arith, out, ne);
        }

    pub new_mapped :
        (m0 : Machine) (s : Pmm)
        → alloc_frame m0.pmm ≡ (some f, s)
        → get_page (record m0 { pmm = s }) page true ≡ (some entry, m)
        → map_new m0 page user_page ≡ (some f, cleared)
    new_mapped m0 s q gets =
        unfold map_new in
        rw
          (
            ap (λ (r : Option ℕ × Pmm). r.0) q,
            ap (λ (r : Option ℕ × Pmm). r.1) q,
            maps (record m0 { pmm = s }) gets,
            again,
            map_new,
          )
          refl

  pub get_there : (m : Machine) (t : ℕ) → Tabled m a t → get_page m page true ≡ (some entry, m)
  get_there m t k =
      let d : page / 2 ^ 22 ≡ a / 2 ^ 22 = omega arith in
      let v = m.words (directory_at m a) in
      let e : directory_entry m (dir_index page) ≡ v =
        rw (dir_index_lem page, d)
          (directory_read m (a / 2 ^ 22) k.recursive (omega (arith, in_range))) in
      let p : has v present ≡ true = ground (arith, has-present v, k.table) in
      unfold get_page in rw (e, p, dir_index_lem page) refl

  pub fault_runs :
      (m : Machine) (error : ℕ) (got : Option ℕ) (m' : Machine)
      → has error present ≡ false
      → map_new m page user_page ≡ (got, m')
      → handle_fault m a error ≡ (elim got [ some frame ↦ true | none ↦ false ], m')
  fault_runs m error got m' e q =
      unfold handle_fault in
      rw
        (
          e,
          here,
          page_lem,
          ap (λ (r : Option ℕ × Machine). r.0) q,
          ap (λ (r : Option ℕ × Machine). r.1) q,
        )
        refl

  pub new_full :
      (m : Machine) (s : Pmm)
      → alloc_frame m.pmm ≡ (none, s)
      → map_new m page user_page ≡ (none, record m { pmm = s })
  new_full m s q =
      unfold map_new in
      rw (ap (λ (r : Option ℕ × Pmm). r.0) q, map_new)
        (ap (λ (r : Option ℕ × Pmm). (none, record m { pmm = r.1 })) q)
