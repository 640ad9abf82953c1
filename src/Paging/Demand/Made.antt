-- ===== src/Paging/Demand/Made.antt =====
-- `get_page` of kernel/src/paging.rs on a page of the demand range, when it makes the table.
use kfs.Base.{
  ℕ, ◌+◌, ◌*◌, ◌/◌, ◌%◌, ◌^◌, ◌≤◌, ◌<◌, ◌≡◌, ◌≢◌, refl, true, false, Option, none, some, arith, ◌∙◌,
  ap, bit_or, ◌⊎◌,
}
use kfs.Base.Bits.{bit_or_fields}
use kfs.Mem.{is_demand, entries}
use kfs.Pmm.{Pmm, alloc_frame}
use kfs.Paging.{
  Machine, present, kernel_page, user, write_volatile, directory_phys, add, zero_words, table,
  directory, directory_entry, dir_index, has, get_page,
}
use kfs.Paging.Holds.{shown, has-present}
use kfs.Paging.Index.{Recursive, walk-directory, dir_index_lem}
use kfs.Paging.Translate.{write_there}
use kfs.Paging.Owned.Frames.{poke, poke-root}
use kfs.Paging.Owned.Tables.{Zeroed, Shows, zero_words-Zeroed}
use kfs.Paging.Demand.Mapped.{
  entry_at, directory_at, Tabled, directory_read, in_range, page, not_kernel, entry,
}

-- The entry of the directory that `get_page` writes for user space.
shown-user :
    (f : ℕ)
    → f % 4096 ≡ 0
    → f < 2 ^ 32
    → (shown (bit_or f (bit_or kernel_page user)) ≡ some f)
      × (bit_or f (bit_or kernel_page user) < 2 ^ 32)
shown-user f even low =
    let b : bit_or (f / 4096 * 2 ^ 12) 7 ≡ f / 4096 * 2 ^ 12 + 7 =
      bit_or_fields 12 (f / 4096) 7 (omega arith) in
    let c : f ≡ f / 4096 * 2 ^ 12 = omega arith in
    let d : bit_or f 7 ≡ f + 7 = ap (λ g. bit_or g 7) c ∙ b ∙ omega arith in
    rw d (ground arith, ground arith)

-- The directory is the table of its own entries, and has no table for `a`.
pub record Bare (m : Machine) (a : ℕ) : Type 0 where
  pub small : (x : ℕ) → m.words x < 2 ^ 32
  pub recursive : Recursive m
  pub root_even : directory_phys m % 4096 ≡ 0
  pub gone : shown (m.words (directory_at m a)) ≡ none

module _ (a : ℕ) (here : is_demand a ≡ true) (m : Machine) (bare : Bare m a) where
  abbrev d : ℕ
  d = page a here / 2 ^ 22

  d_lem : d ≡ a / 2 ^ 22
  d_lem = omega arith

  d_high : d < 1023
  d_high = omega (arith, in_range a here)

  pub entry_gone : has (directory_entry m (dir_index (page a here))) present ≡ false
  entry_gone =
      let v = m.words (directory_at m a) in
      let e : directory_entry m (dir_index (page a here)) ≡ v =
        rw (dir_index_lem (page a here), d_lem)
          (directory_read m (a / 2 ^ 22) bare.recursive (omega (arith, in_range a here))) in
      rw e (ground (arith, has-present v, bare.gone))

  pub get_full :
      (s : Pmm)
      → alloc_frame m.pmm ≡ (none, s)
      → get_page m (page a here) true ≡ (none, record m { pmm = s })
  get_full s q =
      unfold get_page in
      rw (entry_gone, ap (λ (r : Option ℕ × Pmm). r.0) q)
        (ap (λ (r : Option ℕ × Pmm). (none, record m { pmm = r.1 })) q)

  -- The new table is the frame `g`.
  module _ (g : ℕ) (s : Pmm) (even : g % 4096 ≡ 0) (low : g < 2 ^ 32)
      (apart : g ≢ directory_phys m) where
    abbrev taken : Machine
    taken = record m { pmm = s }

    abbrev value : ℕ
    value = bit_or g (bit_or kernel_page user)

    abbrev linked : Machine
    linked = poke taken (directory_phys m + 4 * d) value

    abbrev pub made : Machine
    made = zero_words (write_volatile taken (add directory d) value) (table d) entries 0

    taken-root : directory_phys taken ≡ directory_phys m
    taken-root = unfold directory_phys in refl

    taken-Recursive : Recursive taken
    taken-Recursive = record {
      there = rw taken-root bare.recursive.there;
      self = rw taken-root bare.recursive.self;
    }

    linked_lem : write_volatile taken (add directory d) value ≡ linked
    linked_lem = write_there taken (add directory d) (directory_phys m + 4 * d) value (
        walk-directory taken taken-Recursive d (omega (arith, d_high))
        ∙ ap (λ n. some (n + 4 * d)) taken-root)

    linked-root : directory_phys linked ≡ directory_phys m
    linked-root = poke-root taken (directory_phys m + 4 * d) value ∙ taken-root

    linked-Shows : Shows linked d g
    linked-Shows =
        let e = shown-user g even low in
        let h = d_high in
        let kept : linked.words (directory_phys m + 4 * 1023)
            ≡ m.words (directory_phys m + 4 * 1023) =
          ground (arith, h) in
        record {
          small = λ x. ground (arith, bare.small x, e);
          recursive = record {
            there = rw (linked-root, kept) bare.recursive.there;
            self = rw (linked-root, kept) bare.recursive.self;
          };
          shows = rw linked-root (ground (arith, e));
          even = even;
          root_even = rw linked-root bare.root_even;
          apart = rw linked-root apart;
        }

    made-Zeroed : Zeroed linked g 0 made
    made-Zeroed =
        rw linked_lem
          (zero_words-Zeroed d g (omega (arith, d_high)) 1024 0 linked refl linked-Shows)

    pub made-root : directory_phys made ≡ directory_phys m
    made-root = made-Zeroed.root ∙ linked-root

    pub made-pmm : made.pmm ≡ s
    made-pmm = made-Zeroed.pmm

    pub made-words :
        (x : ℕ) → (x < g) ⊎ (g + 4096 ≤ x) → x ≢ directory_at m a → made.words x ≡ m.words x
    made-words x out ne = made-Zeroed.words x ∙ ground (arith, out, ne, d_lem)

    pub made-Tabled : Tabled made a g
    made-Tabled =
        let e = shown-user g even low in
        let h = d_high in
        let upper : made.words (directory_phys m + 4 * (a / 2 ^ 22)) ≡ value =
          made-Zeroed.words (directory_phys m + 4 * (a / 2 ^ 22))
          ∙ ground (arith, bare.root_even, even, apart, d_lem, h) in
        let last : made.words (directory_phys m + 4 * 1023)
            ≡ m.words (directory_phys m + 4 * 1023) =
          made-words (directory_phys m + 4 * 1023) (omega (arith, bare.root_even, even, apart))
            (omega (arith, d_lem, h)) in
        let zeroed : made.words (entry_at g a) ≡ 0 =
          made-Zeroed.words (entry_at g a) ∙ ground (arith, even) in
        record {
          small = λ x. rw (made-Zeroed.words x) (ground (arith, bare.small x, e));
          recursive = record {
            there = rw (made-root, last) bare.recursive.there;
            self = rw (made-root, last) bare.recursive.self;
          };
          table = rw (made-root, upper) e.0;
          entry = rw zeroed refl;
          root_even = rw made-root bare.root_even;
          table_even = even;
          apart = rw made-root apart;
        }

    pub get_made :
        alloc_frame m.pmm ≡ (some g, s)
        → get_page m (page a here) true ≡ (some (entry a here), made)
    get_made q =
        unfold get_page in
        rw
          (
            entry_gone,
            ap (λ (r : Option ℕ × Pmm). r.0) q,
            not_kernel a here,
            dir_index_lem (page a here),
          )
          (ap
            (λ (r : Option ℕ × Pmm). (
              some (entry a here),
              zero_words (write_volatile (record m { pmm = r.1 }) (add directory d) value) (table d)
                  entries 0,
            ))
            q)
