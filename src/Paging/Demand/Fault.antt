-- ===== src/Paging/Demand/Fault.antt =====
-- `handle_fault` of kernel/src/paging.rs on every outcome of a fault in the demand range.
use kfs.Base.{
  ℕ, ◌+◌, ◌/◌, ◌%◌, ◌^◌, ◌≤◌, ◌<◌, ◌≡◌, ◌≢◌, refl, true, false, ◌&&◌, Option, none, some, ◌==◌,
  arith, ◌∙◌, ap, sym, ◌⊎◌, inl, inr, Bool-cases, Option-cases,
}
use kfs.Mem.{is_demand, is_kernel}
use kfs.Pmm.{Pmm, alloc_frame, free_frame, free_bit, frame_of}
use kfs.Pmm.Valid.{free_bit-lt}
use kfs.Pmm.Alloc.{Taken, TakesLowest, alloc_frame-TakesLowest, free_bit-free_frame}
use kfs.Paging.{
  Machine, present, user, user_page, oops, directory_phys, has, map_page, map_new, handle_fault,
}
use kfs.Paging.Holds.{shown, walk_there}
use kfs.Paging.Index.{Recursive}
use kfs.Paging.Owned.Entries.{map_mapped}
use kfs.Paging.Demand.Mapped.{
  entry_at, directory_at, Tabled, page, not_kernel, flags, cleared, cleared-PagedIn, new_mapped,
  get_there, fault_runs, new_full,
}
use kfs.Paging.Demand.Made.{
  Bare, made, made-root, made-pmm, made-words, made-Tabled, get_made, get_full,
}
use kfs.Paging.Demand.Outcome.{Missing, Faulted}

module _ (m : Machine) (a : ℕ) (k : Missing m a) (here : is_demand a ≡ true) (error : ℕ)
    (fresh : has error present ≡ false) where
  -- All frames are in use.
  refuses :
      (s : Pmm)
      → alloc_frame m.pmm ≡ (none, s)
      → TakesLowest m.pmm (none, s)
      → Faulted m a (handle_fault m a error)
  refuses s q (same, used) =
      rw (fault_runs a here m error none (record m { pmm = s }) fresh (new_full a here m s q))
        (record {
          scarce = λ g h free _. ground (arith, free, used g);
          free = λ g. ap (λ n. free_bit n g) same;
          words = λ x. refl;
        })

  module _ (f : ℕ) (s : Pmm) (q : alloc_frame m.pmm ≡ (some f, s)) (even : f % 4096 ≡ 0)
      (taken : Taken m.pmm (f / 4096) s) where
    abbrev m1 : Machine
    m1 = record m { pmm = s }

    root1 : directory_phys m1 ≡ directory_phys m
    root1 = unfold directory_phys in refl

    recursive1 : Recursive m1
    recursive1 = record { there = rw root1 k.recursive.there; self = rw root1 k.recursive.self }

    f_low : f < 2 ^ 32
    f_low = let h = free_bit-lt m.pmm (f / 4096) taken.was_free in omega (arith, even)

    f_root : f ≢ directory_phys m
    f_root same = k.root_used (f / 4096) taken.was_free (omega (arith, even, same))

    -- The table is there.
    module _ (t : ℕ) (table : shown (m.words (directory_at m a)) ≡ some t) where
      m1-Tabled : Tabled m1 a t
      m1-Tabled = record {
        small = k.small;
        recursive = recursive1;
        table = rw root1 table;
        entry = elim (Option-cases (shown (m.words (entry_at t a)))) [
          | inl gone ↦ gone
          | inr (g, e) ↦
              absurd (let w = walk_there m k.small a t table in ground (arith, w, e, k.gone))
        ];
        root_even = rw root1 k.root_even;
        table_even = ground (arith, table);
        apart = rw root1 (k.apart t table);
      }

      f_table : f ≢ t
      f_table same = k.table_used (f / 4096) t taken.was_free table (omega (arith, even, same))

      handles : Faulted m a (handle_fault m a error)
      handles =
          let root : f ≢ directory_phys m1 = rw root1 f_root in
          let m' = cleared a here m1 t f m1-Tabled even f_low f_table root in
          let p = cleared-PagedIn a here m1 t f m1-Tabled even f_low f_table root in
          rw
            (fault_runs a here m error (some f) m' fresh (
              new_mapped a here m1 t f m1-Tabled even f_low f_table root m s q
                (get_there a here m1 t m1-Tabled)))
            (
              f,
              record {
                was_free = taken.was_free;
                taken = rw p.pmm (ground (arith, taken.view (f / 4096)));
                less = λ g free.
                    let was : free_bit s g ≡ true = rw (sym p.pmm) free in
                    ground (arith, was, taken.view g);
                reaches = p.reaches;
                zeros = p.zeros;
                others = λ x used ne_dir ne.
                    p.others x
                      (let free = taken.was_free in
                        elim (Bool-cases (f / 4096 == x / 4096)) [
                          | inl inside ↦ ground (arith, inside, used, free)
                          | inr out ↦
                              let ne2 : f / 4096 ≢ x / 4096 = ground (arith, out) in
                              omega (arith, ne2, even)
                        ])
                      (ne t table);
              },
            )

    -- The table is made, at the frame `g`.
    module _ (gone : shown (m.words (directory_at m a)) ≡ none) where
      m1-Bare : Bare m1 a
      m1-Bare = record {
        small = k.small;
        recursive = recursive1;
        root_even = rw root1 k.root_even;
        gone = rw root1 gone;
      }

      module _ (g : ℕ) (s2 : Pmm) (q2 : alloc_frame s ≡ (some g, s2)) (g_even : g % 4096 ≡ 0)
          (g_taken : Taken s (g / 4096) s2) where
        g_free : (free_bit m.pmm (g / 4096) ≡ true) × (f / 4096 ≢ g / 4096)
        g_free = (
          ground (arith, g_taken.was_free, taken.view (g / 4096)),
          ground (arith, g_taken.was_free, taken.view (g / 4096)),
        )

        g_low : g < 2 ^ 32
        g_low = let h = free_bit-lt s (g / 4096) g_taken.was_free in omega (arith, g_even)

        g_root : g ≢ directory_phys m1
        g_root = rw root1 (λ same. k.root_used (g / 4096) g_free.0 (omega (arith, g_even, same)))

        abbrev m2 : Machine
        m2 = made a here m1 m1-Bare g s2 g_even g_low g_root

        m2-Tabled : Tabled m2 a g
        m2-Tabled = made-Tabled a here m1 m1-Bare g s2 g_even g_low g_root

        m2-root : directory_phys m2 ≡ directory_phys m
        m2-root = made-root a here m1 m1-Bare g s2 g_even g_low g_root ∙ root1

        m2-pmm : m2.pmm ≡ s2
        m2-pmm = made-pmm a here m1 m1-Bare g s2 g_even g_low g_root

        out_of :
            (h x : ℕ)
            → h % 4096 ≡ 0
            → free_bit m.pmm (h / 4096) ≡ true
            → free_bit m.pmm (x / 4096) ≡ false
            → (x < h) ⊎ (h + 4096 ≤ x)
        out_of h x e free used = elim (Bool-cases (h / 4096 == x / 4096)) [
          | inl inside ↦ ground (arith, inside, used, free)
          | inr out ↦ let ne : h / 4096 ≢ x / 4096 = ground (arith, out) in omega (arith, ne, e)
        ]

        builds : Faulted m a (handle_fault m a error)
        builds =
            let f_g : f ≢ g = λ same. g_free.1 (ap (λ n. n / 4096) same) in
            let root : f ≢ directory_phys m2 = rw m2-root f_root in
            let m' = cleared a here m2 g f m2-Tabled even f_low f_g root in
            let p = cleared-PagedIn a here m2 g f m2-Tabled even f_low f_g root in
            let gets = get_made a here m1 m1-Bare g s2 g_even g_low g_root q2 in
            let pmm : m'.pmm ≡ s2 = p.pmm ∙ m2-pmm in
            rw
              (fault_runs a here m error (some f) m' fresh
                (new_mapped a here m2 g f m2-Tabled even f_low f_g root m s q gets))
              (
                f,
                record {
                  was_free = taken.was_free;
                  taken = rw pmm (ground (arith, taken.view (f / 4096), g_taken.view (f / 4096)));
                  less = λ h free.
                      let was : free_bit s2 h ≡ true = rw (sym pmm) free in
                      ground (arith, was, taken.view h, g_taken.view h);
                  reaches = p.reaches;
                  zeros = p.zeros;
                  others = λ x used ne_dir ne.
                      let outside = out_of g x g_even g_free.0 used in
                      p.others x (out_of f x even taken.was_free used) (omega (arith, outside))
                      ∙ made-words a here m1 m1-Bare g s2 g_even g_low g_root x outside
                          (rw root1 ne_dir);
                },
              )

      module _ (s2 : Pmm) (q2 : alloc_frame s ≡ (none, s2)) (same : s2 ≡ s)
          (used : (g : ℕ) → free_bit s g ≡ false) where
        map_fails :
            map_page m1 (page a here) f (flags a here) ≡ (false, oops (record m1 { pmm = s2 }))
        map_fails =
            let no : (has (flags a here) user && is_kernel (page a here)) ≡ false =
              rw (not_kernel a here) refl in
            map_mapped m1 (page a here) f (flags a here) no
            ∙ rw (get_full a here m1 m1-Bare s2 q2) refl

        abbrev undone : Machine
        undone = let m2 = oops (record m1 { pmm = s2 }) in record m2 { pmm = free_frame m2.pmm f }

        new_fails : map_new m (page a here) user_page ≡ (none, undone)
        new_fails =
            unfold map_new in
            rw
              (
                ap (λ (r : Option ℕ × Pmm). r.0) q,
                ap (λ (r : Option ℕ × Pmm). r.1) q,
                map_fails,
                map_new,
              )
              refl

        undone-pmm : undone.pmm ≡ free_frame s f
        undone-pmm = unfold oops in ap (λ n. free_frame n f) same

        undone-words : (x : ℕ) → undone.words x ≡ m.words x
        unfolding oops
        undone-words x = refl

        gives_up : Faulted m a (handle_fault m a error)
        gives_up =
            let at : frame_of f ≡ f / 4096 = unfold frame_of in refl in
            let low = free_bit-lt m.pmm (f / 4096) taken.was_free in
            rw (fault_runs a here m error none undone fresh new_fails) (record {
              scarce = λ g h free free2.
                  ground (arith, free, free2, used g, used h, taken.view g, taken.view h);
              free = λ g.
                  ap (λ n. free_bit n g) undone-pmm
                  ∙ free_bit-free_frame s f g
                  ∙ ground (arith, at, low, taken.was_free, taken.view g);
              words = undone-words;
            })

    by_table : Faulted m a (handle_fault m a error)
    by_table = elim (Option-cases (shown (m.words (directory_at m a)))) [
      | inr (t, there) ↦ handles t there
      | inl gone ↦ second gone (alloc_frame s) refl (alloc_frame-TakesLowest s taken.valid)
    ]
      where
        second :
            (gone : shown (m.words (directory_at m a)) ≡ none) (r : Option ℕ × Pmm)
            → alloc_frame s ≡ r
            → TakesLowest s r
            → Faulted m a (handle_fault m a error)
        second gone (none, s2) q2 (same, used) = gives_up gone s2 q2 same used
        second gone (some g, s2) q2 (n, at, took, _) =
            let same : n ≡ g / 4096 = omega arith in
            builds gone g s2 q2 (omega arith) (rw (sym same) took)

  by_frame :
      (r : Option ℕ × Pmm)
      → alloc_frame m.pmm ≡ r
      → TakesLowest m.pmm r
      → Faulted m a (handle_fault m a error)
  by_frame (none, s) q t = refuses s q t
  by_frame (some f, s) q (n, at, took, _) =
      let same : n ≡ f / 4096 = omega arith in by_table f s q (omega arith) (rw (sym same) took)

-- A fault at an address of the demand range where the processor reaches nothing, on a machine
-- whose directory is the table of its own entries and is, like the table of that address, no free frame:
-- the fault is handled, or no two frames are free. When it is handled the address's page is a frame that was
-- free and is no longer, the page reads as zeros, and in the frames in use no word changes but the entries for
-- it. When it is not, memory and the free frames are as they were.
pub handle_fault-Faulted :
    (m : Machine) (a error : ℕ)
    → Missing m a
    → is_demand a ≡ true
    → has error present ≡ false
    → Faulted m a (handle_fault m a error)
handle_fault-Faulted m a error k here fresh =
    by_frame m a k here error fresh (alloc_frame m.pmm) refl
      (alloc_frame-TakesLowest m.pmm k.frames)
