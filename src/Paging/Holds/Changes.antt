-- ===== src/Paging/Holds/Changes.antt =====
-- How the frames that the tables of kernel/src/paging.rs hold change when words of memory do.
use kfs.Base.{
  ℕ, ◌+◌, ◌*◌, ◌/◌, ◌%◌, ◌^◌, ◌≤◌, ◌<◌, ◌≡◌, ◌≢◌, refl, true, false, Option, none, some, ltb, ◌==◌,
  if◌then◌else◌, arith, Bool-cases, inl, inr, ◌∙◌, ap, sym, ◌⊎◌, ==→eq,
}
use kfs.Paging.{Machine, directory_phys}
use kfs.Paging.Holds.{
  lo, hi, shown, table_frame, page_frame, entry_at, is_page, holds, table_frame-even,
  page_frame_lem, table_frame_lem,
}

-- Every frame has one use, and the directory is the table of its own entries.
pub record Apart (m : Machine) : Type 0 where
  pub small : (x : ℕ) → m.words x < 2 ^ 32
  pub self : table_frame m 1023 ≡ some (directory_phys m)
  pub apart : (u v f : ℕ) → holds m u ≡ some f → holds m v ≡ some f → u ≡ v

inside_low : (u : ℕ) → is_page u ≡ true → u / 2 ^ 22 < 1023
inside_low u e = ground arith

module _ (m m' : Machine) (k : Apart m) (same : directory_phys m' ≡ directory_phys m) where
  abbrev root : ℕ
  root = directory_phys m

  root_even : root % 4096 ≡ 0
  root_even = (table_frame-even m k.small 1023 root k.self).0

  table_kept :
      (d : ℕ)
      → d < 1024
      → m'.words (root + 4 * d) ≡ m.words (root + 4 * d)
      → table_frame m' d ≡ table_frame m d
  unfolding table_frame
  table_kept d h e = rw (same, e) refl

  entry_kept :
      (d i : ℕ) (o : Option ℕ)
      → table_frame m d ≡ o
      → ((t : ℕ) → o ≡ some t → m'.words (t + 4 * i) ≡ m.words (t + 4 * i))
      → entry_at m' o i ≡ entry_at m o i
  entry_kept d i none e w = refl
  entry_kept d i (some t) e w = rw (w t refl) refl

  page_kept :
      (q : ℕ)
      → (is_page q ≡ true → table_frame m' (q / 2 ^ 22) ≡ table_frame m (q / 2 ^ 22))
      → (is_page q ≡ true
          → (t : ℕ) → table_frame m (q / 2 ^ 22) ≡ some t
          → m'.words (t + 4 * (q / 2 ^ 12 % 1024)) ≡ m.words (t + 4 * (q / 2 ^ 12 % 1024)))
      → page_frame m' q ≡ page_frame m q
  unfolding page_frame
  page_kept q e w = elim (Bool-cases (is_page q)) [
    | inr out ↦ rw out refl
    | inl inside ↦
        rw (inside, e inside)
          (entry_kept (q / 2 ^ 22) (q / 2 ^ 12 % 1024) (table_frame m (q / 2 ^ 22)) refl (w inside))
  ]

  -- No word changes.
  module _ (words : (x : ℕ) → m'.words x ≡ m.words x) where
    still_table : (d : ℕ) → d < 1024 → table_frame m' d ≡ table_frame m d
    still_table d h = table_kept d h (words (root + 4 * d))

    pub holds-still : (u : ℕ) → holds m' u ≡ holds m u
    holds-still u = elim (Bool-cases (ltb u 1024)) [
      | inl low ↦ rw low (still_table u (ground arith))
      | inr high ↦ rw high (
          page_kept u (λ inside. still_table (u / 2 ^ 22) (ground arith))
            λ inside t e. words (t + 4 * (u / 2 ^ 12 % 1024)))
    ]

  -- Words change in the page `p` only, which is no table.
  module _ (p : ℕ) (even : p % 4096 ≡ 0) (out : (d : ℕ) → d < 1024 → table_frame m d ≢ some p)
      (words : (x : ℕ) → (x < p) ⊎ (p + 4096 ≤ x) → m'.words x ≡ m.words x) where
    outside :
        (t i : ℕ) → t % 4096 ≡ 0 → t ≢ p → i < 1024 → m'.words (t + 4 * i) ≡ m.words (t + 4 * i)
    outside t i e ne h = words (t + 4 * i) (omega arith)

    table_other : (d : ℕ) → d < 1024 → table_frame m' d ≡ table_frame m d
    table_other d h =
        table_kept d h
          (outside root d root_even (λ e. out 1023 (omega arith) (k.self ∙ ap (λ n. some n) e)) h)

    pub holds-other : (u : ℕ) → holds m' u ≡ holds m u
    holds-other u = elim (Bool-cases (ltb u 1024)) [
      | inl low ↦ rw low (table_other u (ground arith))
      | inr high ↦ rw high (
          page_kept u (λ inside. table_other (u / 2 ^ 22) (ground arith))
            λ inside t e.
              outside t (u / 2 ^ 12 % 1024) (table_frame-even m k.small (u / 2 ^ 22) t e).0
                (λ same. out (u / 2 ^ 22) (ground arith) (e ∙ ap (λ n. some n) same)) (omega arith))
    ]

  table_apart :
      (d c f : ℕ)
      → d < 1024
      → c < 1024
      → table_frame m d ≡ some f
      → table_frame m c ≡ some f
      → d ≡ c
  table_apart d c f h l a b = k.apart d c f (ground arith) (ground arith)

  -- The entry `i` of the table `d`, of a heap's address range, changes.
  module _ (d i t : ℕ) (low : lo / 2 ^ 22 ≤ d) (high : d < hi / 2 ^ 22) (below : i < 1024)
      (there : table_frame m d ≡ some t)
      (words : (x : ℕ) → (x == t + 4 * i) ≡ false → m'.words x ≡ m.words x) where
    t_even : t % 4096 ≡ 0
    t_even = (table_frame-even m k.small d t there).0

    other_table :
        (c s j : ℕ)
        → c < 1024
        → j < 1024
        → table_frame m c ≡ some s
        → (c ≢ d) ⊎ (j ≢ i)
        → m'.words (s + 4 * j) ≡ m.words (s + 4 * j)
    other_table c s j h l e (inl ne) =
        let s_even = (table_frame-even m k.small c s e).0 in
        let apart : s ≢ t =
          λ same. ne (table_apart c d t h (omega arith) (e ∙ ap (λ n. some n) same) there) in
        words (s + 4 * j) (ground (arith, s_even, t_even))
    other_table c s j h l e (inr ne) =
        let s_even = (table_frame-even m k.small c s e).0 in
        words (s + 4 * j) (ground (arith, s_even, t_even))

    table_entry : (c : ℕ) → c < 1024 → table_frame m' c ≡ table_frame m c
    table_entry c h =
        table_kept c h (other_table 1023 root c (omega arith) h k.self (inl (omega arith)))

    pub holds-entry :
        (u : ℕ)
        → holds m' u
          ≡ (if u == d * 2 ^ 22 + i * 2 ^ 12 then shown (m'.words (t + 4 * i)) else holds m u)
    holds-entry u = elim (Bool-cases (u == d * 2 ^ 22 + i * 2 ^ 12)) [
      | inl here ↦
          let high_up : ltb u 1024 ≡ false = ground arith in
          let q : u / 2 ^ 22 ≡ d = ground arith in
          let r : u / 2 ^ 12 % 1024 ≡ i = ground arith in
          rw
            (
              here,
              high_up,
              page_frame_lem m' u (ground arith),
              q,
              r,
              table_entry d (omega arith),
              there,
            )
            refl
      | inr other ↦ rw other (elim (Bool-cases (ltb u 1024)) [
        | inl small_one ↦ rw small_one (table_entry u (ground arith))
        | inr large ↦ rw large (
            page_kept u (λ inside. table_entry (u / 2 ^ 22) (ground arith))
              λ inside s e.
                other_table (u / 2 ^ 22) s (u / 2 ^ 12 % 1024) (ground arith) (omega arith) e
                  (elim (Bool-cases (u / 2 ^ 22 == d)) [
                    | inl yes_d ↦ inr (ground arith)
                    | inr no_d ↦ inl (ground arith)
                  ]))
      ])
    ]

  -- A new table `t`, of zeros, in the directory's entry `d`, of a heap's address range.
  module _ (d t : ℕ) (low : lo / 2 ^ 22 ≤ d) (high : d < hi / 2 ^ 22) (even : t % 4096 ≡ 0)
      (gone : table_frame m d ≡ none) (fresh : (c : ℕ) → c < 1024 → table_frame m c ≢ some t)
      (entry : shown (m'.words (root + 4 * d)) ≡ some t)
      (zeros : (i : ℕ) → i < 1024 → m'.words (t + 4 * i) ≡ 0)
      (words : (x : ℕ)
        → (x == root + 4 * d) ≡ false
        → (x < t) ⊎ (t + 4096 ≤ x)
        → m'.words x ≡ m.words x) where
    t_root : t ≢ root
    t_root e = fresh 1023 (omega arith) (k.self ∙ ap (λ n. some n) (sym e))

    old_table : (c : ℕ) → c < 1024 → c ≢ d → table_frame m' c ≡ table_frame m c
    old_table c h ne =
        table_kept c h
          (words (root + 4 * c) (ground (arith, root_even)) (omega (arith, root_even, t_root)))

    new_table : table_frame m' d ≡ some t
    new_table = table_frame_lem m' d low high ∙ rw same entry

    old_entry :
        (c s j : ℕ)
        → c < 1024
        → j < 1024
        → c ≢ d
        → table_frame m c ≡ some s
        → s ≢ root
        → m'.words (s + 4 * j) ≡ m.words (s + 4 * j)
    old_entry c s j h l ne e nr =
        let s_even = (table_frame-even m k.small c s e).0 in
        let s_t : s ≢ t = λ q. fresh c h (e ∙ ap (λ n. some n) q) in
        words (s + 4 * j) (ground (arith, s_even, root_even)) (omega (arith, s_even))

    pub holds-table : (u : ℕ) → holds m' u ≡ (if u == d then some t else holds m u)
    holds-table u = elim (Bool-cases (ltb u 1024)) [
      | inl small_one ↦ elim (Bool-cases (u == d)) [
        | inl here ↦ rw (small_one, here, ==→eq u d here) new_table
        | inr other ↦ rw (small_one, other) (old_table u (ground arith) (ground arith))
      ]
      | inr large ↦
          let ne : (u == d) ≡ false = ground arith in
          rw (large, ne)
            (elim (Bool-cases (is_page u)) [
              | inr out ↦ page_kept u (λ inside. absurd (cc)) (λ inside. absurd (cc))
              | inl inside ↦ elim (Bool-cases (u / 2 ^ 22 == d)) [
                | inl here ↦
                    rw
                      (
                        page_frame_lem m' u inside,
                        page_frame_lem m u inside,
                        ==→eq _ _ here,
                        new_table,
                        gone,
                        zeros (u / 2 ^ 12 % 1024) (omega arith),
                      )
                      refl
                | inr other ↦
                    page_kept u (λ _. old_table (u / 2 ^ 22) (ground arith) (ground arith))
                      λ _ s e.
                        old_entry (u / 2 ^ 22) s (u / 2 ^ 12 % 1024) (ground arith) (omega arith)
                          (ground arith) e
                          (λ q. omega (
                            arith,
                            table_apart (u / 2 ^ 22) 1023 root (ground arith) (omega arith)
                                (e ∙ ap (λ n. some n) q) k.self,
                            inside_low u inside,
                          ))
              ]
            ])
    ]
