-- ===== src/Paging/Owned/Tables.antt =====
-- `get_page` of kernel/src/paging.rs, which makes a table where there is none: what a heap sees of it.
use kfs.Base.{
  ℕ, zero, suc, ◌+◌, ◌*◌, ◌/◌, ◌%◌, ◌^◌, ◌≤◌, ◌<◌, ◌≡◌, ◌≢◌, refl, false, none, some, ltb, leb,
  ◌&&◌, ◌==◌, if◌then◌else◌, arith, Option-cases, inl, inr, ◌∙◌, ap, sym, subst, bit_and, bit_or,
  ◌⊎◌,
}
use kfs.Mem.{entries}
use kfs.Pager.{page_of, Keeps}
use kfs.Paging.{
  Machine, read_volatile, write_volatile, directory_phys, walk, table, add, frame_bits, directory,
  directory_entry, zero_words, kernel_page,
}
use kfs.Paging.Holds.{
  lo, hi, shown, table_frame, page_frame, has-present, frame_bits_lem, shown-table, table_frame_lem,
  page_frame-inside,
}
use kfs.Paging.Holds.Changes.{holds-table}
use kfs.Paging.Index.{Recursive, walk-directory, walk-table}
use kfs.Paging.Translate.{read_there, write_there}
use kfs.Paging.Owned.{Owned, Spare, paged, paged_view, Owned-Recursive}
use kfs.Paging.Owned.Frames.{poke, poke-root, held_even, one_use, page_held}
use kfs.Paging.Owned.Change.{Change, Change-Owned, Change-Spare, Change-frame_low, Change-read}

-- The words of a table, from the entry `i` on, are zeros, and nothing else changes.
pub record Zeroed (m : Machine) (t i : ℕ) (m' : Machine) : Type 0 where
  pub root : directory_phys m' ≡ directory_phys m
  pub pmm : m'.pmm ≡ m.pmm
  pub words :
      (x : ℕ)
      → m'.words x
        ≡ (if leb (t + 4 * i) x && (ltb x (t + 4096) && x % 4 == 0) then 0 else m.words x)

-- A table `t` that the directory's entry `d` shows, and which is not the directory.
pub record Shows (m : Machine) (d t : ℕ) : Type 0 where
  pub small : (x : ℕ) → m.words x < 2 ^ 32
  pub recursive : Recursive m
  pub shows : shown (m.words (directory_phys m + 4 * d)) ≡ some t
  pub even : t % 4096 ≡ 0
  pub root_even : directory_phys m % 4096 ≡ 0
  pub apart : t ≢ directory_phys m

module _ (d t : ℕ) (high : d < 1024) where
  -- The word of the entry `i` of the table, through the directory's entry for itself.
  pub entry_there :
      (m : Machine) (i : ℕ)
      → ((x : ℕ) → m.words x < 2 ^ 32)
      → Recursive m
      → shown (m.words (directory_phys m + 4 * d)) ≡ some t
      → i < 1024
      → walk m (add (table d) i) ≡ some (t + 4 * i)
  entry_there m i small r e h =
      let v = m.words (directory_phys m + 4 * d) in
      let f : bit_and v frame_bits ≡ t = frame_bits_lem v (small _) ∙ ground arith in
      walk-table m r d i high h (ground (arith, has-present v)) ∙ ap (λ n. some (n + 4 * i)) f

  cleared :
      (m : Machine) (i : ℕ)
      → Shows m d t
      → i < 1024
      → write_volatile m (add (table d) i) 0 ≡ poke m (t + 4 * i) 0
  cleared m i s h = write_there m _ (t + 4 * i) 0 (entry_there m i s.small s.recursive s.shows h)

  poke-Shows : (m : Machine) (i : ℕ) → Shows m d t → i < 1024 → Shows (poke m (t + 4 * i) 0) d t
  poke-Shows m i s h =
      let m' = poke m (t + 4 * i) 0 in
      let kept : (c : ℕ)
          → c < 1024
          → m'.words (directory_phys m + 4 * c) ≡ m.words (directory_phys m + 4 * c) =
        λ c l. ground (arith, s.even, s.root_even, s.apart) in
      let r = poke-root m (t + 4 * i) 0 in
      record {
        small = λ x. ground (arith, s.small x);
        recursive = record {
          there = rw (r, kept 1023 (omega arith)) s.recursive.there;
          self = rw (r, kept 1023 (omega arith)) s.recursive.self;
        };
        shows = rw (r, kept d high) s.shows;
        even = s.even;
        root_even = rw r s.root_even;
        apart = rw r s.apart;
      }

  zero_none : (m : Machine) (i : ℕ) → zero_words m (table d) zero i ≡ m
  unfolding zero_words
  zero_none m i = refl

  zero_some :
      (m m' : Machine) (left i : ℕ)
      → write_volatile m (add (table d) i) 0 ≡ m'
      → zero_words m (table d) (suc left) i ≡ zero_words m' (table d) left (suc i)
  unfolding zero_words
  zero_some m m' left i e = rw (e, zero_words)

  pub zero_words-Zeroed :
      (left i : ℕ) (m : Machine)
      → left + i ≡ 1024
      → Shows m d t
      → Zeroed m t i (zero_words m (table d) left i)
  zero_words-Zeroed zero i m e s =
      rw (zero_none m i) (record { root = refl; pmm = refl; words = λ x. ground arith })
  zero_words-Zeroed (suc left) i m e s =
      let h : i < 1024 = omega arith in
      let m' = poke m (t + 4 * i) 0 in
      let z = zero_words-Zeroed left (suc i) m' (omega arith) (poke-Shows m i s h) in
      rw (zero_some m m' left i (cleared m i s h)) (record {
        root = z.root ∙ poke-root m (t + 4 * i) 0;
        pmm = z.pmm;
        words = λ x. z.words x ∙ ground (arith, s.even);
      })

pub directory_there :
    (m : Machine) (k : Owned m) (d : ℕ)
    → d < 1024
    → directory_entry m d ≡ m.words (directory_phys m + 4 * d)
directory_there m k d h =
    unfold directory_entry in
    read_there m (add directory d) _ (walk-directory m (Owned-Recursive m k) d h)

-- The directory gets a new table at the spare frame `t`.
module _ (m : Machine) (k : Owned m) (d t : ℕ) (low : lo / 2 ^ 22 ≤ d) (high : d < hi / 2 ^ 22)
    (gone : table_frame m d ≡ none) (s : Spare m t) where
  abbrev root : ℕ
  root = directory_phys m

  abbrev value : ℕ
  value = bit_or t kernel_page

  abbrev linked : Machine
  linked = poke m (root + 4 * d) value

  abbrev made : Machine
  made = zero_words (write_volatile m (add directory d) value) (table d) entries 0

  linked_lem : write_volatile m (add directory d) value ≡ linked
  linked_lem =
      write_there m (add directory d) (root + 4 * d) value
        (walk-directory m (Owned-Recursive m k) d (omega arith))

  root_even : root % 4096 ≡ 0
  root_even = (held_even m k 1023 root k.tables.self).0

  linked-Shows : Shows linked d t
  linked-Shows =
      let r = Owned-Recursive m k in
      let q = poke-root m (root + 4 * d) value in
      let e = shown-table t s.even s.low in
      let kept : linked.words (root + 4 * 1023) ≡ m.words (root + 4 * 1023) = ground arith in
      record {
        small = λ x. ground (arith, k.tables.small x, e);
        recursive = record { there = rw (q, kept) r.there; self = rw (q, kept) r.self };
        shows = rw q (ground (arith, e));
        even = s.even;
        root_even = rw q root_even;
        apart = λ same. s.unheld 1023 (k.tables.self ∙ ap (λ n. some n) (sym (same ∙ q)));
      }

  made-Zeroed : Zeroed linked t 0 made
  made-Zeroed = rw linked_lem (zero_words-Zeroed d t (omega arith) 1024 0 linked refl linked-Shows)

  made-root : directory_phys made ≡ root
  made-root = made-Zeroed.root ∙ poke-root m (root + 4 * d) value

  t_root : t ≢ root
  t_root e = s.unheld 1023 (k.tables.self ∙ ap (λ n. some n) (sym e))

  made-entry : shown (made.words (root + 4 * d)) ≡ some t
  made-entry =
      let e = shown-table t s.even s.low in
      let w : made.words (root + 4 * d) ≡ value =
        made-Zeroed.words (root + 4 * d) ∙ ground (arith, root_even, s.even, t_root) in
      rw w e.0

  made-other :
      (x : ℕ) → (x == root + 4 * d) ≡ false → (x < t) ⊎ (t + 4096 ≤ x) → made.words x ≡ m.words x
  made-other x ne out = made-Zeroed.words x ∙ ground (arith, ne, out)

  made-Change : Change m d (some t) made
  made-Change = record {
    small = λ x.
        rw (made-Zeroed.words x) (ground (arith, k.tables.small x, shown-table t s.even s.low));
    root = made-root;
    pmm = made-Zeroed.pmm;
    held =
        holds-table m made k.tables made-root d t low high s.even gone
          (λ c h e. s.unheld c (ground arith)) made-entry
          (λ i h. made-Zeroed.words (t + 4 * i) ∙ ground (arith, s.even)) made-other;
    spare = λ f e. subst (Spare m) (ground (arith, e)) s;
    not_root = omega arith;
  }

  made-read :
      (b g : ℕ) → page_frame m (page_of b) ≡ some g → read_volatile made b ≡ read_volatile m b
  made-read b g e =
      let held = page_held m k (page_of b) g e in
      let even = held_even m k (page_of b) g held in
      let inside = page_frame-inside m (page_of b) g e in
      let ne_t : g ≢ t = λ same. s.unheld (page_of b) (held ∙ ap (λ n. some n) same) in
      let ne_root : g ≢ root = λ same. ground (
        arith,
        inside,
        one_use m k (page_of b) 1023 g held (k.tables.self ∙ ap (λ n. some n) (sym same)),
      ) in
      Change-read m made d (some t) k made-Change b g e (ground (arith, inside)) (
        made-other (g + b % 4096) (ground (arith, even, root_even, ne_root))
          (omega (arith, even, s.even, ne_t)))

  pub made-Owned : Owned made
  made-Owned = Change-Owned m made d (some t) k made-Change

  pub made-table : table_frame made d ≡ some t
  made-table = table_frame_lem made d low high ∙ rw made-root made-entry

  -- The new table leaves all the rest to see as it was, and takes the frame `t`.
  pub made-Keeps :
      (m0 : Machine)
      → Keeps paged paged_view m0 m
      → ((g : ℕ) → Spare m0 g → g ≢ t)
      → Keeps paged paged_view m0 made
  made-Keeps m0 j taken = record {
    valid = made-Owned;
    frames = λ q. Change-frame_low m made d (some t) k made-Change (omega arith) q ∙ j.frames q;
    spare = λ g n.
        Change-Spare m made d (some t) k made-Change g (j.spare g n)
          (λ same. taken g n (ground (arith, same)));
    words = λ b n. elim (Option-cases (page_frame m (page_of b))) [
      | inl gone ↦ absurd (n.1 (sym (j.frames (page_of b)) ∙ gone))
      | inr (g, e) ↦ made-read b g e ∙ j.words b n
    ];
  }
