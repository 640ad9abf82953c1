-- ===== src/Paging/Demand.antt =====
-- `handle_fault` of kernel/src/paging.rs on a page of the demand range: what it maps, and what is read there.
pub mod Mapped
pub mod Made
pub mod Outcome
pub mod Fault
use kfs.Base.{
  ℕ, zero, suc, ◌+◌, ◌*◌, ◌/◌, ◌%◌, ◌^◌, ◌≤◌, ◌<◌, ◌≡◌, ◌≢◌, refl, Bool, true, false, ◌&&◌, Option,
  none, some, ltb, leb, ◌==◌, if◌then◌else◌, arith, ◌∙◌, ap, sym, update,
}
use kfs.Paging.{Machine, write_volatile, read_volatile, directory_phys, walk, add, zero_words}
use kfs.Paging.Holds.{shown, walk_there}
use kfs.Paging.Translate.{read_there, write_there}
use kfs.Paging.Owned.Frames.{poke, poke-root}
use kfs.Paging.Owned.Tables.{Zeroed}

-- The page at `page` is the frame `f`, by the table `t`.
pub record PageAt (m : Machine) (page t f : ℕ) : Type 0 where
  pub small : (x : ℕ) → m.words x < 2 ^ 32
  pub table : shown (m.words (directory_phys m + 4 * (page / 2 ^ 22))) ≡ some t
  pub entry : shown (m.words (t + 4 * (page / 2 ^ 12 % 1024))) ≡ some f
  pub root_even : directory_phys m % 4096 ≡ 0
  pub table_even : t % 4096 ≡ 0
  pub frame_even : f % 4096 ≡ 0
  pub not_table : f ≢ t
  pub not_root : f ≢ directory_phys m

module _ (page t f : ℕ) (even : page % 4096 ≡ 0) (low : page + 4096 ≤ 2 ^ 32) where
  pub PageAt-walk :
      (m : Machine) (a : ℕ)
      → PageAt m page t f
      → a / 4096 ≡ page / 4096
      → walk m a ≡ some (f + a % 4096)
  PageAt-walk m a p e =
      let d : a / 2 ^ 22 ≡ page / 2 ^ 22 = omega arith in
      let i : a / 2 ^ 12 % 1024 ≡ page / 2 ^ 12 % 1024 = omega arith in
      walk_there m p.small a t (rw d p.table) ∙ rw (i, p.entry) refl

  word_there :
      (m : Machine) (i : ℕ) → PageAt m page t f → i < 1024 → walk m (add page i) ≡ some (f + 4 * i)
  word_there m i p h = PageAt-walk m (add page i) p (omega arith) ∙ ap (λ n. some n) (omega arith)

  poke-PageAt :
      (m : Machine) (i : ℕ) → PageAt m page t f → i < 1024 → PageAt (poke m (f + 4 * i) 0) page t f
  poke-PageAt m i p h =
      let m' = poke m (f + 4 * i) 0 in
      let r = poke-root m (f + 4 * i) 0 in
      let d : page / 2 ^ 22 < 1024 = omega arith in
      let upper : m'.words (directory_phys m + 4 * (page / 2 ^ 22))
          ≡ m.words (directory_phys m + 4 * (page / 2 ^ 22)) =
        ground (arith, p.frame_even, p.root_even, p.not_root) in
      let lower : m'.words (t + 4 * (page / 2 ^ 12 % 1024))
          ≡ m.words (t + 4 * (page / 2 ^ 12 % 1024)) =
        ground (arith, p.frame_even, p.table_even, p.not_table) in
      record {
        small = λ x. ground (arith, p.small x);
        table = rw (r, upper) p.table;
        entry = rw lower p.entry;
        root_even = rw r p.root_even;
        table_even = p.table_even;
        frame_even = p.frame_even;
        not_table = p.not_table;
        not_root = rw r p.not_root;
      }

  zero_none : (m : Machine) (i : ℕ) → zero_words m page zero i ≡ m
  unfolding zero_words
  zero_none m i = refl

  zero_some :
      (m m' : Machine) (left i : ℕ)
      → write_volatile m (add page i) 0 ≡ m'
      → zero_words m page (suc left) i ≡ zero_words m' page left (suc i)
  unfolding zero_words
  zero_some m m' left i e = rw (e, zero_words)

  -- The page's frame is zeros, and the page stays where it is.
  pub zero_words-PageAt :
      (left i : ℕ) (m : Machine)
      → left + i ≡ 1024
      → PageAt m page t f
      → Zeroed m f i (zero_words m page left i) × PageAt (zero_words m page left i) page t f
  zero_words-PageAt zero i m e p =
      rw (zero_none m i) (record { root = refl; pmm = refl; words = λ x. ground arith }, p)
  zero_words-PageAt (suc left) i m e p =
      let h : i < 1024 = omega arith in
      let m' = poke m (f + 4 * i) 0 in
      let (z, q) = zero_words-PageAt left (suc i) m' (omega arith) (poke-PageAt m i p h) in
      rw (zero_some m m' left i (write_there m _ (f + 4 * i) 0 (word_there m i p h))) (
        record {
          root = z.root ∙ poke-root m (f + 4 * i) 0;
          pmm = z.pmm;
          words = λ x. z.words x ∙ ground (arith, p.frame_even);
        },
        q,
      )
