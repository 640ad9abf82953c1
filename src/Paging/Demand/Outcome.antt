-- ===== src/Paging/Demand/Outcome.antt =====
-- What a fault in the demand range finds, and what `handle_fault` of kernel/src/paging.rs makes of it.
use kfs.Base.{ℕ, ◌+◌, ◌*◌, ◌/◌, ◌%◌, ◌^◌, ◌<◌, ◌≡◌, ◌≢◌, Bool, true, false, none, some}
use kfs.Pmm.{free_bit}
use kfs.Pmm.Valid.{IsValid}
use kfs.Paging.{Machine, read_volatile, directory_phys, walk}
use kfs.Paging.Holds.{shown}
use kfs.Paging.Index.{Recursive}
use kfs.Paging.Demand.Mapped.{entry_at, directory_at}

-- The processor reaches nothing at `a`, the directory is the table of its own entries, and neither it
-- nor the table of `a`, if there is one, is a free frame.
pub record Missing (m : Machine) (a : ℕ) : Type 0 where
  pub small : (x : ℕ) → m.words x < 2 ^ 32
  pub recursive : Recursive m
  pub gone : walk m a ≡ none
  pub root_even : directory_phys m % 4096 ≡ 0
  pub apart : (t : ℕ) → shown (m.words (directory_at m a)) ≡ some t → t ≢ directory_phys m
  pub frames : IsValid m.pmm
  pub root_used : (n : ℕ) → free_bit m.pmm n ≡ true → n * 4096 ≢ directory_phys m
  pub table_used :
      (n t : ℕ)
      → free_bit m.pmm n ≡ true
      → shown (m.words (directory_at m a)) ≡ some t
      → n * 4096 ≢ t

-- The page of `a` is the frame `f`, which was free, is no longer, and is zeros. No frame has become
-- free, and in the frames that were in use only the entries for `a` have changed.
pub record Handled (m : Machine) (a f : ℕ) (m' : Machine) : Type 0 where
  pub was_free : free_bit m.pmm (f / 4096) ≡ true
  pub taken : free_bit m'.pmm (f / 4096) ≡ false
  pub less : (g : ℕ) → free_bit m'.pmm g ≡ true → free_bit m.pmm g ≡ true
  pub reaches : (b : ℕ) → b / 4096 ≡ a / 4096 → walk m' b ≡ some (f + b % 4096)
  pub zeros : (b : ℕ) → b / 4096 ≡ a / 4096 → b % 4 ≡ 0 → read_volatile m' b ≡ 0
  pub others :
      (x : ℕ)
      → free_bit m.pmm (x / 4096) ≡ false
      → x ≢ directory_at m a
      → ((t : ℕ) → shown (m.words (directory_at m a)) ≡ some t → x ≢ entry_at t a)
      → m'.words x ≡ m.words x

-- No two frames were free, and the free frames and memory are as they were.
pub record Refused (m m' : Machine) : Type 0 where
  pub scarce : (g h : ℕ) → free_bit m.pmm g ≡ true → free_bit m.pmm h ≡ true → g ≡ h
  pub free : (g : ℕ) → free_bit m'.pmm g ≡ free_bit m.pmm g
  pub words : (x : ℕ) → m'.words x ≡ m.words x

abbrev pub Faulted : Machine → ℕ → Bool × Machine → Type 0
Faulted m a (true, m') = (f : ℕ) × Handled m a f m'
Faulted m a (false, m') = Refused m m'
