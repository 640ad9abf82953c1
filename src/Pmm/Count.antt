-- ===== src/Pmm/Count.antt =====
-- How many numbers below a bound pass a test, and how one change of the test counts.
use kfs.Base.{ℕ, zero, suc, ◌+◌, ◌≤◌, ◌<◌, ◌≡◌, refl, Bool, false, arith, ◌==◌, if◌then◌else◌}

abbrev pub one_if : Bool → ℕ
one_if b = if b then 1 else 0

pub count : (ℕ → Bool) → ℕ → ℕ
count p zero = 0
count p (suc n) = one_if (p n) + count p n

pub count-le : (p : ℕ → Bool) (n : ℕ) → count p n ≤ n
unfolding count
count-le p zero = omega arith
count-le p (suc n) = ground (arith, count-le p n)

-- `q` is `p` with the answer `b` at `f`.
abbrev pub ChangedAt : (ℕ → Bool) → ℕ → Bool → (ℕ → Bool) → Type 0
ChangedAt p f b q = (g : ℕ) → q g ≡ (if f == g then b else p g)

module _ (p q : ℕ → Bool) (f : ℕ) (b : Bool) (changed : ChangedAt p f b q) where
  count_below : (n : ℕ) → n ≤ f → count q n ≡ count p n
  unfolding count
  count_below zero h = refl
  count_below (suc n) h = ground (arith, changed n, count_below n)

  pub count_changed : (n : ℕ) → f < n → count q n + one_if (p f) ≡ count p n + one_if b
  unfolding count
  count_changed zero h = absurd (omega arith)
  count_changed (suc n) h = ground (arith, changed n, count_below n, count_changed n)

pub count-zero : (p : ℕ → Bool) (n : ℕ) → ((g : ℕ) → g < n → p g ≡ false) → count p n ≡ 0
unfolding count
count-zero p zero h = refl
count-zero p (suc n) h = ground (arith, h n, count-zero p n (λ g k. h g (omega arith)))

pub count_ext : (p q : ℕ → Bool) (n : ℕ) → ((g : ℕ) → q g ≡ p g) → count q n ≡ count p n
unfolding count
count_ext p q zero h = refl
count_ext p q (suc n) h = ground (arith, h n, count_ext p q n h)
