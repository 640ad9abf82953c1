-- ===== src/Klib/Decimal.antt =====
-- `utoa` and `parse_u32` of kernel/src/klib.rs undo each other.
use kfs.Base.{
  ℕ, zero, suc, ◌+◌, ◌-◌, ◌*◌, ◌/◌, ◌%◌, ◌^◌, ◌≤◌, ◌<◌, ◌≡◌, refl, true, false, ◌&&◌, ◌||◌, some,
  List, [], ◌∷◌, ◌++◌, leb, ◌==◌, update, arith, Bool-cases, inl, inr, ◌∙◌, sym, ap,
}
use mathlib.Core.List.{append-nil}
use Prim.{Unit, tt}
use kfs.Klib.{
  utoa_loop, utoa, slice, is_space, trim_start, trim_end, trim, split_radix, digit_of, checked,
  parse_loop, parse_u32,
}

-- The last byte of a slice, split off.
slice-snoc :
    (buf : ℕ → ℕ) (i left : ℕ) (rest : List ℕ)
    → slice buf i (suc left) ++ rest ≡ slice buf i left ++ (buf (i + left) ∷ rest)
unfolding slice
slice-snoc buf i zero rest = let q : i + 0 ≡ i = omega arith in rw q refl
slice-snoc buf i (suc left) rest =
    let q : suc i + left ≡ i + suc left = omega arith in
    ap (λ l. buf i ∷ l)
      (slice-snoc buf (suc i) left rest ∙ ap (λ k. slice buf (suc i) left ++ (buf k ∷ rest)) q)

digit_of-digit : (d : ℕ) → d < 10 → digit_of (48 + d) ≡ some d
unfolding digit_of
digit_of-digit d h = ground arith

parse_digit :
    (d v : ℕ) (rest : List ℕ)
    → d < 10
    → v * 10 + d < 2 ^ 32
    → parse_loop 10 ((48 + d) ∷ rest) v ≡ parse_loop 10 rest (v * 10 + d)
parse_digit d v rest h low =
    let a : leb 10 d ≡ false = ground arith in
    let b : checked (v * 10) ≡ some (v * 10) = ground arith in
    let c : checked (v * 10 + d) ≡ some (v * 10 + d) = ground arith in
    unfold parse_loop in rw (digit_of-digit d h, a, b, c, parse_loop)

-- What the loop of `utoa` has written from `r.0` up to `i`: the digits of `n`.
record Printed (fuel n : ℕ) (buf : ℕ → ℕ) (i : ℕ) (r : ℕ × (ℕ → ℕ)) : Type 0 where
  lower : i ≤ r.0 + fuel
  upper : r.0 < i
  kept : (j : ℕ) → i ≤ j → r.1 j ≡ buf j
  digits : (j : ℕ) → r.0 ≤ j → j < i → (48 ≤ r.1 j) × (r.1 j ≤ 57)
  parses :
      (rest : List ℕ) → parse_loop 10 (slice r.1 r.0 (i - r.0) ++ rest) 0 ≡ parse_loop 10 rest n

utoa_ends :
    (fuel n : ℕ) (buf : ℕ → ℕ) (i : ℕ)
    → (n / 10 == 0) ≡ true
    → utoa_loop (suc fuel) n buf i ≡ (i - 1, update buf (i - 1) (48 + n % 10))
utoa_ends fuel n buf i e = unfold utoa_loop in rw (e, utoa_loop)

utoa_moves :
    (fuel n : ℕ) (buf : ℕ → ℕ) (i : ℕ)
    → (n / 10 == 0) ≡ false
    → utoa_loop (suc fuel) n buf i
      ≡ utoa_loop fuel (n / 10) (update buf (i - 1) (48 + n % 10)) (i - 1)
utoa_moves fuel n buf i e = unfold utoa_loop in rw (e, utoa_loop)

Printed-last :
    (fuel n : ℕ) (buf : ℕ → ℕ) (i : ℕ)
    → n < 10
    → 0 < i
    → Printed (suc fuel) n buf i (i - 1, update buf (i - 1) (48 + n % 10))
unfolding slice
Printed-last fuel n buf i h pos = record {
  lower = omega arith;
  upper = omega arith;
  kept = λ j k. ground arith;
  digits = λ j a b. ground arith;
  parses = λ rest.
      let q : i - (i - 1) ≡ 1 = omega arith in
      let d : n % 10 ≡ n = omega arith in
      let e : (i - 1 == i - 1) ≡ true = ground arith in
      rw (q, e, d)
        (parse_digit n 0 rest h (omega arith) ∙ ap (λ k. parse_loop 10 rest k) (omega arith));
}

Printed-more :
    (fuel n : ℕ) (buf : ℕ → ℕ) (i : ℕ) (r : ℕ × (ℕ → ℕ))
    → n < 2 ^ 32
    → 0 < i
    → Printed fuel (n / 10) (update buf (i - 1) (48 + n % 10)) (i - 1) r
    → Printed (suc fuel) n buf i r
Printed-more fuel n buf i r low pos p = record {
  lower = omega (arith, p.lower);
  upper = omega (arith, p.upper);
  kept = λ j k. ground (arith, p.kept j);
  digits = λ j a b. ground (arith, p.digits j, p.kept j);
  parses = λ rest.
      let q : i - r.0 ≡ suc (i - 1 - r.0) = omega (arith, p.upper) in
      let at : r.0 + (i - 1 - r.0) ≡ i - 1 = omega (arith, p.upper) in
      let last : r.1 (i - 1) ≡ 48 + n % 10 = ground (arith, p.kept (i - 1)) in
      rw (q, slice-snoc r.1 r.0 (i - 1 - r.0) rest, at, last)
        (p.parses ((48 + n % 10) ∷ rest)
          ∙ parse_digit (n % 10) (n / 10) rest (omega arith) (omega arith)
          ∙ ap (λ k. parse_loop 10 rest k) (omega arith));
}

-- 10 to the power `fuel` and one.
power_of_ten : ℕ → ℕ
power_of_ten zero = 10
power_of_ten (suc fuel) = 10 * power_of_ten fuel

utoa_loop-Printed :
    (fuel n : ℕ) (buf : ℕ → ℕ) (i : ℕ)
    → n < power_of_ten fuel
    → n < 2 ^ 32
    → fuel < i
    → Printed (suc fuel) n buf i (utoa_loop (suc fuel) n buf i)
unfolding power_of_ten
utoa_loop-Printed zero n buf i h low room =
    rw (utoa_ends zero n buf i (ground arith))
      (Printed-last zero n buf i (ground arith) (omega arith))
utoa_loop-Printed (suc fuel) n buf i h low room = elim (Bool-cases (n / 10 == 0)) [
  | inl e ↦
      rw (utoa_ends (suc fuel) n buf i e)
        (Printed-last (suc fuel) n buf i (ground arith) (omega arith))
  | inr e ↦ rw (utoa_moves (suc fuel) n buf i e) (
      Printed-more (suc fuel) n buf i _ low (omega arith) (
        utoa_loop-Printed fuel (n / 10) (update buf (i - 1) (48 + n % 10)) (i - 1) (omega arith)
          (omega arith) (omega arith)))
]

-- Every byte is a decimal digit.
AllDigits : List ℕ → Type 0
AllDigits [] = Unit {0}
AllDigits (b ∷ bs) = (48 ≤ b) × (b ≤ 57) × AllDigits bs

AllDigits-slice :
    (buf : ℕ → ℕ) (i left : ℕ)
    → ((j : ℕ) → i ≤ j → j < i + left → (48 ≤ buf j) × (buf j ≤ 57))
    → AllDigits (slice buf i left)
unfolding AllDigits slice
AllDigits-slice buf i zero h = tt
AllDigits-slice buf i (suc left) h = (
  (h i (omega arith) (omega arith)).0,
  (h i (omega arith) (omega arith)).1,
  AllDigits-slice buf (suc i) left (λ j a b. h j (omega arith) (omega arith)),
)

trim_start-AllDigits : (bs : List ℕ) → AllDigits bs → trim_start bs ≡ bs
unfolding AllDigits trim_start
trim_start-AllDigits [] d = refl
trim_start-AllDigits (b ∷ bs) d = let q : is_space b ≡ false = ground (arith, d.0, d.1) in rw q refl

trim_end_step :
    (b : ℕ) (bs : List ℕ) → is_space b ≡ false → trim_end bs ≡ bs → trim_end (b ∷ bs) ≡ b ∷ bs
trim_end_step b [] q e = unfold trim_end in rw (e, q, trim_end)
trim_end_step b (c ∷ cs) q e = unfold trim_end in rw (e, trim_end)

trim_end-AllDigits : (bs : List ℕ) → AllDigits bs → trim_end bs ≡ bs
unfolding AllDigits
trim_end-AllDigits [] d = unfold trim_end in refl
trim_end-AllDigits (b ∷ bs) d =
    trim_end_step b bs (ground (arith, d.0, d.1)) (trim_end-AllDigits bs d.2)

split_radix-AllDigits : (bs : List ℕ) → AllDigits bs → split_radix bs ≡ (bs, 10)
unfolding AllDigits split_radix
split_radix-AllDigits [] d = refl
split_radix-AllDigits (a ∷ []) d = refl
split_radix-AllDigits (a ∷ b ∷ rest) d =
    let q : (a == 48 && (b == 120 || b == 88)) ≡ false = ground (arith, d.2.0, d.2.1) in rw q refl

-- Reading back a text of digits that is not empty.
parse_u32-AllDigits :
    (b : ℕ) (bs : List ℕ) → AllDigits (b ∷ bs) → parse_u32 (b ∷ bs) ≡ parse_loop 10 (b ∷ bs) 0
unfolding trim
parse_u32-AllDigits b bs d =
    unfold parse_u32 in
    rw (
      trim_start-AllDigits (b ∷ bs) d,
      trim_end-AllDigits (b ∷ bs) d,
      split_radix-AllDigits (b ∷ bs) d,
    )

parse_u32-slice :
    (buf : ℕ → ℕ) (i left : ℕ)
    → 0 < left
    → AllDigits (slice buf i left)
    → parse_u32 (slice buf i left) ≡ parse_loop 10 (slice buf i left) 0
unfolding slice
parse_u32-slice buf i zero h d = absurd (omega arith)
parse_u32-slice buf i (suc left) h d = parse_u32-AllDigits (buf i) (slice buf (suc i) left) d

parse_loop-nil : (v : ℕ) → parse_loop 10 [] v ≡ some v
unfolding parse_loop
parse_loop-nil v = refl

-- `parse_u32` reads back every number that `utoa` has written, whatever its buffer held.
pub parse_u32-utoa : (n : ℕ) (buf : ℕ → ℕ) → n < 2 ^ 32 → parse_u32 (utoa n buf) ≡ some n
unfolding utoa power_of_ten
parse_u32-utoa n buf h =
    let r = utoa_loop 10 n buf 10 in
    let p = utoa_loop-Printed 9 n buf 10 (omega arith) h (omega arith) in
    let d = AllDigits-slice r.1 r.0 (10 - r.0) (λ j a b. p.digits j a (omega (arith, p.upper))) in
    let q = p.parses [] in
    parse_u32-slice r.1 r.0 (10 - r.0) (omega (arith, p.upper)) d
    ∙ ap (λ l. parse_loop 10 l 0) (sym (append-nil (slice r.1 r.0 (10 - r.0))))
    ∙ q
    ∙ parse_loop-nil n
