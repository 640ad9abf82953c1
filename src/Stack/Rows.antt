-- ===== src/Stack/Rows.antt =====
-- The lines that kernel/src/stack.rs prints are the bytes of the stack, in order.
use kfs.Base.{
  ℕ, zero, suc, ◌+◌, ◌-◌, ◌^◌, ◌≤◌, ◌<◌, ◌≡◌, refl, false, ◌||◌, List, [], ◌∷◌, ◌++◌, min, ltb,
  ◌==◌, u32, length, arith, ◌∙◌, ap, sym, Bool-cases, inl, inr,
}
use mathlib.Core.List.{append_assoc}
use kfs.Stack.{
  Row, window, bytes_from, snapshot, take, drop, render_rows, render, print_loop, print,
}

-- The bytes of the lines, one after the other.
pub dumped : List Row → List ℕ
dumped [] = []
dumped (r ∷ rs) = r.bytes ++ dumped rs

take-drop : (n : ℕ) (bs : List ℕ) → take n bs ++ drop n bs ≡ bs
unfolding take drop
take-drop zero bs = refl
take-drop (suc n) [] = refl
take-drop (suc n) (b ∷ bs) = ap (λ cs. b ∷ cs) (take-drop n bs)

length-drop : (n : ℕ) (bs : List ℕ) → length (drop n bs) ≡ length bs - n
unfolding drop
length-drop zero bs = omega arith
length-drop (suc n) [] = omega arith
length-drop (suc n) (b ∷ bs) = omega (arith, length-drop n bs)

dumped-render_rows :
    (fuel base row : ℕ) (bs : List ℕ)
    → length bs ≤ fuel
    → dumped (render_rows fuel base row bs) ≡ bs
unfolding dumped render_rows
dumped-render_rows zero base row [] h = refl
dumped-render_rows zero base row (b ∷ bs) h = absurd (omega arith)
dumped-render_rows (suc fuel) base row [] h = refl
dumped-render_rows (suc fuel) base row (b ∷ bs) h =
    let rest = drop 16 (b ∷ bs) in
    ap (λ cs. take 16 (b ∷ bs) ++ cs)
      (dumped-render_rows fuel base (suc row) rest (omega (arith, length-drop 16 (b ∷ bs))))
    ∙ take-drop 16 (b ∷ bs)

dumped-append : (xs ys : List Row) → dumped (xs ++ ys) ≡ dumped xs ++ dumped ys
unfolding dumped
dumped-append [] ys = refl
dumped-append (x ∷ xs) ys =
    ap (λ cs. x.bytes ++ cs) (dumped-append xs ys)
    ∙ sym (append_assoc x.bytes (dumped xs) (dumped ys))

dumped-render : (base : ℕ) (bs : List ℕ) → dumped (render base bs) ≡ bs
unfolding render
dumped-render base bs = dumped-render_rows (length bs) base 0 bs (omega arith)

module _ (rd : ℕ → ℕ) where
  length-bytes_from : (n from : ℕ) → length (bytes_from rd from n) ≡ n
  unfolding bytes_from
  length-bytes_from zero from = refl
  length-bytes_from (suc n) from = omega (arith, length-bytes_from n (suc from))

  bytes_from-add :
      (n k from : ℕ)
      → bytes_from rd from n ++ bytes_from rd (from + n) k ≡ bytes_from rd from (n + k)
  unfolding bytes_from
  bytes_from-add zero k from =
      ap (λ a. bytes_from rd a k) (let e : from + 0 ≡ from = omega arith in e)
      ∙ ap (λ j. bytes_from rd from j) (let e : k ≡ 0 + k = omega arith in e)
  bytes_from-add (suc n) k from =
      let e : from + suc n ≡ suc from + n = omega arith in
      ap (λ cs. rd from ∷ cs)
        (ap (λ a. bytes_from rd (suc from) n ++ bytes_from rd a k) e
          ∙ bytes_from-add n k (suc from))
      ∙ ap (λ j. bytes_from rd from j) (let s : suc (n + k) ≡ suc n + k = omega arith in s)

  module _ (top : ℕ) (low : top < 2 ^ 32) where
    print_none : (at left fuel : ℕ) → left ≡ 0 → print_loop rd top fuel at left ≡ []
    unfolding print_loop
    print_none at left zero e = refl
    print_none at left (suc fuel) e = rw e refl

    nothing_left :
        (at left fuel : ℕ)
        → left ≡ 0
        → dumped (print_loop rd top fuel at left) ≡ bytes_from rd at left
    unfolding dumped bytes_from
    nothing_left at left fuel e = rw (print_none at left fuel e, e) refl

    -- A round prints `n` bytes.
    print_some :
        (at left n fuel : ℕ)
        → 0 < n
        → min (top - at) (min left window) ≡ n
        → at + left ≤ top
        → 0 < left
        → print_loop rd top (suc fuel) at left
          ≡ render at (bytes_from rd at n) ++ print_loop rd top fuel (at + n) (left - n)
    unfolding print_loop snapshot
    print_some at left n fuel pos e fits some_left =
        let a : (left == 0 || length (bytes_from rd at n) == 0) ≡ false =
          ground (arith, length-bytes_from n at) in
        let b : u32 (at + n) ≡ at + n = omega (arith, e) in
        rw (e, a, length-bytes_from n at, b) refl

    dumped-print_loop :
        (fuel at left : ℕ)
        → left ≤ fuel
        → at + left ≤ top
        → dumped (print_loop rd top fuel at left) ≡ bytes_from rd at left
    dumped-print_loop zero at left a b = nothing_left at left zero (omega arith)
    dumped-print_loop (suc fuel) at zero a b = nothing_left at zero (suc fuel) refl
    dumped-print_loop (suc fuel) at (suc left) a b =
        let n = min (suc left) window in
        let e : min (top - at) n ≡ n = omega arith in
        let rest = dumped-print_loop fuel (at + n) (suc left - n) (omega arith) (omega arith) in
        let all : n + (suc left - n) ≡ suc left = omega arith in
        rw (print_some at (suc left) n fuel (omega arith) e b (omega arith)) (
          dumped-append (render at (bytes_from rd at n))
            (print_loop rd top fuel (at + n) (suc left - n))
          ∙ ap (λ cs. cs ++ dumped (print_loop rd top fuel (at + n) (suc left - n)))
              (dumped-render at (bytes_from rd at n))
          ∙ ap (λ cs. bytes_from rd at n ++ cs) rest
          ∙ bytes_from-add n (suc left - n) at
          ∙ ap (λ k. bytes_from rd at k) all)

    -- The dump shows the bytes from `esp` on, as many as asked for or up to the top of the stack, each
    -- once and in order.
    pub dumped-print :
        (esp bytes : ℕ)
        → dumped (print rd top esp bytes) ≡ bytes_from rd esp (min bytes (top - esp))
    unfolding print
    dumped-print esp bytes = elim (Bool-cases (ltb esp top)) [
      | inl under ↦
          dumped-print_loop (min bytes (top - esp)) esp (min bytes (top - esp)) (omega arith)
            (ground arith)
      | inr over ↦ nothing_left esp (min bytes (top - esp)) (min bytes (top - esp)) (ground arith)
    ]
