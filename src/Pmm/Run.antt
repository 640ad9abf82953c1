-- ===== src/Pmm/Run.antt =====
-- `find_run` of kernel/src/pmm.rs: the first run of free frames of a given length.
use kfs.Base.{
  ne_of_test, ℕ, zero, suc, ◌+◌, ◌-◌, ◌*◌, ◌≤◌, ◌<◌, ◌≡◌, true, false, ◌&&◌, arith, subst,
  Bool-cases, inl, inr, ltb, leb, ◌==◌, u32, Option, none, some, ◌⊎◌, ltb→lt, ==→eq,
}
use kfs.Pmm.{Pmm, max_frames, free_bit, span_loop, find_loop, find_run}
use kfs.Pmm.Valid.{free_bit-lt}

-- The `count` frames from `base` on are all free.
abbrev pub IsRun : Pmm → ℕ → ℕ → Type 0
IsRun s base count = (j : ℕ) → j < count → free_bit s (base + j) ≡ true

-- The run with the lowest base, or `none` where there is no run at all.
abbrev pub FirstRun : Pmm → ℕ → Option ℕ → Type 0
FirstRun s count none = (b : ℕ) → ¬ IsRun s b count
FirstRun s count (some base) = IsRun s base count × ((b : ℕ) → b < base → ¬ IsRun s b count)

record Span (s : Pmm) (frame count span result : ℕ) : Type 0 where
  lower : span ≤ result
  upper : result ≤ count
  run : IsRun s frame result
  stops : (result ≡ count) ⊎ (free_bit s (frame + result) ≡ false)

module _ (s : Pmm) where
  pub longer :
      (frame span : ℕ)
      → IsRun s frame span
      → free_bit s (frame + span) ≡ true
      → IsRun s frame (span + 1)
  longer frame span run h j k = elim (Bool-cases (j == span)) [
    | inl e ↦ rw (==→eq j span e) h
    | inr e ↦ run j (ground arith)
  ]

  span_loop-Span :
      (fuel frame count span : ℕ)
      → frame + count ≤ max_frames
      → span ≤ count
      → count ≤ span + fuel
      → IsRun s frame span
      → Span s frame count span (span_loop s fuel frame count span)
  span_loop-Span zero frame count span fits le enough run =
      unfold span_loop in
      record { lower = omega arith; upper = le; run = run; stops = inl (omega arith) }
  span_loop-Span (suc fuel) frame count span fits le enough run =
      elim (Bool-cases (ltb span count && free_bit s (u32 (frame + span)))) [
        | inl e ↦
            let q : u32 (frame + span) ≡ frame + span = ground arith in
            let more = longer frame span run (ground (arith, q)) in
            let rest =
              span_loop-Span fuel frame count (span + 1) fits (ground arith) (omega arith) more in
            rw (on e) (record {
              lower = omega (arith, rest.lower);
              upper = rest.upper;
              run = rest.run;
              stops = rest.stops;
            })
        | inr e ↦
            let q : span < count → u32 (frame + span) ≡ frame + span = omega arith in
            rw (off e)
              (record { lower = omega arith; upper = le; run = run; stops = ground (arith, q) })
      ]
    where
      on :
          (ltb span count && free_bit s (u32 (frame + span))) ≡ true
          → span_loop s (suc fuel) frame count span ≡ span_loop s fuel frame count (span + 1)
      on e = unfold span_loop in rw (e, span_loop)

      off :
          (ltb span count && free_bit s (u32 (frame + span))) ≡ false
          → span_loop s (suc fuel) frame count span ≡ span
      off e = unfold span_loop in rw (e, span_loop)

  -- A run that starts at or below `x` and is longer than the way to `x` has `x` in it.
  pub no-IsRun_over :
      (count x b : ℕ) → free_bit s x ≡ false → b ≤ x → x < b + count → ¬ IsRun s b count
  no-IsRun_over count x b used le lt run =
      let e : b + (x - b) ≡ x = omega arith in ground (arith, e, run (x - b))

  -- A run of at least one frame ends within the bitmap.
  pub run_fits : (b count : ℕ) → 0 < count → IsRun s b count → b + count ≤ max_frames
  run_fits b count pos run =
      omega (arith, free_bit-lt s (b + (count - 1)) (run (count - 1) (omega arith)))

  IsRun-of_one : (frame : ℕ) → free_bit s frame ≡ true → IsRun s frame 1
  IsRun-of_one frame h j k = let e : frame + j ≡ frame = omega arith in rw e h

  stopped :
      (frame count span result : ℕ)
      → Span s frame count span result
      → (result == count) ≡ false
      → free_bit s (frame + result) ≡ false
  stopped frame count span result sp miss = ground (arith, sp.stops)

  -- One round of `find_run`, by its tests.
  module _ (fuel count frame : ℕ) where
    find_past :
        leb (u32 (frame + count)) max_frames ≡ false → find_loop s (suc fuel) count frame ≡ none
    find_past out = unfold find_loop in rw (out, find_loop)

    module _ (room : leb (u32 (frame + count)) max_frames ≡ true) where
      find_used :
          free_bit s frame ≡ false
          → find_loop s (suc fuel) count frame ≡ find_loop s fuel count (u32 (frame + 1))
      find_used used = unfold find_loop in rw (room, used, find_loop)

      find_hit :
          free_bit s frame ≡ true
          → (span_loop s count frame count 1 == count) ≡ true
          → find_loop s (suc fuel) count frame ≡ some frame
      find_hit open_here hit = unfold find_loop in rw (room, open_here, hit, find_loop)

      find_miss :
          free_bit s frame ≡ true
          → (span_loop s count frame count 1 == count) ≡ false
          → find_loop s (suc fuel) count frame
            ≡ find_loop s fuel count (u32 (frame + u32 (span_loop s count frame count 1 + 1)))
      find_miss open_here miss = unfold find_loop in rw (room, open_here, miss, find_loop)

  starts : (count : ℕ) → 0 < count → find_run s count ≡ find_loop s (max_frames + 1) count 0
  unfolding find_run
  starts count pos = let e : (count == 0) ≡ false = ground arith in rw e

  module _ (count : ℕ) (pos : 0 < count) (fits : count ≤ max_frames) where
    past :
        (frame : ℕ)
        → (leb (u32 (frame + count)) max_frames) ≡ false
        → frame ≤ 2 * max_frames
        → ((b : ℕ) → b < frame → ¬ IsRun s b count)
        → (b : ℕ) → ¬ IsRun s b count
    past frame e small before b run = before b (ground (arith, run_fits b count pos run)) run

    past_used :
        (frame : ℕ)
        → free_bit s frame ≡ false
        → ((b : ℕ) → b < frame → ¬ IsRun s b count)
        → (b : ℕ) → b < frame + 1
        → ¬ IsRun s b count
    past_used frame used before b h run = elim (Bool-cases (ltb b frame)) [
      | inl k ↦ before b (ltb→lt _ _ k) run
      | inr k ↦ no-IsRun_over count frame b used (omega arith) (ground arith) run
    ]

    past_span :
        (frame span : ℕ)
        → span < count
        → free_bit s (frame + span) ≡ false
        → ((b : ℕ) → b < frame → ¬ IsRun s b count)
        → (b : ℕ) → b < frame + (span + 1)
        → ¬ IsRun s b count
    past_span frame span short used before b h run = elim (Bool-cases (ltb b frame)) [
      | inl k ↦ before b (ltb→lt _ _ k) run
      | inr k ↦ no-IsRun_over count (frame + span) b used (omega arith) (ground arith) run
    ]

    find_loop-FirstRun :
        (fuel frame : ℕ)
        → max_frames < fuel + frame
        → frame ≤ 2 * max_frames
        → ((b : ℕ) → b < frame → ¬ IsRun s b count)
        → FirstRun s count (find_loop s fuel count frame)
    find_loop-FirstRun zero frame enough small before =
        unfold find_loop in λ b run. before b (omega (arith, run_fits b count pos run)) run
    find_loop-FirstRun (suc fuel) frame enough small before =
        elim (Bool-cases (leb (u32 (frame + count)) max_frames)) [
          | inr out ↦ rw (find_past fuel count frame out) (past frame out small before)
          | inl room ↦
              let ends : frame + count ≤ max_frames = ground arith in
              elim (Bool-cases (free_bit s frame)) [
                | inr used ↦
                    let q : u32 (frame + 1) ≡ frame + 1 = omega arith in
                    rw (find_used fuel count frame room used, q)
                      (find_loop-FirstRun fuel (frame + 1) (omega arith) (omega arith)
                        (past_used frame used before))
                | inl open_here ↦
                    let sp =
                      span_loop-Span count frame count 1 ends (omega arith) (omega arith)
                        (λ j h. IsRun-of_one frame open_here j h) in
                    elim (Bool-cases (span_loop s count frame count 1 == count)) [
                      | inl hit ↦
                          rw (find_hit fuel count frame room open_here hit)
                            (subst (IsRun s frame) (==→eq _ _ hit) sp.run, before)
                      | inr miss ↦
                          let span = span_loop s count frame count 1 in
                          let below : span < count = omega (arith, sp.upper, ne_of_test _ _ miss) in
                          let q : u32 (frame + u32 (span + 1)) ≡ frame + (span + 1) = omega arith in
                          rw (find_miss fuel count frame room open_here miss, q)
                            (find_loop-FirstRun fuel (frame + (span + 1)) (omega arith)
                              (omega arith)
                              (past_span frame span below (stopped _ _ _ _ sp miss) before))
                    ]
              ]
        ]

  -- `find_run` finds the first run of `count` free frames exactly when there is one.
  pub find_run-FirstRun :
      (count : ℕ) → 0 < count → count ≤ max_frames → FirstRun s count (find_run s count)
  find_run-FirstRun count pos fits = rw (starts count pos) (
      find_loop-FirstRun count pos fits (max_frames + 1) 0 (omega arith) (omega arith)
        (λ b h. absurd (omega arith)))
