-- ===== src/Pmm/Largest.antt =====
-- `largest_run` of kernel/src/pmm.rs is the length of the longest run of free frames.
use kfs.Base.{
  ℕ, zero, suc, ◌+◌, ◌-◌, ◌≤◌, ◌≡◌, refl, true, false, arith, Bool-cases, inl, inr, ltb, leb, ◌==◌,
  leb→le, ◌⊎◌, max, if◌then◌else◌,
}
use kfs.Pmm.{Pmm, max_frames, free_bit, run_loop, largest_run}
use kfs.Pmm.Run.{IsRun, longer, no-IsRun_over, run_fits}

-- Before the round at `frame`: `run` frames that end there are free and the one before them is
-- not, and `best` is the length of the longest run below `frame`.
record Scan (s : Pmm) (frame best run : ℕ) : Type 0 where
  inside : run ≤ frame
  current : IsRun s (frame - run) run
  edge : (run ≡ frame) ⊎ (free_bit s (frame - run - 1) ≡ false)
  base : ℕ
  longest : IsRun s base best
  bound : (b c : ℕ) → b + c ≤ frame → IsRun s b c → c ≤ best
  reached : run ≤ best

module _ (s : Pmm) (frame best run : ℕ) (sc : Scan s frame best run) where
  extended : free_bit s frame ≡ true → IsRun s (frame + 1 - (run + 1)) (run + 1)
  extended h =
      let e : frame + 1 - (run + 1) ≡ frame - run = omega arith in
      let e' : frame - run + run ≡ frame = omega (arith, sc.inside) in
      rw e (longer s (frame - run) run sc.current (rw e' h))

  -- A run that ends with this frame is no longer than the current one and this frame.
  ends_here : (b c : ℕ) → b + c ≡ frame + 1 → IsRun s b c → c ≤ run + 1
  ends_here b c e r = elim (Bool-cases (leb c (run + 1))) [
    | inl h ↦ leb→le _ _ h
    | inr h ↦ elim sc.edge [
      | inl whole ↦ absurd (ground arith)
      | inr used ↦
          absurd (no-IsRun_over s c (frame - run - 1) b used (ground arith) (ground arith) r)
    ]
  ]

  edge_after : (run + 1 ≡ frame + 1) ⊎ (free_bit s (frame + 1 - (run + 1) - 1) ≡ false)
  edge_after = elim sc.edge [
    | inl e ↦ inl (omega arith)
    | inr used ↦
        inr (let e : frame + 1 - (run + 1) - 1 ≡ frame - run - 1 = omega arith in rw e used)
  ]

  bound_after : (b c : ℕ) → b + c ≤ frame + 1 → IsRun s b c → c ≤ max best (run + 1)
  bound_after b c le r = elim (Bool-cases (leb (b + c) frame)) [
    | inl h ↦ omega (arith, sc.bound b c (leb→le _ _ h) r)
    | inr h ↦ omega (arith, ends_here b c (ground arith) r)
  ]

  bound_used : free_bit s frame ≡ false → (b c : ℕ) → b + c ≤ frame + 1 → IsRun s b c → c ≤ best
  bound_used used b c le r = elim (Bool-cases (leb (b + c) frame)) [
    | inl h ↦ sc.bound b c (leb→le _ _ h) r
    | inr h ↦ elim (Bool-cases (c == 0)) [
      | inl none_left ↦ ground arith
      | inr some_left ↦ absurd (no-IsRun_over s c frame b used (ground arith) (ground arith) r)
    ]
  ]

  Scan-free :
      free_bit s frame ≡ true
      → Scan s (frame + 1) (if ltb best (run + 1) then run + 1 else best) (run + 1)
  Scan-free h = elim (Bool-cases (ltb best (run + 1))) [
    | inl more ↦ rw more (record {
      inside = omega (arith, sc.inside);
      current = extended h;
      edge = edge_after;
      base = frame + 1 - (run + 1);
      longest = extended h;
      bound = λ b c le r. ground (arith, bound_after b c le r);
      reached = omega arith;
    })
    | inr same ↦ rw same (record {
      inside = omega (arith, sc.inside);
      current = extended h;
      edge = edge_after;
      base = sc.base;
      longest = sc.longest;
      bound = λ b c le r. ground (arith, bound_after b c le r);
      reached = ground arith;
    })
  ]

  Scan-used : free_bit s frame ≡ false → Scan s (frame + 1) best 0
  Scan-used h = record {
    inside = omega arith;
    current = λ j k. absurd (omega arith);
    edge = inr (let e : frame + 1 - 0 - 1 ≡ frame = omega arith in rw e h);
    base = sc.base;
    longest = sc.longest;
    bound = bound_used h;
    reached = omega arith;
  }

module _ (s : Pmm) where
  run_loop-Scan :
      (left frame best run : ℕ)
      → left + frame ≡ max_frames
      → Scan s frame best run
      → (r : ℕ) × Scan s max_frames (run_loop s left frame best run) r
  run_loop-Scan zero frame best run e sc =
      let e' : frame ≡ max_frames = omega arith in unfold run_loop in (run, rw (← e') sc)
  run_loop-Scan (suc left) frame best run e sc = elim (Bool-cases (free_bit s frame)) [
    | inl h ↦
        rw (free_round h) (
          run_loop-Scan left (frame + 1) _ (run + 1) (omega arith)
            (Scan-free s frame best run sc h))
    | inr h ↦
        rw (used_round h)
          (run_loop-Scan left (frame + 1) best 0 (omega arith) (Scan-used s frame best run sc h))
  ]
    where
      free_round :
          free_bit s frame ≡ true
          → run_loop s (suc left) frame best run
            ≡ run_loop s left (frame + 1) (if ltb best (run + 1) then run + 1 else best) (run + 1)
      free_round h = unfold run_loop in rw (h, run_loop)

      used_round :
          free_bit s frame ≡ false
          → run_loop s (suc left) frame best run ≡ run_loop s left (frame + 1) best 0
      used_round h = unfold run_loop in rw (h, run_loop)

  -- There is a run of `largest_run` free frames, and no longer one.
  pub largest_run-longest :
      ((b : ℕ) × IsRun s b (largest_run s)) × ((b c : ℕ) → IsRun s b c → c ≤ largest_run s)
  unfolding largest_run
  largest_run-longest =
      let (r, sc) = run_loop-Scan max_frames 0 0 0 (omega arith) nothing_seen in
      (
        (sc.base, sc.longest),
        λ b c run. elim (Bool-cases (c == 0)) [
          | inl e ↦ ground arith
          | inr e ↦ sc.bound b c (run_fits s b c (ground arith) run) run
        ],
      )
    where
      nothing_seen : Scan s 0 0 0
      nothing_seen = record {
        inside = omega arith;
        current = λ j h. absurd (omega arith);
        edge = inl refl;
        base = 0;
        longest = λ j h. absurd (omega arith);
        bound = λ b c h run. omega arith;
        reached = omega arith;
      }
