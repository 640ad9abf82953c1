-- ===== src/Heap/Break/Grow.antt =====
-- The loop of `grow` of kernel/src/heap.rs: it maps pages upwards from the break and leaves what
-- is below it alone.
use kfs.Base.{
  ℕ, zero, suc, ◌+◌, ◌-◌, ◌%◌, ◌^◌, ◌≤◌, ◌<◌, ◌≡◌, refl, Bool, true, false, Option, none, some, ltb,
  ◌==◌, arith, Bool-cases, inl, inr, ◌∙◌, sym, ap, u32,
}
use kfs.Pager.{Pager, View, Laws, Mapped, page_of, Keeps, MapsAt, MapOutcome}
use kfs.Heap.{Heap, is_contiguous, page_size}
use kfs.Heap.State.{Window, Pages}
use kfs.Heap.Break.{frame_for, give_back, grow_loop}
use kfs.Heap.Break.Frames.{
  FrameOutcome, Returned, Keeps-refl, frame_for-FrameOutcome, give_back-Returned,
}

module _ (p : Pager) (v : View p.World) where
  open p use {World, read, map_page, alloc_frame, free_frame, oops}
  open v use {Valid, Spare, frame_at, lo, hi}

  -- The pages from `at` to `r.0` are mapped, and nothing below `at` changes.
  pub record Grows (h : Heap) (w : World) (at : ℕ) (r : ℕ × World) : Type 0 where
    pub from_le : at ≤ r.0
    pub even : r.0 % 4096 ≡ 0
    pub le_limit : r.0 ≤ h.limit
    pub valid : Valid r.1
    pub pages : Pages p v r.1 at r.0
    pub before : (q : ℕ) → q < at → frame_at r.1 q ≡ frame_at w q
    pub words : (b : ℕ) → Mapped p v w b → read r.1 b ≡ read w b
    pub window : is_contiguous h.backing ≡ true → Window p v (record h { brk = r.0 }) r.1

  module _ (laws : Laws p v) (h : Heap) where
    pub grow_stops :
        (n : ℕ) (w : World) (at : ℕ)
        → ltb h.limit (u32 (at + page_size)) ≡ true
        → grow_loop p h (suc n) w at ≡ (at, oops w)
    grow_stops n w at e = unfold grow_loop in rw (e, grow_loop)

    pub grow_lacks :
        (n : ℕ) (w : World) (at : ℕ) (w1 : World)
        → ltb h.limit (u32 (at + page_size)) ≡ false
        → frame_for p h w at ≡ (none, w1)
        → grow_loop p h (suc n) w at ≡ (at, w1)
    grow_lacks n w at w1 e q =
        unfold grow_loop in
        rw
          (e, ap (λ (r : Option ℕ × World). r.0) q, ap (λ (r : Option ℕ × World). r.1) q, grow_loop)

    pub grow_fails :
        (n : ℕ) (w : World) (at f : ℕ) (w1 w2 : World)
        → ltb h.limit (u32 (at + page_size)) ≡ false
        → frame_for p h w at ≡ (some f, w1)
        → map_page w1 at f h.flags ≡ (false, w2)
        → grow_loop p h (suc n) w at ≡ (at, give_back p h w2 f)
    grow_fails n w at f w1 w2 e q m =
        unfold grow_loop in
        rw (
          e,
          ap (λ (r : Option ℕ × World). r.0) q,
          ap (λ (r : Option ℕ × World). r.1) q,
          ap (λ (r : Bool × World). r.0) m,
          ap (λ (r : Option ℕ × World). r.1) q,
          ap (λ (r : Bool × World). r.1) m,
          grow_loop,
        )

    pub grow_maps :
        (n : ℕ) (w : World) (at f : ℕ) (w1 w2 : World)
        → ltb h.limit (u32 (at + page_size)) ≡ false
        → frame_for p h w at ≡ (some f, w1)
        → map_page w1 at f h.flags ≡ (true, w2)
        → grow_loop p h (suc n) w at ≡ grow_loop p h n w2 (u32 (at + page_size))
    grow_maps n w at f w1 w2 e q m =
        unfold grow_loop in
        rw (
          e,
          ap (λ (r : Option ℕ × World). r.0) q,
          ap (λ (r : Option ℕ × World). r.1) q,
          ap (λ (r : Bool × World). r.0) m,
          ap (λ (r : Option ℕ × World). r.1) q,
          ap (λ (r : Bool × World). r.1) m,
          grow_loop,
        )

    -- Where the loop stops at `at`, having changed no word and no page.
    Grows-stop :
        (w : World) (at : ℕ) (w' : World)
        → at % 4096 ≡ 0
        → at ≤ h.limit
        → (is_contiguous h.backing ≡ true → Window p v (record h { brk = at }) w)
        → Returned p v h w w'
        → Grows h w at (at, w')
    Grows-stop w at w' even upper win k = record {
      from_le = omega arith;
      even = even;
      le_limit = upper;
      valid = k.valid;
      pages = λ q e a b. absurd (omega arith);
      before = λ q l. k.frames q;
      words = k.words;
      window = λ c.
          let m = win c in
          record {
            fits = m.fits;
            shows = λ q e a l. k.frames q ∙ m.shows q e a l;
            spare = λ q e a l n. k.spare c _ (m.spare q e a l n);
          };
    }

    Returned-Keeps : {w w' : World} → Keeps p v w w' → Returned p v h w w'
    Returned-Keeps k = record {
      valid = k.valid;
      frames = k.frames;
      words = k.words;
      spare = λ c. k.spare;
    }

    Grows-fail :
        (w : World) (at f : ℕ) (w1 w2 : World)
        → at % 4096 ≡ 0
        → at ≤ h.limit
        → (is_contiguous h.backing ≡ true → Window p v (record h { brk = at }) w)
        → Keeps p v w w1
        → Spare w1 f
        → Keeps p v w1 w2
        → Grows h w at (at, give_back p h w2 f)
    Grows-fail w at f w1 w2 even upper win k s l =
        let r = give_back-Returned p v laws h w2 f h.backing refl l.valid (l.spare f s) in
        Grows-stop w at (give_back p h w2 f) even upper win (record {
          valid = r.valid;
          frames = λ q. r.frames q ∙ l.frames q ∙ k.frames q;
          words = λ b m.
              let m1 : Mapped p v w1 b = (m.0, rw (k.frames (page_of b)) m.1) in
              let m2 : Mapped p v w2 b = (m.0, rw (l.frames (page_of b)) m1.1) in
              r.words b m2 ∙ l.words b m1 ∙ k.words b m;
          spare = λ c g t. r.spare c g (l.spare g (k.spare g t));
        })

    -- One page more is mapped, and the rest of the loop runs above it.
    Grows-step :
        (w : World) (at f : ℕ) (w1 w2 : World) (r : ℕ × World)
        → at % 4096 ≡ 0
        → Keeps p v w w1
        → MapsAt p v w1 at f w2
        → Grows h w2 (at + 4096) r
        → Grows h w at r
    Grows-step w at f w1 w2 r even k m g = record {
      from_le = omega (arith, g.from_le);
      even = g.even;
      le_limit = g.le_limit;
      valid = g.valid;
      pages = λ q e a b. elim (Bool-cases (at == q)) [
        | inl here ↦
            let there : frame_at w2 q ≡ some f = m.frames q ∙ rw here refl in
            λ gone. absurd (cc (gone, g.before q (ground arith), there))
        | inr other ↦ g.pages q e (ground arith) b
      ];
      before = λ q l.
          let ne : (at == q) ≡ false = ground arith in
          g.before q (omega arith) ∙ m.frames q ∙ rw ne (k.frames q);
      words = λ b o.
          let o1 : Mapped p v w1 b = (o.0, rw (k.frames (page_of b)) o.1) in
          g.words b (mapped_still b o1) ∙ m.words b o1 ∙ k.words b o;
      window = g.window;
    }
      where
        mapped_still : (b : ℕ) → Mapped p v w1 b → Mapped p v w2 b
        mapped_still b o = (
          o.0,
          elim (Bool-cases (at == page_of b)) [
            | inl here ↦ λ gone. absurd (cc (gone, m.frames (page_of b), here))
            | inr other ↦ λ gone. o.1 (sym (m.frames (page_of b) ∙ rw other refl) ∙ gone)
          ],
        )

    Window-up :
        (w : World) (at f : ℕ) (w1 w2 : World)
        → at % 4096 ≡ 0
        → h.base ≤ at
        → Window p v (record h { brk = at }) w
        → f ≡ h.phys_base + (at - h.base)
        → Keeps p v w w1
        → MapsAt p v w1 at f w2
        → Window p v (record h { brk = at + 4096 }) w2
    Window-up w at f w1 w2 even lower win e k m = record {
      fits = win.fits;
      shows = λ q ev a l. elim (Bool-cases (at == q)) [
        | inl here ↦ m.frames q ∙ ground (arith, here, e)
        | inr other ↦ m.frames q ∙ rw other (k.frames q ∙ win.shows q ev a (ground arith))
      ];
      spare = λ q ev a l n.
          m.spare _ (k.spare _ (win.spare q ev (omega arith) l n)) (ground (arith, e));
    }

    -- What the loop does in `n` rounds.
    abbrev Loops : ℕ → Type 0
    Loops n =
        (w : World) (at : ℕ)
        → Valid w
        → at % 4096 ≡ 0
        → h.base ≤ at
        → at ≤ h.limit
        → (is_contiguous h.backing ≡ true → Window p v (record h { brk = at }) w)
        → Grows h w at (grow_loop p h n w at)

    -- One round that has room below `limit`.
    module _ (n : ℕ) (ih : Loops n) (room : h.limit + 0x10000 ≤ 2 ^ 32) (above : lo ≤ h.base)
        (below : h.limit ≤ hi) (small : h.flags < 4096) (w : World) (at : ℕ) (even : at % 4096 ≡ 0)
        (lower : h.base ≤ at) (upper : at ≤ h.limit)
        (win : is_contiguous h.backing ≡ true → Window p v (record h { brk = at }) w)
        (fits : ltb h.limit (u32 (at + page_size)) ≡ false) where
      grow_mapped :
          (f : ℕ) (w1 : World)
          → frame_for p h w at ≡ (some f, w1)
          → Keeps p v w w1
          → Spare w1 f
          → (is_contiguous h.backing ≡ true → f ≡ h.phys_base + (at - h.base))
          → (r : Bool × World) → map_page w1 at f h.flags ≡ r
          → MapOutcome p v w1 at f r
          → Grows h w at (grow_loop p h (suc n) w at)
      grow_mapped f w1 q k s place (false, w2) e l =
          rw (grow_fails n w at f w1 w2 fits q e) (Grows-fail w at f w1 w2 even upper win k s l)
      grow_mapped f w1 q k s place (true, w2) e m =
          let next : u32 (at + page_size) ≡ at + 4096 = ground arith in
          rw (grow_maps n w at f w1 w2 fits q e, next)
            (Grows-step w at f w1 w2 _ even k m (
              ih w2 (at + 4096) m.valid (omega arith) (omega arith) (ground arith)
                (λ c. Window-up w at f w1 w2 even lower (win c) (place c) k m)))

      grow_framed :
          (r : Option ℕ × World)
          → frame_for p h w at ≡ r
          → FrameOutcome p v h w at r
          → Grows h w at (grow_loop p h (suc n) w at)
      grow_framed (none, w1) q k =
          rw (grow_lacks n w at w1 fits q) (Grows-stop w at w1 even upper win (Returned-Keeps k))
      grow_framed (some f, w1) q (k, s, place) =
          grow_mapped f w1 q k s place (map_page w1 at f h.flags) refl (
            laws.map_page-MapOutcome w1 at f h.flags k.valid s even (omega arith) (ground arith)
              small)

    pub grow_none : (w : World) (at : ℕ) → grow_loop p h zero w at ≡ (at, w)
    unfolding grow_loop
    grow_none w at = refl

    -- The loop maps whole pages from `at` on, as many as it can, and changes nothing below.
    pub grow_loop-Grows :
        h.limit + 0x10000 ≤ 2 ^ 32
        → lo ≤ h.base
        → h.limit ≤ hi
        → h.flags < 4096
        → (n : ℕ) (w : World) (at : ℕ) → Valid w
        → at % 4096 ≡ 0
        → h.base ≤ at
        → at ≤ h.limit
        → (is_contiguous h.backing ≡ true → Window p v (record h { brk = at }) w)
        → Grows h w at (grow_loop p h n w at)
    grow_loop-Grows room above below small zero w at valid even lower upper win =
        rw (grow_none w at)
          (Grows-stop w at w even upper win (Returned-Keeps (Keeps-refl p v laws h w valid)))
    grow_loop-Grows room above below small (suc n) w at valid even lower upper win =
        elim (Bool-cases (ltb h.limit (u32 (at + page_size)))) [
          | inl out ↦
              rw (grow_stops n w at out)
                (Grows-stop w at (oops w) even upper win (Returned-Keeps (laws.oops-Keeps w valid)))
          | inr fits ↦
              grow_framed n (grow_loop-Grows room above below small n) room above below small w at
                even lower upper win fits (frame_for p h w at) refl
                (frame_for-FrameOutcome p v laws h w at h.backing refl valid lower (ground arith)
                  even (omega arith) win)
        ]
