-- ===== src/Heap/Break/Unmap.antt =====
-- The loop of `shrink` of kernel/src/heap.rs, which unmaps the pages from the new break up.
use kfs.Base.{
  ℕ, zero, suc, ◌+◌, ◌*◌, ◌%◌, ◌^◌, ◌≤◌, ◌<◌, ◌≡◌, refl, true, false, Option, none, some, ltb, ◌==◌,
  arith, Bool-cases, inl, inr, ◌∙◌, sym, ap, u32,
}
use kfs.Pager.{Pager, View, Laws, Mapped, page_of, UnmapOutcome}
use kfs.Heap.{Heap, is_contiguous, page_size}
use kfs.Heap.Break.{give_back, unmap_loop}
use kfs.Heap.Break.Frames.{give_back-Returned}

module _ (p : Pager) (v : View p.World) where
  open p use {World, read, unmap_page}
  open v use {Valid, Spare, frame_at, lo, hi}

  -- The pages below `at` and their words stay, and a contiguous heap has the frames of the
  -- pages from `at` to its break back.
  pub record Unmaps (h : Heap) (w : World) (at : ℕ) (w' : World) : Type 0 where
    pub valid : Valid w'
    pub frames : (q : ℕ) → q < at → frame_at w' q ≡ frame_at w q
    pub words : (b : ℕ) → Mapped p v w b → page_of b < at → read w' b ≡ read w b
    pub spare : is_contiguous h.backing ≡ true → (g : ℕ) → Spare w g → Spare w' g
    pub freed :
        is_contiguous h.backing ≡ true
        → (q f : ℕ) → q % 4096 ≡ 0
        → at ≤ q
        → q < h.brk
        → frame_at w q ≡ some f
        → Spare w' f

  module _ (laws : Laws p v) (h : Heap) where
    -- One page.
    abbrev round : World → Option ℕ × World → World
    round w (some f, w1) = give_back p h w1 f
    round w (none, w1) = w1

    record Freed (w : World) (at : ℕ) (w' : World) : Type 0 where
      valid : Valid w'
      frames : (q : ℕ) → (at == q) ≡ false → frame_at w' q ≡ frame_at w q
      words : (b : ℕ) → Mapped p v w b → (at == page_of b) ≡ false → read w' b ≡ read w b
      spare : is_contiguous h.backing ≡ true → (g : ℕ) → Spare w g → Spare w' g
      freed : is_contiguous h.backing ≡ true → (f : ℕ) → frame_at w at ≡ some f → Spare w' f

    round-Freed :
        (w : World) (at : ℕ) (r : Option ℕ × World)
        → UnmapOutcome p v w at r
        → Freed w at (round w r)
    round-Freed w at (none, w1) (gone, k) = record {
      valid = k.valid;
      frames = λ q e. k.frames q;
      words = λ b m e. k.words b m;
      spare = λ c g s. k.spare g s;
      freed = λ c f e. absurd (cc (gone, e));
    }
    round-Freed w at (some f, w1) u =
        let r = give_back-Returned p v laws h w1 f h.backing refl u.valid u.fresh in
        record {
          valid = r.valid;
          frames = λ q e. r.frames q ∙ u.frames q ∙ rw e refl;
          words = λ b m e.
              let m1 : Mapped p v w1 b =
                (m.0, λ gone. m.1 (sym (u.frames (page_of b) ∙ rw e refl) ∙ gone)) in
              r.words b m1 ∙ u.words b m (ground arith);
          spare = λ c g s. r.spare c g (u.spare g s);
          freed = λ c g e. let q : g ≡ f = ground (arith, u.was_some) in rw q (r.spare c f u.fresh);
        }

    unmap_ends : (fuel : ℕ) (w : World) (at : ℕ) → h.brk ≤ at → unmap_loop p h fuel w at ≡ w
    unmap_ends zero w at e = unfold unmap_loop in refl
    unmap_ends (suc fuel) w at e =
        let q : ltb at h.brk ≡ false = ground arith in unfold unmap_loop in rw (q, unmap_loop)

    unmap_moves :
        (fuel : ℕ) (w : World) (at : ℕ) (r : Option ℕ × World)
        → ltb at h.brk ≡ true
        → unmap_page w at ≡ r
        → unmap_loop p h (suc fuel) w at ≡ unmap_loop p h fuel (round w r) (u32 (at + page_size))
    unmap_moves fuel w at (some f, w1) e q =
        unfold unmap_loop in
        rw (
          e,
          ap (λ (r : Option ℕ × World). r.0) q,
          ap (λ (r : Option ℕ × World). r.1) q,
          unmap_loop,
        )
    unmap_moves fuel w at (none, w1) e q =
        unfold unmap_loop in
        rw (
          e,
          ap (λ (r : Option ℕ × World). r.0) q,
          ap (λ (r : Option ℕ × World). r.1) q,
          unmap_loop,
        )

    Unmaps-none : (w : World) (at : ℕ) → h.brk ≤ at → Valid w → Unmaps h w at w
    Unmaps-none w at e valid = record {
      valid = valid;
      frames = λ q l. refl;
      words = λ b m l. refl;
      spare = λ c g s. s;
      freed = λ c q f ev a l. absurd (omega arith);
    }

    Unmaps-step :
        (w : World) (at : ℕ) (w1 w2 : World)
        → at % 4096 ≡ 0
        → Freed w at w1
        → Unmaps h w1 (at + 4096) w2
        → Unmaps h w at w2
    Unmaps-step w at w1 w2 even f u = record {
      valid = u.valid;
      frames = λ q l. u.frames q (omega arith) ∙ f.frames q (ground arith);
      words = λ b m l.
          let m1 : Mapped p v w1 b = (m.0, rw (f.frames (page_of b) (ground arith)) m.1) in
          u.words b m1 (omega arith) ∙ f.words b m (ground arith);
      spare = λ c g s. u.spare c g (f.spare c g s);
      freed = λ c q g ev a l e. elim (Bool-cases (at == q)) [
        | inl here ↦ let q' : q ≡ at = ground arith in u.spare c g (f.freed c g (rw⁻¹ q' e))
        | inr other ↦ u.freed c q g ev (ground arith) l (f.frames q other ∙ e)
      ];
    }

    -- Enough rounds reach the break.
    pub unmap_loop-Unmaps :
        (fuel : ℕ) (w : World) (at : ℕ)
        → h.brk ≤ at + fuel * 4096
        → Valid w
        → at % 4096 ≡ 0
        → h.brk % 4096 ≡ 0
        → lo ≤ at
        → h.brk ≤ hi
        → h.brk + 4096 < 2 ^ 32
        → Unmaps h w at (unmap_loop p h fuel w at)
    unmap_loop-Unmaps zero w at enough valid even top above below low =
        rw (unmap_ends zero w at (omega arith)) (Unmaps-none w at (omega arith) valid)
    unmap_loop-Unmaps (suc fuel) w at enough valid even top above below low =
        elim (Bool-cases (ltb at h.brk)) [
          | inr out ↦
              rw (unmap_ends (suc fuel) w at (ground arith)) (Unmaps-none w at (ground arith) valid)
          | inl more ↦
              let f =
                round-Freed w at (unmap_page w at)
                  (laws.unmap_page-UnmapOutcome w at valid even above (ground arith)) in
              let n : u32 (at + page_size) ≡ at + 4096 = ground arith in
              rw (unmap_moves fuel w at (unmap_page w at) more refl, n)
                (Unmaps-step w at (round w (unmap_page w at)) _ even f (
                  unmap_loop-Unmaps fuel (round w (unmap_page w at)) (at + 4096) (omega arith)
                    f.valid (omega arith) top (omega arith) below low))
        ]
