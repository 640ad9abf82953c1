-- ===== src/Heap/Break/Frames.antt =====
-- The frames that `grow` and `shrink` of kernel/src/heap.rs take and give back.
use kfs.Base.{
  ℕ, ◌+◌, ◌-◌, ◌%◌, ◌^◌, ◌≤◌, ◌<◌, ◌≡◌, refl, true, Option, none, some, ltb, if◌then◌else◌, arith,
  Bool-cases, inl, inr, ◌∙◌, ap, u32, sub32,
}
use kfs.Pager.{Pager, View, Laws, Mapped, page_of, Keeps, AllocOutcome}
use kfs.Heap.{Heap, Backing, contiguous, scattered, is_contiguous, page_size}
use kfs.Heap.State.{Window}
use kfs.Heap.Break.{frame_for, give_back}

module _ (p : Pager) (v : View p.World) where
  open p use {World, read, map_page, alloc_frame, free_frame, oops}
  open v use {Valid, Spare, frame_at, lo, hi}

  -- The page's frame is the caller's, and that of a contiguous heap is the one its window holds.
  abbrev pub FrameOutcome : Heap → World → ℕ → Option ℕ × World → Type 0
  FrameOutcome h w at (none, w') = Keeps p v w w'
  FrameOutcome h w at (some f, w') =
      Keeps p v w w'
      × Spare w' f
      × (is_contiguous h.backing ≡ true → f ≡ h.phys_base + (at - h.base))

  -- Words and pages stay, and the frames of a contiguous heap do.
  pub record Returned (h : Heap) (w w' : World) : Type 0 where
    pub valid : Valid w'
    pub frames : (q : ℕ) → frame_at w' q ≡ frame_at w q
    pub words : (b : ℕ) → Mapped p v w b → read w' b ≡ read w b
    pub spare : is_contiguous h.backing ≡ true → (g : ℕ) → Spare w g → Spare w' g

  module _ (laws : Laws p v) (h : Heap) where
    frame_contiguous :
        (w : World) (at : ℕ)
        → h.backing ≡ contiguous
        → frame_for p h w at ≡ (
            let frame = u32 (h.phys_base + sub32 at h.base) in
            if ltb h.phys_end (u32 (frame + page_size)) then (none, oops w) else (some frame, w))
    frame_contiguous w at e = unfold frame_for in rw e

    frame_scattered :
        (w : World) (at : ℕ) (got : Option ℕ) (w' : World)
        → h.backing ≡ scattered
        → alloc_frame w ≡ (got, w')
        → frame_for p h w at ≡ (elim got [ some frame ↦ (some frame, w') | none ↦ (none, oops w') ])
    frame_scattered w at got w' e q =
        unfold frame_for in
        rw e (
          ap
            (λ (r : Option ℕ × World). elim r.0 [
              | some frame ↦ (some frame, r.1)
              | none ↦ (none, oops r.1)
            ])
            q)

    FrameOutcome-scattered :
        (w : World) (at : ℕ) (r : Option ℕ × World)
        → Valid w
        → h.backing ≡ scattered
        → alloc_frame w ≡ r
        → AllocOutcome p v w r
        → FrameOutcome h w at (frame_for p h w at)
    FrameOutcome-scattered w at (none, w') valid e q k =
        let o = laws.oops-Keeps w' k.valid in
        rw (frame_scattered w at none w' e q) (record {
          valid = o.valid;
          frames = λ b. o.frames b ∙ k.frames b;
          spare = λ g s. o.spare g (k.spare g s);
          words = λ b m. o.words b (m.0, rw (k.frames (page_of b)) m.1) ∙ k.words b m;
        })
    FrameOutcome-scattered w at (some f, w') valid e q (s, k) =
        rw (frame_scattered w at (some f) w' e q) (k, s, λ c. absurd (cc (c, e)))

    pub Keeps-refl : (w : World) → Valid w → Keeps p v w w
    Keeps-refl w valid = record {
      valid = valid;
      frames = λ q. refl;
      spare = λ g s. s;
      words = λ b m. refl;
    }

    pub frame_for-FrameOutcome :
        (w : World) (at : ℕ) (b : Backing)
        → h.backing ≡ b
        → Valid w
        → h.base ≤ at
        → at + page_size ≤ h.limit
        → at % 4096 ≡ 0
        → h.limit < 2 ^ 32
        → (is_contiguous h.backing ≡ true → Window p v (record h { brk = at }) w)
        → FrameOutcome h w at (frame_for p h w at)
    frame_for-FrameOutcome w at scattered e valid lower upper even low win =
        FrameOutcome-scattered w at (alloc_frame w) valid e refl
          (laws.alloc_frame-AllocOutcome w valid)
    frame_for-FrameOutcome w at contiguous e valid lower upper even low win =
        let m = win (ap is_contiguous e) in
        let q : u32 (h.phys_base + sub32 at h.base) ≡ h.phys_base + (at - h.base) =
          omega (arith, m.fits) in
        let n : u32 (h.phys_base + (at - h.base) + page_size)
            ≡ h.phys_base + (at - h.base) + page_size =
          omega (arith, m.fits) in
        rw (frame_contiguous w at e, q, n)
          (elim (Bool-cases (ltb h.phys_end (h.phys_base + (at - h.base) + page_size))) [
            | inl out ↦ rw out (laws.oops-Keeps w valid)
            | inr fits ↦
                rw fits (
                  Keeps-refl w valid,
                  m.spare at even (omega arith) upper (ground arith),
                  λ c. refl,
                )
          ])

    pub give_back-Returned :
        (w : World) (f : ℕ) (b : Backing)
        → h.backing ≡ b
        → Valid w
        → Spare w f
        → Returned h w (give_back p h w f)
    give_back-Returned w f contiguous e valid s =
        let q : give_back p h w f ≡ w = unfold give_back in rw e in
        rw q (record { valid = valid; frames = λ q. refl; words = λ b m. refl; spare = λ c g k. k })
    give_back-Returned w f scattered e valid s =
        let q : give_back p h w f ≡ free_frame w f = unfold give_back in rw e in
        let k = laws.free_frame-Gives w f valid s in
        rw q (record {
          valid = k.valid;
          frames = k.frames;
          words = k.words;
          spare = λ c. absurd (cc (c, e));
        })
