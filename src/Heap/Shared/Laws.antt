-- ===== src/Heap/Shared/Laws.antt =====
-- What kernel/src/heap.rs relies on holds of its own range alone, and then the other heap is kept.
use kfs.Base.{
  ℕ, ◌+◌, ◌%◌, ◌≤◌, ◌<◌, ◌≡◌, ◌≢◌, refl, Bool, true, false, ◌&&◌, Option, none, some, List, arith,
  ltb, leb, ◌==◌, if◌then◌else◌, ◌⊎◌, inl, inr, ◌∙◌, ap, sym, Bool-cases,
}
use kfs.Pager.{
  Pager, View, Laws, Mapped, page_of, Keeps, Wrote, MapOutcome, UnmapOutcome, AllocOutcome, Gives,
}
use kfs.Heap.{Heap}
use kfs.Heap.Blocks.{Block}
use kfs.Heap.State.{IsHeap}
use kfs.Heap.Shared.{InWindow, other-IsHeap, narrow}

-- Neither a page's frame nor one that is handed out is the caller's before.
pub record Fresh (p : Pager) (v : View p.World) : Type 0 where
  pub shown : (w : p.World) (q f : ℕ) → v.Valid w → v.frame_at w q ≡ some f → v.Spare w f → ⊥
  pub handed :
      (w w' : p.World) (f : ℕ) → v.Valid w → p.alloc_frame w ≡ (some f, w') → v.Spare w f → ⊥

module _ (p : Pager) (v : View p.World) (laws : Laws p v) (fresh : Fresh p v) (other : Heap)
    (bs : List Block) (from to : ℕ) (even : to % 4096 ≡ 0) (above : v.lo ≤ from) (below : to ≤ v.hi)
    (apart : (other.limit ≤ from) ⊎ (to ≤ other.base)) where
  open p use {World, read, write, map_page, unmap_page, alloc_frame, free_frame, oops}
  open v use {Valid, Spare, frame_at, lo, hi}

  abbrev here : View World
  here = narrow p v other bs from to

  -- A frame of the other heap's window is the caller's, so it is in no page and is not handed out.
  window-Spare : (w : World) (f : ℕ) → IsHeap p v other w bs → InWindow p v other bs f → Spare w f
  window-Spare w f is (c, q, e, a, l, n, at) = rw at ((is.window c).spare q e a l n)

  Mapped-wide : (w : World) (b : ℕ) → Mapped p here w b → Mapped p v w b
  Mapped-wide w b (e, there) = (e, λ gone. there (ground (arith, gone)))

  Mapped-inside : (w : World) (b : ℕ) → Mapped p here w b → (from ≤ page_of b) × (page_of b < to)
  Mapped-inside w b (e, there) = elim (Bool-cases (leb from (page_of b) && ltb (page_of b) to)) [
    | inl inside ↦ (ground arith, ground arith)
    | inr out ↦ absurd (there (rw out refl))
  ]

  seen :
      (w w' : World) (q : ℕ) → frame_at w' q ≡ frame_at w q → here.frame_at w' q ≡ here.frame_at w q
  seen w w' q e = ap (λ o. if leb from q && ltb q to then o else none) e

  Keeps-narrow : (w w' : World) → here.Valid w → Keeps p v w w' → Keeps p here w w'
  Keeps-narrow w w' (val, is) k = record {
    valid = (
      k.valid,
      other-IsHeap p v other bs w w' is k.valid (λ q a l. k.frames q) (λ f i s. k.spare f s)
          (λ b n a l. k.words b n),
    );
    frames = λ q. seen w w' q (k.frames q);
    spare = λ g s. (k.spare g s.0, s.1);
    words = λ b n. k.words b (Mapped-wide w b n);
  }

  unwritten :
      (w : World) (a x b : ℕ)
      → Mapped p here w a
      → other.base ≤ b
      → b < other.limit
      → (if a == b then x else read w b) ≡ read w b
  unwritten w a x b n s l =
      let i = Mapped-inside w a n in let ne : a ≢ b = omega (arith, i) in ground (arith, ne)

  elsewhere :
      (at q : ℕ) (o was : Option ℕ)
      → from ≤ at
      → at + 4096 ≤ to
      → other.base ≤ q
      → q < other.limit
      → (if at == q then o else was) ≡ was
  elsewhere at q o was a b c l = let ne : at ≢ q = omega arith in ground (arith, ne)

  Wrote-narrow :
      (w : World) (a x : ℕ) (w' : World)
      → here.Valid w
      → Mapped p here w a
      → Wrote p v w a x w'
      → Wrote p here w a x w'
  Wrote-narrow w a x w' (val, is) n k = record {
    valid = (
      k.valid,
      other-IsHeap p v other bs w w' is k.valid (λ q s l. k.frames q) (λ f i s. k.spare f s)
          (λ b m s l. k.words b m ∙ unwritten w a x b n s l),
    );
    frames = λ q. seen w w' q (k.frames q);
    spare = λ g s. (k.spare g s.0, s.1);
    words = λ b m. k.words b (Mapped-wide w b m);
  }

  map-narrow :
      (w : World) (at f : ℕ) (r : Bool × World)
      → here.Valid w
      → here.Spare w f
      → at % 4096 ≡ 0
      → from ≤ at
      → at + 4096 ≤ to
      → MapOutcome p v w at f r
      → MapOutcome p here w at f r
  map-narrow w at f (false, w') valid s e a b k = Keeps-narrow w w' valid k
  map-narrow w at f (true, w') (val, is) s e a b k = record {
    was_none = ground (arith, k.was_none);
    valid = (
      k.valid,
      other-IsHeap p v other bs w w' is k.valid
          (λ q c l. k.frames q ∙ elsewhere at q (some f) (frame_at w q) a b c l)
          (λ g i t. k.spare g t (λ same. s.1 (rw (sym same) i))) (λ c n d l. k.words c n),
    );
    frames = λ q. ground (arith, k.frames q);
    spare = λ g t ne. (k.spare g t.0 ne, t.1);
    words = λ c n. k.words c (Mapped-wide w c n);
  }

  unmap-narrow :
      (w : World) (at : ℕ) (r : Option ℕ × World)
      → here.Valid w
      → at % 4096 ≡ 0
      → from ≤ at
      → at + 4096 ≤ to
      → UnmapOutcome p v w at r
      → UnmapOutcome p here w at r
  unmap-narrow w at (none, w') valid e a b (gone, k) =
      (ground (arith, gone), Keeps-narrow w w' valid k)
  unmap-narrow w at (some f, w') (val, is) e a b k = record {
    was_some = ground (arith, k.was_some);
    valid = (
      k.valid,
      other-IsHeap p v other bs w w' is k.valid
          (λ q c l. k.frames q ∙ elsewhere at q none (frame_at w q) a b c l) (λ g i t. k.spare g t)
          (λ c n d l. k.words c n (omega arith)),
    );
    frames = λ q. ground (arith, k.frames q);
    spare = λ g t. (k.spare g t.0, t.1);
    fresh = (k.fresh, λ i. fresh.shown w at f val k.was_some (window-Spare w f is i));
    words = λ c n ne. k.words c (Mapped-wide w c n) ne;
  }

  alloc-narrow :
      (w : World) (r : Option ℕ × World)
      → here.Valid w
      → alloc_frame w ≡ r
      → AllocOutcome p v w r
      → AllocOutcome p here w r
  alloc-narrow w (none, w') valid e k = Keeps-narrow w w' valid k
  alloc-narrow w (some f, w') valid e (s, k) = (
    (s, λ i. fresh.handed w w' f valid.0 e (window-Spare w f valid.1 i)),
    Keeps-narrow w w' valid k,
  )

  Gives-narrow :
      (w : World) (f : ℕ) (w' : World)
      → here.Valid w
      → here.Spare w f
      → Gives p v w f w'
      → Gives p here w f w'
  Gives-narrow w f w' (val, is) s k = record {
    valid = (
      k.valid,
      other-IsHeap p v other bs w w' is k.valid (λ q c l. k.frames q)
          (λ g i t. k.spare g t (λ same. s.1 (rw (sym same) i))) (λ c n d l. k.words c n),
    );
    frames = λ q. seen w w' q (k.frames q);
    spare = λ g t ne. (k.spare g t.0 ne, t.1);
    given = λ t. k.given t.0;
    words = λ c n. k.words c (Mapped-wide w c n);
  }

  -- The heap between `from` and `to` may rely on what it sees, and the other heap is part of
  -- what it keeps.
  pub narrow-Laws : Laws p here
  narrow-Laws = record {
    write-Wrote = λ w a x valid n low.
        Wrote-narrow w a x (write w a x) valid n
          (laws.write-Wrote w a x valid.0 (Mapped-wide w a n) low);
    map_page-MapOutcome = λ w at f flags valid s e a b small.
        map-narrow w at f (map_page w at f flags) valid s e a b
          (laws.map_page-MapOutcome w at f flags valid.0 s.0 e (omega arith) (omega arith) small);
    unmap_page-UnmapOutcome = λ w at valid e a b.
        unmap-narrow w at (unmap_page w at) valid e a b
          (laws.unmap_page-UnmapOutcome w at valid.0 e (omega arith) (omega arith));
    alloc_frame-AllocOutcome = λ w valid.
        alloc-narrow w (alloc_frame w) valid refl (laws.alloc_frame-AllocOutcome w valid.0);
    free_frame-Gives = λ w f valid s.
        Gives-narrow w f (free_frame w f) valid s (laws.free_frame-Gives w f valid.0 s.0);
    oops-Keeps = λ w valid. Keeps-narrow w (oops w) valid (laws.oops-Keeps w valid.0);
  }
