-- ===== src/Heap/Alloc/Lifetime.antt =====
-- An allocation of kernel/src/heap.rs that is freed again leaves no trace.
use kfs.Base.{
  ℕ, ◌+◌, ◌*◌, ◌/◌, ◌≤◌, ◌≡◌, ◌≢◌, List, none, some, max, ◌==◌, if◌then◌else◌, arith, inl, inr, ◌∙◌,
  ap, subst,
}
use kfs.Pager.{Pager, View, Laws}
use kfs.Heap.{Heap}
use kfs.Heap.Blocks.{Block, live}
use kfs.Heap.State.{IsHeap}
use kfs.Heap.Alloc.{alloc, free}
use kfs.Heap.Alloc.Free.{free-Updates}
use kfs.Heap.Alloc.Laws.{Allocates, alloc-Allocates}

module _ (p : Pager) (v : View p.World) where
  open p use {World, read}

  -- A heap with the allocations of `bs`.
  pub record Restores (h : Heap) (bs : List Block) (h' : Heap) (w' : World) : Type 0 where
    pub row : List Block
    pub heap : IsHeap p v h' w' row
    pub view : (y : ℕ) → live h.base row y ≡ live h.base bs y

  Restores-Allocates :
      (laws : Laws p v) (h : Heap) (bs : List Block) (need : ℕ) (r : ℕ × Heap × World)
      → Allocates p v h bs need r
      → Restores h bs r.1 (free p r.1 r.2 r.0)
  Restores-Allocates laws h bs need r a =
      let base : r.1.base ≡ h.base = ap (λ (k : Heap). k.base) a.same in
      let mine : live r.1.base a.row a.x ≡ some a.given = rw base (a.view a.x ∙ ground arith) in
      let u = free-Updates p v laws r.1 r.2 a.row a.x a.given a.heap mine in
      rw a.pointer (record {
        row = u.row;
        heap = u.heap;
        view = λ y.
            let q : live h.base u.row y ≡ (if a.x == y then none else live h.base a.row y) =
              subst (λ b. live b u.row y ≡ (if a.x == y then none else live b a.row y)) base
                (u.view y) in
            q ∙ ground (arith, a.view y, a.was_none);
      })

  -- `free` of the pointer that `alloc` has returned, where it is not null, gives a well formed
  -- heap with exactly the allocations from before.
  pub free-alloc :
      (laws : Laws p v) (h : Heap) (w : World) (bs : List Block) (want : ℕ)
      → IsHeap p v h w bs
      → want ≢ 0
      → h.base + 8 + want ≤ h.limit
      → (alloc p h w want).0 ≢ 0
      → Restores h bs
          (alloc p h w want).1
          (free p (alloc p h w want).1 (alloc p h w want).2 (alloc p h w want).0)
  free-alloc laws h w bs want is some_bytes fits there =
      elim (alloc-Allocates p v laws h w bs want is some_bytes fits) [
        | inl fails ↦ absurd (there fails.null)
        | inr a ↦ Restores-Allocates laws h bs ((max want 8 + 7) / 8 * 8) (alloc p h w want) a
      ]
