-- ===== src/Gdt/Ranges.antt =====
-- What the descriptors of kernel/src/gdt.rs say, read back by kernel/src/shell.rs.
use Prim.{Unit, tt}
use kfs.Base.{ℕ, ◌≡◌, refl, some, List, [], ◌∷◌, ◌⊎◌, inl, inr, ◌/◌, suc, u32_max}
use kfs.Gdt.{Segment, flat, segments, seg_range, seg_type}

-- From the `i`-th entry on: each segment covers all 4 GB, is code or data, and its selector
-- names its place in the table.
pub CoverAll : ℕ → List Segment → Type 0
CoverAll i [] = Unit {0}
CoverAll i (s ∷ rest) =
    (seg_range s.descriptor ≡ some (0, u32_max))
    × ((seg_type s.descriptor ≡ "code rx") ⊎ (seg_type s.descriptor ≡ "data rw"))
    × (s.selector / 8 ≡ i)
    × CoverAll (suc i) rest

abbrev pub after_null : List Segment → List Segment
after_null [] = []
after_null (s ∷ rest) = rest

-- Every segment behind the null one covers all 4 GB, is readable code or writable data, and has the
-- selector of its place in the table.
pub segments-CoverAll : CoverAll 1 (after_null segments)
unfolding CoverAll flat seg_range seg_type
segments-CoverAll = (
  refl,
  inl refl,
  refl,
  (
    refl,
    inr refl,
    refl,
    (
      refl,
      inr refl,
      refl,
      (refl, inl refl, refl, (refl, inr refl, refl, (refl, inr refl, refl, tt))),
    ),
  ),
)
