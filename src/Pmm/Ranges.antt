-- ===== src/Pmm/Ranges.antt =====
-- Taking many frames at once: `reserve` and `alloc_range` of kernel/src/pmm.rs.
use kfs.Base.{
  ℕ, zero, suc, ◌+◌, ◌-◌, ◌*◌, ◌/◌, ◌%◌, ◌^◌, ◌≤◌, ◌<◌, ◌≡◌, refl, true, false, ◌&&◌, arith,
  Option-cases, subst, inl, inr, ltb, leb, Option, none, some, ◌∙◌, if◌then◌else◌, u32,
}
use kfs.Pmm.{
  Pmm, page_size, max_frames, frame_of, address_of, free_bit, set_used, use_frames, reserve,
  find_run, alloc_range,
}
use kfs.Pmm.View.{free_bit-set_used}
use kfs.Pmm.Valid.{IsValid, free_bit-lt, set_used-IsValid, set_used_available, set_used-total}
use kfs.Pmm.Run.{IsRun, FirstRun, find_run-FirstRun}

pub use_frames-IsValid :
    (left : ℕ) (s : Pmm) (frame : ℕ) → IsValid s → IsValid (use_frames s left frame)
unfolding use_frames
use_frames-IsValid zero s frame v = v
use_frames-IsValid (suc left) s frame v =
    use_frames-IsValid left (set_used s frame) (frame + 1) (set_used-IsValid s frame v)

pub use_frames-total : (left : ℕ) (s : Pmm) (frame : ℕ) → (use_frames s left frame).total ≡ s.total
unfolding use_frames
use_frames-total zero s frame = refl
use_frames-total (suc left) s frame =
    use_frames-total left (set_used s frame) (frame + 1) ∙ set_used-total s frame

pub free_bit-use_frames :
    (left : ℕ) (s : Pmm) (frame g : ℕ)
    → free_bit (use_frames s left frame) g
      ≡ (if leb frame g && ltb g (frame + left) then false else free_bit s g)
unfolding use_frames
free_bit-use_frames zero s frame g = ground arith
free_bit-use_frames (suc left) s frame g =
    ground (
      arith,
      free_bit-use_frames left (set_used s frame) (frame + 1) g,
      free_bit-set_used s frame g,
    )

IsRun-after_first :
    (s : Pmm) (frame left : ℕ)
    → IsRun s frame (suc left)
    → IsRun (set_used s frame) (frame + 1) left
IsRun-after_first s frame left run j h =
    let e : frame + 1 + j ≡ frame + suc j = omega arith in
    ground (arith, e, free_bit-set_used s frame (frame + 1 + j), run (suc j))

pub use_frames_available :
    (left : ℕ) (s : Pmm) (frame : ℕ)
    → IsValid s
    → IsRun s frame left
    → (use_frames s left frame).available + left ≡ s.available
unfolding use_frames
use_frames_available zero s frame v run = omega arith
use_frames_available (suc left) s frame v run =
    let e : frame + 0 ≡ frame = omega arith in
    let first =
      set_used_available s frame v (subst (λ f. free_bit s f ≡ true) e (run 0 (omega arith))) in
    let rest =
      use_frames_available left (set_used s frame) (frame + 1) (set_used-IsValid s frame v)
        (IsRun-after_first s frame left run) in
    omega arith

-- The frames of a run are taken, and no other changes.
pub record TakenRun (s : Pmm) (base count : ℕ) (s' : Pmm) : Type 0 where
  pub was_free : IsRun s base count
  pub view :
      (g : ℕ) → free_bit s' g ≡ (if leb base g && ltb g (base + count) then false else free_bit s g)
  pub fewer : s'.available + count ≡ s.available
  pub total : s'.total ≡ s.total
  pub valid : IsValid s'

abbrev pub TakesRun : Pmm → ℕ → Option ℕ × Pmm → Type 0
TakesRun s count (some phys, s') =
    (b : ℕ) × (phys ≡ b * page_size) × TakenRun s b count s' × ((c : ℕ) → c < b → ¬ IsRun s c count)
TakesRun s count (none, s') = (s' ≡ s) × ((b : ℕ) → ¬ IsRun s b count)

module _ (s : Pmm) (count : ℕ) where
  found :
      {base : ℕ}
      → find_run s count ≡ some base
      → alloc_range s count ≡ (some (address_of base), use_frames s count base)
  found e = unfold alloc_range in rw (e, alloc_range)

  missing : find_run s count ≡ none → alloc_range s count ≡ (none, s)
  missing e = unfold alloc_range in rw (e, alloc_range)

  -- `alloc_range` takes the first run of `count` free frames, all of it and nothing else, and
  -- changes nothing when there is no such run.
  pub alloc_range-TakesRun :
      IsValid s → 0 < count → count ≤ max_frames → TakesRun s count (alloc_range s count)
  alloc_range-TakesRun v pos fits = elim (Option-cases (find_run s count)) [
    | inl e ↦ rw (missing e) (refl, subst (FirstRun s count) e (find_run-FirstRun s count pos fits))
    | inr (base, e) ↦
        let (run, lowest) = subst (FirstRun s count) e (find_run-FirstRun s count pos fits) in
        let low = free_bit-lt s (base + 0) (run 0 pos) in
        rw (found e) (
          base,
          unfold address_of in omega arith,
          record {
            was_free = run;
            view = free_bit-use_frames count s base;
            fewer = use_frames_available count s base v run;
            total = use_frames-total count s base;
            valid = use_frames-IsValid count s base v;
          },
          lowest,
        )
  ]

pub reserve-IsValid : (s : Pmm) (from to : ℕ) → IsValid s → IsValid (reserve s from to)
unfolding reserve
reserve-IsValid s from to v =
    use_frames-IsValid (frame_of (u32 (to + page_size - 1)) - frame_of from) s (frame_of from) v

-- `reserve` takes every frame that the range from `from` to `to` touches, and no other, for a range
-- that does not end before it begins and ends a page or more below 4 GB.
pub free_bit-reserve :
    (s : Pmm) (from to g : ℕ)
    → from ≤ to
    → to + page_size ≤ 2 ^ 32
    → free_bit (reserve s from to) g ≡ (
        if leb from (g * page_size + (page_size - 1)) && ltb (g * page_size) to
        then false
        else free_bit s g)
unfolding reserve frame_of
free_bit-reserve s from to g le fits =
    let first = from / 4096 in
    let last = (to + 4095) % 2 ^ 32 / 4096 in
    ground (arith, free_bit-use_frames (last - first) s first g)
