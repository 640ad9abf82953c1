-- ===== src/Pager/Flat.antt =====
-- A small pager that has what kernel/src/heap.rs relies on: words, a page table and the set of
-- the caller's frames are functions, and frames are handed out in turn.
use kfs.Base.{ℕ, suc, ◌+◌, ◌%◌, ◌≡◌, refl, Bool, true, false, Option, none, some, arith, update}
use kfs.Pager.{Pager, View, Laws, MapOutcome, UnmapOutcome}

pub record Flat : Type 0 where
  pub words : ℕ → ℕ
  pub shown : ℕ → Option ℕ
  pub spare : ℕ → Bool
  pub next : ℕ
  pub oopses : ℕ

abbrev pub flat_lo : ℕ
flat_lo = 0x10000

abbrev pub flat_hi : ℕ
flat_hi = 0x40000

abbrev map_flat : Option ℕ → Flat → ℕ → ℕ → Bool × Flat
map_flat (some g) w at f = (false, w)
map_flat none w at f =
    (true, record w { shown = update w.shown at (some f); spare = update w.spare f false })

abbrev unmap_flat : Option ℕ → Flat → ℕ → Option ℕ × Flat
unmap_flat none w at = (none, w)
unmap_flat (some f) w at =
    (some f, record w { shown = update w.shown at none; spare = update w.spare f true })

abbrev pub flat : Pager
flat = record {
  World = Flat;
  read = λ w a. w.words a;
  write = λ w a x. record w { words = update w.words a x };
  map_page = λ w at f flags. map_flat (w.shown at) w at f;
  unmap_page = λ w at. unmap_flat (w.shown at) w at;
  alloc_frame =
      λ w. (some w.next, record w { spare = update w.spare w.next true; next = w.next + 4096 });
  free_frame = λ w f. record w { spare = update w.spare f false };
  oops = λ w. record w { oopses = suc w.oopses };
}

abbrev pub flat_view : View Flat
flat_view = record {
  Valid = λ w. w.next % 4096 ≡ 0;
  Spare = λ w f. w.spare f ≡ true;
  frame_at = λ w. w.shown;
  lo = flat_lo;
  hi = flat_hi;
}

maps :
    (w : Flat) (at f : ℕ) (o : Option ℕ)
    → w.shown at ≡ o
    → w.next % 4096 ≡ 0
    → MapOutcome flat flat_view w at f (map_flat o w at f)
maps w at f (some g) e even = record {
  valid = omega arith;
  frames = λ q. refl;
  spare = λ g s. s;
  words = λ b m. refl;
}
maps w at f none e even = record {
  was_none = ground arith;
  valid = omega arith;
  frames = λ q. ground arith;
  spare = λ g s ne. ground arith;
  words = λ b m. refl;
}

unmaps :
    (w : Flat) (at : ℕ) (o : Option ℕ)
    → w.shown at ≡ o
    → w.next % 4096 ≡ 0
    → UnmapOutcome flat flat_view w at (unmap_flat o w at)
unmaps w at none e even = (
  ground arith,
  record { valid = omega arith; frames = λ q. refl; spare = λ g s. s; words = λ b m. refl },
)
unmaps w at (some f) e even = record {
  was_some = ground arith;
  valid = omega arith;
  frames = λ q. ground arith;
  spare = λ g s. ground arith;
  fresh = ground arith;
  words = λ b m ne. refl;
}

pub flat-Laws : Laws flat flat_view
flat-Laws = record {
  write-Wrote = λ w a x valid m low. record {
    valid = omega arith;
    frames = λ q. refl;
    spare = λ g s. s;
    words = λ b n. ground arith;
  };
  map_page-MapOutcome = λ w at f flags valid s e a b c. maps w at f (w.shown at) refl valid;
  unmap_page-UnmapOutcome = λ w at valid e a b. unmaps w at (w.shown at) refl valid;
  alloc_frame-AllocOutcome = λ w valid. (
    ground arith,
    record {
      valid = omega arith;
      frames = λ q. refl;
      spare = λ g s. ground arith;
      words = λ b m. refl;
    },
  );
  free_frame-Gives = λ w f valid s. record {
    valid = omega arith;
    frames = λ q. refl;
    spare = λ g t ne. ground arith;
    given = λ t. ground arith;
    words = λ b m. refl;
  };
  oops-Keeps = λ w valid. record {
    valid = omega arith;
    frames = λ q. refl;
    spare = λ g s. s;
    words = λ b m. refl;
  };
}
