-- ===== src/Pager.antt =====
-- What kernel/src/heap.rs uses of the rest of the kernel: words of mapped memory, the page
-- functions of kernel/src/paging.rs, the frame functions of kernel/src/pmm.rs, and `koops!` of
-- kernel/src/panic.rs, of which the text is left out.
pub mod Flat
use kfs.Base.{
  ℕ, ◌+◌, ◌-◌, ◌%◌, ◌^◌, ◌≤◌, ◌<◌, ◌≡◌, ◌≢◌, Bool, true, false, Option, none, some, ◌==◌,
  if◌then◌else◌,
}

pub record Pager : Type 1 where
  pub World : Type 0
  pub read : World → ℕ → ℕ
  pub write : World → ℕ → ℕ → World
  pub map_page : World → ℕ → ℕ → ℕ → Bool × World
  pub unmap_page : World → ℕ → Option ℕ × World
  pub alloc_frame : World → Option ℕ × World
  pub free_frame : World → ℕ → World
  pub oops : World → World

-- How a world is seen from a heap. `frame_at w q` is the frame that the page `q` shows, and
-- `Spare w f` says that the frame `f` is the caller's, to map or to give back.
pub record View (World : Type 0) : Type 1 where
  pub Valid : World → Type 0
  pub Spare : World → ℕ → Type 0
  pub frame_at : World → ℕ → Option ℕ
  pub lo : ℕ
  pub hi : ℕ

abbrev pub page_of : ℕ → ℕ
page_of a = a - a % 4096

module _ (p : Pager) (v : View p.World) where
  open p use {World, read, write, map_page, unmap_page, alloc_frame, free_frame, oops}
  open v use {Valid, Spare, frame_at, lo, hi}

  -- The word at `a` is mapped.
  abbrev pub Mapped : World → ℕ → Type 0
  Mapped w a = (a % 4 ≡ 0) × (frame_at w (page_of a) ≢ none)

  -- Nothing that a heap sees changes.
  pub record Keeps (w w' : World) : Type 0 where
    pub valid : Valid w'
    pub frames : (q : ℕ) → frame_at w' q ≡ frame_at w q
    pub spare : (g : ℕ) → Spare w g → Spare w' g
    pub words : (b : ℕ) → Mapped w b → read w' b ≡ read w b

  pub record Wrote (w : World) (a x : ℕ) (w' : World) : Type 0 where
    pub valid : Valid w'
    pub frames : (q : ℕ) → frame_at w' q ≡ frame_at w q
    pub spare : (g : ℕ) → Spare w g → Spare w' g
    pub words : (b : ℕ) → Mapped w b → read w' b ≡ (if a == b then x else read w b)

  pub record MapsAt (w : World) (at f : ℕ) (w' : World) : Type 0 where
    pub was_none : frame_at w at ≡ none
    pub valid : Valid w'
    pub frames : (q : ℕ) → frame_at w' q ≡ (if at == q then some f else frame_at w q)
    pub spare : (g : ℕ) → Spare w g → g ≢ f → Spare w' g
    pub words : (b : ℕ) → Mapped w b → read w' b ≡ read w b

  abbrev pub MapOutcome : World → ℕ → ℕ → Bool × World → Type 0
  MapOutcome w at f (true, w') = MapsAt w at f w'
  MapOutcome w at f (false, w') = Keeps w w'

  pub record UnmapsAt (w : World) (at f : ℕ) (w' : World) : Type 0 where
    pub was_some : frame_at w at ≡ some f
    pub valid : Valid w'
    pub frames : (q : ℕ) → frame_at w' q ≡ (if at == q then none else frame_at w q)
    pub spare : (g : ℕ) → Spare w g → Spare w' g
    pub fresh : Spare w' f
    pub words : (b : ℕ) → Mapped w b → page_of b ≢ at → read w' b ≡ read w b

  abbrev pub UnmapOutcome : World → ℕ → Option ℕ × World → Type 0
  UnmapOutcome w at (some f, w') = UnmapsAt w at f w'
  UnmapOutcome w at (none, w') = (frame_at w at ≡ none) × Keeps w w'

  abbrev pub AllocOutcome : World → Option ℕ × World → Type 0
  AllocOutcome w (some f, w') = Spare w' f × Keeps w w'
  AllocOutcome w (none, w') = Keeps w w'

  -- The frame leaves the caller's hands, and nothing else changes.
  pub record Gives (w : World) (f : ℕ) (w' : World) : Type 0 where
    pub valid : Valid w'
    pub frames : (q : ℕ) → frame_at w' q ≡ frame_at w q
    pub spare : (g : ℕ) → Spare w g → g ≢ f → Spare w' g
    pub given : Spare w' f → ⊥
    pub words : (b : ℕ) → Mapped w b → read w' b ≡ read w b

  pub record Laws : Type 0 where
    pub write-Wrote :
        (w : World) (a x : ℕ) → Valid w → Mapped w a → x < 2 ^ 32 → Wrote w a x (write w a x)
    pub map_page-MapOutcome :
        (w : World) (at f flags : ℕ)
        → Valid w
        → Spare w f
        → at % 4096 ≡ 0
        → lo ≤ at
        → at + 4096 ≤ hi
        → flags < 4096
        → MapOutcome w at f (map_page w at f flags)
    pub unmap_page-UnmapOutcome :
        (w : World) (at : ℕ)
        → Valid w
        → at % 4096 ≡ 0
        → lo ≤ at
        → at + 4096 ≤ hi
        → UnmapOutcome w at (unmap_page w at)
    pub alloc_frame-AllocOutcome : (w : World) → Valid w → AllocOutcome w (alloc_frame w)
    pub free_frame-Gives : (w : World) (f : ℕ) → Valid w → Spare w f → Gives w f (free_frame w f)
    pub oops-Keeps : (w : World) → Valid w → Keeps w (oops w)
