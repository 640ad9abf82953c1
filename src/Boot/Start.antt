-- ===== src/Boot/Start.antt =====
-- `init` of kernel/src/mem.rs as a whole, from the words that the boot loader has left.
use Prim.Native.String.{String}
use kfs.Base.{
  ℕ, ◌+◌, ◌/◌, ◌<◌, ◌^◌, ◌≤◌, ◌≡◌, refl, arith, ltb, ◌∙◌, Bool-cases, inl, inr, ◌⊎◌, ap, sym, subst,
  some,
}
use kfs.Multiboot.{probe}
use kfs.Multiboot.Probe.{Answer, Visits, stop_of, probe-Answer}
use kfs.Multiboot.Regions.{Ram}
use kfs.Mem.{kernel_window_end}
use kfs.Pmm.{start, page_size}
use kfs.Pmm.Run.{IsRun}
use kfs.Pmm.Carve.{Halved}
use kfs.Paging.{Machine}
use kfs.Boot.{Linked, Memory, reserved, init_ram, with_ram, init}
use kfs.Boot.Frames.{Ends}
use kfs.Boot.Ready.{Started, Ready, wanted, Outcome, init_ram-Outcome}

-- No run of frames is long enough for the heap's window, of which the size is halved down to 16 pages.
abbrev pub NoRun : Linked → Ram → Type 0
NoRun l ram =
    (q : ℕ)
    → Halved (wanted ram / page_size) q
    → 16 ≤ q
    → (at : ℕ) → ¬ IsRun (reserved start ram l) at q

-- A panic, with what made it one, or heaps that are ready on the memory that was found.
abbrev pub Booted : (ℕ → ℕ) → Linked → ℕ → ℕ → String ⊎ Memory → Type 0
Booted rd l magic info (inl why) =
    (probe rd (2 ^ 32) magic info ≡ some (inl why))
    ⊎ ((ram : Ram) × (probe rd (2 ^ 32) magic info ≡ some (inr ram))
        × ((kernel_window_end < l.image.end) ⊎ NoRun l ram))
Booted rd l magic info (inr memory) =
    (probe rd (2 ^ 32) magic info ≡ some (inr memory.ram))
    × (l.image.end ≤ kernel_window_end)
    × Ready (reserved start memory.ram l) memory

module _ (rd : ℕ → ℕ) (m : Machine) (l : Linked) (magic info : ℕ) where
  init_answers :
      (answer : String ⊎ Ram)
      → probe rd (2 ^ 32) magic info ≡ some answer
      → init rd (2 ^ 32) m l magic info ≡ some (with_ram m l answer)
  init_answers answer e = unfold init in rw (e, init)

  Booted-with_ram :
      (low : ℕ)
      → Started m l low
      → (answer : String ⊎ Ram) → ((ram : Ram) → answer ≡ inr ram → Ends ram)
      → probe rd (2 ^ 32) magic info ≡ some answer
      → Answer rd answer
      → Booted rd l magic info (with_ram m l answer)
  Booted-with_ram low b (inl why) ends probed a = inl probed
  Booted-with_ram low b (inr ram) ends probed (sound, _) =
      elim (Bool-cases (ltb kernel_window_end l.image.end)) [
        | inl large ↦
            let e : init_ram m l ram ≡ inl "the kernel image ends past its 4 mb window" =
              unfold init_ram in rw large refl in
            rw e (inr (ram, probed, inl (ground arith)))
        | inr fits ↦
            let low_end : l.image.end ≤ kernel_window_end = ground arith in
            from_outcome low_end (init_ram m l ram)
              (init_ram-Outcome ram sound (ends ram refl) m l low b low_end)
      ]
    where
      from_outcome :
          (fits : l.image.end ≤ kernel_window_end) (r : String ⊎ Memory)
          → Outcome ram sound (ends ram refl) m l low b fits r
          → Booted rd l magic info r
      from_outcome fits (inl why) o = inr (ram, probed, inr o)
      from_outcome fits (inr memory) (same, ready) = (
        probed ∙ ap (λ n. some (inr n)) (sym same),
        fits,
        subst (λ r. Ready (reserved start r l) memory) (sym same) ready,
      )

  -- From the state that the boot code leaves, where the size of no entry of the memory map carries
  -- `probe` to the last 8 bytes below 4 GB or past them, and where the memory that it finds ends 32 MB
  -- and two pages below 4 GB or earlier, `init` ends. It panics only when `probe` answers with an error,
  -- when the kernel's image ends past its window, or when no run of free frames is long enough for
  -- kmalloc's window. Otherwise both heaps are well formed and empty over the kernel's own page
  -- tables, in which no frame has two uses, and kmalloc's window is frames that were free, outside
  -- the kernel's image.
  pub init-Booted :
      (low : ℕ)
      → Started m l low
      → ((a : ℕ)
          → Visits rd (rd (info + 48)) (stop_of rd info) a
          → a + 8 ≤ stop_of rd info
          → a + rd a + 12 < 2 ^ 32)
      → ((ram : Ram) → probe rd (2 ^ 32) magic info ≡ some (inr ram) → Ends ram)
      → (r : String ⊎ Memory) × (init rd (2 ^ 32) m l magic info ≡ some r)
        × Booted rd l magic info r
  init-Booted low b gentle ends =
      let (answer, e, a) = probe-Answer rd magic info gentle in
      (
        with_ram m l answer,
        init_answers answer e,
        Booted-with_ram low b answer (λ ram q. ends ram (e ∙ ap (λ n. some n) q)) e a,
      )
