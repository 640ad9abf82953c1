-- ===== src/Boot/Ready.antt =====
-- `init` of kernel/src/mem.rs from the state that boot/boot.asm leaves: the heaps are ready, over the
-- kernel's own page tables and frames.
use Prim.Native.String.{String}
use kfs.Base.{
  ℕ, ◌+◌, ◌-◌, ◌*◌, ◌/◌, ◌%◌, ◌^◌, ◌≤◌, ◌<◌, ◌≡◌, ◌≢◌, refl, true, false, arith, ltb, if◌then◌else◌,
  sym, ◌∙◌, Bool-cases, inl, inr, [], ◌⊎◌, ap, ◌==◌, subst, Option, some, none, min, u32,
}
use kfs.Multiboot.Regions.{Ram}
use kfs.Multiboot.Regions.Bounds.{Sound}
use kfs.Mem.{kernel_window_end, kernel_space, kheap_base, kheap_limit, page_of}
use kfs.Mem.Spaces.{page_of_fits}
use kfs.Pmm.{Pmm, start, max_frames, free_bit, page_size, carve}
use kfs.Pmm.Run.{IsRun}
use kfs.Pmm.Ranges.{TakenRun}
use kfs.Pmm.Carve.{Halved, Carves, carve-Carves}
use kfs.Paging as Paging
use kfs.Paging.{Machine, directory_phys}
use kfs.Paging.Init.{Low, Set, init-Set}
use kfs.Paging.Holds.{lo, hi, holds}
use kfs.Paging.Holds.Start.{holds-start}
use kfs.Paging.Owned.{Owned, paged, paged_view}
use kfs.Paging.Owned.Frames.{Alike-Owned, with_pmm}
use kfs.Heap.State.{IsHeap}
use kfs.Heap.Statics.{boot}
use kfs.Heap.Statics as Statics
use kfs.Heap.Statics.Steps as Steps
use kfs.Heap.Statics.Empty.{init-IsHeap, init-Sound, init_world, Reserved}
use kfs.Boot.{Linked, Memory, reserved, carved_at, carved, init_ram}
use kfs.Boot.Frames.{Ends, reserved-IsValid, reserved-image, reserved-ends}

-- The state that boot.asm leaves, with the kernel's image where the linker script puts it.
pub record Started (m : Machine) (l : Linked) (low : ℕ) : Type 0 where
  pub tables : Low m low
  pub gone : (d : ℕ) → lo / 2 ^ 22 ≤ d → d < hi / 2 ^ 22 → m.words (directory_phys m + 4 * d) ≡ 0
  pub pmm : m.pmm ≡ start
  pub table_even : l.table % 4096 ≡ 0
  pub table_above : kernel_space ≤ l.table
  pub table_end : l.table + 4096 ≤ l.image.end
  pub not_low : l.table - kernel_space ≢ low
  pub not_root : l.table - kernel_space ≢ directory_phys m
  pub loaded : l.load ≤ directory_phys m
  pub inside : directory_phys m + 4096 ≤ l.image.end - kernel_space

-- Both heaps are well formed and empty, and the window is frames of memory that
-- the kernel's image does not use.
pub record Ready (s : Pmm) (memory : Memory) : Type 0 where
  pub kernel : IsHeap paged paged_view memory.heaps.kernel memory.heaps.world []
  pub virtual : IsHeap paged paged_view memory.heaps.virtual memory.heaps.world []
  pub heaps : Steps.Sound paged paged_view memory.heaps
  pub wide : memory.window.0 + 16 * page_size ≤ memory.window.1
  pub free :
      (g : ℕ)
      → memory.window.0 ≤ g * page_size
      → g * page_size < memory.window.1
      → free_bit s g ≡ true

-- The size of the window that `init` asks for.
abbrev pub wanted : Ram → ℕ
wanted ram = page_of (u32 (min (kheap_limit - kheap_base) (ram.usable / 4)))

module _ (ram : Ram) (sound : Sound ram) (ends : Ends ram) (m : Machine) (l : Linked) (low : ℕ)
    (b : Started m l low) (fits : l.image.end ≤ kernel_window_end) where
  abbrev p : ℕ
  p = l.table - kernel_space

  abbrev free_then : Pmm
  free_then = reserved start ram l

  loaded_low : kernel_space + l.load ≤ l.image.end
  loaded_low = omega (arith, b.loaded, b.inside, b.table_above, b.table_end)

  abbrev handed : Machine
  handed = record m { pmm = free_then }

  handed-root : directory_phys handed ≡ directory_phys m
  handed-root = unfold directory_phys in refl

  handed-Low : Low handed low
  handed-Low =
      let t = b.tables in
      let r = handed-root in
      record {
        small = t.small;
        root_even = rw r t.root_even;
        root_below = rw r t.root_below;
        low_even = t.low_even;
        low_below = t.low_below;
        apart = rw r t.apart;
        self = rw r t.self;
        window = rw r t.window;
        identity = t.identity;
      }

  abbrev running : Machine
  running = Paging.init handed l.image (kernel_space + p)

  p_even : p % 4096 ≡ 0
  p_even = omega (arith, b.table_even, b.table_above)

  p_below : p < 2 ^ 22
  p_below = omega (arith, b.table_end)

  running-Set : Set low p p_even p_below l.image b.not_low handed running
  running-Set =
      init-Set low p p_even p_below l.image b.not_low handed handed-Low (rw handed-root b.not_root)

  running-root : directory_phys running ≡ directory_phys m
  running-root = running-Set.root ∙ handed-root

  -- The directory's entries other than the kernel's are as they were.
  running-entry :
      (d : ℕ)
      → d < 1024
      → (d == 768) ≡ false
      → running.words (directory_phys running + 4 * d) ≡ m.words (directory_phys m + 4 * d)
  running-entry d h ne =
      let even = b.tables.root_even in
      let o =
        running-Set.others (directory_phys m + 4 * d) (ground (arith, even, p_even, b.not_root))
          (ground (arith, handed-root)) in
      ap (λ n. running.words (n + 4 * d)) running-root ∙ o

  running-even : directory_phys running % 4096 ≡ 0
  running-even = rw running-root b.tables.root_even

  running-held : (u : ℕ) → holds running u ≡ (if u == 1023 then some (directory_phys m) else none)
  running-held u =
      holds-start running running-even
        (running-entry 1023 (omega arith) refl ∙ b.tables.self ∙ ap (λ n. n + 3) (sym running-root))
        (λ d a c. running-entry d (omega arith) (ground arith) ∙ b.gone d a c) u
      ∙ ap (λ n. if u == 1023 then some n else none) running-root

  running-Owned : Owned running
  running-Owned = record {
    tables = record {
      small = running-Set.small;
      self = running-held 1023 ∙ ap (λ n. some n) (sym running-root);
      apart = λ u v f a c. ground (arith, a, c, running-held u, running-held v);
    };
    frames = rw running-Set.pmm (reserved-IsValid ram sound ends l fits loaded_low);
    unused = λ n u free e.
        let was : free_bit free_then n ≡ true = rw (sym running-Set.pmm) free in
        let at : n * 4096 ≡ directory_phys m = ground (arith, e, running-held u) in
        let taken =
          reserved-image ram sound ends l fits loaded_low n (omega (arith, at, b.loaded))
            (omega (arith, at, b.inside)) in
        ground (arith, was, taken);
  }

  pmm_same : running.pmm ≡ free_then
  pmm_same = running-Set.pmm

  -- Memory ends below the last frame.
  top_used : free_bit free_then (max_frames - 1) ≡ false
  top_used = elim (Bool-cases (free_bit free_then (max_frames - 1))) [
    | inr taken ↦ taken
    | inl free ↦
        absurd (omega (arith, reserved-ends ram sound ends l fits loaded_low (max_frames - 1) free))
  ]

  module _ (from to base q : ℕ) (s : Pmm) (at : from ≡ base * page_size)
      (ends_at : to ≡ from + q * page_size) (t : TakenRun free_then base q s) where
    abbrev world : Machine
    world = record running { pmm = s }

    in_run : (g : ℕ) → from ≤ g * page_size → g * page_size < to → free_bit free_then g ≡ true
    in_run g a c =
        let e : base + (g - base) ≡ g = omega arith in
        ap (λ n. free_bit free_then n) (sym e) ∙ t.was_free (g - base) (omega arith)

    window-Spare : Reserved paged paged_view world (from, to)
    window-Spare f even above below =
        let held = (with_pmm running running-Owned s t.valid).held in
        let free = in_run (f / 4096) (omega arith) (omega arith) in
        let under = reserved-ends ram sound ends l fits loaded_low (f / 4096) free in
        record {
          even = even;
          low = omega (arith, under);
          taken = ground (arith, t.view (f / 4096));
          unheld = λ u e.
              let at_root : f ≡ directory_phys m =
                ground (arith, sym (held u) ∙ e, running-held u) in
              let taken =
                reserved-image ram sound ends l fits loaded_low (f / 4096)
                  (omega (arith, at_root, b.loaded)) (omega (arith, at_root, b.inside)) in
              ground (arith, free, taken);
        }

    world-Owned : Owned world
    world-Owned =
        Alike-Owned running world running-Owned (with_pmm running running-Owned s t.valid)
          (λ n free. rw pmm_same (ground (arith, free, t.view n)))

    Ready-window :
        16 ≤ q
        → Ready free_then (record {
          ram = ram;
          window = (from, to);
          heaps = Statics.init paged (boot paged world) (from, to);
        })
    Ready-window big =
        let under =
          reserved-ends ram sound ends l fits loaded_low base
            (in_run base (omega arith) (omega arith)) in
        let heaps =
          init-IsHeap paged paged_view world from to world-Owned (omega arith) (omega arith)
            (omega arith) (omega (arith, under)) window-Spare in
        let e = init_world paged paged_view world (from, to) in
        record {
          kernel = rw e heaps.0;
          virtual = rw e heaps.1;
          heaps =
              init-Sound paged paged_view world from to world-Owned (omega arith) (omega arith)
                (omega arith) (omega (arith, under)) window-Spare;
          wide = omega arith;
          free = in_run;
        }

  -- An error says that the image is too large or that no run of frames is long enough.
  abbrev pub Outcome : String ⊎ Memory → Type 0
  Outcome (inl why) =
      (q : ℕ) → Halved (wanted ram / page_size) q → 16 ≤ q → (at : ℕ) → ¬ IsRun free_then at q
  Outcome (inr memory) = (memory.ram ≡ ram) × Ready free_then memory

  carved-Outcome :
      (r : Option (ℕ × ℕ) × Pmm)
      → Carves free_then (wanted ram / page_size) r
      → Outcome (carved_at ram running r)
  carved-Outcome (none, s) (_, gone) = gone
  carved-Outcome (some (from, to), s) (q, _, big, _, base, at, ends_at, t) =
      (refl, Ready-window from to base q s at ends_at t big)

  carve_running : Carves free_then (wanted ram / page_size) (carve running.pmm (wanted ram))
  carve_running =
      subst (λ s. Carves free_then (wanted ram / page_size) (carve s (wanted ram))) (sym pmm_same)
        (carve-Carves free_then (reserved-IsValid ram sound ends l fits loaded_low) top_used
          (wanted ram)
          (page_of_fits (u32 (min (kheap_limit - kheap_base) (ram.usable / 4))) (omega arith)))

  init_ram_runs : init_ram m l ram ≡ carved ram running
  init_ram_runs =
      let test : ltb kernel_window_end l.image.end ≡ false = ground arith in
      let table : l.table ≡ kernel_space + p = omega (arith, b.table_above) in
      let e : init_ram m l ram
          ≡ carved ram (Paging.init (record m { pmm = reserved m.pmm ram l }) l.image l.table) =
        unfold init_ram in rw test refl in
      e
      ∙ ap (λ s. carved ram (Paging.init (record m { pmm = reserved s ram l }) l.image l.table))
          b.pmm
      ∙ ap (λ t. carved ram (Paging.init handed l.image t)) table

  -- `init` on a sound list of regions.
  pub init_ram-Outcome : Outcome (init_ram m l ram)
  init_ram-Outcome =
      rw init_ram_runs
        (unfold carved in carved-Outcome (carve running.pmm (wanted ram)) carve_running)
