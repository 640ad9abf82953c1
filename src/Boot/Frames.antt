-- ===== src/Boot/Frames.antt =====
-- Which frames are free when `init` of kernel/src/mem.rs has set apart the kernel's.
use kfs.Base.{ℕ, zero, suc, ◌+◌, ◌-◌, ◌*◌, ◌^◌, ◌≤◌, ◌≡◌, true, false, arith, sym, ◌∙◌}
use Prim.{tt}
use kfs.Multiboot.Regions.{Ram}
use kfs.Multiboot.Regions.Bounds.{Sound}
use kfs.Mem.{kernel_window_end, kernel_space, kernel_phys}
use kfs.Mem.Spaces.{kernel_phys_minus}
use kfs.Pmm.{start, free_bit, reserve, init}
use kfs.Pmm.Valid.{IsValid}
use kfs.Pmm.Boot.{AllRound, AllEnd, covered_le, init-covered}
use kfs.Pmm.Ranges.{free_bit-reserve, reserve-IsValid}
use kfs.Boot.{Linked, bios_end, regions_from, reserved}

-- The memory ends 32 MB and two pages below 4 GB, or earlier.
abbrev pub Ends : Ram → Type 0
Ends ram = ram.highest + 0x02001000 ≤ 2 ^ 32

module _ (ram : Ram) (sound : Sound ram) (ends : Ends ram) where
  all_round : (left at : ℕ) → at + left ≤ ram.count → AllRound (regions_from ram left at)
  unfolding regions_from
  all_round zero at h = tt
  all_round (suc left) at h =
      let p = sound.proper at (omega arith) in
      let q = sound.below at (omega arith) in
      ((omega arith, omega arith), all_round left (at + 1) (omega arith))

  all_end : (left at : ℕ) → at + left ≤ ram.count → AllEnd ram.highest (regions_from ram left at)
  unfolding regions_from
  all_end zero at h = tt
  all_end (suc left) at h = (sound.below at (omega arith), all_end left (at + 1) (omega arith))

  module _ (l : Linked) (fits : l.image.end ≤ kernel_window_end)
      (loaded : kernel_space + l.load ≤ l.image.end) where
    image_phys : kernel_phys l.image.end ≡ l.image.end - kernel_space
    image_phys = kernel_phys_minus l.image.end (omega arith) (omega arith)

    pub reserved-IsValid : IsValid (reserved start ram l)
    unfolding reserved
    reserved-IsValid = reserve-IsValid _ _ _ (
        reserve-IsValid _ _ _
          (init-covered (regions_from ram ram.count 0) (all_round ram.count 0 (omega arith))).1)

    -- No frame of the kernel's image is free.
    pub reserved-image :
        (g : ℕ)
        → l.load ≤ g * 4096
        → g * 4096 + 4096 ≤ l.image.end - kernel_space
        → free_bit (reserved start ram l) g ≡ false
    unfolding reserved
    reserved-image g a b = ground (
      arith,
      image_phys,
      free_bit-reserve (reserve (init start (regions_from ram ram.count 0)) 0 bios_end) l.load
          (kernel_phys l.image.end) g,
    )

    -- A free frame lies below the end of memory.
    pub reserved-ends :
        (g : ℕ) → free_bit (reserved start ram l) g ≡ true → g * 4096 + 4096 ≤ ram.highest
    unfolding reserved
    reserved-ends g e =
        let s1 = init start (regions_from ram ram.count 0) in
        let c = init-covered (regions_from ram ram.count 0) (all_round ram.count 0 (omega arith)) in
        let was : free_bit s1 g ≡ true = ground (
          arith,
          e,
          image_phys,
          free_bit-reserve (reserve s1 0 bios_end) l.load (kernel_phys l.image.end) g,
          free_bit-reserve s1 0 bios_end g,
        ) in
        covered_le ram.highest (regions_from ram ram.count 0) g (all_end ram.count 0 (omega arith))
          (sym (c.0 g) ∙ was)
