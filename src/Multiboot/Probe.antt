-- ===== src/Multiboot/Probe.antt =====
-- `probe` of kernel/src/multiboot.rs: when its loop ends, and what it returns.
use Prim.Native.String.{String}
use kfs.Base.{
  ℕ, zero, suc, ◌+◌, ◌*◌, ◌^◌, ◌-◌, ◌≤◌, ◌<◌, ◌≡◌, refl, true, false, not, ◌&&◌, ◌||◌, Option, none,
  some, ◌⊎◌, inl, inr, bit_and, ltb, leb, ◌==◌, if◌then◌else◌, u32, arith, Bool-cases, ◌∙◌, min,
  subst, ◌≢◌,
}
use Prim.{Unit, tt}
use kfs.Multiboot.{
  push_entry, mmap_loop, from_mmap, from_sizes, finish, probe, rd64, reachable, boot_magic,
  flag_mmap, flag_memory,
}
use kfs.Multiboot.Regions.{Ram, nothing}
use kfs.Multiboot.Regions.Bounds.{Sound, push-Sound, nothing-Sound}

-- The addresses at which the loop looks for an entry: the first one, and after each entry whose size
-- is not zero the address that its size leads to.
pub data Visits (rd : ℕ → ℕ) (start stop : ℕ) : ℕ → Type 0 where
  first : Visits rd start stop start
  next :
      {a : ℕ}
      → Visits rd start stop a
      → a + 8 ≤ stop
      → rd a ≢ 0
      → Visits rd start stop (u32 (a + rd a + 4))

module _ (rd : ℕ → ℕ) where
  -- What the loop leaves, where it ends.
  abbrev pub SoundIf : Option Ram → Type 0
  SoundIf none = Sound nothing
  SoundIf (some ram) = Sound ram

  push_entry-Sound : (ram : Ram) (at : ℕ) → Sound ram → Sound (push_entry rd ram at)
  unfolding push_entry
  push_entry-Sound ram at s = elim (Bool-cases (rd (at + 20) == 1)) [
    | inl e ↦ rw e (push-Sound ram (rd64 rd (at + 4)) (rd64 rd (at + 12)) s)
    | inr e ↦ rw e s
  ]

  -- The end of the memory map.
  abbrev pub stop_of : ℕ → ℕ
  stop_of info = min (rd (info + 48) + rd (info + 44)) (2 ^ 32 - 1)

  module _ (start stop : ℕ)
      (gentle : (a : ℕ) → Visits rd start stop a → a + 8 ≤ stop → a + rd a + 12 < 2 ^ 32)
      (low : stop < 2 ^ 32) where
    mmap_ends :
        (fuel : ℕ) (ram : Ram) (at : ℕ)
        → at < 2 ^ 32
        → stop < at + 8
        → at + 8 < 2 ^ 32
        → mmap_loop rd (suc fuel) ram at stop ≡ some ram
    mmap_ends fuel ram at a b c =
        let q : leb (u32 (at + 8)) stop ≡ false = ground arith in
        unfold mmap_loop in rw (q, mmap_loop)

    mmap_breaks :
        (fuel : ℕ) (ram : Ram) (at : ℕ)
        → at + 8 ≤ stop
        → rd at ≡ 0
        → mmap_loop rd (suc fuel) ram at stop ≡ some (push_entry rd ram at)
    mmap_breaks fuel ram at a z =
        let q : leb (u32 (at + 8)) stop ≡ true = ground arith in
        let e : (rd at == 0) ≡ true = ground arith in unfold mmap_loop in rw (q, e, mmap_loop)

    mmap_moves :
        (fuel : ℕ) (ram : Ram) (at : ℕ)
        → Visits rd start stop at
        → at + 8 ≤ stop
        → (rd at == 0) ≡ false
        → mmap_loop rd (suc fuel) ram at stop
          ≡ mmap_loop rd fuel (push_entry rd ram at) (at + rd at + 4) stop
    mmap_moves fuel ram at visit a e =
        let q : leb (u32 (at + 8)) stop ≡ true = ground arith in
        let n : u32 (at + u32 (rd at + 4)) ≡ at + rd at + 4 = omega (arith, gentle at visit a) in
        unfold mmap_loop in rw (q, e, n, mmap_loop)

    -- The loop ends, with a sound list of regions.
    mmap_loop-Sound :
        (fuel : ℕ) (ram : Ram) (at : ℕ)
        → Visits rd start stop at
        → stop < fuel + at
        → at + 8 < 2 ^ 32
        → Sound ram
        → (r : Ram) × (mmap_loop rd (suc fuel) ram at stop ≡ some r) × Sound r
    mmap_loop-Sound zero ram at visit enough h s =
        (ram, mmap_ends zero ram at (omega arith) (omega arith) h, s)
    mmap_loop-Sound (suc fuel) ram at visit enough h s = elim (Bool-cases (leb (at + 8) stop)) [
      | inr out ↦ (ram, mmap_ends (suc fuel) ram at (omega arith) (ground arith) h, s)
      | inl more ↦ elim (Bool-cases (rd at == 0)) [
        | inl last ↦ (
          push_entry rd ram at,
          mmap_breaks (suc fuel) ram at (ground arith) (ground arith),
          push_entry-Sound ram at s,
        )
        | inr more_left ↦
            let here : at + 8 ≤ stop = ground arith in
            let far = gentle at visit here in
            let same : u32 (at + rd at + 4) ≡ at + rd at + 4 = omega arith in
            let on : Visits rd start stop (at + rd at + 4) =
              subst (Visits rd start stop) same (next visit here (ground (arith, more_left))) in
            let (r, e, t) =
              mmap_loop-Sound fuel (push_entry rd ram at) (at + rd at + 4) on (ground arith)
                (omega arith) (push_entry-Sound ram at s) in
            (r, mmap_moves (suc fuel) ram at visit here more_left ∙ e, t)
      ]
    ]

  from_sizes-Sound : (info : ℕ) (ram : Ram) → Sound ram → Sound (from_sizes rd info ram)
  unfolding from_sizes
  from_sizes-Sound info ram s =
      elim (Bool-cases (ram.count == 0 && not (bit_and (rd info) flag_memory == 0))) [
        | inl e ↦ rw e (
            push-Sound _ 0x00100000 (rd (info + 8) * 1024) (
              push-Sound (record ram { source = "multiboot mem_lower and mem_upper" }) 0
                (rd (info + 4) * 1024)
                (record {
                  room = s.room;
                  proper = s.proper;
                  low = s.low;
                  below = s.below;
                  sum = s.sum;
                  small = s.small;
                })))
        | inr e ↦ rw e s
      ]

  -- An answer: an error text, or a sound list that is not empty.
  abbrev pub Answer : String ⊎ Ram → Type 0
  Answer (inl why) = Unit {0}
  Answer (inr ram) = Sound ram × (0 < ram.count)

  abbrev answer : Ram → String ⊎ Ram
  answer ram = if ram.count == 0 then inl "the loader described no usable memory" else inr ram

  Answer-answer : (ram : Ram) → Sound ram → Answer (answer ram)
  Answer-answer ram s = elim (Bool-cases (ram.count == 0)) [
    | inl e ↦ rw e tt
    | inr e ↦ rw e (s, ground arith)
  ]

  finish-some :
      (ram : Ram) (info : ℕ) → finish rd (some ram) info ≡ some (answer (from_sizes rd info ram))
  finish-some ram info = unfold finish in refl

  from_mmap-Sound :
      (info : ℕ)
      → ((a : ℕ)
          → Visits rd (rd (info + 48)) (stop_of info) a
          → a + 8 ≤ stop_of info
          → a + rd a + 12 < 2 ^ 32)
      → (r : Ram) × (from_mmap rd (2 ^ 32) info nothing ≡ some r) × Sound r
  unfolding from_mmap
  from_mmap-Sound info gentle =
      elim (Bool-cases (
        not (bit_and (rd info) flag_mmap == 0)
        && (not (rd (info + 48) == 0) && ltb (rd (info + 48)) reachable))) [
          | inr e ↦ rw e (nothing, refl, nothing-Sound)
          | inl e ↦
              let stop = stop_of info in
              let ram : Ram = record nothing { source = "multiboot memory map" } in
              let k = nothing-Sound in
              let s : Sound ram = record {
                room = k.room;
                proper = k.proper;
                low = k.low;
                below = k.below;
                sum = k.sum;
                small = k.small;
              } in
              rw e (
                mmap_loop-Sound (rd (info + 48)) stop gentle (omega arith) (2 ^ 32 - 1) ram
                  (rd (info + 48)) first (ground arith) (ground arith) s)
        ]

  -- Where the size of no entry that the loop visits carries it to the last 8 bytes below 4 GB or past
  -- them, `probe` ends, and what it returns is an error or a sound list of at least one region.
  pub probe-Answer :
      (magic info : ℕ)
      → ((a : ℕ)
          → Visits rd (rd (info + 48)) (stop_of info) a
          → a + 8 ≤ stop_of info
          → a + rd a + 12 < 2 ^ 32)
      → (r : String ⊎ Ram) × (probe rd (2 ^ 32) magic info ≡ some r) × Answer r
  unfolding probe
  probe-Answer magic info gentle = elim (Bool-cases (not (magic == boot_magic))) [
    | inl e ↦ rw e (inl "no multiboot magic in eax, this kernel needs a multiboot loader", refl, tt)
    | inr e ↦ elim (Bool-cases (info == 0 || leb reachable info)) [
      | inl far ↦ rw (e, far) (inl "the multiboot information is out of the low window", refl, tt)
      | inr near ↦
          let (ram, q, s) = from_mmap-Sound info gentle in
          rw (e, near, q, finish-some ram info)
            (
              answer (from_sizes rd info ram),
              refl,
              Answer-answer (from_sizes rd info ram) (from_sizes-Sound info ram s),
            )
    ]
  ]

  stuck_moves :
      (fuel : ℕ) (ram : Ram) (at stop : ℕ)
      → at + 8 ≤ stop
      → stop < 2 ^ 32
      → rd at ≡ 2 ^ 32 - 4
      → mmap_loop rd (suc fuel) ram at stop ≡ mmap_loop rd fuel (push_entry rd ram at) at stop
  stuck_moves fuel ram at stop a low size =
      let q : leb (u32 (at + 8)) stop ≡ true = ground arith in
      let e : (rd at == 0) ≡ false = ground arith in
      let n : u32 (at + u32 (rd at + 4)) ≡ at = omega (arith, size) in
      unfold mmap_loop in rw (q, e, n, mmap_loop)

  -- An entry whose size is 2^32 - 4 keeps the loop at its own address: no number of rounds ends it.
  pub mmap_loop-none :
      (fuel : ℕ) (ram : Ram) (at stop : ℕ)
      → at + 8 ≤ stop
      → stop < 2 ^ 32
      → rd at ≡ 2 ^ 32 - 4
      → mmap_loop rd fuel ram at stop ≡ none
  mmap_loop-none zero ram at stop a low size = unfold mmap_loop in refl
  mmap_loop-none (suc fuel) ram at stop a low size =
      stuck_moves fuel ram at stop a low size
      ∙ mmap_loop-none fuel (push_entry rd ram at) at stop a low size
