-- ===== src/Paging/Owned/Change.antt =====
-- What a heap sees when the use `x` of kernel/src/paging.rs's tables comes to hold another frame,
-- or none.
use kfs.Base.{
  ℕ, ◌+◌, ◌*◌, ◌/◌, ◌%◌, ◌^◌, ◌≤◌, ◌<◌, ◌≡◌, ◌≢◌, true, false, Option, some, ◌==◌, ltb,
  if◌then◌else◌, arith, Bool-cases, inl, inr, ◌∙◌, ap, sym, ==→eq,
}
use kfs.Pmm.{free_bit}
use kfs.Pager.{page_of}
use kfs.Paging.{Machine, read_volatile, directory_phys}
use kfs.Paging.Holds.{page_frame, holds, page_frame-inside, page_frame-low}
use kfs.Paging.Owned.{Owned, Spare, read_word, page_frame_holds}
use kfs.Paging.Owned.Frames.{page_held}

pub record Change (m : Machine) (x : ℕ) (o : Option ℕ) (m' : Machine) : Type 0 where
  pub small : (b : ℕ) → m'.words b < 2 ^ 32
  pub root : directory_phys m' ≡ directory_phys m
  pub pmm : m'.pmm ≡ m.pmm
  pub held : (u : ℕ) → holds m' u ≡ (if u == x then o else holds m u)
  pub spare : (f : ℕ) → o ≡ some f → Spare m f
  pub not_root : x ≢ 1023

module _ (m m' : Machine) (x : ℕ) (o : Option ℕ) (k : Owned m) (c : Change m x o m') where
  held_here : (u f : ℕ) → (u == x) ≡ true → holds m' u ≡ some f → Spare m f
  held_here u f here e =
      c.spare f (ap (λ t. if t then o else holds m u) (sym here) ∙ sym (c.held u) ∙ e)

  held_there : (u f : ℕ) → (u == x) ≡ false → holds m' u ≡ some f → holds m u ≡ some f
  held_there u f other e = ap (λ t. if t then o else holds m u) (sym other) ∙ sym (c.held u) ∙ e

  Change-apart : (u v f : ℕ) → holds m' u ≡ some f → holds m' v ≡ some f → u ≡ v
  Change-apart u v f a b = elim (Bool-cases (u == x)) [
    | inl u_here ↦ elim (Bool-cases (v == x)) [
      | inl v_here ↦ ==→eq u x u_here ∙ sym (==→eq v x v_here)
      | inr v_other ↦ absurd ((held_here u f u_here a).unheld v (held_there v f v_other b))
    ]
    | inr u_other ↦ elim (Bool-cases (v == x)) [
      | inl v_here ↦ absurd ((held_here v f v_here b).unheld u (held_there u f u_other a))
      | inr v_other ↦ k.tables.apart u v f (held_there u f u_other a) (held_there v f v_other b)
    ]
  ]

  Change-unused : (n u : ℕ) → free_bit m'.pmm n ≡ true → holds m' u ≢ some (n * 4096)
  Change-unused n u free e =
      let was : free_bit m.pmm n ≡ true = rw (sym c.pmm) free in
      elim (Bool-cases (u == x)) [
        | inl here ↦
            let s = held_here u (n * 4096) here e in
            let same : n * 4096 / 4096 ≡ n = omega arith in
            let taken : free_bit m.pmm n ≡ false =
              ap (λ i. free_bit m.pmm i) (sym same) ∙ s.taken in
            cc
        | inr other ↦ k.unused n u was (held_there u (n * 4096) other e)
      ]

  pub Change-Owned : Owned m'
  Change-Owned = record {
    tables = record {
      small = c.small;
      self =
          let ne : (1023 == x) ≡ false = ground (arith, c.not_root) in
          c.held 1023
          ∙ ap (λ t. if t then o else holds m 1023) ne
          ∙ k.tables.self
          ∙ ap (λ n. some n) (sym c.root);
      apart = Change-apart;
    };
    frames = rw c.pmm k.frames;
    unused = Change-unused;
  }

  pub Change-Spare : (g : ℕ) → Spare m g → o ≢ some g → Spare m' g
  Change-Spare g s ne = record {
    even = s.even;
    low = s.low;
    taken = rw c.pmm s.taken;
    unheld = λ u e. elim (Bool-cases (u == x)) [
      | inl here ↦ ne (ap (λ t. if t then o else holds m u) (sym here) ∙ sym (c.held u) ∙ e)
      | inr other ↦ s.unheld u (held_there u g other e)
    ];
  }

  pub Change-frame : 1024 ≤ x → (q : ℕ) → page_frame m' q ≡ (if x == q then o else page_frame m q)
  Change-frame h = page_frame_holds m m' x o h c.held

  pub Change-frame_low : x < 1024 → (q : ℕ) → page_frame m' q ≡ page_frame m q
  Change-frame_low h q = elim (Bool-cases (ltb q 1024)) [
    | inl small ↦ page_frame-low m' q small ∙ sym (page_frame-low m q small)
    | inr large ↦
        let there : page_frame m' q ≡ page_frame m q = ground (arith, large, c.held q) in there
  ]

  pub Change-read :
      (b g : ℕ)
      → page_frame m (page_of b) ≡ some g
      → page_of b ≢ x
      → m'.words (g + b % 4096) ≡ m.words (g + b % 4096)
      → read_volatile m' b ≡ read_volatile m b
  Change-read b g e ne w =
      let h : holds m' (page_of b) ≡ some g =
        c.held (page_of b) ∙ ground (arith, ne, page_held m k (page_of b) g e) in
      let there : page_frame m' (page_of b) ≡ some g =
        ground (arith, h, page_frame-inside m (page_of b) g e) in
      read_word m' Change-Owned b g there ∙ w ∙ sym (read_word m k b g e)
