-- ===== src/Paging/Owned/Frames.antt =====
-- What a heap sees when a word of a page of kernel/src/paging.rs is written, and when a frame is
-- taken or given back.
use kfs.Base.{
  ℕ, ◌+◌, ◌*◌, ◌/◌, ◌%◌, ◌^◌, ◌<◌, ◌≡◌, ◌≢◌, refl, true, false, Option, none, some, ltb, ◌==◌,
  if◌then◌else◌, arith, Option-cases, Bool-cases, inl, inr, ◌∙◌, ap, sym, update, ==→eq,
}
use kfs.Pmm.{Pmm, alloc_frame, free_frame, free_bit, frame_of}
use kfs.Pmm.Valid.{IsValid, free_bit-lt}
use kfs.Pmm.Alloc.{
  Taken, TakesLowest, alloc_frame-TakesLowest, free_bit-free_frame, free_frame-IsValid,
}
use kfs.Pager.{page_of, Mapped, Keeps, Wrote, Gives, AllocOutcome}
use kfs.Paging.{Machine, oops, read_volatile, write_volatile, directory_phys}
use kfs.Paging.Holds.{
  table_frame, page_frame, holds, page_frame-inside, page_frame-even, table_frame-even,
}
use kfs.Paging.Holds.Changes.{Apart, holds-other, holds-still}
use kfs.Paging.Translate.{write_there}
use kfs.Paging.Owned.{
  Owned, Spare, paged, paged_view, take_frame, give_frame, page_frame-same, word_at, read_word,
}

-- The same uses of the frames, and no more free frames than before.
pub record Alike (m m' : Machine) : Type 0 where
  pub small : (x : ℕ) → m'.words x < 2 ^ 32
  pub root : directory_phys m' ≡ directory_phys m
  pub held : (u : ℕ) → holds m' u ≡ holds m u
  pub frames : IsValid m'.pmm

module _ (m m' : Machine) (k : Owned m) (l : Alike m m') where
  pub Alike-Apart : Apart m'
  Alike-Apart = record {
    small = l.small;
    self = l.held 1023 ∙ k.tables.self ∙ ap (λ n. some n) (sym l.root);
    apart = λ u v f a b. k.tables.apart u v f (sym (l.held u) ∙ a) (sym (l.held v) ∙ b);
  }

  pub Alike-Owned : ((n : ℕ) → free_bit m'.pmm n ≡ true → free_bit m.pmm n ≡ true) → Owned m'
  Alike-Owned less = record {
    tables = Alike-Apart;
    frames = l.frames;
    unused = λ n u free e. k.unused n u (less n free) (sym (l.held u) ∙ e);
  }

  pub Alike-Spare :
      ((n : ℕ) → free_bit m.pmm n ≡ false → free_bit m'.pmm n ≡ false)
      → (g : ℕ) → Spare m g
      → Spare m' g
  Alike-Spare less g s = record {
    even = s.even;
    low = s.low;
    taken = less (g / 4096) s.taken;
    unheld = λ u e. s.unheld u (sym (l.held u) ∙ e);
  }

  -- A word of a page is read as memory has it.
  pub Alike-read :
      (o : Owned m')
      → (b g : ℕ) → page_frame m (page_of b) ≡ some g
      → m'.words (g + b % 4096) ≡ m.words (g + b % 4096)
      → read_volatile m' b ≡ read_volatile m b
  Alike-read o b g e w =
      read_word m' o b g (page_frame-same m m' l.held (page_of b) ∙ e)
      ∙ w
      ∙ sym (read_word m k b g e)

  pub Alike-Keeps :
      (o : Owned m')
      → ((n : ℕ) → free_bit m.pmm n ≡ false → free_bit m'.pmm n ≡ false)
      → ((x : ℕ) → m'.words x ≡ m.words x)
      → Keeps paged paged_view m m'
  Alike-Keeps o less words = record {
    valid = o;
    frames = page_frame-same m m' l.held;
    spare = Alike-Spare less;
    words = λ b n. elim (Option-cases (page_frame m (page_of b))) [
      | inl gone ↦ absurd (n.1 gone)
      | inr (g, e) ↦ Alike-read o b g e (words (g + b % 4096))
    ];
  }

-- A word of memory is written.
abbrev pub poke : Machine → ℕ → ℕ → Machine
poke m at x = record m { words = update m.words at x }

poke-small :
    (m : Machine) (at x : ℕ)
    → ((b : ℕ) → m.words b < 2 ^ 32)
    → x < 2 ^ 32
    → (b : ℕ) → (poke m at x).words b < 2 ^ 32
poke-small m at x small h b = ground (arith, small b)

pub poke-root : (m : Machine) (at x : ℕ) → directory_phys (poke m at x) ≡ directory_phys m
unfolding directory_phys
poke-root m at x = refl

module _ (m : Machine) (k : Owned m) where
  -- A frame has one use.
  pub one_use : (u v f : ℕ) → holds m u ≡ some f → holds m v ≡ some f → u ≡ v
  one_use = k.tables.apart

  pub page_held : (q f : ℕ) → page_frame m q ≡ some f → holds m q ≡ some f
  page_held q f e = ground (arith, page_frame-inside m q f e)

  pub held_even : (u f : ℕ) → holds m u ≡ some f → (f % 4096 ≡ 0) × (f < 2 ^ 32)
  held_even u f e = elim (Bool-cases (ltb u 1024)) [
    | inl low ↦ table_frame-even m k.tables.small u f (ground arith)
    | inr high ↦ page_frame-even m k.tables.small u f (ground arith)
  ]

  -- The frames of two uses have no word in common.
  pub words_apart :
      (u v f g i j : ℕ)
      → holds m u ≡ some f
      → holds m v ≡ some g
      → u ≢ v
      → i < 4096
      → j < 4096
      → f + i ≢ g + j
  words_apart u v f g i j a b ne h l =
      let p = held_even u f a in
      let q = held_even v g b in
      let r : f ≢ g = λ same. ne (one_use u v f a (b ∙ ap (λ n. some n) (sym same))) in
      omega (arith, p, q)

  pub no_table : (q f : ℕ) → page_frame m q ≡ some f → (d : ℕ) → d < 1024 → table_frame m d ≢ some f
  no_table q f e d h a =
      let same : d ≡ q = one_use d q f (ground arith) (page_held q f e) in
      ground (arith, page_frame-inside m q f e, same)

  word_Alike :
      (q f i x : ℕ) → page_frame m q ≡ some f → i < 4096 → x < 2 ^ 32 → Alike m (poke m (f + i) x)
  word_Alike q f i x e h low = record {
    small = poke-small m (f + i) x k.tables.small low;
    root = poke-root m (f + i) x;
    held =
        holds-other m (poke m (f + i) x) k.tables (poke-root m (f + i) x) f
          (page_frame-even m k.tables.small q f e).0 (no_table q f e) (λ b o. ground arith);
    frames = k.frames;
  }

  write_apart :
      (a b f g : ℕ)
      → page_frame m (page_of a) ≡ some f
      → page_frame m (page_of b) ≡ some g
      → a ≢ b
      → f + a % 4096 ≢ g + b % 4096
  write_apart a b f g e r ne = elim (Bool-cases (page_of a == page_of b)) [
    | inl same ↦
        let s = ==→eq _ _ same in
        let q : some f ≡ some g = sym e ∙ ap (λ c. page_frame m c) s ∙ r in
        let i : f ≡ g = ground (arith, q) in omega arith
    | inr other ↦
        words_apart (page_of a) (page_of b) f g (a % 4096) (b % 4096) (page_held _ f e)
          (page_held _ g r) (ground arith) (omega arith) (omega arith)
  ]

  written :
      (a x f b g : ℕ)
      → page_frame m (page_of a) ≡ some f
      → page_frame m (page_of b) ≡ some g
      → update m.words (f + a % 4096) x (g + b % 4096)
        ≡ (if a == b then x else m.words (g + b % 4096))
  written a x f b g e r = elim (Bool-cases (a == b)) [
    | inl here ↦
        let s = ==→eq _ _ here in
        let q : some f ≡ some g = sym e ∙ ap (λ c. page_frame m (page_of c)) s ∙ r in
        ground (arith, q, s)
    | inr other ↦ ground (arith, write_apart a b f g e r (ground arith))
  ]

  write_Wrote :
      (a x f : ℕ)
      → a % 4 ≡ 0
      → page_frame m (page_of a) ≡ some f
      → x < 2 ^ 32
      → Wrote paged paged_view m a x (poke m (f + a % 4096) x)
  write_Wrote a x f even e low =
      let m' = poke m (f + a % 4096) x in
      let l = word_Alike (page_of a) f (a % 4096) x e (omega arith) low in
      let o = Alike-Owned m m' k l (λ n free. free) in
      record {
        valid = o;
        frames = page_frame-same m m' l.held;
        spare = Alike-Spare m m' k l (λ n taken. taken);
        words = λ b n. elim (Option-cases (page_frame m (page_of b))) [
          | inl gone ↦ absurd (n.1 gone)
          | inr (g, r) ↦
              read_word m' o b g (page_frame-same m m' l.held (page_of b) ∙ r)
              ∙ written a x f b g e r
              ∙ ap (λ n. if a == b then x else n) (sym (read_word m k b g r))
        ];
      }

  still_Alike :
      (m' : Machine)
      → directory_phys m' ≡ directory_phys m
      → ((x : ℕ) → m'.words x ≡ m.words x)
      → IsValid m'.pmm
      → Alike m m'
  still_Alike m' root words frames = record {
    small = λ x. rw (words x) (k.tables.small x);
    root = root;
    held = holds-still m m' k.tables root words;
    frames = frames;
  }

  pub oops_Keeps : Keeps paged paged_view m (oops m)
  oops_Keeps =
      let root : directory_phys (oops m) ≡ directory_phys m = unfold oops directory_phys in refl in
      let words : (x : ℕ) → (oops m).words x ≡ m.words x = λ x. unfold oops in refl in
      let pmm : (oops m).pmm ≡ m.pmm = unfold oops in refl in
      let l = still_Alike (oops m) root words (unfold oops in k.frames) in
      Alike-Keeps m (oops m) k l (Alike-Owned m (oops m) k l (λ n free. rw (sym pmm) free))
        (λ n taken. rw pmm taken) words

  -- A store to a word of a page.
  pub write_volatile-Wrote :
      (a x : ℕ)
      → Mapped paged paged_view m a
      → x < 2 ^ 32
      → Wrote paged paged_view m a x (write_volatile m a x)
  write_volatile-Wrote a x n low = elim (Option-cases (page_frame m (page_of a))) [
    | inl gone ↦ absurd (n.1 gone)
    | inr (f, e) ↦
        rw (write_there m a (f + a % 4096) x (word_at m k a f e)) (write_Wrote a x f n.0 e low)
  ]

  pub with_pmm : (s : Pmm) → IsValid s → Alike m (record m { pmm = s })
  with_pmm s valid =
      still_Alike (record m { pmm = s }) (unfold directory_phys in refl) (λ x. refl) valid

  pub own_frame :
      (phys : ℕ) (s : Pmm) (f : ℕ)
      → phys ≡ f * 4096
      → Taken m.pmm f s
      → Spare (record m { pmm = s }) phys × Keeps paged paged_view m (record m { pmm = s })
  own_frame phys s f e t =
      let l = with_pmm s t.valid in
      let low = free_bit-lt m.pmm f t.was_free in
      let o = Alike-Owned m (record m { pmm = s }) k l (λ n free. ground (arith, free, t.view n)) in
      (
        record {
          even = omega arith;
          low = omega arith;
          taken = ground (arith, t.view (phys / 4096));
          unheld = λ u h. k.unused f u t.was_free (sym (l.held u) ∙ h ∙ ap (λ n. some n) e);
        },
        Alike-Keeps m (record m { pmm = s }) k l o (λ n taken. ground (arith, taken, t.view n))
            (λ x. refl),
      )

  pub took :
      (r : Option ℕ × Pmm)
      → TakesLowest m.pmm r
      → AllocOutcome paged paged_view m (r.0, record m { pmm = r.1 })
  took (some phys, s) (f, e, t, _) = own_frame phys s f e t
  took (none, s) (same, _) =
      let l = with_pmm s (rw same k.frames) in
      let o = Alike-Owned m (record m { pmm = s }) k l (λ n free. rw (sym same) free) in
      Alike-Keeps m (record m { pmm = s }) k l o (λ n taken. rw same taken) (λ x. refl)

  pub take_frame-AllocOutcome : AllocOutcome paged paged_view m (take_frame m)
  unfolding take_frame
  take_frame-AllocOutcome = took (alloc_frame m.pmm) (alloc_frame-TakesLowest m.pmm k.frames)

  pub give_frame-Gives : (f : ℕ) → Spare m f → Gives paged paged_view m f (give_frame m f)
  unfolding give_frame
  give_frame-Gives f s =
      let m' = record m { pmm = free_frame m.pmm f } in
      let l = with_pmm (free_frame m.pmm f) (free_frame-IsValid m.pmm f k.frames) in
      let at : frame_of f ≡ f / 4096 = unfold frame_of in refl in
      let o : Owned m' = record {
        tables = Alike-Apart m m' k l;
        frames = l.frames;
        unused = λ n u free e. elim (Bool-cases (f / 4096 == n)) [
          | inl here ↦ s.unheld u (sym (l.held u) ∙ e ∙ ground (arith, here, s.even))
          | inr other ↦
              k.unused n u (ground (arith, free, free_bit-free_frame m.pmm f n, at))
                (sym (l.held u) ∙ e)
        ];
      } in
      record {
        valid = o;
        frames = page_frame-same m m' l.held;
        spare = λ g t ne. record {
          even = t.even;
          low = t.low;
          taken =
              ground (arith, t.taken, free_bit-free_frame m.pmm f (g / 4096), at, t.even, s.even);
          unheld = λ u e. t.unheld u (sym (l.held u) ∙ e);
        };
        given = λ t. ground (arith, t.taken, free_bit-free_frame m.pmm f (f / 4096), at, s.low);
        words = λ b n. elim (Option-cases (page_frame m (page_of b))) [
          | inl gone ↦ absurd (n.1 gone)
          | inr (g, e) ↦ Alike-read m m' k l o b g e refl
        ];
      }
