-- ===== src/Paging/Init.antt =====
-- `init` of kernel/src/paging.rs, which fills the kernel's own table through the boot code's tables
-- and puts it in the directory.
use kfs.Base.{
  ℕ, zero, suc, ◌+◌, ◌-◌, ◌*◌, ◌/◌, ◌%◌, ◌^◌, ◌≤◌, ◌<◌, ◌≡◌, ◌≢◌, refl, true, false, Bool, some,
  ltb, leb, ◌&&◌, ◌==◌, if◌then◌else◌, arith, Bool-cases, inl, inr, ◌∙◌, ap, bit_or, not, u32,
  subst, ==→eq,
}
use kfs.Base.Bits.{bit_and-pow, bit_at-div, bit_or_fields}
use kfs.Mem.{Image, kernel_space, kernel_window_end, kernel_phys, page_size}
use kfs.Mem.Spaces.{kernel_phys_lem}
use kfs.Paging.{
  write_protect, Machine, write_volatile, directory_phys, walk, add, has, writable, directory,
  dir_index, kernel_page, kernel_readonly, fill_table, init,
}
use kfs.Paging.Holds.{shown, shown-table, walk_there, has-present, frame_bits_lem, with_offset}
use kfs.Paging.Index.{Recursive, walk-directory, dir_index_lem}
use kfs.Paging.Translate.{write_there}
use kfs.Paging.Owned.Frames.{poke, poke-root}

-- Whether the page `i` of the kernel's window is code or constants.
abbrev pub is_readonly : Image → ℕ → Bool
is_readonly image i =
    leb image.start (u32 (kernel_space + u32 (i * page_size)))
    && ltb (u32 (kernel_space + u32 (i * page_size))) image.readonly_end

abbrev pub kernel_entry : Image → ℕ → ℕ
kernel_entry image i =
    bit_or (u32 (i * page_size)) (if is_readonly image i then kernel_readonly else kernel_page)

pub kernel_entry_lem :
    (image : Image) (i : ℕ)
    → i < 1024
    → kernel_entry image i ≡ i * 4096 + (if is_readonly image i then 1 else 3)
kernel_entry_lem image i h =
    let e : u32 (i * page_size) ≡ i * 2 ^ 12 = omega arith in
    ap (λ n. bit_or n (if is_readonly image i then kernel_readonly else kernel_page)) e
    ∙ by_flag (is_readonly image i)
  where
    by_flag :
        (b : Bool)
        → bit_or (i * 2 ^ 12) (if b then kernel_readonly else kernel_page)
          ≡ i * 4096 + (if b then 1 else 3)
    by_flag true = bit_or_fields 12 i 1 (omega arith)
    by_flag false = bit_or_fields 12 i 3 (omega arith)

has-writable : (v : ℕ) → has v writable ≡ (v / 2 % 2 == 1)
has-writable v = ground (arith, bit_and-pow 1 v, bit_at-div 1 v)

writable_flag : (i : ℕ) (b : Bool) → has (i * 4096 + (if b then 1 else 3)) writable ≡ not b
writable_flag i true = has-writable (i * 4096 + 1) ∙ ground arith
writable_flag i false = has-writable (i * 4096 + 3) ∙ ground arith

-- The boot code's tables: the directory shows itself and, for the kernel's window, a table of
-- the first 4 MB at `low`.
pub record Low (m : Machine) (low : ℕ) : Type 0 where
  pub small : (x : ℕ) → m.words x < 2 ^ 32
  pub root_even : directory_phys m % 4096 ≡ 0
  pub root_below : directory_phys m < 2 ^ 22
  pub low_even : low % 4096 ≡ 0
  pub low_below : low < 2 ^ 22
  pub apart : low ≢ directory_phys m
  pub self : m.words (directory_phys m + 4 * 1023) ≡ directory_phys m + 3
  pub window : m.words (directory_phys m + 4 * 768) ≡ low + 3
  pub identity : (i : ℕ) → i < 1024 → m.words (low + 4 * i) ≡ i * 4096 + 3

module _ (low p : ℕ) (even : p % 4096 ≡ 0) (below : p < 2 ^ 22) where
  -- A word of the kernel's table at its address in the kernel's window.
  walk-low :
      (m : Machine) (i : ℕ)
      → Low m low
      → i < 1024
      → walk m (add (kernel_space + p) i) ≡ some (p + 4 * i)
  walk-low m i w h =
      let a = add (kernel_space + p) i in
      let d : a / 2 ^ 22 ≡ 768 = omega arith in
      let j : a / 2 ^ 12 % 1024 ≡ p / 4096 = omega arith in
      let pde : shown (m.words (directory_phys m + 4 * (a / 2 ^ 22))) ≡ some low =
        ap (λ n. shown (m.words (directory_phys m + 4 * n))) d
        ∙ ap (λ n. shown n) w.window
        ∙ ground (arith, w.low_even) in
      let pte : shown (m.words (low + 4 * (a / 2 ^ 12 % 1024))) ≡ some p =
        ap (λ n. shown (m.words (low + 4 * n))) j
        ∙ ap (λ n. shown n) (w.identity (p / 4096) (omega arith))
        ∙ ground arith in
      walk_there m w.small a low pde
      ∙ ap (λ o. with_offset m w.small o (a % 4096)) pte
      ∙ ap (λ n. some n) (let f : p + a % 4096 ≡ p + 4 * i = omega arith in f)

  poke-Low :
      (m : Machine) (i v : ℕ)
      → Low m low
      → p ≢ low
      → p ≢ directory_phys m
      → i < 1024
      → v < 2 ^ 32
      → Low (poke m (p + 4 * i) v) low
  poke-Low m i v w ne nr h small =
      let m' = poke m (p + 4 * i) v in
      let kept : (c : ℕ)
          → c < 1024
          → m'.words (directory_phys m + 4 * c) ≡ m.words (directory_phys m + 4 * c) =
        λ c l. ground (arith, w.root_even) in
      let r = poke-root m (p + 4 * i) v in
      record {
        small = λ x. ground (arith, w.small x);
        root_even = rw r w.root_even;
        root_below = rw r w.root_below;
        low_even = w.low_even;
        low_below = w.low_below;
        apart = rw r w.apart;
        self = rw (r, kept 1023 (omega arith)) w.self;
        window = rw (r, kept 768 (omega arith)) w.window;
        identity = λ j l. ground (arith, w.identity j, w.low_even);
      }

  Low-Recursive : (m : Machine) → Low m low → Recursive m
  Low-Recursive m w =
      let v = m.words (directory_phys m + 4 * 1023) in
      record {
        there = ground (arith, has-present v, w.self, w.root_even);
        self = ground (arith, frame_bits_lem v (w.small _), w.self, w.root_even);
      }

  -- The entries of the kernel's table from `i` on are written, and nothing else.
  pub record Filled (m : Machine) (image : Image) (i : ℕ) (m' : Machine) : Type 0 where
    pub root : directory_phys m' ≡ directory_phys m
    pub pmm : m'.pmm ≡ m.pmm
    pub low_kept : Low m' low
    pub entries : (j : ℕ) → i ≤ j → j < 1024 → m'.words (p + 4 * j) ≡ kernel_entry image j
    pub others : (x : ℕ) → (leb (p + 4 * i) x && ltb x (p + 4096)) ≡ false → m'.words x ≡ m.words x

  module _ (image : Image) (ne : p ≢ low) where
    fill_none : (m : Machine) (i : ℕ) → fill_table m image (kernel_space + p) zero i ≡ m
    unfolding fill_table
    fill_none m i = refl

    fill_some :
        (m m' : Machine) (left i : ℕ)
        → write_volatile m (add (kernel_space + p) i) (kernel_entry image i) ≡ m'
        → fill_table m image (kernel_space + p) (suc left) i
          ≡ fill_table m' image (kernel_space + p) left (suc i)
    unfolding fill_table
    fill_some m m' left i e = rw (e, fill_table)

    entry_fits : (i : ℕ) → i < 1024 → kernel_entry image i < 2 ^ 32
    entry_fits i h = rw (kernel_entry_lem image i h) (ground arith)

    fill_table-Filled :
        (left i : ℕ) (m : Machine)
        → left + i ≡ 1024
        → Low m low
        → p ≢ directory_phys m
        → Filled m image i (fill_table m image (kernel_space + p) left i)
    fill_table-Filled zero i m e w nr = rw (fill_none m i) (record {
      root = refl;
      pmm = refl;
      low_kept = w;
      entries = λ j a b. absurd (omega arith);
      others = λ x o. refl;
    })
    fill_table-Filled (suc left) i m e w nr =
        let h : i < 1024 = omega arith in
        let v = kernel_entry image i in
        let m' = poke m (p + 4 * i) v in
        let r = poke-root m (p + 4 * i) v in
        let f =
          fill_table-Filled left (suc i) m' (omega arith)
            (poke-Low m i v w ne nr h (entry_fits i h)) (λ q. nr (q ∙ r)) in
        rw (fill_some m m' left i (write_there m _ (p + 4 * i) v (walk-low m i w h))) (record {
          root = f.root ∙ r;
          pmm = f.pmm;
          low_kept = f.low_kept;
          entries = λ j a b. elim (Bool-cases (i == j)) [
            | inl here ↦
                let q : m'.words (p + 4 * i) ≡ v = ground arith in
                let o : (fill_table m' image (kernel_space + p) left (suc i)).words (p + 4 * i)
                    ≡ v =
                  f.others (p + 4 * i) (ground arith) ∙ q in
                subst
                  (λ k.
                    (fill_table m' image (kernel_space + p) left (suc i)).words (p + 4 * k)
                    ≡ kernel_entry image k)
                  (==→eq i j here) o
            | inr other ↦ f.entries j (ground arith) b
          ];
          others = λ x o. f.others x (ground arith) ∙ ground arith;
        })

    -- What `init` leaves: the kernel's table in the directory, and nothing else outside that table.
    pub record Set (m : Machine) (m' : Machine) : Type 0 where
      pub root : directory_phys m' ≡ directory_phys m
      pub pmm : m'.pmm ≡ m.pmm
      pub small : (x : ℕ) → m'.words x < 2 ^ 32
      pub window : shown (m'.words (directory_phys m + 4 * 768)) ≡ some p
      pub entries : (j : ℕ) → j < 1024 → m'.words (p + 4 * j) ≡ kernel_entry image j
      pub others :
          (x : ℕ)
          → (leb p x && ltb x (p + 4096)) ≡ false
          → (x == directory_phys m + 4 * 768) ≡ false
          → m'.words x ≡ m.words x

    init_lem :
        (m m2 : Machine)
        → write_volatile
            (fill_table m image (kernel_space + p) 1024 0)
            (add directory (dir_index kernel_space))
            (bit_or (kernel_phys (kernel_space + p)) kernel_page)
          ≡ m2
        → init m image (kernel_space + p) ≡ record m2 { cr0 = bit_or m2.cr0 write_protect }
    init_lem m m2 e = unfold init in rw e refl

    pub init-Set :
        (m : Machine) → Low m low → p ≢ directory_phys m → Set m (init m image (kernel_space + p))
    init-Set m w nr =
        let m1 = fill_table m image (kernel_space + p) 1024 0 in
        let f = fill_table-Filled 1024 0 m refl w nr in
        let v = bit_or p kernel_page in
        let at = directory_phys m1 + 4 * 768 in
        let m2 = poke m1 at v in
        let e = shown-table p even (omega arith) in
        let d : dir_index kernel_space ≡ 768 = dir_index_lem kernel_space in
        let q : write_volatile m1 (add directory (dir_index kernel_space))
              (bit_or (kernel_phys (kernel_space + p)) kernel_page)
            ≡ m2 =
          rw (d, kernel_phys_lem p below)
            (write_there m1 (add directory 768) at v
              (walk-directory m1 (Low-Recursive m1 f.low_kept) 768 (omega arith))) in
        let kept_root : directory_phys (record m2 { cr0 = bit_or m2.cr0 write_protect })
            ≡ directory_phys m2 =
          unfold directory_phys in refl in
        rw (init_lem m m2 q) (record {
          root = kept_root ∙ poke-root m1 at v ∙ f.root;
          pmm = f.pmm;
          small = λ x. ground (arith, f.low_kept.small x, e);
          window =
              ap (λ n. shown n)
                (let g : m2.words (directory_phys m + 4 * 768) ≡ v = ground (arith, f.root) in g)
              ∙ e.0;
          entries = λ j h. ground (arith, f.entries j, f.root, f.low_kept.root_even, nr);
          others = λ x o ne_x. ground (arith, f.root, f.others x);
        })

    -- After `init`, the processor finds the address `a` of the kernel's window at `a - kernel_space`,
    -- in a page that can be written unless it holds the kernel's code or constants.
    pub init-walk :
        (m : Machine) (a : ℕ)
        → Low m low
        → p ≢ directory_phys m
        → kernel_space ≤ a
        → a < kernel_window_end
        → (walk (init m image (kernel_space + p)) a ≡ some (a - kernel_space))
          × (has
                ((init m image (kernel_space + p)).words (p + 4 * ((a - kernel_space) / 4096)))
                writable
              ≡ not (leb image.start (a - a % 4096) && ltb (a - a % 4096) image.readonly_end))
    init-walk m a w nr above under =
        let m' = init m image (kernel_space + p) in
        let s = init-Set m w nr in
        let i = (a - kernel_space) / 4096 in
        let d : a / 2 ^ 22 ≡ 768 = omega arith in
        let j : a / 2 ^ 12 % 1024 ≡ i = omega arith in
        let v = m'.words (p + 4 * i) in
        let e : v ≡ i * 4096 + (if is_readonly image i then 1 else 3) =
          s.entries i (omega arith) ∙ kernel_entry_lem image i (omega arith) in
        let pde : shown (m'.words (directory_phys m' + 4 * (a / 2 ^ 22))) ≡ some p =
          ap (λ n. shown (m'.words (n + 4 * (a / 2 ^ 22)))) s.root
          ∙ ap (λ n. shown (m'.words (directory_phys m + 4 * n))) d
          ∙ s.window in
        let pte : shown (m'.words (p + 4 * (a / 2 ^ 12 % 1024))) ≡ some (i * 4096) =
          ap (λ n. shown (m'.words (p + 4 * n))) j ∙ ground (arith, e) in
        let at : u32 (kernel_space + u32 (i * page_size)) ≡ a - a % 4096 = omega arith in
        (
          walk_there m' s.small a p pde
              ∙ ap (λ o. with_offset m' s.small o (a % 4096)) pte
              ∙ ap (λ n. some n)
                  (let f : i * 4096 + a % 4096 ≡ a - kernel_space = omega arith in f),
          ap (λ n. has n writable) e
              ∙ writable_flag i (is_readonly image i)
              ∙ ap (λ c. not (leb image.start c && ltb c image.readonly_end)) at,
        )
