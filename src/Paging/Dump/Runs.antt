-- ===== src/Paging/Dump/Runs.antt =====
-- The lines of `dump` of kernel/src/paging.rs are the mapped pages, in order.
pub mod Memory
use kfs.Base.{
  ℕ, zero, suc, ◌+◌, ◌*◌, ◌-◌, ◌^◌, ◌<◌, ◌≤◌, ◌≡◌, refl, Bool, true, false, ◌&&◌, Option, none,
  some, List, [], ◌∷◌, ◌++◌, bit_and, ◌==◌, if◌then◌else◌, u32, arith, ◌∙◌, ap, sym, Bool-cases,
  inl, inr, subst,
}
use mathlib.Core.List.{append_assoc, append-nil}
use Prim.{Unit, tt}
use kfs.Mem.{entries, page_size}
use kfs.Paging.{
  Machine, Run, Page, present, writable, user, has, table, add, read_volatile, directory_entry,
  extend_run,
}
use kfs.Paging.Dump.{page_at, dump_table, dump_dirs, dump}

-- A page, its frame, and whether it can be written and reached by user code.
pub record Shown : Type 0 where
  pub at : ℕ
  pub frame : ℕ
  pub rights : ℕ

abbrev pub shown_page : Page → Shown
shown_page p = record { at = p.at; frame = p.frame; rights = bit_and p.bits (writable + user) }

-- The pages of a run, each 4096 bytes above the one before it.
pub pages_from : ℕ → ℕ → ℕ → ℕ → List Shown
pages_from rights at frame zero = []
pages_from rights at frame (suc n) =
    record { at = at; frame = frame; rights = rights }
    ∷ pages_from rights (u32 (at + 4096)) (u32 (frame + 4096)) n

abbrev pages_of : Run → List Shown
pages_of r = pages_from (bit_and r.flags (writable + user)) r.virt r.phys r.pages

pub pages_of_all : List Run → List Shown
pages_of_all [] = []
pages_of_all (r ∷ rs) = pages_of r ++ pages_of_all rs

-- The mapped pages of a table, and of the directory.
pub table_pages : Machine → ℕ → ℕ → ℕ → List Shown
table_pages m dir zero index = []
table_pages m dir (suc left) index =
    let pte = read_volatile m (add (table dir) index) in
    let rest = table_pages m dir left (suc index) in
    if has pte present then shown_page (page_at dir index pte) ∷ rest else rest

pub directory_pages : Machine → ℕ → ℕ → List Shown
directory_pages m zero dir = []
directory_pages m (suc left) dir =
    let rest = directory_pages m left (suc dir) in
    if has (directory_entry m dir) present then table_pages m dir entries 0 ++ rest else rest

-- What the open run stands for, and a bound on its length.
abbrev open_pages : Option Run → List Shown
open_pages none = []
open_pages (some r) = pages_of r

abbrev Fits : Option Run → ℕ → Type 0
Fits none n = Unit {0}
Fits (some r) n = (0 < r.pages) × (r.pages + n < 2 ^ 32)

abbrev next_page : Option Page → List Shown
next_page none = []
next_page (some p) = shown_page p ∷ []

pages_from-more :
    (rights at frame n : ℕ)
    → pages_from rights at frame (suc (suc n))
      ≡ pages_from rights at frame (suc n)
        ++ (record {
          at = u32 (at + suc n * 4096);
          frame = u32 (frame + suc n * 4096);
          rights = rights;
        }
            ∷ [])
unfolding pages_from
pages_from-more rights at frame zero = refl
pages_from-more rights at frame (suc n) =
    let a : u32 (u32 (at + 4096) + suc n * 4096) ≡ u32 (at + suc (suc n) * 4096) = omega arith in
    let f : u32 (u32 (frame + 4096) + suc n * 4096) ≡ u32 (frame + suc (suc n) * 4096) =
      omega arith in
    ap (λ ps. record { at = at; frame = frame; rights = rights } ∷ ps)
      (pages_from-more rights (u32 (at + 4096)) (u32 (frame + 4096)) n ∙ rw (a, f) refl)

-- One call of `extend_run`.
abbrev Extends : Option Run → List Shown → ℕ → Option Run × List Run → Type 0
Extends run more n (run1, lines) =
    (pages_of_all lines ++ open_pages run1 ≡ open_pages run ++ more) × Fits run1 n

-- The test of `extend_run`.
abbrev follows : Run → Page → Bool
follows r p =
    p.at == u32 (r.virt + u32 (r.pages * page_size))
    && p.frame == u32 (r.phys + u32 (r.pages * page_size))
    && bit_and p.bits (writable + user) == bit_and r.flags (writable + user)

last_page :
    (r : Run) (p : Page) (k : ℕ)
    → r.pages ≡ suc k
    → follows r p ≡ true
    → record {
      at = u32 (r.virt + suc k * 4096);
      frame = u32 (r.phys + suc k * 4096);
      rights = bit_and r.flags (writable + user);
    }
      ≡ shown_page p
last_page r p k e t =
    let a : u32 (r.virt + suc k * 4096) ≡ p.at = ground (arith, e, t) in
    let f : u32 (r.phys + suc k * 4096) ≡ p.frame = ground (arith, e, t) in
    let b : bit_and r.flags (writable + user) ≡ bit_and p.bits (writable + user) =
      ground (arith, t) in
    rw (a, f, b) refl

longer :
    (r : Run) (p : Page) (n : ℕ)
    → (0 < r.pages) × (r.pages + suc n < 2 ^ 32)
    → follows r p ≡ true
    → pages_from (bit_and r.flags (writable + user)) r.virt r.phys (u32 (r.pages + 1))
      ≡ pages_of r ++ (shown_page p ∷ [])
longer r p n f t =
    let k = r.pages - 1 in
    let e : r.pages ≡ suc k = omega (arith, f) in
    let q : u32 (r.pages + 1) ≡ suc (suc k) = omega (arith, f) in
    let rights = bit_and r.flags (writable + user) in
    ap (λ j. pages_from rights r.virt r.phys j) q
    ∙ pages_from-more rights r.virt r.phys k
    ∙ ap
        (λ j.
          pages_from rights r.virt r.phys j
          ++ (record {
            at = u32 (r.virt + suc k * 4096);
            frame = u32 (r.phys + suc k * 4096);
            rights = rights;
          }
              ∷ []))
        (sym e)
    ∙ ap (λ s. pages_of r ++ (s ∷ [])) (last_page r p k e t)

extend-Extends :
    (run : Option Run) (next : Option Page) (n : ℕ)
    → Fits run (suc n)
    → n + 1 < 2 ^ 32
    → Extends run (next_page next) n (extend_run run next)
unfolding pages_of_all pages_from
extend-Extends none none n f h = unfold extend_run in (refl, tt)
extend-Extends none (some p) n f h = unfold extend_run in (refl, (omega arith, omega arith))
extend-Extends (some r) none n f h = unfold extend_run in (append-nil (pages_of r ++ []), tt)
extend-Extends (some r) (some p) n f h = elim (Bool-cases (follows r p)) [
  | inl yes_it ↦
      unfold extend_run in rw yes_it (longer r p n f yes_it, (omega (arith, f), omega (arith, f)))
  | inr no_it ↦
      unfold extend_run in
      rw no_it
        (ap (λ ps. ps ++ (shown_page p ∷ [])) (append-nil (pages_of r)), (omega arith, omega arith))
]

pages_of_all-append :
    (xs ys : List Run) → pages_of_all (xs ++ ys) ≡ pages_of_all xs ++ pages_of_all ys
unfolding pages_of_all
pages_of_all-append [] ys = refl
pages_of_all-append (x ∷ xs) ys =
    ap (λ ps. pages_of x ++ ps) (pages_of_all-append xs ys)
    ∙ sym (append_assoc (pages_of x) (pages_of_all xs) (pages_of_all ys))

Fits-less : (run : Option Run) (a b : ℕ) → b ≤ a → Fits run a → Fits run b
Fits-less none a b h f = tt
Fits-less (some r) a b h f = (f.0, omega (arith, f))

-- One call after another.
Extends-then :
    (run : Option Run) (more rest : List Shown) (k n : ℕ) (r : Option Run × List Run)
    (s : Option Run × List Run)
    → Extends run more k r
    → Extends r.0 rest n s
    → Extends run (more ++ rest) n (s.0, r.1 ++ s.1)
unfolding pages_of_all
Extends-then run more rest k n (run1, lines) (run2, lines2) (e, _) (g, f) = (
  ap (λ ps. ps ++ open_pages run2) (pages_of_all-append lines lines2)
      ∙ append_assoc (pages_of_all lines) (pages_of_all lines2) (open_pages run2)
      ∙ ap (λ ps. pages_of_all lines ++ ps) g
      ∙ sym (append_assoc (pages_of_all lines) (open_pages run1) rest)
      ∙ ap (λ ps. ps ++ rest) e
      ∙ append_assoc (open_pages run) more rest,
  f,
)

still-Fits :
    (run : Option Run) (more : List Shown) (n : ℕ) (r : Option Run × List Run)
    → Extends run more n r
    → Fits r.0 n
still-Fits run more n (run1, lines) (e, f) = f

-- What is open is closed by a page that is not there.
closes : (run : Option Run) → (extend_run run none).0 ≡ none
unfolding extend_run
closes none = refl
closes (some r) = refl

Extends-closed :
    (run : Option Run) (more : List Shown) (n : ℕ) (r : Option Run × List Run)
    → r.0 ≡ none
    → Extends run more n r
    → pages_of_all r.1 ≡ open_pages run ++ more
Extends-closed run more n (none, lines) e (q, f) = sym (append-nil (pages_of_all lines)) ∙ q
Extends-closed run more n (some r, lines) e (q, f) = absurd (cc)

module _ (m : Machine) where
  table_next :
      (dir left index : ℕ) (t : Bool) (pte : ℕ) (rest : List Shown)
      → next_page (if t then some (page_at dir index pte) else none) ++ rest
        ≡ (if t then shown_page (page_at dir index pte) ∷ rest else rest)
  table_next dir left index true pte rest = refl
  table_next dir left index false pte rest = refl

  table-Extends :
      (dir left index n : ℕ) (run : Option Run)
      → Fits run (left + n)
      → left + n + 1 < 2 ^ 32
      → Extends run (table_pages m dir left index) n (dump_table m dir left index run)
  unfolding dump_table table_pages pages_of_all
  table-Extends dir zero index n run f h =
      (sym (append-nil (open_pages run)), Fits-less run (zero + n) n (omega arith) f)
  table-Extends dir (suc left) index n run f h =
      let pte = read_volatile m (add (table dir) index) in
      let next : Option Page = if has pte present then some (page_at dir index pte) else none in
      let one =
        extend-Extends run next (left + n)
          (Fits-less run (suc left + n) (suc (left + n)) (omega arith) f) (omega arith) in
      let r = extend_run run next in
      let rest =
        table-Extends dir left (suc index) n r.0 (still-Fits run (next_page next) (left + n) r one)
          (omega arith) in
      subst (λ ps. Extends run ps n (dump_table m dir (suc left) index run))
        (table_next dir left index (has pte present) pte (table_pages m dir left (suc index)))
        (Extends-then run (next_page next) (table_pages m dir left (suc index)) (left + n) n r
          (dump_table m dir left (suc index) r.0) one rest)

  directory-Extends :
      (left dir n : ℕ) (run : Option Run)
      → Fits run (left * 1024 + n)
      → left * 1024 + n + 1 < 2 ^ 32
      → Extends run (directory_pages m left dir) n (dump_dirs m left dir run)
  unfolding dump_dirs directory_pages pages_of_all
  directory-Extends zero dir n run f h =
      (sym (append-nil (open_pages run)), Fits-less run (zero * 1024 + n) n (omega arith) f)
  directory-Extends (suc left) dir n run f h =
      elim (Bool-cases (has (directory_entry m dir) present)) [
        | inl there ↦
            let k = left * 1024 + n in
            let r = dump_table m dir entries 0 run in
            let one =
              table-Extends dir 1024 0 k run
                (Fits-less run (suc left * 1024 + n) (1024 + k) (omega arith) f) (omega arith) in
            let rest =
              directory-Extends left (suc dir) n r.0
                (still-Fits run (table_pages m dir 1024 0) k r one) (omega arith) in
            rw there (
              Extends-then run (table_pages m dir 1024 0) (directory_pages m left (suc dir)) k n r
                (dump_dirs m left (suc dir) r.0) one rest)
        | inr gone ↦
            let k = left * 1024 + n in
            let r = extend_run run none in
            let one =
              extend-Extends run none k
                (Fits-less run (suc left * 1024 + n) (suc k) (omega arith) f) (omega arith) in
            let rest =
              directory-Extends left (suc dir) n r.0 (still-Fits run [] k r one) (omega arith) in
            rw gone (
              Extends-then run [] (directory_pages m left (suc dir)) k n r
                (dump_dirs m left (suc dir) r.0) one rest)
      ]

  -- The lines that `dump` prints stand for the mapped pages: each page of each table of the directory,
  -- once and in order, with its frame and its rights, and no other.
  pub dump-directory_pages : pages_of_all (dump m) ≡ directory_pages m 1024 0
  unfolding dump
  dump-directory_pages =
      let r = dump_dirs m 1024 0 none in
      let all = directory-Extends 1024 0 1 none tt (omega arith) in
      let last =
        extend-Extends r.0 none 0 (still-Fits none (directory_pages m 1024 0) 1 r all)
          (omega arith) in
      Extends-closed none (directory_pages m 1024 0 ++ []) 0
        ((extend_run r.0 none).0, r.1 ++ (extend_run r.0 none).1) (closes r.0)
        (Extends-then none (directory_pages m 1024 0) [] 1 0 r (extend_run r.0 none) all last)
      ∙ append-nil (directory_pages m 1024 0)
