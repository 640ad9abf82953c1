-- ===== src/Vga/Screens.antt =====
-- kernel/src/vga.rs: the cursor stays on the screen, and switching screens loses nothing.
use kfs.Base.{
  ℕ, zero, suc, ◌+◌, ◌-◌, ◌*◌, ◌^◌, ◌<◌, ◌≡◌, ◌≢◌, refl, true, false, ◌||◌, ◌&&◌, List, [], ◌∷◌,
  bit_or, ltb, leb, ◌==◌, if◌then◌else◌, update, arith, Bool-cases, inl, inr, ◌∙◌, ap,
}
use kfs.Vga.{
  Vga, num_cells, width, blank, nb_screens, put_cell, set_cursor, fill_cells, move_up, scroll,
  put_byte, putb, put_bytes, print, sync_hw_cursor, save_cells, save_screen, show_screen,
  switch_screen,
}

-- A loop of `put_cell` writes the cells from `i` on.
fill_cells_lem :
    (s : Vga) (cell left i j : ℕ)
    → (fill_cells s cell left i).cells j ≡ (if leb i j && ltb j (i + left) then cell else s.cells j)
unfolding fill_cells put_cell
fill_cells_lem s cell zero i j = ground arith
fill_cells_lem s cell (suc left) i j =
    fill_cells_lem (put_cell s i cell) cell left (suc i) j ∙ ground arith

move_up_lem :
    (s : Vga) (left i j : ℕ)
    → (move_up s left i).cells j
      ≡ (if leb i j && ltb j (i + left) then s.cells (j + width) else s.cells j)
unfolding move_up put_cell
move_up_lem s zero i j = ground arith
move_up_lem s (suc left) i j =
    move_up_lem (put_cell s i (s.cells (i + width))) left (suc i) j ∙ ground arith

move_up_attr : (s : Vga) (left i : ℕ) → (move_up s left i).attr ≡ s.attr
unfolding move_up put_cell
move_up_attr s zero i = refl
move_up_attr s (suc left) i = move_up_attr (put_cell s i (s.cells (i + width))) left (suc i)

-- `scroll` moves every line up by one and blanks the last.
pub scroll_lem :
    (s : Vga) (j : ℕ)
    → j < num_cells
    → (scroll s).cells j
      ≡ (if ltb j (num_cells - width) then s.cells (j + width) else bit_or s.attr blank)
unfolding scroll
scroll_lem s j h =
    fill_cells_lem (move_up s (num_cells - width) 0) (bit_or s.attr blank) width (num_cells - width)
      j
    ∙ ground (arith, move_up_lem s (num_cells - width) 0 j)

-- The cursor is on the screen.
unfoldable pub OnScreen : Vga → Type 0
OnScreen s = s.cursor < num_cells

-- `putb` leaves the cursor on the screen.
pub putb-OnScreen : (s : Vga) (b : ℕ) → OnScreen s → OnScreen (putb s b)
unfolding OnScreen putb set_cursor
putb-OnScreen s b h = elim (Bool-cases (leb num_cells (put_byte s b).cursor)) [
  | inl full ↦ rw full (omega arith)
  | inr fits ↦ rw fits (ground arith)
]

put_bytes-OnScreen : (s : Vga) (bs : List ℕ) → OnScreen s → OnScreen (put_bytes s bs)
unfolding put_bytes
put_bytes-OnScreen s [] h = h
put_bytes-OnScreen s (b ∷ bs) h = put_bytes-OnScreen (putb s b) bs (putb-OnScreen s b h)

save_cells_lem :
    (to from : ℕ → ℕ) (left i j : ℕ)
    → save_cells to from left i j ≡ (if leb i j && ltb j (i + left) then from j else to j)
unfolding save_cells
save_cells_lem to from zero i j = ground arith
save_cells_lem to from (suc left) i j =
    save_cells_lem (update to i (from i)) from left (suc i) j ∙ ground arith

fill_cells_kept :
    (s : Vga) (cell left i : ℕ)
    → ((fill_cells s cell left i).screens ≡ s.screens) × ((fill_cells s cell left i).used ≡ s.used)
unfolding fill_cells put_cell
fill_cells_kept s cell zero i = (refl, refl)
fill_cells_kept s cell (suc left) i = fill_cells_kept (put_cell s i cell) cell left (suc i)

-- `show_screen` changes none of the screens behind the display.
show_screen_kept :
    (s : Vga) (n : ℕ)
    → ((show_screen s n).screens ≡ s.screens)
      × ((show_screen s n).used ≡ s.used)
      × ((show_screen s n).active ≡ n)
unfolding show_screen
show_screen_kept s n = elim (Bool-cases (s.used n)) [
  | inl used ↦ rw used (refl, refl, refl)
  | inr fresh ↦
      let k = fill_cells_kept s (bit_or (15 * 2 ^ 8) blank) num_cells 0 in rw fresh (k.0, k.1, refl)
]

-- The display shows what the screen `a` of `s` holds.
pub record Shows (s : Vga) (a : ℕ) (t : Vga) : Type 0 where
  pub cells : (i : ℕ) → i < num_cells → t.cells i ≡ (s.screens a).cells i
  pub cursor : t.cursor ≡ (s.screens a).cursor
  pub attr : t.attr ≡ (s.screens a).attr
  pub active : t.active ≡ a

show_screen-Shows : (s : Vga) (a : ℕ) → s.used a ≡ true → Shows s a (show_screen s a)
unfolding show_screen
show_screen-Shows s a used = rw used (record {
  cells = λ i h. save_cells_lem s.cells (s.screens a).cells num_cells 0 i ∙ ground arith;
  cursor = refl;
  attr = refl;
  active = refl;
})

-- The two displays show the same.
pub record SameDisplay (s t : Vga) : Type 0 where
  pub cells : (i : ℕ) → i < num_cells → t.cells i ≡ s.cells i
  pub cursor : t.cursor ≡ s.cursor
  pub attr : t.attr ≡ s.attr
  pub active : t.active ≡ s.active

switches :
    (s : Vga) (n : ℕ)
    → n < nb_screens
    → n ≢ s.active
    → switch_screen s n ≡ sync_hw_cursor (show_screen (save_screen s) n)
switches s n h ne =
    let q : (leb nb_screens n || n == s.active) ≡ false = ground arith in
    unfold switch_screen in rw q

saved_active :
    (s : Vga)
    → (save_screen s).screens s.active ≡ record {
      cells = save_cells (s.screens s.active).cells s.cells num_cells 0;
      cursor = s.cursor;
      attr = s.attr;
    }
unfolding save_screen
saved_active s = let q : (s.active == s.active) ≡ true = ground arith in rw q refl

-- Switching to another screen and back shows the same cells, cursor and colours as before.
pub switch_screen-switch_screen :
    (s : Vga) (n : ℕ)
    → n < nb_screens
    → s.active < nb_screens
    → n ≢ s.active
    → SameDisplay s (switch_screen (switch_screen s n) s.active)
unfolding save_screen sync_hw_cursor
switch_screen-switch_screen s n h low ne =
    let s1 = sync_hw_cursor (show_screen (save_screen s) n) in
    let k = show_screen_kept (save_screen s) n in
    let s2 = save_screen s1 in
    let mine : s2.screens s.active ≡ (save_screen s).screens s.active =
      ground (arith, k.2) ∙ ap (λ f. f s.active) k.0 in
    let used : s2.used s.active ≡ true = ground (arith, k.2, ap (λ f. f s.active) k.1) in
    let shows = show_screen-Shows s2 s.active used in
    let one : switch_screen s n ≡ s1 = switches s n h ne in
    let two : switch_screen s1 s.active ≡ sync_hw_cursor (show_screen s2 s.active) =
      switches s1 s.active low (ground (arith, k.2)) in
    rw (one, two)
      (record {
        cells = λ i b.
            shows.cells i b
            ∙ ap (λ r. r.cells i) (mine ∙ saved_active s)
            ∙ save_cells_lem (s.screens s.active).cells s.cells num_cells 0 i
            ∙ ground arith;
        cursor = shows.cursor ∙ ap (λ r. r.cursor) (mine ∙ saved_active s);
        attr = shows.attr ∙ ap (λ r. r.attr) (mine ∙ saved_active s);
        active = shows.active;
      })

-- `print` of any text leaves the cursor on the screen.
pub print-OnScreen : (s : Vga) (text : List ℕ) → OnScreen s → OnScreen (print s text)
unfolding print sync_hw_cursor OnScreen
print-OnScreen s text h = put_bytes-OnScreen s text h
