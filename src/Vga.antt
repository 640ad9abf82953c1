-- ===== src/Vga.antt =====
-- kernel/src/vga.rs: the text screen at 0xc00b8000 and the screens behind it. The cursor's two
-- registers in the display controller, which `sync_hw_cursor` writes, are the field crtc.
pub mod Screens
use kfs.Base.{
  ℕ, zero, suc, ◌+◌, ◌-◌, ◌*◌, ◌/◌, ◌%◌, ◌^◌, Bool, true, false, ◌||◌, List, [], ◌∷◌, bit_or, ltb,
  leb, ◌==◌, if◌then◌else◌, update,
}

abbrev pub width : ℕ
width = 80

abbrev pub height : ℕ
height = 25

abbrev pub num_cells : ℕ
num_cells = width * height

abbrev pub default_attr : ℕ
default_attr = 15 * 2 ^ 8

abbrev pub nb_screens : ℕ
nb_screens = 3

abbrev pub blank : ℕ
blank = 32

abbrev pub newline : ℕ
newline = 10

pub record Screen : Type 0 where
  pub cells : ℕ → ℕ
  pub cursor : ℕ
  pub attr : ℕ

pub record Vga : Type 0 where
  pub cells : ℕ → ℕ
  pub cursor : ℕ
  pub attr : ℕ
  pub screens : ℕ → Screen
  pub used : ℕ → Bool
  pub active : ℕ
  pub crtc : ℕ → ℕ

abbrev pub zero_screen : Screen
zero_screen = record { cells = λ i. 0; cursor = 0; attr = 0 }

-- The statics as the kernel starts, with what the display memory holds then.
unfoldable pub start : (ℕ → ℕ) → Vga
start cells = record {
  cells = cells;
  cursor = 0;
  attr = default_attr;
  screens = λ n. zero_screen;
  used = λ n. false;
  active = 0;
  crtc = λ r. 0;
}

pub set_cursor : Vga → ℕ → Vga
set_cursor s i = record s { cursor = i }

pub set_color : Vga → ℕ → ℕ → Vga
set_color s fg bg = record s { attr = bit_or (bg * 2 ^ 12 % 2 ^ 16) (fg * 2 ^ 8) }

pub put_cell : Vga → ℕ → ℕ → Vga
put_cell s i cell = record s { cells = update s.cells i cell }

pub sync_hw_cursor : Vga → Vga
sync_hw_cursor s =
    let pos = s.cursor % 2 ^ 16 in
    record s { crtc = update (update s.crtc 0x0F (pos % 2 ^ 8)) 0x0E (pos / 2 ^ 8) }

-- `for i in .. { put_cell(i, cell) }`, on the rounds that are left.
pub fill_cells : Vga → ℕ → ℕ → ℕ → Vga
fill_cells s cell zero i = s
fill_cells s cell (suc left) i = fill_cells (put_cell s i cell) cell left (suc i)

pub clear : Vga → Vga
clear s = sync_hw_cursor (set_cursor (fill_cells s (bit_or s.attr blank) num_cells 0) 0)

-- The first loop of `scroll`.
pub move_up : Vga → ℕ → ℕ → Vga
move_up s zero i = s
move_up s (suc left) i = move_up (put_cell s i (s.cells (i + width))) left (suc i)

pub scroll : Vga → Vga
scroll s =
    fill_cells (move_up s (num_cells - width) 0) (bit_or s.attr blank) width (num_cells - width)

-- What `putb` does before it looks whether the screen is full.
pub put_byte : Vga → ℕ → Vga
put_byte s b =
    if b == newline
    then set_cursor s (s.cursor - s.cursor % width + width)
    else set_cursor (put_cell s s.cursor (bit_or s.attr b)) (s.cursor + 1)

pub putb : Vga → ℕ → Vga
putb s b =
    let s' = put_byte s b in
    if leb num_cells s'.cursor then set_cursor (scroll s') (num_cells - width) else s'

pub put_bytes : Vga → List ℕ → Vga
put_bytes s [] = s
put_bytes s (b ∷ bs) = put_bytes (putb s b) bs

pub print : Vga → List ℕ → Vga
print s text = sync_hw_cursor (put_bytes s text)

pub put_char : Vga → ℕ → Vga
put_char s b = sync_hw_cursor (putb s b)

pub backspace : Vga → Vga
backspace s =
    if ltb 0 s.cursor
    then (let s' = set_cursor s (s.cursor - 1) in
        sync_hw_cursor (put_cell s' s'.cursor (bit_or s'.attr blank)))
    else s

-- The loops of `switch_screen` that copy between a screen and the display.
pub save_cells : (ℕ → ℕ) → (ℕ → ℕ) → ℕ → ℕ → ℕ → ℕ
save_cells to from zero i = to
save_cells to from (suc left) i = save_cells (update to i (from i)) from left (suc i)

-- `SCREENS[a]` with what the display shows.
pub save_screen : Vga → Vga
save_screen s =
    let a = s.active in
    record s {
      screens = update s.screens a (record {
        cells = save_cells (s.screens a).cells s.cells num_cells 0;
        cursor = s.cursor;
        attr = s.attr;
      });
      used = update s.used a true;
    }

pub show_screen : Vga → ℕ → Vga
show_screen s n =
    if s.used n
    then record s {
      cells = save_cells s.cells (s.screens n).cells num_cells 0;
      cursor = (s.screens n).cursor;
      attr = (s.screens n).attr;
      active = n;
    }
    else record (fill_cells s (bit_or default_attr blank) num_cells 0) {
      attr = default_attr;
      cursor = 0;
      active = n;
    }

pub switch_screen : Vga → ℕ → Vga
switch_screen s n =
    if leb nb_screens n || n == s.active then s else sync_hw_cursor (show_screen (save_screen s) n)
