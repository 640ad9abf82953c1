-- ===== src/Stack.antt =====
-- kernel/src/stack.rs: the dump of the stack. `rd` is the byte at an address, `bottom` and `top` are the
-- linker's symbols of the stack, and a line that is printed is a record of what it shows.
pub mod Rows
use kfs.Base.{
  ℕ, zero, suc, ◌+◌, ◌*◌, ◌-◌, ◌^◌, ◌%◌, Bool, true, false, ◌&&◌, List, [], ◌∷◌, ◌++◌, min, leb,
  ltb, ◌==◌, ◌||◌, if◌then◌else◌, u32, length,
}

abbrev pub window : ℕ
window = 256

abbrev pub per_row : ℕ
per_row = 16

-- A printed line: its address, its bytes, and the text beside them.
pub record Row : Type 0 where
  pub at : ℕ
  pub bytes : List ℕ
  pub text : List ℕ

module _ (rd : ℕ → ℕ) where
  -- The bytes from `from` on.
  pub bytes_from : ℕ → ℕ → List ℕ
  bytes_from from zero = []
  bytes_from from (suc left) = rd from ∷ bytes_from (suc from) left

  -- `snapshot` into a buffer of `size` bytes; subtraction stops at 0, as `saturating_sub` does.
  pub snapshot : ℕ → ℕ → ℕ → List ℕ
  snapshot top from size = bytes_from from (min (top - from) size)

-- What a byte shows as.
abbrev pub shown : ℕ → ℕ
shown b = if leb 0x20 b && ltb b 0x7f then b else 46

pub texts : List ℕ → List ℕ
texts [] = []
texts (b ∷ bs) = shown b ∷ texts bs

pub take : ℕ → List ℕ → List ℕ
take zero bs = []
take (suc n) [] = []
take (suc n) (b ∷ bs) = b ∷ take n bs

pub drop : ℕ → List ℕ → List ℕ
drop zero bs = bs
drop (suc n) [] = []
drop (suc n) (b ∷ bs) = drop n bs

-- `bytes.chunks(PER_ROW).enumerate()`: each chunk has a byte or more, so their number is no more than
-- the number of bytes, which is the fuel.
pub render_rows : ℕ → ℕ → ℕ → List ℕ → List Row
render_rows zero base row bytes = []
render_rows (suc fuel) base row [] = []
render_rows (suc fuel) base row (b ∷ bs) =
    let chunk = take per_row (b ∷ bs) in
    record { at = u32 (base + u32 (row * per_row)); bytes = chunk; text = texts chunk }
    ∷ render_rows fuel base (suc row) (drop per_row (b ∷ bs))

pub render : ℕ → List ℕ → List Row
render base bytes = render_rows (length bytes) base 0 bytes

-- `while left > 0` of `print`, which gets a byte or more in each round.
pub print_loop : (ℕ → ℕ) → ℕ → ℕ → ℕ → ℕ → List Row
print_loop rd top zero at left = []
print_loop rd top (suc fuel) at left =
    let got = snapshot rd top at (min left window) in
    let rest = print_loop rd top fuel (u32 (at + length got)) (left - length got) in
    if left == 0 || length got == 0 then [] else render at got ++ rest

-- The lines below the heading.
pub print : (ℕ → ℕ) → ℕ → ℕ → ℕ → List Row
print rd top esp bytes = let left = min bytes (top - esp) in print_loop rd top left esp left
