-- ===== src/Keyboard.antt =====
-- kernel/src/keyboard.rs: what a scan code means, with the shift state passed along. The two ports,
-- the status and the data, are read by the caller here.
pub mod Keys
use kfs.Base.{
  ℕ, ◌+◌, ◌-◌, ◌^◌, ◌%◌, Bool, true, false, ◌&&◌, ◌||◌, not, Option, none, some, List, [], ◌∷◌,
  bit_and, leb, ltb, ◌==◌, if◌then◌else◌, get_elem?,
}

pub data Key : Type 0 where
  char : ℕ → Key
  backspace : Key
  screen : ℕ → Key

-- `\x00\x001234567890-=\x00\x00qwertyuiop[]\n\x00asdfghjkl;'`\x00\\zxcvbnm,./\x00*\x00 `.
abbrev pub lower : List ℕ
lower =
    0 ∷ 0 ∷ 49 ∷ 50 ∷ 51 ∷ 52 ∷ 53 ∷ 54 ∷ 55 ∷ 56 ∷ 57 ∷ 48 ∷ 45 ∷ 61 ∷ 0 ∷ 0 ∷ 113 ∷ 119 ∷ 101
    ∷ 114 ∷ 116 ∷ 121 ∷ 117 ∷ 105 ∷ 111 ∷ 112 ∷ 91 ∷ 93 ∷ 10 ∷ 0 ∷ 97 ∷ 115 ∷ 100 ∷ 102 ∷ 103 ∷ 104
    ∷ 106 ∷ 107 ∷ 108 ∷ 59 ∷ 39 ∷ 96 ∷ 0 ∷ 92 ∷ 122 ∷ 120 ∷ 99 ∷ 118 ∷ 98 ∷ 110 ∷ 109 ∷ 44 ∷ 46 ∷ 47
    ∷ 0 ∷ 42 ∷ 0 ∷ 32 ∷ []

-- `\x00\x00!@#$%^&*()_+\x00\x00QWERTYUIOP{}\n\x00ASDFGHJKL:"~\x00|ZXCVBNM<>?\x00*\x00 `.
abbrev pub upper : List ℕ
upper =
    0 ∷ 0 ∷ 33 ∷ 64 ∷ 35 ∷ 36 ∷ 37 ∷ 94 ∷ 38 ∷ 42 ∷ 40 ∷ 41 ∷ 95 ∷ 43 ∷ 0 ∷ 0 ∷ 81 ∷ 87 ∷ 69 ∷ 82
    ∷ 84 ∷ 89 ∷ 85 ∷ 73 ∷ 79 ∷ 80 ∷ 123 ∷ 125 ∷ 10 ∷ 0 ∷ 65 ∷ 83 ∷ 68 ∷ 70 ∷ 71 ∷ 72 ∷ 74 ∷ 75 ∷ 76
    ∷ 58 ∷ 34 ∷ 126 ∷ 0 ∷ 124 ∷ 90 ∷ 88 ∷ 67 ∷ 86 ∷ 66 ∷ 78 ∷ 77 ∷ 60 ∷ 62 ∷ 63 ∷ 0 ∷ 42 ∷ 0 ∷ 32
    ∷ []

-- A byte of the table, unless it is 0 or past the end.
abbrev pub key_of : Option ℕ → Option Key
key_of none = none
key_of (some b) = if not (b == 0) then some (Key.char b) else none

-- The key, if any, and the shift state after it.
pub poll : Bool → ℕ → ℕ → Option Key × Bool
poll shift status scancode =
    if bit_and status 1 == 0
    then (none, shift)
    else (if scancode == 0x2A || scancode == 0x36
        then (none, true)
        else (if scancode == 0xAA || scancode == 0xB6
            then (none, false)
            else (if scancode == 0x0E
                then (some Key.backspace, shift)
                else (if leb 0x3B scancode && leb scancode 0x3D
                    then (some (Key.screen (scancode - 0x3B)), shift)
                    else (if not (bit_and scancode 0x80 == 0) then (none, shift) else (
                      key_of (get_elem? (if shift then upper else lower) scancode),
                      shift,
                    ))))))
