-- ===== src/Keyboard/Keys.antt =====
-- What `poll` of kernel/src/keyboard.rs can return.
use Prim.{Unit, tt}
use kfs.Base.{
  ℕ, ◌<◌, ◌≢◌, Bool, Option, none, some, ◌==◌, arith, ◌&&◌, ◌||◌, not, leb, if◌then◌else◌, bit_and,
  get_elem?, Bool-cases, inl, inr,
}
use kfs.Vga.{nb_screens}
use kfs.Keyboard.{Key, poll, key_of, lower, upper}

-- A character is not the zero byte, and a screen is one that the display has.
abbrev pub Proper : Option Key → Type 0
Proper none = Unit {0}
Proper (some (Key.char b)) = b ≢ 0
Proper (some Key.backspace) = Unit {0}
Proper (some (Key.screen n)) = n < nb_screens

Proper-key_of : (o : Option ℕ) → Proper (key_of o)
Proper-key_of none = tt
Proper-key_of (some b) = elim (Bool-cases (b == 0)) [
  | inl e ↦ rw e tt
  | inr e ↦ rw e (ground arith)
]

-- The keys that `poll` returns are characters other than zero, the backspace, and screens that
-- the display has.
pub poll-Proper : (shift : Bool) (status scancode : ℕ) → Proper (poll shift status scancode).0
unfolding poll
poll-Proper shift status code = elim (Bool-cases (bit_and status 1 == 0)) [
  | inl a ↦ rw a tt
  | inr a ↦ elim (Bool-cases (code == 0x2A || code == 0x36)) [
    | inl b ↦ rw (a, b) tt
    | inr b ↦ elim (Bool-cases (code == 0xAA || code == 0xB6)) [
      | inl c ↦ rw (a, b, c) tt
      | inr c ↦ elim (Bool-cases (code == 0x0E)) [
        | inl d ↦ rw (a, b, c, d) tt
        | inr d ↦ elim (Bool-cases (leb 0x3B code && leb code 0x3D)) [
          | inl e ↦ rw (a, b, c, d, e) (ground arith)
          | inr e ↦ elim (Bool-cases (not (bit_and code 0x80 == 0))) [
            | inl f ↦ rw (a, b, c, d, e, f) tt
            | inr f ↦
                rw (a, b, c, d, e, f)
                  (Proper-key_of (get_elem? (if shift then upper else lower) code))
          ]
        ]
      ]
    ]
  ]
]
