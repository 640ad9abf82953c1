-- ===== src/Shell/Tests.antt =====
-- The theorems on kernel/src/shell.rs, kernel/src/stack.rs and kernel/src/idt.rs at concrete inputs.
use kfs.Base.{
  ℕ, ◌+◌, ◌*◌, ◌-◌, ◌≤◌, ◌≡◌, refl, Option, none, some, List, [], ◌∷◌, ◌++◌, length, min, arith,
  ltb, if◌then◌else◌,
}
use kfs.Idt.{install}
use kfs.Idt.Gates.{Wired, install-Wired}
use kfs.Keyboard.{Key}
use kfs.Klib.{trim_end}
use kfs.Shell.{Action, cmd_virt, line_max, read_line, dispatch}
use kfs.Shell.Line.{line_of, spelled, read_line-spelled, read_line-returns}
use kfs.Shell.Words.{dispatch-runs}
use kfs.Stack.{bytes_from, print}
use kfs.Stack.Rows.{dumped, dumped-print}
use kfs.Vga.{Vga, start}

-- `g`, `d`, `x`, and the last one taken back.
abbrev typed : List (Option Key)
typed =
    some (Key.char 103)
    ∷ none
    ∷ some (Key.char 100)
    ∷ some (Key.char 120)
    ∷ some Key.backspace
    ∷ some (Key.screen 1)
    ∷ []

read_line-spelled_example :
    line_of (read_line (typed ++ some (Key.char 10) ∷ []) (λ i. 0) (start (λ i. 0)))
    ≡ spelled (typed ++ some (Key.char 10) ∷ []) []
read_line-spelled_example =
    read_line-spelled (typed ++ some (Key.char 10) ∷ []) (λ i. 0) (start (λ i. 0))

read_line-returns_example :
    (t : List ℕ) × (shown : Vga) × (keys : List (Option Key)) × (read_line
        (typed ++ some (Key.char 10) ∷ [])
        (λ i. 0)
        (start (λ i. 0))
      ≡ some (t, shown, keys))
    × (length t ≤ line_max)
read_line-returns_example = read_line-returns typed [] (λ i. 0) (start (λ i. 0))

-- `0x8` has no blank at its end.
ends : trim_end (48 ∷ 120 ∷ 56 ∷ []) ≡ 48 ∷ 120 ∷ 56 ∷ []
unfolding trim_end
ends = refl

-- `virt 0x8`.
dispatch-runs_example :
    dispatch (118 ∷ 105 ∷ 114 ∷ 116 ∷ 32 ∷ 48 ∷ 120 ∷ 56 ∷ [])
    ≡ Action.runs cmd_virt (48 ∷ 120 ∷ 56 ∷ [])
dispatch-runs_example = dispatch-runs 3 _ 48 (120 ∷ 56 ∷ []) refl refl ends

dumped-print_example :
    dumped (print (λ a. a) 0xC0108000 0xC0107FE0 20)
    ≡ bytes_from (λ a. a) 0xC0107FE0 (min 20 (0xC0108000 - 0xC0107FE0))
dumped-print_example = dumped-print (λ a. a) 0xC0108000 (omega arith) 0xC0107FE0 20

abbrev stubs : ℕ → ℕ
stubs i = if ltb i 32 then 0xC0101000 + 16 * i else 0

install-Wired_example :
    Wired (stubs 14) (install stubs (λ i. 0) 14) × (install stubs (λ i. 0) 40 ≡ 0)
install-Wired_example =
    install-Wired stubs (λ i. 0) 14 40 (λ i. ground arith) (omega arith) (omega arith)
