-- ===== src/Klib.antt =====
-- kernel/src/klib.rs: strings and numbers. A string is the list of its bytes; `strlen` and
-- `strcmp` read memory until a zero byte, on a number of rounds. `str::trim` is that of the
-- bytes below 128, which is all that the keyboard types.
pub mod Decimal
pub mod Trim
use kfs.Base.{
  ℕ, zero, suc, ◌+◌, ◌-◌, ◌*◌, ◌/◌, ◌%◌, ◌^◌, Bool, true, false, not, ◌&&◌, ◌||◌, Option, none,
  some, List, [], ◌∷◌, ◌++◌, ltb, leb, ◌==◌, if◌then◌else◌, ℤ, pos, negsuc, update,
}

pub strlen_loop : ℕ → (ℕ → ℕ) → ℕ → Option ℕ
strlen_loop zero s n = none
strlen_loop (suc fuel) s n = elim (s n == 0) [ true ↦ some n | false ↦ strlen_loop fuel s (suc n) ]

pub strlen : ℕ → (ℕ → ℕ) → Option ℕ
strlen fuel s = strlen_loop fuel s 0

-- `ca as i32 - cb as i32`.
abbrev pub minus : ℕ → ℕ → ℤ
minus a b = if leb b a then pos (a - b) else negsuc (b - a - 1)

pub strcmp_loop : ℕ → (ℕ → ℕ) → (ℕ → ℕ) → ℕ → Option ℤ
strcmp_loop zero a b i = none
strcmp_loop (suc fuel) a b i = elim (not (a i == b i) || a i == 0) [
  | true ↦ some (minus (a i) (b i))
  | false ↦ strcmp_loop fuel a b (suc i)
]

pub strcmp : ℕ → (ℕ → ℕ) → (ℕ → ℕ) → Option ℤ
strcmp fuel a b = strcmp_loop fuel a b 0

-- The loop of `utoa`, with the buffer and the place of the last digit written.
pub utoa_loop : ℕ → ℕ → (ℕ → ℕ) → ℕ → ℕ × (ℕ → ℕ)
utoa_loop zero n buf i = (i, buf)
utoa_loop (suc fuel) n buf i =
    let i' = i - 1 in
    let buf' = update buf i' (48 + n % 10) in
    elim (n / 10 == 0) [ true ↦ (i', buf') | false ↦ utoa_loop fuel (n / 10) buf' i' ]

-- `&buf[i..]`, of the `left` bytes from `i`.
pub slice : (ℕ → ℕ) → ℕ → ℕ → List ℕ
slice buf i zero = []
slice buf i (suc left) = buf i ∷ slice buf (suc i) left

pub utoa : ℕ → (ℕ → ℕ) → List ℕ
utoa n buf = let (i, buf') = utoa_loop 10 n buf 10 in slice buf' i (10 - i)

abbrev pub is_space : ℕ → Bool
is_space b = b == 32 || (leb 9 b && leb b 13)

pub trim_start : List ℕ → List ℕ
trim_start [] = []
trim_start (b ∷ bs) = if is_space b then trim_start bs else b ∷ bs

unfoldable pub trim_end : List ℕ → List ℕ
trim_end [] = []
trim_end (b ∷ bs) = elim (trim_end bs) [
  | [] ↦ if is_space b then [] else b ∷ []
  | c ∷ cs ↦ b ∷ c ∷ cs
]

pub trim : List ℕ → List ℕ
trim text = trim_end (trim_start text)

-- The digits and the radix: `strip_prefix("0x")`, or `strip_prefix("0X")`.
pub split_radix : List ℕ → List ℕ × ℕ
split_radix [] = ([], 10)
split_radix (a ∷ []) = (a ∷ [], 10)
split_radix (a ∷ b ∷ rest) =
    if a == 48 && (b == 120 || b == 88) then (rest, 16) else (a ∷ b ∷ rest, 10)

pub digit_of : ℕ → Option ℕ
digit_of b =
    if leb 48 b && leb b 57
    then some (b - 48)
    else (if leb 97 b && leb b 102
        then some (b - 97 + 10)
        else (if leb 65 b && leb b 70 then some (b - 65 + 10) else none))

-- `value.checked_mul(radix)?.checked_add(digit)?`.
abbrev pub checked : ℕ → Option ℕ
checked n = if ltb n (2 ^ 32) then some n else none

pub parse_loop : ℕ → List ℕ → ℕ → Option ℕ
parse_loop radix [] value = some value
parse_loop radix (b ∷ bs) value = elim (digit_of b) [
  | none ↦ none
  | some digit ↦ elim (leb radix digit) [
    | true ↦ none
    | false ↦ elim (checked (value * radix)) [
      | none ↦ none
      | some scaled ↦ elim (checked (scaled + digit)) [
        | none ↦ none
        | some next ↦ parse_loop radix bs next
      ]
    ]
  ]
]

abbrev pub parse_digits : List ℕ × ℕ → Option ℕ
parse_digits ([], radix) = none
parse_digits (b ∷ bs, radix) = parse_loop radix (b ∷ bs) 0

pub parse_u32 : List ℕ → Option ℕ
parse_u32 text = parse_digits (split_radix (trim text))
