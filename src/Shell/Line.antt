-- ===== src/Shell/Line.antt =====
-- `read_line` of kernel/src/shell.rs against the text that the keys spell.
use kfs.Base.{
  ℕ, zero, suc, ◌+◌, ◌-◌, ◌≤◌, ◌≡◌, refl, Bool, true, false, Option, none, some, List, [], ◌∷◌,
  ◌++◌, ltb, ◌==◌, if◌then◌else◌, update, arith, Bool-cases, inl, inr, ◌∙◌, ap, sym, length,
  length-append,
}
use kfs.Keyboard.{Key}
use kfs.Vga.{Vga, put_char, backspace}
use kfs.Shell.{line_max, Edit, turn, text_from, read_loop, read_line}

-- All but the last.
pub drop_last : List ℕ → List ℕ
drop_last [] = []
drop_last (b ∷ []) = []
drop_last (b ∷ c ∷ cs) = b ∷ drop_last (c ∷ cs)

-- The text that the keys up to the first newline spell after `text`, and the keys that are left.
pub spelled : List (Option Key) → List ℕ → Option (List ℕ × List (Option Key))
spelled [] text = none
spelled (some (Key.char b) ∷ keys) text =
    if b == 10
    then some (text, keys)
    else spelled keys (if ltb (length text) line_max then text ++ (b ∷ []) else text)
spelled (some Key.backspace ∷ keys) text = spelled keys (drop_last text)
spelled (some (Key.screen s) ∷ keys) text = spelled keys text
spelled (none ∷ keys) text = spelled keys text

-- The line and the keys that are left, without the display.
abbrev pub line_of : Option (List ℕ × Vga × List (Option Key)) → Option (List ℕ × List (Option Key))
line_of none = none
line_of (some (text, vga, keys)) = some (text, keys)

length-text_from : (buf : ℕ → ℕ) (n i : ℕ) → length (text_from buf i n) ≡ n
unfolding text_from
length-text_from buf zero i = refl
length-text_from buf (suc n) i = omega (arith, length-text_from buf n (suc i))

text_from-kept :
    (buf : ℕ → ℕ) (k b : ℕ) (n i : ℕ)
    → i + n ≤ k
    → text_from (update buf k b) i n ≡ text_from buf i n
unfolding text_from
text_from-kept buf k b zero i h = refl
text_from-kept buf k b (suc n) i h =
    let e : update buf k b i ≡ buf i = ground arith in
    rw (e, text_from-kept buf k b n (suc i) (omega arith)) refl

text_from-more :
    (buf : ℕ → ℕ) (b n i k : ℕ)
    → k ≡ i + n
    → text_from (update buf k b) i (suc n) ≡ text_from buf i n ++ (b ∷ [])
unfolding text_from
text_from-more buf b zero i k e = let f : update buf k b i ≡ b = ground (arith, e) in rw f refl
text_from-more buf b (suc n) i k e =
    let f : update buf k b i ≡ buf i = ground (arith, e) in
    rw f (ap (λ cs. buf i ∷ cs) (text_from-more buf b n (suc i) k (omega arith)))

text_from-less : (buf : ℕ → ℕ) (n i : ℕ) → drop_last (text_from buf i (suc n)) ≡ text_from buf i n
unfolding text_from drop_last
text_from-less buf zero i = refl
text_from-less buf (suc n) i = ap (λ cs. buf i ∷ cs) (text_from-less buf n (suc i))

abbrev text : Edit → List ℕ
text e = text_from e.buf 0 e.n

loop_more :
    (key : Option Key) (keys : List (Option Key)) (e e1 : Edit)
    → turn key e ≡ (false, e1)
    → read_loop (key ∷ keys) e ≡ read_loop keys e1
unfolding read_loop
loop_more key keys e e1 q =
    rw (ap (λ (r : Bool × Edit). r.0) q, read_loop) (ap (λ (r : Bool × Edit). read_loop keys r.1) q)

loop_done :
    (key : Option Key) (keys : List (Option Key)) (e e1 : Edit)
    → turn key e ≡ (true, e1)
    → read_loop (key ∷ keys) e ≡ some (text e1, e1.vga, keys)
unfolding read_loop
loop_done key keys e e1 q =
    rw (ap (λ (r : Bool × Edit). r.0) q, read_loop)
      (ap (λ (r : Bool × Edit). some (text r.1, r.1.vga, keys)) q)

-- What one answer of the keyboard does to the text.
abbrev Follows : List (Option Key) → Type 0
Follows keys = (e : Edit) → e.n ≤ line_max → line_of (read_loop keys e) ≡ spelled keys (text e)

char-Follows :
    (b : ℕ) (keys : List (Option Key)) → Follows keys → Follows (some (Key.char b) ∷ keys)
unfolding spelled turn
char-Follows b keys ih e h = elim (Bool-cases (b == 10)) [
  | inl newline ↦
      ap (λ r. line_of r)
        (loop_done (some (Key.char b)) keys e (record e { vga = put_char e.vga 10 })
          (rw newline refl))
      ∙ rw newline refl
  | inr other ↦ elim (Bool-cases (ltb e.n line_max)) [
    | inl room ↦
        let e1 : Edit = record e {
          buf = update e.buf e.n b;
          n = e.n + 1;
          vga = put_char e.vga b;
        } in
        let test : ltb (length (text e)) line_max ≡ true =
          ground (arith, length-text_from e.buf e.n 0) in
        let longer : e.n + 1 ≡ suc e.n = omega arith in
        ap (λ r. line_of r) (loop_more (some (Key.char b)) keys e e1 (rw (other, room) refl))
        ∙ ih e1 (ground arith)
        ∙ ap (λ k. spelled keys (text_from (update e.buf e.n b) 0 k)) longer
        ∙ ap (λ cs. spelled keys cs) (text_from-more e.buf b e.n 0 e.n (omega arith))
        ∙ rw (other, test) refl
    | inr full ↦
        let test : ltb (length (text e)) line_max ≡ false =
          ground (arith, length-text_from e.buf e.n 0) in
        ap (λ r. line_of r) (loop_more (some (Key.char b)) keys e e (rw (other, full) refl))
        ∙ ih e h
        ∙ rw (other, test) refl
  ]
]

backspace-Follows : (keys : List (Option Key)) → Follows keys → Follows (some Key.backspace ∷ keys)
unfolding spelled turn text_from drop_last
backspace-Follows keys ih e h = elim (Bool-cases (ltb 0 e.n)) [
  | inl some_text ↦
      let e1 : Edit = record e { n = e.n - 1; vga = backspace e.vga } in
      let more : e.n ≡ suc (e.n - 1) = ground arith in
      ap (λ r. line_of r) (loop_more (some Key.backspace) keys e e1 (rw some_text refl))
      ∙ ih e1 (omega arith)
      ∙ ap (λ cs. spelled keys cs) (sym (text_from-less e.buf (e.n - 1) 0))
      ∙ ap (λ k. spelled keys (drop_last (text_from e.buf 0 k))) (sym more)
  | inr empty ↦
      let none_typed : e.n ≡ 0 = ground arith in
      ap (λ r. line_of r) (loop_more (some Key.backspace) keys e e (rw empty refl))
      ∙ ih e h
      ∙ empty_text e none_typed
]
  where
    empty_text : (e : Edit) → e.n ≡ 0 → spelled keys (text e) ≡ spelled keys (drop_last (text e))
    empty_text e q = rw q refl

loop_spelled : (keys : List (Option Key)) → Follows keys
unfolding spelled read_loop turn
loop_spelled [] e h = refl
loop_spelled (some (Key.char b) ∷ keys) e h = char-Follows b keys (loop_spelled keys) e h
loop_spelled (some Key.backspace ∷ keys) e h = backspace-Follows keys (loop_spelled keys) e h
loop_spelled (some (Key.screen s) ∷ keys) e h = loop_spelled keys (turn (some (Key.screen s)) e).1 h
loop_spelled (none ∷ keys) e h = loop_spelled keys e h

-- `read_line` gives the text that the keys up to the first newline spell: each character
-- is appended while there are fewer than 74, a backspace takes the last one away, and nothing
-- else counts. Where there is no newline yet, it does not return.
pub read_line-spelled :
    (keys : List (Option Key)) (buf : ℕ → ℕ) (vga : Vga)
    → line_of (read_line keys buf vga) ≡ spelled keys []
unfolding read_line text_from
read_line-spelled keys buf vga =
    loop_spelled keys (record { buf = buf; n = 0; vga = vga }) (omega arith)

length-drop_last : (bs : List ℕ) → length (drop_last bs) ≤ length bs
unfolding drop_last
length-drop_last [] = omega arith
length-drop_last (b ∷ []) = omega arith
length-drop_last (b ∷ c ∷ cs) = omega (arith, length-drop_last (c ∷ cs))

appended :
    (text : List ℕ) (b : ℕ)
    → length text ≤ line_max
    → length (if ltb (length text) line_max then text ++ (b ∷ []) else text) ≤ line_max
appended text b h = elim (Bool-cases (ltb (length text) line_max)) [
  | inl room ↦ rw room (ground (arith, length-append text (b ∷ [])))
  | inr full ↦ rw full h
]

-- The keys up to a newline spell a text of at most 74 bytes.
spelled-some :
    (before after : List (Option Key)) (text : List ℕ)
    → length text ≤ line_max
    → (t : List ℕ) × (keys : List (Option Key)) × (spelled
          (before ++ some (Key.char 10) ∷ after)
          text
        ≡ some (t, keys))
      × (length t ≤ line_max)
unfolding spelled
spelled-some [] after text h = (text, after, refl, h)
spelled-some (some (Key.char b) ∷ before) after text h = elim (Bool-cases (b == 10)) [
  | inl newline ↦ rw newline (text, before ++ some (Key.char 10) ∷ after, refl, h)
  | inr other ↦ rw other (
      spelled-some before after (if ltb (length text) line_max then text ++ (b ∷ []) else text)
        (appended text b h))
]
spelled-some (some Key.backspace ∷ before) after text h =
    spelled-some before after (drop_last text) (omega (arith, length-drop_last text))
spelled-some (some (Key.screen s) ∷ before) after text h = spelled-some before after text h
spelled-some (none ∷ before) after text h = spelled-some before after text h

abbrev with_vga :
    Vga → Option (List ℕ × List (Option Key)) → Option (List ℕ × Vga × List (Option Key))
with_vga vga none = none
with_vga vga (some (text, keys)) = some (text, vga, keys)

line_of-some :
    (r : Option (List ℕ × Vga × List (Option Key))) (t : List ℕ) (keys : List (Option Key))
    → line_of r ≡ some (t, keys)
    → (vga : Vga) × (r ≡ some (t, vga, keys))
line_of-some none t keys e = absurd (cc)
line_of-some (some (text, vga, rest)) t keys e = (vga, ap (with_vga vga) e)

-- Once Enter is among what the keyboard answers, `read_line` returns, with a line of at most 74 bytes.
pub read_line-returns :
    (before after : List (Option Key)) (buf : ℕ → ℕ) (vga : Vga)
    → (t : List ℕ) × (shown : Vga) × (keys : List (Option Key)) × (read_line
          (before ++ some (Key.char 10) ∷ after)
          buf
          vga
        ≡ some (t, shown, keys))
      × (length t ≤ line_max)
read_line-returns before after buf vga =
    let (t, keys, e, h) = spelled-some before after [] (omega arith) in
    let all = before ++ some (Key.char 10) ∷ after in
    let (shown, q) =
      line_of-some (read_line all buf vga) t keys (read_line-spelled all buf vga ∙ e) in
    (t, shown, keys, q, h)
