-- ===== src/Shell.antt =====
-- kernel/src/shell.rs: reading a line, finding its command, and the commands' tests of their arguments.
-- A text is the list of its bytes. The keyboard is the list of what `poll` answers, one call after
-- the other. What the commands print is left out, and with it those that only print.
pub mod Line
pub mod Words
mod Tests
use Prim.Native.String.{String}
use kfs.Base.{
  ℕ, zero, suc, ◌+◌, ◌-◌, ◌%◌, ◌^◌, Bool, true, false, not, ◌&&◌, Option, none, some, List, [], ◌∷◌,
  ltb, ◌==◌, if◌then◌else◌, update, bit_and,
}
use kfs.Keyboard.{Key}
use kfs.Klib.{trim, parse_u32}
use kfs.Vga.{Vga, put_char, backspace, switch_screen}

abbrev pub line_max : ℕ
line_max = 74

-- A line that is typed, and the display.
pub record Edit : Type 0 where
  pub buf : ℕ → ℕ
  pub n : ℕ
  pub vga : Vga

-- One turn of the loop of `read_line`: whether it breaks, and the state after it.
pub turn : Option Key → Edit → Bool × Edit
turn (some (Key.char b)) e =
    if b == 10
    then (true, record e { vga = put_char e.vga 10 })
    else (if ltb e.n line_max
        then (false, record e { buf = update e.buf e.n b; n = e.n + 1; vga = put_char e.vga b })
        else (false, e))
turn (some Key.backspace) e =
    if ltb 0 e.n then (false, record e { n = e.n - 1; vga = backspace e.vga }) else (false, e)
turn (some (Key.screen s)) e = (false, record e { vga = switch_screen e.vga s })
turn none e = (false, e)

-- `&buf[..n]`, of the `left` bytes from `i`.
pub text_from : (ℕ → ℕ) → ℕ → ℕ → List ℕ
text_from buf i zero = []
text_from buf i (suc left) = buf i ∷ text_from buf (suc i) left

-- The loop, which goes on while the keyboard answers: the line, the display and the answers left.
pub read_loop : List (Option Key) → Edit → Option (List ℕ × Vga × List (Option Key))
read_loop [] e = none
read_loop (key ∷ keys) e =
    let (done, e1) = turn key e in
    elim done [ true ↦ some (text_from e1.buf 0 e1.n, e1.vga, keys) | false ↦ read_loop keys e1 ]

pub read_line : List (Option Key) → (ℕ → ℕ) → Vga → Option (List ℕ × Vga × List (Option Key))
read_line keys buf vga = read_loop keys (record { buf = buf; n = 0; vga = vga })

pub data Command : Type 0 where
  cmd_mem cmd_space cmd_pages cmd_virt cmd_alloc cmd_user cmd_fault cmd_panic cmd_stack cmd_gdt
        cmd_clear cmd_reboot cmd_halt cmd_help :
      Command

pub record Cmd : Type 0 where
  pub name : List ℕ
  pub help : String
  pub run : Command

abbrev pub cmd : List ℕ → String → Command → Cmd
cmd name help run = record { name = name; help = help; run = run }

-- CMDS, with the names as bytes.
abbrev pub cmds : List Cmd
cmds =
    cmd (109 ∷ 101 ∷ 109 ∷ []) "physical memory, frames and both heaps" cmd_mem
    ∷ cmd (115 ∷ 112 ∷ 97 ∷ 99 ∷ 101 ∷ []) "the kernel and user address space layout" cmd_space
    ∷ cmd (112 ∷ 97 ∷ 103 ∷ 101 ∷ 115 ∷ []) "every mapping in the page directory" cmd_pages
    ∷ cmd (118 ∷ 105 ∷ 114 ∷ 116 ∷ []) "translate an address: virt [addr]" cmd_virt
    ∷ cmd (97 ∷ 108 ∷ 108 ∷ 111 ∷ 99 ∷ []) "exercise kmalloc, vmalloc, kbrk and vbrk" cmd_alloc
    ∷ cmd (117 ∷ 115 ∷ 101 ∷ 114 ∷ []) "map, use and drop a user space page" cmd_user
    ∷ cmd (102 ∷ 97 ∷ 117 ∷ 108 ∷ 116 ∷ []) "make a page fault: fault [demand|ro|kernel]" cmd_fault
    ∷ cmd (112 ∷ 97 ∷ 110 ∷ 105 ∷ 99 ∷ []) "panic on purpose: panic [oops|fatal]" cmd_panic
    ∷ cmd (115 ∷ 116 ∷ 97 ∷ 99 ∷ 107 ∷ []) "hex dump of the live kernel stack" cmd_stack
    ∷ cmd (103 ∷ 100 ∷ 116 ∷ []) "the descriptor table, read back from the CPU" cmd_gdt
    ∷ cmd (99 ∷ 108 ∷ 101 ∷ 97 ∷ 114 ∷ []) "blank the screen" cmd_clear
    ∷ cmd (114 ∷ 101 ∷ 98 ∷ 111 ∷ 111 ∷ 116 ∷ []) "restart the machine through the 8042" cmd_reboot
    ∷ cmd (104 ∷ 97 ∷ 108 ∷ 116 ∷ []) "stop this processor for good" cmd_halt
    ∷ cmd (104 ∷ 101 ∷ 108 ∷ 112 ∷ []) "this list" cmd_help
    ∷ []

-- What `dispatch` does with a line.
pub data Action : Type 0 where
  nothing : Action
  runs : Command → List ℕ → Action
  unknown : List ℕ → Action

-- `line.find(' ')`, with the text before the space and after it.
pub split_space : List ℕ → Option (List ℕ × List ℕ)
split_space [] = none
split_space (b ∷ bs) =
    if b == 32
    then some ([], bs)
    else elim (split_space bs) [ none ↦ none | some parts ↦ some (b ∷ parts.0, parts.1) ]

pub same : List ℕ → List ℕ → Bool
same [] [] = true
same [] (b ∷ bs) = false
same (a ∷ xs) [] = false
same (a ∷ xs) (b ∷ bs) = a == b && same xs bs

pub find : List Cmd → List ℕ → Option Command
find [] name = none
find (c ∷ cs) name = if same c.name name then some c.run else find cs name

abbrev pub act : List ℕ × List ℕ → Action
act ([], args) = nothing
act (b ∷ bs, args) = elim (find cmds (b ∷ bs)) [
  | some run ↦ runs run args
  | none ↦ unknown (b ∷ bs)
]

abbrev pub name_and_args : List ℕ → Option (List ℕ × List ℕ) → List ℕ × List ℕ
name_and_args line none = (line, [])
name_and_args line (some (name, rest)) = (name, trim rest)

pub dispatch : List ℕ → Action
dispatch text = let line = trim text in act (name_and_args line (split_space line))
