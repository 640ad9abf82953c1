-- ===== src/Shell/Words.antt =====
-- `dispatch` of kernel/src/shell.rs finds the command that the first word names; and `read_line` returns
-- once Enter is pressed.
use Prim.{Unit, tt}
use kfs.Base.{
  ℕ, suc, ◌≡◌, refl, false, Option, none, some, List, [], ◌∷◌, ◌++◌, ◌==◌, ◌∙◌, ap, zero, subst,
  get_elem?,
}
use kfs.Klib.{is_space, trim, trim_end}
use kfs.Klib.Trim.{trim_end-kept, trim-kept}
use kfs.Shell.{Command, Cmd, cmds, Action, split_space, same, find, act, name_and_args, dispatch}

-- A word has a first byte that is no blank, and no space.
abbrev pub NoSpace : List ℕ → Type 0
NoSpace [] = Unit {0}
NoSpace (b ∷ bs) = ((b == 32) ≡ false) × NoSpace bs

abbrev pub IsWord : List ℕ → Type 0
IsWord [] = ⊥
IsWord (b ∷ bs) = (is_space b ≡ false) × NoSpace (b ∷ bs)

split_space-word :
    (name args : List ℕ) → NoSpace name → split_space (name ++ 32 ∷ args) ≡ some (name, args)
unfolding split_space
split_space-word [] args w = refl
split_space-word (b ∷ bs) args (n, w) = rw (n, split_space-word bs args w) refl

act_found :
    (b : ℕ) (bs args : List ℕ) (run : Command)
    → find cmds (b ∷ bs) ≡ some run
    → act (b ∷ bs, args) ≡ Action.runs run args
act_found b bs args run e = rw (e, act) refl

dispatch_word :
    (name : List ℕ) (run : Command) (b : ℕ) (bs : List ℕ)
    → IsWord name
    → find cmds name ≡ some run
    → is_space b ≡ false
    → trim_end (b ∷ bs) ≡ b ∷ bs
    → dispatch (name ++ 32 ∷ b ∷ bs) ≡ Action.runs run (b ∷ bs)
unfolding dispatch
dispatch_word [] run b bs w f s e = absurd w
dispatch_word (n ∷ ns) run b bs (first, w) f s e =
    let line = n ∷ ns ++ 32 ∷ b ∷ bs in
    let args_end : trim_end (32 ∷ b ∷ bs) ≡ 32 ∷ b ∷ bs = trim_end-kept (32 ∷ []) b bs e in
    let whole : trim line ≡ line =
      trim-kept n (ns ++ 32 ∷ b ∷ bs) first (trim_end-kept (n ∷ ns) 32 (b ∷ bs) args_end) in
    ap (λ t. act (name_and_args t (split_space t))) whole
    ∙ ap (λ r. act (name_and_args line r)) (split_space-word (n ∷ ns) (b ∷ bs) w)
    ∙ ap (λ t. act (n ∷ ns, t)) (trim-kept b bs s e)
    ∙ act_found n ns (b ∷ bs) run f

-- Each command of the list is found by its name, which is a word.
abbrev AllFound : List Cmd → Type 0
AllFound [] = Unit {0}
AllFound (c ∷ cs) = (IsWord c.name × (find cmds c.name ≡ some c.run)) × AllFound cs

all_found : AllFound cmds
unfolding find same
all_found = (
  ((refl, (refl, (refl, (refl, tt)))), refl),
  (
    ((refl, (refl, (refl, (refl, (refl, (refl, tt)))))), refl),
    (
      ((refl, (refl, (refl, (refl, (refl, (refl, tt)))))), refl),
      (
        ((refl, (refl, (refl, (refl, (refl, tt))))), refl),
        (
          ((refl, (refl, (refl, (refl, (refl, (refl, tt)))))), refl),
          (
            ((refl, (refl, (refl, (refl, (refl, tt))))), refl),
            (
              ((refl, (refl, (refl, (refl, (refl, (refl, tt)))))), refl),
              (
                ((refl, (refl, (refl, (refl, (refl, (refl, tt)))))), refl),
                (
                  ((refl, (refl, (refl, (refl, (refl, (refl, tt)))))), refl),
                  (
                    ((refl, (refl, (refl, (refl, tt)))), refl),
                    (
                      ((refl, (refl, (refl, (refl, (refl, (refl, tt)))))), refl),
                      (
                        ((refl, (refl, (refl, (refl, (refl, (refl, (refl, tt))))))), refl),
                        (
                          ((refl, (refl, (refl, (refl, (refl, tt))))), refl),
                          (((refl, (refl, (refl, (refl, (refl, tt))))), refl), tt),
                        ),
                      ),
                    ),
                  ),
                ),
              ),
            ),
          ),
        ),
      ),
    ),
  ),
)

found_at :
    (cs : List Cmd) (i : ℕ) (c : Cmd)
    → AllFound cs
    → get_elem? cs i ≡ some c
    → IsWord c.name × (find cmds c.name ≡ some c.run)
found_at [] i c a e = absurd (cc)
found_at (d ∷ ds) zero c (p, a) e =
    let q : d ≡ c = ap (λ (o : Option Cmd). elim o [ some k ↦ k | none ↦ d ]) e in
    subst (λ (k : Cmd). IsWord k.name × (find cmds k.name ≡ some k.run)) q p
found_at (d ∷ ds) (suc i) c (p, a) e = found_at ds i c a e

-- A line that is a command's name, a space and arguments that neither begin nor end with a blank runs
-- that command on these arguments.
pub dispatch-runs :
    (i : ℕ) (c : Cmd) (b : ℕ) (bs : List ℕ)
    → get_elem? cmds i ≡ some c
    → is_space b ≡ false
    → trim_end (b ∷ bs) ≡ b ∷ bs
    → dispatch (c.name ++ 32 ∷ b ∷ bs) ≡ Action.runs c.run (b ∷ bs)
dispatch-runs i c b bs e s t =
    let (w, f) = found_at cmds i c all_found e in dispatch_word c.name c.run b bs w f s t
