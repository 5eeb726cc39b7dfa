-- ===== src/Shell/Commands/Naming.antt =====
-- The command that a line names.
use sea_star_os.Base.{
  ℕ, ◌<◌, ◌≡◌, refl, ap, ◌∙◌, ◌≢◌, ◌↔◌, ◌⊎◌, inl, inr, some, List, [], ◌∷◌, arith, length,
}
use sea_star_os.CLib.Strings.{Memory, Sign, minus, same, plus, strcmp, IsString}
use sea_star_os.CLib.Strings.Laws.{strcmp_same_iff, strcmp-compare_bytes, compare_bytes}
use sea_star_os.Shell.Commands.{Command, unknown_command, halt, names, which_command, run_cmd}

-- `c` is the first command whose name is `s`, and the unknown one where there is none.
abbrev pub IsNamed : List ℕ → List (Command × List ℕ) → Command → Type 0
IsNamed s [] c = c ≡ unknown_command
IsNamed s ((d, name) ∷ ns) c = ((s ≡ name) × (c ≡ d)) ⊎ ((s ≢ name) × IsNamed s ns c)

-- The names lie at their addresses, and are shorter than `fuel`.
abbrev pub AreLiterals : ℕ → Memory → (Command → ℕ) → List (Command × List ℕ) → Type 0
AreLiterals fuel mem literal [] = Unit
AreLiterals fuel mem literal ((c, name) ∷ ns) =
    IsString mem (literal c) name × (length name < fuel) × AreLiterals fuel mem literal ns

pub which_command-IsNamed :
    (fuel : ℕ) (mem : Memory) (cmd_buf : ℕ) (literal : Command → ℕ) (s : List ℕ)
    (ns : List (Command × List ℕ))
    → IsString mem cmd_buf s
    → AreLiterals fuel mem literal ns
    → (c : Command) × (which_command fuel mem cmd_buf literal ns ≡ some c) × IsNamed s ns c
unfolding which_command
which_command-IsNamed fuel mem cmd_buf literal s [] h lits = (unknown_command, refl, refl)
which_command-IsNamed fuel mem cmd_buf literal s ((d, name) ∷ ns) h (at, short, lits) =
    let (c, e, named) = which_command-IsNamed fuel mem cmd_buf literal s ns h lits in
    let compared = strcmp-compare_bytes fuel mem cmd_buf (literal d) s name h at short in
    let equal = strcmp_same_iff fuel mem cmd_buf (literal d) s name h at short in
    first (compare_bytes s name) compared c e named equal
  where
    first :
        (sign : Sign)
        → strcmp fuel mem cmd_buf (literal d) ≡ some sign
        → (c : Command) → which_command fuel mem cmd_buf literal ns ≡ some c
        → IsNamed s ns c
        → (strcmp fuel mem cmd_buf (literal d) ≡ some same) ↔ (s ≡ name)
        → (c' : Command) × (which_command fuel mem cmd_buf literal ((d, name) ∷ ns) ≡ some c')
          × IsNamed s ((d, name) ∷ ns) c'
    first same compared c e named equal = (d, rw compared refl, inl (equal.0 compared, refl))
    first minus compared c e named equal =
        (c, rw compared e, inr (λ q. (let e' = equal.1 q in cc), named))
    first plus compared c e named equal =
        (c, rw compared e, inr (λ q. (let e' = equal.1 q in cc), named))

abbrev pub status_of : Command → ℕ
status_of c = elim c [ halt ↦ 1 | _ ↦ 0 ]

abbrev AreQuiet : List (Command × List ℕ) → Type 0
AreQuiet [] = Unit
AreQuiet ((d, name) ∷ ns) = (status_of d ≡ 0) × AreQuiet ns

status_of_quiet :
    (s : List ℕ) (c : Command) (ns : List (Command × List ℕ))
    → AreQuiet ns
    → IsNamed s ns c
    → status_of c ≡ 0
status_of_quiet s c [] q e = ap status_of e
status_of_quiet s c ((d, name) ∷ ns) (z, q) (inl (e, c_is)) = ap status_of c_is ∙ z
status_of_quiet s c ((d, name) ∷ ns) (z, q) (inr (ne, rest)) = status_of_quiet s c ns q rest

pub status_of-halt :
    (s : List ℕ) (c : Command)
    → IsNamed s names c
    → (status_of c ≡ 1) ↔ (s ≡ (b'h' ∷ b'a' ∷ b'l' ∷ b't' ∷ []))
status_of-halt s c (inl (e, c_is)) = (λ o. e, λ o. ap status_of c_is)
status_of-halt s c (inr (ne, rest)) =
    let others : List (Command × List ℕ) = elim names [ [] ↦ [] | _ ∷ ns ↦ ns ] in
    let z =
      status_of_quiet s c others (refl, (refl, (refl, (refl, (refl, (refl, (refl, (refl, tt))))))))
        rest in
    (λ o. absurd (omega (arith, z, o)), λ e. absurd (ne e))

-- run_cmd performs the command that the line names, or the unknown one, and returns 1 exactly for
-- `halt`, where the names lie in memory and are shorter than the fuel, and the command ends.
pub run_cmd-IsNamed :
    {S : Type 0} (perform : Command → S → S) (fuel : ℕ) (mem : Memory) (cmd_buf : ℕ)
    (literal : Command → ℕ) (s : List ℕ) (state : S)
    → IsString mem cmd_buf s
    → AreLiterals fuel mem literal names
    → (status : ℕ) × (c : Command) × (run_cmd
          (λ c t. some (perform c t))
          fuel
          mem
          cmd_buf
          literal
          state
        ≡ some (status, perform c state))
      × IsNamed s names c
      × ((status ≡ 1) ↔ (s ≡ (b'h' ∷ b'a' ∷ b'l' ∷ b't' ∷ [])))
unfolding run_cmd
run_cmd-IsNamed perform fuel mem cmd_buf literal s state h lits =
    let (c, e, named) = which_command-IsNamed fuel mem cmd_buf literal s names h lits in
    (status_of c, c, rw e refl, named, status_of-halt s c named)
