-- ===== src/Shell/Main/Session.antt =====
-- A session with the shell, from its first line to halt.
use sea_star_os.Base.{
  ℕ, zero, suc, ◌<◌, ◌≡◌, refl, sym, ap, ◌∙◌, ◌≢◌, inl, inr, false, Option, some, List, [], ◌∷◌,
  arith, ◌==◌, if◌then◌else◌, length, get_elem?,
}
use mathlib.Core.Path.{subst}
use sea_star_os.CLib.Strings.{Memory, IsString}
use sea_star_os.Fs.Vfs.{File, Devices}
use sea_star_os.Shell.Commands.{Command, names, run_cmd}
use sea_star_os.Shell.Commands.Naming.{
  IsNamed, AreLiterals, which_command-IsNamed, status_of, status_of-halt,
}
use sea_star_os.Shell.Directory.{Places, Shell}
use sea_star_os.Shell.Main.{read_line, run_command, sea_shell_loop}

IsNamed-unique :
    (s : List ℕ) (ns : List (Command × List ℕ)) (c d : Command)
    → IsNamed s ns c
    → IsNamed s ns d
    → c ≡ d
IsNamed-unique s [] c d h k = h ∙ sym k
IsNamed-unique s ((e, name) ∷ ns) c d (inl h) (inl k) = h.1 ∙ sym k.1
IsNamed-unique s ((e, name) ∷ ns) c d (inl h) (inr k) = absurd (k.0 h.0)
IsNamed-unique s ((e, name) ∷ ns) c d (inr h) (inl k) = absurd (h.0 k.0)
IsNamed-unique s ((e, name) ∷ ns) c d (inr h) (inr k) = IsNamed-unique s ns c d h.1 k.1

abbrev pub halt_line : List ℕ
halt_line = b'h' ∷ b'a' ∷ b'l' ∷ b't' ∷ []

module _ {D : Type 0} (table : Devices (Memory × D)) (blank : File) (at : Places)
    (other : Command → Shell D → Option (Shell D)) (literal : Command → ℕ)
    (cmd_buf buffer root fuel : ℕ) where
  -- One round: the line is typed, and the command that it names leads from `s` to `u`.
  pub record IsRound (line : List ℕ) (s u : Shell D) : Type 0 where
    pub typed : Shell D
    pub command : Command
    pub reads : read_line table blank at other literal cmd_buf buffer root fuel s ≡ some typed
    pub stored : IsString typed.mem cmd_buf line
    pub literals : AreLiterals fuel typed.mem literal names
    pub named : IsNamed line names command
    pub runs :
        run_command table blank at other literal cmd_buf buffer root fuel command typed ≡ some u

  -- The lines lead from `s` to `u`, one round each.
  abbrev pub IsSession : List (List ℕ) → Shell D → Shell D → Type 0
  IsSession [] s u = s ≡ u
  IsSession (line ∷ lines) s u = (t : Shell D) × IsRound line s t × IsSession lines t u

  sea_shell_loop-round :
      (rounds status : ℕ) (s t u : Shell D)
      → read_line table blank at other literal cmd_buf buffer root fuel s ≡ some t
      → run_cmd
          (run_command table blank at other literal cmd_buf buffer root fuel)
          fuel
          t.mem
          cmd_buf
          literal
          t
        ≡ some (status, u)
      → sea_shell_loop table blank at other literal cmd_buf buffer root (suc rounds) fuel s ≡ (
          if status == 1
          then some u
          else sea_shell_loop table blank at other literal cmd_buf buffer root rounds fuel u)
  unfolding sea_shell_loop
  sea_shell_loop-round rounds status s t u r e = rw (r, sea_shell_loop, e) refl

  run_cmd-IsRound :
      (line : List ℕ) (s u : Shell D) (r : IsRound line s u)
      → run_cmd
          (run_command table blank at other literal cmd_buf buffer root fuel)
          fuel
          r.typed.mem
          cmd_buf
          literal
          r.typed
        ≡ some (status_of r.command, u)
  unfolding run_cmd
  run_cmd-IsRound line s u r =
      let (c, e, named) =
        which_command-IsNamed fuel r.typed.mem cmd_buf literal line names r.stored r.literals in
      rw (e, IsNamed-unique line names c r.command named r.named, r.runs) refl

  -- The lines of a session of which none is halt are read and run one after the other; then halt ends
  -- the shell, with the state that its round leaves, given one round for each line.
  pub sea_shell_loop-IsSession :
      (lines : List (List ℕ)) (rounds : ℕ) (s t u : Shell D)
      → ((i : ℕ) → get_elem? lines i ≢ some halt_line)
      → IsSession lines s t
      → IsRound halt_line t u
      → length lines < rounds
      → sea_shell_loop table blank at other literal cmd_buf buffer root rounds fuel s ≡ some u
  sea_shell_loop-IsSession lines zero s t u quiet session halts l = absurd (omega arith)
  sea_shell_loop-IsSession [] (suc rounds) s t u quiet session halts l =
      let first = subst (λ x. IsRound halt_line x u) (sym session) halts in
      sea_shell_loop-round rounds (status_of first.command) s first.typed u first.reads
        (run_cmd-IsRound halt_line s u first)
      ∙ rw ((status_of-halt halt_line first.command first.named).1 refl) refl
  sea_shell_loop-IsSession (line ∷ lines) (suc rounds) s t u quiet (v, r, session) halts l =
      let goes_on : (status_of r.command == 1) ≡ false = ground (
        arith,
        λ (e : status_of r.command ≡ 1).
            quiet 0 (ap some ((status_of-halt line r.command r.named).0 e)),
      ) in
      sea_shell_loop-round rounds (status_of r.command) s r.typed v r.reads
        (run_cmd-IsRound line s v r)
      ∙ rw goes_on (
          sea_shell_loop-IsSession lines rounds v t u (λ i. quiet (suc i)) session halts
            (omega arith))
