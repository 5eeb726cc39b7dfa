-- ===== src/Kernel/Display/Printf/Pieces.antt =====
-- kernelPrintf against the pieces that a format is written from.
use sea_star_os.Base.{
  ℕ, suc, ◌+◌, ◌≡◌, refl, sym, ap, ◌∙◌, ◌≢◌, false, Option, some, List, [], ◌∷◌, ◌++◌, arith, ◌==◌,
  u8, length, and_then,
}
use sea_star_os.CLib.Strings.{Memory}
use sea_star_os.Kernel.Display.{Screen, kernel_putc, kernel_puts, itoa, itoa_s}
use sea_star_os.Kernel.Display.Printf.{
  string_argument, conversion, kernel_printf_loop, kernel_printf,
}

pub data Piece : Type 0 where
  plain : (c : ℕ) → Piece
  character string decimal hexadecimal : Piece

abbrev pub piece_format : Piece → List ℕ
piece_format (plain c) = c ∷ []
piece_format character = b'%' ∷ b'c' ∷ []
piece_format string = b'%' ∷ b's' ∷ []
piece_format decimal = b'%' ∷ b'd' ∷ []
piece_format hexadecimal = b'%' ∷ b'x' ∷ []

abbrev pub format_of : List Piece → List ℕ
format_of [] = []
format_of (p ∷ ps) = piece_format p ++ format_of ps

-- what a conversion makes of its argument
abbrev pub piece_text : ℕ → Memory → Piece → ℕ → Option (List ℕ)
piece_text fuel mem (plain c) a = some (c ∷ [])
piece_text fuel mem character a = some (u8 a ∷ [])
piece_text fuel mem string a = string_argument fuel mem a
piece_text fuel mem decimal a = itoa a 10
piece_text fuel mem hexadecimal a = itoa a 16

-- The pieces say `text` with the arguments: a plain byte takes none, a conversion takes one.
abbrev pub Says : ℕ → Memory → List Piece → List ℕ → List ℕ → Type 0
Says fuel mem [] args text = text ≡ []
Says fuel mem (plain c ∷ ps) args text =
    (c ≢ b'%') × ((rest : List ℕ) × (text ≡ c ∷ rest) × Says fuel mem ps args rest)
Says fuel mem (p ∷ ps) [] text = ⊥
Says fuel mem (p ∷ ps) (a ∷ args) text =
    (first : List ℕ) × (rest : List ℕ) × (piece_text fuel mem p a ≡ some first)
    × (text ≡ first ++ rest)
    × Says fuel mem ps args rest

pub kernel_puts-append :
    (s : Screen) (t u : List ℕ) → kernel_puts s (t ++ u) ≡ kernel_puts (kernel_puts s t) u
unfolding kernel_puts
kernel_puts-append s [] u = refl
kernel_puts-append s (c ∷ cs) u = kernel_puts-append (kernel_putc s c) cs u

module _ (fuel : ℕ) (mem : Memory) where
  loop-plain :
      (s : Screen) (i c : ℕ) (cs args : List ℕ)
      → c ≢ b'%'
      → kernel_printf_loop fuel mem s i (c ∷ cs) args
        ≡ kernel_printf_loop fuel mem (kernel_putc s c) (i + 1) cs args
  unfolding kernel_printf_loop
  loop-plain s i c [] args ne = let e : (c == b'%') ≡ false = ground arith in rw e refl
  loop-plain s i c (d ∷ ds) args ne = let e : (c == b'%') ≡ false = ground arith in rw e refl

  loop-conversion :
      (s : Screen) (i d : ℕ) (ds args text args' : List ℕ)
      → conversion fuel mem d args ≡ some (some (text, args'))
      → kernel_printf_loop fuel mem s i (b'%' ∷ d ∷ ds) args
        ≡ kernel_printf_loop fuel mem (kernel_puts s text) (i + 2) ds args'
  unfolding kernel_printf_loop
  loop-conversion s i d ds args text args' e = rw e refl

  abbrev Prints : Screen → ℕ → List ℕ → List ℕ → List ℕ → Type 0
  Prints s i format args text =
      kernel_printf_loop fuel mem s i format args ≡ some (i + length format, kernel_puts s text)

  Prints-conversion :
      (s : Screen) (i a d : ℕ) (ds args first rest text : List ℕ)
      → conversion fuel mem d (a ∷ args) ≡ some (some (first, args))
      → text ≡ first ++ rest
      → Prints (kernel_puts s first) (i + 2) ds args rest
      → Prints s i (b'%' ∷ d ∷ ds) (a ∷ args) text
  Prints-conversion s i a d ds args first rest text e q h =
      let count : i + 2 + length ds ≡ i + suc (suc (length ds)) = omega arith in
      loop-conversion s i d ds (a ∷ args) first args e
      ∙ h
      ∙ ap (λ n. some (n, kernel_puts (kernel_puts s first) rest)) count
      ∙ ap (λ t. some (i + suc (suc (length ds)), t))
          (sym (kernel_puts-append s first rest) ∙ ap (kernel_puts s) (sym q))

  Says-Prints :
      (ps : List Piece) (s : Screen) (i : ℕ) (args text : List ℕ)
      → Says fuel mem ps args text
      → Prints s i (format_of ps) args text
  unfolding conversion kernel_printf_loop kernel_puts itoa_s
  Says-Prints [] s i args text q =
      let z : i ≡ i + 0 = omega arith in
      ap (λ n. some (n, s)) z ∙ ap (λ t. some (i + 0, kernel_puts s t)) (sym q)
  Says-Prints (plain c ∷ ps) s i args text (ne, (rest, q, h)) =
      let count : i + 1 + length (format_of ps) ≡ i + suc (length (format_of ps)) = omega arith in
      loop-plain s i c (format_of ps) args ne
      ∙ Says-Prints ps (kernel_putc s c) (i + 1) args rest h
      ∙ ap (λ n. some (n, kernel_puts (kernel_putc s c) rest)) count
      ∙ ap (λ t. some (i + suc (length (format_of ps)), kernel_puts s t)) (sym q)
  Says-Prints (character ∷ ps) s i (a ∷ args) text (first, rest, e, q, h) =
      Prints-conversion s i a b'c' (format_of ps) args first rest text
        (ap (λ o. and_then o λ str. some (some (str, args))) e) q
        (Says-Prints ps (kernel_puts s first) (i + 2) args rest h)
  Says-Prints (string ∷ ps) s i (a ∷ args) text (first, rest, e, q, h) =
      Prints-conversion s i a b's' (format_of ps) args first rest text (rw e refl) q
        (Says-Prints ps (kernel_puts s first) (i + 2) args rest h)
  Says-Prints (decimal ∷ ps) s i (a ∷ args) text (first, rest, e, q, h) =
      Prints-conversion s i a b'd' (format_of ps) args first rest text (rw e refl) q
        (Says-Prints ps (kernel_puts s first) (i + 2) args rest h)
  Says-Prints (hexadecimal ∷ ps) s i (a ∷ args) text (first, rest, e, q, h) =
      Prints-conversion s i a b'x' (format_of ps) args first rest text (rw e refl) q
        (Says-Prints ps (kernel_puts s first) (i + 2) args rest h)
  Says-Prints (character ∷ ps) s i [] text h = absurd h
  Says-Prints (string ∷ ps) s i [] text h = absurd h
  Says-Prints (decimal ∷ ps) s i [] text h = absurd h
  Says-Prints (hexadecimal ∷ ps) s i [] text h = absurd h

-- kernelPrintf with a format that is written from pieces puts the text of the pieces on the screen
-- and returns the length of the format, where each conversion has its argument and each string fits
-- into 31 bytes.
pub kernel_printf-Says :
    (fuel : ℕ) (mem : Memory) (ps : List Piece) (s : Screen) (args text : List ℕ)
    → Says fuel mem ps args text
    → kernel_printf fuel mem s (format_of ps) args
      ≡ some (length (format_of ps), kernel_puts s text)
unfolding kernel_printf
kernel_printf-Says fuel mem ps s args text h =
    let z : 0 + length (format_of ps) ≡ length (format_of ps) = omega arith in
    Says-Prints fuel mem ps s 0 args text h ∙ ap (λ n. some (n, kernel_puts s text)) z
