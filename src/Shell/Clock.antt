-- ===== src/Shell/Clock.antt =====
-- print_time_and_date of Shell/seashell.c, over the clock and the screen.
use sea_star_os.Base.{ℕ, ◌≡◌, Option, some, List, [], ◌∷◌, ◌++◌, and_then}
use sea_star_os.Arch.Ports.{Ports}
use sea_star_os.Arch.Rtc.{read_rtc}
use sea_star_os.CLib.Strings.{Memory}
use sea_star_os.CLib.Numbers.Digits.{AreDigits, decimal}
use sea_star_os.Kernel.Display.{Screen, itoa}
use sea_star_os.Kernel.Display.Printf.{kernel_printf}
use sea_star_os.Kernel.Display.Printf.Pieces.{Piece, plain, format_of}
use sea_star_os.Kernel.Display.Printf.Pieces

abbrev pub time_format : List ℕ
time_format =
    b'\n' ∷ b' ' ∷ b'%' ∷ b'd' ∷ b':' ∷ b'%' ∷ b'd' ∷ b':' ∷ b'%' ∷ b'd' ∷ b' ' ∷ b'-' ∷ b' ' ∷ b'%'
    ∷ b'd' ∷ b'/' ∷ b'%' ∷ b'd' ∷ b'/' ∷ b'%' ∷ b'd' ∷ []

pub print_time_and_date : ℕ → ℕ → Memory → Screen → Ports → Option (Screen × Ports)
print_time_and_date rounds fuel mem s m = and_then (read_rtc rounds fuel m) λ (r, m').
    and_then
      (kernel_printf fuel mem s time_format
        (r.hour ∷ r.minute ∷ r.second ∷ r.day ∷ r.month ∷ r.year ∷ []))
      λ (n, s'). some (s', m')

-- `text` is the number `v` in decimal
abbrev pub IsNumeral : ℕ → List ℕ → Type 0
IsNumeral v text = (itoa v 10 ≡ some text) × AreDigits text × (decimal 0 text ≡ v)

-- the text of the six numbers
abbrev pub time_text : List ℕ → List ℕ → List ℕ → List ℕ → List ℕ → List ℕ → List ℕ
time_text hour minute second day month year =
    b'\n'
    ∷ b' '
    ∷ (hour
        ++ (b':'
            ∷ (minute
                ++ (b':'
                    ∷ (second
                        ++ (b' '
                            ∷ b'-'
                            ∷ b' '
                            ∷ (day ++ (b'/' ∷ (month ++ (b'/' ∷ (year ++ [])))))))))))

abbrev pieces : List Piece
pieces =
    plain b'\n'
    ∷ plain b' '
    ∷ Pieces.decimal
    ∷ plain b':'
    ∷ Pieces.decimal
    ∷ plain b':'
    ∷ Pieces.decimal
    ∷ plain b' '
    ∷ plain b'-'
    ∷ plain b' '
    ∷ Pieces.decimal
    ∷ plain b'/'
    ∷ Pieces.decimal
    ∷ plain b'/'
    ∷ Pieces.decimal
    ∷ []
