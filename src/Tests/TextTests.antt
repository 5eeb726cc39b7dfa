-- ===== src/Tests/TextTests.antt =====
-- Numbers as text, text as numbers, and a clock.
use sea_star_os.Base.{
  ℕ, ◌+◌, ◌≡◌, refl, false, true, inl, some, List, [], ◌∷◌, length, arith, ◌==◌, if◌then◌else◌,
}
use sea_star_os.CLib.Strings.{Memory}
use sea_star_os.CLib.Numbers.{atoi}
use sea_star_os.CLib.Numbers.Printing.{atoi-itoa}
use sea_star_os.CLib.Numbers.Decimal.{atoi-decimal}
use sea_star_os.Kernel.Display.{Screen, kernel_puts, itoa, itoa_loop}
use sea_star_os.Kernel.Display.Printf.{kernel_printf}
use sea_star_os.Kernel.Display.Printf.Pieces.{
  plain, character, string, decimal, Says, kernel_printf-Says,
}
use sea_star_os.CLib.Strings.Copies.{within}
use sea_star_os.CLib.Format.{vsprintf}
use sea_star_os.CLib.Format.Storing.{Bytes}
use sea_star_os.CLib.Format.Filling.{Fills, vsprintf-Fills}
use sea_star_os.Arch.Ports.{Ports}
use sea_star_os.Arch.Rtc.{Reading}
use sea_star_os.Arch.Rtc.Decoding.{answers, encoded}
use sea_star_os.Tests.Stored.{place, is_string_sound}

-- "-12" at 5
abbrev number : Memory
number = place 5 (b'-' ∷ b'1' ∷ b'2' ∷ []) (λ a. 0)

atoi-decimal_example : atoi 10 number 5 ≡ some 4294967284
atoi-decimal_example =
    atoi-decimal true b'1' (b'2' ∷ []) 10 number 5
      (is_string_sound number 5 (b'-' ∷ b'1' ∷ b'2' ∷ []) refl)
      (omega arith, omega arith, (omega arith, omega arith, tt)) (omega arith)

abbrev screen : Screen
screen = record { x_pos = 0; y_pos = 3; color = 15; video = λ i. 0; out = [] }

-- the text of "n%d" for 42
n42 : Says 5 number (plain b'n' ∷ decimal ∷ []) (42 ∷ []) (b'n' ∷ b'4' ∷ b'2' ∷ [])
unfolding itoa itoa_loop
n42 = (omega arith, (b'4' ∷ b'2' ∷ [], refl, (b'4' ∷ b'2' ∷ [], [], refl, refl, refl)))

kernel_printf-Says_example :
    kernel_printf 5 number screen (b'n' ∷ b'%' ∷ b'd' ∷ []) (42 ∷ [])
    ≡ some (3, kernel_puts screen (b'n' ∷ b'4' ∷ b'2' ∷ []))
kernel_printf-Says_example =
    kernel_printf-Says 5 number (plain b'n' ∷ decimal ∷ []) screen (42 ∷ [])
      (b'n' ∷ b'4' ∷ b'2' ∷ []) n42

-- 23:59:58 of 31 December 2015
abbrev time : Reading
time = record { second = 58; minute = 59; hour = 23; day = 31; month = 12; year = 15; century = 20 }

abbrev cmos : Ports
cmos = record {
  input = λ port.
      if port == 0x71 then answers 0 (encoded time) (answers 0 (encoded time) (2 ∷ [])) else [];
  out = [];
}

abbrev said : List ℕ
said = b'n' ∷ b'-' ∷ b'1' ∷ b'2' ∷ b'4' ∷ b'2' ∷ b'!' ∷ []

-- the text of "n%s%d%c" for the string at 5, 42 and '!'
text_of_three :
    Fills 9 number 100 108
      (plain b'n' ∷ string ∷ decimal ∷ character ∷ [])
      (5 ∷ 42 ∷ b'!' ∷ [])
      said
unfolding itoa itoa_loop
text_of_three = (
  omega arith,
  (
    b'-' ∷ b'1' ∷ b'2' ∷ b'4' ∷ b'2' ∷ b'!' ∷ [],
    refl,
    (
      b'-' ∷ b'1' ∷ b'2' ∷ [],
      b'4' ∷ b'2' ∷ b'!' ∷ [],
      (
        is_string_sound number 5 (b'-' ∷ b'1' ∷ b'2' ∷ []) refl,
        omega arith,
        omega arith,
        inl (omega arith),
      ),
      refl,
      (b'4' ∷ b'2' ∷ [], b'!' ∷ [], refl, refl, (b'!' ∷ [], [], refl, refl, refl)),
    ),
  ),
)

vsprintf-Fills_example :
    (mem' : Memory) × (vsprintf 9 number 100
        (some (b'n' ∷ b'%' ∷ b's' ∷ b'%' ∷ b'd' ∷ b'%' ∷ b'c' ∷ []))
        (5 ∷ 42 ∷ b'!' ∷ [])
      ≡ some (8, mem'))
    × Bytes mem' 100 said
    × (mem' (100 + length said) ≡ 0)
    × ((x : ℕ) → within 100 (length said + 1) x ≡ false → mem' x ≡ number x)
vsprintf-Fills_example =
    vsprintf-Fills 9 number 100 (plain b'n' ∷ string ∷ decimal ∷ character ∷ [])
      (5 ∷ 42 ∷ b'!' ∷ []) said (omega arith) text_of_three

-- "42" at 5
abbrev forty_two : Memory
forty_two = place 5 (b'4' ∷ b'2' ∷ []) (λ a. 0)

printed : itoa 42 10 ≡ some (b'4' ∷ b'2' ∷ [])
unfolding itoa itoa_loop
printed = refl

atoi-itoa_example : atoi 34 forty_two 5 ≡ some 42
atoi-itoa_example =
    atoi-itoa 42 34 forty_two 5 (b'4' ∷ b'2' ∷ []) (omega arith) printed
      (is_string_sound forty_two 5 (b'4' ∷ b'2' ∷ []) refl) (omega arith)
