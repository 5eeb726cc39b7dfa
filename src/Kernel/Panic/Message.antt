-- ===== src/Kernel/Panic/Message.antt =====
-- What stands on the screen when the kernel stops.
use sea_star_os.Base.{
  ℕ, ◌<◌, ◌≡◌, refl, sym, ap, ◌∙◌, ◌≢◌, some, List, [], ◌∷◌, ◌++◌, map, arith, u8,
}
use sea_star_os.CLib.Strings.{Memory}
use sea_star_os.Kernel.Display.{
  Screen, kernel_clr_scr, kernel_goto_xy, kernel_set_color, kernel_putc, kernel_puts,
}
use sea_star_os.Kernel.Display.Printf.Pieces.{
  plain, character, Says, kernel_printf-Says, kernel_puts-append,
}
use sea_star_os.Kernel.Panic.{panic_message, stop, print_characters, kernel_panic}

-- every byte is one
abbrev pub AreBytes : List ℕ → Type 0
AreBytes [] = Unit {0}
AreBytes (c ∷ cs) = (c < 256) × AreBytes cs

print_characters-puts :
    (fuel : ℕ) (mem : Memory) (s : Screen) (cs : List ℕ)
    → AreBytes cs
    → print_characters fuel mem s cs ≡ some (kernel_puts s cs)
unfolding print_characters kernel_puts
print_characters-puts fuel mem s [] b = refl
print_characters-puts fuel mem s (c ∷ cs) b =
    let byte : u8 c ≡ c = omega arith in
    let one =
      kernel_printf-Says fuel mem (character ∷ []) s (c ∷ []) (c ∷ [])
        (c ∷ [], [], ap (λ x. some (x ∷ [])) byte, refl, refl) in
    rw one (print_characters-puts fuel mem (kernel_putc s c) cs b.1)

-- no byte begins a conversion
abbrev ArePlain : List ℕ → Type 0
ArePlain [] = Unit {0}
ArePlain (c ∷ cs) = (c ≢ b'%') × ArePlain cs

plain-Says :
    (fuel : ℕ) (mem : Memory) (cs : List ℕ) → ArePlain cs → Says fuel mem (map plain cs) [] cs
plain-Says fuel mem [] h = refl
plain-Says fuel mem (c ∷ cs) h = (h.0, (cs, refl, plain-Says fuel mem cs h.1))

-- the screen that the messages are put on
abbrev pub blue : Screen → Screen
blue s = (kernel_set_color (kernel_goto_xy (kernel_clr_scr s 0x1f) 0 0) 0x1f).1

-- kernel_panic clears the screen and puts the message, the word STOP and the text that it is given
-- there, byte by byte, whatever conversions the text names.
pub kernel_panic_lem :
    (fuel : ℕ) (mem : Memory) (s : Screen) (fmt : List ℕ)
    → AreBytes fmt
    → kernel_panic fuel mem s fmt ≡ some (kernel_puts (blue s) (panic_message ++ (stop ++ fmt)))
unfolding kernel_panic
kernel_panic_lem fuel mem s fmt b =
    let s1 = kernel_puts (blue s) panic_message in
    let stopped =
      kernel_printf-Says fuel mem (map plain stop) s1 [] stop
        (plain-Says fuel mem stop (omega arith)) in
    let all =
      kernel_puts-append (blue s) panic_message (stop ++ fmt) ∙ kernel_puts-append s1 stop fmt in
    rw stopped (print_characters-puts fuel mem (kernel_puts s1 stop) fmt b ∙ ap some (sym all))
