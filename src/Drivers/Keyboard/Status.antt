-- ===== src/Drivers/Keyboard/Status.antt =====
-- The functions of the keyboard driver that tell its state, its self test and its installation.
use sea_star_os.Base.{
  ℕ, bit_and, Option, none, some, List, [], ◌∷◌, ◌==◌, if◌then◌else◌, and_then, update,
}
use sea_star_os.Arch.Ports.{Ports, inportb}
use sea_star_os.Arch.Idt.{IdtDescriptor}
use sea_star_os.Arch.Hal.{setvect}
use sea_star_os.Drivers.Keyboard.{Keyboard, keyboard_ctrl_send_cmd, kkeyboard_set_leds}

pub kkeyboard_get_scroll_lock : Keyboard → ℕ
kkeyboard_get_scroll_lock k = k.scrolllock

pub kkeyboard_get_numlock : Keyboard → ℕ
kkeyboard_get_numlock k = k.numlock

pub kkeyboard_get_capslock : Keyboard → ℕ
kkeyboard_get_capslock k = k.capslock

pub kkeboard_get_ctrl : Keyboard → ℕ
kkeboard_get_ctrl k = k.ctrl

pub kkeyboard_get_alt : Keyboard → ℕ
kkeyboard_get_alt k = k.alt

pub kkeyboard_get_shift : Keyboard → ℕ
kkeyboard_get_shift k = k.shift

pub kkeyboard_ignore_resend : Keyboard → Keyboard
kkeyboard_ignore_resend k = record k { resend_response = 0 }

pub kkeyboard_check_resend : Keyboard → ℕ
kkeyboard_check_resend k = k.resend_response

pub kkeyboard_get_diagnostic_respose : Keyboard → ℕ
kkeyboard_get_diagnostic_respose k = k.diag_response

pub kkeyboard_get_bat_response : Keyboard → ℕ
kkeyboard_get_bat_response k = k.bat_response

pub kkeyboard_get_last_scan : Keyboard → ℕ
kkeyboard_get_last_scan k = k.scancode

pub kkeyboard_is_disabled : Keyboard → ℕ
kkeyboard_is_disabled k = k.is_disabled

-- the loop that polls until the output buffer is full: `none` where it never is
pub wait_output_full : List ℕ → Option (List ℕ)
wait_output_full [] = none
wait_output_full (v ∷ vs) =
    let rest = wait_output_full vs in if bit_and v 1 == 0 then rest else some vs

pub kkeyboard_self_test : Ports → Option (ℕ × Ports)
kkeyboard_self_test m = and_then (keyboard_ctrl_send_cmd 0xAA m) λ m1.
    and_then (wait_output_full (m1.input 0x64)) λ seen.
      and_then (inportb 0x60 (record m1 { input = update m1.input 0x64 seen }))
        λ (answer, m2). some (if answer == 0x55 then 1 else 0, m2)

-- `i86_keyboard_irq` has an address.
pub kkeyboard_install :
    ℕ → ℕ → List IdtDescriptor → Keyboard → Ports → Option (List IdtDescriptor × Keyboard × Ports)
kkeyboard_install i86_keyboard_irq irq idt k m =
    and_then (setvect idt irq i86_keyboard_irq 0) λ idt'.
      and_then (kkeyboard_set_leds 0 0 0 m) λ m'. some (
        idt',
        record k {
          bat_response = 1;
          scancode = 0;
          numlock = 0;
          scrolllock = 0;
          capslock = 0;
          shift = 0;
          alt = 0;
          ctrl = 0;
        },
        m',
      )
