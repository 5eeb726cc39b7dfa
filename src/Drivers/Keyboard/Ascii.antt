-- ===== src/Drivers/Keyboard/Ascii.antt =====
-- The characters of the keys.
use sea_star_os.Base.{
  Bool-cases, inl, inr, ℕ, ◌+◌, ◌-◌, ◌≤◌, ◌<◌, ◌≡◌, ◌≢◌, Bool, false, ◌&&◌, ◌||◌, arith, ltb, leb,
  ◌==◌, if◌then◌else◌, u8,
}
use sea_star_os.Drivers.Keyboard.{Keyboard, shifted, shifted_keys, kkeyboard_key_to_ascii}

-- the character of a key on the board, written out by the classes of keys
abbrev pub letter : ℕ → Bool
letter c = leb b'a' c && ltb c (b'z' + 1)

shifted-lt : (c : ℕ) → c < 128 → shifted shifted_keys c < 128
unfolding shifted
shifted-lt c h = ground arith

-- The result is always an ASCII character, and 0 for a key code whose low byte is not one.
pub kkeyboard_key_to_ascii_bound :
    (k : Keyboard) (code : ℕ)
    → (kkeyboard_key_to_ascii k code < 128) × (127 < u8 code → kkeyboard_key_to_ascii k code ≡ 0)
unfolding kkeyboard_key_to_ascii
kkeyboard_key_to_ascii_bound k code =
    (ground (arith, shifted-lt (u8 code), shifted-lt (u8 code - 32)), ground arith)

shifted-letter : (c : ℕ) → b'A' ≤ c → c ≤ b'Z' → shifted shifted_keys c ≡ c
unfolding shifted
shifted-letter c h l = ground arith

-- A letter key gives the capital where shift or caps lock is on, both at once included, and the
-- small letter otherwise; without shift every other ASCII key gives itself, caps lock on or off.
pub kkeyboard_key_to_ascii_case :
    (k : Keyboard) (code : ℕ)
    → code < 128
    → (letter code ≡ false → k.shift ≢ 1)
    → kkeyboard_key_to_ascii k code
      ≡ (if letter code && (k.shift == 1 || k.capslock == 1) then code - 32 else code)
unfolding kkeyboard_key_to_ascii
kkeyboard_key_to_ascii_case k code h n = elim (Bool-cases (letter code)) [
  | inl e ↦ rw e (ground (arith, shifted-letter (code - 32)))
  | inr e ↦ (let m = n e in rw e (ground arith))
]

-- With shift held and no caps lock the keys 3 and 1 give the same character, and no key of the
-- board gives a dollar sign.
pub shifted_digits :
    (k : Keyboard)
    → k.shift ≡ 1
    → k.capslock ≡ 0
    → (kkeyboard_key_to_ascii k b'3' ≡ kkeyboard_key_to_ascii k b'1')
      × ((code : ℕ) → code < 128 → kkeyboard_key_to_ascii k code ≡ b'$' → code ≡ b'$')
unfolding kkeyboard_key_to_ascii shifted
shifted_digits k s c = (rw (s, c), λ code h e. ground arith)
