-- ===== src/Drivers/Keyboard/Handler.antt =====
-- What one interrupt of the keyboard does to the state.
use sea_star_os.Base.{
  ℕ, ◌+◌, ◌-◌, ◌≤◌, ◌<◌, bit_and, ◌≡◌, refl, ap, ◌≢◌, true, false, not, ◌&&◌, ◌||◌, none, some,
  Bool, Bool-cases, inl, inr, Option, and_then, if◌then◌else◌, arith, ◌==◌, get_elem?,
  get_elem?-past, all_below, all_below_sound,
}
use sea_star_os.Arch.Ports.{Ports}
use sea_star_os.Drivers.Keyboard.{
  Keyboard, keyboard_scancode_std, release_key, press_key, check_error, handle_code, is_lock, flip,
  kkeyboard_set_leds, key_lctrl, key_rctrl, key_lshift, key_rshift, key_lalt, key_ralt,
  key_capslock, key_kp_numlock, key_scrolllock,
}

check_error-below : (k : Keyboard) (code : ℕ) → code < 0xFC → check_error k code ≡ k
unfolding check_error
check_error-below k code h = ground arith

-- the tests of the handler on a make code and on the break code of the same key
code_tests :
    (code : ℕ)
    → code < 128
    → ((code == 224 || code == 225) ≡ false)
      × ((bit_and code 128 == 0) ≡ true)
      × ((bit_and (code + 128) 128 == 0) ≡ false)
unfolding all_below
code_tests code h =
    let p : (bit_and code 128 == 0) && not (bit_and (code + 128) 128 == 0) ≡ true =
      all_below_sound 128 (λ c. (bit_and c 128 == 0) && not (bit_and (c + 128) 128 == 0)) code refl
        h in
    (ground arith, ground arith, ground arith)

not_extended : (code : ℕ) → code < 83 → (code + 128 == 224 || code + 128 == 225) ≡ false
not_extended code h = ground arith

-- A break code of a key in the table gives up ctrl or shift where the key is one of theirs, and
-- changes nothing else: neither the last scan code nor alt nor a lock.
pub handle_code-release :
    (k : Keyboard) (key code : ℕ) (m : Ports)
    → code < 83
    → get_elem? keyboard_scancode_std code ≡ some key
    → handle_code k (code + 0x80) m ≡ some (release_key (record k { extendedscancode = 0 }) key, m)
unfolding handle_code
handle_code-release k key code m h e =
    let t = code_tests code (omega arith) in
    let z : code + 128 - 128 ≡ code = omega arith in
    let no = not_extended code h in
    let kept =
      check_error-below (release_key (record k { extendedscancode = 0 }) key) (code + 128 - 128)
        (omega arith) in
    rw (no, t.2, z, e) (ap (λ x. some (x, m)) kept)

-- the key of a code below 83 against the codes of the modifiers and the locks
same_test : Bool → Bool → Bool
same_test a b = if a then b else not b

same_test_sound : (a b : Bool) → same_test a b ≡ true → a ≡ b
unfolding same_test
same_test_sound a b h = ground arith

-- the key of the code `c` is a modifier or a lock where the code is that key's
names_key : ℕ → ℕ → Bool
names_key c key =
    same_test (key == key_lctrl || key == key_rctrl) (c == 0x1D)
    && same_test (key == key_lshift || key == key_rshift) (c == 0x2A || c == 0x36)
    && same_test (key == key_lalt || key == key_ralt) (c == 0x38)
    && same_test (key == key_capslock) (c == 0x3A)
    && same_test (key == key_kp_numlock) (c == 0x45)
    && same_test (key == key_scrolllock) (c == 0x46)

named_codes : ℕ → Bool
named_codes c = elim (get_elem? keyboard_scancode_std c) [
  | none ↦ false
  | some key ↦ names_key c key
]

named_codes_lem : (c : ℕ) → c < 83 → named_codes c ≡ true
unfolding all_below named_codes same_test names_key
named_codes_lem c h = all_below_sound 83 named_codes c refl h

names_key_lem :
    (c key : ℕ) → c < 83 → get_elem? keyboard_scancode_std c ≡ some key → names_key c key ≡ true
unfolding named_codes
names_key_lem c key h e = let t = named_codes_lem c h in rw e at t

all_six :
    (a b c d e f : Bool)
    → a && b && c && d && e && f ≡ true
    → (a ≡ true) × (b ≡ true) × (c ≡ true) × (d ≡ true) × (e ≡ true) × (f ≡ true)
all_six a b c d e f h =
    (ground arith, ground arith, ground arith, ground arith, ground arith, ground arith)

names_key_tests :
    (c key : ℕ)
    → names_key c key ≡ true
    → ((key == key_lctrl || key == key_rctrl) ≡ (c == 0x1D))
      × ((key == key_lshift || key == key_rshift) ≡ (c == 0x2A || c == 0x36))
      × ((key == key_lalt || key == key_ralt) ≡ (c == 0x38))
      × ((key == key_capslock) ≡ (c == 0x3A))
      × ((key == key_kp_numlock) ≡ (c == 0x45))
      × ((key == key_scrolllock) ≡ (c == 0x46))
unfolding names_key
names_key_tests c key h =
    let all = all_six _ _ _ _ _ _ h in
    (
      same_test_sound _ _ all.0,
      same_test_sound _ _ all.1,
      same_test_sound _ _ all.2,
      same_test_sound _ _ all.3,
      same_test_sound _ _ all.4,
      same_test_sound _ _ all.5,
    )

-- the state after the make code `code`, by the code alone
abbrev pub pressed_state : Keyboard → ℕ → Keyboard
pressed_state k code = record k {
  extendedscancode = 0;
  scancode = code;
  ctrl = if code == 0x1D then 1 else k.ctrl;
  shift = if code == 0x2A || code == 0x36 then 1 else k.shift;
  alt = if code == 0x38 then 1 else k.alt;
  capslock = if code == 0x3A then (if k.capslock == 1 then 0 else 1) else k.capslock;
  numlock = if code == 0x45 then (if k.numlock == 1 then 0 else 1) else k.numlock;
  scrolllock = if code == 0x46 then (if k.scrolllock == 1 then 0 else 1) else k.scrolllock;
}

in_table : (code : ℕ) → code < 83 → (key : ℕ) × (get_elem? keyboard_scancode_std code ≡ some key)
unfolding named_codes
in_table code h = found (get_elem? keyboard_scancode_std code) refl
  where
    found :
        (o : Option ℕ)
        → get_elem? keyboard_scancode_std code ≡ o
        → (key : ℕ) × (get_elem? keyboard_scancode_std code ≡ some key)
    found none e = let t = named_codes_lem code h in let f = rw e at t in absurd (cc)
    found (some key) e = (key, e)

-- the cases of press_key, by the tests of the code
press_cases :
    (k : Keyboard) (code : ℕ)
    → (if code == 0x1D
        then record k { extendedscancode = 0; scancode = code; ctrl = 1 }
        else if code == 0x2A || code == 0x36
        then record k { extendedscancode = 0; scancode = code; shift = 1 }
        else if code == 0x38
        then record k { extendedscancode = 0; scancode = code; alt = 1 }
        else if code == 0x3A
        then record k { extendedscancode = 0; scancode = code; capslock = flip k.capslock }
        else if code == 0x45
        then record k { extendedscancode = 0; scancode = code; numlock = flip k.numlock }
        else if code == 0x46
        then record k { extendedscancode = 0; scancode = code; scrolllock = flip k.scrolllock }
        else record k { extendedscancode = 0; scancode = code })
      ≡ pressed_state k code
unfolding flip
press_cases k code = elim (Bool-cases (code == 0x1D)) [
  | inl t ↦ let e : code ≡ 0x1D = ground arith in rw e refl
  | inr f1 ↦ elim (Bool-cases (code == 0x2A)) [
    | inl t ↦ let e : code ≡ 0x2A = ground arith in rw e refl
    | inr f2 ↦ elim (Bool-cases (code == 0x36)) [
      | inl t ↦ let e : code ≡ 0x36 = ground arith in rw e refl
      | inr f3 ↦ elim (Bool-cases (code == 0x38)) [
        | inl t ↦ let e : code ≡ 0x38 = ground arith in rw e refl
        | inr f4 ↦ elim (Bool-cases (code == 0x3A)) [
          | inl t ↦ let e : code ≡ 0x3A = ground arith in rw e refl
          | inr f5 ↦ elim (Bool-cases (code == 0x45)) [
            | inl t ↦ let e : code ≡ 0x45 = ground arith in rw e refl
            | inr f6 ↦ elim (Bool-cases (code == 0x46)) [
              | inl t ↦ let e : code ≡ 0x46 = ground arith in rw e refl
              | inr f7 ↦ rw (f1, f2, f3, f4, f5, f6, f7) refl
            ]
          ]
        ]
      ]
    ]
  ]
]

press_key-pressed_state :
    (k : Keyboard) (key code : ℕ)
    → code < 83
    → get_elem? keyboard_scancode_std code ≡ some key
    → (press_key (record k { extendedscancode = 0; scancode = code }) key ≡ pressed_state k code)
      × (is_lock key ≡ (code == 0x3A || code == 0x45 || code == 0x46))
unfolding press_key flip
press_key-pressed_state k key code h e =
    let (ctrl, shift, alt, caps, num, scroll) =
      names_key_tests code key (names_key_lem code key h e) in
    (rw (ctrl, shift, alt, caps, num, scroll) (press_cases k code), rw (caps, num, scroll) refl)

lamps :
    (lock : Bool) (o : Option Ports) (k k' : Keyboard) (m : Ports)
    → k' ≡ k
    → (let sent : Option (Keyboard × Ports) = elim o [ none ↦ none | some m' ↦ some (k', m') ] in
        if lock then sent else some (k, m))
      ≡ (if lock then and_then o (λ m'. some (k, m')) else some (k, m))
lamps lock none k k' m e = refl
lamps lock (some m') k k' m e = rw e refl

-- The make code of a key in the table, a code below 83, becomes the last scan code and ends an
-- extended code, and the only one of the modifiers and locks that changes is its own, by the codes
-- of the keys: 1D sets ctrl, 2A and 36 shift, 38 alt, and 3A, 45 and 46 switch caps lock, num
-- lock and scroll lock over. Nothing else of the state changes. For the locks, and for no other key,
-- the state of the three locks is then sent to the keyboard's lamps, and where that does not end the
-- handler does not either.
pub handle_code-press :
    (k : Keyboard) (code : ℕ) (m : Ports)
    → code < 83
    → handle_code k code m ≡ (
        let k' = pressed_state k code in
        if code == 0x3A || code == 0x45 || code == 0x46
        then and_then
            (kkeyboard_set_leds k'.numlock k'.capslock k'.scrolllock m)
            (λ m'. some (k', m'))
        else some (k', m))
unfolding handle_code
handle_code-press k code m h =
    let (key, e) = in_table code h in
    let t = code_tests code (omega arith) in
    let p = press_key-pressed_state k key code h e in
    let c = check_error-below (pressed_state k code) code (omega arith) in
    rw (t.0, t.1, e, p.1, p.0, c) (lamps _ _ _ _ m (rw p.0 c))

not_extended_past :
    (code : ℕ) → code ≢ 0x60 → code ≢ 0x61 → (code + 128 == 224 || code + 128 == 225) ≡ false
not_extended_past code h l = ground arith

past_table : (code : ℕ) → 83 ≤ code → get_elem? keyboard_scancode_std code ≡ none
past_table code h = get_elem?-past keyboard_scancode_std code h

-- A make code from 83 to 127, or the break code of one, reads past the table of 83 keys: the make
-- codes 57 and 58 (hexadecimal) of F11 and F12 are among them, and the controller's answers FC, FD
-- and FE, which are taken for break codes before they are looked at.
pub handle_code_out_of_table :
    (k : Keyboard) (code : ℕ) (m : Ports)
    → 83 ≤ code
    → code < 128
    → code ≢ 0x60
    → code ≢ 0x61
    → (handle_code k code m ≡ none) × (handle_code k (code + 0x80) m ≡ none)
unfolding handle_code
handle_code_out_of_table k code m lo hi n0 n1 =
    let t = code_tests code hi in
    let z : code + 128 - 128 ≡ code = omega arith in
    let no = not_extended_past code n0 n1 in
    let out = past_table code lo in
    let out' : get_elem? keyboard_scancode_std (code + 128 - 128) ≡ none = rw z out in
    (rw (t.0, t.1, out) refl, rw (no, t.2, out') refl)
