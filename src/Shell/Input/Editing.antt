-- ===== src/Shell/Input/Editing.antt =====
-- get_cmd and an editor of lines.
use sea_star_os.Base.{
  ℕ, zero, suc, ◌+◌, ◌-◌, ◌≤◌, ◌<◌, ◌≡◌, refl, ◌⊎◌, inl, inr, true, false, not, ◌&&◌, Option, none,
  some, List, [], ◌∷◌, arith, ltb, ◌==◌, if◌then◌else◌, Bool-cases, Option-cases, length, and_then,
  update, update_lem,
}
use mathlib.Core.Path.{subst}
use sea_star_os.Drivers.Keyboard.{
  Keyboard, key_unknown, kkeyboard_get_last_key, kkeyboard_discard_last_key, kkeyboard_key_to_ascii,
}
use sea_star_os.Kernel.Display.{Screen, kernel_putc}
use sea_star_os.Shell.Input.{
  Line, getch, type_key, get_cmd_loop, get_cmd, rub_out, key_return, key_backspace,
}

-- What a key makes of a line, whose last character comes first.
abbrev apply_key : List ℕ → ℕ → Keyboard → List ℕ
apply_key line key k =
    let c = kkeyboard_key_to_ascii k key in
    if key == key_backspace
    then elim line [ [] ↦ [] | _ ∷ cs ↦ cs ]
    else if not (c == 0) && not (key == 0x1001)
    then c ∷ line
    else line

-- The line that is typed, of `n` characters at most, from the states of the keyboard.
pub edit : ℕ → List ℕ → List Keyboard → Option (List ℕ)
edit n line [] = if ltb (length line) n then none else some line
edit n line (k ∷ ks) =
    let skip = edit n line ks in
    let pressed : ℕ → Option (List ℕ) = λ key.
      let rest = edit n (apply_key line key k) ks in
      if key == key_return then some line else rest in
    if ltb (length line) n
    then (and_then (kkeyboard_get_last_key k)
        λ key. if key == key_unknown then skip else pressed key)
    else some line

edit_full :
    (n : ℕ) (line : List ℕ) (ks : List Keyboard)
    → ltb (length line) n ≡ false
    → edit n line ks ≡ some line
unfolding edit
edit_full n line [] e = rw e refl
edit_full n line (k ∷ ks) e = rw e refl

edit-getch :
    (n : ℕ) (line : List ℕ) (ks : List Keyboard)
    → ltb (length line) n ≡ true
    → edit n line ks
      ≡ and_then (getch ks) λ (key, k, rest).
        if key == key_return then some line else edit n (apply_key line key k) rest
unfolding edit getch kkeyboard_discard_last_key kkeyboard_key_to_ascii
edit-getch n line [] e = rw e refl
edit-getch n line (k ∷ ks) e = elim (Option-cases (kkeyboard_get_last_key k)) [
  | inl f ↦ rw (e, f) refl
  | inr (key, f) ↦ elim (Bool-cases (key == key_unknown)) [
    | inl t ↦ rw (e, f, t) (edit-getch n line ks e)
    | inr t ↦ rw (e, f, t) refl
  ]
]

getch_cases :
    (ks : List Keyboard)
    → (getch ks ≡ none)
      ⊎ ((key : ℕ) × (k : Keyboard) × (rest : List Keyboard) × (getch ks ≡ some (key, k, rest))
          × (length rest < length ks))
unfolding getch
getch_cases [] = inl refl
getch_cases (x ∷ xs) = elim (Option-cases (kkeyboard_get_last_key x)) [
  | inl f ↦ inl (rw f refl)
  | inr (key, f) ↦ elim (Bool-cases (key == key_unknown)) [
    | inl t ↦ elim (getch_cases xs) [
      | inl e ↦ inl (rw (f, t) e)
      | inr (key', k', rest, e, l) ↦ inr (key', k', rest, rw (f, t) e, omega (arith, l))
    ]
    | inr t ↦ inr (key, kkeyboard_discard_last_key x, xs, rw (f, t) refl, omega arith)
  ]
]

-- The buffer holds the characters of a line.
abbrev pub Spells : (ℕ → ℕ) → List ℕ → Type 0
Spells buf [] = Unit
Spells buf (c ∷ cs) = (buf (length cs) ≡ c) × Spells buf cs

Spells-update :
    (buf : ℕ → ℕ) (i v : ℕ) (cs : List ℕ)
    → length cs ≤ i
    → Spells buf cs
    → Spells (update buf i v) cs
Spells-update buf i v [] l h = tt
Spells-update buf i v (c ∷ cs) l (e, h) =
    (ground (arith, update_lem buf i v (length cs)), Spells-update buf i v cs (omega (arith, l)) h)

-- The state of get_cmd when the line is `chars`; nothing from index `n` on is written.
record Holds (n : ℕ) (buf : ℕ → ℕ) (line : Line) (chars : List ℕ) : Type 0 where
  at : line.i ≡ length chars
  spells : Spells line.buf chars
  fits : length chars ≤ n
  kept : (j : ℕ) → n ≤ j → line.buf j ≡ buf j

type_key-Holds :
    (n : ℕ) (buf : ℕ → ℕ) (line : Line) (chars : List ℕ) (key : ℕ) (k : Keyboard)
    → Holds n buf line chars
    → length chars < n
    → Holds n buf (type_key line key k) (apply_key chars key k)
unfolding type_key
type_key-Holds n buf line chars key k h l = elim (Bool-cases (key == key_backspace)) [
  | inl t ↦ rw t (erase chars h l)
  | inr f ↦ elim (Bool-cases (not (kkeyboard_key_to_ascii k key == 0) && not (key == 0x1001))) [
    | inl t ↦ rw (f, t) (typed (kkeyboard_key_to_ascii k key))
    | inr t ↦ rw (f, t) h
  ]
]
  where
    typed :
        (c : ℕ)
        → Holds n buf
            (record line {
              screen = kernel_putc line.screen c;
              buf = update line.buf line.i c;
              i = line.i + 1;
            })
            (c ∷ chars)
    typed c = record {
      at = omega (arith, h.at);
      spells = (
        ground (arith, update_lem line.buf line.i c (length chars), h.at),
        Spells-update line.buf line.i c chars (omega (arith, h.at)) h.spells,
      );
      fits = l;
      kept = λ j m. ground (arith, update_lem line.buf line.i c j, h.kept j m, h.at);
    }

    erase :
        (cs : List ℕ)
        → Holds n buf line cs
        → length cs < n
        → Holds n buf
            (if ltb 0 line.i
              then record line { screen = rub_out line.screen; i = line.i - 1 }
              else line)
            (elim cs [ [] ↦ [] | _ ∷ cs' ↦ cs' ])
    erase [] h l = let z : ltb 0 line.i ≡ false = ground (arith, h.at) in rw z h
    erase (c ∷ cs) h l =
        let z : ltb 0 line.i ≡ true = ground (arith, h.at) in
        rw z (record {
          at = omega (arith, h.at);
          spells = h.spells.1;
          fits = omega (arith, h.fits);
          kept = h.kept;
        })

type_key-input : (line : Line) (key : ℕ) (k : Keyboard) → (type_key line key k).input ≡ line.input
unfolding type_key
type_key-input line key k = elim (Bool-cases (key == key_backspace)) [
  | inl t ↦ elim (Bool-cases (ltb 0 line.i)) [ inl e ↦ rw (t, e) refl | inr e ↦ rw (t, e) refl ]
  | inr f ↦ elim (Bool-cases (not (kkeyboard_key_to_ascii k key == 0) && not (key == 0x1001))) [
    | inl e ↦ rw (f, e) refl
    | inr e ↦ rw (f, e) refl
  ]
]

-- Both wait for ever, or both have the line.
abbrev Matches : ℕ → (ℕ → ℕ) → Option Line → Option (List ℕ) → Type 0
Matches n buf none none = Unit
Matches n buf (some line) (some chars) = Holds n buf line chars
Matches n buf none (some chars) = ⊥
Matches n buf (some line) none = ⊥

get_cmd_loop-Matches :
    (fuel n : ℕ) (buf : ℕ → ℕ) (line : Line) (chars : List ℕ)
    → Holds n buf line chars
    → length line.input < fuel
    → Matches n buf (get_cmd_loop fuel n line) (edit n chars line.input)
unfolding get_cmd_loop
get_cmd_loop-Matches zero n buf line chars h l = elim l [ ]
get_cmd_loop-Matches (suc fuel) n buf line chars h l = elim (Bool-cases (ltb (length chars) n)) [
  | inr f ↦
      (let full : ltb line.i n ≡ false = ground (arith, h.at) in
        rw (full, edit_full n chars line.input f) h)
  | inl t ↦
      (let open_line : ltb line.i n ≡ true = ground (arith, h.at) in
        elim (getch_cases line.input) [
          | inl e ↦ rw (open_line, edit-getch n chars line.input t, e) tt
          | inr (key, k, rest, e, shorter) ↦
              (let next = record line { input = rest } in
                let h' : Holds n buf next chars = record {
                  at = h.at;
                  spells = h.spells;
                  fits = h.fits;
                  kept = h.kept;
                } in
                elim (Bool-cases (key == key_return)) [
                  | inl r ↦ rw (open_line, edit-getch n chars line.input t, e, r) h'
                  | inr r ↦
                      (let typed = type_key next key k in
                        let same = type_key-input next key k in
                        let later =
                          get_cmd_loop-Matches fuel n buf typed (apply_key chars key k)
                            (type_key-Holds n buf next chars key k h' (ground arith))
                            (rw same (omega (arith, shorter, l))) in
                        rw (open_line, edit-getch n chars line.input t, e, r)
                          (subst
                            (λ ks.
                              Matches n buf (get_cmd_loop fuel n typed)
                                (edit n (apply_key chars key k) ks))
                            same later))
                ])
        ])
]

-- What get_cmd leaves when the line is `chars`.
abbrev pub Returns : (ℕ → ℕ) → ℕ → Option Line → Option (List ℕ) → Type 0
Returns buf n none none = Unit
Returns buf n (some line) (some chars) =
    Spells line.buf chars
    × (line.buf (length chars) ≡ 0)
    × (length chars ≤ n)
    × ((j : ℕ) → n < j → line.buf j ≡ buf j)
Returns buf n none (some chars) = ⊥
Returns buf n (some line) none = ⊥

terminated :
    (buf : ℕ → ℕ) (n : ℕ) (got : Option Line) (line : Option (List ℕ))
    → Matches n buf got line
    → Returns buf n (and_then got λ l. some (record l { buf = update l.buf l.i 0 })) line
terminated buf n none none h = tt
terminated buf n (some got) (some chars) h = (
  Spells-update got.buf got.i 0 chars (omega (arith, h.at)) h.spells,
  ground (arith, update_lem got.buf got.i 0 (length chars), h.at),
  h.fits,
  λ j l. ground (arith, update_lem got.buf got.i 0 j, h.at, h.fits, h.kept j (omega arith)),
)
terminated buf n none (some chars) h = h
terminated buf n (some got) none h = h

-- get_cmd and the editor agree on every input: both wait for ever, or the buffer gets the line that
-- the editor has, of at most `n` characters and with a 0 behind them, and nothing behind index `n`
-- changes; a step more of fuel than there are states of the keyboard is enough.
pub get_cmd-edit :
    (fuel n : ℕ) (buf : ℕ → ℕ) (screen : Screen) (input : List Keyboard)
    → length input < fuel
    → Returns buf n (get_cmd fuel buf n screen input) (edit n [] input)
unfolding get_cmd
get_cmd-edit fuel n buf screen input l = terminated buf n _ _ (
    get_cmd_loop-Matches fuel n buf (record { buf = buf; i = 0; screen = screen; input = input }) []
      (record { at = refl; spells = tt; fits = omega arith; kept = λ j m. refl }) l)
