-- ===== src/CLib/Format/Filling.antt =====
-- vsprintf against the pieces that a format is written from.
use sea_star_os.Base.{
  ℕ, suc, ◌+◌, ◌≤◌, ◌<◌, ◌≡◌, refl, ap, ◌∙◌, ◌≢◌, ◌⊎◌, inl, inr, false, some, List, [], ◌∷◌, ◌++◌,
  arith, ◌==◌, u8, length, length-append, update, update_lem,
}
use sea_star_os.CLib.Strings.{Memory, IsString}
use sea_star_os.CLib.Strings.Copies.{within, IsString-same}
use sea_star_os.Kernel.Display.{itoa, itoa_s}
use sea_star_os.Kernel.Display.Printf.Pieces.{
  Piece, plain, character, string, decimal, hexadecimal, format_of,
}
use sea_star_os.CLib.Format.{store_string, store_argument, vsprintf_loop, vsprintf}
use sea_star_os.CLib.Format.Storing.{
  Bytes, Bytes-append, Lands, Lands-stored, Lands-byte, string_argument_lem,
}

-- What a conversion makes of its argument; a string is out of the way of the buffer from `lo` to `hi`.
abbrev pub Gives : ℕ → Memory → ℕ → ℕ → Piece → ℕ → List ℕ → Type 0
Gives fuel mem lo hi (plain c) v first = ⊥
Gives fuel mem lo hi character v first = first ≡ u8 v ∷ []
Gives fuel mem lo hi string v first =
    IsString mem v first
    × (length first < fuel)
    × (length first < 32)
    × ((v + length first < lo) ⊎ (hi ≤ v))
Gives fuel mem lo hi decimal v first = itoa v 10 ≡ some first
Gives fuel mem lo hi hexadecimal v first = itoa v 16 ≡ some first

-- The pieces make `text` of the arguments.
abbrev pub Fills : ℕ → Memory → ℕ → ℕ → List Piece → List ℕ → List ℕ → Type 0
Fills fuel mem lo hi [] args text = text ≡ []
Fills fuel mem lo hi (plain c ∷ ps) args text =
    (c ≢ b'%') × ((rest : List ℕ) × (text ≡ c ∷ rest) × Fills fuel mem lo hi ps args rest)
Fills fuel mem lo hi (p ∷ ps) [] text = ⊥
Fills fuel mem lo hi (p ∷ ps) (v ∷ args) text =
    (first : List ℕ) × (rest : List ℕ) × Gives fuel mem lo hi p v first
    × (text ≡ first ++ rest)
    × Fills fuel mem lo hi ps args rest

-- the two memories agree out of the buffer
abbrev Agrees : ℕ → ℕ → Memory → Memory → Type 0
Agrees lo hi mem mem' = (x : ℕ) → (x < lo) ⊎ (hi ≤ x) → mem' x ≡ mem x

Gives-Agrees :
    (fuel lo hi : ℕ) (mem mem' : Memory) (p : Piece) (v : ℕ) (first : List ℕ)
    → Agrees lo hi mem mem'
    → Gives fuel mem lo hi p v first
    → Gives fuel mem' lo hi p v first
Gives-Agrees fuel lo hi mem mem' (plain c) v first e h = h
Gives-Agrees fuel lo hi mem mem' character v first e h = h
Gives-Agrees fuel lo hi mem mem' string v first e (s, f, l, inl o) =
    (IsString-same mem mem' v v first (λ i le. e (v + i) (inl (omega arith))) s, f, l, inl o)
Gives-Agrees fuel lo hi mem mem' string v first e (s, f, l, inr o) =
    (IsString-same mem mem' v v first (λ i le. e (v + i) (inr (omega arith))) s, f, l, inr o)
Gives-Agrees fuel lo hi mem mem' decimal v first e h = h
Gives-Agrees fuel lo hi mem mem' hexadecimal v first e h = h

Fills-Agrees :
    (fuel lo hi : ℕ) (mem mem' : Memory) (ps : List Piece) (args text : List ℕ)
    → Agrees lo hi mem mem'
    → Fills fuel mem lo hi ps args text
    → Fills fuel mem' lo hi ps args text
Fills-Agrees fuel lo hi mem mem' [] args text e h = h
Fills-Agrees fuel lo hi mem mem' (plain c ∷ ps) args text e (ne, (rest, q, h)) =
    (ne, (rest, q, Fills-Agrees fuel lo hi mem mem' ps args rest e h))
Fills-Agrees fuel lo hi mem mem' (character ∷ ps) (v ∷ args) text e (first, rest, g, q, h) =
    (first, rest, g, q, Fills-Agrees fuel lo hi mem mem' ps args rest e h)
Fills-Agrees fuel lo hi mem mem' (string ∷ ps) (v ∷ args) text e (first, rest, g, q, h) = (
  first,
  rest,
  Gives-Agrees fuel lo hi mem mem' string v first e g,
  q,
  Fills-Agrees fuel lo hi mem mem' ps args rest e h,
)
Fills-Agrees fuel lo hi mem mem' (decimal ∷ ps) (v ∷ args) text e (first, rest, g, q, h) =
    (first, rest, g, q, Fills-Agrees fuel lo hi mem mem' ps args rest e h)
Fills-Agrees fuel lo hi mem mem' (hexadecimal ∷ ps) (v ∷ args) text e (first, rest, g, q, h) =
    (first, rest, g, q, Fills-Agrees fuel lo hi mem mem' ps args rest e h)
Fills-Agrees fuel lo hi mem mem' (character ∷ ps) [] text e h = absurd h
Fills-Agrees fuel lo hi mem mem' (string ∷ ps) [] text e h = absurd h
Fills-Agrees fuel lo hi mem mem' (decimal ∷ ps) [] text e h = absurd h
Fills-Agrees fuel lo hi mem mem' (hexadecimal ∷ ps) [] text e h = absurd h

abbrev letter : Piece → ℕ
letter (plain c) = c
letter character = b'c'
letter string = b's'
letter decimal = b'd'
letter hexadecimal = b'x'

store_argument-Gives :
    (fuel lo hi : ℕ) (mem : Memory) (a : ℕ) (p : Piece) (v : ℕ) (args first : List ℕ)
    → Gives fuel mem lo hi p v first
    → (mem' : Memory) × (store_argument fuel mem a (letter p) (v ∷ args)
        ≡ some (some (mem', length first, args)))
      × Lands mem mem' a first
unfolding store_argument itoa_s
store_argument-Gives fuel lo hi mem a (plain c) v args first g = absurd g
store_argument-Gives fuel lo hi mem a character v args first g =
    (update mem a (u8 v), rw g refl, rw g (Lands-byte mem a (u8 v)))
store_argument-Gives fuel lo hi mem a string v args first (s, f, l, o) = (
  store_string mem a first,
  rw (string_argument_lem fuel mem v first s f l) refl,
  Lands-stored mem a first,
)
store_argument-Gives fuel lo hi mem a decimal v args first g =
    (store_string mem a first, rw g refl, Lands-stored mem a first)
store_argument-Gives fuel lo hi mem a hexadecimal v args first g =
    (store_string mem a first, rw g refl, Lands-stored mem a first)

-- the loop writes `text` and the 0 behind it at `a`, and nothing else
abbrev Writes : ℕ → Memory → ℕ → ℕ → List ℕ → List ℕ → List ℕ → Type 0
Writes fuel mem a i format args text =
    (mem' : Memory) × (vsprintf_loop fuel mem a i format args ≡ some (i + length format + 1, mem'))
    × Bytes mem' a text
    × (mem' (a + length text) ≡ 0)
    × ((x : ℕ) → within a (length text + 1) x ≡ false → mem' x ≡ mem x)

loop-plain :
    (fuel : ℕ) (mem : Memory) (a i c : ℕ) (cs args : List ℕ)
    → c ≢ b'%'
    → vsprintf_loop fuel mem a i (c ∷ cs) args
      ≡ vsprintf_loop fuel (update mem a c) (a + 1) (i + 1) cs args
unfolding vsprintf_loop
loop-plain fuel mem a i c [] args ne = let e : (c == b'%') ≡ false = ground arith in rw e refl
loop-plain fuel mem a i c (d ∷ ds) args ne = let e : (c == b'%') ≡ false = ground arith in rw e refl

loop-argument :
    (fuel : ℕ) (mem mem' : Memory) (a i d n : ℕ) (ds args args' : List ℕ)
    → store_argument fuel mem a d args ≡ some (some (mem', n, args'))
    → vsprintf_loop fuel mem a i (b'%' ∷ d ∷ ds) args
      ≡ vsprintf_loop fuel mem' (a + n) (i + 2) ds args'
unfolding vsprintf_loop
loop-argument fuel mem mem' a i d n ds args args' e = rw e refl

-- One piece that lands as `first`, and the loop behind it.
Writes-piece :
    (fuel : ℕ) (mem mem' : Memory) (a i j : ℕ) (format rest_format args args' : List ℕ)
    (first rest text : List ℕ)
    → vsprintf_loop fuel mem a i format args
      ≡ vsprintf_loop fuel mem' (a + length first) j rest_format args'
    → j + length rest_format ≡ i + length format
    → text ≡ first ++ rest
    → Lands mem mem' a first
    → Writes fuel mem' (a + length first) j rest_format args' rest
    → Writes fuel mem a i format args text
Writes-piece fuel mem mem' a i j format rest_format args args' first rest text e n q (b, o)
      (m, r, t, z, k) =
    let long : length text ≡ length first + length rest = ap length q ∙ length-append first rest in
    (
      m,
      e ∙ r ∙ ap (λ n. some (n + 1, m)) n,
      rw q (Bytes-append first rest mem' m a b t (λ x l. k x (ground arith))),
      ap m (omega (arith, long)) ∙ z,
      λ x l. k x (ground (arith, long)) ∙ o x (ground (arith, long)),
    )

-- A conversion and the loop behind it, which finds any memory that differs in the buffer alone.
Writes-argument :
    (fuel lo hi : ℕ) (mem : Memory) (a i : ℕ) (p : Piece) (v : ℕ) (ds args first rest text : List ℕ)
    → lo ≤ a
    → a + length text < hi
    → Gives fuel mem lo hi p v first
    → text ≡ first ++ rest
    → ((mem' : Memory)
        → Agrees lo hi mem mem'
        → Writes fuel mem' (a + length first) (i + 2) ds args rest)
    → Writes fuel mem a i (b'%' ∷ letter p ∷ ds) (v ∷ args) text
Writes-argument fuel lo hi mem a i p v ds args first rest text l u g q later =
    let (mem', e, landed) = store_argument-Gives fuel lo hi mem a p v args first g in
    let long : length text ≡ length first + length rest = ap length q ∙ length-append first rest in
    Writes-piece fuel mem mem' a i (i + 2) (b'%' ∷ letter p ∷ ds) ds (v ∷ args) args first rest text
      (loop-argument fuel mem mem' a i (letter p) (length first) ds (v ∷ args) args e) (omega arith)
      q landed (later mem' (λ x o. landed.1 x (ground (arith, long))))

loop-Fills :
    (ps : List Piece) (fuel lo hi : ℕ) (mem : Memory) (a i : ℕ) (args text : List ℕ)
    → lo ≤ a
    → a + length text < hi
    → Fills fuel mem lo hi ps args text
    → Writes fuel mem a i (format_of ps) args text
unfolding vsprintf_loop
loop-Fills [] fuel lo hi mem a i args text l u q = rw q (
  update mem a 0,
  ap (λ n. some (n, update mem a 0)) (omega arith),
  tt,
  ground (arith, update_lem mem a 0 (a + 0)),
  λ x o. ground (arith, update_lem mem a 0 x),
)
loop-Fills (plain c ∷ ps) fuel lo hi mem a i args text l u (ne, (rest, q, h)) =
    let long : length text ≡ suc (length rest) = ap length q in
    let landed = Lands-byte mem a c in
    Writes-piece fuel mem (update mem a c) a i (i + 1) (format_of (plain c ∷ ps)) (format_of ps)
      args args (c ∷ []) rest text (loop-plain fuel mem a i c (format_of ps) args ne) (omega arith)
      q landed
      (loop-Fills ps fuel lo hi (update mem a c) (a + 1) (i + 1) args rest (omega arith)
        (omega (arith, long))
        (Fills-Agrees fuel lo hi mem (update mem a c) ps args rest
          (λ x o. landed.1 x (ground arith)) h))
loop-Fills (character ∷ ps) fuel lo hi mem a i (v ∷ args) text l u (first, rest, g, q, h) =
    Writes-argument fuel lo hi mem a i character v (format_of ps) args first rest text l u g q
      λ mem' e.
        loop-Fills ps fuel lo hi mem' (a + length first) (i + 2) args rest (omega arith)
          (omega (arith, ap length q ∙ length-append first rest))
          (Fills-Agrees fuel lo hi mem mem' ps args rest e h)
loop-Fills (string ∷ ps) fuel lo hi mem a i (v ∷ args) text l u (first, rest, g, q, h) =
    Writes-argument fuel lo hi mem a i string v (format_of ps) args first rest text l u g q
      λ mem' e.
        loop-Fills ps fuel lo hi mem' (a + length first) (i + 2) args rest (omega arith)
          (omega (arith, ap length q ∙ length-append first rest))
          (Fills-Agrees fuel lo hi mem mem' ps args rest e h)
loop-Fills (decimal ∷ ps) fuel lo hi mem a i (v ∷ args) text l u (first, rest, g, q, h) =
    Writes-argument fuel lo hi mem a i decimal v (format_of ps) args first rest text l u g q
      λ mem' e.
        loop-Fills ps fuel lo hi mem' (a + length first) (i + 2) args rest (omega arith)
          (omega (arith, ap length q ∙ length-append first rest))
          (Fills-Agrees fuel lo hi mem mem' ps args rest e h)
loop-Fills (hexadecimal ∷ ps) fuel lo hi mem a i (v ∷ args) text l u (first, rest, g, q, h) =
    Writes-argument fuel lo hi mem a i hexadecimal v (format_of ps) args first rest text l u g q
      λ mem' e.
        loop-Fills ps fuel lo hi mem' (a + length first) (i + 2) args rest (omega arith)
          (omega (arith, ap length q ∙ length-append first rest))
          (Fills-Agrees fuel lo hi mem mem' ps args rest e h)
loop-Fills (character ∷ ps) fuel lo hi mem a i [] text l u h = absurd h
loop-Fills (string ∷ ps) fuel lo hi mem a i [] text l u h = absurd h
loop-Fills (decimal ∷ ps) fuel lo hi mem a i [] text l u h = absurd h
loop-Fills (hexadecimal ∷ ps) fuel lo hi mem a i [] text l u h = absurd h

-- vsprintf with a format that is written from pieces leaves the text of the pieces and a 0 behind it
-- at the buffer, changes no other byte and returns the length of the format and one more, where each
-- conversion has its argument, each string fits into 31 bytes and none overlaps the buffer.
pub vsprintf-Fills :
    (fuel : ℕ) (mem : Memory) (str : ℕ) (ps : List Piece) (args text : List ℕ)
    → str ≢ 0
    → Fills fuel mem str (str + length text + 1) ps args text
    → (mem' : Memory) × (vsprintf fuel mem str (some (format_of ps)) args
        ≡ some (length (format_of ps) + 1, mem'))
      × Bytes mem' str text
      × (mem' (str + length text) ≡ 0)
      × ((x : ℕ) → within str (length text + 1) x ≡ false → mem' x ≡ mem x)
unfolding vsprintf
vsprintf-Fills fuel mem str ps args text nz h =
    let (mem', e, b, z, k) =
      loop-Fills ps fuel str (str + length text + 1) mem str 0 args text (omega arith) (omega arith)
        h in
    let buffer : (str == 0) ≡ false = ground arith in
    (mem', rw buffer (e ∙ ap (λ n. some (n + 1, mem')) (omega arith)), b, z, k)
