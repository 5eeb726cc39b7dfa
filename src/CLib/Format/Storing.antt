-- ===== src/CLib/Format/Storing.antt =====
-- What vsprintf stores in the buffer for one argument.
use sea_star_os.Base.{
  ℕ, suc, ◌+◌, ◌<◌, ◌≡◌, ◌∙◌, false, some, List, [], ◌∷◌, ◌++◌, arith, length, update, update_lem,
}
use sea_star_os.CLib.Strings.{Memory, IsString}
use sea_star_os.CLib.Strings.Copies.{within}
use sea_star_os.Fs.Ramdisk.Headers.{read_string_lem}
use sea_star_os.Kernel.Display.Printf.{string_argument}
use sea_star_os.CLib.Format.{store_string}

-- the bytes `s` stand at `a`
abbrev pub Bytes : Memory → ℕ → List ℕ → Type 0
Bytes mem a [] = Unit {0}
Bytes mem a (c ∷ cs) = (mem a ≡ c) × Bytes mem (a + 1) cs

store_string-outside :
    (s : List ℕ) (mem : Memory) (a x : ℕ)
    → within a (length s + 1) x ≡ false
    → store_string mem a s x ≡ mem x
unfolding store_string
store_string-outside [] mem a x o = ground (arith, update_lem mem a 0 x)
store_string-outside (c ∷ cs) mem a x o =
    store_string-outside cs (update mem a c) (a + 1) x (ground arith)
    ∙ ground (arith, update_lem mem a c x)

store_string-Bytes : (s : List ℕ) (mem : Memory) (a : ℕ) → Bytes (store_string mem a s) a s
unfolding store_string
store_string-Bytes [] mem a = tt
store_string-Bytes (c ∷ cs) mem a = (
  store_string-outside cs (update mem a c) (a + 1) a (ground arith)
      ∙ ground (arith, update_lem mem a c a),
  store_string-Bytes cs (update mem a c) (a + 1),
)

pub Bytes-append :
    (s t : List ℕ) (mem mem' : Memory) (a : ℕ)
    → Bytes mem a s
    → Bytes mem' (a + length s) t
    → ((x : ℕ) → x < a + length s → mem' x ≡ mem x)
    → Bytes mem' a (s ++ t)
Bytes-append [] t mem mem' a h k e = let z : a + 0 ≡ a = omega arith in rw z at k
Bytes-append (c ∷ cs) t mem mem' a h k e = (
  e a (omega arith) ∙ h.0,
  Bytes-append cs t mem mem' (a + 1) h.1
      (let z : a + suc (length cs) ≡ a + 1 + length cs = omega arith in rw z at k)
      (λ x l. e x (omega arith)),
)

-- `s` has been put at `a`, with one byte behind it
abbrev pub Lands : Memory → Memory → ℕ → List ℕ → Type 0
Lands mem mem' a s = Bytes mem' a s × ((x : ℕ) → within a (length s + 1) x ≡ false → mem' x ≡ mem x)

pub Lands-stored : (mem : Memory) (a : ℕ) (s : List ℕ) → Lands mem (store_string mem a s) a s
Lands-stored mem a s = (store_string-Bytes s mem a, store_string-outside s mem a)

pub Lands-byte : (mem : Memory) (a c : ℕ) → Lands mem (update mem a c) a (c ∷ [])
Lands-byte mem a c =
    ((ground (arith, update_lem mem a c a), tt), λ x o. ground (arith, update_lem mem a c x))

pub string_argument_lem :
    (fuel : ℕ) (mem : Memory) (v : ℕ) (s : List ℕ)
    → IsString mem v s
    → length s < fuel
    → length s < 32
    → string_argument fuel mem v ≡ some s
unfolding string_argument
string_argument_lem fuel mem v s h f l = rw (read_string_lem fuel mem v s h f) (ground arith)
