-- ===== src/Fs/Fat12/Names.antt =====
-- Names in the form of a directory entry.
use sea_star_os.Base.{
  ℕ, zero, suc, ◌+◌, ◌-◌, ◌≤◌, ◌<◌, ◌≡◌, refl, ap, ◌∙◌, ◌≢◌, inl, inr, Bool, true, false, not, ◌&&◌,
  ◌||◌, some, arith, ltb, leb, ◌==◌, if◌then◌else◌, ==_iff, Bool-cases, update, update_lem,
}
use native.Mathlib.Decide.{dec_lt}
use sea_star_os.CLib.Strings.{Memory, strlen}
use sea_star_os.Fs.Fat12.{toupper, dos_base, dos_extension, upper_extension, to_dos_file_name}

-- the indices from `a` to `b`
abbrev between : ℕ → ℕ → ℕ → Bool
between a b k = leb a k && ltb k b

-- The part in front of the dot has the bytes up to `len`, and the loop stops there.
dos_base-copies :
    (left : ℕ) (mem : Memory) (filename n i len : ℕ) (fname : ℕ → ℕ)
    → i ≤ len
    → len ≤ 8
    → len < n
    → len < i + left
    → mem (filename + len) ≡ b'.'
    → ((j : ℕ) → j < len → mem (filename + j) ≢ b'.')
    → ((dos_base left mem filename n i fname).0 ≡ len)
      × ((k : ℕ)
          → (dos_base left mem filename n i fname).1 k
            ≡ (if between i len k then toupper (mem (filename + k)) else fname k))
unfolding dos_base
dos_base-copies zero mem filename n i len fname a b c d dot plain = absurd (omega (arith, a, d))
dos_base-copies (suc left) mem filename n i len fname a b c d dot plain = elim (dec_lt i len) [
  | yes l ↦
      (let goes : (ltb i n && not (mem (filename + i) == b'.' || i == 8)) ≡ true =
          ground (arith, plain i l) in
        let next = update fname i (toupper (mem (filename + i))) in
        let (stop, bytes) =
          dos_base-copies left mem filename n (i + 1) len next (omega (arith, l)) b c
            (omega (arith, d)) dot plain in
        rw goes (
          stop,
          λ k. bytes k ∙ elim (Bool-cases (k == i)) [
            | inl t ↦
                rw ((==_iff _ _).0 t)
                  (ground (arith, update_lem fname i (toupper (mem (filename + i))) i))
            | inr f ↦ ground (arith, update_lem fname i (toupper (mem (filename + i))) k)
          ],
        ))
  | no ge ↦
      (let e : i ≡ len = omega (arith, a, ge) in
        let stops : (ltb i n && not (mem (filename + i) == b'.' || i == 8)) ≡ false =
          rw e (ground (arith, dot)) in
        rw stops (e, λ k. ground (arith, e)))
]

dos_extension_lem :
    (left : ℕ) (mem : Memory) (filename i p : ℕ) (fname : ℕ → ℕ) (k : ℕ)
    → ((j : ℕ) → j < left → mem (filename + (i + 1 + j)) ≢ 0)
    → dos_extension left mem filename i p fname k ≡ (
        if between (8 + p) (8 + p + left) k
        then mem (filename + (i + 1 + (k - (8 + p))))
        else fname k)
unfolding dos_extension
dos_extension_lem zero mem filename i p fname k h = ground arith
dos_extension_lem (suc left) mem filename i p fname k h =
    let z : filename + (i + 1 + 0) ≡ filename + (i + 1) = omega arith in
    let here : mem (filename + (i + 1)) ≢ 0 = λ e. h 0 (omega arith) (ap mem z ∙ e) in
    let later : (j : ℕ) → j < left → mem (filename + (i + 1 + 1 + j)) ≢ 0 =
      λ j l. λ e. h (suc j) (omega (arith, l)) (ap mem (omega arith) ∙ e) in
    let set : (mem (filename + (i + 1)) == 0) ≡ false = ground arith in
    let next = update fname (8 + p) (mem (filename + (i + 1))) in
    rw set (
      dos_extension_lem left mem filename (i + 1) (p + 1) next k later
      ∙ ground (arith, update_lem fname (8 + p) (mem (filename + (i + 1))) k))

upper_extension_lem :
    (left i : ℕ) (fname : ℕ → ℕ) (k : ℕ)
    → upper_extension left i fname k
      ≡ (if between (8 + i) (8 + i + left) k then toupper (fname k) else fname k)
unfolding upper_extension
upper_extension_lem zero i fname k = ground arith
upper_extension_lem (suc left) i fname k =
    upper_extension_lem left (i + 1) _ k ∙ elim (Bool-cases (k == (8 + i))) [
      | inl t ↦
          rw ((==_iff _ _).0 t)
            (ground (arith, update_lem fname (8 + i) (toupper (fname (8 + i))) (8 + i)))
      | inr f ↦ ground (arith, update_lem fname (8 + i) (toupper (fname (8 + i))) k)
    ]

extended :
    (mem : Memory) (filename i : ℕ) (fname : ℕ → ℕ) (k : ℕ)
    → ((j : ℕ) → j < 3 → mem (filename + (i + 1 + j)) ≢ 0)
    → upper_extension 3 0 (dos_extension 3 mem filename i 0 fname) k
      ≡ (if between 8 11 k then toupper (mem (filename + (i + 1 + (k - 8)))) else fname k)
extended mem filename i fname k ext =
    upper_extension_lem 3 0 (dos_extension 3 mem filename i 0 fname) k
    ∙ ground (arith, dos_extension_lem 3 mem filename i 0 fname k ext)

-- A name whose first dot has at most 8 bytes in front of it and at least 3 behind becomes its bytes up
-- to the dot, blanks up to the eighth byte and the 3 bytes behind the dot, all in upper case; the
-- array behind its 11 bytes is as before.
pub to_dos_file_name_lem :
    (fuel : ℕ) (mem : Memory) (filename n len : ℕ) (fname : ℕ → ℕ)
    → strlen fuel mem filename ≡ some n
    → filename ≢ 0
    → len ≤ 8
    → len < n
    → mem (filename + len) ≡ b'.'
    → ((j : ℕ) → j < len → mem (filename + j) ≢ b'.')
    → ((j : ℕ) → j < 3 → mem (filename + (len + 1 + j)) ≢ 0)
    → (dos : ℕ → ℕ) × (to_dos_file_name fuel mem filename fname 11 ≡ some dos)
      × ((k : ℕ) → k < len → dos k ≡ toupper (mem (filename + k)))
      × ((k : ℕ) → len ≤ k → k < 8 → dos k ≡ b' ')
      × ((k : ℕ) → k < 3 → dos (8 + k) ≡ toupper (mem (filename + (len + 1 + k))))
      × ((k : ℕ) → 11 ≤ k → dos k ≡ fname k)
unfolding to_dos_file_name
to_dos_file_name_lem fuel mem filename n len fname e ne b c dot plain ext =
    let blank : ℕ → ℕ = λ k. if ltb k 11 then b' ' else fname k in
    let base = dos_base 11 mem filename n 0 blank in
    let (stop, bytes) =
      dos_base-copies 11 mem filename n 0 len blank (omega arith) b c (omega (arith, b)) dot
        plain in
    let at : mem (filename + base.0) ≡ b'.' = rw stop dot in
    let dotted = dos_extension 3 mem filename base.0 0 base.1 in
    let set : (filename == 0) ≡ false = ground arith in
    let whole : (k : ℕ)
        → upper_extension 3 0 dotted k
          ≡ (if between 8 11 k then toupper (mem (filename + (len + 1 + (k - 8)))) else base.1 k) =
      λ k. rw stop (extended mem filename len base.1 k ext) in
    let t : (mem (filename + base.0) == b'.') ≡ true = (==_iff _ _).1 at in
    (
      upper_extension 3 0 dotted,
      rw (set, e, t) refl,
      λ k l. whole k ∙ ground (arith, bytes k),
      λ k l m. whole k ∙ ground (arith, bytes k),
      λ k l. whole (8 + k) ∙ (let z : 8 + k - 8 ≡ k = omega arith in rw z (ground arith)),
      λ k l. whole k ∙ ground (arith, bytes k),
    )
