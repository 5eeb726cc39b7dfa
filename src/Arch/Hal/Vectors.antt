-- ===== src/Arch/Hal/Vectors.antt =====
-- The vectors behind the start.
use sea_star_os.Base.{
  ℕ, ◌*◌, ◌/◌, ◌%◌, ◌^◌, ◌<◌, bit_and, bit_or, ◌≡◌, refl, ap, ◌∙◌, inl, inr, false, some, List, [],
  ◌∷◌, arith, ltb, ◌==◌, if◌then◌else◌, Bool-cases, u16, u32, ◌<<<◌, ◌>>>◌, length, get_elem?, set,
  length-set, bit_or-disjoint, bit_or_comm, bit_and-u16,
}
use sea_star_os.Arch.Idt.{IdtDescriptor, handler_descriptor, i86_install_ir_lem}
use sea_star_os.Arch.Hal.{Handler, i86_get_ir, setvect, getvect, set_vectors}

-- Interrupt `n` is handled at `irq`, with the flags `flags`.
abbrev pub IsHandled : List IdtDescriptor → ℕ → ℕ → ℕ → Type 0
IsHandled idt n irq flags = get_elem? idt n ≡ some (handler_descriptor (bit_or 0x8E flags) 0x8 irq)

address_halves :
    (irq : ℕ)
    → irq < 2 ^ 32
    → bit_or (u16 (bit_and irq 0xffff)) (u32 (u16 (bit_and (irq >>> 16) 0xffff) <<< 16)) ≡ irq
address_halves irq h =
    let lo : u16 (bit_and irq 0xffff) ≡ irq % 2 ^ 16 = omega (arith, bit_and-u16 irq) in
    let hi : u32 (u16 (bit_and (irq >>> 16) 0xffff) <<< 16) ≡ irq / 2 ^ 16 * 2 ^ 16 =
      omega (arith, bit_and-u16 (irq >>> 16)) in
    rw (lo, hi)
      (bit_or_comm 32 (irq % 2 ^ 16) (irq / 2 ^ 16 * 2 ^ 16) (omega arith) (omega arith)
        ∙ bit_or-disjoint 16 (irq / 2 ^ 16) (irq % 2 ^ 16) (omega arith)
        ∙ omega arith)

pub getvect-IsHandled :
    (idt : List IdtDescriptor) (n irq flags : ℕ)
    → n < 256
    → irq < 2 ^ 32
    → IsHandled idt n irq flags
    → getvect idt n ≡ some irq
unfolding getvect i86_get_ir handler_descriptor
getvect-IsHandled idt n irq flags l h e =
    let guard : ltb 256 n ≡ false = ground arith in rw (guard, e) (ap some (address_halves irq h))

-- What the calls leave for interrupt `n`: the last that names it, or what was there.
abbrev pub last_of : List (ℕ × Handler × ℕ) → Handler × ℕ → ℕ → Handler × ℕ
last_of [] before n = before
last_of ((intno, handler, flags) ∷ vs) before n =
    last_of vs (if n == intno then (handler, flags) else before) n

-- every interrupt number is in the table
abbrev pub AreVectors : List (ℕ × Handler × ℕ) → Type 0
AreVectors [] = Unit {0}
AreVectors ((intno, handler, flags) ∷ vs) = (intno < 256) × AreVectors vs

module _ (address : Handler → ℕ) (valid : (h : Handler) → 0 < address h) where
  pub setvect-IsHandled :
      (idt : List IdtDescriptor) (intno : ℕ) (handler : Handler) (flags : ℕ)
      (before : ℕ → Handler × ℕ)
      → length idt ≡ 256
      → intno < 256
      → ((n : ℕ) → n < 256 → IsHandled idt n (address (before n).0) (before n).1)
      → let after : ℕ → Handler × ℕ = λ n. if n == intno then (handler, flags) else before n in
        (t : List IdtDescriptor) × (setvect idt intno (address handler) flags ≡ some t)
        × (length t ≡ 256)
        × ((n : ℕ) → n < 256 → IsHandled t n (address (after n).0) (after n).1)
  unfolding setvect
  setvect-IsHandled idt intno handler flags before l v e =
      let d = handler_descriptor (bit_or 0x8E flags) 0x8 (address handler) in
      let one = λ (n : ℕ).
        i86_install_ir_lem idt intno (bit_or 0x8E flags) 0x8 (address handler) n l
          (valid handler) in
      (
        set idt intno d,
        ((one 0).0 v).0,
        length-set idt intno d ∙ l,
        λ n b.
            ((one n).0 v).1
            ∙ elim (Bool-cases (n == intno)) [ inl y ↦ rw y refl | inr y ↦ rw y (e n b) ],
      )

  pub set_vectors-IsHandled :
      (vs : List (ℕ × Handler × ℕ)) (idt : List IdtDescriptor) (before : ℕ → Handler × ℕ)
      → length idt ≡ 256
      → AreVectors vs
      → ((n : ℕ) → n < 256 → IsHandled idt n (address (before n).0) (before n).1)
      → (t : List IdtDescriptor) × (set_vectors address vs idt ≡ some t)
        × (length t ≡ 256)
        × ((n : ℕ)
            → n < 256
            → IsHandled t n (address (last_of vs (before n) n).0) (last_of vs (before n) n).1)
  unfolding set_vectors
  set_vectors-IsHandled [] idt before l v e = (idt, refl, l, e)
  set_vectors-IsHandled ((intno, handler, flags) ∷ vs) idt before l (v, vv) e =
      let (t1, q1, k1, f1) = setvect-IsHandled idt intno handler flags before l v e in
      let (t, q, k, f) =
        set_vectors-IsHandled vs t1 (λ n. if n == intno then (handler, flags) else before n) k1 vv
          f1 in
      (t, rw q1 q, k, f)
