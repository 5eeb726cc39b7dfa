-- ===== src/Kernel/Elf.antt =====
-- Kernel/elf32.c: the checks of an ELF file in memory.
--
-- A message that is printed is a constructor; `elf` is the address of the file, and the halfwords of
-- the header are little endian.
use sea_star_os.Base.{
  ℕ, ◌+◌, ◌*◌, ◌^◌, ◌<◌, ◌≡◌, refl, sym, ap, ◌∙◌, ◌↔◌, ◌⊎◌, inl, inr, not, ◌&&◌, List, [], ◌∷◌,
  ◌++◌, arith, ◌==◌, if◌then◌else◌,
}
use sea_star_os.CLib.Strings.{Memory}

pub data Message : Type 0 where
  mag0_incorrect : Message
  mag1_incorrect : Message
  mag2_incorrect : Message
  mag3_incorrect : Message
  invalid_elf_file : Message
  unsupported_class : Message
  unsupported_byte_order : Message
  unsupported_target : Message
  unsupported_version : Message
  unsupported_type : Message

unfoldable pub half_at : Memory → ℕ → ℕ
half_at mem a = mem a + mem (a + 1) * 2 ^ 8

pub elf_check_header : Memory → ℕ → ℕ × List Message
elf_check_header mem hdr =
    if hdr == 0
    then (0, [])
    else if not (mem hdr == 0x7F)
    then (0, mag0_incorrect ∷ [])
    else if not (mem (hdr + 1) == b'E')
    then (0, mag1_incorrect ∷ [])
    else if not (mem (hdr + 2) == b'L')
    then (0, mag2_incorrect ∷ [])
    else if not (mem (hdr + 3) == b'F')
    then (0, mag3_incorrect ∷ [])
    else (1, [])

-- the checks behind the header's
pub check_target : Memory → ℕ → ℕ × List Message
check_target mem elf =
    if not (mem (elf + 4) == 1)
    then (0, unsupported_class ∷ [])
    else if not (mem (elf + 5) == 1)
    then (0, unsupported_byte_order ∷ [])
    else if not (half_at mem (elf + 18) == 3)
    then (0, unsupported_target ∷ [])
    else if not (mem (elf + 6) == 1)
    then (0, unsupported_version ∷ [])
    else if not (half_at mem (elf + 16) == 1) && not (half_at mem (elf + 16) == 2)
    then (0, unsupported_type ∷ [])
    else (1, [])

pub elf_check_support : Memory → ℕ → ℕ × List Message
elf_check_support mem elf =
    let (valid, messages) = elf_check_header mem elf in
    if valid == 0 then (0, messages ++ (invalid_elf_file ∷ [])) else check_target mem elf

-- an ELF file for this machine, as the specification of the format lays it out
pub record IsSupportedElf (mem : Memory) (elf : ℕ) : Type 0 where
  pub present : 0 < elf
  pub magic :
      (mem elf ≡ 0x7F) × (mem (elf + 1) ≡ b'E') × (mem (elf + 2) ≡ b'L') × (mem (elf + 3) ≡ b'F')
  pub class_32 : mem (elf + 4) ≡ 1
  pub lsb_first : mem (elf + 5) ≡ 1
  pub current : mem (elf + 6) ≡ 1
  pub kind : (half_at mem (elf + 16) ≡ 1) ⊎ (half_at mem (elf + 16) ≡ 2)
  pub machine_386 : half_at mem (elf + 18) ≡ 3

elf_check_header_iff :
    (mem : Memory) (elf : ℕ)
    → ((elf_check_header mem elf).0 ≡ 1) ↔ (
        (0 < elf)
        × (mem elf ≡ 0x7F)
        × (mem (elf + 1) ≡ b'E')
        × (mem (elf + 2) ≡ b'L')
        × (mem (elf + 3) ≡ b'F'))
unfolding elf_check_header
elf_check_header_iff mem elf = (λ e. ground arith, λ e. ground arith)

check_target_iff :
    (mem : Memory) (elf : ℕ)
    → ((check_target mem elf).0 ≡ 1) ↔ (
        (mem (elf + 4) ≡ 1)
        × (mem (elf + 5) ≡ 1)
        × (mem (elf + 6) ≡ 1)
        × ((half_at mem (elf + 16) ≡ 1) ⊎ (half_at mem (elf + 16) ≡ 2))
        × (half_at mem (elf + 18) ≡ 3))
unfolding check_target
check_target_iff mem elf = (λ e. ground arith, λ e. ground arith)

elf_check_header-cases :
    (mem : Memory) (elf : ℕ)
    → ((elf_check_header mem elf).0 ≡ 0) ⊎ ((elf_check_header mem elf).0 ≡ 1)
unfolding elf_check_header
elf_check_header-cases mem elf = ground arith

support-header :
    (mem : Memory) (elf : ℕ) → (elf_check_header mem elf).0 ≡ 0 → (elf_check_support mem elf).0 ≡ 0
unfolding elf_check_support
support-header mem elf e = rw e refl

support-target :
    (mem : Memory) (elf : ℕ)
    → (elf_check_header mem elf).0 ≡ 1
    → elf_check_support mem elf ≡ check_target mem elf
unfolding elf_check_support
support-target mem elf e = rw e refl

elf_check_support_both :
    (mem : Memory) (elf : ℕ)
    → ((elf_check_support mem elf).0 ≡ 1)
      ↔ (((elf_check_header mem elf).0 ≡ 1) × ((check_target mem elf).0 ≡ 1))
elf_check_support_both mem elf = elim (elf_check_header-cases mem elf) [
  | inl e ↦
      (λ d. absurd (ground (arith, support-header mem elf e)), λ (h, t). absurd (ground arith))
  | inr e ↦
      (let s = support-target mem elf e in
        (λ d. (e, ap (λ r. r.0) (sym s) ∙ d), λ (h, t). ap (λ r. r.0) s ∙ t))
]

-- elf_check_support accepts exactly the 32-bit little endian relocatable or executable files of the
-- 386.
pub elf_check_support_iff :
    (mem : Memory) (elf : ℕ) → ((elf_check_support mem elf).0 ≡ 1) ↔ IsSupportedElf mem elf
elf_check_support_iff mem elf =
    let b = elf_check_support_both mem elf in
    let h = elf_check_header_iff mem elf in
    let t = check_target_iff mem elf in
    (
      λ e.
          (let (p, q) = b.0 e in
            let (p0, p1, p2, p3, p4) = h.0 p in
            let (q0, q1, q2, q3, q4) = t.0 q in
            record {
              present = p0;
              magic = (p1, p2, p3, p4);
              class_32 = q0;
              lsb_first = q1;
              current = q2;
              kind = q3;
              machine_386 = q4;
            }),
      λ v. b.1 (
        h.1 (v.present, v.magic.0, v.magic.1, v.magic.2, v.magic.3),
        t.1 (v.class_32, v.lsb_first, v.current, v.kind, v.machine_386),
      ),
    )
