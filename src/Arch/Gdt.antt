-- ===== src/Arch/Gdt.antt =====
-- Arch/x86/Hal/gdt.c and gdt.h: the descriptors of the segments.
--
-- The table is a list of 6 descriptors; a write past it, which C leaves undefined, is `none`.
use sea_star_os.Base.{
  ℕ, ◌+◌, ◌*◌, ◌^◌, ◌<◌, bit_and, bit_or, ◌≡◌, refl, ◌↔◌, Bool, Option, none, some, List, [], ◌∷◌,
  arith, and_then, ltb, ◌==◌, if◌then◌else◌, u8, u16, ◌>>>◌, length, set, bit_and-u8, bit_and-u16,
  all_below, all_below_sound,
}

pub record GdtDescriptor : Type 0 where
  pub limit : ℕ
  pub base_lo : ℕ
  pub base_mid : ℕ
  pub flags : ℕ
  pub gran : ℕ
  pub base_hi : ℕ

abbrev pub max_descriptors : ℕ
max_descriptors = 6

pub descriptor : ℕ → ℕ → ℕ → ℕ → GdtDescriptor
descriptor base limit access granularity = record {
  limit = u16 (bit_and limit 0xffff);
  base_lo = u16 (bit_and base 0xffff);
  base_mid = u8 (bit_and (base >>> 16) 0xff);
  flags = access;
  gran = u8 (bit_or (u8 (bit_and (limit >>> 16) 0x0f)) (bit_and granularity 0xf0));
  base_hi = u8 (bit_and (base >>> 24) 0xff);
}

pub gdt_set_descriptor : List GdtDescriptor → ℕ → ℕ → ℕ → ℕ → ℕ → Option (List GdtDescriptor)
gdt_set_descriptor gdt i base limit access granularity =
    if ltb max_descriptors i
    then some gdt
    else if ltb i (length gdt)
    then some (set gdt i (descriptor base limit access granularity))
    else none

-- a pointer into the table is an index; `none` is NULL
unfoldable pub i86_gdt_get_descriptor : ℕ → Option ℕ
i86_gdt_get_descriptor i = if ltb max_descriptors i then none else some i

-- the five descriptors, one after the other; the table's register is loaded by the processor
pub i86_gdt_initialize : List GdtDescriptor → Option (List GdtDescriptor)
i86_gdt_initialize gdt = and_then (gdt_set_descriptor gdt 0 0 0 0 0) λ gdt0.
    and_then (gdt_set_descriptor gdt0 1 0 0xffffffff 0x9A 0xCF) λ gdt1.
      and_then (gdt_set_descriptor gdt1 2 0 0xffffffff 0x92 0xCF) λ gdt2.
        and_then (gdt_set_descriptor gdt2 3 0 0xffffffff 0xFA 0xCF)
          λ gdt3. gdt_set_descriptor gdt3 4 0 0xffffffff 0xF2 0xCF

-- the base, the limit and the granularity that the processor reads
abbrev pub base_of : GdtDescriptor → ℕ
base_of g = g.base_lo + g.base_mid * 2 ^ 16 + g.base_hi * 2 ^ 24

abbrev pub limit_of : GdtDescriptor → ℕ
limit_of g = g.limit + bit_and g.gran 0xf * 2 ^ 16

gran_limit :
    (hi granularity : ℕ)
    → hi < 16
    → granularity < 256
    → bit_and (u8 (bit_or (u8 (bit_and hi 0x0f)) (bit_and granularity 0xf0))) 0xf ≡ hi
unfolding all_below
gran_limit hi granularity h g =
    let same : ℕ → ℕ → Bool =
      λ x y. bit_and (u8 (bit_or (u8 (bit_and x 0x0f)) (bit_and y 0xf0))) 0xf == x in
    let row = all_below_sound 16 (λ x. all_below 256 (same x)) hi refl h in
    let p = all_below_sound 256 (same hi) granularity row g in ground arith

-- The base, the limit and the access byte come back from a descriptor, for a base of 32 bits, a
-- limit of 20 bits and a granularity of 8 bits.
pub descriptor_lem :
    (base limit access granularity : ℕ)
    → base < 2 ^ 32
    → limit < 2 ^ 20
    → granularity < 256
    → (base_of (descriptor base limit access granularity) ≡ base)
      × (limit_of (descriptor base limit access granularity) ≡ limit)
      × ((descriptor base limit access granularity).flags ≡ access)
unfolding descriptor
descriptor_lem base limit access granularity hb hl hg = (
  omega (arith, bit_and-u16 base, bit_and-u8 (base >>> 16), bit_and-u8 (base >>> 24)),
  omega (arith, bit_and-u16 limit, gran_limit (limit >>> 16) granularity (omega arith) hg),
  refl,
)

-- On a table of 6 descriptors, the write of a descriptor is out of bounds exactly for slot 6: the
-- guard turns every later slot away, and lets this one through.
pub gdt_set_descriptor_bounds :
    (gdt : List GdtDescriptor) (i base limit access granularity : ℕ)
    → length gdt ≡ 6
    → (gdt_set_descriptor gdt i base limit access granularity ≡ none) ↔ (i ≡ 6)
unfolding gdt_set_descriptor
gdt_set_descriptor_bounds gdt i base limit access granularity l =
    (λ e. ground arith, λ e. ground arith)

-- the code and data segments of the kernel and of the user, all of 4 GB from 0 on
abbrev flat : ℕ → GdtDescriptor
flat access = descriptor 0 0xffffffff access 0xCF

-- The start fills the first five of the six descriptors and keeps the last one.
pub i86_gdt_initialize_lem :
    (a b c d e f : GdtDescriptor)
    → i86_gdt_initialize (a ∷ b ∷ c ∷ d ∷ e ∷ f ∷ [])
      ≡ some (descriptor 0 0 0 0 ∷ flat 0x9A ∷ flat 0x92 ∷ flat 0xFA ∷ flat 0xF2 ∷ f ∷ [])
unfolding i86_gdt_initialize gdt_set_descriptor
i86_gdt_initialize_lem a b c d e f = refl
