-- ===== src/Arch/Tss.antt =====
-- Arch/x86/Hal/tss.c and tss.h: the state segment of the task.
--
-- `base` is the address of the segment, and a descriptor written past the table is `none`.
use sea_star_os.Base.{ℕ, ◌+◌, Option, some, List, and_then, u16}
use sea_star_os.Arch.Gdt.{GdtDescriptor, gdt_set_descriptor}

pub record Tss : Type 0 where
  pub prev_tss : ℕ
  pub esp0 : ℕ
  pub ss0 : ℕ
  pub esp1 : ℕ
  pub ss1 : ℕ
  pub esp2 : ℕ
  pub ss2 : ℕ
  pub cr3 : ℕ
  pub eip : ℕ
  pub eflags : ℕ
  pub eax : ℕ
  pub ecx : ℕ
  pub edx : ℕ
  pub ebx : ℕ
  pub esp : ℕ
  pub ebp : ℕ
  pub esi : ℕ
  pub edi : ℕ
  pub es : ℕ
  pub cs : ℕ
  pub ss : ℕ
  pub ds : ℕ
  pub fs : ℕ
  pub gs : ℕ
  pub ldt : ℕ
  pub trap : ℕ
  pub iomap : ℕ

-- `memset(&TSS, 0, sizeof(tss_entry))`
abbrev pub cleared_tss : Tss
cleared_tss = record {
  prev_tss = 0;
  esp0 = 0;
  ss0 = 0;
  esp1 = 0;
  ss1 = 0;
  esp2 = 0;
  ss2 = 0;
  cr3 = 0;
  eip = 0;
  eflags = 0;
  eax = 0;
  ecx = 0;
  edx = 0;
  ebx = 0;
  esp = 0;
  ebp = 0;
  esi = 0;
  edi = 0;
  es = 0;
  cs = 0;
  ss = 0;
  ds = 0;
  fs = 0;
  gs = 0;
  ldt = 0;
  trap = 0;
  iomap = 0;
}

abbrev pub sizeof_tss_entry : ℕ
sizeof_tss_entry = 104

-- Both arguments are 16 bits wide.
unfoldable pub tss_set_stack : Tss → ℕ → ℕ → Tss
tss_set_stack tss kernel_ss kernel_esp = record tss { ss0 = u16 kernel_ss; esp0 = u16 kernel_esp }

unfoldable pub install_tss : List GdtDescriptor → ℕ → ℕ → ℕ → ℕ → Option (List GdtDescriptor × Tss)
install_tss gdt base idx kernel_ss kernel_esp =
    and_then (gdt_set_descriptor gdt idx base (base + sizeof_tss_entry) 0xE9 0) λ gdt'. some (
      gdt',
      record cleared_tss {
        ss0 = u16 kernel_ss;
        esp0 = u16 kernel_esp;
        cs = 0x0b;
        ss = 0x13;
        es = 0x13;
        ds = 0x13;
        fs = 0x13;
        gs = 0x13;
      },
    )
