-- ===== src/Arch/Hal/Start.antt =====
-- Which handler every interrupt has when the kernel has started.
use sea_star_os.Base.{
  ℕ, suc, ◌^◌, ◌<◌, bit_or, ◌≡◌, refl, ap, ◌∙◌, Bool, true, false, some, List, [], ◌∷◌, arith, ltb,
  ◌==◌, if◌then◌else◌, length, get_elem?, get_or,
}
use sea_star_os.Arch.Ports.{Ports}
use sea_star_os.Arch.Pic.{i86_pic_initialize}
use sea_star_os.Arch.Gdt.{GdtDescriptor, i86_gdt_initialize, i86_gdt_initialize_lem}
use sea_star_os.Arch.Pit.{Pit, i86_pit_start_counter}
use sea_star_os.Arch.Idt.{IdtDescriptor, handler_descriptor, install_default_lem}
use sea_star_os.Arch.Hal.{
  Handler, default_handler, divide_by_zero_fault, single_step_trap, nmi_trap, breakpoint_trap,
  overflow_trap, bounds_check_fault, invalid_opcode_fault, no_device_fault, double_fault_abort,
  invalid_tss_fault, no_segment_fault, stack_fault, general_protection_fault, page_fault, fpu_fault,
  alignment_check_fault, machine_check_abort, simd_fpu_fault, virtualization_exception,
  security_exception, pit_irq, keyboard_irq, floppy_irq, syscall_dispatcher, ring3, Hal, setvect,
  getvect, cleared_idt, i86_idt_initialize, i86_cpu_initialize, i86_pit_initialize, hal_initialize,
  set_vectors, fault_vectors, device_vectors,
}
use sea_star_os.Arch.Hal.Vectors.{
  IsHandled, last_of, AreVectors, setvect-IsHandled, set_vectors-IsHandled, getvect-IsHandled,
}

-- The handler of each interrupt, by number: the exceptions, then the timer, the keyboard, the floppy
-- drive and the system call.
abbrev pub handler_of : Bool → ℕ → Handler
handler_of fdd n =
    if ltb n 31
    then get_or
        (divide_by_zero_fault ∷ single_step_trap ∷ nmi_trap ∷ breakpoint_trap ∷ overflow_trap
          ∷ bounds_check_fault ∷ invalid_opcode_fault ∷ no_device_fault ∷ double_fault_abort
          ∷ default_handler ∷ invalid_tss_fault ∷ no_segment_fault ∷ stack_fault
          ∷ general_protection_fault ∷ page_fault ∷ default_handler ∷ fpu_fault
          ∷ alignment_check_fault ∷ machine_check_abort ∷ simd_fpu_fault ∷ virtualization_exception
          ∷ default_handler ∷ default_handler ∷ default_handler ∷ default_handler ∷ default_handler
          ∷ default_handler ∷ default_handler ∷ default_handler ∷ default_handler
          ∷ security_exception ∷ [])
        n default_handler
    else if n == 32
    then pit_irq
    else if n == 33
    then keyboard_irq
    else if n == 38
    then if fdd then floppy_irq else default_handler
    else if n == 0x80
    then syscall_dispatcher
    else default_handler

-- the privilege from which the interrupt can be raised
abbrev pub ring_of : ℕ → ℕ
ring_of n = if n == 0x80 then ring3 else 0

last_of-fault :
    (n : ℕ)
    → last_of fault_vectors (if n == 32 then (pit_irq, 0) else (default_handler, 0)) n
      ≡ (if ltb n 31 then handler_of false n else if n == 32 then pit_irq else default_handler, 0)
last_of-fault n = ground arith

last_of-device :
    (fdd : Bool) (n : ℕ)
    → last_of
        (device_vectors fdd)
        (last_of fault_vectors (if n == 32 then (pit_irq, 0) else (default_handler, 0)) n)
        n
      ≡ (handler_of fdd n, ring_of n)
last_of-device true n = rw (last_of-fault n) (ground arith)
last_of-device false n = rw (last_of-fault n) (ground arith)

devices-AreVectors : (fdd : Bool) → AreVectors (device_vectors fdd)
devices-AreVectors true = omega arith
devices-AreVectors false = omega arith

length-cleared_idt : (idt : List IdtDescriptor) → length (cleared_idt idt) ≡ length idt
unfolding cleared_idt
length-cleared_idt [] = refl
length-cleared_idt (d ∷ []) = refl
length-cleared_idt (d ∷ e ∷ ds) = ap suc (length-cleared_idt (e ∷ ds))

module _ (address : Handler → ℕ) (valid : (h : Handler) → 0 < address h) where
  i86_idt_initialize-IsHandled :
      (idt : List IdtDescriptor)
      → length idt ≡ 256
      → (t : List IdtDescriptor) × (i86_idt_initialize 0x8 (address default_handler) idt ≡ some t)
        × (length t ≡ 256)
        × ((n : ℕ) → n < 256 → IsHandled t n (address default_handler) 0)
  unfolding i86_idt_initialize
  i86_idt_initialize-IsHandled idt l =
      let (t, q, k, s) =
        install_default_lem 256 0 0x8 (address default_handler) (cleared_idt idt)
          (length-cleared_idt idt ∙ l) (omega arith) (valid default_handler) in
      (t, q, k, λ n b. s n ∙ ground arith)

  timer_starts :
      (p : Pit) (m : Ports) → (r : Pit × Ports) × (i86_pit_start_counter 100 0 0x6 p m ≡ some r)
  unfolding i86_pit_start_counter
  timer_starts p m = (_, refl)

  hal_initialize-steps :
      (h : Hal) (gdt : List GdtDescriptor) (idt idt' : List IdtDescriptor)
      → i86_gdt_initialize h.gdt ≡ some gdt
      → i86_idt_initialize 0x8 (address default_handler) h.idt ≡ some idt
      → setvect idt 32 (address pit_irq) 0 ≡ some idt'
      → (h' : Hal) × (hal_initialize address h ≡ some h') × (h'.idt ≡ idt')
  unfolding hal_initialize i86_cpu_initialize i86_pit_initialize
  hal_initialize-steps h gdt idt idt' g i v =
      let pit = record h.pit { pit_isinit = 1 } in
      let ports = i86_pic_initialize 0x20 0x28 h.ports in
      let ((pit', ports'), e) = timer_starts pit ports in
      let h' : Hal = record { gdt = gdt; idt = idt'; pit = pit'; ports = ports' } in
      (h', rw (g, i, v, e) refl, refl)

  -- hal_initialize, on tables of six and 256 descriptors, and then the calls of setvect for the
  -- exceptions and the devices end, and then getvect gives the handler that `handler_of` says for
  -- every interrupt: the default handler where none is set. Each is present and of 32 bits, and only
  -- the system call can be raised by the user. No handler is at address 0.
  pub kernel_vectors :
      (fdd : Bool) (h : Hal) (a b c d e f : GdtDescriptor)
      → h.gdt ≡ a ∷ b ∷ c ∷ d ∷ e ∷ f ∷ []
      → length h.idt ≡ 256
      → ((x : Handler) → address x < 2 ^ 32)
      → (h' : Hal) × (hal_initialize address h ≡ some h')
        × ((idt1 : List IdtDescriptor) × (set_vectors address fault_vectors h'.idt ≡ some idt1)
            × ((idt2 : List IdtDescriptor) × (set_vectors address (device_vectors fdd) idt1
                  ≡ some idt2)
                × ((n : ℕ)
                    → n < 256
                    → (getvect idt2 n ≡ some (address (handler_of fdd n)))
                      × (get_elem? idt2 n
                          ≡ some (
                              handler_descriptor
                                (bit_or 0x8E (ring_of n))
                                0x8
                                (address (handler_of fdd n)))))))
  kernel_vectors fdd h a b c d e f g l small =
      let (t0, q0, k0, f0) = i86_idt_initialize-IsHandled h.idt l in
      let (t1, q1, k1, f1) =
        setvect-IsHandled address valid t0 32 pit_irq 0 (λ n. (default_handler, 0)) k0 (omega arith)
          f0 in
      let (h', q, v) =
        hal_initialize-steps h _ t0 t1
          (ap i86_gdt_initialize g ∙ i86_gdt_initialize_lem a b c d e f) q0 q1 in
      let (t2, q2, k2, f2) =
        set_vectors-IsHandled address valid fault_vectors t1
          (λ n. if n == 32 then (pit_irq, 0) else (default_handler, 0)) k1 (omega arith) f1 in
      let (t3, q3, k3, f3) =
        set_vectors-IsHandled address valid (device_vectors fdd) t2
          (λ n. last_of fault_vectors (if n == 32 then (pit_irq, 0) else (default_handler, 0)) n) k2
          (devices-AreVectors fdd) f2 in
      let handled = λ (n : ℕ) (b : n < 256). rw (last_of-device fdd n) at (f3 n b) in
      (
        h',
        q,
        (
          t2,
          ap (set_vectors address fault_vectors) v ∙ q2,
          (
            t3,
            q3,
            λ n b. (
              getvect-IsHandled t3 n (address (handler_of fdd n)) (ring_of n) b
                  (small (handler_of fdd n)) (handled n b),
              handled n b,
            ),
          ),
        ),
      )
