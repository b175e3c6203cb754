-- ===== src/Interrupts/Tests.antt =====
-- The interrupt tables at concrete inputs, and their theorem there.
use openkernel.Base.{ℕ, ◌+◌, ◌*◌, ◌%◌, ◌^◌, ◌≡◌, refl, true, [], ◌∷◌, arith}
use openkernel.Interrupts.{
  Interrupts, isr_install_all, idt_init, idt_register_handler, irq_handler, pic_send_eoi, outb,
  call,
}
use openkernel.Interrupts.Install.{view, isr_install_all_lem}

abbrev off : Interrupts
off = record {
  entries = λ _. record { base_low = 0; selector = 0; always0 = 0; flags = 0; base_high = 0 };
  limit = 0;
  base = 0;
  irq_handlers = λ _. 0;
}

-- A stub for each number.
abbrev stub : ℕ → ℕ
stub n = (0x100000 + n * 16) % 2 ^ 32

-- Both chips hear of the interrupt before the handler of line 9 runs.
second_chip :
    irq_handler 41 true 0 (idt_register_handler 9 0x5000 off)
    ≡ outb 0xa0 0x20 ∷ outb 0x20 0x20 ∷ call 0x5000 ∷ []
unfolding irq_handler idt_register_handler pic_send_eoi
second_chip = refl

isr_install_all_lem_example :
    view ((isr_install_all stub stub (idt_init 0x9000 off).0).entries 33) ≡ (stub 1, 8, 0x8e)
isr_install_all_lem_example =
    isr_install_all_lem stub stub 0x9000 off 33 (λ j. omega arith) (λ j. omega arith) (omega arith)
