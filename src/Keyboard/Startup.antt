-- ===== src/Keyboard/Startup.antt =====
-- `keyboard_init` of src/kernel/keyboard.c, over a controller that the ports reach: what a read
-- and a write of a port do to it are arguments. The lines that it prints are left out.
pub mod Ready
use Prim.Native.Nat.{bit_and, bit_or}
use openkernel.Base.{
  ℕ, zero, suc, ◌+◌, ◌%◌, ◌≡◌, refl, ◌⊎◌, inl, inr, Bool, true, false, not, Option, none, some,
  List, [], arith, ltb, ◌==◌, if◌then◌else◌, update, update_self,
}
use openkernel.Base.Bits.{bit}
use openkernel.Interrupts.{Interrupts, idt_register_handler}
use openkernel.Keyboard.{Keyboard}
use openkernel.Keyboard.Events.{any_bit, clear_bits}
use openkernel.Keyboard.Ring.{pending, IsRing}

-- Bits 0 and 6 are set and bit 1 is cleared in the command byte that was read.
unfoldable pub updated_ccb : ℕ → ℕ
updated_ccb ccb = clear_bits (bit_or (bit_or ccb 0x01) 0x40) 0x02

module _ {S : Type 0} (inb : ℕ → S → ℕ × S) where
  -- `while (timeout-- && (io_inb(KEYBOARD_STATUS_PORT) & 0x01)) io_inb(KEYBOARD_DATA_PORT);`
  unfoldable pub drain : ℕ → S → S
  drain zero s = s
  drain (suc timeout) s =
      let (status, polled) = inb 0x64 s in
      elim (any_bit status 0x01) [ true ↦ drain timeout (inb 0x60 polled).1 | false ↦ polled ]

  -- `while (timeout-- && waits(io_inb(KEYBOARD_STATUS_PORT)));` with the value of `timeout` after
  -- it, where none is the -1 of a loop that ran out.
  unfoldable pub wait_while : (ℕ → Bool) → ℕ → S → Option ℕ × S
  wait_while waits zero s = (none, s)
  wait_while waits (suc timeout) s =
      let (status, polled) = inb 0x64 s in
      elim (waits status) [
        | true ↦ wait_while waits timeout polled
        | false ↦ (some timeout, polled)
      ]

  -- The controller has not taken the last byte yet.
  unfoldable pub wait_input : S → S
  wait_input s = (wait_while (λ status. any_bit status 0x02) 5000 s).1

  -- The controller has no byte to read yet.
  unfoldable pub wait_output : ℕ → S → Option ℕ × S
  wait_output timeout s = wait_while (λ status. not (any_bit status 0x01)) timeout s

module _ {S : Type 0} (inb : ℕ → S → ℕ × S) (outb : ℕ → ℕ → S → S) where
  -- Steps 1 to 3: the command byte is read, changed and written back.
  unfoldable pub configure : S → S
  configure s =
      let enabled = outb 0x64 0xAE (drain inb 1000 s) in
      let asked = outb 0x64 0x20 (wait_input inb enabled) in
      let (old, answered) = inb 0x60 (wait_output inb 5000 asked).1 in
      outb 0x60 (updated_ccb old) (wait_input inb (outb 0x64 0x60 (wait_input inb answered)))

  -- `if (timeout > 0)` after the wait for the answer, which is read only where time is left.
  unfoldable pub read_answer : Option ℕ × S → S
  read_answer (none, s) = s
  read_answer (some timeout, s) = if ltb 0 timeout then (inb 0x60 s).1 else s

  -- Step 4: the command 0xF4 and the answer to it.
  unfoldable pub enable_scanning : S → S
  enable_scanning s = read_answer (wait_output inb 10000 (outb 0x60 0xF4 (wait_input inb s)))

  -- `handler` is the address of `keyboard_irq_handler`.
  unfoldable pub keyboard_init : ℕ → Interrupts → Keyboard → S → S × (Interrupts × Keyboard)
  keyboard_init handler interrupts kb s = (
    drain inb 5000 (enable_scanning (configure s)),
    (
      idt_register_handler 1 handler interrupts,
      record kb { keybuf_head = 0; keybuf_tail = 0; modifiers = 0 },
    ),
  )
