-- ===== src/Timer.antt =====
-- The timer of src/kernel/timer.c. `tick_count` stands beside the process table, which the interrupt
-- handler hands to the scheduler; the animation of the status line is left out.
pub mod Preempt
mod Tests
use Prim.Native.Nat.{bit_and}
use openkernel.Base.{ℕ, zero, suc, ◌+◌, ◌*◌, ◌/◌, ◌%◌, ◌^◌, List, [], ◌∷◌, ◌==◌, if◌then◌else◌}
use openkernel.Process.{Processes}
use openkernel.Process.Schedule.{scheduler_schedule}
use openkernel.Interrupts.{Interrupts, Effect, outb, idt_register_handler}

abbrev pub tick_hz : ℕ
tick_hz = 100

unfoldable pub timer_irq_handler : ℕ × Processes → ℕ × Processes
timer_irq_handler (tick_count, s) =
    let now = (tick_count + 1) % 2 ^ 32 in (now, if now % 10 == 0 then scheduler_schedule s else s)

-- The divisor of the 1.193182 MHz clock.
unfoldable pub timer_divisor : ℕ → ℕ
timer_divisor frequency = 1193182 / (if frequency == 0 then tick_hz else frequency)

-- `handler` is the address of `timer_irq_handler`.
unfoldable pub timer_init : ℕ → ℕ → Interrupts → Interrupts × List Effect
timer_init handler frequency s =
    let divisor = timer_divisor frequency in
    (
      idt_register_handler 0 handler s,
      outb 0x43 0x36
          ∷ outb 0x40 (bit_and divisor 0xff)
          ∷ outb 0x40 (bit_and (divisor / 2 ^ 8) 0xff)
          ∷ [],
    )

unfoldable pub timer_get_ticks : ℕ × Processes → ℕ
timer_get_ticks (tick_count, s) = tick_count

-- The tick count that `timer_sleep` waits for.
unfoldable pub sleep_target : ℕ → ℕ → ℕ
sleep_target ms tick_count =
    let per_ms = if tick_hz / 1000 == 0 then 1 else tick_hz / 1000 in
    (tick_count + ms * per_ms % 2 ^ 32 / 1000 + 1) % 2 ^ 32
