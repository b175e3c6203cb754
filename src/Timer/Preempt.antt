-- ===== src/Timer/Preempt.antt =====
-- How often the timer interrupt gives way to the scheduler.
use openkernel.Base.{
  ℕ, zero, suc, ◌+◌, ◌-◌, ◌%◌, ◌^◌, ◌≤◌, ◌<◌, ◌≡◌, ◌≢◌, refl, ap, ◌∙◌, inl, inr, Bool-cases, false,
  ltb, ◌==◌, arith,
}
use openkernel.Process.{Processes}
use openkernel.Process.Schedule.{scheduler_schedule}
use openkernel.Timer.{timer_irq_handler}

-- `k` timer interrupts.
abbrev pub ticks : ℕ → ℕ × Processes → ℕ × Processes
ticks zero x = x
ticks (suc k) x = timer_irq_handler (ticks k x)

-- Interrupts that call no scheduler.
quiet :
    (k t : ℕ) (s : Processes)
    → t < 2 ^ 32
    → ((i : ℕ) → i < k → (t + suc i) % 2 ^ 32 % 10 ≢ 0)
    → ticks k (t, s) ≡ ((t + k) % 2 ^ 32, s)
unfolding timer_irq_handler
quiet zero t s h none_due = ap (λ n. (n, s)) (omega arith)
quiet (suc k) t s h none_due =
    let before = quiet k t s h (λ i lt. none_due i (omega arith)) in
    let now : ((t + k) % 2 ^ 32 + 1) % 2 ^ 32 ≡ (t + suc k) % 2 ^ 32 = omega arith in
    let not_due : ((t + suc k) % 2 ^ 32 % 10 == 0) ≡ false = ground (arith, none_due k) in
    ap timer_irq_handler before ∙ rw (now, not_due) refl

due :
    (d t : ℕ) (s : Processes)
    → t < 2 ^ 32
    → d < 10
    → ((i : ℕ) → i < d → (t + suc i) % 2 ^ 32 % 10 ≢ 0)
    → (t + suc d) % 2 ^ 32 % 10 ≡ 0
    → (k : ℕ) × (k < 10)
      × (ticks k (t, s) ≡ ((t + k) % 2 ^ 32, s))
      × (ticks (suc k) (t, s) ≡ ((t + suc k) % 2 ^ 32, scheduler_schedule s))
unfolding timer_irq_handler
due d t s h small before at =
    let run = quiet d t s h before in
    let now : ((t + d) % 2 ^ 32 + 1) % 2 ^ 32 ≡ (t + suc d) % 2 ^ 32 = omega arith in
    (d, small, run, ap timer_irq_handler run ∙ rw (now, at) refl)

-- Whatever the tick count of 32 bits, also where it wraps around: of the next ten timer interrupts one calls
-- the scheduler, and the interrupts before it leave the processes alone.
pub preempted_within_ten :
    (t : ℕ) (s : Processes)
    → t < 2 ^ 32
    → (k : ℕ) × (k < 10)
      × (ticks k (t, s) ≡ ((t + k) % 2 ^ 32, s))
      × (ticks (suc k) (t, s) ≡ ((t + suc k) % 2 ^ 32, scheduler_schedule s))
preempted_within_ten t s h = elim (Bool-cases (ltb t 4294967290)) [
  | inl e ↦
      let low : t < 4294967290 = ground arith in
      due (9 - t % 10) t s h (omega arith) (λ i lt z. omega arith) (omega arith)
  | inr e ↦
      let high : 4294967290 ≤ t = ground arith in
      due (4294967295 - t) t s h (omega arith) (λ i lt z. omega arith) (omega arith)
]
