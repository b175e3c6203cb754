-- ===== src/Timer/Tests.antt =====
-- The timer at concrete inputs.
use openkernel.Base.{ℕ, suc, none, false, ◌+◌, ◌%◌, ◌^◌, ◌<◌, ◌≡◌, refl, arith}
use openkernel.Process.{State, Processes}
use openkernel.Process.Schedule.{scheduler_schedule}
use openkernel.Timer.{sleep_target, timer_divisor}
use openkernel.Timer.Preempt.{ticks, preempted_within_ten}

abbrev nobody : Processes
nobody = record {
  pcbs = λ _. record {
    pid = 0;
    state = State.ready;
    esp = 0;
    ebp = 0;
    eip = 0;
    cr3 = 0;
    kernel_stack = 0;
    priority = 0;
    ticks_remaining = 0;
    next = none;
  };
  ready_queue = none;
  current_process = none;
  next_pid = 1;
  process_count = 0;
  words = λ _. 0;
  heap = record {
    block_at = λ _. record { next = 0; size = 0; free = false };
    heap_start = 0;
    heap_end = 0;
  };
  switched = none;
}

-- A second's sleep ends after two ticks, which are 20 ms.
sleep_second : sleep_target 1000 7 ≡ 9
unfolding sleep_target
sleep_second = refl

-- The divisor for 18 Hz is beyond the two bytes that the clock takes.
slow_divisor : timer_divisor 18 ≡ 66287
unfolding timer_divisor
slow_divisor = refl

preempted_within_ten_example :
    (k : ℕ) × (k < 10)
    × (ticks k (4294967293, nobody) ≡ ((4294967293 + k) % 2 ^ 32, nobody))
    × (ticks (suc k) (4294967293, nobody)
        ≡ ((4294967293 + suc k) % 2 ^ 32, scheduler_schedule nobody))
preempted_within_ten_example = preempted_within_ten 4294967293 nobody (omega arith)
