-- ===== src/Sync/Tests.antt =====
-- The theorems on src/kernel/sync.h at two processors that want one lock.
use openkernel.Base.{false, ℕ, refl, none, some, [], ◌∷◌, arith, update}
use openkernel.Process.{State, running, blocked, Pcb, Processes}
use openkernel.Sync.{Mutex, atomic_xchg}
use openkernel.Sync.Waiting.{Locks, mutex_lock-Locks}
use openkernel.Sync.Spinlock.{
  exchanging, Machine, call_lock, run_lock, moved, Reach, here, next, start, IsExclusive,
  spinlock_lock_step, Reach-IsExclusive,
}
use openkernel.Sync.Spinlock.Progress.{GetsIn, spinlock_lock-GetsIn}

-- The first has the lock, the second has found it taken.
abbrev contended : Machine
contended =
    let one = moved 1 (exchanging, 0) start in
    let past = moved 1 (spinlock_lock_step (one.pc 1) one.locked) one in
    let two = moved 2 (exchanging, past.locked) past in
    moved 2 (spinlock_lock_step (two.pc 2) two.locked) two

contended-Reach : Reach contended
unfolding spinlock_lock_step atomic_xchg
contended-Reach =
    next (next (next (next here (call_lock 1 refl)) (run_lock 1 refl)) (call_lock 2 refl))
      (run_lock 2 refl)

Reach-IsExclusive_example : IsExclusive contended
Reach-IsExclusive_example = Reach-IsExclusive contended-Reach

spinlock_lock-GetsIn_example : GetsIn contended 2
unfolding spinlock_lock_step atomic_xchg
spinlock_lock-GetsIn_example = spinlock_lock-GetsIn 2 contended-Reach refl

abbrev process : ℕ → State → Pcb
process pid state = record {
  pid = pid;
  state = state;
  esp = 0;
  ebp = 0;
  eip = 0;
  cr3 = 0;
  kernel_stack = 0;
  priority = 1;
  ticks_remaining = 1;
  next = none;
}

-- Process 2 runs, and 1 waits for the mutex.
abbrev two_processes : Processes
two_processes = record {
  pcbs = update (update (λ _. process 0 blocked) 1 (process 1 blocked)) 2 (process 2 running);
  ready_queue = none;
  current_process = some 2;
  next_pid = 3;
  process_count = 3;
  words = λ _. 0;
  heap = record {
    block_at = λ _. record { next = 0; size = 0; free = false };
    heap_start = 0;
    heap_end = 0;
  };
  switched = none;
}

abbrev taken_mutex : Mutex
taken_mutex = record { locked = 1; waiters = record { head = some 1; tail = some 1 } }

mutex_lock-Locks_example : Locks taken_mutex two_processes (1 ∷ []) 2
mutex_lock-Locks_example =
    mutex_lock-Locks taken_mutex two_processes (1 ∷ []) 2
      (record { head = refl; tail = refl; linked = (refl, tt); distinct = (tt, tt) }) refl
      ((λ e. omega arith), tt)
