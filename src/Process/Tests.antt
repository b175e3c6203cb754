-- ===== src/Process/Tests.antt =====
-- The process table at concrete inputs, and its theorems there.
use openkernel.Base.{ℕ, zero, suc, ◌-◌, ◌≡◌, refl, true, false, Option, none, some, [], ◌∷◌, arith}
use openkernel.Memory.Heap.{Heap, heap_init, heap_size, header_size}
use openkernel.Memory.Heap.Laws.{heap_init-Blocks}
use openkernel.Process.{State, ready, running, blocked, zombie, Pcb, Processes, WaitQueue}
use openkernel.Process.Wait.{process_block, process_wake, wake_loop}
use openkernel.Process.Wait.Queue.{IsQueue}
use openkernel.Process.Wait.Laws.{
  IsWaiting, Woken, AllWoken, process_block_lem, process_wake_lem, wake_loop_lem,
}
use openkernel.Process.Lifecycle.{process_create, find_free_pcb, free_loop}
use openkernel.Process.Lifecycle.Reuse.{process_create_reuses}

abbrev block_of : ℕ → State → Option ℕ → Pcb
block_of pid state next = record {
  pid = pid;
  state = state;
  esp = 0;
  ebp = 0;
  eip = 0;
  cr3 = 0;
  kernel_stack = 0;
  priority = 1;
  ticks_remaining = 1;
  next = next;
}

abbrev no_heap : Heap
no_heap = record {
  block_at = λ _. record { next = 0; size = 0; free = false };
  heap_start = 0;
  heap_end = 0;
}

-- Process 3 runs, 1 and 2 wait in this order, and 4 is ready.
abbrev slots : ℕ → Pcb
slots zero = block_of 0 ready none
slots (suc zero) = block_of 1 blocked (some 2)
slots (suc (suc zero)) = block_of 2 blocked none
slots (suc (suc (suc zero))) = block_of 3 running none
slots (suc (suc (suc (suc zero)))) = block_of 4 ready (some 4)
slots (suc (suc (suc (suc (suc i))))) = block_of 0 zombie none

abbrev four : Processes
four = record {
  pcbs = slots;
  ready_queue = some 4;
  current_process = some 3;
  next_pid = 5;
  process_count = 5;
  words = λ _. 0;
  heap = heap_init no_heap;
  switched = none;
}

abbrev two_wait : WaitQueue
two_wait = record { head = some 1; tail = some 2 }

two_wait-IsQueue : IsQueue four.pcbs two_wait (1 ∷ 2 ∷ [])
two_wait-IsQueue = record {
  head = refl;
  tail = refl;
  linked = (refl, (refl, tt));
  distinct = ((λ e. omega arith, tt), (tt, tt));
}

two_wait-IsWaiting : IsWaiting four two_wait (1 ∷ 2 ∷ [])
two_wait-IsWaiting = record {
  queue = two_wait-IsQueue;
  apart = λ q e. let four_is : 4 ≡ q = cc in ((λ h. omega arith), ((λ h. omega arith), tt));
}

process_block_lem_example :
    IsQueue (process_block two_wait four).1.pcbs (process_block two_wait four).0 (1 ∷ 2 ∷ 3 ∷ [])
process_block_lem_example =
    process_block_lem two_wait four (1 ∷ 2 ∷ []) 3 two_wait-IsQueue refl (λ e. omega arith)
      ((λ e. omega arith), ((λ e. omega arith), tt))

process_wake_lem_example :
    Woken 1 (2 ∷ []) four (process_wake two_wait four).0 (process_wake two_wait four).1
process_wake_lem_example = process_wake_lem two_wait four 1 (2 ∷ []) two_wait-IsWaiting

wake_loop_lem_example :
    (wq' : WaitQueue) × (s' : Processes) × (wake_loop 3 two_wait four ≡ some (wq', s'))
    × IsWaiting s' wq' []
    × AllWoken (1 ∷ 2 ∷ []) four s'
wake_loop_lem_example = wake_loop_lem (1 ∷ 2 ∷ []) 3 two_wait four two_wait-IsWaiting (omega arith)

process_create_reuses_example :
    (s' : Processes) × (process_create 0x1000 5 four ≡ some (5, s'))
    × ((s'.pcbs 0).state ≡ ready)
    × (find_free_pcb s' ≡ some 0)
unfolding find_free_pcb free_loop
process_create_reuses_example =
    process_create_reuses 0x1000 5 0 four
      (record { size = heap_size - header_size; free = true } ∷ []) (heap_init-Blocks no_heap)
      (omega arith) first_free
  where
    first_free : find_free_pcb four ≡ some 0
    first_free = refl
