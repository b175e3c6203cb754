-- ===== src/Process.antt =====
-- The process table of src/kernel/process.c. A `pcb_t *` is the index of a slot of `pcbs`, `none`
-- for NULL.
pub mod Ready
pub mod Schedule
pub mod Wait
pub mod Lifecycle
mod Tests
use openkernel.Base.{ℕ, Option}
use openkernel.Memory.Heap.{Heap}

abbrev pub max_processes : ℕ
max_processes = 64

abbrev pub process_stack_size : ℕ
process_stack_size = 4096

-- `PROCESS_STATE_READY` to `PROCESS_STATE_ZOMBIE`
pub data State : Type 0 where
  ready running blocked zombie : State

-- `pcb_t`
pub record Pcb : Type 0 where
  pub pid : ℕ
  pub state : State
  pub esp : ℕ
  pub ebp : ℕ
  pub eip : ℕ
  pub cr3 : ℕ
  pub kernel_stack : ℕ
  pub priority : ℕ
  pub ticks_remaining : ℕ
  pub next : Option ℕ

-- The variables of the file, the words of memory that the stacks lie in, and the heap. `switched`
-- is the last call of `context_switch`, which is assembly: the two slots.
pub record Processes : Type 0 where
  pub pcbs : ℕ → Pcb
  pub ready_queue : Option ℕ
  pub current_process : Option ℕ
  pub next_pid : ℕ
  pub process_count : ℕ
  pub words : ℕ → ℕ
  pub heap : Heap
  pub switched : Option (ℕ × ℕ)

-- `wait_queue_t`
pub record WaitQueue : Type 0 where
  pub head : Option ℕ
  pub tail : Option ℕ
