-- ===== src/Process/Lifecycle.antt =====
-- How a process begins and ends in src/kernel/process.c. An entry point is its address.
pub mod Reuse
use openkernel.Base.{
  ℕ, zero, suc, ◌+◌, ◌-◌, ◌%◌, ◌^◌, Bool, true, false, ◌||◌, Option, none, some, ltb, leb, ◌==◌,
  if◌then◌else◌, update,
}
use openkernel.Memory.Heap.{Heap, kmalloc, kfree}
use openkernel.Process.{
  State, ready, running, blocked, zombie, Pcb, Processes, max_processes, process_stack_size,
}
use openkernel.Process.Schedule.{is_ready, scheduler_add_process, scheduler_remove_process}

abbrev pub is_zombie : State → Bool
is_zombie zombie = true
is_zombie ready = false
is_zombie running = false
is_zombie blocked = false

-- the five words of the first context switch, below the top of the stack
abbrev pub initial_stack : ℕ → ℕ → (ℕ → ℕ) → ℕ → ℕ
initial_stack top entry words =
    update
      (update (update (update (update words (top - 4) entry) (top - 8) 0) (top - 12) 0) (top - 16)
        0)
      (top - 20) 0

-- The control block and the stack of a new process; `stack` is 0 if there is no memory.
abbrev pub pcb_with_stack : ℕ → ℕ → ℕ → ℕ → ℕ → Heap → Processes → Processes
pcb_with_stack i pid entry priority stack h s =
    let top = stack + process_stack_size in
    let esp = if stack == 0 then 0 else top - 20 in
    record s {
      pcbs = update s.pcbs i (record {
        pid = pid;
        state = ready;
        esp = esp;
        ebp = esp;
        eip = entry;
        cr3 = 0;
        kernel_stack = stack;
        priority = priority;
        ticks_remaining = priority;
        next = none;
      });
      words = if stack == 0 then s.words else initial_stack top entry s.words;
      heap = h;
    }

-- `none` if the block list of the heap does not end.
unfoldable pub pcb_init : ℕ → ℕ → ℕ → ℕ → Processes → Option Processes
pcb_init i pid entry priority s = elim (kmalloc process_stack_size s.heap) [
  | none ↦ none
  | some (stack, h) ↦ some (pcb_with_stack i pid entry priority stack h s)
]

-- A slot is taken for free if its state is ZOMBIE or 0, which is READY.
unfoldable pub free_loop : ℕ → ℕ → (ℕ → Pcb) → Option ℕ
free_loop zero i pcbs = none
free_loop (suc k) i pcbs =
    let rest = free_loop k (i + 1) pcbs in
    if is_zombie (pcbs i).state || is_ready (pcbs i).state then some i else rest

unfoldable pub find_free_pcb : Processes → Option ℕ
find_free_pcb s = free_loop max_processes 0 s.pcbs

-- The new process goes to the ready queue.
abbrev pub enter_process : ℕ → Processes → Processes
enter_process i s =
    let queued =
      scheduler_add_process (some i) (record s { next_pid = (s.next_pid + 1) % 2 ^ 32 }) in
    record queued { process_count = queued.process_count + 1 }

-- The new PID, 0 for a failure.
unfoldable pub process_create : ℕ → ℕ → Processes → Option (ℕ × Processes)
process_create entry priority s =
    if leb max_processes s.process_count then some (0, s) else elim (find_free_pcb s) [
      | none ↦ some (0, s)
      | some i ↦ elim (pcb_init i s.next_pid entry priority s) [
        | none ↦ none
        | some r ↦ some (s.next_pid, enter_process i r)
      ]
    ]

-- `none` is a slot outside the array, or a ready queue that is broken.
unfoldable pub process_terminate : ℕ → Processes → Option Processes
process_terminate pid s =
    let removed = scheduler_remove_process pid s in
    if pid == 0
    then some s
    else if leb s.next_pid pid
    then some s
    else if leb max_processes pid
    then none
    else if is_zombie (s.pcbs pid).state
    then some s
    else elim removed [
      | none ↦ none
      | some r ↦
          let n = r.pcbs pid in
          some (record r {
            pcbs = update r.pcbs pid (record n { kernel_stack = 0; state = zombie });
            heap = if n.kernel_stack == 0 then r.heap else kfree n.kernel_stack r.heap;
            process_count = (r.process_count + 2 ^ 32 - 1) % 2 ^ 32;
          })
    ]

-- the first stack that can be had, of 4096, 1024 or 256 bytes
unfoldable pub idle_stack : Heap → Option (ℕ × Heap)
idle_stack h = elim (kmalloc process_stack_size h) [
  | none ↦ none
  | some (p, h1) ↦
      if p == 0
      then elim (kmalloc 1024 h1) [
        | none ↦ none
        | some (q, h2) ↦ if q == 0 then kmalloc 256 h2 else some (q, h2)
      ]
      else some (p, h1)
]

unfoldable pub process_init : Processes → Option Processes
process_init s =
    let cleared : ℕ → Pcb = λ i.
      if ltb i max_processes
      then record (s.pcbs i) { state = zombie; pid = 0; next = none }
      else s.pcbs i in
    let idle = record (cleared 0) { state = running; priority = 0; ticks_remaining = 1 } in
    elim (idle_stack s.heap) [
      | none ↦ none
      | some (p, h) ↦
          let r = record s {
            pcbs = update cleared 0 (record idle { kernel_stack = p });
            current_process = some 0;
            heap = h;
          } in
          some (if p == 0 then r else record r { process_count = 1; next_pid = 1 })
    ]
