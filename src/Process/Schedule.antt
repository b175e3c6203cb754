-- ===== src/Process/Schedule.antt =====
-- The round-robin scheduler of src/kernel/process.c.
use openkernel.Base.{ℕ, Bool, true, false, Option, none, some, leb, ◌==◌, if◌then◌else◌, update}
use openkernel.Process.{State, ready, running, blocked, zombie, Processes, max_processes}
use openkernel.Process.Ready.{set_state, points_to, add_to_ready_queue, remove_from_ready_queue}

abbrev pub is_ready : State → Bool
is_ready ready = true
is_ready running = false
is_ready blocked = false
is_ready zombie = false

abbrev pub is_running : State → Bool
is_running running = true
is_running ready = false
is_running blocked = false
is_running zombie = false

-- `none` is a NULL argument.
unfoldable pub scheduler_add_process : Option ℕ → Processes → Processes
scheduler_add_process none s = s
scheduler_add_process (some pcb) s = add_to_ready_queue pcb s

unfoldable pub scheduler_remove_process : ℕ → Processes → Option Processes
scheduler_remove_process pid s =
    let removed = remove_from_ready_queue pid s in
    if leb max_processes pid
    then some s
    else if is_ready (s.pcbs pid).state
    then removed
    else some s

-- The process taken from the ready queue, or the idle process.
unfoldable pub pop_next : Processes → Processes
pop_next s = elim s.ready_queue [
  | none ↦ record s { current_process = some 0 }
  | some q ↦
      let after = (s.pcbs q).next in
      record s { current_process = some q; ready_queue = if points_to after q then none else after }
]

-- The process that ran goes back to the queue, and the next one starts.
unfoldable pub start_next : ℕ → ℕ → Processes → Processes
start_next prev current s =
    let requeued =
      if is_running (s.pcbs prev).state
      then add_to_ready_queue prev (set_state prev ready s)
      else s in
    let n = requeued.pcbs current in
    let started = record requeued {
      pcbs =
          update requeued.pcbs current (record n { state = running; ticks_remaining = n.priority });
    } in
    if prev == current then started else record started { switched = some (prev, current) }

unfoldable pub scheduler_schedule : Processes → Processes
scheduler_schedule s = elim s.current_process [
  | none ↦ s
  | some prev ↦ if s.process_count == 0 then s else elim s.ready_queue [
    | none ↦ if (s.pcbs prev).pid == 0 then s else start_next prev 0 (pop_next s)
    | some q ↦ start_next prev q (pop_next s)
  ]
]

-- `none` is a read through a NULL `current_process`.
unfoldable pub process_yield : Processes → Option Processes
process_yield s = elim s.current_process [
  | none ↦ none
  | some c ↦
      if (s.pcbs c).pid == 0
      then some s
      else some (scheduler_schedule (add_to_ready_queue c (set_state c ready s)))
]

unfoldable pub process_get_current_pid : Processes → ℕ
process_get_current_pid s = elim s.current_process [ none ↦ 0 | some c ↦ (s.pcbs c).pid ]

unfoldable pub process_get_current_pcb : Processes → Option ℕ
process_get_current_pcb s = s.current_process
