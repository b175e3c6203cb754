-- ===== src/Process/Wait.antt =====
-- The wait queues of src/kernel/process.c.
pub mod Queue
pub mod Laws
use openkernel.Base.{ℕ, zero, suc, Option, none, some, ◌==◌, if◌then◌else◌}
use openkernel.Process.{ready, blocked, Processes, WaitQueue}
use openkernel.Process.Ready.{set_next, set_state, add_to_ready_queue}
use openkernel.Process.Schedule.{scheduler_schedule}

unfoldable pub wait_queue_init : WaitQueue
wait_queue_init = record { head = none; tail = none }

-- `process_block` before it calls the scheduler: the current process `c` is the last waiter.
unfoldable pub append_waiter : ℕ → WaitQueue → Processes → WaitQueue × Processes
append_waiter c wq s =
    let cut = set_next c none (set_state c blocked s) in
    elim wq.tail [
      | none ↦ (record { head = some c; tail = some c }, cut)
      | some t ↦ (record { head = wq.head; tail = some c }, set_next t (some c) cut)
    ]

unfoldable pub process_block : WaitQueue → Processes → WaitQueue × Processes
process_block wq s = elim s.current_process [
  | none ↦ (wq, s)
  | some c ↦
      let (q, r) = append_waiter c wq s in
      if (s.pcbs c).pid == 0 then (wq, s) else (q, scheduler_schedule r)
]

unfoldable pub process_wake : WaitQueue → Processes → WaitQueue × Processes
process_wake wq s = elim wq.head [
  | none ↦ (wq, s)
  | some w ↦
      let after = (s.pcbs w).next in
      let tail : Option ℕ = elim after [ none ↦ none | some _ ↦ wq.tail ] in
      (
        record { head = after; tail = tail },
        add_to_ready_queue w (set_state w ready (set_next w none s)),
      )
]

-- The `while` of `process_wake_all`; `none` if the fuel runs out.
unfoldable pub wake_loop : ℕ → WaitQueue → Processes → Option (WaitQueue × Processes)
wake_loop zero wq s = none
wake_loop (suc k) wq s =
    let (q, r) = process_wake wq s in
    elim wq.head [ none ↦ some (wq, s) | some w ↦ wake_loop k q r ]
