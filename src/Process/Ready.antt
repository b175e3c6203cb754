-- ===== src/Process/Ready.antt =====
-- The ready queue of src/kernel/process.c, a ring of `next` pointers.
pub mod Fields
use openkernel.Base.{ℕ, zero, suc, Bool, false, Option, none, some, ◌==◌, if◌then◌else◌, update}
use openkernel.Process.{State, ready, Processes, max_processes}

abbrev pub set_next : ℕ → Option ℕ → Processes → Processes
set_next i next s = record s { pcbs = update s.pcbs i (record (s.pcbs i) { next = next }) }

abbrev pub set_state : ℕ → State → Processes → Processes
set_state i state s = record s { pcbs = update s.pcbs i (record (s.pcbs i) { state = state }) }

-- Whether a pointer is to slot `i`.
abbrev pub points_to : Option ℕ → ℕ → Bool
points_to none i = false
points_to (some j) i = j == i

unfoldable pub add_to_ready_queue : ℕ → Processes → Processes
add_to_ready_queue pcb s =
    let r = set_state pcb ready s in
    elim r.ready_queue [
      | none ↦ set_next pcb (some pcb) (record r { ready_queue = some pcb })
      | some q ↦ let linked = set_next pcb (r.pcbs q).next r in set_next q (some pcb) linked
    ]

-- The `while` of `remove_from_ready_queue`: the state, and `current` where it stopped. `none` is a
-- step through NULL, or a list that does not come back to the head.
unfoldable pub remove_loop : ℕ → ℕ → ℕ → ℕ → Processes → Option (ℕ × Processes)
remove_loop zero q pcb current s = none
remove_loop (suc k) q pcb current s =
    let after = (s.pcbs current).next in
    if points_to after q
    then some (current, s)
    else if points_to after pcb
    then some (current, set_next current (s.pcbs pcb).next s)
    else elim after [ none ↦ none | some n ↦ remove_loop k q pcb n s ]

unfoldable pub remove_from_ready_queue : ℕ → Processes → Option Processes
remove_from_ready_queue pcb s = elim s.ready_queue [
  | none ↦ some s
  | some q ↦
      if points_to (s.pcbs q).next q
      then some (set_next pcb none (record s { ready_queue = none }))
      else elim (remove_loop (suc max_processes) q pcb q s) [
        | none ↦ none
        | some (current, r) ↦
            let head = if q == pcb then some current else r.ready_queue in
            some (set_next pcb none (record r { ready_queue = head }))
      ]
]
