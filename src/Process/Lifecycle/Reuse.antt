-- ===== src/Process/Lifecycle/Reuse.antt =====
-- The slot that `process_create` chooses.
use openkernel.Base.{
  ℕ, zero, suc, ◌+◌, ◌≤◌, ◌<◌, ◌≡◌, ◌≢◌, refl, ap, ◌∙◌, inl, inr, Bool, false, ◌||◌, some, List,
  ◌%◌, ◌^◌, arith, leb, Bool-cases, update_ne,
}
use openkernel.Memory.Heap.Chain.{Cell}
use openkernel.Memory.Heap.Laws.{Blocks, kmalloc_lem}
use openkernel.Process.{ready, Pcb, Processes, max_processes, process_stack_size}
use openkernel.Process.Ready.{add_to_ready_queue}
use openkernel.Process.Ready.Fields.{add-state, add-state_other}
use openkernel.Process.Schedule.{is_ready, scheduler_add_process}
use openkernel.Process.Lifecycle.{
  is_zombie, free_loop, find_free_pcb, pcb_init, pcb_with_stack, enter_process, process_create,
}

abbrev is_free : Pcb → Bool
is_free n = is_zombie n.state || is_ready n.state

free_loop-le : (k i : ℕ) (pcbs : ℕ → Pcb) (r : ℕ) → free_loop k i pcbs ≡ some r → i ≤ r
unfolding free_loop
free_loop-le zero i pcbs r h = absurd cc
free_loop-le (suc k) i pcbs r h = elim (Bool-cases (is_free (pcbs i))) [
  | inl free ↦ ground arith
  | inr taken ↦ ground (arith, free_loop-le k (i + 1) pcbs r)
]

-- The first free slot stays the first free slot if it is made ready and no other state changes.
free_loop-again :
    (k i : ℕ) (a b : ℕ → Pcb) (r : ℕ)
    → free_loop k i a ≡ some r
    → ((j : ℕ) → r ≢ j → (b j).state ≡ (a j).state)
    → (b r).state ≡ ready
    → free_loop k i b ≡ some r
unfolding free_loop
free_loop-again zero i a b r h same now = absurd cc
free_loop-again (suc k) i a b r h same now = elim (Bool-cases (is_free (a i))) [
  | inl free ↦
      let here : i ≡ r = ground arith in
      let made_ready : (b i).state ≡ ready = ap (λ j. (b j).state) here ∙ now in
      rw made_ready (ap some here)
  | inr taken ↦
      let later : free_loop k (i + 1) a ≡ some r = ground arith in
      let ne : r ≢ i = λ e. omega (arith, free_loop-le k (i + 1) a r later) in
      let still : is_free (b i) ≡ false = ap (λ t. is_zombie t || is_ready t) (same i ne) ∙ taken in
      rw still (free_loop-again k (i + 1) a b r later same now)
]

pcb_init-result :
    (i pid entry priority : ℕ) (s : Processes) (cs : List Cell)
    → Blocks s.heap cs
    → (r : Processes) × (pcb_init i pid entry priority s ≡ some r)
      × ((j : ℕ) → i ≢ j → (r.pcbs j).state ≡ (s.pcbs j).state)
unfolding pcb_init
pcb_init-result i pid entry priority s cs blocks =
    let (p, h, e, _) = kmalloc_lem process_stack_size s.heap cs blocks (omega arith) in
    (
      pcb_with_stack i pid entry priority p h s,
      rw (e, pcb_init) refl,
      λ j ne. ap (λ (n : Pcb). n.state) (update_ne s.pcbs i _ j ne),
    )

-- Where fewer than 64 processes are counted, a slot is free and the heap is tiled by blocks,
-- `process_create` makes a process that is ready in that slot, and `find_free_pcb` returns the same slot again: the next process is made in
-- the slot of this one.
pub process_create_reuses :
    (entry priority i : ℕ) (s : Processes) (cs : List Cell)
    → Blocks s.heap cs
    → s.process_count < max_processes
    → find_free_pcb s ≡ some i
    → (s' : Processes) × (process_create entry priority s ≡ some (s.next_pid, s'))
      × ((s'.pcbs i).state ≡ ready)
      × (find_free_pcb s' ≡ some i)
unfolding process_create find_free_pcb scheduler_add_process
process_create_reuses entry priority i s cs blocks room found =
    let (r, e, same) = pcb_init-result i s.next_pid entry priority s cs blocks in
    let space : leb max_processes s.process_count ≡ false = ground arith in
    let q = record r { next_pid = (r.next_pid + 1) % 2 ^ 32 } in
    (
      enter_process i r,
      simp (space, found, e, process_create) refl,
      add-state i q,
      free_loop-again max_processes 0 s.pcbs (add_to_ready_queue i q).pcbs i found
          (λ j ne. add-state_other i q j ne ∙ same j ne) (add-state i q),
    )
