-- ===== src/Process/Wait/Laws.antt =====
-- What blocking and waking do to the queue.
use openkernel.Base.{
  ℕ, zero, suc, ◌<◌, ◌≡◌, ◌≢◌, refl, sym, ap, ◌∙◌, inl, inr, false, Option, none, some, List, [],
  ◌∷◌, ◌++◌, arith, ◌==◌, Bool-cases, Option-cases, length, update, ==_eq,
}
use mathlib.Core.Path.{subst}
use openkernel.Process.{ready, blocked, Pcb, Processes, WaitQueue}
use openkernel.Process.Ready.{set_next, set_state, add_to_ready_queue}
use openkernel.Process.Ready.Fields.{
  next_set_self, next_set_other, state_set_next, state_set_self, state_set_other, next_set_state,
  add-state, add-state_other, add-next_other, add-head,
}
use openkernel.Process.Schedule.{pop_next, start_next, scheduler_schedule, is_running}
use openkernel.Process.Wait.{append_waiter, process_block, process_wake, wake_loop}
use openkernel.Process.Wait.Queue.{
  All, All-map, first, last, Linked-same, Linked-append, IsQueue, last-append, last-All, last-some,
  Distinct-append, IsQueue-same,
}

update-next :
    (f : ℕ → Pcb) (k i : ℕ) (m : Pcb) → m.next ≡ (f k).next → (update f k m i).next ≡ (f i).next
update-next f k i m h = elim (Bool-cases (k == i)) [
  | inl here ↦ rw here (h ∙ ap (λ j. (f j).next) (==_eq k i here))
  | inr other ↦ rw other refl
]

-- A call of the scheduler by a process that does not run moves no `next` pointer.
start_next-next :
    (prev current : ℕ) (s : Processes)
    → is_running (s.pcbs prev).state ≡ false
    → (i : ℕ) → ((start_next prev current s).pcbs i).next ≡ (s.pcbs i).next
unfolding start_next
start_next-next prev current s h i = elim (Bool-cases (prev == current)) [
  | inl same ↦ rw (same, h, start_next) (update-next s.pcbs current i _ refl)
  | inr other ↦ rw (other, h, start_next) (update-next s.pcbs current i _ refl)
]

pop_next-pcbs : (s : Processes) → (pop_next s).pcbs ≡ s.pcbs
unfolding pop_next
pop_next-pcbs s = elim (Option-cases s.ready_queue) [
  | inl e ↦ rw (e, pop_next) refl
  | inr (q, e) ↦ rw (e, pop_next) refl
]

popped-next :
    (prev current : ℕ) (s : Processes)
    → is_running (s.pcbs prev).state ≡ false
    → (i : ℕ) → ((start_next prev current (pop_next s)).pcbs i).next ≡ (s.pcbs i).next
popped-next prev current s h i =
    let same = pop_next-pcbs s in
    start_next-next prev current (pop_next s) (ap (λ f. is_running (f prev).state) same ∙ h) i
    ∙ ap (λ f. (f i).next) same

schedule-next :
    (s : Processes) (c : ℕ)
    → s.current_process ≡ some c
    → is_running (s.pcbs c).state ≡ false
    → (i : ℕ) → ((scheduler_schedule s).pcbs i).next ≡ (s.pcbs i).next
unfolding scheduler_schedule
schedule-next s c at h i = elim (Bool-cases (s.process_count == 0)) [
  | inl none_left ↦ simp (at, none_left, scheduler_schedule) refl
  | inr some_left ↦ elim (Option-cases s.ready_queue) [
    | inr (q, e) ↦ simp (at, some_left, e, scheduler_schedule) (popped-next c q s h i)
    | inl e ↦ elim (Bool-cases ((s.pcbs c).pid == 0)) [
      | inl idle ↦ simp (at, some_left, e, idle, scheduler_schedule) refl
      | inr other ↦ simp (at, some_left, e, other, scheduler_schedule) (popped-next c 0 s h i)
    ]
  ]
]

-- The links after `process_block`, before the scheduler runs.
append_waiter-IsQueue :
    (c : ℕ) (wq : WaitQueue) (s : Processes) (xs : List ℕ)
    → IsQueue s.pcbs wq xs
    → All (λ y. c ≢ y) xs
    → IsQueue (append_waiter c wq s).1.pcbs (append_waiter c wq s).0 (xs ++ (c ∷ []))
unfolding append_waiter
append_waiter-IsQueue c wq s [] q away =
    rw (q.tail, append_waiter)
      (record {
        head = refl;
        tail = refl;
        linked = (next_set_self c (set_state c blocked s) none, tt);
        distinct = (tt, tt);
      })
append_waiter-IsQueue c wq s (x ∷ xs) q away =
    let (t, e) = last-some x xs in
    let ne : c ≢ t = last-All (λ y. c ≢ y) x xs t e away in
    let r = set_state c blocked s in
    let cut = set_next c none r in
    rw (q.tail, e, append_waiter)
      (record {
        head = q.head;
        tail = sym (last-append (x ∷ xs) c);
        linked =
            Linked-append s.pcbs (set_next t (some c) cut).pcbs x xs c t e q.distinct
              (λ i not_t not_c.
                next_set_other t cut (some c) i (λ h. not_t (sym h))
                ∙ next_set_other c r none i (λ h. not_c (sym h))
                ∙ next_set_state c s blocked i)
              away (next_set_self t cut (some c))
              (next_set_other t cut (some c) c (λ h. ne (sym h)) ∙ next_set_self c r none) q.linked;
        distinct = Distinct-append (x ∷ xs) c away q.distinct;
      })

append_waiter-state :
    (c : ℕ) (wq : WaitQueue) (s : Processes) → ((append_waiter c wq s).1.pcbs c).state ≡ blocked
unfolding append_waiter
append_waiter-state c wq s =
    let r = set_state c blocked s in
    let cut = state_set_next c r none c ∙ state_set_self c s blocked in
    elim (Option-cases wq.tail) [
      | inl e ↦ rw (e, append_waiter) cut
      | inr (t, e) ↦ rw (e, append_waiter) (state_set_next t (set_next c none r) (some c) c ∙ cut)
    ]

append_waiter-current :
    (c : ℕ) (wq : WaitQueue) (s : Processes)
    → (append_waiter c wq s).1.current_process ≡ s.current_process
unfolding append_waiter
append_waiter-current c wq s = elim (Option-cases wq.tail) [
  | inl e ↦ rw (e, append_waiter) refl
  | inr (t, e) ↦ rw (e, append_waiter) refl
]

-- The current process, if it is not the idle one and does not wait already, goes to the end of the
-- queue when it blocks; the scheduler that then runs leaves the queue alone.
pub process_block_lem :
    (wq : WaitQueue) (s : Processes) (xs : List ℕ) (c : ℕ)
    → IsQueue s.pcbs wq xs
    → s.current_process ≡ some c
    → (s.pcbs c).pid ≢ 0
    → All (λ y. c ≢ y) xs
    → IsQueue (process_block wq s).1.pcbs (process_block wq s).0 (xs ++ (c ∷ []))
unfolding process_block
process_block_lem wq s xs c q at pid away =
    let not_idle : ((s.pcbs c).pid == 0) ≡ false = ground arith in
    let r = (append_waiter c wq s).1 in
    let waits = append_waiter-state c wq s in
    simp (at, not_idle, process_block)
      (IsQueue-same r.pcbs (scheduler_schedule r).pcbs _ (xs ++ (c ∷ []))
        (schedule-next r c (append_waiter-current c wq s ∙ at) (ap is_running waits))
        (append_waiter-IsQueue c wq s xs q away))

-- A queue whose processes are none of them the head of the ready queue.
pub record IsWaiting (s : Processes) (wq : WaitQueue) (xs : List ℕ) : Type 0 where
  pub queue : IsQueue s.pcbs wq xs
  pub apart : (q : ℕ) → s.ready_queue ≡ some q → All (λ y. q ≢ y) xs

rest_tail :
    (x : ℕ) (xs : List ℕ) (t : Option ℕ)
    → t ≡ last (x ∷ xs)
    → (elim (first xs) [ none ↦ none | some _ ↦ t ]) ≡ last xs
rest_tail x [] t e = refl
rest_tail x (y ∷ xs) t e = e

away_next :
    (a b : ℕ → Pcb) (x : ℕ) (h : Option ℕ) (xs : List ℕ)
    → ((i : ℕ) → x ≢ i → ((q : ℕ) → h ≡ some q → q ≢ i) → (b i).next ≡ (a i).next)
    → All (λ y. x ≢ y) xs
    → ((q : ℕ) → h ≡ some q → All (λ y. q ≢ y) xs)
    → All (λ i. (b i).next ≡ (a i).next) xs
away_next a b x h [] same away apart = tt
away_next a b x h (y ∷ xs) same (ne, away) apart =
    (same y ne (λ q e. (apart q e).0), away_next a b x h xs same away (λ q e. (apart q e).1))

-- The first process leaves the queue and is ready; the others wait on in their order.
pub record Woken (x : ℕ) (xs : List ℕ) (s : Processes) (wq' : WaitQueue) (s' : Processes)
    : Type 0 where
  pub waiting : IsWaiting s' wq' xs
  pub woken : (s'.pcbs x).state ≡ ready
  pub others : (j : ℕ) → x ≢ j → (s'.pcbs j).state ≡ (s.pcbs j).state

-- `process_wake` makes the first waiter ready and takes it from the queue, which otherwise keeps
-- its order; no other process changes its state. The head of the ready queue does not wait.
pub process_wake_lem :
    (wq : WaitQueue) (s : Processes) (x : ℕ) (xs : List ℕ)
    → IsWaiting s wq (x ∷ xs)
    → Woken x xs s (process_wake wq s).0 (process_wake wq s).1
unfolding process_wake
process_wake_lem wq s x xs w =
    let q = w.queue in
    let cut = set_next x none s in
    let r = set_state x ready cut in
    simp (q.head, q.linked.0, process_wake)
      (record {
        waiting = record {
          queue = record {
            head = refl;
            tail = rest_tail x xs wq.tail q.tail;
            linked =
                Linked-same s.pcbs (add_to_ready_queue x r).pcbs xs
                  (away_next s.pcbs (add_to_ready_queue x r).pcbs x s.ready_queue xs
                    (λ i ne away.
                      add-next_other x r i ne away
                      ∙ next_set_state x cut ready i
                      ∙ next_set_other x s none i ne)
                    q.distinct.0 (λ h e. (w.apart h e).1))
                  q.linked.1;
            distinct = q.distinct.1;
          };
          apart = λ h e. elim (add-head x r h e) [
            | inl here ↦ subst (λ k. All (λ y. k ≢ y) xs) here q.distinct.0
            | inr kept ↦ (w.apart h kept).1
          ];
        };
        woken = add-state x r;
        others = λ j ne.
            add-state_other x r j ne ∙ state_set_other x cut ready j ne ∙ state_set_next x s none j;
      })

-- Every process of the list is ready, and the others are as they were.
pub record AllWoken (xs : List ℕ) (s s' : Processes) : Type 0 where
  pub woken : All (λ x. (s'.pcbs x).state ≡ ready) xs
  pub others : (j : ℕ) → All (λ x. x ≢ j) xs → (s'.pcbs j).state ≡ (s.pcbs j).state

-- `process_wake_all`, with a queue of the processes of a list and a head of the ready queue that does
-- not wait, ends after as many rounds as processes wait: the queue is empty then, every process that
-- waited is ready, and no other process changes its state.
pub wake_loop_lem :
    (xs : List ℕ) (k : ℕ) (wq : WaitQueue) (s : Processes)
    → IsWaiting s wq xs
    → length xs < k
    → (wq' : WaitQueue) × (s' : Processes) × (wake_loop k wq s ≡ some (wq', s'))
      × IsWaiting s' wq' []
      × AllWoken xs s s'
unfolding wake_loop
wake_loop_lem xs zero wq s w fuel = absurd (omega arith)
wake_loop_lem [] (suc k) wq s w fuel =
    (wq, s, simp (w.queue.head, wake_loop) refl, w, record { woken = tt; others = λ j h. refl })
wake_loop_lem (x ∷ xs) (suc k) wq s w fuel =
    let step = process_wake_lem wq s x xs w in
    let (wq', s', e, ended, all) =
      wake_loop_lem xs k (process_wake wq s).0 (process_wake wq s).1 step.waiting (omega arith) in
    (
      wq',
      s',
      simp (w.queue.head, wake_loop) e,
      ended,
      record {
        woken = (
          all.others x
                (All-map (λ y. x ≢ y) (λ y. y ≢ x) xs (λ y ne e. ne (sym e)) w.queue.distinct.0)
              ∙ step.woken,
          all.woken,
        );
        others = λ j (ne, h). all.others j h ∙ step.others j ne;
      },
    )
