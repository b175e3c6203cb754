-- ===== src/Sync/Waiting.antt =====
-- `mutex_lock` of src/kernel/sync.c, with interrupts off as in the source: between two tests of the
-- lock nothing else runs but what `process_block` switches to.
use openkernel.Base.{
  ℕ, zero, suc, ◌+◌, ◌≡◌, ◌≢◌, ◌<◌, refl, ap, ◌∙◌, ◌⊎◌, inl, inr, true, false, some, List, [], ◌∷◌,
  ◌++◌, arith, ltb, ◌==◌, if◌then◌else◌, Bool-cases,
}
use openkernel.Process.{Processes, WaitQueue}
use openkernel.Process.Wait.{process_block}
use openkernel.Process.Wait.Queue.{All, IsQueue}
use openkernel.Process.Wait.Laws.{process_block_lem}
use openkernel.Sync.{Mutex, atomic_xchg}

-- Where a call stands: it has returned, or it is at the test of its loop with this `spin`. After
-- `process_block` has switched to another process, that process runs on.
pub data Attempt : Type 0 where
  acquired : Mutex → Processes → Attempt
  at_test : ℕ → Mutex → Processes → Attempt

-- The round ends without the lock: a pause, or the wait queue and `spin = 0`. Then `spin++`.
unfoldable pub spin_or_block : ℕ → Mutex → Processes → Attempt
spin_or_block spin m s =
    let (waiters, r) = process_block m.waiters s in
    if ltb spin 8
    then at_test (spin + 1) m s
    else at_test (0 + 1) (record m { waiters = waiters }) r

unfoldable pub mutex_lock_round : ℕ → Mutex → Processes → Attempt
mutex_lock_round spin m s =
    let (old, now) = atomic_xchg m.locked 1 in
    let exchanged = record m { locked = now } in
    if m.locked == 0
    then (if old == 0 then acquired exchanged s else spin_or_block spin exchanged s)
    else spin_or_block spin m s

-- The first rounds of `mutex_lock`.
unfoldable pub mutex_lock : ℕ → ℕ → Mutex → Processes → Attempt
mutex_lock zero spin m s = at_test spin m s
mutex_lock (suc rounds) spin m s = elim (mutex_lock_round spin m s) [
  | acquired m' s' ↦ acquired m' s'
  | at_test spin' m' s' ↦ mutex_lock rounds spin' m' s'
]

zero-cases : (n : ℕ) → (n ≡ 0) ⊎ (n ≢ 0)
zero-cases zero = inl refl
zero-cases (suc n) = inr (λ e. omega arith)

round_free :
    (spin : ℕ) (m : Mutex) (s : Processes)
    → m.locked ≡ 0
    → mutex_lock_round spin m s ≡ acquired (record m { locked = 1 }) s
unfolding mutex_lock_round atomic_xchg
round_free spin m s free = simp (free, mutex_lock_round) refl

round_taken :
    (spin : ℕ) (m : Mutex) (s : Processes)
    → m.locked ≢ 0
    → mutex_lock_round spin m s ≡ spin_or_block spin m s
unfolding mutex_lock_round spin_or_block
round_taken spin m s taken =
    let e : (m.locked == 0) ≡ false = ground arith in rw (e, mutex_lock_round) refl

pause :
    (rounds spin : ℕ) (m : Mutex) (s : Processes)
    → m.locked ≢ 0
    → spin < 8
    → mutex_lock (suc rounds) spin m s ≡ mutex_lock rounds (spin + 1) m s
unfolding mutex_lock spin_or_block
pause rounds spin m s taken few =
    let e : ltb spin 8 ≡ true = ground arith in
    rw (mutex_lock, round_taken spin m s taken, spin_or_block, e) refl

abbrev blocked_mutex : Mutex → Processes → Mutex
blocked_mutex m s = record m { waiters = (process_block m.waiters s).0 }

block :
    (rounds spin : ℕ) (m : Mutex) (s : Processes)
    → m.locked ≢ 0
    → ltb spin 8 ≡ false
    → mutex_lock (suc rounds) spin m s
      ≡ mutex_lock rounds 1 (blocked_mutex m s) (process_block m.waiters s).1
unfolding mutex_lock spin_or_block
block rounds spin m s taken many =
    rw (mutex_lock, round_taken spin m s taken, spin_or_block, many) refl

take :
    (rounds spin : ℕ) (m : Mutex) (s : Processes)
    → m.locked ≡ 0
    → mutex_lock (suc rounds) spin m s ≡ acquired (record m { locked = 1 }) s
unfolding mutex_lock
take rounds spin m s free = rw (mutex_lock, round_free spin m s free) refl

-- Eight pauses, then the wait queue.
nine_rounds :
    (m : Mutex) (s : Processes)
    → m.locked ≢ 0
    → mutex_lock 9 0 m s ≡ at_test 1 (blocked_mutex m s) (process_block m.waiters s).1
unfolding mutex_lock
nine_rounds m s taken =
    pause 8 0 m s taken (omega arith)
    ∙ pause 7 1 m s taken (omega arith)
    ∙ pause 6 2 m s taken (omega arith)
    ∙ pause 5 3 m s taken (omega arith)
    ∙ pause 4 4 m s taken (omega arith)
    ∙ pause 3 5 m s taken (omega arith)
    ∙ pause 2 6 m s taken (omega arith)
    ∙ pause 1 7 m s taken (omega arith)
    ∙ block 0 8 m s taken refl

idle_runs_on :
    (c : ℕ) (wq : WaitQueue) (s : Processes)
    → s.current_process ≡ some c
    → (s.pcbs c).pid ≡ 0
    → process_block wq s ≡ (wq, s)
unfolding process_block
idle_runs_on c wq s at idle =
    let pid : ((s.pcbs c).pid == 0) ≡ true = ground arith in simp (at, pid, process_block) refl

-- The idle process is not blocked: the rounds go on with nothing changed.
idle_waits :
    (rounds spin c : ℕ) (m : Mutex) (s : Processes)
    → m.locked ≢ 0
    → s.current_process ≡ some c
    → (s.pcbs c).pid ≡ 0
    → (spin' : ℕ) × (mutex_lock rounds spin m s ≡ at_test spin' m s)
unfolding mutex_lock
idle_waits zero spin c m s taken at idle = (spin, refl)
idle_waits (suc rounds) spin c m s taken at idle =
    let stays = idle_runs_on c m.waiters s at idle in
    elim (Bool-cases (ltb spin 8)) [
      | inl few ↦
          let (spin', e) = idle_waits rounds (spin + 1) c m s taken at idle in
          (spin', pause rounds spin m s taken (ground arith) ∙ e)
      | inr many ↦
          let (spin', e) = idle_waits rounds 1 c m s taken at idle in
          let same =
            ap (λ (q : WaitQueue × Processes). mutex_lock rounds 1 (record m { waiters = q.0 }) q.1)
              stays in
          (spin', block rounds spin m s taken many ∙ same ∙ e)
    ]

-- What `mutex_lock` comes to, by the lock and the process that calls it.
pub Locks : Mutex → Processes → List ℕ → ℕ → Type 0
Locks m s xs c =
    ((m.locked ≡ 0) × (mutex_lock 9 0 m s ≡ acquired (record m { locked = 1 }) s))
    ⊎ ((m.locked ≢ 0)
        × ((s.pcbs c).pid ≢ 0)
        × (m' : Mutex) × (s' : Processes) × (mutex_lock 9 0 m s ≡ at_test 1 m' s')
        × (m'.locked ≡ m.locked)
        × IsQueue s'.pcbs m'.waiters (xs ++ (c ∷ [])))
    ⊎ ((m.locked ≢ 0)
        × ((s.pcbs c).pid ≡ 0)
        × ((rounds : ℕ) → (spin : ℕ) × (mutex_lock rounds 0 m s ≡ at_test spin m s)))

-- `mutex_lock` by the current process, which is not among the waiters: it takes a free lock and
-- returns; of a lock that is taken, after eight pauses a process other than the idle one is the
-- last in the queue of waiters, and the lock is still taken; the idle process never blocks and
-- never gets the lock, however many rounds it makes, and nothing changes in them.
pub mutex_lock-Locks :
    (m : Mutex) (s : Processes) (xs : List ℕ) (c : ℕ)
    → IsQueue s.pcbs m.waiters xs
    → s.current_process ≡ some c
    → All (λ y. c ≢ y) xs
    → Locks m s xs c
unfolding Locks
mutex_lock-Locks m s xs c q at away = elim (zero-cases m.locked) [
  | inl free ↦ inl (free, take 8 0 m s free)
  | inr taken ↦ elim (zero-cases (s.pcbs c).pid) [
    | inl idle ↦ inr (inr (taken, idle, λ rounds. idle_waits rounds 0 c m s taken at idle))
    | inr pid ↦ inr (
        inl (
          taken,
          pid,
          blocked_mutex m s,
          (process_block m.waiters s).1,
          nine_rounds m s taken,
          refl,
          process_block_lem m.waiters s xs c q at pid away,
        ))
  ]
]
