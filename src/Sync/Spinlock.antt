-- ===== src/Sync/Spinlock.antt =====
-- Processors that share one spinlock of src/kernel/sync.h, one atomic access at a time, in any
-- order.
pub mod Progress
use openkernel.Base.{
  ℕ, ◌≡◌, ◌≢◌, refl, sym, ap, ◌∙◌, ◌⊎◌, inl, inr, Bool, true, false, ◌==◌, if◌then◌else◌,
  Bool-cases, update, update_self, update_ne, ==_eq, arith,
}
use mathlib.Core.Bool.{false≢true}
use openkernel.Sync.{atomic_get, atomic_xchg, spinlock_trylock, spinlock_unlock}

-- Where a processor stands: outside the lock, at the exchange of `spinlock_lock`, in its inner
-- loop, or past the lock.
pub data Pc : Type 0 where
  outside exchanging pausing critical : Pc

abbrev pub is_critical : Pc → Bool
is_critical outside = false
is_critical exchanging = false
is_critical pausing = false
is_critical critical = true

abbrev pub is_locking : Pc → Bool
is_locking outside = false
is_locking exchanging = true
is_locking pausing = true
is_locking critical = false

-- `spinlock_lock`, from one access to the next
unfoldable pub spinlock_lock_step : Pc → ℕ → Pc × ℕ
unfolding atomic_xchg atomic_get
spinlock_lock_step outside locked = (outside, locked)
spinlock_lock_step exchanging locked =
    let (old, now) = atomic_xchg locked 1 in (if old == 0 then critical else pausing, now)
spinlock_lock_step pausing locked = (if atomic_get locked == 0 then exchanging else pausing, locked)
spinlock_lock_step critical locked = (critical, locked)

pub record Machine : Type 0 where
  pub locked : ℕ
  pub pc : ℕ → Pc

abbrev pub moved : ℕ → Pc × ℕ → Machine → Machine
moved i (p, locked) m = record { locked = locked; pc = update m.pc i p }

abbrev pub tried : Bool × ℕ → Pc × ℕ
tried (got, locked) = (if got then critical else outside, locked)

pub data Step (m : Machine) : Machine → Type 0 where
  call_lock : (i : ℕ) → m.pc i ≡ outside → Step m (moved i (exchanging, m.locked) m)
  run_lock :
      (i : ℕ)
      → is_locking (m.pc i) ≡ true
      → Step m (moved i (spinlock_lock_step (m.pc i) m.locked) m)
  call_trylock : (i : ℕ) → m.pc i ≡ outside → Step m (moved i (tried (spinlock_trylock m.locked)) m)
  call_unlock : (i : ℕ) → m.pc i ≡ critical → Step m (moved i (outside, spinlock_unlock m.locked) m)

-- `spinlock_init`, with every processor outside
abbrev pub start : Machine
start = record { locked = 0; pc = λ _. outside }

pub data Reach : Machine → Type 0 where
  here : Reach start
  next : {m n : Machine} → Reach m → Step m n → Reach n

-- The lock is free and nobody is past it, or it is taken and exactly one processor is.
abbrev pub IsExclusive : Machine → Type 0
IsExclusive m =
    ((m.locked ≡ 0) × ((i : ℕ) → is_critical (m.pc i) ≡ false))
    ⊎ ((h : ℕ) × (m.locked ≢ 0)
        × (is_critical (m.pc h) ≡ true)
        × ((i : ℕ) → is_critical (m.pc i) ≡ true → i ≡ h))

updated_critical :
    (pc : ℕ → Pc) (i : ℕ) (p : Pc) (j : ℕ)
    → is_critical (update pc i p j) ≡ true
    → ((i ≡ j) × (is_critical p ≡ true)) ⊎ ((i ≢ j) × (is_critical (pc j) ≡ true))
updated_critical pc i p j h = ground (arith, ==_eq i j)

apart : (pc : ℕ → Pc) (i h : ℕ) → is_critical (pc i) ≡ false → is_critical (pc h) ≡ true → i ≢ h
apart pc i h out holds e = false≢true (sym out ∙ ap (λ k. is_critical (pc k)) e ∙ holds)

-- A processor that is not past the lock moves within the outside, and the lock stays as it was,
-- free or taken.
stay_out :
    (m : Machine) (i : ℕ) (p : Pc) (l : ℕ)
    → is_critical (m.pc i) ≡ false
    → is_critical p ≡ false
    → (m.locked ≡ 0 → l ≡ 0)
    → (m.locked ≢ 0 → l ≢ 0)
    → IsExclusive m
    → IsExclusive (moved i (p, l) m)
stay_out m i p l out out' free taken (inl (e, nobody)) = inl (
  free e,
  λ j. elim (Bool-cases (i == j)) [ inl e ↦ ground arith | inr e ↦ ground (arith, nobody j) ],
)
stay_out m i p l out out' free taken (inr (h, e, holds, only)) =
    let keeps : is_critical (update m.pc i p h) ≡ true =
      rw (update_ne m.pc i p h (apart m.pc i h out holds)) holds in
    inr (
      h,
      taken e,
      keeps,
      λ j c. elim (updated_critical m.pc i p j c) [
        | inl (e, c') ↦ absurd (false≢true (sym out' ∙ c'))
        | inr (e, c') ↦ only j c'
      ],
    )

-- A processor finds the lock free and takes it.
take_free :
    (m : Machine) (i l : ℕ)
    → m.locked ≡ 0
    → l ≢ 0
    → IsExclusive m
    → IsExclusive (moved i (critical, l) m)
take_free m i l free taken (inl (_, nobody)) = inr (
  i,
  taken,
  ap is_critical (update_self m.pc i critical),
  λ j c. elim (updated_critical m.pc i critical j c) [
    | inl (e, c') ↦ sym e
    | inr (e, c') ↦ absurd (false≢true (sym (nobody j) ∙ c'))
  ],
)
take_free m i l free taken (inr (h, taken', _, _)) = absurd (taken' free)

-- An exchange of the lock with 1, by a processor that goes to `p` when the lock was taken.
exchange :
    (m : Machine) (i : ℕ) (p : Pc)
    → is_critical (m.pc i) ≡ false
    → is_critical p ≡ false
    → IsExclusive m
    → IsExclusive (moved i (if m.locked == 0 then critical else p, 1) m)
exchange m i p out out' inv = elim (Bool-cases (m.locked == 0)) [
  | inl e ↦ rw e (take_free m i 1 (==_eq m.locked 0 e) (λ z. omega arith) inv)
  | inr e ↦ rw e (stay_out m i p 1 out out' (λ z. ground arith) (λ t z. omega arith) inv)
]

-- The processor past the lock leaves, and nobody is past it any more.
leave :
    (m : Machine) (i : ℕ)
    → is_critical (m.pc i) ≡ true
    → IsExclusive m
    → IsExclusive (moved i (outside, 0) m)
leave m i c (inl (free, nobody)) = absurd (false≢true (sym (nobody i) ∙ c))
leave m i c (inr (h, taken, holds, only)) = inl (
  refl,
  λ j. elim (Bool-cases (is_critical (update m.pc i outside j))) [
    | inl c' ↦ elim (updated_critical m.pc i outside j c') [
      | inl (e, no') ↦ absurd (false≢true no')
      | inr (e, c'') ↦ absurd (e (only i c ∙ sym (only j c'')))
    ]
    | inr out ↦ out
  ],
)

run_lock-IsExclusive :
    (m : Machine) (i : ℕ) (p : Pc)
    → m.pc i ≡ p
    → is_locking p ≡ true
    → IsExclusive m
    → IsExclusive (moved i (spinlock_lock_step p m.locked) m)
unfolding spinlock_lock_step atomic_xchg atomic_get
run_lock-IsExclusive m i outside e l inv = absurd (false≢true l)
run_lock-IsExclusive m i exchanging e l inv = exchange m i pausing (ap is_critical e) refl inv
run_lock-IsExclusive m i pausing e l inv =
    stay_out m i _ m.locked (ap is_critical e) (ground arith) (λ z. z) (λ z. z) inv
run_lock-IsExclusive m i critical e l inv = absurd (false≢true l)

Step-IsExclusive : {m n : Machine} → Step m n → IsExclusive m → IsExclusive n
unfolding spinlock_trylock spinlock_unlock atomic_xchg
Step-IsExclusive {m} (call_lock i out) inv =
    stay_out m i exchanging m.locked (ap is_critical out) refl (λ z. z) (λ z. z) inv
Step-IsExclusive {m} (run_lock i locking) inv = run_lock-IsExclusive m i (m.pc i) refl locking inv
Step-IsExclusive {m} (call_trylock i out) inv = exchange m i outside (ap is_critical out) refl inv
Step-IsExclusive {m} (call_unlock i past) inv = leave m i (ap is_critical past) inv

-- Whatever the order of the accesses, the lock is 0 while no processor is past it, and otherwise
-- exactly one processor is past it: two that are past it are the same one.
pub Reach-IsExclusive : {m : Machine} → Reach m → IsExclusive m
Reach-IsExclusive here = inl (refl, λ i. refl)
Reach-IsExclusive (next r s) = Step-IsExclusive s (Reach-IsExclusive r)
