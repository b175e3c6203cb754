-- ===== src/Sync/Spinlock/Progress.antt =====
-- A processor that waits for the spinlock of src/kernel/sync.h can get it.
use openkernel.Base.{
  ℕ, zero, suc, arith, ◌≤◌, ◌⊎◌, ◌≡◌, ◌≢◌, refl, sym, ap, ◌∙◌, inl, inr, true, false, update_self,
  update_ne,
}
use mathlib.Core.Bool.{false≢true}
use openkernel.Sync.{atomic_get, atomic_xchg, spinlock_unlock}
use openkernel.Sync.Spinlock.{
  Pc, outside, exchanging, pausing, critical, is_critical, is_locking, spinlock_lock_step, Machine,
  moved, Step, call_unlock, Reach, apart, Reach-IsExclusive,
}

is_critical-critical : (p : Pc) → is_critical p ≡ true → p ≡ critical
is_critical-critical outside h = absurd (false≢true h)
is_critical-critical exchanging h = absurd (false≢true h)
is_critical-critical pausing h = absurd (false≢true h)
is_critical-critical critical h = refl

is_locking-out : (p : Pc) → is_locking p ≡ true → is_critical p ≡ false
is_locking-out outside h = refl
is_locking-out exchanging h = refl
is_locking-out pausing h = refl
is_locking-out critical h = absurd (false≢true h)

-- `k` steps of the processor `i` in `spinlock_lock`, and no step of another one.
abbrev pub alone : ℕ → ℕ → Machine → Machine
alone i zero m = m
alone i (suc k) m = alone i k (moved i (spinlock_lock_step (m.pc i) m.locked) m)

-- At most two steps of `i` alone take it past the lock.
abbrev pub TakesAlone : Machine → ℕ → Type 0
TakesAlone m i = (k : ℕ) × (k ≤ 2) × (is_critical ((alone i k m).pc i) ≡ true)

-- The holder, if there is one, unlocks, and then `i` alone gets past the lock.
abbrev pub GetsIn : Machine → ℕ → Type 0
GetsIn m i =
    ((m.locked ≡ 0) × TakesAlone m i)
    ⊎ ((h : ℕ) × (m.pc h ≡ critical)
        × Step m (moved h (outside, spinlock_unlock m.locked) m)
        × TakesAlone (moved h (outside, spinlock_unlock m.locked) m) i)

exchange_free :
    (m : Machine) (i : ℕ)
    → m.locked ≡ 0
    → m.pc i ≡ exchanging
    → is_critical ((alone i 1 m).pc i) ≡ true
unfolding spinlock_lock_step atomic_xchg
exchange_free m i free e =
    let takes : spinlock_lock_step (m.pc i) m.locked ≡ (critical, 1) = rw (e, free) refl in
    ap is_critical (update_self m.pc i _ ∙ ap (λ (s : Pc × ℕ). s.0) takes)

lock_free :
    (m : Machine) (i : ℕ) (p : Pc)
    → m.locked ≡ 0
    → m.pc i ≡ p
    → is_locking p ≡ true
    → TakesAlone m i
unfolding spinlock_lock_step atomic_get
lock_free m i outside free e l = absurd (false≢true l)
lock_free m i exchanging free e l = (1, omega arith, exchange_free m i free e)
lock_free m i pausing free e l =
    let n = moved i (spinlock_lock_step (m.pc i) m.locked) m in
    let leaves : spinlock_lock_step (m.pc i) m.locked ≡ (exchanging, 0) = rw (e, free) refl in
    let past =
      exchange_free n i (ap (λ (s : Pc × ℕ). s.1) leaves)
        (update_self m.pc i _ ∙ ap (λ (s : Pc × ℕ). s.0) leaves) in
    (2, omega arith, past)
lock_free m i critical free e l = absurd (false≢true l)

-- From every state that is reached, a processor inside `spinlock_lock` gets past the lock: with the
-- lock free, by at most two steps of its own; otherwise some processor is past the lock, and after
-- its unlock at most two steps of the one that waits take it there.
pub spinlock_lock-GetsIn : {m : Machine} (i : ℕ) → Reach m → is_locking (m.pc i) ≡ true → GetsIn m i
unfolding spinlock_unlock
spinlock_lock-GetsIn {m} i r locking = elim (Reach-IsExclusive r) [
  | inl (free, _) ↦ inl (free, lock_free m i (m.pc i) free refl locking)
  | inr (h, _, holds, _) ↦
      let n = moved h (outside, spinlock_unlock m.locked) m in
      let out : is_critical (m.pc i) ≡ false = is_locking-out (m.pc i) locking in
      let other : h ≢ i = λ e. apart m.pc i h out holds (sym e) in
      let same : n.pc i ≡ m.pc i = update_ne m.pc h outside i other in
      let held = is_critical-critical (m.pc h) holds in
      inr (
        h,
        held,
        call_unlock h held,
        lock_free n i (n.pc i) refl refl (ap is_locking same ∙ locking),
      )
]
