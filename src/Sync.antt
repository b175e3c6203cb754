-- ===== src/Sync.antt =====
-- The atomic operations, spinlocks and mutexes of src/kernel/sync.h and sync.c, between two
-- operations of which no other one of the same object comes. An `int` is its 32-bit pattern.
-- `spinlock_lock` is in Spinlock, access by access, and `mutex_lock` in Waiting.
mod Tests
pub mod Spinlock
pub mod Waiting
use openkernel.Base.{ℕ, ◌+◌, ◌-◌, ◌%◌, ◌^◌, Bool, ◌==◌, if◌then◌else◌}
use openkernel.Process.{Processes, WaitQueue}
use openkernel.Process.Wait.{wait_queue_init, process_wake}

unfoldable pub atomic_get : ℕ → ℕ
atomic_get a = a

-- The old value, and the value after the operation.
unfoldable pub atomic_xchg : ℕ → ℕ → ℕ × ℕ
atomic_xchg a val = (a, val)

unfoldable pub atomic_cmpxchg : ℕ → ℕ → ℕ → ℕ × ℕ
atomic_cmpxchg a old new = (a, if a == old then new else a)

-- The new value, and the value after the operation.
unfoldable pub atomic_add : ℕ → ℕ → ℕ × ℕ
atomic_add a val = let sum = (a + val) % 2 ^ 32 in (sum, sum)

unfoldable pub atomic_inc : ℕ → ℕ × ℕ
atomic_inc a = let sum = (a + 1) % 2 ^ 32 in (sum, sum)

unfoldable pub atomic_dec : ℕ → ℕ × ℕ
atomic_dec a = let rest = (a + 2 ^ 32 - 1) % 2 ^ 32 in (rest, rest)

-- `locked` of a `spinlock_t`
unfoldable pub spinlock_init : ℕ
spinlock_init = 0

unfoldable pub spinlock_unlock : ℕ → ℕ
spinlock_unlock locked = 0

unfoldable pub spinlock_trylock : ℕ → Bool × ℕ
spinlock_trylock locked = let (old, now) = atomic_xchg locked 1 in (old == 0, now)

-- `struct mutex`
pub record Mutex : Type 0 where
  pub locked : ℕ
  pub waiters : WaitQueue

unfoldable pub mutex_init : Mutex
mutex_init = record { locked = 0; waiters = wait_queue_init }

unfoldable pub mutex_trylock : Mutex → Bool × Mutex
mutex_trylock m = let (old, now) = atomic_xchg m.locked 1 in (old == 0, record m { locked = now })

-- The lock is free, and the first waiter runs again.
unfoldable pub mutex_unlock : Mutex → Processes → Mutex × Processes
mutex_unlock m s =
    let (waiters, r) = process_wake m.waiters s in (record { locked = 0; waiters = waiters }, r)
