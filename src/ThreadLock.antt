-- ===== src/ThreadLock.antt =====
-- lne/ThreadLock.h and lne/ThreadLock.cpp, in the variant for Linux: a lock whose fast mode tries a
-- while before it waits.
use lne.Prelude.{ℕ, ◌+◌, ◌≡◌, ◌≤◌, ◌⊎◌, ltb, Bool, true, false, if◌then◌else◌, List, [], ◌∷◌, arith}

-- The system's mutex is left out: what it answers is an argument.
pub record ThreadLock : Type 0 where
  pub spin_count : ℕ

unfoldable pub new_thread_lock : (fast_mode : Bool) → ThreadLock
new_thread_lock fast_mode = record { spin_count = if fast_mode then 4000 else 0 }

-- `ThreadLock::pthread_mutex_spinlock`: the loop tries `spin_count` times, and then the lock is
-- waited for. `tries` is what `pthread_mutex_trylock` answers to one call after the other, false from
-- where the list ends on, and `locked` what `pthread_mutex_lock` answers. The result is the answer
-- with the number of tries and of calls that wait.
unfoldable pub spinlock : ℕ → List Bool → (locked : Bool) → Bool × ℕ × ℕ
spinlock ℕ.zero tries locked = (locked, 0, 1)
spinlock (ℕ.suc spin_count) [] locked =
    let rest = spinlock spin_count [] locked in (rest.0, 1 + rest.1, rest.2)
spinlock (ℕ.suc spin_count) (true ∷ tries) locked = (true, 1, 0)
spinlock (ℕ.suc spin_count) (false ∷ tries) locked =
    let rest = spinlock spin_count tries locked in (rest.0, 1 + rest.1, rest.2)

-- The lock is taken by at most `spin_count` tries, the last of which succeeds, or it is waited for
-- once, after all of them, and then the answer is that of the wait.
pub spinlock_lem :
    (spin_count : ℕ) (tries : List Bool) (locked : Bool)
    → let out = spinlock spin_count tries locked in
      ((out.0 ≡ true) × (out.1 ≤ spin_count) × (out.2 ≡ 0))
      ⊎ ((out.0 ≡ locked) × (out.1 ≡ spin_count) × (out.2 ≡ 1))
unfolding spinlock
spinlock_lem ℕ.zero tries locked = ground arith
spinlock_lem (ℕ.suc n) [] locked = ground (arith, spinlock_lem n [] locked)
spinlock_lem (ℕ.suc n) (true ∷ tries) locked = ground arith
spinlock_lem (ℕ.suc n) (false ∷ tries) locked = ground (arith, spinlock_lem n tries locked)

unfoldable pub lock : ThreadLock → List Bool → (locked : Bool) → Bool × ℕ × ℕ
lock l tries locked =
    if ltb 0 l.spin_count then spinlock l.spin_count tries locked else (locked, 0, 1)

-- A new lock is waited for at most once, and tried at most 4000 times before that in the fast mode,
-- never otherwise. Without the wait, a try took the lock.
pub lock-new_thread_lock :
    (fast_mode : Bool) (tries : List Bool) (locked : Bool)
    → let out = lock (new_thread_lock fast_mode) tries locked in
      (out.1 ≤ (if fast_mode then 4000 else 0))
      × (((out.0 ≡ true) × (out.2 ≡ 0)) ⊎ ((out.0 ≡ locked) × (out.2 ≡ 1)))
unfolding lock new_thread_lock
lock-new_thread_lock true tries locked = ground (arith, spinlock_lem 4000 tries locked)
lock-new_thread_lock false tries locked = ground arith
