-- ===== src/ThreadCondition.antt =====
-- lne/ThreadCondition.h and lne/ThreadCondition.cpp: a condition that remembers one signal, and the
-- deadline that lne/ThreadMutex.cpp and lne/ThreadSemaphore.cpp make in the same way, in the variant
-- for Linux. What the system answers is an argument; a call that the system makes wait comes back
-- with the state that other threads left.
pub mod Deadline
pub mod Signals
pub mod System
use lne.Prelude.{ℕ, ◌*◌, ◌||◌, Bool, true, false, not, List, [], ◌∷◌, if◌then◌else◌}
use lne.Prelude.Int.{ℤ, pos, ◌*ℤ◌}
use lne.Config.{Status, lnerr_ok, lnerr_unknow, lnerr_noinit, lnerr_timeout}
use lne.TimeValue
use lne.TimeValue.{TimeValue}

-- The deadline: now and the time to wait, as seconds and nanoseconds.
unfoldable pub deadline : TimeValue → TimeValue → ℤ × ℤ
deadline now tv = let dest = TimeValue.add now tv in (dest.sec, dest.usec *ℤ pos 1000)

pub record ThreadCondition : Type 0 where
  pub available : Bool
  pub signal : Bool

-- The constructor, which does not look at what the system answers.
unfoldable pub new_thread_condition : ThreadCondition
new_thread_condition = record { available = true; signal = false }

-- `Wait` up to where it waits: the condition with its answer, or `asleep`.
pub data Entered : Type 0 where
  answered : (c : ThreadCondition) (status : Status) → Entered
  asleep : Entered

unfoldable pub wait_enter : (lock_ok : Bool) → ThreadCondition → Entered
wait_enter lock_ok c =
    if not c.available
    then answered c lnerr_noinit
    else (if lock_ok
        then (if c.signal then answered (record c { signal = false }) lnerr_ok else asleep)
        else answered c lnerr_unknow)

-- `Wait` when `pthread_cond_wait` has come back, with 0 or not.
unfoldable pub wait_leave : (woken : Bool) → ThreadCondition → ThreadCondition × Status
wait_leave woken c = if woken then (record c { signal = false }, lnerr_ok) else (c, lnerr_unknow)

-- `Wait` with a time, when `pthread_cond_timedwait` has come back; `errno_timedout` is whether
-- `errno` is `ETIMEDOUT` then.
unfoldable pub wait_until_leave :
    (woken errno_timedout : Bool) → ThreadCondition → ThreadCondition × Status
wait_until_leave woken errno_timedout c =
    if woken
    then (record c { signal = false }, lnerr_ok)
    else (c, if errno_timedout then lnerr_timeout else lnerr_unknow)

-- `Signal`.
unfoldable pub signal : (lock_ok cond_ok : Bool) → ThreadCondition → ThreadCondition × Status
signal lock_ok cond_ok c =
    if not c.available
    then (c, lnerr_noinit)
    else (if lock_ok
        then (if c.signal
            then (c, lnerr_ok)
            else (if cond_ok then (record c { signal = true }, lnerr_ok) else (c, lnerr_unknow)))
        else (c, lnerr_unknow))
