-- ===== src/ThreadSemaphore.antt =====
-- lne/ThreadSemaphore.h and lne/ThreadSemaphore.cpp, in the variant for Linux. What the system
-- answers is an argument: true where a function answers 0.
use lne.Prelude.{◌≡◌, refl, Bool, true, false, not, if◌then◌else◌}
use lne.Config.{Status, lnerr_ok, lnerr_unknow, lnerr_noinit, lnerr_timeout}
use lne.Thread.{Available, is_available, set_available}

-- The constructor: what `sem_init` answers is taken for a truth value, so 0 is false.
unfoldable pub new_thread_semaphore : (init_ok : Bool) → Available
unfolding set_available
new_thread_semaphore init_ok = set_available (not init_ok) (record { available = false })

unfoldable pub try_acquire : (trywait_ok : Bool) → Available → Status
unfolding is_available
try_acquire trywait_ok s =
    if is_available s then (if trywait_ok then lnerr_ok else lnerr_timeout) else lnerr_noinit

unfoldable pub acquire : (wait_ok : Bool) → Available → Status
unfolding is_available
acquire wait_ok s =
    if is_available s then (if wait_ok then lnerr_ok else lnerr_unknow) else lnerr_noinit

-- `Acquire` with a time; `errno_timedout` is whether `errno` is `ETIMEDOUT` after the call.
unfoldable pub acquire_until : (timedwait_ok errno_timedout : Bool) → Available → Status
unfolding is_available
acquire_until timedwait_ok errno_timedout s =
    if is_available s
    then (if timedwait_ok
        then lnerr_ok
        else (if errno_timedout then lnerr_timeout else lnerr_unknow))
    else lnerr_noinit

unfoldable pub release : (post_ok : Bool) → Available → Status
unfolding is_available
release post_ok s =
    if is_available s then (if post_ok then lnerr_ok else lnerr_unknow) else lnerr_noinit

-- A semaphore that the system initialized, for which `sem_init` answers 0, answers `LNERR_NOINIT` to
-- every call, whatever the system would answer.
pub new_thread_semaphore-noinit :
    (answer errno_timedout : Bool)
    → let s = new_thread_semaphore true in
      (try_acquire answer s ≡ lnerr_noinit)
      × (acquire answer s ≡ lnerr_noinit)
      × (acquire_until answer errno_timedout s ≡ lnerr_noinit)
      × (release answer s ≡ lnerr_noinit)
unfolding new_thread_semaphore try_acquire acquire acquire_until release is_available set_available
new_thread_semaphore-noinit answer errno_timedout = (refl, refl, refl, refl)
