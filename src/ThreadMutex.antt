-- ===== src/ThreadMutex.antt =====
-- lne/ThreadMutex.h and lne/ThreadMutex.cpp, in the variant for Linux. What the system answers is an
-- argument: true where a function answers 0.
use lne.Prelude.{Bool, true, false, if◌then◌else◌}
use lne.Config.{Status, lnerr_ok, lnerr_unknow, lnerr_noinit, lnerr_timeout}
use lne.Thread.{Available, is_available, set_available}

unfoldable pub new_thread_mutex : Available
unfolding set_available
new_thread_mutex = set_available true (record { available = false })

unfoldable pub try_acquire : (trylock_ok : Bool) → Available → Status
unfolding is_available
try_acquire trylock_ok m =
    if is_available m then (if trylock_ok then lnerr_ok else lnerr_timeout) else lnerr_noinit

unfoldable pub acquire : (lock_ok : Bool) → Available → Status
unfolding is_available
acquire lock_ok m =
    if is_available m then (if lock_ok then lnerr_ok else lnerr_unknow) else lnerr_noinit

-- `Acquire` with a time; `errno_timedout` is whether `errno` is `ETIMEDOUT` after the call.
unfoldable pub acquire_until : (timedlock_ok errno_timedout : Bool) → Available → Status
unfolding is_available
acquire_until timedlock_ok errno_timedout m =
    if is_available m
    then (if timedlock_ok
        then lnerr_ok
        else (if errno_timedout then lnerr_timeout else lnerr_unknow))
    else lnerr_noinit

unfoldable pub release : (unlock_ok : Bool) → Available → Status
unfolding is_available
release unlock_ok m =
    if is_available m then (if unlock_ok then lnerr_ok else lnerr_unknow) else lnerr_noinit
