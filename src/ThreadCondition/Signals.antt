-- ===== src/ThreadCondition/Signals.antt =====
-- lne/ThreadCondition.cpp: signals and waits.
use lne.Prelude.{◌≡◌, arith, Bool, true, false}
use lne.Config.{lnerr_ok}
use lne.ThreadCondition.{ThreadCondition, answered, asleep, wait_enter, wait_leave, signal}

-- A `Signal` that answers `LNERR_OK`, also one of several, is remembered until one `Wait`, which
-- comes back at once; the next one waits.
pub signal-wait_enter :
    (lock_ok cond_ok : Bool) (c : ThreadCondition)
    → (signal lock_ok cond_ok c).1 ≡ lnerr_ok
    → let s = (signal lock_ok cond_ok c).0 in
      let after : ThreadCondition = record s { signal = false } in
      (wait_enter true s ≡ answered after lnerr_ok) × (wait_enter true after ≡ asleep)
unfolding signal wait_enter
signal-wait_enter lock_ok cond_ok c e = ground (arith, e)

-- One signal can be answered twice. When a thread waits, and another one enters `Wait` between the
-- `Signal` and the time when the first one has the lock again, both answer `LNERR_OK`.
pub signal-answered_twice :
    (c : ThreadCondition)
    → c.available ≡ true
    → wait_enter true c ≡ asleep
    → let signalled = (signal true true c).0 in
      let taken : ThreadCondition = record signalled { signal = false } in
      (wait_enter true signalled ≡ answered taken lnerr_ok) × ((wait_leave true taken).1 ≡ lnerr_ok)
unfolding signal wait_enter wait_leave
signal-answered_twice c ready first = ground (arith, ready, first)
