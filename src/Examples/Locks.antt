-- ===== src/Examples/Locks.antt =====
-- Two threads on one object, by their loads and stores, and on one condition.
use lne.Prelude.{
  ℕ, ◌+◌, ◌<◌, ◌≤◌, ◌==◌, ◌≡◌, ◌⊎◌, refl, true, false, none, some, arith, if◌then◌else◌,
}
use lne.ThreadLock.{new_thread_lock}
use lne.ExtendObject.{new_ref_object}
use lne.ExtendObject.History
use lne.ExtendObject.History.{RefOp, adds, releases, holders}
use lne.ExtendObject.Atomic.{
  System, put, take, store, unlock, enter, Step, calls, waits_take, loads, stores, unlocks, waits,
  inside, loaded, Reach, here, later,
}
use lne.ExtendObject.Atomic.Inv.{critical}
use lne.ExtendObject.Atomic.Safety.{start, new_ref_object-Reach, steps_left, waits-Step}
use lne.ThreadCondition.{new_thread_condition, wait_enter, signal}
use lne.ThreadCondition.System as Condition
use lne.ThreadCondition.System.{new_thread_condition-Reach}

-- Thread 1 calls `Release` while thread 0 is between the load and the store of `AddRef`.
abbrev contended : System
contended =
    put 1 (enter (new_thread_lock false) releases) (
      put 0 (loaded adds 1)
        (take 0 adds (put 0 (enter (new_thread_lock false) adds) (start false))))

contended-Reach : Reach (start false) contended
unfolding start put take enter new_thread_lock new_ref_object
contended-Reach =
    later
      (later (later (later here (calls 0 adds refl refl)) (waits_take 0 adds refl refl refl))
        (loads 0 adds refl refl))
      (calls 1 releases refl refl)

-- Thread 0 stores and gives the lock back.
abbrev given_back : System
given_back = unlock 0 false (store 0 adds 1 contended)

given_back-Reach : Reach (start false) given_back
unfolding start put take enter store unlock new_thread_lock new_ref_object
given_back-Reach =
    later (later contended-Reach (stores 0 1 adds refl refl)) (unlocks 0 false refl refl)

new_ref_object-Reach_example :
    ((t u : ℕ) → critical (given_back.pc t) ≡ true → critical (given_back.pc u) ≡ true → t ≡ u)
    × (given_back.owner ≡ none
        → (given_back.object ≡ (History.run given_back.history new_ref_object).0)
          × (given_back.destroyed ≡ (History.run given_back.history new_ref_object).1)
          × ((n : ℕ)
              → holders 1 given_back.history ≡ some n
              → (given_back.object.reference ≡ n)
                × (given_back.destroyed ≡ (if n == 0 then 1 else 0))))
new_ref_object-Reach_example = new_ref_object-Reach false given_back given_back-Reach

waiting : contended.pc 1 ≡ waits releases
unfolding put take enter new_thread_lock
waiting = refl

waits-Step_example :
    ((s' : System) × Step contended s' × (s'.pc 1 ≡ inside releases))
    ⊎ ((u : ℕ) × (s' : System) × (contended.owner ≡ some u)
        × Step contended s'
        × (steps_left (s'.pc u) < steps_left (contended.pc u)))
waits-Step_example = waits-Step false contended 1 releases contended-Reach waiting

-- A thread sleeps, is signalled and woken, and another one takes the signal before it.
abbrev slept : Condition.System
slept = record {
  cond = record { available = true; signal = false };
  sleeping = 1;
  woken = 0;
  oks = 0;
  remembered = 0;
}

abbrev signalled : Condition.System
signalled = record {
  cond = record { available = true; signal = true };
  sleeping = 0;
  woken = 1;
  oks = 0;
  remembered = 1;
}

abbrev taken : Condition.System
taken = record {
  cond = record { available = true; signal = false };
  sleeping = 0;
  woken = 1;
  oks = 1;
  remembered = 1;
}

signalled-Reach : Condition.Reach Condition.start signalled
unfolding Condition.start new_thread_condition wait_enter signal
signalled-Reach =
    let first : Condition.Step Condition.start slept = Condition.enters true refl in
    let second : Condition.Step slept signalled =
      Condition.signals true 1 0 refl (λ a b c. omega arith) refl in
    Condition.later (Condition.later Condition.here first) second

taken-Reach : Condition.Reach Condition.start taken
unfolding wait_enter
taken-Reach =
    let third : Condition.Step signalled taken = Condition.enters true refl in
    Condition.later signalled-Reach third

new_thread_condition-Reach_example :
    (taken.cond.signal ≡ true → 0 < taken.sleeping → 0 < taken.woken)
    × (taken.remembered ≤ taken.oks + (if taken.cond.signal then 1 else 0))
new_thread_condition-Reach_example = new_thread_condition-Reach taken taken-Reach
