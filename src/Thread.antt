-- ===== src/Thread.antt =====
-- lne/Thread.h and lne/Thread.cpp, and lne/BaseObject.h for whether an object is available: a thread
-- that is started and joined. What the system answers is an argument.
pub mod Joined
pub mod Sleep
use lne.Prelude.{ℕ, Option, none, some, Bool, true, false, List, [], ◌∷◌, if◌then◌else◌}
use lne.Config.{Status, lnerr_ok, lnerr_unknow, lnerr_noinit, lnerr_reentry}

-- `Available`.
pub record Available : Type 0 where
  pub available : Bool

unfoldable pub is_available : Available → Bool
is_available a = a.available

unfoldable pub set_available : Bool → Available → Available
set_available available a = record { available = available }

-- What a call does outside: the system's thread is made or joined, the `Runnable` is told to end.
pub data Event : Type 0 where
  created joined terminated : Event

unfoldable pub active : (create_ok : Bool) → Available → Available × Status × List Event
unfolding is_available set_available
active create_ok t =
    if is_available t
    then (t, lnerr_reentry, [])
    else (if create_ok
        then (set_available true t, lnerr_ok, created ∷ [])
        else (t, lnerr_unknow, []))

unfoldable pub wait : Available → Available × Status × List Event
unfolding is_available set_available
wait t =
    if is_available t
    then (set_available false t, lnerr_ok, terminated ∷ joined ∷ [])
    else (t, lnerr_noinit, terminated ∷ [])

-- `NewInstance`. The Boolean is whether `new` gets memory.
unfoldable pub new_instance : Bool → Option Available
new_instance memory = if memory then some (record { available = false }) else none

-- `Release`: the destructor waits.
unfoldable pub release : Available → List Event
unfolding wait
release t = (wait t).2

-- `ThreadRoutine` runs the service of the `Runnable`.
unfoldable pub thread_routine {ℓ} : {S : Type ℓ} → (S → S) → S → S
thread_routine service s = service s
