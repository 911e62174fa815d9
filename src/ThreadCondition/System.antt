-- ===== src/ThreadCondition/System.antt =====
-- lne/ThreadCondition.h and lne/ThreadCondition.cpp: threads that wait on one condition and threads
-- that signal it, in any order of their critical sections.
use lne.Prelude.{ℕ, suc, ◌+◌, ◌<◌, ◌≤◌, ◌≡◌, refl, Bool, true, false, if◌then◌else◌, arith}
use lne.Config.{Status, is_ok}
use lne.ThreadCondition.{
  ThreadCondition, new_thread_condition, Entered, answered, asleep, wait_enter, wait_leave,
  wait_until_leave, signal,
}

-- The threads that sleep, and those that the system has woken and that do not have the lock yet.
-- `oks` is how many `Wait` answered `LNERR_OK`, `remembered` how many `Signal` set the flag.
pub record System : Type 0 where
  pub cond : ThreadCondition
  pub sleeping : ℕ
  pub woken : ℕ
  pub oks : ℕ
  pub remembered : ℕ

abbrev pub answer : Status → ℕ
answer s = if is_ok s then 1 else 0

-- A thread calls `Wait`.
abbrev pub after_enter : Entered → System → System
after_enter (answered c status) s = record s { cond = c; oks = s.oks + answer status }
after_enter asleep s = record s { sleeping = s.sleeping + 1 }

-- A woken thread comes back from `pthread_cond_wait` or `pthread_cond_timedwait`; `rest` are the
-- others.
abbrev pub after_leave : ThreadCondition × Status → ℕ → System → System
after_leave out rest s = record s { cond = out.0; woken = rest; oks = s.oks + answer out.1 }

-- A thread calls `Signal`, for which the system wakes `woken` threads and leaves `asleep_yet`.
abbrev pub after_signal : ThreadCondition × Status → ℕ → ℕ → System → System
after_signal out woken asleep_yet s = record s {
  cond = out.0;
  sleeping = asleep_yet;
  woken = s.woken + woken;
  remembered = s.remembered + (if s.cond.signal then 0 else answer out.1);
}

-- `pthread_cond_signal` wakes at least one thread if any sleeps, and is called if no signal is
-- remembered; the system may wake a thread at any time besides, and ends a wait with a time.
pub data Step (s : System) (s' : System) : Type 0 where
  enters : (lock_ok : Bool) → s' ≡ after_enter (wait_enter lock_ok s.cond) s → Step s s'
  leaves :
      (rest : ℕ) → s.woken ≡ suc rest → s' ≡ after_leave (wait_leave true s.cond) rest s → Step s s'
  times_out :
      (rest : ℕ)
      → s.sleeping ≡ suc rest
      → s' ≡ record s { cond = (wait_until_leave false true s.cond).0; sleeping = rest }
      → Step s s'
  wakes :
      (rest : ℕ)
      → s.sleeping ≡ suc rest
      → s' ≡ record s { sleeping = rest; woken = s.woken + 1 }
      → Step s s'
  signals :
      (lock_ok : Bool) (woken asleep_yet : ℕ)
      → s.sleeping ≡ woken + asleep_yet
      → (lock_ok ≡ true → s.cond.signal ≡ false → 0 < s.sleeping → 0 < woken)
      → s' ≡ after_signal (signal lock_ok true s.cond) woken asleep_yet s
      → Step s s'

pub data Reach (s : System) : System → Type 0 where
  here : Reach s s
  later : {t u : System} → Reach s t → Step t u → Reach s u

record Inv (s : System) : Type 0 where
  ready : s.cond.available ≡ true
  roused : s.cond.signal ≡ true → 0 < s.sleeping → 0 < s.woken
  kept : s.remembered ≤ s.oks + (if s.cond.signal then 1 else 0)

Step-Inv : {s s' : System} → Step s s' → Inv s → Inv s'
unfolding wait_enter wait_leave wait_until_leave signal
Step-Inv (enters lock_ok e) v = rw e (ground (arith, v.ready, v.roused, v.kept))
Step-Inv (leaves rest w e) v = rw e (ground (arith, v.ready, v.roused, v.kept, w))
Step-Inv (times_out rest w e) v = rw e (ground (arith, v.ready, v.roused, v.kept, w))
Step-Inv (wakes rest w e) v = rw e (ground (arith, v.ready, v.roused, v.kept, w))
Step-Inv (signals lock_ok woken yet w some_woken e) v =
    rw e (ground (arith, v.ready, v.roused, v.kept, w, some_woken))

Reach-Inv : {s s' : System} → Reach s s' → Inv s → Inv s'
Reach-Inv here v = v
Reach-Inv (later r st) v = Step-Inv st (Reach-Inv r v)

unfoldable pub start : System
start = record { cond = new_thread_condition; sleeping = 0; woken = 0; oks = 0; remembered = 0 }

-- However threads wait and signal, also where the system wakes threads that nobody signalled or waits
-- end by their time: while a signal is remembered and threads sleep, some thread is woken already,
-- and at least as many `Wait` answered `LNERR_OK` as signals were remembered, save for the one that
-- is remembered yet, if one is.
pub new_thread_condition-Reach :
    (s : System)
    → Reach start s
    → (s.cond.signal ≡ true → 0 < s.sleeping → 0 < s.woken)
      × (s.remembered ≤ s.oks + (if s.cond.signal then 1 else 0))
unfolding start new_thread_condition
new_thread_condition-Reach s r =
    let v = Reach-Inv r (record { ready = refl; roused = λ e. cc; kept = omega arith }) in
    (v.roused, v.kept)
