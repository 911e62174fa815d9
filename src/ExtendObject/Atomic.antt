-- ===== src/ExtendObject/Atomic.antt =====
-- lne/ExtendObject.h, lne/ExtendObject.cpp and lne/ThreadLock.h: threads that call `AddRef` and
-- `Release` of one object, by the single loads, stores and calls on the lock that they do.
pub mod Inv
pub mod Safety
use lne.Prelude.{
  ℕ, zero, suc, ◌+◌, ◌≡◌, Bool, true, false, Option, none, some, List, [], ◌∷◌, ◌++◌, update,
  if◌then◌else◌, ltb,
}
use lne.ThreadLock.{ThreadLock}
use lne.ExtendObject.{RefObject, add_ref, release}
use lne.ExtendObject.History.{RefOp, adds, releases}

-- Where a thread is: outside, in `Lock` with so many tries left or waiting, in the critical section
-- before the load of `reference_`, between it and the store, and after it. The Boolean is `destroy`.
pub data Pc : Type 0 where
  outside : Pc
  tries : RefOp → ℕ → Pc
  waits inside : RefOp → Pc
  loaded : RefOp → ℕ → Pc
  stored : Bool → Pc

-- Threads are numbered. `history` is what the methods that stored were, in that order, and
-- `destroyed` how often `ObjectDestroy` was called.
pub record System : Type 0 where
  pub lock : ThreadLock
  pub owner : Option ℕ
  pub object : RefObject
  pub pc : ℕ → Pc
  pub history : List RefOp
  pub destroyed : ℕ

-- The body of a method on the value that it loaded.
unfoldable pub body : RefOp → ℕ → RefObject × Bool
body adds r = (add_ref (record { reference = r }), false)
body releases r = release (record { reference = r })

unfoldable pub enter : ThreadLock → RefOp → Pc
enter l o = if ltb 0 l.spin_count then tries o l.spin_count else waits o

unfoldable pub put : ℕ → Pc → System → System
put t p s = record s { pc = update s.pc t p }

unfoldable pub take : ℕ → RefOp → System → System
take t o s = record s { pc = update s.pc t (inside o); owner = some t }

unfoldable pub store : ℕ → RefOp → ℕ → System → System
unfolding body
store t o r s =
    let out = body o r in
    record s { pc = update s.pc t (stored out.1); object = out.0; history = s.history ++ o ∷ [] }

-- `Unlock`, after which `ObjectDestroy` is called if the reference was the last.
unfoldable pub unlock : ℕ → Bool → System → System
unlock t destroy s = record s {
  pc = update s.pc t outside;
  owner = none;
  destroyed = s.destroyed + (if destroy then 1 else 0);
}

-- Any thread may step. The mutex is as POSIX documents it: a try takes it if and only if no thread
-- has it, and a wait ends only then.
pub data Step (s : System) (s' : System) : Type 0 where
  calls : (t : ℕ) (o : RefOp) → s.pc t ≡ outside → s' ≡ put t (enter s.lock o) s → Step s s'
  misses :
      (t u k : ℕ) (o : RefOp)
      → s.pc t ≡ tries o (suc k)
      → s.owner ≡ some u
      → s' ≡ put t (tries o k) s
      → Step s s'
  tries_take :
      (t k : ℕ) (o : RefOp)
      → s.pc t ≡ tries o (suc k)
      → s.owner ≡ none
      → s' ≡ take t o s
      → Step s s'
  gives_up : (t : ℕ) (o : RefOp) → s.pc t ≡ tries o 0 → s' ≡ put t (waits o) s → Step s s'
  waits_take : (t : ℕ) (o : RefOp) → s.pc t ≡ waits o → s.owner ≡ none → s' ≡ take t o s → Step s s'
  loads :
      (t : ℕ) (o : RefOp)
      → s.pc t ≡ inside o
      → s' ≡ put t (loaded o s.object.reference) s
      → Step s s'
  stores : (t r : ℕ) (o : RefOp) → s.pc t ≡ loaded o r → s' ≡ store t o r s → Step s s'
  unlocks : (t : ℕ) (destroy : Bool) → s.pc t ≡ stored destroy → s' ≡ unlock t destroy s → Step s s'

pub data Reach (s : System) : System → Type 0 where
  here : Reach s s
  later : {t u : System} → Reach s t → Step t u → Reach s u
