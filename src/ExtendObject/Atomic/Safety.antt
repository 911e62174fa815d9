-- ===== src/ExtendObject/Atomic/Safety.antt =====
-- lne/ExtendObject.h and lne/ExtendObject.cpp: what callers on several threads see of `AddRef` and
-- `Release`, from the constructor on.
use lne.Prelude.{
  ℕ, ◌<◌, ◌==◌, ==_self, ◌≡◌, ◌⊎◌, inl, inr, refl, sym, ap, ◌∙◌, Bool, true, false, none, some, [],
  Option-cases, Bool-cases, if◌then◌else◌, arith, ltb,
}
use lne.ThreadLock.{ThreadLock, new_thread_lock}
use lne.ExtendObject.{RefObject, new_ref_object}
use lne.ExtendObject.History
use lne.ExtendObject.History.{RefOp, holders, run-new_ref_object}
use lne.ExtendObject.Atomic.{
  Pc, outside, tries, waits, inside, loaded, stored, System, enter, put, take, store, unlock, Step,
  calls, misses, tries_take, gives_up, waits_take, loads, stores, unlocks, Reach, here, later,
}
use lne.ExtendObject.Atomic.Inv.{
  critical, Inv, put-Inv, take-Inv, load-Inv, store-Inv, unlock-Inv, IsFresh,
}

-- The constructor, before any thread calls.
unfoldable pub start : (fast_mode : Bool) → System
start fast_mode = record {
  lock = new_thread_lock fast_mode;
  owner = none;
  object = new_ref_object;
  pc = λ _. outside;
  history = [];
  destroyed = 0;
}

enter_outside :
    (l : ThreadLock) (o : RefOp) (object : RefObject)
    → (critical (enter l o) ≡ false) × IsFresh object (enter l o)
unfolding enter
enter_outside l o object = elim (Bool-cases (ltb 0 l.spin_count)) [
  | inl e ↦ simp e (refl, tt)
  | inr e ↦ simp e (refl, tt)
]

Step-Inv : (first : RefObject) {s s' : System} → Step s s' → Inv first s → Inv first s'
Step-Inv first {s} (calls t o at e) v =
    let out = enter_outside s.lock o s.object in
    rw e (put-Inv first s t (enter s.lock o) (simp at refl) out.0 out.1 v)
Step-Inv first {s} (misses t u k o at _ e) v =
    rw e (put-Inv first s t (tries o k) (simp at refl) refl tt v)
Step-Inv first {s} (tries_take t k o at free e) v = rw e (take-Inv first s t o free v)
Step-Inv first {s} (gives_up t o at e) v =
    rw e (put-Inv first s t (waits o) (simp at refl) refl tt v)
Step-Inv first {s} (waits_take t o at free e) v = rw e (take-Inv first s t o free v)
Step-Inv first {s} (loads t o at e) v = rw e (load-Inv first s t o at v)
Step-Inv first {s} (stores t r o at e) v = rw e (store-Inv first s t r o at v)
Step-Inv first {s} (unlocks t destroy at e) v = rw e (unlock-Inv first s t destroy at v)

Reach-Inv : (first : RefObject) {s s' : System} → Reach s s' → Inv first s → Inv first s'
Reach-Inv first here v = v
Reach-Inv first (later r st) v = Step-Inv first st (Reach-Inv first r v)

start-Inv : (fast_mode : Bool) → Inv new_ref_object (start fast_mode)
unfolding start History.run
start-Inv fast_mode = record {
  owns = λ t c. cc;
  owned = λ t e. cc;
  fresh = λ t. tt;
  current = refl;
  counted = refl;
}

-- However the loads and stores of the threads interleave, at most one thread is in the critical
-- section; and while none is, the object is as if the methods had been called one after the other, in
-- the order of their stores, with as many calls of `ObjectDestroy`. Where only holders call, the
-- counter is the number of holders, and `ObjectDestroy` was called once if there is none left and
-- never otherwise.
pub new_ref_object-Reach :
    (fast_mode : Bool) (s : System)
    → Reach (start fast_mode) s
    → ((t u : ℕ) → critical (s.pc t) ≡ true → critical (s.pc u) ≡ true → t ≡ u)
      × (s.owner ≡ none
          → (s.object ≡ (History.run s.history new_ref_object).0)
            × (s.destroyed ≡ (History.run s.history new_ref_object).1)
            × ((n : ℕ)
                → holders 1 s.history ≡ some n
                → (s.object.reference ≡ n) × (s.destroyed ≡ (if n == 0 then 1 else 0))))
new_ref_object-Reach fast_mode s r =
    let v = Reach-Inv new_ref_object r (start-Inv fast_mode) in
    (
      (λ t u c d. ground (arith, v.owns t c, v.owns u d)),
      (λ free.
          let once : s.destroyed ≡ (History.run s.history new_ref_object).1 =
            ground (arith, v.counted, free) in
          (
            sym v.current,
            once,
            (λ n h.
                let k = run-new_ref_object s.history n h in
                (ap (λ (x : RefObject). x.reference) (sym v.current) ∙ k.0, once ∙ k.1)),
          )),
    )

-- How many steps a thread still takes in the critical section.
abbrev pub steps_left : Pc → ℕ
steps_left (inside o) = 3
steps_left (loaded o r) = 2
steps_left (stored d) = 1
steps_left _ = 0

owner_steps :
    (s : System) (u : ℕ) (p : Pc)
    → s.pc u ≡ p
    → critical p ≡ true
    → (s' : System) × Step s s' × (steps_left (s'.pc u) < steps_left p)
unfolding put store unlock
owner_steps s u (inside o) at c =
    (put u (loaded o s.object.reference) s, loads u o at refl, simp (==_self u) (omega arith))
owner_steps s u (loaded o r) at c =
    (store u o r s, stores u r o at refl, simp (==_self u) (omega arith))
owner_steps s u (stored d) at c =
    (unlock u d s, unlocks u d at refl, simp (==_self u) (omega arith))
owner_steps s u outside at c = cc
owner_steps s u (tries o k) at c = cc
owner_steps s u (waits o) at c = cc

-- A thread that waits for the lock can take it, or else the thread that has it can step towards
-- giving it back.
pub waits-Step :
    (fast_mode : Bool) (s : System) (t : ℕ) (o : RefOp)
    → Reach (start fast_mode) s
    → s.pc t ≡ waits o
    → ((s' : System) × Step s s' × (s'.pc t ≡ inside o))
      ⊎ ((u : ℕ) × (s' : System) × (s.owner ≡ some u)
          × Step s s'
          × (steps_left (s'.pc u) < steps_left (s.pc u)))
unfolding take
waits-Step fast_mode s t o r at =
    let v = Reach-Inv new_ref_object r (start-Inv fast_mode) in
    elim (Option-cases s.owner) [
      | inl free ↦ inl (take t o s, waits_take t o at free refl, simp (==_self t) refl)
      | inr (u, e) ↦
          let out = owner_steps s u (s.pc u) refl (v.owned u e) in inr (u, out.0, e, out.1, out.2)
    ]
