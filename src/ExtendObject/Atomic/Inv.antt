-- ===== src/ExtendObject/Atomic/Inv.antt =====
-- lne/ExtendObject.h and lne/ExtendObject.cpp: what the threads keep true with each load, store and
-- call on the lock.
use lne.Prelude.{
  ℕ, ◌+◌, ◌==◌, ==_of_ne, ==_self, Bool-cases, inl, inr, ◌≡◌, ◌≢◌, refl, sym, subst, ap, ◌∙◌, Bool,
  true, false, Option, none, some, List, [], ◌∷◌, ◌++◌, update, if◌then◌else◌, arith,
}
use lne.ExtendObject.{RefObject, add_ref, release}
use lne.ExtendObject.History
use lne.ExtendObject.History.{RefOp, adds, releases}
use lne.ExtendObject.Atomic.{
  Pc, outside, tries, waits, inside, loaded, stored, System, body, put, take, store, unlock,
}

-- Whether a thread is in the critical section, and whether it will call `ObjectDestroy`.
abbrev pub critical : Pc → Bool
critical (inside o) = true
critical (loaded o r) = true
critical (stored d) = true
critical _ = false

abbrev pub pending : Pc → ℕ
pending (stored true) = 1
pending _ = 0

abbrev pub owed : Option ℕ → (ℕ → Pc) → ℕ
owed none pc = 0
owed (some t) pc = pending (pc t)

-- What was loaded is still there.
abbrev pub IsFresh : RefObject → Pc → Type 0
IsFresh object (loaded o r) = r ≡ object.reference
IsFresh object _ = Unit {0}

pub record Inv (first : RefObject) (s : System) : Type 0 where
  pub owns : (t : ℕ) → critical (s.pc t) ≡ true → s.owner ≡ some t
  pub owned : (t : ℕ) → s.owner ≡ some t → critical (s.pc t) ≡ true
  pub fresh : (t : ℕ) → IsFresh s.object (s.pc t)
  pub current : (History.run s.history first).0 ≡ s.object
  pub counted : (History.run s.history first).1 ≡ s.destroyed + owed s.owner s.pc

run-snoc :
    (ops : List RefOp) (o : RefOp) (r : RefObject)
    → let before = History.run ops r in
      let out = body o before.0.reference in
      ((History.run (ops ++ o ∷ []) r).0 ≡ out.0)
      × ((History.run (ops ++ o ∷ []) r).1 ≡ before.1 + (if out.1 then 1 else 0))
unfolding History.run body
run-snoc [] adds r = ground arith
run-snoc [] releases r = ground arith
run-snoc (adds ∷ ops) o r = run-snoc ops o (add_ref r)
run-snoc (releases ∷ ops) o r = ground (arith, run-snoc ops o (release r).0)

false-ne-true : false ≡ true → ⊥
false-ne-true e = cc

IsFresh-outside : (object : RefObject) (p : Pc) → critical p ≡ false → IsFresh object p
IsFresh-outside object (loaded o r) h = absurd (false-ne-true (sym h))
IsFresh-outside object outside h = tt
IsFresh-outside object (tries o k) h = tt
IsFresh-outside object (waits o) h = tt
IsFresh-outside object (inside o) h = tt
IsFresh-outside object (stored d) h = tt

IsFresh-update :
    (object : RefObject) (pc : ℕ → Pc) (t u : ℕ) (p : Pc)
    → IsFresh object p
    → IsFresh object (pc u)
    → IsFresh object (update pc t p u)
IsFresh-update object pc t u p new old = elim (Bool-cases (u == t)) [
  | inl e ↦ simp e new
  | inr e ↦ simp e old
]

owed-update :
    (o : Option ℕ) (pc : ℕ → Pc) (t : ℕ) (p : Pc) → o ≢ some t → owed o (update pc t p) ≡ owed o pc
owed-update none pc t p other = refl
owed-update (some u) pc t p other =
    let apart : (u == t) ≡ false = ==_of_ne u t (λ e. other (ap some e)) in simp apart refl

-- A thread that moves outside the critical section.
pub put-Inv :
    (first : RefObject) (s : System) (t : ℕ) (p : Pc)
    → critical (s.pc t) ≡ false
    → critical p ≡ false
    → IsFresh s.object p
    → Inv first s
    → Inv first (put t p s)
unfolding put
put-Inv first s t p before after fresh v = record {
  owns = λ u c. ground (arith, v.owns u);
  owned = λ u e. ground (arith, v.owned u, v.owned t);
  fresh = λ u. IsFresh-update s.object s.pc t u p fresh (v.fresh u);
  current = v.current;
  counted =
      v.counted
      ∙ ap (λ n. s.destroyed + n)
          (sym (owed-update s.owner s.pc t p (λ e. false-ne-true (sym before ∙ v.owned t e))));
}

pub take-Inv :
    (first : RefObject) (s : System) (t : ℕ) (o : RefOp)
    → s.owner ≡ none
    → Inv first s
    → Inv first (take t o s)
unfolding take
take-Inv first s t o free v = record {
  owns = λ u c. ground (arith, v.owns u, free);
  owned = λ u e. ground (arith, v.owned u, v.owned t);
  fresh = λ u. IsFresh-update s.object s.pc t u (inside o) tt (v.fresh u);
  current = v.current;
  counted = ground (arith, v.counted, free);
}

-- The load; `p` is what the thread becomes.
pub load-Inv :
    (first : RefObject) (s : System) (t : ℕ) (o : RefOp)
    → s.pc t ≡ inside o
    → Inv first s
    → Inv first (put t (loaded o s.object.reference) s)
unfolding put
load-Inv first s t o at v = record {
  owns = λ u c. ground (arith, v.owns u, v.owns t, at);
  owned = λ u e. ground (arith, v.owned u, v.owned t);
  fresh = λ u. IsFresh-update s.object s.pc t u (loaded o s.object.reference) refl (v.fresh u);
  current = v.current;
  counted = ground (arith, v.counted, at, v.owns t, ==_self t);
}

pub store-Inv :
    (first : RefObject) (s : System) (t r : ℕ) (o : RefOp)
    → s.pc t ≡ loaded o r
    → Inv first s
    → Inv first (store t o r s)
unfolding store
store-Inv first s t r o at v =
    let same : r ≡ s.object.reference = subst (IsFresh s.object) at (v.fresh t) in
    let mine : s.owner ≡ some t = v.owns t (simp at refl) in
    let done = run-snoc s.history o first in
    let loaded_now = ap (λ (x : RefObject). x.reference) v.current ∙ sym same in
    record {
      owns = λ u c. ground (arith, v.owns u, mine);
      owned = λ u e. ground (arith, v.owned u, mine);
      fresh = λ u. elim (Bool-cases (u == t)) [
        | inl e ↦ simp e tt
        | inr e ↦ simp e (IsFresh-outside (body o r).0 (s.pc u) (ground (arith, v.owns u, mine)))
      ];
      current = done.0 ∙ ap (λ n. (body o n).0) loaded_now;
      counted =
          ground (arith, done.1, ap (λ n. (body o n).1) loaded_now, v.counted, mine, at, ==_self t);
    }

pub unlock-Inv :
    (first : RefObject) (s : System) (t : ℕ) (destroy : Bool)
    → s.pc t ≡ stored destroy
    → Inv first s
    → Inv first (unlock t destroy s)
unfolding unlock
unlock-Inv first s t destroy at v =
    let mine : s.owner ≡ some t = v.owns t (simp at refl) in
    record {
      owns = λ u c. ground (arith, v.owns u, mine);
      owned = λ u e. cc;
      fresh = λ u. IsFresh-update s.object s.pc t u outside tt (v.fresh u);
      current = v.current;
      counted = ground (arith, v.counted, mine, at);
    }
