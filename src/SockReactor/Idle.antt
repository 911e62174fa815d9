-- ===== src/SockReactor/Idle.antt =====
-- lne/SockReactor.cpp: which eventers `Timer` times out.
use lne.Prelude.{
  ℕ, zero, suc, ◌-◌, ◌≤◌, ◌<◌, ◌≡◌, refl, sym, subst, ap, ◌∙◌, update, Bool, true, false, List, [],
  ◌∷◌, ◌++◌, ◌==◌, ◌&&◌, not, ltb, arith, ◌⊎◌, inl, inr, Bool-cases, ==_iff, if◌then◌else◌,
}
use mathlib.Core.List.{append-nil}
use lne.Ring.{Ptr, null}
use lne.SockReactor.{SockReactor, timer_loop, timer_round}

-- Eventers that allow it and have not been active for the time that the reactor was made with.
abbrev pub Due : (Ptr → Bool) → ℕ → SockReactor → List Ptr → Type 0
Due idle start r [] = Unit {0}
Due idle start r (e ∷ es) =
    (idle e ≡ true) × (r.idle_timeout ≤ start - r.active e) × Due idle start r es

-- What the walk has done to the reactor so far.
record Walked (start : ℕ) (first : SockReactor) (r : SockReactor) : Type 0 where
  timeout : r.idle_timeout ≡ first.idle_timeout
  touched : (p : Ptr) → (r.active p ≡ first.active p) ⊎ (r.active p ≡ start)

module _ (idle : Ptr → Bool) (start : ℕ) (first : SockReactor)
    (some_time : 0 < first.idle_timeout) where
  -- One step of the walk: the eventer that it meets is due, if it is timed out.
  step_Due :
      (r : SockReactor) (e : Ptr) (es : List Ptr)
      → Walked start first r
      → idle e && ltb (start - r.active e) r.idle_timeout ≡ false
      → Due idle start first es
      → Due idle start first ((if idle e then e ∷ [] else []) ++ es)
  step_Due r e es v h d = elim (Bool-cases (idle e)) [
    | inl y ↦ let t = v.touched e in simp y (refl, ground (arith, v.timeout, t, h, y, some_time), d)
    | inr y ↦ simp y d
  ]

  step_Walked :
      (r : SockReactor) (e now : ℕ)
      → Walked start first r
      → now ≡ start
      → Walked start first (record r { active = update r.active e now })
  step_Walked r e now v same = record {
    timeout = v.timeout;
    touched = λ p. let t = v.touched p in ground (arith, t, same);
  }

  timer_loop-Due :
      (fuel current : ℕ) (clock : List ℕ) (at : Ptr) (r : SockReactor)
      → current ≡ start
      → Walked start first r
      → Due idle start first (timer_loop fuel idle start current clock at r).2
  unfolding timer_loop
  timer_loop-Due zero current clock at r same v = tt
  timer_loop-Due (suc fuel) current [] at r same v = tt
  timer_loop-Due (suc fuel) current (now ∷ clock) at r same v =
      let e = r.next at in
      let test =
        subst (λ c. ltb (c - r.active e) r.idle_timeout ≡ ltb (start - r.active e) r.idle_timeout)
          (sym same) refl in
      elim (Bool-cases (idle e && ltb (current - r.active e) r.idle_timeout)) [
        | inl stops ↦ simp stops tt
        | inr goes ↦
            let fits = sym (ap (λ b. idle e && b) test) ∙ goes in
            (elim (Bool-cases (not (e == r.eventer_circle) && (now == start))) [
              | inl more ↦
                  let again = (==_iff now start).0 (ground (arith, more)) in
                  simp (goes, more)
                    (step_Due r e
                      (timer_loop fuel idle start now clock e
                        (record r { active = update r.active e now })).2
                      v fits
                      (timer_loop-Due fuel now clock e (record r { active = update r.active e now })
                        again (step_Walked r e now v again)))
              | inr ends ↦
                  simp (goes, ends)
                    (subst (Due idle start first) (append-nil (if idle e then e ∷ [] else []))
                      (step_Due r e [] v fits tt))
            ])
      ]

-- A round of `Timer` calls `HandleIdleTimeout` only of eventers that allow it and that, at the time
-- of the round, have not been active for the idle time of the reactor, whatever the clock says on the
-- way.
pub timer_round-Due :
    (fuel : ℕ) (idle : Ptr → Bool) (start : ℕ) (clock : List ℕ) (r : SockReactor)
    → 0 < r.idle_timeout
    → Due idle start r (timer_round fuel idle start clock r).1
unfolding timer_round
timer_round-Due fuel idle start clock r some_time = elim (Bool-cases (r.eventer_circle == null)) [
  | inl e ↦ simp e tt
  | inr e ↦ simp e (
      timer_loop-Due idle start r some_time fuel start clock r.eventer_circle r refl
        (record { timeout = refl; touched = λ p. inl refl }))
]
