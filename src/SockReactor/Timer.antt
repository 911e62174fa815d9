-- ===== src/SockReactor/Timer.antt =====
-- lne/SockReactor.cpp: the walk of `Timer` stays in the circle.
use lne.Prelude.{
  ℕ, zero, suc, ◌≡◌, refl, sym, subst, ap, update, Bool, true, false, List, [], ◌∷◌, ◌++◌, ◌==◌,
  arith, ◌⊎◌, inl, inr, Bool-cases, ==_iff,
}
use lne.Ring.{Ptr, null, has, Distinct, last, Dll, Ring}
use lne.SockReactor.{SockReactor, timer_loop, timer_round}
use lne.SockReactor.Circle.{Bound, Left, Cyclic, Cyclic-rotate}

Dll-next :
    (prev next : Ptr → Ptr) (p x : Ptr) (xs : List Ptr) (q a : Ptr)
    → Dll prev next p x xs q
    → has a (x ∷ xs) ≡ true
    → (next a ≡ q) ⊎ (has (next a) xs ≡ true)
Dll-next prev next p x [] q a d h = inl (ground (arith, d))
Dll-next prev next p x (y ∷ ys) q a d h = elim (Bool-cases (a == x)) [
  | inl e ↦ inr (ground (arith, d.1, e))
  | inr e ↦ elim (Dll-next prev next x y ys q a d.2 (ground (arith, e))) [
    | inl f ↦ inl f
    | inr f ↦ inr (ground (arith, f))
  ]
]

Ring-next :
    (prev next : Ptr → Ptr) (x : Ptr) (xs : List Ptr) (a : Ptr)
    → Ring prev next x xs
    → has a (x ∷ xs) ≡ true
    → has (next a) (x ∷ xs) ≡ true
Ring-next prev next x xs a d h = elim (Dll-next prev next (last x xs) x xs x a d h) [
  | inl e ↦ ground (arith, e)
  | inr e ↦ ground (arith, e)
]

pub has-split :
    (a : Ptr) (xs : List Ptr)
    → has a xs ≡ true
    → (us : List Ptr) × (vs : List Ptr) × (xs ≡ us ++ a ∷ vs)
has-split a [] h = absurd (false_true h)
  where
    false_true : false ≡ true → ⊥
    false_true e = cc
has-split a (x ∷ xs) h = elim (Bool-cases (a == x)) [
  | inl e ↦ ([], xs, ap (λ y. y ∷ xs) (sym ((==_iff a x).0 e)))
  | inr e ↦ let r = has-split a xs (ground (arith, e)) in (x ∷ r.0, r.1, ap (λ l. x ∷ l) r.2)
]

timer_loop_lem :
    (fuel : ℕ) (idle : Ptr → Bool) (start current : ℕ) (clock : List ℕ) (at : Ptr) (r : SockReactor)
    (x : Ptr) (xs : List Ptr)
    → Ring r.prev r.next x xs
    → has at (x ∷ xs) ≡ true
    → let out = timer_loop fuel idle start current clock at r in
      (out.0.prev ≡ r.prev) × (out.0.next ≡ r.next) × (has out.1 (x ∷ xs) ≡ true)
unfolding timer_loop
timer_loop_lem zero idle start current clock at r x xs d h = (refl, refl, h)
timer_loop_lem (suc fuel) idle start current [] at r x xs d h = (refl, refl, h)
timer_loop_lem (suc fuel) idle start current (now ∷ clock) at r x xs d h =
    let on = Ring-next r.prev r.next x xs at d h in
    let ih =
      timer_loop_lem fuel idle start now clock (r.next at)
        (record r { active = update r.active (r.next at) now }) x xs d on in
    ground (arith, on, ih)

timer_round-nil :
    (fuel : ℕ) (idle : Ptr → Bool) (start : ℕ) (clock : List ℕ) (r : SockReactor)
    → r.eventer_circle ≡ null
    → timer_round fuel idle start clock r ≡ (r, [])
unfolding timer_round
timer_round-nil fuel idle start clock r e = ground (arith, e)

timer_round-cons :
    (fuel : ℕ) (idle : Ptr → Bool) (start : ℕ) (clock : List ℕ) (r : SockReactor)
    → (r.eventer_circle == null) ≡ false
    → let out = timer_loop fuel idle start start clock r.eventer_circle r in
      timer_round fuel idle start clock r ≡ (record out.0 { eventer_circle = out.1 }, out.2)
unfolding timer_round
timer_round-cons fuel idle start clock r e = ground (arith, e)

-- Whatever the clock says and whichever eventers allow to be timed out, a round of `Timer` leaves
-- the circle with the same eventers in the same cyclic order, and the reactor points at one of them.
pub timer_round-Left :
    (fuel : ℕ) (idle : Ptr → Bool) (start : ℕ) (clock : List ℕ) (r : SockReactor) (xs : List Ptr)
    → Distinct xs
    → Bound r xs
    → Left (timer_round fuel idle start clock r).0 xs
unfolding Left
timer_round-Left fuel idle start clock r [] d b =
    subst (λ (o : SockReactor × List Ptr). Left o.0 [])
      (sym (timer_round-nil fuel idle start clock r b)) ([], [], refl, b)
timer_round-Left fuel idle start clock r (x ∷ xs) d b =
    let out = timer_loop fuel idle start start clock r.eventer_circle r in
    let k =
      timer_loop_lem fuel idle start start clock r.eventer_circle r x xs b.1
        (ground (arith, b.0)) in
    let s = has-split out.1 (x ∷ xs) k.2 in
    subst (λ (o : SockReactor × List Ptr). Left o.0 (x ∷ xs))
      (sym (timer_round-cons fuel idle start clock r (ground (arith, b.0, d.0))))
      (
        s.0,
        out.1 ∷ s.1,
        s.2,
        (
          refl,
          subst (λ prev. Cyclic prev out.0.next (out.1 ∷ s.1 ++ s.0)) (sym k.0)
              (subst (λ next. Cyclic r.prev next (out.1 ∷ s.1 ++ s.0)) (sym k.1)
                (Cyclic-rotate r.prev r.next s.0 (out.1 ∷ s.1)
                  (subst (Cyclic r.prev r.next) s.2 b.1))),
        ),
      )
