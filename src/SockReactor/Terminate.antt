-- ===== src/SockReactor/Terminate.antt =====
-- lne/SockReactor.cpp: the destructor ends every eventer that is still bound.
use lne.Prelude.{
  ℕ, zero, suc, ◌+◌, ◌≤◌, ◌≡◌, ap, sym, subst, ◌∙◌, false, List, [], ◌∷◌, ◌==◌, arith, length,
  ==_self,
}
use lne.Ring.{Ptr, has, Distinct, last, Dll}
use lne.SockReactor.{SockReactor, terminate_loop}
use lne.SockReactor.Circle.{Bound}

terminate_loop-Dll :
    (fuel : ℕ) (r : SockReactor) (p x : Ptr) (xs : List Ptr)
    → Dll r.prev r.next p x xs r.eventer_circle
    → has r.eventer_circle xs ≡ false
    → length xs + 1 ≤ fuel
    → terminate_loop fuel x r ≡ x ∷ xs
unfolding terminate_loop
terminate_loop-Dll zero r p x xs d apart enough = absurd (omega arith)
terminate_loop-Dll (suc fuel) r p x [] d apart enough = ground (arith, d, ==_self r.eventer_circle)
terminate_loop-Dll (suc fuel) r p x (y ∷ ys) d apart enough =
    let ih = terminate_loop-Dll fuel r x y ys d.2 (ground (arith, apart)) (omega arith) in
    let ne : (y == r.eventer_circle) ≡ false = ground (arith, apart) in
    rw (d.1, ne) (ap (λ l. x ∷ l) ih)

-- With fuel for every eventer in the circle the destructor's walk ends, and it has called
-- `HandleTerminate` of each of them once, in the order of the circle.
pub terminate_loop-Bound :
    (fuel : ℕ) (r : SockReactor) (x : Ptr) (xs : List Ptr)
    → Distinct (x ∷ xs)
    → Bound r (x ∷ xs)
    → length xs + 1 ≤ fuel
    → terminate_loop fuel r.eventer_circle r ≡ x ∷ xs
terminate_loop-Bound fuel r x xs d b enough =
    let segment : Dll r.prev r.next (last x xs) x xs r.eventer_circle =
      subst (Dll r.prev r.next (last x xs) x xs) (sym b.0) b.1 in
    ap (λ c. terminate_loop fuel c r) b.0
    ∙ terminate_loop-Dll fuel r (last x xs) x xs segment (ap (λ c. has c xs) b.0 ∙ d.1) enough
