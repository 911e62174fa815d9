-- ===== src/SockReactor/History.antt =====
-- lne/SockReactor.cpp: which eventers the circle holds after any calls of `Bind` and `UnBind` and any
-- rounds of `Timer`, each of which holds the lock for its whole change, and events of `Service`.
use lne.Prelude.{
  ℕ, ◌≡◌, ◌≢◌, sym, subst, ap, ◌∙◌, Bool, true, false, ◌&&◌, ◌||◌, not, List, [], ◌∷◌, ◌++◌, ◌==◌,
  arith, inl, inr, Bool-cases, ==_iff,
}
use lne.Ring.{Ptr, null, has, Distinct}
use lne.Ring.Relink.{has-append}
use lne.Ring.Distinct.{Distinct-middle}
use lne.SockReactor.{SockReactor, EpollEvent, bind, unbind, timer_round, service_event}
use lne.SockReactor.Circle.{Bound, Left, bind-Bound, unbind-Left, Distinct-swap}
use lne.SockReactor.Timer.{timer_round-Left, has-split}

pub data Op : Type 0 where
  binds : (eventer : Ptr) (time : ℕ) → Op
  unbinds : (eventer : Ptr) → Op
  times : (fuel : ℕ) (idle : Ptr → Bool) (start : ℕ) (clock : List ℕ) → Op
  serves : (time : ℕ) (event : EpollEvent) → Op

unfoldable pub apply : Op → SockReactor → SockReactor
apply (binds eventer time) r = bind eventer time r
apply (unbinds eventer) r = unbind eventer r
apply (times fuel idle start clock) r = (timer_round fuel idle start clock r).0
apply (serves time event) r = (service_event time event r).0

unfoldable pub run : List Op → SockReactor → SockReactor
unfolding apply
run [] r = r
run (o ∷ ops) r = run ops (apply o r)

-- Whether an eventer is bound after some calls, if it was before or not.
abbrev pub still : Ptr → List Op → Bool → Bool
still p [] before = before
still p (binds eventer time ∷ ops) before = still p ops (p == eventer || before)
still p (unbinds eventer ∷ ops) before = still p ops (not (p == eventer) && before)
still p (times fuel idle start clock ∷ ops) before = still p ops before
still p (serves time event ∷ ops) before = still p ops before

-- An eventer is bound only when it is not, and unbound only when it is.
abbrev pub InTurn : List Op → (Ptr → Bool) → Type 0
InTurn [] bound = Unit {0}
InTurn (binds eventer time ∷ ops) bound =
    (eventer ≢ null) × (bound eventer ≡ false) × InTurn ops (λ p. p == eventer || bound p)
InTurn (unbinds eventer ∷ ops) bound =
    (bound eventer ≡ true) × InTurn ops (λ p. not (p == eventer) && bound p)
InTurn (times fuel idle start clock ∷ ops) bound = InTurn ops bound
InTurn (serves time event ∷ ops) bound = InTurn ops bound

-- The circle of the reactor is the eventers that are bound, each once.
pub record Holds (r : SockReactor) (bound : Ptr → Bool) : Type 0 where
  pub eventers : List Ptr
  pub circle : Bound r eventers
  pub distinct : Distinct eventers
  pub members : (p : Ptr) → has p eventers ≡ bound p

Left-Holds :
    (r : SockReactor) (xs : List Ptr) (bound : Ptr → Bool)
    → Left r xs
    → Distinct xs
    → ((p : Ptr) → has p xs ≡ bound p)
    → Holds r bound
unfolding Left
Left-Holds r xs bound (us, vs, e, c) d members = record {
  eventers = vs ++ us;
  circle = c;
  distinct = Distinct-swap us vs (subst Distinct e d);
  members = λ p. ground (arith, members p, ap (has p) e, has-append p us vs, has-append p vs us);
}

apply_binds-Holds :
    (e : Ptr) (time : ℕ) (r : SockReactor) (bound : Ptr → Bool)
    → e ≢ null
    → bound e ≡ false
    → Holds r bound
    → Holds (bind e time r) (λ p. p == e || bound p)
apply_binds-Holds e time r bound ne free v =
    let d : Distinct (e ∷ v.eventers) = (ne, v.members e ∙ free, v.distinct) in
    record {
      eventers = e ∷ v.eventers;
      circle = (bind-Bound e time r v.eventers d v.circle).0;
      distinct = d;
      members = λ p. ap (λ b. p == e || b) (v.members p);
    }

apply_unbinds-Holds :
    (e : Ptr) (r : SockReactor) (bound : Ptr → Bool)
    → bound e ≡ true
    → Holds r bound
    → Holds (unbind e r) (λ p. not (p == e) && bound p)
apply_unbinds-Holds e r bound held v =
    let (us, vs, same) = has-split e v.eventers (v.members e ∙ held) in
    let d = subst Distinct same v.distinct in
    let m = Distinct-middle us e vs d in
    Left-Holds (unbind e r) (vs ++ us) (λ p. not (p == e) && bound p)
      (unbind-Left e r us vs d (subst (Bound r) same v.circle)) (Distinct-swap us vs m.2)
      (λ p. elim (Bool-cases (p == e)) [
        | inl y ↦ simp y (
            subst (λ q. has q (vs ++ us) ≡ false) (sym ((==_iff p e).0 y))
              (ground (arith, m.1, has-append e us vs, has-append e vs us)))
        | inr y ↦ simp y (
            ground (
              arith,
              y,
              sym (v.members p),
              ap (has p) same,
              has-append p us (e ∷ vs),
              has-append p vs us,
            ))
      ])

apply_times-Holds :
    (fuel : ℕ) (idle : Ptr → Bool) (start : ℕ) (clock : List ℕ) (r : SockReactor)
    (bound : Ptr → Bool)
    → Holds r bound
    → Holds (timer_round fuel idle start clock r).0 bound
apply_times-Holds fuel idle start clock r bound v =
    Left-Holds (timer_round fuel idle start clock r).0 v.eventers bound
      (timer_round-Left fuel idle start clock r v.eventers v.distinct v.circle) v.distinct v.members

apply_serves-Holds :
    (time : ℕ) (event : EpollEvent) (r : SockReactor) (bound : Ptr → Bool)
    → Holds r bound
    → Holds (service_event time event r).0 bound
unfolding service_event
apply_serves-Holds time event r bound v = record {
  eventers = v.eventers;
  circle = v.circle;
  distinct = v.distinct;
  members = v.members;
}

-- In any order of calls of `Bind` and `UnBind`, rounds of `Timer` and events of `Service`, in which
-- an eventer is bound only when it is not bound and unbound only when it is, the reactor's circle is
-- well formed and holds exactly the eventers that are bound, each once.
pub run-Holds :
    (ops : List Op) (r : SockReactor) (bound : Ptr → Bool)
    → InTurn ops bound
    → Holds r bound
    → Holds (run ops r) (λ p. still p ops (bound p))
unfolding run apply
run-Holds [] r bound turn v = v
run-Holds (binds e time ∷ ops) r bound turn v =
    run-Holds ops (bind e time r) (λ p. p == e || bound p) turn.2
      (apply_binds-Holds e time r bound turn.0 turn.1 v)
run-Holds (unbinds e ∷ ops) r bound turn v =
    run-Holds ops (unbind e r) (λ p. not (p == e) && bound p) turn.1
      (apply_unbinds-Holds e r bound turn.0 v)
run-Holds (times fuel idle start clock ∷ ops) r bound turn v =
    run-Holds ops (timer_round fuel idle start clock r).0 bound turn
      (apply_times-Holds fuel idle start clock r bound v)
run-Holds (serves time event ∷ ops) r bound turn v =
    run-Holds ops (service_event time event r).0 bound turn
      (apply_serves-Holds time event r bound v)
