-- ===== src/SockReactor/Loops.antt =====
-- lne/SockReactor.cpp: `Bind` with its `HandleBind`, and the loops of `Timer` and `Service` as
-- histories of the reactor.
use lne.Prelude.{
  ℕ, ◌≡◌, refl, Bool, true, false, Option, none, some, List, [], ◌∷◌, ◌++◌, if◌then◌else◌,
  Bool-cases, inl, inr,
}
use lne.Ring.{Ptr}
use lne.SockReactor.{SockReactor, Call, EpollEvent, bind, timer_round, service_event}
use lne.SockReactor.History.{Op, times, serves, run, apply}

-- `Bind`: whether `HandleBind` succeeds is an argument. It answers the eventers for which it calls
-- `HandleTerminate`.
unfoldable pub bind_eventer : (bound : Bool) → Ptr → ℕ → SockReactor → SockReactor × List Ptr
bind_eventer bound eventer time r = if bound then (bind eventer time r, []) else (r, eventer ∷ [])

-- A round of `Timer`, and whether `exit_request_` is set after it.
pub record Round : Type 0 where
  pub fuel : ℕ
  pub idle : Ptr → Bool
  pub start : ℕ
  pub clock : List ℕ
  pub exits : Bool

-- `Timer`: the eventers that were timed out.
unfoldable pub timer : List Round → SockReactor → SockReactor × List Ptr
timer [] r = (r, [])
timer (t ∷ ts) r =
    let out = timer_round t.fuel t.idle t.start t.clock r in
    let rest = timer ts out.0 in if t.exits then out else (rest.0, out.1 ++ rest.1)

-- What `epoll_wait` answers, with the time after it, and whether `exit_request_` is set then.
pub record Poll : Type 0 where
  pub event : Option (ℕ × EpollEvent)
  pub exits : Bool

unfoldable pub service_poll : Option (ℕ × EpollEvent) → SockReactor → SockReactor × List Call
service_poll none r = (r, [])
service_poll (some (time, event)) r = service_event time event r

-- `Service`: the handlers that it called.
unfoldable pub service : List Poll → SockReactor → SockReactor × List Call
unfolding service_poll
service [] r = (r, [])
service (p ∷ ps) r =
    let out = service_poll p.event r in
    let rest = service ps out.0 in if p.exits then out else (rest.0, out.1 ++ rest.1)

-- The rounds of a run of `Timer` as a history.
abbrev pub timer_history : List Round → List Op
timer_history [] = []
timer_history (t ∷ ts) =
    let rest = timer_history ts in
    times t.fuel t.idle t.start t.clock ∷ (if t.exits then [] else rest)

abbrev pub service_history : List Poll → List Op
service_history [] = []
service_history (p ∷ ps) =
    let rest = if p.exits then [] else service_history ps in
    elim (p.event) [ none ↦ rest | some (time, event) ↦ serves time event ∷ rest ]

-- The loop of `Timer` does to the reactor what its rounds do, until it is asked to exit.
pub timer-run : (ts : List Round) (r : SockReactor) → (timer ts r).0 ≡ run (timer_history ts) r
unfolding timer run apply
timer-run [] r = refl
timer-run (t ∷ ts) r = elim (Bool-cases t.exits) [
  | inl e ↦ simp e refl
  | inr e ↦ simp e (timer-run ts (timer_round t.fuel t.idle t.start t.clock r).0)
]

service_cons :
    (event : Option (ℕ × EpollEvent)) (exits : Bool) (ps : List Poll) (r : SockReactor)
    → ((q : SockReactor) → (service ps q).0 ≡ run (service_history ps) q)
    → let p : Poll = record { event = event; exits = exits } in
      (service (p ∷ ps) r).0 ≡ run (service_history (p ∷ ps)) r
unfolding service run apply service_poll
service_cons none true ps r ih = refl
service_cons none false ps r ih = ih r
service_cons (some (time, event)) true ps r ih = refl
service_cons (some (time, event)) false ps r ih = ih (service_event time event r).0

-- The loop of `Service` does to the reactor what the events that it passes on do.
pub service-run : (ps : List Poll) (r : SockReactor) → (service ps r).0 ≡ run (service_history ps) r
unfolding service run
service-run [] r = refl
service-run (p ∷ ps) r = service_cons p.event p.exits ps r (service-run ps)
