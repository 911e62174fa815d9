-- ===== src/SockSpring/Accept.antt =====
-- lne/SockSpring.cpp: which clients the loop of `__HandleRead` hands over, and what is closed.
use lne.Prelude.{
  ℕ, ◌≡◌, ◌≢◌, ◌⊎◌, refl, sym, subst, ap, Bool, true, false, Bool-cases, inl, inr, Option, none,
  some, List, [], ◌∷◌, ◌++◌, if◌then◌else◌, arith,
}
use mathlib.Core.List.{append-nil}
use lne.Ring.{null}
use lne.SockPad
use lne.SockPad.{SockPad}
use lne.SockSpring.{
  SockSpring, Event, closed, handle_client, unbound, handle_terminated, Turn, Answer, accepted,
  interrupted, failed, accept_loop, accept_locked, serve, shutdown, shutdown_locked, shutdown_once,
  after, between, answer_events, closed_all,
}

-- The turns in which `accept` is called and does not end the loop: until it fails, or until the
-- listening socket is shut.
abbrev pub live_turns : List Turn → List Turn
live_turns [] = []
live_turns (t ∷ ts) =
    let rest = live_turns ts in
    elim t.answer [ failed ↦ [] | _ ↦ (if t.shuts then t ∷ [] else t ∷ rest) ]

abbrev pub accepted_sock : Answer → List ℕ
accepted_sock (accepted sock) = sock ∷ []
accepted_sock _ = []

-- The clients of some turns.
abbrev pub clients : List Turn → List ℕ
clients [] = []
clients (t ∷ ts) = accepted_sock t.answer ++ clients ts

-- What some turns close: the clients that the handler did not keep, and the listening socket.
abbrev pub dropped : ℕ → List Turn → List ℕ
dropped listener [] = []
dropped listener (t ∷ ts) =
    (if t.keeps then [] else accepted_sock t.answer)
    ++ ((if t.shuts then listener ∷ [] else []) ++ dropped listener ts)

abbrev pub any_shuts : List Turn → Bool
any_shuts [] = false
any_shuts (t ∷ ts) = if t.shuts then true else any_shuts ts

-- What some events tell.
abbrev pub handed : List Event → List ℕ
handed [] = []
handed (handle_client family sock ∷ es) = sock ∷ handed es
handed (_ ∷ es) = handed es

abbrev pub closes : List Event → List ℕ
closes [] = []
closes (closed sock ∷ es) = sock ∷ closes es
closes (_ ∷ es) = closes es

-- A spring that listens.
abbrev pub IsListening : ℕ → SockSpring → Type 0
IsListening listener s =
    (s.skpad.socket ≡ some listener) × (s.poller ≢ null) × (s.shutdown_already ≡ false)

-- What the loop comes to.
abbrev pub Served : ℕ → SockSpring → List Turn → Option (SockSpring × List Event × Bool) → Type 0
Served listener s ts none = ⊥
Served listener s ts (some (s', es, ended)) =
    (handed es ≡ clients ts)
    × (closes es ≡ dropped listener ts)
    × (s'.skpad.socket ≡ (if any_shuts ts then none else some listener))
    × (s'.shutdown_already ≡ any_shuts ts)
    × (s'.poller ≡ s.poller)
    × (s'.handler ≡ s.handler)
    × (s'.ref ≡ s.ref)

accept_loop-shut :
    (ts : List Turn) (s : SockSpring)
    → s.skpad.socket ≡ none
    → accept_loop ts s ≡ some (s, [], elim ts [ [] ↦ false | _ ↦ true ])
unfolding accept_loop accept_locked SockPad.is_valid
accept_loop-shut [] s e = refl
accept_loop-shut (t ∷ ts) s e = ground (arith, e)

between-shuts :
    (listener : ℕ) (s : SockSpring)
    → IsListening listener s
    → between true s
      ≡ some (
        record s { skpad = record { family = 0; socket = none }; shutdown_already = true },
        closed listener ∷ unbound ∷ [],
      )
unfolding between shutdown shutdown_locked shutdown_once SockPad.close SockPad.closing closed_all
between-shuts listener s (e, bound, running) = ground (arith, e, bound, running)

pub handed-append : (es fs : List Event) → handed (es ++ fs) ≡ handed es ++ handed fs
handed-append [] fs = refl
handed-append (handle_client family sock ∷ es) fs = ap (λ q. sock ∷ q) (handed-append es fs)
handed-append (closed sock ∷ es) fs = handed-append es fs
handed-append (unbound ∷ es) fs = handed-append es fs
handed-append (handle_terminated ∷ es) fs = handed-append es fs

pub closes-append : (es fs : List Event) → closes (es ++ fs) ≡ closes es ++ closes fs
closes-append [] fs = refl
closes-append (handle_client family sock ∷ es) fs = closes-append es fs
closes-append (closed sock ∷ es) fs = ap (λ q. sock ∷ q) (closes-append es fs)
closes-append (unbound ∷ es) fs = closes-append es fs
closes-append (handle_terminated ∷ es) fs = closes-append es fs

handed-answer_events :
    (t : Turn) (a : Answer) (s : SockSpring)
    → (handed (answer_events t a s) ≡ accepted_sock a)
      × (closes (answer_events t a s) ≡ (if t.keeps then [] else accepted_sock a))
unfolding answer_events serve SockPad.assign SockPad.copy SockPad.close SockPad.attach
    SockPad.new_sock_pad closed_all
handed-answer_events t (accepted sock) s = elim (Bool-cases t.keeps) [
  | inl e ↦ rw e (refl, refl)
  | inr e ↦ rw e (refl, refl)
]
handed-answer_events t interrupted s = ground arith
handed-answer_events t failed s = ground arith

after-Served :
    (t : Turn) (ts : List Turn) (listener : ℕ) (s : SockSpring)
    (out : Option (SockSpring × List Event × Bool))
    → t.shuts ≡ false
    → Served listener s ts out
    → Served listener s (t ∷ ts) (after (answer_events t t.answer s ++ []) out)
unfolding after
after-Served t ts listener s none e v = elim v [ ]
after-Served t ts listener s (some (s', es, ended)) e (hands, shuts, still, already, to, by, refs) =
    let k = handed-answer_events t t.answer s in
    simp (handed-append, closes-append, append-nil, k.0, k.1, e, hands, shuts, still, already)
      (refl, refl, refl, refl, to, by, refs)

shut-Served :
    (t : Turn) (listener : ℕ) (s : SockSpring) (ended : Bool)
    → t.shuts ≡ true
    → Served listener s (t ∷ []) (
        some (
          record s { skpad = record { family = 0; socket = none }; shutdown_already = true },
          (answer_events t t.answer s ++ (closed listener ∷ unbound ∷ [])) ++ [],
          ended,
        ))
shut-Served t listener s ended e =
    let k = handed-answer_events t t.answer s in
    simp (handed-append, closes-append, append-nil, k.0, k.1, e)
      (refl, refl, refl, refl, refl, refl, refl)

Answer-cases : (a : Answer) → (a ≡ failed) ⊎ (a ≢ failed)
Answer-cases a = ground arith

subst2 :
    {A B : Type 0} (P : A → B → Type 0) {a a' : A} {b b' : B} → a ≡ a' → b ≡ b' → P a b → P a' b'
subst2 P {a' = a'} {b} e f h = subst (λ y. P a' y) f (subst (λ x. P x b) e h)

module _ (t : Turn) (ts : List Turn) (listener : ℕ) (s : SockSpring)
    (v : IsListening listener s) where
  live_turns-failed : t.answer ≡ failed → live_turns (t ∷ ts) ≡ []
  live_turns-failed e = ground (arith, e)

  live_turns-shuts : t.answer ≢ failed → t.shuts ≡ true → live_turns (t ∷ ts) ≡ t ∷ []
  live_turns-shuts live e = ground (arith, live, e)

  live_turns-runs : t.answer ≢ failed → t.shuts ≡ false → live_turns (t ∷ ts) ≡ t ∷ live_turns ts
  live_turns-runs live e = ground (arith, live, e)

  loop_failed : t.answer ≡ failed → accept_loop (t ∷ ts) s ≡ some (s, [], true)
  unfolding accept_loop accept_locked SockPad.is_valid
  loop_failed e = ground (arith, e, v.0)

  loop_runs :
      t.answer ≢ failed
      → t.shuts ≡ false
      → accept_loop (t ∷ ts) s ≡ after (answer_events t t.answer s ++ []) (accept_loop ts s)
  unfolding accept_loop accept_locked between SockPad.is_valid
  loop_runs live e = ground (arith, live, e, v.0)

  loop_shuts :
      t.answer ≢ failed
      → t.shuts ≡ true
      → accept_loop (t ∷ ts) s
        ≡ some (
          record s { skpad = record { family = 0; socket = none }; shutdown_already = true },
          (answer_events t t.answer s ++ (closed listener ∷ unbound ∷ [])) ++ [],
          elim ts [ [] ↦ false | _ ↦ true ],
        )
  unfolding accept_loop accept_locked SockPad.is_valid after
  loop_shuts live e = ground (
    arith,
    live,
    e,
    v.0,
    between-shuts listener s v,
    accept_loop-shut ts
        (record s { skpad = record { family = 0; socket = none }; shutdown_already = true }) refl,
  )

pub live_turns-cases :
    (t : Turn) (ts : List Turn)
    → (live_turns (t ∷ ts) ≡ [])
      ⊎ ((t.shuts ≡ true) × (live_turns (t ∷ ts) ≡ t ∷ []))
      ⊎ ((t.shuts ≡ false) × (live_turns (t ∷ ts) ≡ t ∷ live_turns ts))
live_turns-cases t ts = ground arith

-- A listening spring that is bound hands over the clients of the turns in which it listens, each one
-- once and in their order, for all answers of the system and of the handler. It closes those that the
-- handler did not keep, and the listening socket once if `Shutdown` ran, and it is shut exactly then.
pub accept_loop-Served :
    (listener : ℕ) (ts : List Turn) (s : SockSpring)
    → IsListening listener s
    → Served listener s (live_turns ts) (accept_loop ts s)
unfolding accept_loop
accept_loop-Served listener [] s (e, bound, running) = (refl, refl, e, running, refl, refl, refl)
accept_loop-Served listener (t ∷ ts) s v = elim (Answer-cases t.answer) [
  | inl e ↦
      subst2 (Served listener s) (sym (live_turns-failed t ts listener s v e))
        (sym (loop_failed t ts listener s v e)) (refl, refl, v.0, v.2, refl, refl, refl)
  | inr live ↦ (elim (Bool-cases t.shuts) [
    | inl e ↦
        subst2 (Served listener s) (sym (live_turns-shuts t ts listener s v live e))
          (sym (loop_shuts t ts listener s v live e))
          (shut-Served t listener s (elim ts [ [] ↦ false | _ ↦ true ]) e)
    | inr e ↦
        subst2 (Served listener s) (sym (live_turns-runs t ts listener s v live e))
          (sym (loop_runs t ts listener s v live e))
          (after-Served t (live_turns ts) listener s (accept_loop ts s) e
            (accept_loop-Served listener ts s v))
  ])
]
