-- ===== src/SockSpring/Life/Whole.antt =====
-- lne/SockSpring.cpp: a spring from when it is bound until it is terminated.
use lne.Prelude.{
  ℕ, ==_of_ne, ◌≡◌, ◌≢◌, refl, sym, subst, ap, ◌∙◌, true, inl, inr, Option, none, some, List, [],
  ◌∷◌, ◌++◌, if◌then◌else◌, arith,
}
use lne.Ring.{null}
use lne.ExtendObject.{release}
use lne.SockPad
use lne.SockPad.Accounts.{count, count-append}
use lne.SockSpring.{
  SockSpring, Event, closed, handle_terminated, shutdown_once, handle_terminate, closed_all,
}
use lne.SockSpring.Accept.{handed, closes, handed-append, closes-append}
use lne.SockSpring.Life.{
  Op, shuts, reads, apply, before, terminate_events, and_then, life, Foreign, Inv, Done,
}
use lne.SockSpring.Life.Step.{apply_shuts-Done, apply_reads-Done}

-- What a whole life comes to.
abbrev pub Ended : ℕ → SockSpring → Option (SockSpring × List Event) → Type 0
Ended listener s none = ⊥
Ended listener s (some (s', es)) =
    (count listener (closes es) ≡ (if s.shutdown_already then 0 else 1))
    × (s'.skpad.socket ≡ none)
    × (s.shutdown_already ≡ true → handed es ≡ [])

terminate_open :
    (listener : ℕ) (s : SockSpring)
    → s.handler ≢ null
    → s.skpad.socket ≡ some listener
    → terminate_events (handle_terminate s)
      ≡ some (
        record s {
          ref = (release s.ref).0;
          skpad = record { family = 0; socket = none };
          shutdown_already = true;
        },
        closed listener ∷ handle_terminated ∷ [],
      )
unfolding terminate_events handle_terminate shutdown_once SockPad.close SockPad.closing closed_all
terminate_open listener s h e = simp (==_of_ne s.handler null h, e) refl

pub terminate_shut :
    (s : SockSpring)
    → s.handler ≢ null
    → s.skpad.socket ≡ none
    → terminate_events (handle_terminate s)
      ≡ some (
        record s {
          ref = (release s.ref).0;
          skpad = record { family = 0; socket = none };
          shutdown_already = true;
        },
        handle_terminated ∷ [],
      )
unfolding terminate_events handle_terminate shutdown_once SockPad.close SockPad.closing closed_all
terminate_shut s h e = simp (==_of_ne s.handler null h, e) refl

terminate-Ended :
    (listener : ℕ) (s : SockSpring)
    → Inv listener s
    → Ended listener s (terminate_events (handle_terminate s))
terminate-Ended listener s v = elim (v.either) [
  | inl (e, f) ↦
      subst (Ended listener s) (sym (terminate_open listener s v.has_handler e))
        (ground (arith, f), refl, λ q. refl)
  | inr (e, f) ↦
      subst (Ended listener s) (sym (terminate_shut s v.has_handler e))
        (ground (arith, f), refl, λ q. refl)
]

before-Ended :
    (listener : ℕ) (s s' : SockSpring) (es : List Event) (out : Option (SockSpring × List Event))
    → Done listener s (some (s', es))
    → Ended listener s' out
    → Ended listener s (before es out)
unfolding before
before-Ended listener s s' es none d k = elim k [ ]
before-Ended listener s s' es (some (s'', es')) (v, c, h) (c', gone, h') = (
  ap (count listener) (closes-append es es')
      ∙ count-append listener (closes es) (closes es')
      ∙ omega (arith, c, c'),
  gone,
  λ q. handed-append es es' ∙ ap (λ l. l ++ handed es') (h q).0 ∙ h' (h q).1,
)

and_then-Ended :
    (listener : ℕ) (s : SockSpring) (rest : SockSpring → Option (SockSpring × List Event))
    (out : Option (SockSpring × List Event))
    → Done listener s out
    → ((s' : SockSpring) → Inv listener s' → Ended listener s' (rest s'))
    → Ended listener s (and_then out rest)
unfolding and_then
and_then-Ended listener s rest none d k = elim d [ ]
and_then-Ended listener s rest (some (s', es)) d k =
    before-Ended listener s s' es (rest s') d (k s' d.0)

-- However a bound spring with a handler is shut and reads, and then is terminated: no call faults,
-- the listening socket is closed exactly once (not again, if the spring was shut before), and a
-- spring that is shut hands no client over. Its clients are sockets other than its own.
pub life-Ended :
    (listener : ℕ) (ops : List Op) (s : SockSpring)
    → Inv listener s
    → Foreign listener ops
    → Ended listener s (life ops s)
unfolding life
life-Ended listener [] s v foreign = terminate-Ended listener s v
life-Ended listener (shuts ∷ ops) s v foreign =
    and_then-Ended listener s (life ops) (apply shuts s) (apply_shuts-Done listener s v)
      (λ s' w. life-Ended listener ops s' w foreign)
life-Ended listener (reads ts ∷ ops) s v foreign =
    and_then-Ended listener s (life ops) (apply (reads ts) s)
      (apply_reads-Done listener s v ts foreign.0) (λ s' w. life-Ended listener ops s' w foreign.1)
