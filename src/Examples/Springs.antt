-- ===== src/Examples/Springs.antt =====
-- Listening sockets of lne/SockSpring.cpp and pairs of apps/pproxy, at concrete inputs.
use lne.Prelude.{
  ◌<◌, ◌≡◌, ◌≢◌, refl, true, false, some, List, [], ◌∷◌, ◌==◌, if◌then◌else◌, arith, inl, inr,
}
use lne.Ring.{null}
use lne.SockSpring.{SockSpring, Turn, accepted, interrupted, accept_loop}
use lne.SockSpring.Accept.{Served, live_turns, accept_loop-Served}
use lne.SockSpring.Life.{shuts, reads}
use lne.SockSpring.Life.Whole.{Ended}
use lne.SockSpring.Life.Bound.{bound_life, bound_life-Ended}
use lne.Pproxy.{Objects, handle_shutdown, handle_terminate, drop_ref}
use lne.Pproxy.Pair.{System, Reach, here, later, shuts_down, terminates, leaves}
use lne.Pproxy.Joined.{start, handle_client-Reach}

-- A spring that listens on socket 3.
abbrev listening : SockSpring
listening = record {
  ref = record { reference = 1 };
  poller = 60;
  shutdown_already = false;
  handler = 50;
  skpad = record { family = 2; socket = some 3 };
}

-- A client that the handler keeps, an interruption, a client that it does not keep while the spring
-- is shut, and one that comes too late.
abbrev turns : List Turn
turns =
    record { answer = accepted 7; keeps = true; shuts = false }
    ∷ record { answer = interrupted; keeps = false; shuts = false }
    ∷ record { answer = accepted 8; keeps = false; shuts = true }
    ∷ record { answer = accepted 9; keeps = true; shuts = false }
    ∷ []

accept_loop-Served_example : Served 3 listening (live_turns turns) (accept_loop turns listening)
accept_loop-Served_example =
    accept_loop-Served 3 turns listening (refl, (λ e. absurd (omega (arith, e))), refl)

-- One that is not bound yet.
abbrev unbound : SockSpring
unbound = record listening { poller = 0 }

bound_life-Ended_example :
    Ended 3 unbound (bound_life true true 60 (reads turns ∷ shuts ∷ []) unbound)
bound_life-Ended_example =
    bound_life-Ended true true 60 3 (reads turns ∷ shuts ∷ []) unbound refl refl
      (λ e. absurd (omega (arith, e))) (λ e. absurd (omega (arith, e))) (refl, tt)

-- Two new connections, at 10 and 20, that `HandleClient` joins; the first shuts down and leaves, and
-- the second terminates.
abbrev fresh : Objects
fresh = record { ref = λ p. record { reference = 1 }; context = λ p. null }

abbrev s0 : System
s0 = start 10 20 0 fresh

abbrev s1 : System
s1 = record s0 {
  objects = (handle_shutdown 10 s0.objects).0;
  told = λ q. if q == 10 then true else s0.told q;
}

abbrev s2 : System
s2 = record s1 {
  objects = (drop_ref 10 s1.objects).0;
  held = λ q. if q == 10 then false else s1.held q;
}

abbrev s3 : System
s3 = record s2 {
  objects = (handle_terminate 20 s2.objects).0;
  told = λ q. if q == 20 then true else s2.told q;
}

s3-Reach : Reach 10 20 (start 10 20 0 fresh) s3
unfolding start
s3-Reach =
    later
      (later (later here (shuts_down 10 (inl refl) refl refl))
        (leaves 10 (inl refl) refl refl refl))
      (terminates 20 (inr refl) refl refl)

handle_client-Reach_example :
    (s3.held 10 ≡ true → 0 < (s3.objects.ref 10).reference)
    × (s3.held 20 ≡ true → 0 < (s3.objects.ref 20).reference)
    × (s3.objects.context 10 ≢ null
        → (s3.objects.context 10 ≡ 20) × (0 < (s3.objects.ref 20).reference))
    × (s3.objects.context 20 ≢ null
        → (s3.objects.context 20 ≡ 10) × (0 < (s3.objects.ref 10).reference))
    × (s3.held 10 ≡ false
        → s3.held 20 ≡ false
        → ((s3.objects.ref 10).reference ≡ 0) × ((s3.objects.ref 20).reference ≡ 0))
handle_client-Reach_example =
    handle_client-Reach 10 20 0 fresh s3 (λ e. absurd (omega (arith, e)))
      (λ e. absurd (omega (arith, e))) (λ e. absurd (omega (arith, e))) refl refl s3-Reach
