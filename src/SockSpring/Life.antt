-- ===== src/SockSpring/Life.antt =====
-- lne/SockSpring.cpp: the calls over the whole life of a spring.
pub mod Step
pub mod Whole
pub mod Bound
use lne.Prelude.{
  ℕ, ◌+◌, ◌<◌, ◌==◌, ==_of_ne, ◌≡◌, ◌≢◌, ◌⊎◌, refl, sym, subst, ap, ◌∙◌, Bool, true, false,
  Bool-cases, inl, inr, Option, none, some, List, [], ◌∷◌, ◌++◌, if◌then◌else◌, arith,
}
use lne.Ring.{null}
use lne.ExtendObject.{u32_mod, add_ref, release}
use lne.SockPad
use lne.SockPad.Accounts.{count}
use lne.SockSpring.{
  SockSpring, Event, closed, handle_client, unbound, handle_terminated, Turn, accept_loop, shutdown,
  shutdown_locked, shutdown_once, handle_read, handle_read_inner, release_read, handle_terminate,
  closed_all,
}
use lne.SockSpring.Accept.{
  IsListening, Served, accept_loop-Served, live_turns, live_turns-cases, clients, dropped,
  any_shuts, accepted_sock, handed, closes, handed-append, closes-append,
}

-- What is done to a spring: `Shutdown` from any thread, or `HandleRead` with its turns.
pub data Op : Type 0 where
  shuts : Op
  reads : (ts : List Turn) → Op

unfoldable pub read_events :
    Option (SockSpring × List Event × Bool × Bool) → Option (SockSpring × List Event)
read_events none = none
read_events (some (s, es, ended, destroyed)) = some (s, es)

unfoldable pub apply : Op → SockSpring → Option (SockSpring × List Event)
unfolding read_events
apply shuts s = shutdown s
apply (reads ts) s = read_events (handle_read ts s)

unfoldable pub before :
    List Event → Option (SockSpring × List Event) → Option (SockSpring × List Event)
before es none = none
before es (some (s, es')) = some (s, es ++ es')

unfoldable pub terminate_events :
    Option (SockSpring × List Event × Bool) → Option (SockSpring × List Event)
terminate_events none = none
terminate_events (some (s, es, destroyed)) = some (s, es)

unfoldable pub and_then :
    Option (SockSpring × List Event)
    → (SockSpring → Option (SockSpring × List Event))
    → Option (SockSpring × List Event)
unfolding before
and_then none rest = none
and_then (some (s, es)) rest = before es (rest s)

-- The operations one after the other, and `HandleTerminate` at the end.
unfoldable pub life : List Op → SockSpring → Option (SockSpring × List Event)
unfolding and_then terminate_events
life [] s = terminate_events (handle_terminate s)
life (o ∷ ops) s = and_then (apply o s) (life ops)

-- No client has the number of the listening socket, which is open as long as clients come.
abbrev pub Foreign : ℕ → List Op → Type 0
Foreign listener [] = Unit {0}
Foreign listener (shuts ∷ ops) = Foreign listener ops
Foreign listener (reads ts ∷ ops) = (count listener (clients ts) ≡ 0) × Foreign listener ops

-- A bound spring with a handler listens, or it is shut.
pub record Inv (listener : ℕ) (s : SockSpring) : Type 0 where
  pub bound : s.poller ≢ null
  pub has_handler : s.handler ≢ null
  pub either :
      ((s.skpad.socket ≡ some listener) × (s.shutdown_already ≡ false))
      ⊎ ((s.skpad.socket ≡ none) × (s.shutdown_already ≡ true))

abbrev pub is_open : SockSpring → ℕ
is_open s = if s.shutdown_already then 0 else 1

-- What an operation does: it closes the listening socket if it shuts the spring, and hands over no
-- client of a spring that is shut.
abbrev pub Done : ℕ → SockSpring → Option (SockSpring × List Event) → Type 0
Done listener s none = ⊥
Done listener s (some (s', es)) =
    Inv listener s'
    × (count listener (closes es) + is_open s' ≡ is_open s)
    × (s.shutdown_already ≡ true → (handed es ≡ []) × (s'.shutdown_already ≡ true))
