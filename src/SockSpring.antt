-- ===== src/SockSpring.antt =====
-- lne/SockSpring.h and lne/SockSpring.cpp: a listening socket and the loop that accepts its clients,
-- in the variant for Linux. A critical section, a system call or a call of a handler is one step;
-- what the system and the handler answer is an argument.
pub mod Accept
pub mod Life
pub mod Pool
use lne.Prelude.{
  ℕ, ◌==◌, Bool, true, false, ◌&&◌, not, Option, none, some, List, [], ◌∷◌, ◌++◌, ltb,
  if◌then◌else◌,
}
use lne.Ring.{Ptr, null}
use lne.ExtendObject.{RefObject, add_ref, release}
use lne.SockPad
use lne.SockPad.{SockPad, attach, new_sock_pad}

pub record SockSpring : Type 0 where
  pub ref : RefObject
  pub poller : Ptr
  pub shutdown_already : Bool
  pub handler : Ptr
  pub skpad : SockPad

-- What reaches the world outside: a socket closed, a client handed to `HandleClient`, the call of
-- `UnBind`, and the handler's `HandleTerminate`.
pub data Event : Type 0 where
  closed : (sock : ℕ) → Event
  handle_client : (family sock : ℕ) → Event
  unbound handle_terminated : Event

unfoldable pub closed_all : List ℕ → List Event
closed_all [] = []
closed_all (s ∷ ss) = closed s ∷ closed_all ss

-- The constructor; `ref` is the one of `SockEventer`'s constructor.
unfoldable pub new_sock_spring : RefObject → SockSpring
unfolding new_sock_pad
new_sock_spring ref = record {
  ref = ref;
  poller = null;
  shutdown_already = false;
  handler = null;
  skpad = new_sock_pad;
}

-- `Clean`. It leaves the handler.
unfoldable pub clean : SockSpring → SockSpring × List Event
clean s =
    let out = if SockPad.is_valid s.skpad then SockPad.close s.skpad else (s.skpad, []) in
    (record s { skpad = out.0; poller = null; shutdown_already = false }, closed_all out.1)

-- `__Shutdown`.
unfoldable pub shutdown_once : SockSpring → SockSpring × List Event
shutdown_once s =
    let out = SockPad.close s.skpad in
    (record s { skpad = out.0; shutdown_already = true }, closed_all out.1)

-- The critical section of `Shutdown`.
unfoldable pub shutdown_locked : SockSpring → SockSpring × List Event
shutdown_locked s = if not s.shutdown_already then shutdown_once s else (s, [])

-- `Shutdown`. `none` is a fault: the call of `UnBind` through a null poller.
unfoldable pub shutdown : SockSpring → Option (SockSpring × List Event)
shutdown s =
    let out = shutdown_locked s in
    if out.0.poller == null then none else some (out.0, out.1 ++ (unbound ∷ []))

unfoldable pub idle_timeout : SockSpring → Bool
idle_timeout s = false

-- `HandleBind`. The two arguments say whether `fcntl` (both calls) and `epoll_ctl` succeed.
unfoldable pub handle_bind :
    (fcntl_ok epoll_ok : Bool) → Ptr → SockSpring → SockSpring × Bool × List Event
handle_bind fcntl_ok epoll_ok binder s =
    let bound = if fcntl_ok then record s { poller = binder } else s in
    let cleaned = clean bound in
    if fcntl_ok && epoll_ok then (bound, true, []) else (cleaned.0, false, cleaned.1)

-- What `accept` answers: a socket, `EINTR`, or another error.
pub data Answer : Type 0 where
  accepted : (sock : ℕ) → Answer
  interrupted failed : Answer

-- One turn of the loop: what `accept` answers if it is called, whether the handler moves the client
-- out of its argument, and whether `Shutdown` runs before the next turn, in the handler or on
-- another thread.
pub record Turn : Type 0 where
  pub answer : Answer
  pub keeps : Bool
  pub shuts : Bool

-- The critical section around `accept`.
unfoldable pub accept_locked : Answer → SockSpring → Answer
accept_locked answer s = if SockPad.is_valid s.skpad then answer else failed

-- `HandleClient` gets a copy of the pad, which takes the socket out of it; the copy goes out of scope
-- when the handler returns.
unfoldable pub serve : Turn → ℕ → SockSpring → List Event
unfolding new_sock_pad
serve t sock s =
    let skpad = (attach s.skpad.family (some sock) new_sock_pad).0 in
    let client = SockPad.copy skpad in
    let after = if t.keeps then (SockPad.assign new_sock_pad client.0).1 else client.0 in
    handle_client client.0.family sock ∷ closed_all (SockPad.close after).1

-- `Shutdown`, if it runs.
unfoldable pub between : Bool → SockSpring → Option (SockSpring × List Event)
between shuts s = if shuts then shutdown s else some (s, [])

unfoldable pub after :
    List Event → Option (SockSpring × List Event × Bool) → Option (SockSpring × List Event × Bool)
after es none = none
after es (some (s, es', ended)) = some (s, es ++ es', ended)

unfoldable pub answer_events : Turn → Answer → SockSpring → List Event
unfolding serve
answer_events t (accepted sock) s = serve t sock s
answer_events t _ s = []

-- The loop of `__HandleRead`: the spring, the events, and whether the loop has ended, which it has
-- not when the turns run out. `none` is the fault of `Shutdown`.
unfoldable pub accept_loop : List Turn → SockSpring → Option (SockSpring × List Event × Bool)
unfolding accept_locked between
accept_loop [] s = some (s, [], false)
accept_loop (t ∷ ts) s =
    let answer = accept_locked t.answer s in
    let next : Option (SockSpring × List Event × Bool) = elim (between t.shuts s) [
      | none ↦ none
      | some (s', es) ↦ after (answer_events t answer s ++ es) (accept_loop ts s')
    ] in
    elim answer [ failed ↦ some (s, [], true) | _ ↦ next ]

-- `__HandleRead`.
unfoldable pub handle_read_inner : List Turn → SockSpring → Option (SockSpring × List Event × Bool)
handle_read_inner ts s = if s.shutdown_already then some (s, [], true) else accept_loop ts s

-- The `Release` of `HandleRead`, which comes once the loop has ended.
unfoldable pub release_read :
    Option (SockSpring × List Event × Bool) → Option (SockSpring × List Event × Bool × Bool)
release_read none = none
release_read (some (s, es, ended)) =
    let rel = release s.ref in
    if ended then some (record s { ref = rel.0 }, es, true, rel.1) else some (s, es, false, false)

-- `HandleRead`. The last Boolean says that the spring is destroyed.
unfoldable pub handle_read : List Turn → SockSpring → Option (SockSpring × List Event × Bool × Bool)
handle_read ts s = release_read (handle_read_inner ts (record s { ref = add_ref s.ref }))

-- `HandleTerminate`. `none` is a fault: the handler is null where it is called. The Boolean says that
-- the spring is destroyed.
unfoldable pub handle_terminate : SockSpring → Option (SockSpring × List Event × Bool)
handle_terminate s =
    let out = shutdown_once s in
    let rel = release out.0.ref in
    if out.0.handler == null
    then none
    else some (record out.0 { ref = rel.0 }, out.1 ++ (handle_terminated ∷ []), rel.1)
