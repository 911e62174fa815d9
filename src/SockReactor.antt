-- ===== src/SockReactor.antt =====
-- lne/SockReactor.h and lne/SockReactor.cpp, in the variant for Linux: the circle of eventers, the
-- thread that closes idle ones, and the threads that pass events on.
pub mod Circle
pub mod Timer
pub mod Idle
pub mod Start
pub mod History
pub mod Loops
pub mod Terminate
use lne.Prelude.{
  ℕ, zero, suc, ◌+◌, ◌-◌, ◌*◌, ◌%◌, Bool, true, false, ◌&&◌, ◌||◌, not, Option, none, some, List,
  [], ◌∷◌, ◌++◌, ◌==◌, ltb, leb, if◌then◌else◌, update,
}
use lne.Ring.{Ptr, null}
use lne.ExtendObject.{u32_mod}

-- The fields of the eventers that the reactor writes are functions of the address.
pub record SockReactor : Type 0 where
  pub available : Bool
  pub poller : Option ℕ
  pub idle_timeout : ℕ
  pub exit_check_interval : ℕ
  pub eventer_circle : Ptr
  pub prev : Ptr → Ptr
  pub next : Ptr → Ptr
  pub active : Ptr → ℕ
  pub has_threads : Bool
  pub exit_request : Bool
  pub thread_workers : ℕ

-- The constructor's loop: whether `pthread_create` succeeds for thread `i`.
unfoldable pub create_loop : ℕ → ℕ → (ℕ → Bool) → ℕ → ℕ
create_loop zero i created thread_workers = thread_workers
create_loop (suc rounds) i created thread_workers =
    let rest = create_loop rounds (i + 1) created (thread_workers + 1) in
    if created i then rest else thread_workers

-- The constructor, for fewer workers than the largest `LNE_UINT`, where `workers + 1` and the loop do
-- not wrap around. `poller` is what `epoll_create` answers, `memory` whether `malloc` succeeds.
unfoldable pub new_sock_reactor :
    ℕ → ℕ → ℕ → Option ℕ → Bool → (ℕ → Bool) → (prev next active : Ptr → ℕ) → SockReactor
new_sock_reactor workers idle_timeout exit_check_interval poller memory created prev next active =
    let has_poller : Bool = elim poller [ none ↦ false | some _ ↦ true ] in
    let has_threads = has_poller && memory in
    let started = create_loop workers 1 created 1 in
    let thread_workers = if has_threads && created 0 then started else 0 in
    record {
      available = has_threads && not (leb thread_workers workers);
      poller = poller;
      idle_timeout = idle_timeout;
      exit_check_interval = exit_check_interval;
      eventer_circle = null;
      prev = prev;
      next = next;
      active = active;
      has_threads = has_threads;
      exit_request = false;
      thread_workers = thread_workers;
    }

-- The part of `Bind` inside the lock, once `HandleBind` has succeeded.
unfoldable pub bind : Ptr → ℕ → SockReactor → SockReactor
bind eventer time r =
    let circle = r.eventer_circle in
    let active = update r.active eventer time in
    if circle == null
    then record r {
      next = update r.next eventer eventer;
      prev = update r.prev eventer eventer;
      eventer_circle = eventer;
      active = active;
    }
    else (let next' = update r.next eventer circle in
        let prev' = update r.prev eventer (r.prev circle) in
        let next'' = update next' (prev' eventer) eventer in
        record r {
          next = next'';
          prev = update prev' (next'' eventer) eventer;
          eventer_circle = eventer;
          active = active;
        })

-- `UnBind`.
unfoldable pub unbind : Ptr → SockReactor → SockReactor
unbind eventer r =
    let before = r.prev eventer in
    let next' = update r.next before (r.next eventer) in
    let prev' = update r.prev (next' before) before in
    if before == null || r.next eventer == null
    then r
    else (if before == eventer
        then (if eventer == r.eventer_circle then record r { eventer_circle = null } else r)
        else record r {
          next = update next' eventer null;
          prev = update prev' eventer null;
          eventer_circle = if r.eventer_circle == eventer then before else r.eventer_circle;
        })

-- The walk of `Timer` around the circle, on fuel: `idle` is `IdleTimeout`, `clock` the answers of
-- `time` from the second one on. It gives the eventer at which it ends, and those it timed out.
unfoldable pub timer_loop :
    ℕ → (Ptr → Bool) → ℕ → ℕ → List ℕ → Ptr → SockReactor → SockReactor × Ptr × List Ptr
timer_loop (suc fuel) idle start current (now ∷ clock) at r =
    let e = r.next at in
    let touched = record r { active = update r.active e now } in
    let rest = timer_loop fuel idle start now clock e touched in
    let handled = if idle e then e ∷ [] else [] in
    if idle e && ltb (current - r.active e) r.idle_timeout
    then (r, e, [])
    else (if not (e == r.eventer_circle) && (now == start)
        then (rest.0, rest.1, handled ++ rest.2)
        else (touched, e, handled))
timer_loop _ idle start current _ at r = (r, at, [])

-- One round of `Timer` inside the lock.
unfoldable pub timer_round : ℕ → (Ptr → Bool) → ℕ → List ℕ → SockReactor → SockReactor × List Ptr
timer_round fuel idle start clock r =
    let out = timer_loop fuel idle start start clock r.eventer_circle r in
    if r.eventer_circle == null then (r, []) else (record out.0 { eventer_circle = out.1 }, out.2)

-- What `epoll_wait` reports of an eventer, and the handlers that `Service` calls for it, in order.
pub record EpollEvent : Type 0 where
  pub ptr : Ptr
  pub epollin : Bool
  pub epollout : Bool
  pub epollerr : Bool
  pub epollhup : Bool

pub data Call : Type 0 where
  handle_read handle_write handle_shutdown : Ptr → Call

unfoldable pub service_event : ℕ → EpollEvent → SockReactor → SockReactor × List Call
service_event time event r =
    let client = event.ptr in
    (
      record r { active = update r.active client time },
      (if event.epollin then handle_read client ∷ [] else [])
          ++ ((if event.epollout then handle_write client ∷ [] else [])
              ++ (if event.epollerr || event.epollhup then handle_shutdown client ∷ [] else [])),
    )

-- The destructor's walk, on fuel: the eventers in the order of their `HandleTerminate`.
unfoldable pub terminate_loop : ℕ → Ptr → SockReactor → List Ptr
terminate_loop zero p r = []
terminate_loop (suc fuel) p r =
    let rest = terminate_loop fuel (r.next p) r in
    if r.next p == r.eventer_circle then p ∷ [] else p ∷ rest
