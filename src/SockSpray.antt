-- ===== src/SockSpray.antt =====
-- lne/SockSpray.h and lne/SockSpray.cpp: one connection, as its own threads see it, in the variant
-- for Linux. A critical section, a system call or a call of a handler is one step; what the system
-- answers is an argument. `Events` are what a step does to the world outside the connection.
pub mod Thread
pub mod Write
pub mod Read
pub mod System
pub mod Leave
pub mod Wakeup
pub mod Clean
pub mod Bind
pub mod Pool
pub mod Flush
pub mod Receive
use lne.Prelude.{
  ℕ, ◌+◌, ◌-◌, ◌%◌, Bool, true, false, ◌&&◌, ◌||◌, not, Option, none, some, List, [], ◌∷◌, ◌++◌,
  ◌==◌, ltb, if◌then◌else◌,
}
use lne.Config.{is_ok}
use lne.Ring.{Ptr, null}
use lne.ExtendObject.{u32_mod}
use lne.SockPad
use lne.SockPad.{SockPad}
use lne.ObjectQueue
use lne.ObjectQueue.{ObjectQueue}

pub record SendState : Type 0 where
  pub ready : Bool
  pub already : Bool
  pub cache_buf : Ptr
  pub cache_len : ℕ

pub record RecvState : Type 0 where
  pub ready : Bool
  pub already : Bool

pub record ShutdownState : Type 0 where
  pub query : Bool
  pub invoke : Bool
  pub already : Bool

pub record SockSpray : Type 0 where
  pub enable_idle_check : Bool
  pub limit_write_cache : ℕ
  pub handler : Ptr
  pub poller : Ptr
  pub skpad : SockPad
  pub thread_count : ℕ
  pub send : SendState
  pub send_blocks : ObjectQueue Ptr
  pub recv : RecvState
  pub shut : ShutdownState

-- What reaches the world outside: references to blocks, calls on the socket, and the handler's
-- three methods. `unbound` is `poller()->UnBind(this)`, `released` is the object's own `Release`.
pub data Event : Type 0 where
  block_add_ref block_release : Ptr → Event
  sent_bytes : Ptr → ℕ → ℕ → Event
  socket_shutdown : Event
  epoll_removed unbound handle_shutdown handle_terminated released : Event
  handle_data : Ptr → Event

-- A new handler or poller of null stands for none; a call through it is a fault, see `Thread`.
abbrev pub no_send : SendState
no_send = record { ready = false; already = false; cache_buf = null; cache_len = 0 }

abbrev pub no_recv : RecvState
no_recv = record { ready = false; already = false }

abbrev pub no_shutdown : ShutdownState
no_shutdown = record { query = false; invoke = false; already = false }

-- The constructor.
unfoldable pub new_sock_spray : ℕ → ObjectQueue Ptr → SockSpray
new_sock_spray limit_write_cache send_blocks = record {
  enable_idle_check = true;
  limit_write_cache = limit_write_cache;
  handler = null;
  poller = null;
  skpad = SockPad.new_sock_pad;
  thread_count = 0;
  send = no_send;
  send_blocks = send_blocks;
  recv = no_recv;
  shut = no_shutdown;
}

pub idle_timeout : SockSpray → Bool
idle_timeout s = s.enable_idle_check

-- `__Shutdown`, inside the shutdown lock of its caller.
pub shutdown_once : SockSpray → SockSpray × List Event
shutdown_once s =
    if s.shut.invoke
    then (s, [])
    else (record s { shut = record (s.shut) { invoke = true } }, socket_shutdown ∷ [])

pub handle_idle_timeout : SockSpray → SockSpray × List Event
unfolding shutdown_once
handle_idle_timeout s =
    let out = shutdown_once s in (record out.0 { enable_idle_check = false }, out.1)

-- `Clean` gives every block back that waits to be sent, on fuel for the loop.
unfoldable pub clean_loop : ℕ → Ptr → ObjectQueue Ptr → ObjectQueue Ptr × List Event
clean_loop ℕ.zero old q = (q, [])
clean_loop (ℕ.suc fuel) old q =
    let out = ObjectQueue.extract old q in
    let rest = clean_loop fuel out.1 out.0 in
    if is_ok out.2 then (rest.0, block_release out.1 ∷ rest.1) else (out.0, [])

unfoldable pub clean : ℕ → SockSpray → SockSpray × List Event × List ℕ
unfolding clean_loop
clean fuel s =
    let pad = if SockPad.is_valid s.skpad then SockPad.close s.skpad else (s.skpad, []) in
    let first = if s.send.cache_buf == null then [] else block_release s.send.cache_buf ∷ [] in
    let rest = clean_loop fuel s.send.cache_buf s.send_blocks in
    (
      record s {
        skpad = pad.0;
        send_blocks = rest.0;
        handler = null;
        thread_count = 0;
        send = no_send;
        recv = no_recv;
        shut = no_shutdown;
        poller = null;
        enable_idle_check = true;
      },
      first ++ rest.1,
      pad.1,
    )

-- `HandleBind`: the socket is made not to block and is given to the poller. The two arguments say
-- whether `fcntl` (both calls) and `epoll_ctl` succeed.
pub handle_bind : ℕ → (fcntl_ok epoll_ok : Bool) → Ptr → SockSpray → SockSpray × Bool × List Event
unfolding clean
handle_bind fuel fcntl_ok epoll_ok binder s =
    let bound = if fcntl_ok then record s { poller = binder } else s in
    let result = fcntl_ok && epoll_ok in
    let cleaned = clean fuel bound in
    if result then (bound, true, []) else (cleaned.0, false, cleaned.1)

-- `HandleTerminate`. `none` is a fault: the handler is null where it is called.
pub handle_terminate : SockSpray → Option (SockSpray × List Event)
unfolding shutdown_once
handle_terminate s =
    let out = shutdown_once s in
    if s.handler == null then none else some (out.0, out.1 ++ handle_terminated ∷ released ∷ [])

-- The part of `SockSprayPool::Alloc` that sets a connection up, new or recycled.
pub set_up : SockPad → Ptr → SockSpray → SockSpray × SockPad × List ℕ
set_up skpad handler s =
    let out = SockPad.assign s.skpad skpad in
    (record s { skpad = out.0; handler = handler }, out.1, out.2)
