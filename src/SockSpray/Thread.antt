-- ===== src/SockSpray/Thread.antt =====
-- lne/SockSpray.cpp: `EnterThreadSafe`, `LeaveThreadSafe` and `HandleShutdown`, one step for each
-- critical section.
use lne.Prelude.{
  ◌+◌, ◌-◌, ◌%◌, Bool, true, ◌&&◌, Option, none, some, List, [], ◌∷◌, ◌==◌, if◌then◌else◌,
}
use lne.Ring.{null}
use lne.ExtendObject.{u32_mod}
use lne.SockSpray.{SockSpray, Event, epoll_removed, unbound, handle_shutdown, released}

unfoldable pub enter_thread_safe : SockSpray → SockSpray
enter_thread_safe s = record s { thread_count = (s.thread_count + 1) % u32_mod }

-- The first critical section of `LeaveThreadSafe`; the Boolean is whether this thread was the last.
unfoldable pub leave_count : SockSpray → SockSpray × Bool
leave_count s =
    let n = (s.thread_count + (u32_mod - 1)) % u32_mod in (record s { thread_count = n }, n == 0)

-- The second one, and what follows it. `none` is a call through a null handler or poller.
unfoldable pub leave_last : Bool → SockSpray → Option (List Event)
leave_last last_thread s =
    if last_thread && s.shut.already
    then if s.handler == null
      then none
      else if s.poller == null
      then none
      else some (unbound ∷ handle_shutdown ∷ released ∷ [])
    else some []

-- `__HandleShutdown`.
unfoldable pub mark_shutdown : SockSpray → SockSpray
mark_shutdown s = record s { shut = record (s.shut) { already = true } }

-- How `HandleShutdown` starts, before the thread enters. `none` is a call through a null poller.
unfoldable pub unwatch : SockSpray → Option (List Event)
unwatch s = if s.poller == null then none else some (epoll_removed ∷ [])
