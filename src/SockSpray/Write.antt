-- ===== src/SockSpray/Write.antt =====
-- lne/SockSpray.cpp: `Send`, `Shutdown`, `HandleWrite` and `__HandleWrite`, one step for each
-- critical section and each call of `send`.
use lne.Prelude.{
  ℕ, ◌+◌, ◌%◌, Bool, true, false, ◌&&◌, ◌||◌, not, List, [], ◌∷◌, ◌==◌, ltb, if◌then◌else◌, ◌++◌,
}
use lne.Config.{is_ok}
use lne.Ring.{Ptr, null}
use lne.ExtendObject.{u32_mod}
use lne.ObjectQueue
use lne.SockSpray.{SockSpray, Event, sent_bytes, block_release, block_add_ref, shutdown_once}

-- What `send` answers: a number of bytes above 0, `EINTR`, or anything else with whether `errno` is
-- `EWOULDBLOCK`.
pub data SendResult : Type 0 where
  sent : ℕ → SendResult
  interrupted : SendResult
  not_sent : (would_block : Bool) → SendResult

pub record WriteLocals : Type 0 where
  pub continue_send : Bool
  pub to_shutdown : Bool
  pub block_empty : Bool

-- Where a thread is in `__HandleWrite`.
pub data Writer : Type 0 where
  entering claiming finished : Writer
  extracting transmitting checking unlocking : WriteLocals → Writer

-- The condition of the loop.
unfoldable pub again : WriteLocals → Writer
again l = if l.continue_send && not l.to_shutdown then extracting l else checking l

-- The first critical section of the loop: a block to send, when none is at hand.
unfoldable pub extract_block : WriteLocals → SockSpray → Writer × SockSpray
extract_block l s =
    let out = ObjectQueue.extract null s.send_blocks in
    if is_ok out.2
    then (
      if out.1 == null then again l else transmitting l,
      record s { send_blocks = out.0; send = record (s.send) { cache_buf = out.1; cache_len = 0 } },
    )
    else (
      again (record l { continue_send = false; block_empty = true }),
      record s { send = record (s.send) { ready = true } },
    )

-- What follows the call of `send`.
unfoldable pub transmit :
    (Ptr → ℕ) → SendResult → WriteLocals → SockSpray → Writer × SockSpray × List Event
transmit size (sent n) l s =
    let b = s.send.cache_buf in
    let cache_len = (s.send.cache_len + n) % u32_mod in
    let to = again (record l { continue_send = true }) in
    let event = sent_bytes b s.send.cache_len n in
    if cache_len == size b
    then (
      to,
      record s { send = record (s.send) { cache_buf = null; cache_len = 0 } },
      event ∷ block_release b ∷ [],
    )
    else (to, record s { send = record (s.send) { cache_len = cache_len } }, event ∷ [])
transmit size interrupted l s = (transmitting l, s, [])
transmit size (not_sent would_block) l s = (
  again (record l { continue_send = false; to_shutdown = l.to_shutdown || not would_block }),
  s,
  [],
)

-- `__HandleWrite`, from one step to the next. `size` is the size of each block.
unfoldable pub write_step :
    (Ptr → ℕ) → SendResult → Writer → SockSpray → Writer × SockSpray × List Event
write_step size r entering s = (if s.shut.already then finished else claiming, s, [])
write_step size r claiming s =
    if s.send.already
    then (finished, record s { send = record (s.send) { ready = true } }, [])
    else (
      extracting (record { continue_send = false; to_shutdown = false; block_empty = false }),
      record s { send = record (s.send) { ready = false; already = true } },
      [],
    )
write_step size r (extracting l) s =
    let out = extract_block l s in
    if s.send.cache_buf == null then (out.0, out.1, []) else (transmitting l, s, [])
write_step size r (transmitting l) s = transmit size r l s
write_step size r (checking l) s =
    let out = shutdown_once s in
    if not s.shut.already && (l.to_shutdown || (l.block_empty && s.shut.query))
    then (unlocking (record l { to_shutdown = true }), out.0, out.1)
    else (unlocking l, s, [])
write_step size r (unlocking l) s =
    if not s.send.ready || l.to_shutdown || l.block_empty
    then (finished, record s { send = record (s.send) { already = false } }, [])
    else (extracting l, record s { send = record (s.send) { ready = false } }, [])
write_step size r finished s = (finished, s, [])

-- The first critical section of both `Send`s: whether there is more to do.
unfoldable pub send_allowed : SockSpray → Bool
send_allowed s = not (s.shut.already || s.shut.query)

-- The second critical section of `Send` for one block: the queue, and whether the write is to be
-- handled.
unfoldable pub send_append : ℕ → Ptr → Ptr → SockSpray → SockSpray × Bool × List Event
send_append cache_nodes memory block s =
    let out = ObjectQueue.append cache_nodes memory block s.send_blocks in
    let appended = record s { send_blocks = out.0 } in
    let refused = record appended { shut = record (s.shut) { query = true } } in
    if is_ok out.1
    then (if ltb s.limit_write_cache (ObjectQueue.count out.0)
        then (refused, false, block_add_ref block ∷ [])
        else (appended, true, block_add_ref block ∷ []))
    else (refused, false, block_add_ref block ∷ block_release block ∷ [])

-- `Send` for several blocks, each with the memory that `malloc` answers for it.
unfoldable pub send_append_all : ℕ → List (Ptr × Ptr) → SockSpray → SockSpray × Bool × List Event
send_append_all cache_nodes [] s = (s, true, [])
send_append_all cache_nodes ((block, memory) ∷ blocks) s =
    let out = send_append cache_nodes memory block s in
    let rest = send_append_all cache_nodes blocks out.0 in
    if out.1 then (rest.0, rest.1, out.2 ++ rest.2) else out

-- `Shutdown`: the request, the look at what waits to be sent, and the call.
unfoldable pub shutdown_query : SockSpray → SockSpray × Bool
shutdown_query s =
    if s.shut.already || s.shut.query
    then (s, false)
    else (record s { shut = record (s.shut) { query = true } }, true)

unfoldable pub shutdown_ready : SockSpray → Bool
shutdown_ready s = ObjectQueue.is_empty s.send_blocks && (s.send.cache_buf == null)

-- `Shutdown` on one thread, from its beginning to its end.
unfoldable pub shutdown : SockSpray → SockSpray × List Event
shutdown s =
    let asked = shutdown_query s in
    let closed = shutdown_once asked.0 in
    if asked.1 && shutdown_ready asked.0 then closed else (asked.0, [])
