-- ===== src/SockSpray/Read.antt =====
-- lne/SockSpray.cpp: `HandleRead` and `__HandleRead`, one step for each critical section and each
-- call of `recv` or of the handler.
use lne.Prelude.{ℕ, ◌+◌, Bool, true, false, ◌&&◌, ◌||◌, not, List, [], ◌∷◌, ◌==◌, if◌then◌else◌}
use lne.Ring.{Ptr, null}
use lne.DataBlock
use lne.DataBlock.{DataBlock}
use lne.SockSpray.{SockSpray, Event, block_release, handle_data, shutdown_once}

-- What `recv` answers: a number of bytes above 0, the end of the stream, `EINTR`, or another error
-- with whether it is `EWOULDBLOCK`.
pub data RecvResult : Type 0 where
  received : ℕ → RecvResult
  end_of_stream interrupted : RecvResult
  not_received : (would_block : Bool) → RecvResult

pub record ReadLocals : Type 0 where
  pub continue_recv : Bool
  pub to_shutdown : Bool

-- Where a thread is in `__HandleRead`. `receiving` holds the block, with its address.
pub data Reader : Type 0 where
  entering claiming finished : Reader
  allocating querying checking unlocking : ReadLocals → Reader
  receiving : ReadLocals → Ptr → DataBlock → Reader

-- The condition of the outer loop.
unfoldable pub again : ReadLocals → Reader
again l = if l.continue_recv && not l.to_shutdown then allocating l else checking l

-- What follows the inner loop: the data goes to the handler and the block back to its pool.
unfoldable pub process_data : ReadLocals → Ptr → DataBlock → Reader × List Event
process_data l p b = (
  if l.continue_recv then querying l else again l,
  if DataBlock.is_empty b then block_release p ∷ [] else handle_data p ∷ block_release p ∷ [],
)

-- The inner loop: one call of `recv` into the free part of the block. At the end of the stream and
-- on an error `continue_recv` keeps its value and `to_shutdown` is set.
unfoldable pub receive : RecvResult → ReadLocals → Ptr → DataBlock → Reader × List Event
receive (received n) l p b =
    let filled = (DataBlock.set_size (b.size + n) b).0 in
    let processed = process_data (record l { continue_recv = true }) p filled in
    if DataBlock.is_full filled then processed else (receiving l p filled, [])
receive interrupted l p b = (receiving l p b, [])
receive end_of_stream l p b = process_data (record l { to_shutdown = true }) p b
receive (not_received would_block) l p b =
    process_data
      (if would_block then record l { continue_recv = false } else record l { to_shutdown = true })
      p b

-- `__HandleRead`, from one step to the next. The block is what `pool_->Alloc()` answers, null when
-- it has none.
unfoldable pub read_step :
    Ptr × DataBlock → RecvResult → Reader → SockSpray → Reader × SockSpray × List Event
read_step block r entering s =
    (if s.shut.already || s.shut.query then finished else claiming, s, [])
read_step block r claiming s =
    if s.recv.already
    then (finished, record s { recv = record (s.recv) { ready = true } }, [])
    else (
      allocating (record { continue_recv = false; to_shutdown = false }),
      record s { recv = record { ready = false; already = true } },
      [],
    )
read_step block r (allocating l) s =
    if block.0 == null
    then (again (record l { to_shutdown = true }), s, [])
    else (receiving l block.0 block.1, s, [])
read_step block r (receiving l p b) s = let out = receive r l p b in (out.0, s, out.1)
read_step block r (querying l) s =
    if s.shut.query
    then (again (record l { to_shutdown = true; continue_recv = false }), s, [])
    else (again l, s, [])
read_step block r (checking l) s =
    let out = shutdown_once s in
    if not s.shut.already && l.to_shutdown
    then (unlocking l, out.0, out.1)
    else (unlocking l, s, [])
read_step block r (unlocking l) s =
    if not s.recv.ready || l.to_shutdown
    then (finished, record s { recv = record (s.recv) { already = false } }, [])
    else (allocating l, record s { recv = record (s.recv) { ready = false } }, [])
read_step block r finished s = (finished, s, [])
