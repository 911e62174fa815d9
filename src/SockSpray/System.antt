-- ===== src/SockSpray/System.antt =====
-- The threads of lne/SockSpray.cpp on one connection together: writers, readers, and clients that
-- send and shut down, in any order of their critical sections and calls.
pub mod Inv
pub mod Lane
pub mod Queue
pub mod Wire
pub mod Receive
pub mod Safety
pub mod Start
use lne.Prelude.{ℕ, ◌+◌, ◌<◌, ◌≤◌, ◌≡◌, ◌≢◌, Bool, true, false, List, [], ◌∷◌, ◌++◌, if◌then◌else◌}
use lne.Config.{is_ok}
use lne.Ring.{Ptr, null}
use lne.DataBlock.{DataBlock}
use lne.ObjectQueue
use lne.ObjectQueue.{Holds}
use lne.ObjectList.Free.{Fresh}
use lne.ExtendObject.{u32_mod}
use lne.SockSpray.{SockSpray, Event, sent_bytes, block_release, socket_shutdown, shutdown_once}
use lne.SockSpray.Thread.{mark_shutdown}
use lne.SockSpray.Write
use lne.SockSpray.Write.{SendResult, sent, Writer, write_step, send_append, shutdown_query}
use lne.SockSpray.Read
use lne.SockSpray.Read.{RecvResult, Reader, read_step}

-- What one call of `send` took: the bytes of a block from an offset on.
pub record Piece : Type 0 where
  pub block : Ptr
  pub from : ℕ
  pub bytes : ℕ

-- The connection, its threads, and what happened so far: the blocks in the order in which `Send`
-- queued them, those that writers gave back, in that order, what went out, and the calls of
-- `shutdown`.
pub record System : Type 0 where
  pub spray : SockSpray
  pub writers : List Writer
  pub readers : List Reader
  pub appended : List Ptr
  pub released : List Ptr
  pub wire : List Piece
  pub shutdowns : ℕ

abbrev pub releases : List Event → List Ptr
releases [] = []
releases (block_release b ∷ es) = b ∷ releases es
releases (_ ∷ es) = releases es

abbrev pub pieces : List Event → List Piece
pieces [] = []
pieces (sent_bytes b from bytes ∷ es) = record { block = b; from = from; bytes = bytes } ∷ pieces es
pieces (_ ∷ es) = pieces es

abbrev pub shutdown_count : List Event → ℕ
shutdown_count [] = 0
shutdown_count (socket_shutdown ∷ es) = 1 + shutdown_count es
shutdown_count (_ ∷ es) = shutdown_count es

unfoldable pub write : (Ptr → ℕ) → SendResult → List Writer → Writer → List Writer → System → System
write size r ws w vs s =
    let out = write_step size r w s.spray in
    record s {
      spray = out.1;
      writers = ws ++ out.0 ∷ vs;
      released = s.released ++ releases out.2;
      wire = s.wire ++ pieces out.2;
      shutdowns = s.shutdowns + shutdown_count out.2;
    }

unfoldable pub read :
    Ptr × DataBlock → RecvResult → List Reader → Reader → List Reader → System → System
read block r ws w vs s =
    let out = read_step block r w s.spray in
    record s {
      spray = out.1;
      readers = ws ++ out.0 ∷ vs;
      shutdowns = s.shutdowns + shutdown_count out.2;
    }

-- The second critical section of `Send`.
unfoldable pub append : ℕ → Ptr → Ptr → System → System
append cache_nodes memory block s =
    let out = ObjectQueue.append cache_nodes memory block s.spray.send_blocks in
    record s {
      spray = (send_append cache_nodes memory block s.spray).0;
      appended = if is_ok out.1 then s.appended ++ block ∷ [] else s.appended;
    }

-- `__Shutdown` from `Shutdown` or `HandleIdleTimeout`, which hold the lock for it, or
-- `HandleTerminate`, which calls it without the lock where no thread is in the connection; one step
-- in each.
unfoldable pub close : System → System
close s =
    let out = shutdown_once s.spray in
    record s { spray = out.0; shutdowns = s.shutdowns + shutdown_count out.1 }

-- What `send` may answer for the block at hand: some bytes, and no more than are left of it. A step
-- that does not call `send` does not look at the answer.
abbrev pub Answered : (Ptr → ℕ) → SendResult → SockSpray → Type 0
Answered size (sent n) s =
    (0 < n) × (s.send.cache_len + n ≤ size s.send.cache_buf) × (size s.send.cache_buf < u32_mod)
Answered size _ s = Unit

-- Any thread may step or start; a client may send a block, with new memory from `malloc` or none,
-- and shut down; the reactor may find the connection shut. `size` is the size of each block.
pub data Step (size : Ptr → ℕ) (s : System) (s' : System) : Type 0 where
  writes :
      (r : SendResult) (ws : List Writer) (w : Writer) (vs : List Writer)
      → s.writers ≡ ws ++ w ∷ vs
      → Answered size r s.spray
      → s' ≡ write size r ws w vs s
      → Step size s s'
  reads :
      (block : Ptr × DataBlock) (r : RecvResult) (ws : List Reader) (w : Reader) (vs : List Reader)
      → s.readers ≡ ws ++ w ∷ vs
      → s' ≡ read block r ws w vs s
      → Step size s s'
  starts_write : s' ≡ record s { writers = Write.entering ∷ s.writers } → Step size s s'
  starts_read : s' ≡ record s { readers = Read.entering ∷ s.readers } → Step size s s'
  appends :
      (cache_nodes : ℕ) (memory : Ptr) (block : Ptr)
      → block ≢ null
      → 0 < cache_nodes
      → ((items : List Ptr) (h : Holds s.spray.send_blocks items)
          → memory ≢ null
          → Fresh 0 cache_nodes memory h.nodes)
      → s' ≡ append cache_nodes memory block s
      → Step size s s'
  queries : s' ≡ record s { spray = (shutdown_query s.spray).0 } → Step size s s'
  closes : s' ≡ close s → Step size s s'
  marks : s' ≡ record s { spray = mark_shutdown s.spray } → Step size s s'

pub data Reach (size : Ptr → ℕ) (s : System) : System → Type 0 where
  here : Reach size s s
  later : {t u : System} → Reach size s t → Step size t u → Reach size s u
