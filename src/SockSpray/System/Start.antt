-- ===== src/SockSpray/System/Start.antt =====
-- What the invariant says of a connection of lne/SockSpray.cpp that starts anew.
use lne.Prelude.{ℕ, ◌≤◌, ◌≡◌, refl, List, [], ◌++◌, arith}
use lne.Ring.{Ptr}
use lne.ObjectQueue
use lne.ObjectQueue.{Holds, append-Holds}
use lne.SockSpray.{SockSpray, new_sock_spray}
use lne.SockSpray.System.{System, Reach}
use lne.SockSpray.System.Inv.{writing, reading, total, cached, Sent, none_sent}
use lne.SockSpray.System.Safety.{Reach-Inv, flag-le}

-- A connection with no thread in it and nothing to send.
unfoldable pub start : SockSpray → System
start s = record {
  spray = s;
  writers = [];
  readers = [];
  appended = [];
  released = [];
  wire = [];
  shutdowns = 0;
}

-- From a new connection and however its threads interleave: at most one writer and one reader are in
-- the middle of their processes, `shutdown` was called at most once, and the blocks that `Send`
-- queued are, in that order, those that were given back, the one at hand and those in the queue.
-- Where the sizes of the blocks do not change and `send` answers no more bytes than it is asked to
-- take, and never none, the blocks went out in that order, each from its beginning and each piece where
-- the one before ended, and each that was given back went out whole before.
pub new_sock_spray-Reach :
    (limit_write_cache : ℕ) (q : ObjectQueue.ObjectQueue Ptr) (size : Ptr → ℕ) (s : System)
    → Holds q []
    → Reach size (start (new_sock_spray limit_write_cache q)) s
    → (total writing s.writers ≤ 1)
      × (total reading s.readers ≤ 1)
      × (s.shutdowns ≤ 1)
      × ((queue : List Ptr) × Holds s.spray.send_blocks queue
          × (s.appended ≡ s.released ++ (cached s.spray.send.cache_buf ++ queue)))
      × Sent size s.wire s.released s.spray.send.cache_buf s.spray.send.cache_len
unfolding start new_sock_spray
new_sock_spray-Reach limit_write_cache q size s empty r =
    let v = Reach-Inv r (record {
      one_writer = refl;
      one_reader = refl;
      once = refl;
      at_hand = λ _. refl;
      queue = [];
      holds = empty;
      no_null = tt;
      fifo = refl;
      whole = none_sent;
    }) in
    (
      omega (arith, v.one_writer, flag-le s.spray.send.already),
      omega (arith, v.one_reader, flag-le s.spray.recv.already),
      omega (arith, v.once, flag-le s.spray.shut.invoke),
      (v.queue, v.holds, v.fifo),
      v.whole,
    )
