-- ===== src/SockSpray/System/Receive.antt =====
-- What one step of `__HandleRead` in lne/SockSpray.cpp changes.
use lne.Prelude.{◌+◌, ◌≤◌, ◌≡◌, refl, true, false, arith}
use lne.Ring.{Ptr}
use lne.DataBlock
use lne.DataBlock.{DataBlock}
use lne.SockSpray.{SockSpray}
use lne.SockSpray.Read
use lne.SockSpray.Read.{
  RecvResult, ReadLocals, Reader, read_step, receive, process_data, received, interrupted,
  end_of_stream, not_received, entering, claiming, finished, allocating, receiving, querying,
  checking, unlocking,
}
use lne.SockSpray.System.{shutdown_count}
use lne.SockSpray.System.Lane.{shutdown_once_frame}
use lne.SockSpray.System.Inv.{flag, reading}

again-reading : (l : ReadLocals) → reading (Read.again l) ≡ 1
unfolding Read.again
again-reading l = ground arith

process_data-reading :
    (l : ReadLocals) (p : Ptr) (b : DataBlock)
    → (reading (process_data l p b).0 ≡ 1) × (shutdown_count (process_data l p b).1 ≡ 0)
unfolding process_data
process_data-reading l p b = ground (arith, again-reading l)

receive-reading :
    (r : RecvResult) (l : ReadLocals) (p : Ptr) (b : DataBlock)
    → (reading (receive r l p b).0 ≡ 1) × (shutdown_count (receive r l p b).1 ≡ 0)
unfolding receive
receive-reading (received n) l p b = ground (
  arith,
  process_data-reading (record l { continue_recv = true }) p (DataBlock.set_size (b.size + n) b).0,
)
receive-reading interrupted l p b = (refl, refl)
receive-reading end_of_stream l p b = process_data-reading (record l { to_shutdown = true }) p b
receive-reading (not_received true) l p b =
    process_data-reading (record l { continue_recv = false }) p b
receive-reading (not_received false) l p b =
    process_data-reading (record l { to_shutdown = true }) p b

-- A reader takes and leaves the receive process as the flag says, closes once, and leaves what is
-- to be sent.
pub read_step-reading :
    (block : Ptr × DataBlock) (r : RecvResult) (w : Reader) (s : SockSpray)
    → reading w ≤ flag s.recv.already
    → let out = read_step block r w s in
      (flag out.1.recv.already + reading w ≡ flag s.recv.already + reading out.0)
      × (out.1.send ≡ s.send)
      × (out.1.send_blocks ≡ s.send_blocks)
      × (flag out.1.shut.invoke ≡ flag s.shut.invoke + shutdown_count out.2)
unfolding read_step
read_step-reading block r entering s le = ground arith
read_step-reading block r claiming s le = ground arith
read_step-reading block r (allocating l) s le =
    ground (arith, again-reading (record l { to_shutdown = true }))
read_step-reading block r (receiving l p b) s le = ground (arith, receive-reading r l p b)
read_step-reading block r (querying l) s le =
    ground (
      arith,
      again-reading l,
      again-reading (record l { to_shutdown = true; continue_recv = false }),
    )
read_step-reading block r (checking l) s le = ground (arith, shutdown_once_frame s)
read_step-reading block r (unlocking l) s le = ground arith
read_step-reading block r finished s le = ground arith
