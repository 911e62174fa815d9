-- ===== src/SockSpray/System/Lane.antt =====
-- What one step of `__HandleWrite` or `__HandleRead` in lne/SockSpray.cpp changes.
use lne.Prelude.{ℕ, ◌+◌, ◌≤◌, ◌≡◌, true, false, not, ◌||◌, [], arith}
use lne.Ring.{Ptr}
use lne.ObjectQueue
use lne.ObjectQueue.{Holds, extract-Holds, extract-empty}
use lne.SockSpray.{SockSpray, shutdown_once}
use lne.SockSpray.Write
use lne.SockSpray.Write.{
  SendResult, sent, interrupted, not_sent, WriteLocals, Writer, write_step, extract_block, transmit,
}
use lne.SockSpray.Write.{
  entering, claiming, finished, extracting, transmitting, checking, unlocking,
}
use lne.SockSpray.System.{shutdown_count, releases, pieces}
use lne.SockSpray.System.Inv.{flag, writing, sending}

again-writing : (l : WriteLocals) → writing (Write.again l) ≡ 1
unfolding Write.again
again-writing l = ground arith

pub again-sending : (l : WriteLocals) → sending (Write.again l) ≡ 0
unfolding Write.again
again-sending l = ground arith

-- What a step of `shutdown_once` leaves.
pub shutdown_once_frame :
    (s : SockSpray)
    → ((shutdown_once s).0.send ≡ s.send)
      × ((shutdown_once s).0.recv ≡ s.recv)
      × ((shutdown_once s).0.send_blocks ≡ s.send_blocks)
      × (flag (shutdown_once s).0.shut.invoke
          ≡ flag s.shut.invoke + shutdown_count (shutdown_once s).1)
      × (releases (shutdown_once s).1 ≡ [])
      × (pieces (shutdown_once s).1 ≡ [])
unfolding shutdown_once
shutdown_once_frame s = ground arith

extract_block-writing :
    (l : WriteLocals) (s : SockSpray)
    → (writing (extract_block l s).0 ≡ 1)
      × ((extract_block l s).1.send.already ≡ s.send.already)
      × ((extract_block l s).1.recv ≡ s.recv)
      × ((extract_block l s).1.shut ≡ s.shut)
unfolding extract_block
extract_block-writing l s =
    ground (
      arith,
      again-writing l,
      again-writing (record l { continue_send = false; block_empty = true }),
    )

transmit-writing :
    (size : Ptr → ℕ) (r : SendResult) (l : WriteLocals) (s : SockSpray)
    → let out = transmit size r l s in
      (writing out.0 ≡ 1)
      × (out.1.send.already ≡ s.send.already)
      × (out.1.recv ≡ s.recv)
      × (out.1.shut ≡ s.shut)
      × (shutdown_count out.2 ≡ 0)
unfolding transmit
transmit-writing size (sent n) l s =
    ground (arith, again-writing (record l { continue_send = true }))
transmit-writing size interrupted l s = ground arith
transmit-writing size (not_sent would_block) l s = ground (
  arith,
  again-writing
      (record l { continue_send = false; to_shutdown = l.to_shutdown || not would_block }),
)

pub write_step-writing :
    (size : Ptr → ℕ) (r : SendResult) (w : Writer) (s : SockSpray)
    → writing w ≤ flag s.send.already
    → let out = write_step size r w s in
      flag out.1.send.already + writing w ≡ flag s.send.already + writing out.0
unfolding write_step
write_step-writing size r entering s le = ground arith
write_step-writing size r claiming s le = ground arith
write_step-writing size r (extracting l) s le = ground (arith, extract_block-writing l s)
write_step-writing size r (transmitting l) s le = ground (arith, transmit-writing size r l s)
write_step-writing size r (checking l) s le = ground (arith, shutdown_once_frame s)
write_step-writing size r (unlocking l) s le = ground arith
write_step-writing size r finished s le = ground arith

-- What a writer does not change, and how it closes.
pub write_step-shut :
    (size : Ptr → ℕ) (r : SendResult) (w : Writer) (s : SockSpray)
    → let out = write_step size r w s in
      (out.1.recv ≡ s.recv) × (flag out.1.shut.invoke ≡ flag s.shut.invoke + shutdown_count out.2)
unfolding write_step
write_step-shut size r entering s = ground arith
write_step-shut size r claiming s = ground arith
write_step-shut size r (extracting l) s = ground (arith, extract_block-writing l s)
write_step-shut size r (transmitting l) s = ground (arith, transmit-writing size r l s)
write_step-shut size r (checking l) s = ground (arith, shutdown_once_frame s)
write_step-shut size r (unlocking l) s = ground arith
write_step-shut size r finished s = ground arith

-- A thread outside the send process does not touch the block at hand.
pub write_step-outside :
    (size : Ptr → ℕ) (r : SendResult) (w : Writer) (s : SockSpray)
    → writing w ≡ 0
    → (write_step size r w s).1.send.cache_buf ≡ s.send.cache_buf
unfolding write_step
write_step-outside size r entering s e = ground arith
write_step-outside size r claiming s e = ground arith
write_step-outside size r finished s e = ground arith
write_step-outside size r (extracting l) s e = absurd (omega arith)
write_step-outside size r (transmitting l) s e = absurd (omega arith)
write_step-outside size r (checking l) s e = absurd (omega arith)
write_step-outside size r (unlocking l) s e = absurd (omega arith)

-- What `Send` leaves as it was, and the queue it leaves.
pub send_append_frame :
    (cache_nodes : ℕ) (memory block : Ptr) (s : SockSpray)
    → let s' = (Write.send_append cache_nodes memory block s).0 in
      (s'.send ≡ s.send)
      × (s'.recv ≡ s.recv)
      × (s'.shut.invoke ≡ s.shut.invoke)
      × (s'.send_blocks ≡ (ObjectQueue.append cache_nodes memory block s.send_blocks).0)
unfolding Write.send_append
send_append_frame cache_nodes memory block s = ground arith

pub shutdown_query_frame :
    (s : SockSpray)
    → let s' = (Write.shutdown_query s).0 in
      (s'.send ≡ s.send)
      × (s'.recv ≡ s.recv)
      × (s'.shut.invoke ≡ s.shut.invoke)
      × (s'.send_blocks ≡ s.send_blocks)
unfolding Write.shutdown_query
shutdown_query_frame s = ground arith
