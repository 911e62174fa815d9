-- ===== src/SockSpray/Wakeup.antt =====
-- lne/SockSpray.cpp: a block that is queued while a writer ends.
use lne.Prelude.{ℕ, ◌≡◌, true, false, arith}
use lne.Ring.{Ptr}
use lne.SockSpray.{SockSpray}
use lne.SockSpray.Write.{SendResult, WriteLocals, entering, unlocking, finished, write_step}

-- A writer that once found the queue empty ends at its last critical section whatever came since. If
-- `Send` queued blocks in between, its own call of `__HandleWrite` has left the work to that writer:
-- both end, nobody is in the send process, and the queue stays as it is.
pub write_step-left_queued :
    (size : Ptr → ℕ) (r : SendResult) (l : WriteLocals) (s : SockSpray)
    → l.block_empty ≡ true
    → s.send.already ≡ true
    → s.shut.already ≡ false
    → let first = write_step size r entering s in
      let second = write_step size r first.0 first.1 in
      let last = write_step size r (unlocking l) second.1 in
      (second.0 ≡ finished)
      × (last.0 ≡ finished)
      × (last.1.send_blocks ≡ s.send_blocks)
      × (last.1.send.already ≡ false)
      × (last.1.send.ready ≡ true)
unfolding write_step
write_step-left_queued size r l s empty taken unmarked = ground arith
