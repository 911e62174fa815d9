-- ===== src/SockWaves.antt =====
-- lne/SockWaves.h and lne/SockWaves.cpp: blocks sent to a socket and received from it, waiting for
-- the system, in the variant for Linux. What the system answers is an argument.
pub mod Transfer
use lne.Prelude.{ℕ, ◌==◌, Bool, true, false, Option, none, some, List, [], ◌∷◌, ltb, if◌then◌else◌}
use lne.Config.{Status, lnerr_ok, lnerr_unknow, lnerr_parameter, lnerr_timeout, lnerr_ioclosed}
use lne.SockPad
use lne.SockPad.{SockPad}
use lne.DataBlock.{DataBlock, set_size}
use lne.TimeValue.{TimeValue}

-- `NewInstance`: the object's pad and the sockets closed. The Boolean is whether `new` gets memory.
-- The argument goes out of scope with the socket that was not moved out of it.
unfoldable pub new_instance : Bool → SockPad → Option SockPad × List ℕ
new_instance memory skpad =
    let moved = SockPad.assign SockPad.new_sock_pad skpad in
    if SockPad.is_valid skpad
    then (if memory then (some moved.0, moved.2) else (none, (SockPad.close skpad).1))
    else (none, (SockPad.close skpad).1)

-- What `send` or `recv` answers: a number of bytes, `EINTR`, or another error.
pub data Answer : Type 0 where
  bytes : (n : ℕ) → Answer
  interrupted failed : Answer

-- The loop around the call, over what the system answers to one call after the other: the last
-- answer, or `none` while the answers are all interruptions.
unfoldable pub call_loop : List Answer → Option Answer
call_loop [] = none
call_loop (interrupted ∷ more) = call_loop more
call_loop (a ∷ more) = some a

unfoldable pub send_result : Answer → Status
send_result (bytes n) = lnerr_ok
send_result _ = lnerr_unknow

-- `Send`. The result is `none` while the call has not come back.
unfoldable pub send : List Answer → Option DataBlock → Option Status
unfolding send_result
send answers none = some lnerr_parameter
send answers (some block) =
    let called : Option Status = elim (call_loop answers) [
      | none ↦ none
      | some a ↦ some (send_result a)
    ] in
    if ltb 0 block.size then called else some lnerr_parameter

unfoldable pub recv_result : Answer → DataBlock → DataBlock × Status
recv_result (bytes n) block =
    if n == 0 then (block, lnerr_ioclosed) else ((set_size n block).0, lnerr_ok)
recv_result _ block = (block, lnerr_unknow)

-- `Recv` with a time or without one. `ready` is whether `select` answers more than 0.
unfoldable pub recv :
    Option TimeValue → Bool → List Answer → Option DataBlock → Option (Option DataBlock × Status)
unfolding recv_result
recv tv ready answers none = some (none, lnerr_parameter)
recv tv ready answers (some block) =
    let called : Option (Option DataBlock × Status) = elim (call_loop answers) [
      | none ↦ none
      | some a ↦ (let out = recv_result a block in some (some out.0, out.1))
    ] in
    if ltb 0 block.capacity
    then (elim tv [
      | none ↦ called
      | some _ ↦ (if ready then called else some (some block, lnerr_timeout))
    ])
    else some (some block, lnerr_parameter)
