-- ===== src/SockConnector.antt =====
-- lne/SockConnector.h and lne/SockConnector.cpp: connecting to an address, in the variant for Linux.
-- What the system answers is an argument; every operation answers the sockets that it closes.
pub mod Sockets
use lne.Prelude.{ℕ, Bool, true, false, ◌&&◌, Option, none, some, List, [], ◌∷◌, if◌then◌else◌}
use lne.Config.{Status, is_ok, lnerr_ok, lnerr_unknow, lnerr_timeout}
use lne.SockPad.{SockPad, attach}
use lne.SockAddr
use lne.SockAddr.{SockAddr}
use lne.TimeValue.{TimeValue}

-- What `socket` answers, whether the two calls of `fcntl` before `connect`, `connect` itself, and the
-- call of `fcntl` after it succeed, and whether `select` answers more than 0.
pub record Answers : Type 0 where
  pub sock : Option ℕ
  pub no_block_ok : Bool
  pub connect_ok : Bool
  pub ready : Bool
  pub block_ok : Bool

pub record SockConnector : Type 0 where
  pub addr : SockAddr
  pub timeout : Option TimeValue

-- `NewInstance`. The Boolean is whether `new` gets memory.
unfoldable pub new_instance : Bool → SockAddr → Option TimeValue → Option SockConnector
new_instance memory addr tv =
    if memory
    then some (record { addr = SockAddr.assign SockAddr.reset addr; timeout = tv })
    else none

-- The result of `Connect` once there is a socket.
unfoldable pub connect_result : Answers → Option TimeValue → Status
connect_result o none = if o.connect_ok then lnerr_ok else lnerr_unknow
connect_result o (some tv) =
    if o.no_block_ok
    then (if o.ready then (if o.block_ok then lnerr_ok else lnerr_unknow) else lnerr_timeout)
    else lnerr_unknow

-- `Connect` to an address, with a time or without one.
unfoldable pub connect_to :
    Answers → SockAddr → Option TimeValue → SockPad → SockPad × Status × List ℕ
unfolding connect_result
connect_to o addr tv skpad = elim (o.sock) [
  | none ↦ (skpad, lnerr_unknow, [])
  | some sock ↦
      (let out = attach addr.addr.family (some sock) skpad in
        let result = connect_result o tv in
        if is_ok result then (out.0, result, out.1) else (skpad, result, []))
]

-- `Connect` of an object.
unfoldable pub connect : Answers → SockConnector → SockPad → SockPad × Status × List ℕ
connect o c skpad = connect_to o c.addr c.timeout skpad
