-- ===== src/SockAcceptor.antt =====
-- lne/SockAcceptor.h and lne/SockAcceptor.cpp: a listening socket whose clients are waited for. What
-- the system answers is an argument; every operation answers the sockets that it closes.
pub mod Sockets
use lne.Prelude.{
  ℕ, ◌<◌, Bool, true, false, ◌&&◌, Option, none, some, List, [], ◌∷◌, ltb, if◌then◌else◌,
}
use lne.Config.{Status, lnerr_ok, lnerr_unknow, lnerr_parameter, lnerr_timeout}
use lne.SockPad
use lne.SockPad.{SockPad, attach, closing, close}
use lne.TimeValue.{TimeValue}

-- What `socket` answers, and whether `setsockopt`, `bind`, `listen` and then `new` succeed.
pub record Answers : Type 0 where
  pub sock : Option ℕ
  pub setsockopt_ok : Bool
  pub bind_ok : Bool
  pub listen_ok : Bool
  pub memory : Bool

abbrev pub listens : Answers → Bool
listens o = o.setsockopt_ok && o.bind_ok && o.listen_ok

pub record SockAcceptor : Type 0 where
  pub skpad : SockPad
  pub timeout : Option TimeValue

-- The first `NewInstance`, into a pad of the caller.
unfoldable pub new_pad : Answers → ℕ → SockPad → SockPad × Status × List ℕ
new_pad o family skpad = elim (o.sock) [
  | none ↦ (skpad, lnerr_unknow, [])
  | some sock ↦
      (let out = attach family (some sock) skpad in
        if listens o then (out.0, lnerr_ok, out.1) else (skpad, lnerr_unknow, sock ∷ []))
]

-- The second `NewInstance`.
unfoldable pub new_instance : Answers → ℕ → Option TimeValue → Option SockAcceptor × List ℕ
new_instance o family tv = elim (o.sock) [
  | none ↦ (none, [])
  | some sock ↦
      (let out = attach family (some sock) SockPad.new_sock_pad in
        if listens o && o.memory
        then (some (record { skpad = out.0; timeout = tv }), out.1)
        else (none, sock ∷ []))
]

-- `Release`: the pad is destroyed with the object.
unfoldable pub release : SockAcceptor → List ℕ
release a = (close a.skpad).1

-- `Accept` with a time or without one. `ready` is whether `select` answers more than 0, `sock` is
-- what `accept` answers.
unfoldable pub accept_for :
    Option TimeValue → Bool → Option ℕ → SockAcceptor → SockPad → SockPad × Status × List ℕ
accept_for tv ready sock a skpad =
    let out = attach a.skpad.family sock skpad in
    let taken : SockPad × Status × List ℕ =
      (out.0, if SockPad.is_valid out.0 then lnerr_ok else lnerr_unknow, out.1) in
    if SockPad.is_valid a.skpad
    then (elim tv [ none ↦ taken | some _ ↦ (if ready then taken else (skpad, lnerr_timeout, [])) ])
    else (skpad, lnerr_parameter, [])

-- `Accept` with the time of the object.
unfoldable pub accept : Bool → Option ℕ → SockAcceptor → SockPad → SockPad × Status × List ℕ
accept ready sock a skpad = accept_for a.timeout ready sock a skpad
