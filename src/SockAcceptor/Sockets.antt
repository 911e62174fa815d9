-- ===== src/SockAcceptor/Sockets.antt =====
-- lne/SockAcceptor.cpp: what becomes of the sockets that the system answers.
use lne.Prelude.{ℕ, ◌≡◌, ◌≢◌, ◌⊎◌, arith, Bool, true, false, Option, none, some, []}
use lne.Config.{lnerr_ok, lnerr_unknow, lnerr_parameter, lnerr_timeout}
use lne.SockPad
use lne.SockPad.{SockPad, closing, attach, close}
use lne.SockPad.Accounts.{Balanced}
use lne.TimeValue.{TimeValue}
use lne.SockAcceptor.{SockAcceptor, Answers, new_pad, new_instance, accept_for}

-- Whatever the system answers, `NewInstance` into a pad either puts the new socket there and closes
-- the one that the pad held, or closes the new one and leaves the pad; it says which.
pub new_pad-Balanced :
    (o : Answers) (family : ℕ) (skpad : SockPad)
    → let out = new_pad o family skpad in
      Balanced (closing o.sock) skpad out.0 out.2
      × ((out.1 ≡ lnerr_ok) × (out.0.socket ≡ o.sock) ⊎ (out.1 ≡ lnerr_unknow) × (out.0 ≡ skpad))
unfolding new_pad attach closing
new_pad-Balanced o family skpad = ground arith

abbrev pub held_by : Option SockAcceptor → SockPad
held_by none = SockPad.new_sock_pad
held_by (some a) = a.skpad

pub new_instance-Balanced :
    (o : Answers) (family : ℕ) (tv : Option TimeValue)
    → let out = new_instance o family tv in
      Balanced (closing o.sock) SockPad.new_sock_pad (held_by out.0) out.1
unfolding new_instance attach closing SockPad.new_sock_pad
new_instance-Balanced o family tv = ground arith

-- `Accept` without a listener answers `LNERR_PARAMETER`; where a time is given and nobody comes in
-- it, `LNERR_TIMEOUT`; either changes nothing. Else it answers `LNERR_OK` if `accept` answers a
-- client, which the caller's pad then holds, and `LNERR_UNKNOW` if not, and then the pad is empty;
-- either way the socket that the pad held is closed and no other, and none is lost.
pub accept_for-Balanced :
    (tv : Option TimeValue) (ready : Bool) (sock : Option ℕ) (a : SockAcceptor) (skpad : SockPad)
    → let out = accept_for tv ready sock a skpad in
      ((a.skpad.socket ≡ none) × (out ≡ (skpad, lnerr_parameter, [])))
      ⊎ ((a.skpad.socket ≢ none)
          × (tv ≢ none)
          × (ready ≡ false)
          × (out ≡ (skpad, lnerr_timeout, [])))
      ⊎ ((a.skpad.socket ≢ none)
          × ((tv ≡ none) ⊎ (ready ≡ true))
          × (((out.1 ≡ lnerr_ok) × (sock ≢ none)) ⊎ ((out.1 ≡ lnerr_unknow) × (sock ≡ none)))
          × (out.0.socket ≡ sock)
          × (out.2 ≡ closing skpad.socket)
          × Balanced (closing sock) skpad out.0 out.2)
unfolding accept_for SockPad.is_valid attach closing
accept_for-Balanced tv ready sock a skpad = ground arith
