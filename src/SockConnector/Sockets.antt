-- ===== src/SockConnector/Sockets.antt =====
-- lne/SockConnector.cpp: what becomes of the socket that `Connect` opens.
use lne.Prelude.{ℕ, ◌≡◌, ◌≢◌, ◌⊎◌, refl, arith, true, false, Option, some, [], ◌∷◌}
use lne.Config.{lnerr_ok}
use lne.SockPad.{SockPad, closing, attach}
use lne.SockPad.Accounts.{Balanced}
use lne.SockAddr.{SockAddr}
use lne.TimeValue.{TimeValue}
use lne.SockConnector.{Answers, connect_to, connect_result}

-- A `Connect` that answers `LNERR_OK` moves the new socket into the pad and closes the one that was
-- there. Every other answer after `socket` loses the new one: the pad is as it was, and nothing is
-- closed.
pub connect_to-leaks :
    (o : Answers) (addr : SockAddr) (tv : Option TimeValue) (skpad : SockPad) (sock : ℕ)
    → o.sock ≡ some sock
    → let out = connect_to o addr tv skpad in
      ((out.1 ≡ lnerr_ok) × (out.0.socket ≡ some sock) × Balanced (sock ∷ []) skpad out.0 out.2)
      ⊎ ((out.1 ≢ lnerr_ok) × (out.0 ≡ skpad) × (out.2 ≡ []))
unfolding connect_to connect_result attach closing
connect_to-leaks o addr tv skpad sock e = ground (arith, e)

-- With a time, `Connect` does not ask whether the connection was made: for a socket that becomes
-- ready, which it also does when the peer refuses, the answer is `LNERR_OK` whatever `connect` says.
pub connect_to-refused :
    (o : Answers) (addr : SockAddr) (tv : TimeValue) (skpad : SockPad) (sock : ℕ)
    → o.sock ≡ some sock
    → o.no_block_ok ≡ true
    → o.ready ≡ true
    → o.block_ok ≡ true
    → (connect_to (record o { connect_ok = false }) addr (some tv) skpad).1 ≡ lnerr_ok
unfolding connect_to connect_result
connect_to-refused o addr tv skpad sock e a b c = simp (e, a, b, c) refl
