-- ===== src/Examples/Calls.antt =====
-- The calls that wait for the system, and the threads, at concrete inputs.
use lne.Prelude.{
  ℕ, ◌+◌, ◌≡◌, ◌≢◌, ◌⊎◌, refl, ◌++◌, true, false, Option, none, some, List, [], ◌∷◌, arith,
}
use lne.Prelude.Int.{pos}
use lne.Config.{lnerr_ok, lnerr_unknow, lnerr_timeout, lnerr_parameter}
use lne.SockPad.{SockPad, closing, new_sock_pad}
use lne.SockPad.Accounts.{Balanced}
use lne.TimeValue.{TimeValue}
use lne.DataBlock.{DataBlock}
use lne.SockAddr.{reset}
use lne.SockAcceptor.{SockAcceptor, accept_for}
use lne.SockAcceptor.Sockets.{accept_for-Balanced}
use lne.SockConnector.{Answers, connect_to}
use lne.SockConnector.Sockets.{connect_to-leaks}
use lne.SockWaves.{bytes, recv}
use lne.SockWaves.Transfer.{interruptions, Received, recv-interruptions}
use lne.Thread.{Available}
use lne.Thread.Joined.{Op, activates, waits, life, joined_count, created_count, life-joined}

abbrev held : ℕ → SockPad
held s = record { family = 2; socket = some s }

abbrev socket_of : SockPad → Option ℕ
socket_of p = p.socket

abbrev half_second : TimeValue
half_second = record { sec = pos 0; usec = pos 500000 }

abbrev acceptor : SockAcceptor
acceptor = record { skpad = held 3; timeout = some half_second }

accept_for-Balanced_example :
    let out = accept_for (some half_second) true (some 8) acceptor (held 7) in
    ((acceptor.skpad.socket ≡ none) × (out ≡ (held 7, lnerr_parameter, [])))
    ⊎ ((acceptor.skpad.socket ≢ none)
        × (some half_second ≢ none)
        × (true ≡ false)
        × (out ≡ (held 7, lnerr_timeout, [])))
    ⊎ ((acceptor.skpad.socket ≢ none)
        × ((some half_second ≡ none) ⊎ (true ≡ true))
        × (((out.1 ≡ lnerr_ok) × (socket_of (held 8) ≢ none))
            ⊎ ((out.1 ≡ lnerr_unknow) × (socket_of (held 8) ≡ none)))
        × (out.0.socket ≡ some 8)
        × (out.2 ≡ closing (socket_of (held 7)))
        × Balanced (closing (some 8)) (held 7) out.0 out.2)
accept_for-Balanced_example = accept_for-Balanced (some half_second) true (some 8) acceptor (held 7)

-- The peer refuses: `connect` fails.
abbrev refused : Answers
refused = record {
  sock = some 9;
  no_block_ok = true;
  connect_ok = false;
  ready = false;
  block_ok = true;
}

connect_to-leaks_example :
    let out = connect_to refused reset none new_sock_pad in
    ((out.1 ≡ lnerr_ok) × (out.0.socket ≡ some 9) × Balanced (9 ∷ []) new_sock_pad out.0 out.2)
    ⊎ ((out.1 ≢ lnerr_ok) × (out.0 ≡ new_sock_pad) × (out.2 ≡ []))
connect_to-leaks_example = connect_to-leaks refused reset none new_sock_pad 9 refl

abbrev block : DataBlock
block = record { reference = 1; size = 0; buffer = 1000; capacity = 1500; pool = 0 }

recv-interruptions_example :
    Received
      (some half_second)
      true
      block
      (bytes 20)
      (recv (some half_second) true (interruptions 2 ++ bytes 20 ∷ []) (some block))
recv-interruptions_example =
    recv-interruptions (some half_second) true 2 (bytes 20) [] block (λ e. ground (arith, e))
      (λ m e. ground (arith, e))

abbrev idle : Available
idle = record { available = false }

abbrev calls : List Op
calls = activates false ∷ activates true ∷ activates true ∷ waits ∷ activates true ∷ []

life-joined_example : joined_count (life calls idle) ≡ created_count (life calls idle) + 0
life-joined_example = life-joined calls idle
