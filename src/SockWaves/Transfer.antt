-- ===== src/SockWaves/Transfer.antt =====
-- lne/SockWaves.cpp: what `Send` and `Recv` answer, and what `Recv` leaves in the block.
use lne.Prelude.{
  ℕ, ◌<◌, ◌≤◌, ◌≡◌, ◌≢◌, ◌⊎◌, refl, arith, Bool, true, false, Option, none, some, List, [], ◌∷◌,
  ◌++◌,
}
use lne.Config.{Status, lnerr_ok, lnerr_unknow, lnerr_parameter, lnerr_timeout, lnerr_ioclosed}
use lne.DataBlock.{DataBlock, set_size}
use lne.TimeValue.{TimeValue}
use lne.SockWaves.{
  Answer, bytes, interrupted, failed, call_loop, send, send_result, recv, recv_result,
}

-- Interruptions, however many.
abbrev pub interruptions : ℕ → List Answer
interruptions ℕ.zero = []
interruptions (ℕ.suc n) = interrupted ∷ interruptions n

call_loop-interruptions :
    (n : ℕ) (a : Answer) (rest : List Answer)
    → a ≢ interrupted
    → call_loop (interruptions n ++ a ∷ rest) ≡ some a
unfolding call_loop
call_loop-interruptions ℕ.zero a rest h = ground (arith, h)
call_loop-interruptions (ℕ.suc n) a rest h = call_loop-interruptions n a rest h

-- After any number of interruptions, `Send` answers `LNERR_OK` for every count of bytes that the
-- system took, also for one that is less than the block, and `LNERR_UNKNOW` for a failure.
pub send-interruptions :
    (n : ℕ) (a : Answer) (rest : List Answer) (block : DataBlock)
    → a ≢ interrupted
    → 0 < block.size
    → send (interruptions n ++ a ∷ rest) (some block)
      ≡ some (elim a [ bytes _ ↦ lnerr_ok | _ ↦ lnerr_unknow ])
unfolding send send_result
send-interruptions n a rest block h some_bytes =
    ground (arith, call_loop-interruptions n a rest h, some_bytes)

-- What a `Recv` leaves that the system answers with `a` behind the interruptions.
abbrev pub Received :
    Option TimeValue → Bool → DataBlock → Answer → Option (Option DataBlock × Status) → Type 0
Received tv ready block a out =
    ((block.capacity ≡ 0) × (out ≡ some (some block, lnerr_parameter)))
    ⊎ ((0 < block.capacity)
        × (tv ≢ none)
        × (ready ≡ false)
        × (out ≡ some (some block, lnerr_timeout)))
    ⊎ ((0 < block.capacity)
        × ((tv ≡ none) ⊎ (ready ≡ true))
        × (((a ≡ failed) × (out ≡ some (some block, lnerr_unknow)))
            ⊎ ((a ≡ bytes 0) × (out ≡ some (some block, lnerr_ioclosed)))
            ⊎ ((m : ℕ) × (a ≡ bytes m)
                × (0 < m)
                × (out ≡ some (some (record block { size = m }), lnerr_ok)))))

recv-called :
    (tv : Option TimeValue) (ready : Bool) (answers : List Answer) (a : Answer) (block : DataBlock)
    → call_loop answers ≡ some a
    → a ≢ interrupted
    → ((m : ℕ) → a ≡ bytes m → m ≤ block.capacity)
    → Received tv ready block a (recv tv ready answers (some block))
unfolding recv recv_result set_size
recv-called tv ready answers (bytes ℕ.zero) block e h room = ground (arith, e)
recv-called tv ready answers (bytes (ℕ.suc k)) block e h room =
    ground (arith, e, room (ℕ.suc k) refl)
recv-called tv ready answers interrupted block e h room = absurd (h refl)
recv-called tv ready answers failed block e h room = ground (arith, e)

-- However many interruptions come before it, `Recv` answers for what the system answers behind them:
-- a block without room is refused; where a time is given and nothing comes in it, it answers
-- `LNERR_TIMEOUT`; a failure is `LNERR_UNKNOW` and no bytes are `LNERR_IOCLOSED`, and all of these
-- leave the block as it was; else it answers `LNERR_OK` and the block's size is the number of bytes,
-- and nothing else in it changes. The system writes no more bytes than it is given room for.
pub recv-interruptions :
    (tv : Option TimeValue) (ready : Bool) (n : ℕ) (a : Answer) (rest : List Answer)
    (block : DataBlock)
    → a ≢ interrupted
    → ((m : ℕ) → a ≡ bytes m → m ≤ block.capacity)
    → Received tv ready block a (recv tv ready (interruptions n ++ a ∷ rest) (some block))
recv-interruptions tv ready n a rest block h room =
    recv-called tv ready (interruptions n ++ a ∷ rest) a block (call_loop-interruptions n a rest h)
      h room
