-- ===== src/SockSpray/Receive.antt =====
-- lne/SockSpray.cpp: `HandleRead` from its beginning to its end on a thread that is alone in it.
pub mod Whole
use lne.Prelude.{
  ℕ, zero, suc, ◌+◌, ◌<◌, ◌≤◌, ◌==◌, ◌≡◌, ◌≢◌, ◌⊎◌, inl, inr, refl, sym, ap, ◌∙◌, Bool, true, false,
  Option, List, [], ◌∷◌, ◌++◌, ◌||◌, leb, not, Bool-cases, if◌then◌else◌, arith, ==_of_ne, ==_self,
}
use lne.Ring.{Ptr, null}
use lne.DataBlock
use lne.DataBlock.{DataBlock, new_data_block}
use lne.SockSpray.{SockSpray, Event, block_release, handle_data, socket_shutdown, shutdown_once}
use lne.SockSpray.Read.{
  RecvResult, received, end_of_stream, interrupted, not_received, ReadLocals, Reader, entering,
  claiming, finished, allocating, querying, checking, unlocking, receiving, again, process_data,
  receive, read_step,
}
use lne.SockSpray.Thread.{enter_thread_safe}
use lne.SockSpray.Flush.{leave_thread_safe}

-- The blocks that the pool still gives and the answers that the system still has.
abbrev pub Supply : Type 0
Supply = List (Ptr × DataBlock) × List RecvResult

-- The thread takes a block where it calls `Alloc` and an answer where it calls `recv`; where they
-- end, the pool is empty and the socket has no more data.
unfoldable pub next_supply : Reader → Supply → (Ptr × DataBlock) × RecvResult × Supply
unfolding new_data_block
next_supply (allocating l) (b ∷ bs, rs) = (b, not_received true, (bs, rs))
next_supply (receiving l p b) (bs, r ∷ rs) = ((null, new_data_block), r, (bs, rs))
next_supply w supply = ((null, new_data_block), not_received true, supply)

-- `__HandleRead`, on fuel for its loops.
unfoldable pub run_reader : ℕ → Supply → Reader → SockSpray → Reader × SockSpray × List Event
run_reader zero supply w s = (w, s, [])
run_reader (suc fuel) supply w s =
    let a = next_supply w supply in
    let out = read_step a.0 a.1 w s in
    let rest = run_reader fuel a.2 out.0 out.1 in (rest.0, rest.1, out.2 ++ rest.2)

unfoldable pub handle_read : ℕ → Supply → SockSpray → Option (SockSpray × List Event)
unfolding leave_thread_safe
handle_read fuel supply s =
    leave_thread_safe (run_reader fuel supply entering (enter_thread_safe s))

-- The system fills the rest of a block from `len` on, in pieces of any lengths above 0 and
-- interrupted any number of times.
abbrev pub Fills : ℕ → ℕ → List RecvResult → Type 0
Fills len capacity (received n ∷ rs) =
    (0 < n)
    × (((len + n ≡ capacity) × (rs ≡ [])) ⊎ ((len + n < capacity) × Fills (len + n) capacity rs))
Fills len capacity (interrupted ∷ rs) = Fills len capacity rs
Fills len capacity _ = ⊥

-- The system ends before the block is full: it has no more data, or the stream is at its end or
-- fails.
abbrev pub Ends : ℕ → ℕ → List RecvResult → Type 0
Ends len capacity [] = ⊥
Ends len capacity (received n ∷ rs) = (0 < n) × (len + n < capacity) × Ends (len + n) capacity rs
Ends len capacity (interrupted ∷ rs) = Ends len capacity rs
Ends len capacity (_ ∷ rs) = rs ≡ []

-- Whether it is for more than `EWOULDBLOCK`.
abbrev pub closes : List RecvResult → Bool
closes [] = false
closes (end_of_stream ∷ rs) = true
closes (not_received would_block ∷ rs) = not would_block
closes (_ ∷ rs) = closes rs

abbrev pub received_size : List RecvResult → ℕ
received_size [] = 0
received_size (received n ∷ rs) = n + received_size rs
received_size (_ ∷ rs) = received_size rs

-- The fuel that the answers take, over what is left.
abbrev pub answer_fuel : List RecvResult → ℕ → ℕ
answer_fuel [] fuel = fuel
answer_fuel (_ ∷ rs) fuel = suc (answer_fuel rs fuel)

abbrev pub prepend : List Event → Reader × SockSpray × List Event → Reader × SockSpray × List Event
prepend es out = (out.0, out.1, es ++ out.2)

abbrev pub locals : Bool → ReadLocals
locals continue_recv = record { continue_recv = continue_recv; to_shutdown = false }

-- What is done with a block that holds `len` bytes.
abbrev pub block_events : Ptr → ℕ → List Event
block_events p len = if len == 0 then block_release p ∷ [] else handle_data p ∷ block_release p ∷ []

abbrev pub holding : DataBlock → ℕ → DataBlock
holding b len = record b { size = len }

module _ (p : Ptr) (b : DataBlock) (s : SockSpray) where
  pub filling_runs :
      (len fuel : ℕ) (rs : List RecvResult) (bs : List (Ptr × DataBlock)) (rest : List RecvResult)
      (going : Bool)
      → Fills len b.capacity rs
      → run_reader
          (answer_fuel rs fuel)
          (bs, rs ++ rest)
          (receiving (locals going) p (holding b len))
          s
        ≡ prepend
            (handle_data p ∷ block_release p ∷ [])
            (run_reader fuel (bs, rest) (querying (locals true)) s)
  unfolding run_reader next_supply read_step receive process_data DataBlock.set_size
      DataBlock.is_full DataBlock.is_empty
  filling_runs len fuel [] bs rest going c = absurd c
  filling_runs len fuel (interrupted ∷ rs) bs rest going c =
      filling_runs len fuel rs bs rest going c
  filling_runs len fuel (end_of_stream ∷ rs) bs rest going c = absurd c
  filling_runs len fuel (not_received w ∷ rs) bs rest going c = absurd c
  filling_runs len fuel (received n ∷ []) bs rest going (pos, inl (whole, _)) =
      let fits : leb (len + n) b.capacity ≡ true = ground (arith, whole) in
      let full : (len + n == b.capacity) ≡ true = ground (arith, whole) in
      let some_data : (len + n == 0) ≡ false = ground (arith, pos) in
      simp (fits, full, some_data) refl
  filling_runs len fuel (received n ∷ []) bs rest going (pos, inr (part, c)) = absurd c
  filling_runs len fuel (received n ∷ r ∷ rs) bs rest going (pos, inl (whole, no_more)) = cc
  filling_runs len fuel (received n ∷ r ∷ rs) bs rest going (pos, inr (part, c)) =
      let fits : leb (len + n) b.capacity ≡ true = ground (arith, part) in
      let unfilled : (len + n == b.capacity) ≡ false = ground (arith, part) in
      simp (fits, unfilled) (filling_runs (len + n) fuel (r ∷ rs) bs rest going c)

-- The connection when the thread left the receive process, and what it did on leaving.
abbrev pub after_read : Bool → SockSpray → SockSpray
after_read closing s = record s {
  recv = record { ready = false; already = false };
  shut = record (s.shut) { invoke = closing || s.shut.invoke };
}

abbrev pub closing_events : Bool → SockSpray → List Event
closing_events closing s =
    if closing then (if s.shut.invoke then [] else socket_shutdown ∷ []) else []

run_finished :
    (fuel : ℕ) (supply : Supply) (s : SockSpray)
    → run_reader fuel supply finished s ≡ (finished, s, [])
unfolding run_reader next_supply read_step
run_finished zero supply s = refl
run_finished (suc fuel) supply s = run_finished fuel supply s

-- The receive process goes on unless `Shutdown` was called in the meantime.
pub querying_runs :
    (supply : Supply) (fuel : ℕ) (s : SockSpray) (l : ReadLocals)
    → s.shut.query ≡ false
    → run_reader (suc fuel) supply (querying l) s ≡ run_reader fuel supply (again l) s
unfolding run_reader next_supply read_step
querying_runs supply fuel s l unasked = simp unasked refl

-- A thread that is at its end, with these flags of the connection.
abbrev with_flags : SockSpray → Bool → Bool → Reader × SockSpray × List Event
with_flags s invoke already = (
  finished,
  record s {
    recv = record { ready = false; already = false };
    shut = record (s.shut) { invoke = invoke; already = already };
  },
  [],
)

checking_runs :
    (fuel : ℕ) (supply : Supply) (s : SockSpray) (going closing : Bool)
    → s.shut.already ≡ false
    → s.recv.ready ≡ false
    → run_reader
        (suc (suc fuel))
        supply
        (checking (record { continue_recv = going; to_shutdown = closing }))
        s
      ≡ (finished, after_read closing s, closing_events closing s)
unfolding run_reader next_supply read_step shutdown_once
checking_runs fuel supply s going false open_yet unready =
    simp (open_yet, unready, run_finished) (ap (with_flags s s.shut.invoke) open_yet)
checking_runs fuel supply s going true open_yet unready = elim (Bool-cases s.shut.invoke) [
  | inl made ↦
      simp (open_yet, unready, run_finished, made)
        (ap (λ i. with_flags s i s.shut.already) made ∙ ap (with_flags s true) open_yet)
  | inr not_made ↦ simp (open_yet, unready, run_finished, not_made) refl
]

module _ (p : Ptr) (b : DataBlock) (s : SockSpray) (open_yet : s.shut.already ≡ false)
    (unasked : s.shut.query ≡ false) (unready : s.recv.ready ≡ false) where
  abbrev ended : ℕ → Bool → Reader × SockSpray × List Event
  ended len closing =
      prepend (block_events p len) (finished, after_read closing s, closing_events closing s)

  none_more : (len : ℕ) (closing : Bool) → ended len closing ≡ ended (len + 0) closing
  none_more len closing = let total : len ≡ len + 0 = omega arith in ap (λ m. ended m closing) total

  -- Whichever value `continue_recv` has, a thread that shuts down goes on to the checks.
  closing_runs :
      (len fuel : ℕ) (bs : List (Ptr × DataBlock)) (going : Bool)
      → let out =
          process_data (record { continue_recv = going; to_shutdown = true }) p (holding b len) in
        prepend out.1 (run_reader (suc (suc (suc fuel))) (bs, []) out.0 s)
        ≡ prepend (block_events p len) (finished, after_read true s, closing_events true s)
  unfolding run_reader next_supply read_step process_data again DataBlock.is_empty
  closing_runs len fuel bs false =
      ap (prepend (block_events p len))
        (checking_runs (suc fuel) (bs, []) s false true open_yet unready)
  closing_runs len fuel bs true = ap (prepend (block_events p len)) (
      querying_runs (bs, []) (suc (suc fuel)) s
        (record { continue_recv = true; to_shutdown = true }) unasked
      ∙ checking_runs fuel (bs, []) s true true open_yet unready)

  pub last_runs :
      (len fuel : ℕ) (rs : List RecvResult) (bs : List (Ptr × DataBlock)) (going : Bool)
      → Ends len b.capacity rs
      → run_reader
          (answer_fuel rs (suc (suc (suc fuel))))
          (bs, rs)
          (receiving (locals going) p (holding b len))
          s
        ≡ prepend
            (block_events p (len + received_size rs))
            (finished, after_read (closes rs) s, closing_events (closes rs) s)
  unfolding run_reader next_supply read_step receive process_data again DataBlock.set_size
      DataBlock.is_full DataBlock.is_empty
  last_runs len fuel [] bs going c = absurd c
  last_runs len fuel (interrupted ∷ rs) bs going c = last_runs len fuel rs bs going c
  last_runs len fuel (end_of_stream ∷ r ∷ rs) bs going no_more = cc
  last_runs len fuel (not_received w ∷ r ∷ rs) bs going no_more = cc
  last_runs len fuel (end_of_stream ∷ []) bs going c =
      closing_runs len fuel bs going ∙ none_more len true
  last_runs len fuel (not_received false ∷ []) bs going c =
      closing_runs len fuel bs going ∙ none_more len true
  last_runs len fuel (not_received true ∷ []) bs going c =
      ap (prepend (block_events p len))
        (checking_runs (suc fuel) (bs, []) s false false open_yet unready)
      ∙ none_more len false
  last_runs len fuel (received n ∷ rs) bs going (pos, part, c) =
      let fits : leb (len + n) b.capacity ≡ true = ground (arith, part) in
      let unfilled : (len + n == b.capacity) ≡ false = ground (arith, part) in
      let total : len + n + received_size rs ≡ len + (n + received_size rs) = omega arith in
      let ih = last_runs (len + n) fuel rs bs going c in
      simp (fits, unfilled) (ih ∙ ap (λ m. ended m (closes rs)) total)
