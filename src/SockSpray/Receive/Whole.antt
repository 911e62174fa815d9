-- ===== src/SockSpray/Receive/Whole.antt =====
-- lne/SockSpray.cpp: what a whole `HandleRead` passes on.
use lne.Prelude.{
  ℕ, suc, ◌+◌, ◌<◌, ◌≡◌, ◌≢◌, refl, ap, ◌∙◌, Bool, true, false, some, List, [], ◌∷◌, ◌++◌, arith,
  ==_of_ne,
}
use lne.Ring.{Ptr, null}
use lne.ExtendObject.{u32_mod}
use lne.DataBlock.{DataBlock}
use lne.SockSpray.{SockSpray, Event, block_release, handle_data}
use lne.SockSpray.Read.{RecvResult, entering, finished, allocating, receiving, read_step, again}
use lne.SockSpray.Thread.{enter_thread_safe}
use lne.SockSpray.Flush.{leave_thread_safe}
use lne.SockSpray.Flush.Whole.{leaving}
use lne.SockSpray.Receive.{
  Supply, next_supply, run_reader, handle_read, Fills, Ends, closes, after_read, closing_events,
  received_size, answer_fuel, prepend, locals, block_events, holding, filling_runs, last_runs,
  querying_runs,
}

-- The system fills every one of these blocks, which are empty when the pool gives them.
abbrev pub AllFilled : List (Ptr × DataBlock) → List (List RecvResult) → Type 0
AllFilled [] [] = Unit {0}
AllFilled ((p, b) ∷ bs) (rs ∷ rss) =
    (p ≢ null) × (b.size ≡ 0) × Fills 0 b.capacity rs × AllFilled bs rss
AllFilled _ _ = ⊥

abbrev pub joined : List (List RecvResult) → List RecvResult → List RecvResult
joined [] last = last
joined (rs ∷ rss) last = rs ++ joined rss last

abbrev pub filled_events : List (Ptr × DataBlock) → List Event
filled_events [] = []
filled_events ((p, b) ∷ bs) = handle_data p ∷ block_release p ∷ filled_events bs

abbrev pub read_fuel : List (List RecvResult) → List RecvResult → ℕ → ℕ
read_fuel [] last fuel = suc (answer_fuel last fuel)
read_fuel (rs ∷ rss) last fuel = suc (answer_fuel rs (suc (read_fuel rss last fuel)))

-- A block from the pool, up to where it is received into.
allocating_lem :
    (p : Ptr) (b : DataBlock) (bs : List (Ptr × DataBlock)) (rs : List RecvResult) (fuel : ℕ)
    (s : SockSpray) (going : Bool)
    → p ≢ null
    → b.size ≡ 0
    → run_reader (suc fuel) ((p, b) ∷ bs, rs) (allocating (locals going)) s
      ≡ run_reader fuel (bs, rs) (receiving (locals going) p (holding b 0)) s
unfolding run_reader next_supply read_step
allocating_lem p b bs rs fuel s going ne empty =
    simp (==_of_ne p null ne)
      (ap (λ n. run_reader fuel (bs, rs) (receiving (locals going) p (holding b n)) s) empty)

module _ (s : SockSpray) (unasked : s.shut.query ≡ false) (p : Ptr) (b : DataBlock)
    (more : List (Ptr × DataBlock)) (last : List RecvResult) (ne : p ≢ null) (empty : b.size ≡ 0)
    (ends : Ends 0 b.capacity last) (open_yet : s.shut.already ≡ false)
    (unready : s.recv.ready ≡ false) where
  -- The blocks that are filled and the one behind them.
  blocks_run :
      (bs : List (Ptr × DataBlock)) (rss : List (List RecvResult)) (fuel : ℕ) (going : Bool)
      → AllFilled bs rss
      → run_reader
          (read_fuel rss last (suc (suc (suc fuel))))
          (bs ++ (p, b) ∷ more, joined rss last)
          (allocating (locals going))
          s
        ≡ prepend
            (filled_events bs ++ block_events p (received_size last))
            (finished, after_read (closes last) s, closing_events (closes last) s)
  unfolding again
  blocks_run [] [] fuel going c =
      let size : 0 + received_size last ≡ received_size last = omega arith in
      allocating_lem p b more last (answer_fuel last (suc (suc (suc fuel)))) s going ne empty
      ∙ last_runs p b s open_yet unasked unready 0 fuel last more going ends
      ∙ ap
          (λ n.
            prepend (block_events p n)
              (finished, after_read (closes last) s, closing_events (closes last) s))
          size
  blocks_run [] (rs ∷ rss) fuel going c = absurd c
  blocks_run (x ∷ bs) [] fuel going c = absurd c
  blocks_run ((q, d) ∷ bs) (rs ∷ rss) fuel going (some_block, fresh, fills, c) =
      let rest = read_fuel rss last (suc (suc (suc fuel))) in
      let supply : Supply = (bs ++ (p, b) ∷ more, joined rss last) in
      allocating_lem q d (bs ++ (p, b) ∷ more) (joined (rs ∷ rss) last) (answer_fuel rs (suc rest))
        s going some_block fresh
      ∙ filling_runs q d s 0 (suc rest) rs (bs ++ (p, b) ∷ more) (joined rss last) going fills
      ∙ ap (prepend (handle_data q ∷ block_release q ∷ []))
          (querying_runs supply rest s (locals true) unasked ∙ blocks_run bs rss fuel true c)

-- The connection when the thread has the receive process to itself.
abbrev claimed : SockSpray → SockSpray
claimed s = record s { recv = record { ready = false; already = true } }

first_steps :
    (supply : Supply) (fuel : ℕ) (s : SockSpray)
    → s.shut.already ≡ false
    → s.shut.query ≡ false
    → s.recv.already ≡ false
    → run_reader (suc (suc fuel)) supply entering s
      ≡ run_reader fuel supply (allocating (locals false)) (claimed s)
unfolding run_reader next_supply read_step
first_steps supply fuel s open_yet unasked idle = simp (open_yet, unasked, idle) refl

-- The fuel for blocks that the system fills and one that it does not.
abbrev pub enough : List (List RecvResult) → List RecvResult → ℕ → ℕ
enough answers last fuel = suc (suc (read_fuel answers last (suc (suc (suc fuel)))))

-- A thread alone in the receive process of a connection that is not asked to shut down receives until
-- the system has no more data or the stream is at its end or fails, in pieces of any lengths and
-- interrupted any number of times: it passes each block that it filled to the handler, in order, and
-- the last one if there is something in it, and gives each of them back once, the last one too if it
-- stayed empty. If the stream is at its end or fails, `shutdown` is called behind that, unless it was
-- already. It ends, with fuel for each answer, two steps for each block that is filled and six more,
-- with nobody in the receive process and all else as before.
pub handle_read-received :
    (s : SockSpray) (blocks : List (Ptr × DataBlock)) (answers : List (List RecvResult)) (p : Ptr)
    (b : DataBlock) (last : List RecvResult) (more : List (Ptr × DataBlock)) (fuel : ℕ)
    → s.shut.already ≡ false
    → s.shut.query ≡ false
    → s.recv.already ≡ false
    → s.thread_count + 1 < u32_mod
    → AllFilled blocks answers
    → p ≢ null
    → b.size ≡ 0
    → Ends 0 b.capacity last
    → handle_read (enough answers last fuel) (blocks ++ (p, b) ∷ more, joined answers last) s
      ≡ some (
        after_read (closes last) s,
        (filled_events blocks ++ block_events p (received_size last))
            ++ closing_events (closes last) s,
      )
unfolding handle_read enter_thread_safe
handle_read-received s blocks answers p b last more fuel open_yet unasked idle small filled ne empty
      ends =
    let entered : SockSpray = enter_thread_safe s in
    let events =
      (filled_events blocks ++ block_events p (received_size last))
      ++ closing_events (closes last) s in
    let supply : Supply = (blocks ++ (p, b) ∷ more, joined answers last) in
    let whole =
      first_steps supply (read_fuel answers last (suc (suc (suc fuel)))) entered open_yet unasked
        idle
      ∙ blocks_run (claimed entered) unasked p b more last ne empty ends open_yet refl blocks
          answers fuel false filled in
    ap leave_thread_safe whole
    ∙ leaving (finished, after_read (closes last) entered, events) s.thread_count open_yet refl
        small
