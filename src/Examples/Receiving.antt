-- ===== src/Examples/Receiving.antt =====
-- A connection that receives into blocks of ten bytes, and then finds its stream at the end.
use lne.Prelude.{◌≡◌, refl, some, List, [], ◌∷◌, ◌++◌, arith, inl, inr}
use lne.Ring.{Ptr}
use lne.DataBlock.{DataBlock}
use lne.SockSpray.{SockSpray, new_sock_spray, handle_data, block_release, socket_shutdown}
use lne.SockSpray.Read.{RecvResult, received, interrupted, end_of_stream}
use lne.SockSpray.Receive.{
  handle_read, Ends, received_size, block_events, after_read, closes, closing_events,
}
use lne.SockSpray.Receive.Whole.{AllFilled, joined, filled_events, enough, handle_read-received}
use lne.Examples.Lists.{two_queue}

abbrev connection : SockSpray
unfolding new_sock_spray
connection = new_sock_spray 10 two_queue

abbrev fresh : DataBlock
fresh = record { reference = 1; size = 0; buffer = 50; capacity = 10; pool = 3 }

abbrev blocks : List (Ptr × DataBlock)
blocks = (7, fresh) ∷ (8, fresh) ∷ []

-- The first block fills up in two pieces with an interruption between them, the second one at once.
abbrev answers : List (List RecvResult)
answers = (received 4 ∷ interrupted ∷ received 6 ∷ []) ∷ (received 10 ∷ []) ∷ []

abbrev last_answers : List RecvResult
last_answers = received 3 ∷ end_of_stream ∷ []

blocks_fill : AllFilled blocks answers
blocks_fill = (
  (λ e. absurd (omega (arith, e))),
  refl,
  (omega arith, inr (omega arith, (omega arith, inl (refl, refl)))),
  ((λ e. absurd (omega (arith, e))), refl, (omega arith, inl (refl, refl)), tt),
)

last-Ends : Ends 0 10 last_answers
last-Ends = (omega arith, omega arith, refl)

handle_read-received_example :
    handle_read
      (enough answers last_answers 0)
      (blocks ++ (9, fresh) ∷ [], joined answers last_answers)
      connection
    ≡ some (
      after_read (closes last_answers) connection,
      (filled_events blocks ++ block_events 9 (received_size last_answers))
          ++ closing_events (closes last_answers) connection,
    )
unfolding new_sock_spray
handle_read-received_example =
    handle_read-received connection blocks answers 9 fresh last_answers [] 0 refl refl refl
      (omega arith) blocks_fill (λ e. absurd (omega (arith, e))) refl last-Ends

-- In plain words: three blocks to the handler, and the call of `shutdown`.
events_example :
    (filled_events blocks ++ block_events 9 (received_size last_answers))
      ++ closing_events (closes last_answers) connection
    ≡ handle_data 7
      ∷ block_release 7
      ∷ handle_data 8
      ∷ block_release 8
      ∷ handle_data 9
      ∷ block_release 9
      ∷ socket_shutdown
      ∷ []
unfolding new_sock_spray
events_example = refl
