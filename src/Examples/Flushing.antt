-- ===== src/Examples/Flushing.antt =====
-- A connection with two blocks to send, which is asked to shut down.
use lne.Prelude.{ℕ, ◌≡◌, refl, true, false, some, List, [], ◌∷◌, ◌++◌, arith, inl, inr}
use lne.SockSpray.{SockSpray, new_sock_spray}
use lne.SockSpray.Write.{SendResult, sent, interrupted}
use lne.SockSpray.Flush.{handle_write, AllCovered, joined, queue_events, flushed}
use lne.SockSpray.Flush.Whole.{enough, IsFlushed, handle_write-flushed}
use lne.Examples.Lists.{two_queue, two_queue-Holds}

abbrev waiting : SockSpray
unfolding new_sock_spray
waiting = record (new_sock_spray 10 two_queue) {
  shut = record { query = true; invoke = false; already = false };
}

abbrev ten : ℕ → ℕ
ten _ = 10

-- The first block goes out in two pieces with an interruption between them, the second one whole.
abbrev answers : List (List SendResult)
answers = (sent 4 ∷ interrupted ∷ sent 6 ∷ []) ∷ (sent 10 ∷ []) ∷ []

answers_cover : AllCovered ten (7 ∷ 8 ∷ []) answers
answers_cover = (
  (λ e. absurd (omega (arith, e))),
  omega arith,
  (omega arith, inr (omega arith, (omega arith, inl (refl, refl)))),
  ((λ e. absurd (omega (arith, e))), omega arith, (omega arith, inl (refl, refl)), tt),
)

handle_write-flushed_example :
    (s' : SockSpray) × (handle_write (enough answers 0) ten (joined answers) waiting
      ≡ some (s', queue_events (7 ∷ 8 ∷ []) answers ++ flushed waiting))
    × IsFlushed waiting s'
unfolding new_sock_spray
handle_write-flushed_example =
    handle_write-flushed ten waiting (7 ∷ 8 ∷ []) answers 0 false two_queue-Holds refl refl
      (omega arith) answers_cover
