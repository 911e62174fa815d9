-- ===== src/Examples/Leaving.antt =====
-- Threads that leave a connection of lne/SockSpray.cpp, at concrete inputs.
use lne.Prelude.{ℕ, ◌<◌, ◌≡◌, refl, true, false, some, [], ◌∷◌, arith}
use lne.Ring.{Ptr}
use lne.SockSpray.{SockSpray, no_send, no_recv, no_shutdown, unbound, handle_shutdown, released}
use lne.SockSpray.Thread.{enter_thread_safe, leave_count, leave_last, mark_shutdown}
use lne.SockSpray.Leave.{
  Threads, Reach, here, later, enters, marks, counts, leaves, inside, counted, gone, alone,
  alone-Reach, leave_last-twice,
}
use lne.SockSpray.Write.{sent, WriteLocals, entering, unlocking, finished, write_step}
use lne.SockSpray.Wakeup.{write_step-left_queued}

-- A bound connection, with `n` threads inside and a writer in the send process.
abbrev bound : ℕ → SockSpray
bound n = record {
  enable_idle_check = true;
  limit_write_cache = 10;
  handler = 50;
  poller = 60;
  skpad = record { family = 2; socket = some 5 };
  thread_count = n;
  send = record (no_send) { already = true };
  send_blocks = record {
    list = record {
      memory_head = [];
      nodes_count = 0;
      nodes_circle = 100;
      nodes_free = 0;
      prev = λ _. 100;
      next = λ _. 100;
      object = λ _. 7;
    };
  };
  recv = no_recv;
  shut = no_shutdown;
}

abbrev entered : Threads
entered = record { spray = enter_thread_safe (bound 0); threads = inside ∷ []; releases = 0 }

abbrev marked : Threads
marked = record entered { spray = mark_shutdown entered.spray }

abbrev left : Threads
left = record { spray = (leave_count marked.spray).0; threads = counted true ∷ []; releases = 0 }

abbrev done : Threads
done = record left { threads = gone ∷ []; releases = 1 }

one_thread : Reach (alone (bound 0)) done
unfolding alone enter_thread_safe mark_shutdown leave_count leave_last
one_thread =
    later
      (later (later (later here (enters (omega arith) refl)) (marks [] [] refl refl))
        (counts [] [] refl refl))
      (leaves [] true [] (unbound ∷ handle_shutdown ∷ released ∷ []) refl refl refl)

done-marked : done.spray.shut.already ≡ true
unfolding enter_thread_safe mark_shutdown leave_count
done-marked = refl

alone-Reach_example : 0 < done.releases
alone-Reach_example = alone-Reach (bound 0) done refl refl one_thread done-marked refl refl

leave_last-twice_example :
    let first = leave_count (bound 1) in
    let second = leave_count (mark_shutdown (enter_thread_safe first.0)) in
    (leave_last first.1 second.0 ≡ some (unbound ∷ handle_shutdown ∷ released ∷ []))
    × (leave_last second.1 second.0 ≡ some (unbound ∷ handle_shutdown ∷ released ∷ []))
leave_last-twice_example = leave_last-twice (bound 1) refl (omega arith) (omega arith)

abbrev found_empty : WriteLocals
found_empty = record { continue_send = false; to_shutdown = false; block_empty = true }

abbrev size : Ptr → ℕ
size _ = 50

write_step-left_queued_example :
    let first = write_step size (sent 1) entering (bound 2) in
    let second = write_step size (sent 1) first.0 first.1 in
    let last = write_step size (sent 1) (unlocking found_empty) second.1 in
    (second.0 ≡ finished)
    × (last.0 ≡ finished)
    × (last.1.send_blocks ≡ (bound 2).send_blocks)
    × (last.1.send.already ≡ false)
    × (last.1.send.ready ≡ true)
write_step-left_queued_example =
    write_step-left_queued size (sent 1) found_empty (bound 2) refl refl refl
