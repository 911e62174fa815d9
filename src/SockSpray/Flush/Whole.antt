-- ===== src/SockSpray/Flush/Whole.antt =====
-- lne/SockSpray.cpp: what a whole `HandleWrite` sends.
use lne.Prelude.{
  ℕ, suc, ◌+◌, ◌%◌, ◌<◌, ◌≡◌, refl, sym, ap, subst, ltb, ◌==◌, ◌-◌, ◌∙◌, Bool, true, false, some,
  List, [], ◌∷◌, ◌++◌, ◌||◌, arith,
}
use mathlib.Core.List.{append-nil}
use lne.Ring.{Ptr, null}
use lne.ExtendObject.{u32_mod}
use lne.ObjectQueue.{Holds}
use lne.ObjectQueue
use lne.Config.{lnerr_ok}
use lne.SockSpray.{SockSpray, Event, block_add_ref}
use lne.SockSpray.Write.{
  SendResult, entering, extracting, finished, write_step, send_allowed, send_append,
}
use lne.SockSpray.Thread.{enter_thread_safe, leave_count, leave_last}
use lne.SockSpray.Flush.{
  next_answer, run_writer, handle_write, send, leave_thread_safe, answered, AllCovered, joined,
  queue_events, queue_fuel, queue_runs, last_steps, flushed, at, locals,
}

-- The connection when the thread has the send process to itself.
abbrev claimed : SockSpray → SockSpray
claimed s = record s {
  send = record { ready = false; already = true; cache_buf = null; cache_len = 0 };
}

first_steps :
    (size : Ptr → ℕ) (fuel : ℕ) (rs : List SendResult) (s : SockSpray) (ready : Bool)
    → s.shut.already ≡ false
    → s.send ≡ record { ready = ready; already = false; cache_buf = null; cache_len = 0 }
    → run_writer (suc (suc fuel)) size rs entering s
      ≡ run_writer fuel size rs (extracting (locals false)) (at null 0 s.send_blocks (claimed s))
unfolding run_writer next_answer write_step
first_steps size fuel rs s ready open_yet idle = simp (open_yet, idle) refl

-- The fuel for a queue of which the system takes each block.
abbrev pub enough : List (List SendResult) → ℕ → ℕ
enough answers fuel = suc (suc (queue_fuel answers (suc (suc (suc fuel)))))

-- A connection after its queue was sent.
abbrev pub IsFlushed : SockSpray → SockSpray → Type 0
IsFlushed s s' =
    Holds s'.send_blocks []
    × (s'.send ≡ record { ready = true; already = false; cache_buf = null; cache_len = 0 })
    × (s'.shut ≡ record (s.shut) { invoke = s.shut.invoke || s.shut.query })
    × (s'.thread_count ≡ s.thread_count)

pub run_writer-flushed :
    (size : Ptr → ℕ) (s : SockSpray) (blocks : List Ptr) (answers : List (List SendResult))
    (fuel : ℕ) (ready : Bool)
    → Holds s.send_blocks blocks
    → s.send ≡ record { ready = ready; already = false; cache_buf = null; cache_len = 0 }
    → s.shut.already ≡ false
    → AllCovered size blocks answers
    → (s' : SockSpray) × (run_writer (enough answers fuel) size (joined answers) entering s
        ≡ (finished, s', queue_events blocks answers ++ flushed s))
      × IsFlushed s s'
run_writer-flushed size s blocks answers fuel ready held idle open_yet covered =
    let rounds = queue_fuel answers (suc (suc (suc fuel))) in
    let (q, going, empty, sends) =
      queue_runs size (claimed s) blocks answers s.send_blocks (suc (suc (suc fuel))) false held
        covered in
    let last = last_steps size fuel q (claimed s) going open_yet empty in
    let out =
      run_writer (suc (suc (suc fuel))) size [] (extracting (locals going))
        (at null 0 q (claimed s)) in
    (
      out.1,
      first_steps size rounds (joined answers) s ready open_yet idle
          ∙ sends
          ∙ ap (λ w. (w, out.1, queue_events blocks answers ++ out.2)) last.0
          ∙ ap (λ es. (finished, out.1, queue_events blocks answers ++ es)) last.5,
      (subst (λ b. Holds b []) (sym last.2) empty, last.1, last.4, last.3),
    )

-- A thread that leaves a connection that is not shut does nothing more.
leaves_silent :
    (last_thread : Bool) (s : SockSpray)
    → s.shut.already ≡ false
    → leave_last last_thread s ≡ some []
unfolding leave_last
leaves_silent false s open_yet = refl
leaves_silent true s open_yet = simp open_yet refl

counted_out :
    (s : SockSpray) (n : ℕ)
    → s.thread_count ≡ (n + 1) % u32_mod
    → n + 1 < u32_mod
    → leave_count s ≡ (record s { thread_count = n }, n == 0)
unfolding leave_count
counted_out s n threads small =
    let value : (s.thread_count + (u32_mod - 1)) % u32_mod ≡ n = omega (arith, threads, small) in
    ap (λ m. (record s { thread_count = m }, m == 0)) value

pub leaving :
    {A : Type 0}
    → (out : A × SockSpray × List Event) (n : ℕ) → out.1.shut.already ≡ false
    → out.1.thread_count ≡ (n + 1) % u32_mod
    → n + 1 < u32_mod
    → leave_thread_safe out ≡ some (record (out.1) { thread_count = n }, out.2)
unfolding leave_thread_safe
leaving out n open_yet threads small =
    let left : SockSpray = record (out.1) { thread_count = n } in
    ap (λ c. answered c.0 out.2 (leave_last c.1 c.0)) (counted_out out.1 n threads small)
    ∙ ap (answered left out.2) (leaves_silent (n == 0) left open_yet)
    ∙ ap (λ es. some (left, es)) (append-nil out.2)

-- A thread alone in the send process of a connection that is not shut sends every block of the queue,
-- if the system takes them, in pieces of any lengths and interrupted any number of times: the bytes
-- of each block go out in order and the blocks in the order of the queue, each is given back once,
-- and `shutdown` is called behind them if it was asked for and not yet made. It ends, with fuel for
-- each answer and block and five steps more, with the queue empty, nobody in the send process and as
-- many threads inside as before.
pub handle_write-flushed :
    (size : Ptr → ℕ) (s : SockSpray) (blocks : List Ptr) (answers : List (List SendResult))
    (fuel : ℕ) (ready : Bool)
    → Holds s.send_blocks blocks
    → s.send ≡ record { ready = ready; already = false; cache_buf = null; cache_len = 0 }
    → s.shut.already ≡ false
    → s.thread_count + 1 < u32_mod
    → AllCovered size blocks answers
    → (s' : SockSpray) × (handle_write (enough answers fuel) size (joined answers) s
        ≡ some (s', queue_events blocks answers ++ flushed s))
      × IsFlushed s s'
unfolding handle_write enter_thread_safe
handle_write-flushed size s blocks answers fuel ready held idle open_yet small covered =
    let (after, whole, (empty, send, shut, threads)) =
      run_writer-flushed size (enter_thread_safe s) blocks answers fuel ready held idle open_yet
        covered in
    let left : SockSpray = record after { thread_count = s.thread_count } in
    let events = queue_events blocks answers ++ flushed s in
    (
      left,
      ap leave_thread_safe whole
          ∙ leaving (finished, after, events) s.thread_count (ap (λ x. x.already) shut ∙ open_yet)
              threads small,
      (empty, send, shut, refl),
    )

pub allowed_lem :
    (s : SockSpray) → send_allowed s ≡ true → (s.shut.already ≡ false) × (s.shut.query ≡ false)
unfolding send_allowed
allowed_lem s h = (ground (arith, h), ground (arith, h))

-- `Send` on such a connection, if the queue takes the block and stays within the limit: the block
-- goes out behind those of the queue, and holds one reference until then.
pub send-IsFlushed :
    (size : Ptr → ℕ) (s : SockSpray) (blocks : List Ptr) (answers : List (List SendResult))
    (fuel : ℕ) (ready : Bool) (cache_nodes : ℕ) (memory block : Ptr)
    → Holds (ObjectQueue.append cache_nodes memory block s.send_blocks).0 (blocks ++ block ∷ [])
    → (ObjectQueue.append cache_nodes memory block s.send_blocks).1 ≡ lnerr_ok
    → ltb s.limit_write_cache
        (ObjectQueue.count (ObjectQueue.append cache_nodes memory block s.send_blocks).0)
      ≡ false
    → s.send ≡ record { ready = ready; already = false; cache_buf = null; cache_len = 0 }
    → send_allowed s ≡ true
    → AllCovered size (blocks ++ block ∷ []) answers
    → (s' : SockSpray) × (send
          (enough answers fuel)
          cache_nodes
          memory
          size
          (joined answers)
          block
          s
        ≡ (s', block_add_ref block ∷ queue_events (blocks ++ block ∷ []) answers))
      × IsFlushed s s'
unfolding send
send-IsFlushed size s blocks answers fuel ready cache_nodes memory block held done within idle
      allowed covered =
    let appended : SockSpray = record s {
      send_blocks = (ObjectQueue.append cache_nodes memory block s.send_blocks).0;
    } in
    let (open_yet, unasked) = allowed_lem s allowed in
    let (after, whole, flush) =
      run_writer-flushed size appended (blocks ++ block ∷ []) answers fuel ready held idle open_yet
        covered in
    let queued : send_append cache_nodes memory block s
        ≡ (appended, true, block_add_ref block ∷ []) =
      unfold send_append in simp (done, within) refl in
    (after, simp (allowed, queued, whole, unasked, append-nil) refl, flush)
