-- ===== src/SockSpray/Flush.antt =====
-- lne/SockSpray.cpp: `HandleWrite` from its beginning to its end on a thread that is alone in it.
pub mod Whole
pub mod Several
use lne.Prelude.{
  ℕ, zero, suc, ◌+◌, ◌-◌, ◌%◌, ◌<◌, ◌==◌, ◌≡◌, ◌≢◌, ◌⊎◌, inl, inr, refl, sym, ap, ◌∙◌, Bool, true,
  false, Option, none, some, List, [], ◌∷◌, ◌++◌, ◌||◌, Bool-cases, if◌then◌else◌, arith, ==_of_ne,
  ==_self,
}
use mathlib.Core.List.{append_assoc}
use lne.Ring.{Ptr, null}
use lne.ExtendObject.{u32_mod}
use lne.ObjectQueue
use lne.ObjectQueue.{ObjectQueue, Holds, extract-Holds, extract-empty}
use lne.SockSpray.{SockSpray, Event, sent_bytes, block_release, socket_shutdown, shutdown_once}
use lne.SockSpray.Write.{
  SendResult, sent, interrupted, not_sent, WriteLocals, Writer, entering, claiming, finished,
  extracting, transmitting, checking, unlocking, again, extract_block, transmit, write_step,
  send_allowed, send_append, send_append_all,
}
use lne.SockSpray.Thread.{enter_thread_safe, leave_count, leave_last}

-- The thread takes an answer of the system where it calls `send`; where they end, the socket is full.
unfoldable pub next_answer : Writer → List SendResult → SendResult × List SendResult
next_answer (transmitting l) (r ∷ rs) = (r, rs)
next_answer w rs = (not_sent true, rs)

-- `__HandleWrite`, on fuel for its loops.
unfoldable pub run_writer :
    ℕ → (Ptr → ℕ) → List SendResult → Writer → SockSpray → Writer × SockSpray × List Event
run_writer zero size rs w s = (w, s, [])
run_writer (suc fuel) size rs w s =
    let a = next_answer w rs in
    let out = write_step size a.0 w s in
    let rest = run_writer fuel size a.1 out.0 out.1 in (rest.0, rest.1, out.2 ++ rest.2)

-- `LeaveThreadSafe` behind it. `none` is a call through a null handler or poller.
unfoldable pub answered :
    SockSpray → List Event → Option (List Event) → Option (SockSpray × List Event)
answered s before none = none
answered s before (some es) = some (s, before ++ es)

unfoldable pub leave_thread_safe :
    {A : Type 0} → A × SockSpray × List Event → Option (SockSpray × List Event)
unfolding answered
leave_thread_safe out = let c = leave_count out.1 in answered c.0 out.2 (leave_last c.1 c.0)

unfoldable pub handle_write :
    ℕ → (Ptr → ℕ) → List SendResult → SockSpray → Option (SockSpray × List Event)
unfolding leave_thread_safe
handle_write fuel size rs s =
    leave_thread_safe (run_writer fuel size rs entering (enter_thread_safe s))

-- `Send` of one block, with the memory that `malloc` answers for it.
unfoldable pub send :
    ℕ → ℕ → Ptr → (Ptr → ℕ) → List SendResult → Ptr → SockSpray → SockSpray × List Event
send fuel cache_nodes memory size rs block s =
    let appended = send_append cache_nodes memory block s in
    let out = run_writer fuel size rs entering appended.0 in
    if send_allowed s
    then (if appended.1 then (out.1, appended.2 ++ out.2) else (appended.0, appended.2))
    else (s, [])

-- `Send` of several blocks, each with the memory for it.
unfoldable pub send_all :
    ℕ → ℕ → (Ptr → ℕ) → List SendResult → List (Ptr × Ptr) → SockSpray → SockSpray × List Event
send_all fuel cache_nodes size rs blocks s =
    let appended = send_append_all cache_nodes blocks s in
    let out = run_writer fuel size rs entering appended.0 in
    if send_allowed s
    then (if appended.1 then (out.1, appended.2 ++ out.2) else (appended.0, appended.2))
    else (s, [])

-- The system takes the rest of a block of `total` bytes from `len` on, in pieces of any lengths above
-- 0 and interrupted any number of times.
abbrev pub Covers : ℕ → ℕ → List SendResult → Type 0
Covers len total [] = ⊥
Covers len total (interrupted ∷ rs) = Covers len total rs
Covers len total (not_sent would_block ∷ rs) = ⊥
Covers len total (sent n ∷ rs) =
    (0 < n) × (((len + n ≡ total) × (rs ≡ [])) ⊎ ((len + n < total) × Covers (len + n) total rs))

-- The bytes of a block go out in order, and then it is given back.
abbrev pub block_events : Ptr → ℕ → List SendResult → List Event
block_events b len [] = block_release b ∷ []
block_events b len (sent n ∷ rs) = sent_bytes b len n ∷ block_events b (len + n) rs
block_events b len (_ ∷ rs) = block_events b len rs

-- The fuel that the answers take, over what is left.
abbrev pub block_fuel : List SendResult → ℕ → ℕ
block_fuel [] fuel = fuel
block_fuel (sent n ∷ []) fuel = suc fuel
block_fuel (sent n ∷ r ∷ rs) fuel = suc (suc (block_fuel (r ∷ rs) fuel))
block_fuel (interrupted ∷ rs) fuel = suc (block_fuel rs fuel)
block_fuel (not_sent would_block ∷ rs) fuel = suc (block_fuel rs fuel)

abbrev pub at : Ptr → ℕ → ObjectQueue Ptr → SockSpray → SockSpray
at b len q s = record s {
  send_blocks = q;
  send = record (s.send) { cache_buf = b; cache_len = len };
}

abbrev pub prepend : List Event → Writer × SockSpray × List Event → Writer × SockSpray × List Event
prepend es out = (out.0, out.1, es ++ out.2)

abbrev pub locals : Bool → WriteLocals
locals continue_send = record {
  continue_send = continue_send;
  to_shutdown = false;
  block_empty = false;
}

module _ (size : Ptr → ℕ) (b : Ptr) (q : ObjectQueue Ptr) (s : SockSpray) (ne : b ≢ null)
    (small : size b < u32_mod) where
  -- One block, up to where the next one is extracted.
  block_runs :
      (len fuel : ℕ) (rs rest : List SendResult) (going : Bool)
      → Covers len (size b) rs
      → run_writer
          (block_fuel rs fuel)
          size
          (rs ++ rest)
          (transmitting (locals going))
          (at b len q s)
        ≡ prepend
            (block_events b len rs)
            (run_writer fuel size rest (extracting (locals true)) (at null 0 q s))
  unfolding run_writer next_answer write_step transmit again
  block_runs len fuel [] rest going c = absurd c
  block_runs len fuel (interrupted ∷ rs) rest going c = block_runs len fuel rs rest going c
  block_runs len fuel (not_sent w ∷ rs) rest going c = absurd c
  block_runs len fuel (sent n ∷ []) rest going (pos, inl (whole, _)) =
      let value : (len + n) % u32_mod ≡ size b = omega (arith, whole, small) in
      simp (value, ==_self (size b)) refl
  block_runs len fuel (sent n ∷ []) rest going (pos, inr (part, c)) = absurd c
  block_runs len fuel (sent n ∷ r ∷ rs) rest going (pos, inl (whole, no_more)) = cc
  block_runs len fuel (sent n ∷ r ∷ rs) rest going (pos, inr (part, c)) =
      let value : (len + n) % u32_mod ≡ len + n = omega (arith, part, small) in
      let unfinished : (len + n == size b) ≡ false = ground (arith, part) in
      let ih = block_runs (len + n) fuel (r ∷ rs) rest true c in
      simp (value, unfinished, ==_of_ne b null ne) (ap (prepend (sent_bytes b len n ∷ [])) ih)

-- The system takes every block.
abbrev pub AllCovered : (Ptr → ℕ) → List Ptr → List (List SendResult) → Type 0
AllCovered size [] [] = Unit {0}
AllCovered size (b ∷ bs) (rs ∷ rss) =
    (b ≢ null) × (size b < u32_mod) × Covers 0 (size b) rs × AllCovered size bs rss
AllCovered size _ _ = ⊥

abbrev pub joined : List (List SendResult) → List SendResult
joined [] = []
joined (rs ∷ rss) = rs ++ joined rss

abbrev pub queue_events : List Ptr → List (List SendResult) → List Event
queue_events (b ∷ bs) (rs ∷ rss) = block_events b 0 rs ++ queue_events bs rss
queue_events _ _ = []

abbrev pub queue_fuel : List (List SendResult) → ℕ → ℕ
queue_fuel [] fuel = fuel
queue_fuel (rs ∷ rss) fuel = suc (block_fuel rs (queue_fuel rss fuel))

extract_block-Holds :
    (b : Ptr) (bs : List Ptr) (q : ObjectQueue Ptr) (s : SockSpray) (going : Bool)
    → b ≢ null
    → Holds q (b ∷ bs)
    → extract_block (locals going) (at null 0 q s)
      ≡ (transmitting (locals going), at b 0 (ObjectQueue.extract null q).0 s)
unfolding extract_block
extract_block-Holds b bs q s going ne h =
    let out = extract-Holds null b q bs h in simp (out.2, out.1, ==_of_ne b null ne) refl

prepend-prepend :
    (xs ys : List Event) (out : Writer × SockSpray × List Event)
    → prepend xs (prepend ys out) ≡ prepend (xs ++ ys) out
prepend-prepend xs ys out = ap (λ es. (out.0, out.1, es)) (sym (append_assoc xs ys out.2))

module _ (size : Ptr → ℕ) (s : SockSpray) where
  -- The queue, up to where it is found empty.
  pub queue_runs :
      (bs : List Ptr) (rss : List (List SendResult)) (q : ObjectQueue Ptr) (fuel : ℕ) (going : Bool)
      → Holds q bs
      → AllCovered size bs rss
      → (q' : ObjectQueue Ptr) × (going' : Bool) × Holds q' []
        × (run_writer
              (queue_fuel rss fuel)
              size
              (joined rss)
              (extracting (locals going))
              (at null 0 q s)
            ≡ prepend
                (queue_events bs rss)
                (run_writer fuel size [] (extracting (locals going')) (at null 0 q' s)))
  unfolding run_writer next_answer write_step
  queue_runs [] [] q fuel going h c = (q, going, h, refl)
  queue_runs [] (rs ∷ rss) q fuel going h c = absurd c
  queue_runs (b ∷ bs) [] q fuel going h c = absurd c
  queue_runs (b ∷ bs) (rs ∷ rss) q fuel going h (ne, small, covered, c) =
      let out = extract-Holds null b q bs h in
      let q1 = (ObjectQueue.extract null q).0 in
      let this =
        block_runs size b q1 s ne small 0 (queue_fuel rss fuel) rs (joined rss) going covered in
      let (q', going', h', ih) = queue_runs bs rss q1 fuel true out.0 c in
      (
        q',
        going',
        h',
        simp (extract_block-Holds b bs q s going ne h) (
            this
            ∙ ap (prepend (block_events b 0 rs)) ih
            ∙ prepend-prepend (block_events b 0 rs) (queue_events bs rss)
                (run_writer fuel size [] (extracting (locals going')) (at null 0 q' s))),
      )

-- What `Shutdown` left to the writer: the call of `shutdown`, if it was asked for and not yet made.
abbrev pub flushed : SockSpray → List Event
flushed s = if s.shut.query then (if s.shut.invoke then [] else socket_shutdown ∷ []) else []

run_finished :
    (size : Ptr → ℕ) (fuel : ℕ) (s : SockSpray)
    → run_writer fuel size [] finished s ≡ (finished, s, [])
unfolding run_writer next_answer write_step
run_finished size zero s = refl
run_finished size (suc fuel) s = run_finished size fuel s

pub last_steps :
    (size : Ptr → ℕ) (fuel : ℕ) (q : ObjectQueue Ptr) (s : SockSpray) (going : Bool)
    → s.shut.already ≡ false
    → Holds q []
    → let out =
        run_writer (suc (suc (suc fuel))) size [] (extracting (locals going)) (at null 0 q s) in
      (out.0 ≡ finished)
      × (out.1.send ≡ record { ready = true; already = false; cache_buf = null; cache_len = 0 })
      × (out.1.send_blocks ≡ q)
      × (out.1.thread_count ≡ s.thread_count)
      × (out.1.shut ≡ record (s.shut) { invoke = s.shut.invoke || s.shut.query })
      × (out.2 ≡ flushed s)
unfolding run_writer next_answer write_step extract_block again shutdown_once
last_steps size fuel q s going open_yet h =
    let empty = extract-empty null q h in
    elim (Bool-cases s.shut.query) [
      | inr unasked ↦
          simp (empty, open_yet, unasked, run_finished)
            (refl, refl, refl, refl, ground (arith, open_yet, unasked), refl)
      | inl asked ↦ (elim (Bool-cases s.shut.invoke) [
        | inl made ↦
            simp (empty, open_yet, asked, made, run_finished)
              (refl, refl, refl, refl, ground (arith, open_yet, asked, made), refl)
        | inr not_made ↦
            simp (empty, open_yet, asked, not_made, run_finished)
              (refl, refl, refl, refl, ground (arith, open_yet, asked, not_made), refl)
      ])
    ]
