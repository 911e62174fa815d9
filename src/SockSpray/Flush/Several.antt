-- ===== src/SockSpray/Flush/Several.antt =====
-- lne/SockSpray.cpp: what `Send` of several blocks sends.
use lne.Prelude.{
  ℕ, ◌≡◌, refl, Bool, true, false, inl, inr, Bool-cases, ltb, List, [], ◌∷◌, ◌++◌, arith,
}
use mathlib.Core.List.{append-nil}
use lne.Ring.{Ptr, null}
use lne.Config.{is_ok}
use lne.ObjectQueue
use lne.ObjectQueue.{ObjectQueue, Holds}
use lne.SockSpray.{SockSpray, Event, block_add_ref}
use lne.SockSpray.Write.{SendResult, send_allowed, send_append, send_append_all}
use lne.SockSpray.Flush.{send_all, AllCovered, joined, queue_events}
use lne.SockSpray.Flush.Whole.{enough, IsFlushed, run_writer-flushed, allowed_lem}

abbrev pub add_refs : List (Ptr × Ptr) → List Event
add_refs [] = []
add_refs ((block, memory) ∷ blocks) = block_add_ref block ∷ add_refs blocks

-- A block that was taken holds one reference more, and only the queue changed.
send_append-taken :
    (cache_nodes : ℕ) (memory block : Ptr) (s : SockSpray)
    → let out = send_append cache_nodes memory block s in
      out.1 ≡ true
      → (q : ObjectQueue Ptr) × (out
          ≡ (record s { send_blocks = q }, true, block_add_ref block ∷ []))
unfolding send_append
send_append-taken cache_nodes memory block s taken =
    let appended = ObjectQueue.append cache_nodes memory block s.send_blocks in
    elim (Bool-cases (is_ok appended.1)) [
      | inr failed ↦ absurd (ground (arith, failed, taken))
      | inl done ↦ (elim (Bool-cases (ltb s.limit_write_cache (ObjectQueue.count appended.0))) [
        | inl full ↦ absurd (ground (arith, done, full, taken))
        | inr room ↦ (appended.0, simp (done, room) refl)
      ])
    ]

-- Where every block was taken, only the queue changed, and each block holds one reference more.
pub send_append_all-taken :
    (cache_nodes : ℕ) (blocks : List (Ptr × Ptr)) (s : SockSpray)
    → let out = send_append_all cache_nodes blocks s in
      out.1 ≡ true
      → (q : ObjectQueue Ptr) × (out ≡ (record s { send_blocks = q }, true, add_refs blocks))
unfolding send_append_all
send_append_all-taken cache_nodes [] s taken = (s.send_blocks, refl)
send_append_all-taken cache_nodes ((block, memory) ∷ blocks) s taken =
    let first = send_append cache_nodes memory block s in
    elim (Bool-cases first.1) [
      | inr refused ↦ absurd (ground (arith, refused, taken))
      | inl one ↦
          let (q, e) = send_append-taken cache_nodes memory block s one in
          let (q', ih) =
            send_append_all-taken cache_nodes blocks (record s { send_blocks = q })
              (simp e at taken) in
          (q', simp (e, ih) refl)
    ]

-- `Send` of several blocks on a connection whose send process nobody is in, if the queue takes them
-- all and stays within the limit: each gets one reference more, and then all of the queue goes out as
-- `HandleWrite` sends it.
pub send_all-IsFlushed :
    (size : Ptr → ℕ) (s : SockSpray) (cache_nodes : ℕ) (sending : List (Ptr × Ptr))
    (blocks : List Ptr) (answers : List (List SendResult)) (fuel : ℕ) (ready : Bool)
    → send_allowed s ≡ true
    → (send_append_all cache_nodes sending s).1 ≡ true
    → Holds ((send_append_all cache_nodes sending s).0).send_blocks blocks
    → s.send ≡ record { ready = ready; already = false; cache_buf = null; cache_len = 0 }
    → AllCovered size blocks answers
    → (s' : SockSpray) × (send_all (enough answers fuel) cache_nodes size (joined answers) sending s
        ≡ (s', add_refs sending ++ queue_events blocks answers))
      × IsFlushed s s'
unfolding send_all
send_all-IsFlushed size s cache_nodes sending blocks answers fuel ready allowed taken held idle
      covered =
    let (q, queued) = send_append_all-taken cache_nodes sending s taken in
    let (open_yet, unasked) = allowed_lem s allowed in
    let (after, whole, flush) =
      run_writer-flushed size (record s { send_blocks = q }) blocks answers fuel ready
        (simp queued at held) idle open_yet covered in
    (after, simp (allowed, queued, whole, unasked, append-nil) refl, flush)
