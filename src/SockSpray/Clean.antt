-- ===== src/SockSpray/Clean.antt =====
-- lne/SockSpray.cpp: `Clean` gives back every block that waits to be sent, and `Shutdown` does not
-- see those in the queue.
use lne.Prelude.{
  ℕ, zero, suc, ◌<◌, ◌≡◌, ◌≢◌, ◌⊎◌, true, false, refl, sym, subst, ap, List, [], ◌∷◌, ◌++◌, ◌==◌,
  if◌then◌else◌, arith, length, map, Bool-cases, inl, inr,
}
use lne.Ring.{Ptr, null}
use lne.ObjectList.{new_object_list, count}
use lne.ObjectList.Count.{Op, run, is_empty-run}
use lne.ObjectQueue
use lne.ObjectQueue.{ObjectQueue, Holds, extract-Holds, extract-empty}
use lne.SockSpray.{
  SockSpray, block_release, clean, clean_loop, no_send, socket_shutdown, shutdown_once,
}
use lne.SockSpray.Write.{shutdown_ready, shutdown_query, shutdown}

-- The block at hand, if any.
abbrev pub at_hand : Ptr → List Ptr
at_hand b = if b == null then [] else b ∷ []

clean_loop-Holds :
    (items : List Ptr) (fuel : ℕ) (old : Ptr) (q : ObjectQueue Ptr)
    → length items < fuel
    → Holds q items
    → Holds (clean_loop fuel old q).0 [] × ((clean_loop fuel old q).1 ≡ map block_release items)
unfolding clean_loop
clean_loop-Holds items zero old q h k = absurd (omega arith)
clean_loop-Holds [] (suc fuel) old q h k = rw (extract-empty old q k) (k, refl)
clean_loop-Holds (b ∷ bs) (suc fuel) old q h k =
    let out = ObjectQueue.extract old q in
    let p = extract-Holds old b q bs k in
    let ih = clean_loop-Holds bs fuel out.1 out.0 (omega arith) p.0 in
    rw (p.2) (ih.0, cc (p.1, ih.1))

-- `Clean` ends, with fuel for each block in the queue and one round more. It gives back the block at
-- hand and then those of the queue, oldest first, and leaves nothing to send.
pub clean-Holds :
    (fuel : ℕ) (s : SockSpray) (items : List Ptr)
    → length items < fuel
    → Holds s.send_blocks items
    → let out = clean fuel s in
      Holds out.0.send_blocks []
      × (out.0.send ≡ no_send)
      × (out.1 ≡ map block_release (at_hand s.send.cache_buf ++ items))
unfolding clean
clean-Holds fuel s items h k =
    let c = clean_loop-Holds items fuel s.send.cache_buf s.send_blocks h k in
    (
      c.0,
      refl,
      elim (Bool-cases (s.send.cache_buf == null)) [
        | inl e ↦ rw e c.1
        | inr e ↦ rw e (ap (λ l. block_release s.send.cache_buf ∷ l) c.1)
      ],
    )

-- The test of `Shutdown` sees the block at hand only.
shutdown_ready-run :
    (cache_nodes : ℕ) (nodes : Ptr) (prev next object : Ptr → Ptr) (ops : List (Op Ptr))
    (s : SockSpray)
    → s.send_blocks.list ≡ run cache_nodes ops (new_object_list cache_nodes nodes prev next object)
    → shutdown_ready s ≡ (s.send.cache_buf == null)
unfolding shutdown_ready ObjectQueue.is_empty ObjectQueue.count
shutdown_ready-run cache_nodes nodes prev next object ops s e =
    let none_counted =
      subst (λ l. count l ≡ 0) (sym e) (is_empty-run cache_nodes nodes prev next object ops).0 in
    rw none_counted refl

-- `Shutdown` of a connection that was not yet asked to, with blocks in its queue, whatever was
-- appended to and extracted from it before: with no block at hand it calls `shutdown` at once, and
-- the blocks are still in the queue; with a block at hand it only asks for it.
pub shutdown-run :
    (cache_nodes : ℕ) (nodes : Ptr) (prev next object : Ptr → Ptr) (ops : List (Op Ptr))
    (s : SockSpray) (b : Ptr) (bs : List Ptr)
    → s.send_blocks.list ≡ run cache_nodes ops (new_object_list cache_nodes nodes prev next object)
    → Holds s.send_blocks (b ∷ bs)
    → s.shut ≡ record { query = false; invoke = false; already = false }
    → let out = shutdown s in
      Holds out.0.send_blocks (b ∷ bs)
      × (out.0.send ≡ s.send)
      × (((s.send.cache_buf ≡ null)
            × (out.1 ≡ socket_shutdown ∷ [])
            × (out.0.shut ≡ record { query = true; invoke = true; already = false }))
          ⊎ ((s.send.cache_buf ≢ null)
              × (out.1 ≡ [])
              × (out.0.shut ≡ record { query = true; invoke = false; already = false })))
unfolding shutdown shutdown_once
shutdown-run cache_nodes nodes prev next object ops s b bs e waiting fresh =
    let asked : SockSpray = record s {
      shut = record { query = true; invoke = false; already = false };
    } in
    let queried : shutdown_query s ≡ (asked, true) = unfold shutdown_query in simp fresh refl in
    let ready : shutdown_ready asked ≡ (s.send.cache_buf == null) =
      shutdown_ready-run cache_nodes nodes prev next object ops asked e in
    elim (Bool-cases (s.send.cache_buf == null)) [
      | inl none_at_hand ↦
          simp (queried, ready, none_at_hand)
            (waiting, refl, inl (ground (arith, none_at_hand), refl, refl))
      | inr some_at_hand ↦
          simp (queried, ready, some_at_hand)
            (waiting, refl, inr (ground (arith, some_at_hand), refl, refl))
    ]
