-- ===== src/DataBlock/Pool/Free.antt =====
-- `Release` of a block and `Free` of lne/DataBlock.cpp: the last reference to a block gives it back.
use lne.Prelude.{
  ℕ, ◌-◌, ◌<◌, ◌≡◌, refl, true, some, List, ◌∷◌, ◌++◌, arith, ◌==◌, if◌then◌else◌, update, ltb,
  length, cons-cases, length-append, subst, ◌∙◌, ap, ==_self,
}
use lne.Ring.{Ptr, Distinct}
use lne.Ring.Relink.{has-append}
use lne.Ring.Distinct.{Distinct-middle}
use mathlib.Core.List.{append_assoc}
use lne.DataBlock.Pool.{DataBlockPool, BlockQueue, release, free, block_destroy, block_release}
use lne.DataBlock.Pool.Inv.{Inv, blocks}

-- The block after its last reference was dropped and it was made new.
renewed : DataBlockPool → Ptr → DataBlockPool
renewed p b =
    let less = record p {
      block = update p.block b (record (p.block b) { reference = (p.block b).reference - 1 });
    } in
    record less { block = update less.block b (record (less.block b) { size = 0; reference = 1 }) }

renewed_lem :
    (p : DataBlockPool) (b a : Ptr)
    → (((renewed p b).block a).pool ≡ (p.block a).pool)
      × (((renewed p b).block a).capacity ≡ (p.block a).capacity)
      × (((renewed p b).block a).size ≡ (if a == b then 0 else (p.block a).size))
      × (((renewed p b).block a).reference ≡ (if a == b then 1 else (p.block a).reference))
      × ((renewed p b).self ≡ p.self)
      × ((renewed p b).capacity ≡ p.capacity)
unfolding renewed
renewed_lem p b a = ground (arith, ==_self b)

-- The pool after the block `b` came back into the cell `q`, before its own `Release`.
returned : DataBlockPool → Ptr → BlockQueue → List BlockQueue → DataBlockPool
returned p b q cells = record (renewed p b) {
  queue_free = cells;
  queue_head = record { cell = q.cell; block = b } ∷ p.queue_head;
}

block_release-last :
    (p : DataBlockPool) (b : Ptr) (q : BlockQueue) (cells : List BlockQueue)
    → (p.block b).reference ≡ 1
    → p.queue_free ≡ q ∷ cells
    → block_release b p ≡ some (release (returned p b q cells))
unfolding block_release block_destroy returned renewed
block_release-last p b q cells e f =
    let has_ref : ltb 0 (p.block b).reference ≡ true = ground arith in
    let last : ltb ((p.block b).reference - 1) 1 ≡ true = ground arith in
    rw (has_ref, last, f, free)

release_lem :
    (p : DataBlockPool)
    → 0 < p.reference
    → release p ≡ record p {
      reference = p.reference - 1;
      destroyed = if p.reference == 1 then true else p.destroyed;
    }
unfolding release
release_lem p h = ground arith

-- What the return of `b` leaves: the same pool with one reference less, destroyed if that was the
-- last.
after : DataBlockPool → Ptr → BlockQueue → List BlockQueue → DataBlockPool
after p b q cells = record (returned p b q cells) {
  reference = p.reference - 1;
  destroyed = if p.reference == 1 then true else p.destroyed;
}

module _ (p : DataBlockPool) (held : ℕ) (xs : List Ptr) (b : Ptr) (ys : List Ptr)
    (v : Inv p held (xs ++ b ∷ ys)) where
  after-Inv :
      (q : BlockQueue) (cells : List BlockQueue)
      → p.queue_free ≡ q ∷ cells
      → Inv (after p b q cells) held (xs ++ ys)
  unfolding after returned renewed
  after-Inv q cells f =
      let heads = blocks p.queue_head in
      let d : Distinct (heads ++ xs ++ b ∷ ys) = rw append_assoc v.distinct in
      let m = Distinct-middle (heads ++ xs) b ys d in
      record {
        refs = omega (arith, v.refs, length-append xs (b ∷ ys), length-append xs ys);
        small = omega (arith, v.small);
        cells = omega (arith, ap length f, v.cells, length-append xs (b ∷ ys), length-append xs ys);
        distinct = subst (λ l. Distinct (b ∷ l)) (append_assoc heads xs ys) m;
        owned = λ a h. ground (
          arith,
          renewed_lem p b a,
          v.owned a,
          has-append a heads (xs ++ ys),
          has-append a heads (xs ++ b ∷ ys),
          has-append a xs (b ∷ ys),
          has-append a xs ys,
        );
        ready = λ a h. ground (arith, renewed_lem p b a, v.ready a);
      }

  -- The last `Release` of a block that is out never faults. The block is spare again, empty and
  -- with one reference, the pool has one reference less, and it destroys itself exactly when that
  -- was the last.
  pub block_release-Inv :
      (p.block b).reference ≡ 1
      → (p' : DataBlockPool) × (block_release b p ≡ some p')
        × Inv p' held (xs ++ ys)
        × (p'.destroyed ≡ (if p.reference == 1 then true else p.destroyed))
        × (blocks p'.queue_head ≡ b ∷ blocks p.queue_head)
  unfolding after returned renewed
  block_release-Inv e =
      let c = cons-cases p.queue_free (omega (arith, v.cells, length-append xs (b ∷ ys))) in
      let pos : 0 < p.reference = omega (arith, v.refs, length-append xs (b ∷ ys)) in
      let same : release (returned p b c.0 c.1) ≡ after p b c.0 c.1 =
        release_lem (returned p b c.0 c.1) (unfold renewed in pos) in
      (
        after p b c.0 c.1,
        block_release-last p b c.0 c.1 e c.2 ∙ ap some same,
        after-Inv c.0 c.1 c.2,
        refl,
        refl,
      )
