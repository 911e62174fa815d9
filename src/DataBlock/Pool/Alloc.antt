-- ===== src/DataBlock/Pool/Alloc.antt =====
-- `Alloc` of lne/DataBlock.cpp.
use lne.Prelude.{
  ℕ, ◌+◌, ◌<◌, ◌≡◌, ◌≢◌, refl, false, List, [], ◌∷◌, ◌++◌, arith, ◌⊎◌, inl, inr, subst, ap, ==_self,
}
use lne.Ring.{Ptr, null, has, Distinct}
use lne.Ring.Relink.{has-append}
use lne.Ring.Distinct.{Distinct-unmiddle}
use lne.ExtendObject.{u32_mod}
use lne.DataBlock.{Sizes}
use lne.DataBlock.Pool.{
  DataBlockPool, BlockQueue, stride, first_block, refill, take_block, add_ref, alloc,
}
use lne.DataBlock.Pool.Inv.{Inv, blocks}
use lne.DataBlock.Pool.Cache.{Unused, refill-Refilled}

-- A block that `Alloc` hands out: empty, with one reference, of this pool and its capacity.
pub record IsNew (p : DataBlockPool) (b : Ptr) : Type 0 where
  pub size : (p.block b).size ≡ 0
  pub reference : (p.block b).reference ≡ 1
  pub capacity : (p.block b).capacity ≡ p.capacity
  pub pool : (p.block b).pool ≡ p.self

taken : DataBlockPool → BlockQueue → List BlockQueue → DataBlockPool
unfolding add_ref
taken p q rest = add_ref (record p {
  queue_head = rest;
  queue_free = record { cell = q.cell; block = null } ∷ p.queue_free;
})

take_block-nil : (p : DataBlockPool) → p.queue_head ≡ [] → take_block p ≡ (p, null)
unfolding take_block
take_block-nil p e = ground arith

take_block-cons :
    (p : DataBlockPool) (q : BlockQueue) (rest : List BlockQueue)
    → p.queue_head ≡ q ∷ rest
    → q.block ≢ null
    → take_block p ≡ (taken p q rest, q.block)
unfolding take_block taken
take_block-cons p q rest e ne = rw (e, take_block) (ground arith)

taken-Inv :
    (p : DataBlockPool) (q : BlockQueue) (rest : List BlockQueue) (held : ℕ) (out : List Ptr)
    → p.queue_head ≡ q ∷ rest
    → p.reference + 1 < u32_mod
    → Inv p held out
    → Inv (taken p q rest) held (q.block ∷ out) × IsNew (taken p q rest) q.block
unfolding taken
taken-Inv p q rest held out e small v =
    let d : Distinct (blocks (q ∷ rest) ++ out) =
      subst (λ qs. Distinct (blocks qs ++ out)) e v.distinct in
    let before : (a : Ptr) → has a (blocks p.queue_head ++ out) ≡ has a (blocks (q ∷ rest) ++ out) =
      λ a. ap (λ qs. has a (blocks qs ++ out)) e in
    let spare : (a : Ptr) → has a (blocks p.queue_head) ≡ has a (blocks (q ∷ rest)) =
      λ a. ap (λ qs. has a (blocks qs)) e in
    (
      record {
        refs = omega (arith, v.refs);
        small = omega arith;
        cells = omega (arith, v.cells);
        distinct = Distinct-unmiddle (blocks rest) q.block out d;
        owned = λ a h. ground (
          arith,
          before a,
          has-append a (blocks rest) (q.block ∷ out),
          has-append a (blocks rest) out,
          v.owned a,
        );
        ready = λ a h. ground (arith, spare a, v.ready a);
      },
      record {
        size = ground (arith, spare q.block, v.ready q.block, ==_self q.block);
        reference = ground (arith, spare q.block, v.ready q.block, ==_self q.block);
        capacity = ground (arith, before q.block, v.owned q.block, ==_self q.block);
        pool = ground (arith, before q.block, v.owned q.block, ==_self q.block);
      },
    )

-- `Alloc` fails only when no block is spare and `malloc` fails, and then changes nothing. Else it
-- hands out a block that was not out, new and empty, and adds a reference to the pool.
pub alloc-Inv :
    (s : Sizes) (memory : Ptr) (p : DataBlockPool) (held : ℕ) (out : List Ptr)
    → 0 < stride s p
    → 0 < p.cache_blocks
    → (memory ≢ null
        → Unused p.cache_blocks (stride s p) (first_block s memory p) (blocks p.queue_head ++ out))
    → p.reference + 1 < u32_mod
    → Inv p held out
    → let (p', b) = alloc s memory p in
      ((p.queue_head ≡ []) × (memory ≡ null) × (p' ≡ p) × (b ≡ null))
      ⊎ ((b ≢ null) × (has b out ≡ false) × Inv p' held (b ∷ out) × IsNew p' b)
unfolding alloc
alloc-Inv s memory p held out pos many new small v =
    elim (refill-Refilled s memory p p.queue_head held out refl new pos many v) [
      | inl (empty, none_left, e) ↦
          rw (e, take_block-nil p empty) (inl (empty, none_left, refl, refl))
      | inr (q, rest, e, w) ↦
          let m = refill s memory p in
          let d : Distinct (blocks (q ∷ rest) ++ out) =
            subst (λ qs. Distinct (blocks qs ++ out)) e w.distinct in
          let r = taken-Inv m q rest held out e (omega (arith, w.refs, v.refs)) w in
          rw (take_block-cons m q rest e d.0)
            (inr (d.0, ground (arith, d.1, has-append q.block (blocks rest) out), r.0, r.1))
    ]
