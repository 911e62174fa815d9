-- ===== src/DataBlock/Pool/History/Whole.antt =====
-- lne/DataBlock.cpp: what holds of a pool of blocks over its whole life.
use lne.Ring.Distinct.{without, without-absent}
use lne.Prelude.{
  ℕ, zero, suc, ◌+◌, ◌-◌, ◌<◌, ◌==◌, ◌≡◌, ◌≢◌, refl, sym, ap, subst, ◌∙◌, true, false, some, List,
  [], ◌∷◌, ◌++◌, length, length-append, arith, inl, inr, ltb, ==_of_ne, Bool-cases,
}
use lne.Ring.{Ptr, null, has, Distinct}
use lne.Ring.Distinct.{Distinct-append_right}
use lne.DataBlock.{Sizes, DataBlock}
use lne.DataBlock.Pool.{
  DataBlockPool, BlockQueue, stride, first_block, append_block, append_loop, append_cache, refill,
  take_block, add_ref, release, alloc, free, block_destroy, block_release, new_pool,
}
use lne.DataBlock.Pool.Inv.{Inv, blocks}
use lne.DataBlock.Pool.Cache.{append_cache-Inv}
use lne.DataBlock.Pool.Alloc.{alloc-Inv}
use lne.DataBlock.Pool.Free.{block_release-Inv}
use lne.DataBlock.Pool.History.{
  History, Op, allocs, gives, holds, leaves, step, run, given_out, given_back, then_run, Permitted,
  AllPermitted, Valid, created,
}

-- What a cache that is appended leaves as it was.
abbrev Same : DataBlockPool → DataBlockPool → Type 0
Same p q = (p.cache_blocks ≡ q.cache_blocks) × (p.destroyed ≡ q.destroyed)

append_loop-Same :
    (s : Sizes) (rounds i : ℕ) (queue buffer : Ptr) (p : DataBlockPool)
    → Same (append_loop s rounds i queue buffer p) p
unfolding append_loop append_block
append_loop-Same s zero i queue buffer p = (refl, refl)
append_loop-Same s (suc rounds) i queue buffer p =
    append_loop-Same s rounds (i + 1) queue (buffer + stride s p) (append_block s i queue buffer p)

append_cache-Same :
    (s : Sizes) (buffer : Ptr) (p : DataBlockPool) → Same (append_cache s buffer p) p
unfolding append_cache
append_cache-Same s buffer p =
    append_loop-Same s p.cache_blocks 0 (buffer + s.sizeof_block_cache) (first_block s buffer p) p

refill-Same :
    (s : Sizes) (memory : Ptr) (p : DataBlockPool) (qs : List BlockQueue)
    → p.queue_head ≡ qs
    → Same (refill s memory p) p
unfolding refill
refill-Same s memory p qs e = ground (arith, append_cache-Same s memory p)

take_block-Same :
    (p : DataBlockPool) (qs : List BlockQueue) → p.queue_head ≡ qs → Same (take_block p).0 p
unfolding take_block add_ref
take_block-Same p [] e = ground arith
take_block-Same p (q ∷ qs) e = ground arith

alloc-Same : (s : Sizes) (memory : Ptr) (p : DataBlockPool) → Same (alloc s memory p).0 p
unfolding alloc
alloc-Same s memory p =
    let r = refill s memory p in
    let a = take_block-Same r r.queue_head refl in
    let b = refill-Same s memory p p.queue_head refl in (a.0 ∙ b.0, a.1 ∙ b.1)

-- Where a block stands among distinct ones.
split :
    (b : Ptr) (out : List Ptr)
    → has b out ≡ true
    → Distinct out
    → (xs ys : List Ptr) × (out ≡ xs ++ b ∷ ys) × (without b out ≡ xs ++ ys)
split b [] h d = cc
split b (x ∷ out) h d = elim (Bool-cases (x == b)) [
  | inl same ↦ ([], out, ground (arith, same), ground (arith, same, without-absent b out))
  | inr other ↦
      let (xs, ys, e, w) = split b out (ground (arith, h, other)) d.2 in
      (x ∷ xs, ys, ap (λ l. x ∷ l) e, simp (other, w) refl)
]

block_release-Same :
    (b : Ptr) (p p' : DataBlockPool) (cells : List BlockQueue)
    → p.queue_free ≡ cells
    → block_release b p ≡ some p'
    → p'.cache_blocks ≡ p.cache_blocks
unfolding block_release block_destroy free release
block_release-Same b p p' [] e done = ground (arith, e, done)
block_release-Same b p p' (q ∷ cells) e done = ground (arith, e, done)

give-Valid :
    (b : Ptr) (h : History)
    → has b h.out ≡ true
    → (h.pool.block b).reference ≡ 1
    → Valid h
    → (h' : History) × (given_back b h (block_release b h.pool) ≡ some h') × Valid h'
unfolding given_back
give-Valid b h used last v =
    let (xs, ys, e, w) =
      split b h.out used (Distinct-append_right (blocks h.pool.queue_head) h.out v.inv.distinct) in
    let (p, done, inv, destroyed, _) =
      block_release-Inv h.pool h.held xs b ys (subst (λ l. Inv h.pool h.held l) e v.inv) last in
    (
      record h { pool = p; out = without b h.out },
      ap (given_back b h) done,
      record {
        inv = subst (λ l. Inv p h.held l) (sym w) inv;
        ended =
            destroyed
            ∙ ground (
              arith,
              v.ended,
              v.inv.refs,
              length-append xs (b ∷ ys),
              length-append xs ys,
              ap length e,
              ap length w,
            );
        many = omega (arith, v.many, block_release-Same b h.pool p h.pool.queue_free refl done);
      },
    )

alloc-Valid :
    (s : Sizes) (memory : Ptr) (h : History)
    → 0 < s.sizeof_data_block
    → Permitted s (allocs memory) h
    → Valid h
    → Valid (given_out (alloc s memory h.pool) h)
unfolding given_out
alloc-Valid s memory h size (holder, new, room) v =
    let out = alloc s memory h.pool in
    let (cache, destroyed) = alloc-Same s memory h.pool in
    let alive : h.pool.destroyed ≡ false = ground (arith, v.ended, holder) in
    elim (alloc-Inv s memory h.pool h.held h.out (omega (arith, size)) v.many new room v.inv) [
      | inl (_, _, same, none_left) ↦ simp none_left (record {
        inv = subst (λ p. Inv p h.held h.out) (sym same) v.inv;
        ended = destroyed ∙ v.ended;
        many = omega (arith, cache, v.many);
      })
      | inr (got, _, inv, _) ↦ simp (==_of_ne out.1 null got) (record {
        inv = inv;
        ended = destroyed ∙ alive ∙ ground (arith, holder);
        many = omega (arith, cache, v.many);
      })
    ]

hold-Valid :
    (s : Sizes) (h : History)
    → Permitted s holds h
    → Valid h
    → Valid (record h { pool = add_ref h.pool; held = h.held + 1 })
unfolding add_ref
hold-Valid s h (holder, room) v = record {
  inv = record {
    refs = omega (arith, v.inv.refs, room);
    small = omega (arith, room);
    cells = v.inv.cells;
    distinct = v.inv.distinct;
    owned = v.inv.owned;
    ready = v.inv.ready;
  };
  ended = ground (arith, v.ended, holder);
  many = v.many;
}

leave-Valid :
    (h : History)
    → 0 < h.held
    → Valid h
    → Valid (record h { pool = release h.pool; held = h.held - 1 })
unfolding release
leave-Valid h holder v =
    let counted : ltb 0 h.pool.reference ≡ true = ground (arith, v.inv.refs, holder) in
    simp counted (record {
      inv = record {
        refs = omega (arith, v.inv.refs, holder);
        small = omega (arith, v.inv.small);
        cells = v.inv.cells;
        distinct = v.inv.distinct;
        owned = v.inv.owned;
        ready = v.inv.ready;
      };
      ended = ground (arith, v.ended, v.inv.refs, holder);
      many = v.many;
    })

step-Valid :
    (s : Sizes) (op : Op) (h : History)
    → 0 < s.sizeof_data_block
    → Permitted s op h
    → Valid h
    → (h' : History) × (step s op h ≡ some h') × Valid h'
unfolding step
step-Valid s (allocs memory) h size may v =
    (given_out (alloc s memory h.pool) h, refl, alloc-Valid s memory h size may v)
step-Valid s (gives b) h size (used, last) v = give-Valid b h used last v
step-Valid s holds h size may v =
    (record h { pool = add_ref h.pool; held = h.held + 1 }, refl, hold-Valid s h may v)
step-Valid s leaves h size may v =
    (record h { pool = release h.pool; held = h.held - 1 }, refl, leave-Valid h may v)

pub run-Valid :
    (s : Sizes) (ops : List Op) (h : History)
    → 0 < s.sizeof_data_block
    → Valid h
    → AllPermitted s ops (some h)
    → (h' : History) × (run s ops h ≡ some h') × Valid h'
unfolding run then_run
run-Valid s [] h size v may = (h, refl, v)
run-Valid s (op ∷ ops) h size v (may, later) =
    let (next, one, v') = step-Valid s op h size may v in
    let (last, rest, v'') = run-Valid s ops next size v' (subst (AllPermitted s ops) one later) in
    (last, ap (then_run (run s ops)) one ∙ rest, v'')

-- The pool before its first cache.
abbrev bare : ℕ → ℕ → Ptr → (Ptr → DataBlock) → DataBlockPool
bare capacity cache_blocks memory block = record {
  self = memory;
  reference = 1;
  capacity = capacity;
  cache_blocks = cache_blocks;
  cache_head = [];
  queue_head = [];
  queue_free = [];
  block = block;
  destroyed = false;
}

bare-Inv :
    (capacity cache_blocks : ℕ) (memory : Ptr) (block : Ptr → DataBlock)
    → Inv (bare capacity cache_blocks memory block) 1 []
bare-Inv capacity cache_blocks memory block = record {
  refs = omega arith;
  small = omega arith;
  cells = refl;
  distinct = tt;
  owned = λ a h. cc;
  ready = λ a h. cc;
}

new_pool-Valid :
    (s : Sizes) (capacity cache_blocks : ℕ) (memory : Ptr) (block : Ptr → DataBlock)
    → 0 < s.sizeof_data_block
    → 0 < capacity
    → 0 < cache_blocks
    → memory ≢ null
    → (p : DataBlockPool) × (new_pool s capacity cache_blocks memory block ≡ some p)
      × Valid (record { pool = p; held = 1; out = [] })
unfolding new_pool
new_pool-Valid s capacity cache_blocks memory block size sized many got =
    let start : DataBlockPool = bare capacity cache_blocks memory block in
    let buffer = memory + s.sizeof_data_block_pool in
    let whole : ltb 0 capacity ≡ true = ground (arith, sized) in
    let counted : ltb 0 cache_blocks ≡ true = ground (arith, many) in
    let (cache, destroyed) = append_cache-Same s buffer start in
    (
      append_cache s buffer start,
      simp (whole, counted, ==_of_ne memory null got) refl,
      record {
        inv =
            append_cache-Inv s buffer start 1 [] (omega (arith, got)) (omega (arith, size))
              (λ j h. refl) (bare-Inv capacity cache_blocks memory block);
        ended = destroyed;
        many = omega (arith, cache, many);
      },
    )

-- From a pool that `NewInstance` made, and over any calls of `Alloc`, last releases of blocks and
-- references to the pool that come and go, where only who holds a reference uses it, blocks are given
-- back by who has them, new memory is not in use and the counter has room: no call faults, the blocks
-- that are out and those that are spare are all different, the pool counts the blocks that are out
-- and its holders, has a cell for each block that comes back, and destroys itself exactly when nobody
-- holds it and every block is back.
pub run-new_pool :
    (s : Sizes) (capacity cache_blocks : ℕ) (memory : Ptr) (block : Ptr → DataBlock) (ops : List Op)
    → 0 < s.sizeof_data_block
    → 0 < capacity
    → 0 < cache_blocks
    → memory ≢ null
    → AllPermitted s ops (created (new_pool s capacity cache_blocks memory block))
    → (p : DataBlockPool) × (h : History) × (new_pool s capacity cache_blocks memory block ≡ some p)
      × (run s ops (record { pool = p; held = 1; out = [] }) ≡ some h)
      × Inv h.pool h.held h.out
      × (h.pool.destroyed ≡ (h.held + length h.out == 0))
run-new_pool s capacity cache_blocks memory block ops size sized many got may =
    let (p, made, v) = new_pool-Valid s capacity cache_blocks memory block size sized many got in
    let (h, ran, v') =
      run-Valid s ops (record { pool = p; held = 1; out = [] }) size v
        (subst (λ m. AllPermitted s ops (created m)) made may) in
    (p, h, made, ran, v'.inv, v'.ended)
