-- ===== src/DataBlock/Pool/Layout.antt =====
-- Where `AppendCache` of lne/DataBlock.cpp puts blocks and buffers inside the memory of a cache.
use lne.Prelude.{
  ℕ, zero, suc, ◌+◌, ◌*◌, ◌%◌, ◌<◌, ◌≤◌, ◌≡◌, refl, arith, ==_self, ◌∙◌, ◌⊎◌, inl, inr, List, [],
  ◌∷◌,
}
use lne.Ring.{Ptr}
use lne.DataBlock.{Sizes, DataBlock}
use lne.DataBlock.Pool.{
  DataBlockPool, stride, append_block, append_loop, append_cache, first_block, cache_size,
  BlockQueue, size_mod,
}

unwrapped_lem : (n : ℕ) → n < size_mod → n % size_mod ≡ n
unwrapped_lem n h = omega (arith, h)

module _ (s : Sizes) where
  -- The loop writes no block below the address where it is.
  append_loop-below :
      (rounds i : ℕ) (queue buffer a : Ptr) (p : DataBlockPool)
      → a < buffer
      → (append_loop s rounds i queue buffer p).block a ≡ p.block a
  unfolding append_loop append_block
  append_loop-below zero i queue buffer a p h = refl
  append_loop-below (suc rounds) i queue buffer a p h =
      append_loop-below rounds (i + 1) queue (buffer + stride s p) a
        (append_block s i queue buffer p) (omega arith)
      ∙ ground arith

  abbrev pub Placed : DataBlockPool → DataBlock → Ptr → Type 0
  Placed p b a =
      (b.buffer ≡ a + s.sizeof_data_block)
      × (b.capacity ≡ p.capacity)
      × (b.pool ≡ p.self)
      × (b.size ≡ 0)
      × (b.reference ≡ 1)

  append_loop-Placed :
      (rounds i j : ℕ) (queue buffer : Ptr) (p : DataBlockPool)
      → 0 < stride s p
      → j < rounds
      → let a = buffer + j * stride s p in
        Placed p ((append_loop s rounds i queue buffer p).block a) a
  unfolding append_loop append_block
  append_loop-Placed zero i j queue buffer p pos h = absurd (omega arith)
  append_loop-Placed (suc rounds) i zero queue buffer p pos h =
      let e : buffer + 0 * stride s p ≡ buffer = omega arith in
      let kept =
        append_loop-below rounds (i + 1) queue (buffer + stride s p) buffer
          (append_block s i queue buffer p) (omega arith) in
      rw (e, kept) (ground (arith, ==_self buffer))
  append_loop-Placed (suc rounds) i (suc j) queue buffer p pos h =
      let e : buffer + suc j * stride s p ≡ buffer + stride s p + j * stride s p = omega arith in
      rw e (
        append_loop-Placed rounds (i + 1) j queue (buffer + stride s p)
          (append_block s i queue buffer p) pos (omega arith))

  -- An entry of a chain.
  abbrev pub HasEntry : BlockQueue → List BlockQueue → Type 0
  HasEntry e [] = ⊥
  HasEntry e (q ∷ qs) = (q ≡ e) ⊎ HasEntry e qs

  append_loop-kept :
      (rounds i : ℕ) (queue buffer : Ptr) (p : DataBlockPool) (e : BlockQueue)
      → HasEntry e p.queue_head
      → HasEntry e (append_loop s rounds i queue buffer p).queue_head
  unfolding append_loop append_block
  append_loop-kept zero i queue buffer p e h = h
  append_loop-kept (suc rounds) i queue buffer p e h =
      append_loop-kept rounds (i + 1) queue (buffer + stride s p) (append_block s i queue buffer p)
        e (inr h)

  append_loop-HasEntry :
      (rounds i j : ℕ) (queue buffer : Ptr) (p : DataBlockPool)
      → j < rounds
      → HasEntry
          (record {
            cell = queue + (i + j) * s.sizeof_block_queue;
            block = buffer + j * stride s p;
          })
          (append_loop s rounds i queue buffer p).queue_head
  unfolding append_loop append_block
  append_loop-HasEntry zero i j queue buffer p h = absurd (omega arith)
  append_loop-HasEntry (suc rounds) i zero queue buffer p h =
      let e : buffer + 0 * stride s p ≡ buffer = omega arith in
      let f : i + 0 ≡ i = omega arith in
      rw (e, f)
        (append_loop-kept rounds (i + 1) queue (buffer + stride s p)
          (append_block s i queue buffer p) _ (inl refl))
  append_loop-HasEntry (suc rounds) i (suc j) queue buffer p h =
      let e : buffer + suc j * stride s p ≡ buffer + stride s p + j * stride s p = omega arith in
      let f : i + suc j ≡ i + 1 + j = omega arith in
      rw (e, f)
        (append_loop-HasEntry rounds (i + 1) j queue (buffer + stride s p)
          (append_block s i queue buffer p) (omega arith))

  -- Where `malloc` was asked for a size that did not wrap around: block `j` of a new cache stands `j`
  -- strides behind the first, with its buffer right behind its own record, as long as the pool's
  -- capacity, and its queue entry stands `j` entries behind the head of the cache. An entry ends
  -- where the next begins, or before the first block; a buffer ends where the next block begins; and
  -- the last one does not end behind the memory that was asked for.
  pub append_cache_layout :
      (buffer : Ptr) (p : DataBlockPool) (j : ℕ)
      → 0 < stride s p
      → j < p.cache_blocks
      → s.sizeof_block_cache
          + s.sizeof_block_queue * p.cache_blocks
          + (s.sizeof_data_block + p.capacity) * p.cache_blocks
        < size_mod
      → let q = append_cache s buffer p in
        let a = first_block s buffer p + j * stride s p in
        let cell = buffer + s.sizeof_block_cache + j * s.sizeof_block_queue in
        Placed p (q.block a) a
        × HasEntry (record { cell = cell; block = a }) q.queue_head
        × (cell + s.sizeof_block_queue ≤ first_block s buffer p)
        × ((q.block a).buffer + (q.block a).capacity
            ≡ first_block s buffer p + (j + 1) * stride s p)
        × ((q.block a).buffer + (q.block a).capacity ≤ buffer + cache_size s p)
  unfolding append_cache cache_size
  append_cache_layout buffer p j pos h unwrapped =
      let queue = buffer + s.sizeof_block_cache in
      let placed = append_loop-Placed p.cache_blocks 0 j queue (first_block s buffer p) p pos h in
      let first : 0 + j ≡ j = omega arith in
      let entry =
        rw first at (append_loop-HasEntry p.cache_blocks 0 j queue (first_block s buffer p) p h) in
      let rows : (j + 1) * s.sizeof_block_queue ≤ p.cache_blocks * s.sizeof_block_queue =
        grind arith in
      let columns : (j + 1) * stride s p ≤ p.cache_blocks * stride s p = grind arith in
      let asked = unwrapped_lem _ unwrapped in
      (
        placed,
        entry,
        omega arith,
        omega (arith, placed.0, placed.1),
        rw asked (omega (arith, placed.0, placed.1)),
      )
