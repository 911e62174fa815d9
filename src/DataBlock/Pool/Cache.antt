-- ===== src/DataBlock/Pool/Cache.antt =====
-- `AppendCache` of lne/DataBlock.cpp: a cache adds its blocks to the spare ones.
use lne.Prelude.{
  ℕ, zero, suc, ◌+◌, ◌*◌, ◌<◌, ◌≡◌, ◌≢◌, false, List, [], ◌∷◌, ◌++◌, arith, ◌==◌, subst, ==_of_ne,
  length, cons-cases, ◌⊎◌, inl, inr, Bool-cases,
}
use lne.Ring.{Ptr, null, has}
use lne.DataBlock.{Sizes}
use lne.DataBlock.Pool.{
  DataBlockPool, BlockQueue, stride, append_block, append_loop, append_cache, first_block, refill,
}
use lne.DataBlock.Pool.Inv.{Inv, blocks}

-- The addresses of `rounds` blocks, `step` bytes apart from `buffer` on, are new: `malloc` gives
-- memory that is not in use.
abbrev pub Unused : ℕ → ℕ → Ptr → List Ptr → Type 0
Unused rounds step buffer xs = (j : ℕ) → j < rounds → has (buffer + j * step) xs ≡ false

Unused-first :
    (rounds step : ℕ) (buffer : Ptr) (xs : List Ptr)
    → Unused (suc rounds) step buffer xs
    → has buffer xs ≡ false
Unused-first rounds step buffer xs new =
    let e : buffer + 0 * step ≡ buffer = omega arith in
    subst (λ b. has b xs ≡ false) e (new 0 (omega arith))

Unused-later :
    (rounds step : ℕ) (buffer : Ptr) (xs : List Ptr)
    → 0 < step
    → Unused (suc rounds) step buffer xs
    → Unused rounds step (buffer + step) (buffer ∷ xs)
Unused-later rounds step buffer xs pos new j h =
    let e : buffer + (j + 1) * step ≡ buffer + step + j * step = omega arith in
    let ne : buffer + step + j * step ≢ buffer = omega arith in
    rw (==_of_ne _ _ ne) (subst (λ b. has b xs ≡ false) e (new (j + 1) (omega arith)))

module _ (s : Sizes) where
  append_block-Inv :
      (i : ℕ) (queue buffer : Ptr) (p : DataBlockPool) (held : ℕ) (out : List Ptr)
      → buffer ≢ null
      → has buffer (blocks p.queue_head ++ out) ≡ false
      → Inv p held out
      → Inv (append_block s i queue buffer p) held out
  unfolding append_block
  append_block-Inv i queue buffer p held out ne new v = record {
    refs = v.refs;
    small = v.small;
    cells = v.cells;
    distinct = (ne, new, v.distinct);
    owned = λ a h. ground (arith, v.owned a);
    ready = λ a h. ground (arith, v.ready a);
  }

  append_loop-Inv :
      (rounds i : ℕ) (queue buffer : Ptr) (p : DataBlockPool) (held : ℕ) (out : List Ptr)
      → buffer ≢ null
      → 0 < stride s p
      → Unused rounds (stride s p) buffer (blocks p.queue_head ++ out)
      → Inv p held out
      → Inv (append_loop s rounds i queue buffer p) held out
  unfolding append_loop
  append_loop-Inv zero i queue buffer p held out ne pos new v = v
  append_loop-Inv (suc rounds) i queue buffer p held out ne pos new v =
      append_loop-Inv rounds (i + 1) queue (buffer + stride s p) (append_block s i queue buffer p)
        held out (omega arith) (unfold append_block in pos)
        (unfold append_block in Unused-later rounds (stride s p) buffer _ pos new)
        (append_block-Inv i queue buffer p held out ne
          (Unused-first rounds (stride s p) buffer _ new) v)

  -- A block of memory from `malloc` becomes `cache_blocks_` more spare blocks.
  pub append_cache-Inv :
      (buffer : Ptr) (p : DataBlockPool) (held : ℕ) (out : List Ptr)
      → buffer ≢ null
      → 0 < stride s p
      → Unused p.cache_blocks (stride s p) (first_block s buffer p) (blocks p.queue_head ++ out)
      → Inv p held out
      → Inv (append_cache s buffer p) held out
  unfolding append_cache
  append_cache-Inv buffer p held out ne pos new v =
      let r =
        append_loop-Inv p.cache_blocks 0 (buffer + s.sizeof_block_cache) (first_block s buffer p) p
          held out (omega arith) pos new v in
      record {
        refs = r.refs;
        small = r.small;
        cells = r.cells;
        distinct = r.distinct;
        owned = r.owned;
        ready = r.ready;
      }

  append_loop-length :
      (rounds i : ℕ) (queue buffer : Ptr) (p : DataBlockPool)
      → length (append_loop s rounds i queue buffer p).queue_head ≡ rounds + length p.queue_head
  unfolding append_loop append_block
  append_loop-length zero i queue buffer p = omega arith
  append_loop-length (suc rounds) i queue buffer p = omega (
    arith,
    append_loop-length rounds (i + 1) queue (buffer + stride s p) (append_block s i queue buffer p),
  )

  pub append_cache-length :
      (buffer : Ptr) (p : DataBlockPool)
      → length (append_cache s buffer p).queue_head ≡ p.cache_blocks + length p.queue_head
  unfolding append_cache
  append_cache-length buffer p =
      append_loop-length p.cache_blocks 0 (buffer + s.sizeof_block_cache) (first_block s buffer p) p

  -- What the first part of `Alloc` leaves: no spare block and no memory, or a spare block.
  abbrev pub Refilled : Ptr → DataBlockPool → ℕ → List Ptr → Type 0
  Refilled memory p held out =
      ((p.queue_head ≡ []) × (memory ≡ null) × (refill s memory p ≡ p))
      ⊎ ((q : BlockQueue) × (rest : List BlockQueue) × ((refill s memory p).queue_head ≡ q ∷ rest)
          × Inv (refill s memory p) held out)

  refill-cache :
      (memory : Ptr) (p : DataBlockPool)
      → p.queue_head ≡ []
      → memory ≢ null
      → refill s memory p ≡ append_cache s memory p
  unfolding refill
  refill-cache memory p e got = ground arith

  refill-null :
      (memory : Ptr) (p : DataBlockPool) → p.queue_head ≡ [] → memory ≡ null → refill s memory p ≡ p
  unfolding refill
  refill-null memory p e none_left = ground arith

  pub refill-Refilled :
      (memory : Ptr) (p : DataBlockPool) (qs : List BlockQueue) (held : ℕ) (out : List Ptr)
      → p.queue_head ≡ qs
      → (memory ≢ null
          → Unused p.cache_blocks
              (stride s p)
              (first_block s memory p)
              (blocks p.queue_head ++ out))
      → 0 < stride s p
      → 0 < p.cache_blocks
      → Inv p held out
      → Refilled memory p held out
  refill-Refilled memory p [] held out e new pos many v = elim (Bool-cases (memory == null)) [
    | inl none_left ↦ inl (e, ground arith, refill-null memory p e (ground arith))
    | inr left ↦
        let got : memory ≢ null = ground arith in
        let c =
          cons-cases (append_cache s memory p).queue_head
            (omega (arith, append_cache-length memory p)) in
        rw (refill-cache memory p e got)
          (inr (c.0, c.1, c.2, append_cache-Inv memory p held out got pos (new got) v))
  ]
  refill-Refilled memory p (q ∷ rest) held out e new pos many v =
      unfold refill in inr (q, rest, rw (e, refill) e, rw (e, refill) v)
