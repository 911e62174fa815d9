-- ===== src/DataBlock/Pool.antt =====
-- `DataBlockPool` of lne/DataBlock.cpp. A `BlockQueue` chain is only pushed and popped at its head,
-- so it is a list of its entries. `malloc` and the pool's own address are arguments.
pub mod Inv
pub mod Cache
pub mod Alloc
pub mod Free
pub mod History
pub mod Layout
use lne.Prelude.{
  ℕ, zero, suc, ◌+◌, ◌-◌, ◌*◌, ◌%◌, ◌^◌, Bool, true, false, ◌&&◌, Option, none, some, List, [], ◌∷◌,
  ◌++◌, ◌==◌, ltb, if◌then◌else◌, update,
}
use lne.Ring.{Ptr, null}
use lne.ExtendObject.{u32_mod}
use lne.DataBlock.{Sizes, DataBlock, new_data_block}

pub record BlockQueue : Type 0 where
  pub cell : Ptr
  pub block : Ptr

pub record DataBlockPool : Type 0 where
  pub self : Ptr
  pub reference : ℕ
  pub capacity : ℕ
  pub cache_blocks : ℕ
  pub cache_head : List Ptr
  pub queue_head : List BlockQueue
  pub queue_free : List BlockQueue
  -- The blocks, by their addresses.
  pub block : Ptr → DataBlock
  -- `ObjectDestroy` was called.
  pub destroyed : Bool

abbrev pub default_cache_blocks : ℕ
default_cache_blocks = 128

-- The number of values of a `size_t`, of 64 bits.
abbrev pub size_mod : ℕ
size_mod = 2 ^ 64

module _ (s : Sizes) where
  -- The bytes of one block with its buffer.
  abbrev pub stride : DataBlockPool → ℕ
  stride p = s.sizeof_data_block + p.capacity

  -- One round of `AppendCache`.
  unfoldable pub append_block : ℕ → Ptr → Ptr → DataBlockPool → DataBlockPool
  append_block i queue buffer p = record p {
    block = update p.block buffer (record {
      reference = 1;
      size = 0;
      buffer = buffer + s.sizeof_data_block;
      capacity = p.capacity;
      pool = p.self;
    });
    queue_head = record { cell = queue + i * s.sizeof_block_queue; block = buffer } ∷ p.queue_head;
  }

  unfoldable pub append_loop : ℕ → ℕ → Ptr → Ptr → DataBlockPool → DataBlockPool
  append_loop zero i queue buffer p = p
  append_loop (suc rounds) i queue buffer p =
      append_loop rounds (i + 1) queue (buffer + (s.sizeof_data_block + p.capacity))
        (append_block i queue buffer p)

  -- Where the first block of a cache stands.
  abbrev pub first_block : Ptr → DataBlockPool → Ptr
  first_block buffer p = buffer + (s.sizeof_block_cache + s.sizeof_block_queue * p.cache_blocks)

  unfoldable pub append_cache : Ptr → DataBlockPool → DataBlockPool
  append_cache buffer p =
      let filled =
        append_loop p.cache_blocks 0 (buffer + s.sizeof_block_cache) (first_block buffer p) p in
      record filled { cache_head = buffer ∷ filled.cache_head }

  -- The bytes that `Alloc` asks of `malloc` for one more cache, a `size_t` that can wrap around.
  pub cache_size : DataBlockPool → ℕ
  cache_size p =
      (s.sizeof_block_cache
        + s.sizeof_block_queue * p.cache_blocks
        + (s.sizeof_data_block + p.capacity) * p.cache_blocks)
      % size_mod

  unfoldable pub new_pool : ℕ → ℕ → Ptr → (Ptr → DataBlock) → Option DataBlockPool
  new_pool capacity cache_blocks memory block =
      if ltb 0 capacity && ltb 0 cache_blocks
      then (if memory == null
          then none
          else some (
              append_cache (memory + s.sizeof_data_block_pool) (record {
                self = memory;
                reference = 1;
                capacity = capacity;
                cache_blocks = cache_blocks;
                cache_head = [];
                queue_head = [];
                queue_free = [];
                block = block;
                destroyed = false;
              })))
      else none

  -- The first part of `Alloc`: one more cache when no block is spare.
  unfoldable pub refill : Ptr → DataBlockPool → DataBlockPool
  refill memory p = elim p.queue_head [
    | [] ↦ if memory == null then p else append_cache memory p
    | q ∷ rest ↦ p
  ]

unfoldable pub add_ref : DataBlockPool → DataBlockPool
add_ref p = record p { reference = (p.reference + 1) % u32_mod }

unfoldable pub release : DataBlockPool → DataBlockPool
release p =
    if ltb 0 p.reference
    then (record p {
      reference = p.reference - 1;
      destroyed = if ltb (p.reference - 1) 1 then true else p.destroyed;
    })
    else p

-- The second part of `Alloc`: the first spare block, or null.
unfoldable pub take_block : DataBlockPool → DataBlockPool × Ptr
take_block p = elim p.queue_head [
  | [] ↦ (p, null)
  | q ∷ rest ↦
      let taken = record p {
        queue_head = rest;
        queue_free = record { cell = q.cell; block = null } ∷ p.queue_free;
      } in
      ((if q.block == null then taken else add_ref taken), q.block)
]

unfoldable pub alloc : Sizes → Ptr → DataBlockPool → DataBlockPool × Ptr
alloc s memory p = take_block (refill s memory p)

-- `none` is a fault: `queue_free_` is null where `Free` reads through it.
unfoldable pub free : Ptr → DataBlockPool → Option DataBlockPool
free block p = elim p.queue_free [
  | [] ↦ none
  | q ∷ rest ↦ some (
      release (record p {
        queue_free = rest;
        queue_head = record { cell = q.cell; block = block } ∷ p.queue_head;
      }))
]

-- `DataBlock::ObjectDestroy` of a block of this pool.
unfoldable pub block_destroy : Ptr → DataBlockPool → Option DataBlockPool
unfolding free
block_destroy b p =
    free b (record p { block = update p.block b (record (p.block b) { size = 0; reference = 1 }) })

-- `Release` of a block of this pool.
unfoldable pub block_release : Ptr → DataBlockPool → Option DataBlockPool
block_release b p =
    let left = (p.block b).reference - 1 in
    let less = record p { block = update p.block b (record (p.block b) { reference = left }) } in
    if ltb 0 (p.block b).reference
    then (if ltb left 1 then block_destroy b less else some less)
    else some p

-- The destructor frees every cache but the last, which is part of the pool's own memory.
pub free_caches : List Ptr → List Ptr
free_caches [] = []
free_caches (cache ∷ []) = []
free_caches (cache ∷ next ∷ rest) = cache ∷ free_caches (next ∷ rest)

-- `ObjectDestroy` of the pool: what is handed to `free`, in order.
pub destroy_frees : DataBlockPool → List Ptr
unfolding free_caches
destroy_frees p = free_caches p.cache_head ++ p.self ∷ []
