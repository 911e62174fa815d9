-- ===== src/Examples/Blocks.antt =====
-- Reference counts, blocks and block pools of lne/ExtendObject.h and lne/DataBlock.h at concrete
-- inputs.
use lne.Prelude.{◌+◌, ◌*◌, ◌≤◌, ◌≡◌, ◌≢◌, ◌⊎◌, refl, false, some, List, [], ◌∷◌, arith}
use lne.Config.{lnerr_ok}
use lne.Ring.{null, has}
use lne.ExtendObject.History.{RefOp, adds, releases, holders}
use lne.DataBlock.{Sizes, DataBlock, set_size, free_size, buffer_free, buffer_end}
use lne.DataBlock.Bounds.{IsValid, set_size-received}
use lne.DataBlock.Pool.{DataBlockPool, alloc, append_cache, cache_size, first_block, stride}
use lne.DataBlock.Pool.Inv.{Inv}
use lne.DataBlock.Pool.Alloc.{IsNew, alloc-Inv}
use lne.DataBlock.Pool.Layout.{Placed, HasEntry, append_cache_layout}

abbrev history : List RefOp
history = adds ∷ releases ∷ releases ∷ []

history-holders : holders 1 history ≡ some 0
unfolding holders
history-holders = refl

-- A block of 1024 bytes at 4000 that holds 24.
abbrev half_full : DataBlock
half_full = record { reference = 1; size = 24; buffer = 4032; capacity = 1024; pool = 900 }

half_full-IsValid : IsValid half_full
half_full-IsValid = record { within = omega arith; fits = omega arith }

all_free : 1000 ≤ free_size half_full
unfolding free_size
all_free = omega arith

set_size-received_example :
    let out = set_size (24 + 1000) half_full in
    (out.1 ≡ lnerr_ok)
    × (out.0.size ≡ 24 + 1000)
    × (buffer_free half_full + 1000 ≤ buffer_end half_full)
set_size-received_example = set_size-received 1000 half_full half_full-IsValid all_free

abbrev sizes : Sizes
sizes = record {
  sizeof_data_block = 32;
  sizeof_data_block_pool = 64;
  sizeof_block_cache = 8;
  sizeof_block_queue = 16;
}

-- A pool at 900 with one block spare, at 4000, and one handed out, at 5056.
abbrev pool : DataBlockPool
pool = record {
  self = 900;
  reference = 2;
  capacity = 1024;
  cache_blocks = 2;
  cache_head = [];
  queue_head = record { cell = 10; block = 4000 } ∷ [];
  queue_free = record { cell = 26; block = 5056 } ∷ [];
  block = λ a. record { reference = 1; size = 0; buffer = a + 32; capacity = 1024; pool = 900 };
  destroyed = false;
}

pool-Inv : Inv pool 1 (5056 ∷ [])
pool-Inv = record {
  refs = refl;
  small = omega arith;
  cells = refl;
  distinct = ground arith;
  owned = λ a i. (refl, refl);
  ready = λ a i. (refl, refl);
}

alloc-Inv_example :
    let (p', b) = alloc sizes null pool in
    ((pool.queue_head ≡ []) × (null ≡ null) × (p' ≡ pool) × (b ≡ null))
    ⊎ ((b ≢ null) × (has b (5056 ∷ []) ≡ false) × Inv p' 1 (b ∷ 5056 ∷ []) × IsNew p' b)
alloc-Inv_example =
    alloc-Inv sizes null pool 1 (5056 ∷ []) (omega arith) (omega arith) (λ ne. absurd (ne refl))
      (omega arith) pool-Inv

append_cache_layout_example :
    let q = append_cache sizes 7000 pool in
    let a = first_block sizes 7000 pool + 1 * stride sizes pool in
    let cell = 7000 + 8 + 1 * 16 in
    Placed sizes pool (q.block a) a
    × HasEntry sizes (record { cell = cell; block = a }) q.queue_head
    × (cell + 16 ≤ first_block sizes 7000 pool)
    × ((q.block a).buffer + (q.block a).capacity
        ≡ first_block sizes 7000 pool + (1 + 1) * stride sizes pool)
    × ((q.block a).buffer + (q.block a).capacity ≤ 7000 + cache_size sizes pool)
append_cache_layout_example =
    append_cache_layout sizes 7000 pool 1 (omega arith) (omega arith) (omega arith)
