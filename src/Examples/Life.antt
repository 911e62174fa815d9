-- ===== src/Examples/Life.antt =====
-- A pool of one block, from its creation to its destruction.
use lne.Prelude.{◌+◌, ◌==◌, ◌≡◌, refl, some, List, [], ◌∷◌, length, arith}
use lne.Ring.{Ptr, null}
use lne.DataBlock.{Sizes, DataBlock, new_data_block}
use lne.DataBlock.Pool.{
  DataBlockPool, new_pool, append_block, append_loop, append_cache, refill, add_ref, release,
  take_block, alloc, free, block_destroy, block_release,
}
use lne.DataBlock.Pool.Inv.{Inv}
use lne.DataBlock.Pool.History.{
  History, Op, allocs, gives, holds, leaves, step, run, created, AllPermitted, given_out,
  given_back,
}
use lne.DataBlock.Pool.History.Whole.{run-new_pool}

abbrev sizes : Sizes
sizes = record {
  sizeof_data_block = 32;
  sizeof_data_block_pool = 64;
  sizeof_block_cache = 8;
  sizeof_block_queue = 16;
}

abbrev nothing_yet : Ptr → DataBlock
unfolding new_data_block
nothing_yet a = new_data_block

-- The block is at 988. The pool outlives its holders until the block is back.
abbrev calls : List Op
calls = allocs null ∷ holds ∷ leaves ∷ leaves ∷ gives 988 ∷ []

calls-AllPermitted : AllPermitted sizes calls (created (new_pool sizes 1024 1 900 nothing_yet))
unfolding new_pool append_block append_loop append_cache refill add_ref release take_block alloc
    free block_destroy block_release step given_out given_back new_data_block
calls-AllPermitted = (
  (omega arith, (λ e. absurd (e refl)), omega arith),
  ((omega arith, omega arith), (omega arith, (omega arith, ((refl, refl), tt)))),
)

run-new_pool_example :
    (p : DataBlockPool) × (h : History) × (new_pool sizes 1024 1 900 nothing_yet ≡ some p)
    × (run sizes calls (record { pool = p; held = 1; out = [] }) ≡ some h)
    × Inv h.pool h.held h.out
    × (h.pool.destroyed ≡ (h.held + length h.out == 0))
run-new_pool_example =
    run-new_pool sizes 1024 1 900 nothing_yet calls (omega arith) (omega arith) (omega arith)
      (λ e. absurd (omega (arith, e))) calls-AllPermitted
