-- ===== src/DataBlock.antt =====
-- lne/DataBlock.h and lne/DataBlock.cpp: buffers of bytes, and a pool that recycles them. The bytes
-- themselves are not modelled; addresses are. `malloc` is an argument, the address that it returns,
-- zero when it fails. The build is the one with NDEBUG.
pub mod Bounds
pub mod Pool
use lne.Prelude.{
  ℕ, ◌+◌, ◌-◌, ◌%◌, ◌<◌, ◌≤◌, Bool, true, false, Option, none, some, ◌==◌, ltb, leb, if◌then◌else◌,
}
use lne.Config.{Status, lnerr_ok, lnerr_parameter}
use lne.Ring.{Ptr, null}
use lne.ExtendObject.{u32_mod}

-- The sizes that the compiler gives the classes.
pub record Sizes : Type 0 where
  pub sizeof_data_block : ℕ
  pub sizeof_data_block_pool : ℕ
  pub sizeof_block_cache : ℕ
  pub sizeof_block_queue : ℕ

pub record DataBlock : Type 0 where
  pub reference : ℕ
  pub size : ℕ
  pub buffer : Ptr
  pub capacity : ℕ
  pub pool : Ptr

abbrev pub default_capacity : ℕ
default_capacity = 1500

unfoldable pub new_data_block : DataBlock
new_data_block = record { reference = 1; size = 0; buffer = null; capacity = 0; pool = null }

-- `DataBlock::NewInstance`: the block at the address `memory`, unless that is null.
unfoldable pub new_instance : Sizes → ℕ → Ptr → Option DataBlock
unfolding new_data_block
new_instance s capacity memory =
    if ltb 0 capacity
    then (if memory == null
        then none
        else some
            (record new_data_block { capacity = capacity; buffer = memory + s.sizeof_data_block }))
    else none

unfoldable pub is_full : DataBlock → Bool
is_full b = b.size == b.capacity

unfoldable pub is_empty : DataBlock → Bool
is_empty b = b.size == 0

unfoldable pub buffer_free : DataBlock → Ptr
buffer_free b = b.buffer + b.size

unfoldable pub buffer_end : DataBlock → Ptr
buffer_end b = b.buffer + b.capacity

-- An unsigned difference.
unfoldable pub free_size : DataBlock → ℕ
free_size b = (b.capacity + u32_mod - b.size) % u32_mod

unfoldable pub set_size : ℕ → DataBlock → DataBlock × Status
set_size size b =
    if leb size b.capacity then (record b { size = size }, lnerr_ok) else (b, lnerr_parameter)
