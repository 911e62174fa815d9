-- ===== src/DataBlock/Bounds.antt =====
-- The size of a block of lne/DataBlock.h never passes its capacity.
use lne.Prelude.{ℕ, ◌+◌, ◌<◌, ◌≤◌, ◌≡◌, true, ◌↔◌, arith, leb, if◌then◌else◌}
use lne.Config.{lnerr_ok}
use lne.ExtendObject.{u32_mod}
use lne.DataBlock.{DataBlock, is_full, buffer_free, buffer_end, free_size, set_size}

pub record IsValid (b : DataBlock) : Type 0 where
  pub within : b.size ≤ b.capacity
  pub fits : b.capacity < u32_mod

-- The free bytes are those from `buffer_free` up to `buffer_end`, and there are none exactly when
-- the block is full.
pub free_size_lem :
    (b : DataBlock)
    → IsValid b
    → (buffer_free b + free_size b ≡ buffer_end b) × ((is_full b ≡ true) ↔ (free_size b ≡ 0))
unfolding buffer_free buffer_end free_size is_full
free_size_lem b v = ground arith

-- `set_size` takes a size up to the capacity and refuses any other, and leaves a valid block; the
-- buffer and its capacity stay.
pub set_size-IsValid :
    (size : ℕ) (b : DataBlock)
    → IsValid b
    → let out = set_size size b in
      IsValid out.0
      × ((out.1 ≡ lnerr_ok) ↔ (size ≤ b.capacity))
      × (out.0.size ≡ (if leb size b.capacity then size else b.size))
      × (out.0.capacity ≡ b.capacity)
      × (out.0.buffer ≡ b.buffer)
unfolding set_size
set_size-IsValid size b v = ground arith

-- `recv` into the free part and the `set_size` that follows never leave the buffer.
pub set_size-received :
    (len : ℕ) (b : DataBlock)
    → IsValid b
    → len ≤ free_size b
    → let out = set_size (b.size + len) b in
      (out.1 ≡ lnerr_ok) × (out.0.size ≡ b.size + len) × (buffer_free b + len ≤ buffer_end b)
unfolding set_size free_size buffer_free buffer_end
set_size-received len b v h = ground arith
