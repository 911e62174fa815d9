-- ===== src/DataBlock/Pool/History.antt =====
-- lne/DataBlock.cpp: a pool of blocks as its holders and the users of its blocks see it, from one
-- call to the next. `memory` is what `malloc` answers, zero for none.
pub mod Whole
use lne.Ring.Distinct.{without}
use lne.Prelude.{
  ℕ, zero, suc, ◌+◌, ◌-◌, ◌<◌, ◌==◌, ◌≡◌, ◌≢◌, refl, sym, ap, subst, ◌∙◌, Bool, true, false, Option,
  none, some, List, [], ◌∷◌, ◌++◌, length, length-append, arith, inl, inr, if◌then◌else◌, ltb,
  ==_self, ==_of_ne, Bool-cases,
}
use lne.Ring.{Ptr, null, has, Distinct}
use lne.Ring.Relink.{has-append}
use lne.Ring.Distinct.{Distinct-append_right}
use lne.ExtendObject.{u32_mod}
use lne.DataBlock.{Sizes}
use lne.DataBlock.Pool.{
  DataBlockPool, BlockQueue, stride, first_block, append_block, append_loop, append_cache, refill,
  take_block, add_ref, release, alloc, free, block_destroy, block_release,
}
use lne.DataBlock.Pool.Inv.{Inv, blocks}
use lne.DataBlock.Pool.Cache.{Unused}
use lne.DataBlock.Pool.Alloc.{alloc-Inv}
use lne.DataBlock.Pool.Free.{block_release-Inv}

-- `out` are the blocks that were handed out and not given back, `held` how many others have a
-- reference to the pool.
pub record History : Type 0 where
  pub pool : DataBlockPool
  pub held : ℕ
  pub out : List Ptr

-- `Alloc`; the last `Release` of a block; `AddRef` and `Release` of the pool.
pub data Op : Type 0 where
  allocs : (memory : Ptr) → Op
  gives : (block : Ptr) → Op
  holds leaves : Op

unfoldable pub given_out : DataBlockPool × Ptr → History → History
given_out out h =
    if out.1 == null
    then record h { pool = out.0 }
    else record h { pool = out.0; out = out.1 ∷ h.out }

unfoldable pub given_back : Ptr → History → Option DataBlockPool → Option History
given_back b h none = none
given_back b h (some p) = some (record h { pool = p; out = without b h.out })

-- One call. `none` is a fault.
unfoldable pub step : Sizes → Op → History → Option History
unfolding given_out given_back
step s (allocs memory) h = some (given_out (alloc s memory h.pool) h)
step s (gives b) h = given_back b h (block_release b h.pool)
step s holds h = some (record h { pool = add_ref h.pool; held = h.held + 1 })
step s leaves h = some (record h { pool = release h.pool; held = h.held - 1 })

unfoldable pub then_run : (History → Option History) → Option History → Option History
then_run f none = none
then_run f (some h) = f h

unfoldable pub run : Sizes → List Op → History → Option History
unfolding then_run
run s [] h = some h
run s (op ∷ ops) h = let rest = run s ops in then_run rest (step s op h)

-- Only who holds a reference uses the pool, a block is given back by who drops its last reference,
-- new memory is not in use, and the counter has room.
abbrev pub Permitted : Sizes → Op → History → Type 0
Permitted s (allocs memory) h =
    (0 < h.held)
    × (memory ≢ null
        → Unused h.pool.cache_blocks (stride s h.pool) (first_block s memory h.pool)
            (blocks h.pool.queue_head ++ h.out))
    × (h.pool.reference + 1 < u32_mod)
Permitted s (gives b) h = (has b h.out ≡ true) × ((h.pool.block b).reference ≡ 1)
Permitted s holds h = (0 < h.held) × (h.pool.reference + 1 < u32_mod)
Permitted s leaves h = 0 < h.held

-- From a history on, unless there was a fault.
abbrev pub AllPermitted : Sizes → List Op → Option History → Type 0
AllPermitted s ops none = Unit {0}
AllPermitted s [] (some h) = Unit {0}
AllPermitted s (op ∷ ops) (some h) = Permitted s op h × AllPermitted s ops (step s op h)

-- A pool as its creator holds it.
abbrev pub created : Option DataBlockPool → Option History
created none = none
created (some p) = some (record { pool = p; held = 1; out = [] })

-- Between calls: a valid state, and destroyed exactly when nobody holds the pool or a block of it.
pub record Valid (h : History) : Type 0 where
  pub inv : Inv h.pool h.held h.out
  pub ended : h.pool.destroyed ≡ (h.held + length h.out == 0)
  pub many : 0 < h.pool.cache_blocks
