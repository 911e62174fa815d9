-- ===== src/DataBlock/Pool/Inv.antt =====
-- What holds of a pool between calls: every block is spare or handed out, and once only.
use lne.Prelude.{ℕ, ◌+◌, ◌≡◌, ◌<◌, true, List, [], ◌∷◌, ◌++◌, length}
use lne.Ring.{Ptr, has, Distinct}
use lne.ExtendObject.{u32_mod}
use lne.DataBlock.Pool.{DataBlockPool, BlockQueue}

abbrev pub blocks : List BlockQueue → List Ptr
blocks [] = []
blocks (q ∷ qs) = q.block ∷ blocks qs

-- The blocks `out` are handed out, and `held` others hold a reference to the pool.
pub record Inv (p : DataBlockPool) (held : ℕ) (out : List Ptr) : Type 0 where
  pub refs : p.reference ≡ held + length out
  pub small : p.reference < u32_mod
  pub cells : length p.queue_free ≡ length out
  pub distinct : Distinct (blocks p.queue_head ++ out)
  pub owned :
      (a : Ptr)
      → has a (blocks p.queue_head ++ out) ≡ true
      → ((p.block a).pool ≡ p.self) × ((p.block a).capacity ≡ p.capacity)
  pub ready :
      (a : Ptr)
      → has a (blocks p.queue_head) ≡ true
      → ((p.block a).size ≡ 0) × ((p.block a).reference ≡ 1)
