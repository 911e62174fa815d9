-- ===== src/Thread/Joined.antt =====
-- lne/Thread.cpp: the threads that a thread object starts and joins.
use lne.Prelude.{ℕ, ◌+◌, ◌≡◌, arith, Bool, true, false, List, [], ◌∷◌, ◌++◌, if◌then◌else◌}
use lne.Thread.{
  Available, Event, created, joined, active, wait, release, is_available, set_available,
}

-- `Active`, with the answer of `pthread_create`, or `Wait`.
pub data Op : Type 0 where
  activates : (create_ok : Bool) → Op
  waits : Op

unfoldable pub apply : Op → Available → Available × List Event
apply (activates create_ok) t = let out = active create_ok t in (out.0, out.2)
apply waits t = let out = wait t in (out.0, out.2)

-- The calls one after the other, and the destructor, which waits.
unfoldable pub life : List Op → Available → List Event
unfolding apply
life [] t = release t
life (o ∷ ops) t = let out = apply o t in out.1 ++ life ops out.0

abbrev pub created_count : List Event → ℕ
created_count [] = 0
created_count (created ∷ es) = 1 + created_count es
created_count (_ ∷ es) = created_count es

abbrev pub joined_count : List Event → ℕ
joined_count [] = 0
joined_count (joined ∷ es) = 1 + joined_count es
joined_count (_ ∷ es) = joined_count es

-- However often a thread object is activated and waited for, until its destructor waits too: as many
-- threads are joined as the system made, besides the one that ran at the beginning.
pub life-joined :
    (ops : List Op) (t : Available)
    → joined_count (life ops t) ≡ created_count (life ops t) + (if t.available then 1 else 0)
unfolding life apply active wait release is_available set_available
life-joined [] t = ground arith
life-joined (activates ok ∷ ops) t =
    ground (arith, life-joined ops (record { available = true }), life-joined ops t)
life-joined (waits ∷ ops) t =
    ground (arith, life-joined ops (record { available = false }), life-joined ops t)
