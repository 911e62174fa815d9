-- ===== src/SockSpray/Pool/History.antt =====
-- lne/SockSpray.cpp and lne/SockEventer.cpp: histories of the calls of a pool of connections, from
-- the pool that `NewInstance` makes.
use lne.Prelude.{
  ℕ, ◌+◌, ◌<◌, ◌≡◌, refl, sym, subst, ap, ◌∙◌, true, false, some, List, [], ◌∷◌, arith, length, inl,
  inr, if◌then◌else◌, ltb,
}
use lne.Ring.{Ptr, has}
use lne.ExtendObject.{RefObject, u32_mod, new_ref_object, add_ref, release}
use lne.ObjectStack.{ObjectStack, Holds}
use lne.SockPad.Accounts.{count}
use lne.SockSpray.{SockSpray}
use lne.SockSpray.Pool.{SockSprayPool, new_instance}
use lne.SockSpray.Pool.Life.{
  Life, Op, allocs, ends, fails, holds, leaves, alloc_step, end_step, taken_back, fail_step, apply,
  given_up, run, IsAllowed, AreAllowed,
}
use lne.SockSpray.Pool.Items.{sockets}
use lne.SockSpray.Pool.Kept.{Live, Dead, Inv, settle-Inv, fail-Live, taken_back-Live, alloc-Live}

ends-Inv :
    (base : ℕ) (l : Life) (cache_nodes : ℕ) (nodes : Ptr) (fuel : ℕ) (a : Ptr)
    → IsAllowed (ends cache_nodes nodes fuel a) l
    → Live base l
    → Inv base (end_step cache_nodes nodes fuel a l)
unfolding end_step taken_back
ends-Inv base l cache_nodes nodes fuel a h v =
    let t = taken_back-Live base l cache_nodes nodes fuel a h v in
    settle-Inv base (taken_back cache_nodes nodes fuel a l) _ t.0 t.1

leaves-Inv : (base : ℕ) (l : Life) → 0 < l.holders → Live base l → Inv base (apply leaves l)
unfolding apply given_up release
leaves-Inv base l h v =
    settle-Inv base (given_up l) (release l.pool.eventers.ref).1
      (record {
        alive = v.alive;
        distinct = v.distinct;
        clean_cached = v.clean_cached;
        held = v.held;
        balance = v.balance;
        pool_refs = ground (arith, v.pool_refs);
        data_refs = v.data_refs;
      })
      (ground (arith, v.pool_refs))

holds-Live : (base : ℕ) (l : Life) → IsAllowed holds l → Live base l → Live base (apply holds l)
unfolding apply add_ref
holds-Live base l (h, room) v = record {
  alive = v.alive;
  distinct = v.distinct;
  clean_cached = v.clean_cached;
  held = v.held;
  balance = v.balance;
  pool_refs = ground (arith, v.pool_refs);
  data_refs = v.data_refs;
}

some_user : (a : Ptr) (us : List Ptr) → has a us ≡ true → 0 < length us
some_user a [] h = cc
some_user a (u ∷ us) h = omega arith

apply-Live : (base : ℕ) (o : Op) (l : Life) → IsAllowed o l → Live base l → Inv base (apply o l)
unfolding apply alloc_step fail_step
apply-Live base (allocs memory send_blocks skpad handler) l h v =
    inl (alloc-Live base l memory send_blocks skpad handler h v, omega (arith, h.0))
apply-Live base (ends cache_nodes nodes fuel a) l h v = ends-Inv base l cache_nodes nodes fuel a h v
apply-Live base (fails fuel a) l h v =
    inl (fail-Live base l fuel a h v, omega (arith, some_user a l.users h))
apply-Live base holds l h v = inl (holds-Live base l h v, omega arith)
apply-Live base leaves l h v = leaves-Inv base l h v

-- No call is allowed on a pool that was destroyed.
Dead-IsAllowed : (base : ℕ) (o : Op) (l : Life) → Dead base l → IsAllowed o l → ⊥
Dead-IsAllowed base (allocs memory send_blocks skpad handler) l d h =
    absurd (omega (arith, h.0, d.unused.0))
Dead-IsAllowed base (ends cache_nodes nodes fuel a) l d h =
    absurd (omega (arith, some_user a l.users h.0, ap length d.unused.1))
Dead-IsAllowed base (fails fuel a) l d h =
    absurd (omega (arith, some_user a l.users h, ap length d.unused.1))
Dead-IsAllowed base holds l d h = absurd (omega (arith, h.0, d.unused.0))
Dead-IsAllowed base leaves l d h = absurd (omega (arith, d.unused.0))

run-Inv :
    (base : ℕ) (ops : List Op) (l : Life) → AreAllowed ops l → Inv base l → Inv base (run ops l)
unfolding run
run-Inv base [] l h v = v
run-Inv base (o ∷ ops) l h (inl (v, _)) =
    run-Inv base ops (apply o l) h.1 (apply-Live base o l h.0 v)
run-Inv base (o ∷ ops) l h (inr d) = absurd (Dead-IsAllowed base o l d h.0)

-- The pool as `NewInstance` answers it, held by its caller.
unfoldable pub start : (Ptr → SockSpray) → SockSprayPool → RefObject → Life
start store pool data_ref = record {
  store = store;
  pool = pool;
  data_ref = data_ref;
  alive = true;
  users = [];
  cached = [];
  holders = 1;
  opened = [];
  closed = [];
}

-- The pool lives as long as it is held or one of its connections is in use, and counts them. Each
-- socket was closed, or a connection in use has it, as often as it was given. The data pool is held
-- as often as before, and by a living pool once for itself and once for each of its connections.
abbrev pub Settled : ℕ → Life → Type 0
Settled base l =
    (l.alive ≡ ltb 0 (l.holders + length l.users))
    × (l.alive ≡ true → l.pool.eventers.ref.reference ≡ l.holders + length l.users)
    × ((x : ℕ) → count x l.opened ≡ count x l.closed + count x (sockets l.store l.users))
    × (l.data_ref.reference ≡ base + (if l.alive then 1 + length l.users + length l.cached else 0))

Inv-Settled : (base : ℕ) (l : Life) → Inv base l → Settled base l
Inv-Settled base l (inl (v, n)) = (
  ground (arith, v.alive, n),
  (λ _. v.pool_refs),
  v.balance,
  ground (arith, v.alive, v.data_refs),
)
Inv-Settled base l (inr d) = (
  ground (arith, d.alive, d.unused.0, ap length d.unused.1),
  (λ e. absurd (false_true (sym d.alive ∙ e))),
  (λ x. d.balance x ∙ ground (arith, ap (sockets l.store) d.unused.1)),
  ground (arith, d.alive, d.data_refs),
)
  where
    false_true : false ≡ true → ⊥
    false_true e = cc

new_instance-Inv :
    (store : Ptr → SockSpray) (data_pool : Ptr) (limit_write_cache limit_cache : ℕ)
    (objects : ObjectStack Ptr) (data_ref after : RefObject) (pool : SockSprayPool)
    → Holds objects []
    → data_ref.reference + 1 < u32_mod
    → new_instance true data_pool limit_write_cache limit_cache objects data_ref
      ≡ (some pool, after)
    → Inv data_ref.reference (start store pool after)
unfolding new_instance start new_ref_object add_ref
new_instance-Inv store data_pool limit_write_cache limit_cache objects data_ref after pool h room
      e =
    let same : objects ≡ pool.eventers.objects = ground (arith, e) in
    inl (
      record {
        alive = refl;
        distinct = tt;
        clean_cached = λ a i. cc;
        held = subst (λ o. Holds o []) same h;
        balance = λ x. refl;
        pool_refs = ground (arith, e);
        data_refs = ground (arith, e);
      },
      omega arith,
    )

pub run-new_instance :
    (store : Ptr → SockSpray) (data_pool : Ptr) (limit_write_cache limit_cache : ℕ)
    (objects : ObjectStack Ptr) (data_ref after : RefObject) (pool : SockSprayPool) (ops : List Op)
    → Holds objects []
    → data_ref.reference + 1 < u32_mod
    → new_instance true data_pool limit_write_cache limit_cache objects data_ref
      ≡ (some pool, after)
    → AreAllowed ops (start store pool after)
    → Settled data_ref.reference (run ops (start store pool after))
run-new_instance store data_pool limit_write_cache limit_cache objects data_ref after pool ops h
      room e allowed =
    Inv-Settled data_ref.reference (run ops (start store pool after)) (
      run-Inv data_ref.reference ops (start store pool after) allowed (
        new_instance-Inv store data_pool limit_write_cache limit_cache objects data_ref after pool h
          room e))
