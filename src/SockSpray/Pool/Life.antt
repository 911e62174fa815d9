-- ===== src/SockSpray/Pool/Life.antt =====
-- lne/SockSpray.cpp and lne/SockEventer.cpp: the pool of the connections as its holders and the
-- connections in use see it, from one call to the next. `memory` and `nodes` are what `new` and
-- `malloc` answer, zero for none.
use lne.Ring.Distinct.{without}
use lne.Prelude.{
  ℕ, suc, ◌+◌, ◌-◌, ◌<◌, ◌==◌, ◌≡◌, ◌≢◌, Bool, true, false, List, [], ◌∷◌, ◌++◌, length, update,
  if◌then◌else◌,
}
use lne.Ring.{Ptr, null, has}
use lne.ExtendObject.{RefObject, u32_mod, add_ref, release}
use lne.ObjectList.Free.{Fresh}
use lne.ObjectStack.{Holds}
use lne.ObjectQueue.{ObjectQueue}
use lne.SockPad.{SockPad, closing}
use lne.SockEventer.{push_object, delete_loop}
use lne.SockSpray.{SockSpray, clean}
use lne.SockSpray.Pool.{SockSprayPool, alloc_spray}

-- `users` are the connections that `Alloc` gave out and that are not destroyed yet, `cached` those
-- that the pool keeps, and `holders` how many references to the pool others have. `opened` and
-- `closed` are the sockets that `Alloc` was given and those that were closed, `data_ref` the
-- references of the data pool, and `alive` whether the pool is not yet destroyed.
pub record Life : Type 0 where
  pub store : Ptr → SockSpray
  pub pool : SockSprayPool
  pub data_ref : RefObject
  pub alive : Bool
  pub users : List Ptr
  pub cached : List Ptr
  pub holders : ℕ
  pub opened : List ℕ
  pub closed : List ℕ

-- `Alloc`; the last `Release` of a connection; a `HandleBind` that fails, which cleans the
-- connection; `AddRef` and `Release` of the pool.
pub data Op : Type 0 where
  allocs : (memory : Ptr) (send_blocks : ObjectQueue Ptr) (skpad : SockPad) (handler : Ptr) → Op
  ends : (cache_nodes : ℕ) (nodes : Ptr) (fuel : ℕ) (object : Ptr) → Op
  fails : (fuel : ℕ) (object : Ptr) → Op
  holds leaves : Op

-- `~SockSpray`, for each connection that is deleted.
unfoldable pub delete_sprays : List Ptr → RefObject → RefObject
delete_sprays [] data_ref = data_ref
delete_sprays (_ ∷ objects) data_ref = delete_sprays objects (release data_ref).0

-- `~SockSprayPool`, and then `~SockEventerPool`.
unfoldable pub destroy_pool : Life → Life
unfolding delete_sprays
destroy_pool l = record l {
  alive = false;
  cached = [];
  data_ref =
      delete_sprays (delete_loop (suc (length l.cached)) null l.pool.eventers.objects)
        (release l.data_ref).0;
}

unfoldable pub destroy_if : Bool → Life → Life
unfolding destroy_pool
destroy_if last l = if last then destroy_pool l else l

abbrev pub given_out : Ptr → List Ptr → List Ptr
given_out object users = if object == null then users else object ∷ users

unfoldable pub alloc_step : Ptr → ObjectQueue Ptr → SockPad → Ptr → Life → Life
alloc_step memory send_blocks skpad handler l =
    let out = alloc_spray memory send_blocks l.data_ref skpad handler l.pool l.store in
    record l {
      store = out.0.store;
      pool = record (l.pool) { eventers = out.0.pool };
      data_ref = out.1;
      users = given_out out.0.object l.users;
      cached = without out.0.object l.cached;
      opened = closing skpad.socket ++ l.opened;
      closed = out.0.closed ++ l.closed;
    }

-- `SockEventer::ObjectDestroy` of a connection, and what is left if the pool is not destroyed by it.
unfoldable pub taken_back : ℕ → Ptr → ℕ → Ptr → Life → Life
unfolding delete_sprays
taken_back cache_nodes nodes fuel object l =
    let cleaned = clean fuel (l.store object) in
    let out = push_object cache_nodes nodes object l.pool.eventers in
    record l {
      store = update l.store object cleaned.0;
      pool = record (l.pool) { eventers = out.0 };
      data_ref = delete_sprays out.1 l.data_ref;
      users = without object l.users;
      cached = if has object out.1 then l.cached else l.cached ++ object ∷ [];
      closed = cleaned.2 ++ l.closed;
    }

unfoldable pub end_step : ℕ → Ptr → ℕ → Ptr → Life → Life
unfolding taken_back destroy_if
end_step cache_nodes nodes fuel object l =
    let out = push_object cache_nodes nodes object l.pool.eventers in
    destroy_if out.2 (taken_back cache_nodes nodes fuel object l)

unfoldable pub fail_step : ℕ → Ptr → Life → Life
fail_step fuel object l =
    let cleaned = clean fuel (l.store object) in
    record l { store = update l.store object cleaned.0; closed = cleaned.2 ++ l.closed }

-- The `Release` of a holder, before the pool is destroyed by it.
unfoldable pub given_up : Life → Life
given_up l = record l {
  pool = record (l.pool) {
    eventers = record (l.pool.eventers) { ref = (release l.pool.eventers.ref).0 };
  };
  holders = l.holders - 1;
}

unfoldable pub apply : Op → Life → Life
unfolding alloc_step end_step fail_step given_up destroy_if
apply (allocs memory send_blocks skpad handler) l = alloc_step memory send_blocks skpad handler l
apply (ends cache_nodes nodes fuel object) l = end_step cache_nodes nodes fuel object l
apply (fails fuel object) l = fail_step fuel object l
apply holds l = record l {
  pool = record (l.pool) {
    eventers = record (l.pool.eventers) { ref = add_ref l.pool.eventers.ref };
  };
  holders = l.holders + 1;
}
apply leaves l = destroy_if (release l.pool.eventers.ref).1 (given_up l)

unfoldable pub run : List Op → Life → Life
run [] l = l
run (o ∷ ops) l = run ops (apply o l)

-- What the callers and the memory promise of one call: only who has a reference uses it, an address
-- that `new` answers is no other connection's, nodes that `malloc` answers are no other nodes, and
-- the two counters have room.
abbrev pub IsAllowed : Op → Life → Type 0
IsAllowed (allocs memory send_blocks skpad handler) l =
    (0 < l.holders)
    × (has memory (l.users ++ l.cached) ≡ false)
    × (l.pool.eventers.ref.reference + 1 < u32_mod)
    × (l.data_ref.reference + 1 < u32_mod)
IsAllowed (ends cache_nodes nodes fuel object) l =
    (has object l.users ≡ true)
    × (0 < cache_nodes)
    × ((held : Holds l.pool.eventers.objects l.cached)
        → nodes ≢ null
        → Fresh 0 cache_nodes nodes held.nodes)
IsAllowed (fails fuel object) l = has object l.users ≡ true
IsAllowed holds l = (0 < l.holders) × (l.pool.eventers.ref.reference + 1 < u32_mod)
IsAllowed leaves l = 0 < l.holders

abbrev pub AreAllowed : List Op → Life → Type 0
AreAllowed [] l = Unit {0}
AreAllowed (o ∷ ops) l = IsAllowed o l × AreAllowed ops (apply o l)
