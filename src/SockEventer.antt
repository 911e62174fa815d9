-- ===== src/SockEventer.antt =====
-- lne/SockEventer.h and lne/SockEventer.cpp: what the reactor knows of a connection, and the pool of
-- those that may be used again.
pub mod Reuse
pub mod Alloc
pub mod Pooled
use lne.Prelude.{ℕ, ◌==◌, Bool, true, false, List, [], ◌∷◌, ltb, if◌then◌else◌}
use lne.Config.{is_ok}
use lne.Ring.{Ptr, null}
use lne.ExtendObject.{RefObject, add_ref, set_ref, release}
use lne.ObjectStack
use lne.ObjectStack.{ObjectStack}

pub record SockEventer : Type 0 where
  pub ref : RefObject
  pub poller : Ptr
  pub prev : Ptr
  pub next : Ptr
  pub active : ℕ
  pub context : Ptr
  pub pool : Ptr

pub record SockEventerPool : Type 0 where
  pub ref : RefObject
  pub limit_cache : ℕ
  pub objects : ObjectStack Ptr

abbrev pub default_limit_cache : ℕ
default_limit_cache = 128

-- The constructor; it leaves `active` and `context` as they were in the memory it got.
unfoldable pub new_sock_eventer : Ptr → RefObject → ℕ → Ptr → SockEventer
new_sock_eventer pool ref active context = record {
  ref = ref;
  poller = null;
  prev = null;
  next = null;
  active = active;
  context = context;
  pool = pool;
}

-- `ObjectDestroy` without `Clean`: the eventer is made new for its pool, to be pushed there, or it
-- is deleted, which the Boolean tells.
unfoldable pub object_destroy : SockEventer → SockEventer × Bool
object_destroy e = if e.pool == null then (e, true) else (
  record e { ref = set_ref 1 e.ref; poller = null; prev = null; next = null; context = null },
  false,
)

-- `PushObject`: the pool, the objects deleted, and whether the pool is destroyed. `memory` is what
-- `malloc` answers if the stack needs more.
unfoldable pub push_object : ℕ → Ptr → Ptr → SockEventerPool → SockEventerPool × List Ptr × Bool
push_object cache_nodes memory object p =
    let out = ObjectStack.push cache_nodes memory object p.objects in
    let rel = release p.ref in
    if ltb p.limit_cache (ObjectStack.count p.objects)
    then (record p { ref = rel.0 }, object ∷ [], rel.1)
    else (if is_ok out.1
        then (record p { ref = rel.0; objects = out.0 }, [], rel.1)
        else (record p { ref = rel.0; objects = out.0 }, object ∷ [], rel.1))

unfoldable pub pop_object : SockEventerPool → SockEventerPool × Ptr
pop_object p =
    let out = ObjectStack.pop null p.objects in
    let object = if is_ok out.2 then out.1 else null in
    if object == null
    then (record p { objects = out.0 }, object)
    else (record p { objects = out.0; ref = add_ref p.ref }, object)

-- The pool's destructor deletes what the stack holds, on fuel for the loop.
unfoldable pub delete_loop : ℕ → Ptr → ObjectStack Ptr → List Ptr
delete_loop ℕ.zero object s = []
delete_loop (ℕ.suc fuel) object s =
    let out = ObjectStack.pop object s in
    let rest = delete_loop fuel out.1 out.0 in if is_ok out.2 then out.1 ∷ rest else []
