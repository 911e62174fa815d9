-- ===== src/SockSpray/Pool.antt =====
-- lne/SockSpray.cpp: the pool of the connections.
pub mod Life
pub mod Items
pub mod Given
pub mod Kept
pub mod History
use lne.Prelude.{
  ◌<◌, update, ℕ, ◌≡◌, ◌≢◌, ◌==◌, ==_of_ne, ◌&&◌, not, ltb, refl, sym, subst, ap, ◌∙◌, Bool-cases,
  ==_iff, [], ◌∷◌, Bool, true, false, some, none, Option, inl, inr, if◌then◌else◌, arith,
}
use lne.Ring.{Ptr, null, has}
use lne.ExtendObject.{RefObject, new_ref_object, add_ref}
use lne.ObjectStack.{ObjectStack}
use lne.ObjectQueue.{ObjectQueue}
use lne.SockPad
use lne.SockPad.{SockPad}
use lne.SockPad.Accounts.{close-is_valid}
use lne.ObjectList.Free.{Fresh}
use lne.SockEventer.{SockEventerPool, push_object}
use lne.SockEventer.Alloc.{Kind, Allocated, alloc, is_new, Gives, alloc-Gives}
use lne.SockEventer.Pooled.{Pooled, Pooled-IsClean, alloc-Pooled, give_back-Pooled}
use lne.SockSpray.{SockSpray, new_sock_spray, clean}

pub record SockSprayPool : Type 0 where
  pub eventers : SockEventerPool
  pub data_pool : Ptr
  pub limit_write_cache : ℕ

-- `SockSprayPool::NewInstance`, with the references of the data pool. The Boolean is whether `new`
-- gets memory, `objects` is the new stack.
unfoldable pub new_instance :
    Bool → Ptr → ℕ → ℕ → ObjectStack Ptr → RefObject → Option SockSprayPool × RefObject
new_instance memory data_pool limit_write_cache limit_cache objects data_ref =
    if not (data_pool == null) && ltb 0 limit_write_cache
    then (if memory
        then (
          some (record {
            eventers = record {
              ref = new_ref_object;
              limit_cache = limit_cache;
              objects = objects;
            };
            data_pool = data_pool;
            limit_write_cache = limit_write_cache;
          }),
          add_ref data_ref,
        )
        else (none, data_ref))
    else (none, data_ref)

unfoldable pub sprays : ℕ → ObjectQueue Ptr → Ptr → Kind SockSpray
sprays limit_write_cache send_blocks handler = record {
  fresh = new_sock_spray limit_write_cache send_blocks;
  get_pad = λ s. s.skpad;
  set_pad = λ pad s. record s { skpad = pad; handler = handler };
}

abbrev pub kind_of : ObjectQueue Ptr → Ptr → SockSprayPool → Kind SockSpray
kind_of send_blocks handler p = sprays p.limit_write_cache send_blocks handler

-- `SockSprayPool::Alloc`. `send_blocks` is the queue that a new connection makes, and a new
-- connection holds the data pool, whose references are `data_ref`.
unfoldable pub alloc_spray :
    Ptr
    → ObjectQueue Ptr
    → RefObject
    → SockPad
    → Ptr
    → SockSprayPool
    → (Ptr → SockSpray)
    → Allocated SockSpray × RefObject
alloc_spray memory send_blocks data_ref skpad handler p store =
    let kind = sprays p.limit_write_cache send_blocks handler in
    if SockPad.is_valid skpad && not (handler == null)
    then (
      alloc kind memory skpad p.eventers store,
      if is_new memory p.eventers then add_ref data_ref else data_ref,
    )
    else (
      record { pool = p.eventers; object = null; store = store; closed = (SockPad.close skpad).1 },
      data_ref,
    )

module _ (memory : Ptr) (send_blocks : ObjectQueue Ptr) (data_ref : RefObject) (skpad : SockPad)
    (sock : ℕ) (handler : Ptr) (p : SockSprayPool) (store : Ptr → SockSpray) where
  valid : skpad.socket ≡ some sock → SockPad.is_valid skpad ≡ true
  unfolding SockPad.is_valid
  valid e = ground (arith, e)

  alloc_spray-checked :
      skpad.socket ≡ some sock
      → handler ≢ null
      → (alloc_spray memory send_blocks data_ref skpad handler p store).0
        ≡ alloc (kind_of send_blocks handler p) memory skpad p.eventers store
  unfolding alloc_spray
  alloc_spray-checked e h = simp (valid e, ==_of_ne handler null h) refl

  alloc_spray-null :
      skpad.socket ≡ some sock
      → handler ≡ null
      → (alloc_spray memory send_blocks data_ref skpad handler p store).0
        ≡ record { pool = p.eventers; object = null; store = store; closed = sock ∷ [] }
  unfolding alloc_spray SockPad.close SockPad.closing
  alloc_spray-null e h = simp (valid e, e, h) refl

  alloc_spray-invalid :
      skpad.socket ≡ none
      → (alloc_spray memory send_blocks data_ref skpad handler p store).0
        ≡ record { pool = p.eventers; object = null; store = store; closed = [] }
  unfolding alloc_spray SockPad.is_valid SockPad.close SockPad.closing
  alloc_spray-invalid e = ground (arith, e)

  -- The socket that `Alloc` is given is in the connection that it answers, and the pool is held once
  -- more; or there is no connection, the socket is closed, and the pool is held as before, which is
  -- so whenever the handler is null. The pool holds connections without a socket, before and after.
  pub alloc_spray-Gives :
      Pooled (kind_of send_blocks handler p) store p.eventers
      → skpad.socket ≡ some sock
      → let out = (alloc_spray memory send_blocks data_ref skpad handler p store).0 in
        Gives (kind_of send_blocks handler p) skpad sock p.eventers out
        × (handler ≡ null → out.object ≡ null)
        × Pooled (kind_of send_blocks handler p) out.store out.pool
  unfolding sprays new_sock_spray SockPad.new_sock_pad
  alloc_spray-Gives v e =
      let kind = kind_of send_blocks handler p in
      let Result = λ (out : Allocated SockSpray).
        Gives kind skpad sock p.eventers out
        × (handler ≡ null → out.object ≡ null)
        × Pooled kind out.store out.pool in
      elim (Bool-cases (handler == null)) [
        | inl b ↦
            let h = (==_iff handler null).0 b in
            subst Result (sym (alloc_spray-null e h)) (inl (refl, refl, refl), (λ _. refl), v)
        | inr b ↦
            let h : handler ≢ null = (λ q. false_true (sym b ∙ ap (λ x. x == null) q)) in
            subst Result (sym (alloc_spray-checked e h)) (
              alloc-Gives kind memory skpad sock p.eventers store (refl, λ pad s. refl)
                  (Pooled-IsClean kind store p.eventers v) e,
              (λ q. absurd (h q)),
              alloc-Pooled kind memory skpad store p.eventers v,
            )
      ]
    where
      false_true : false ≡ true → ⊥
      false_true e = cc

-- A connection that went through its pool is as good as a new one, when the limit of its pool did not
-- change: `Alloc` makes the same of both, save for the nodes of the queue, and has no socket to
-- close.
pub clean-as_new :
    (fuel : ℕ) (send_blocks : ObjectQueue Ptr) (handler : Ptr) (pad : SockPad) (s : SockSpray)
    → let kind = sprays s.limit_write_cache send_blocks handler in
      let cleaned = (clean fuel s).0 in
      (kind.set_pad pad cleaned
        ≡ record (kind.set_pad pad kind.fresh) { send_blocks = cleaned.send_blocks })
      × ((kind.get_pad cleaned).socket ≡ none)
unfolding clean sprays new_sock_spray SockPad.is_valid SockPad.close
clean-as_new fuel send_blocks handler pad s = (refl, (close-is_valid s.skpad).0)

-- A connection that its last `Release` cleans and gives back: its pool stays one of connections
-- without a socket, so that what `Alloc` relies on holds over the whole life of the pool.
pub clean-Pooled :
    (cache_nodes : ℕ) (memory object : Ptr) (fuel : ℕ) (send_blocks : ObjectQueue Ptr)
    (handler : Ptr) (p : SockSprayPool) (store : Ptr → SockSpray)
    (v : Pooled (kind_of send_blocks handler p) store p.eventers)
    → 0 < cache_nodes
    → (memory ≢ null → Fresh 0 cache_nodes memory v.held.nodes)
    → object ≢ null
    → has object v.items ≡ false
    → Pooled
        (kind_of send_blocks handler p)
        (update store object (clean fuel (store object)).0)
        (push_object cache_nodes memory object p.eventers).0
unfolding sprays clean SockPad.is_valid SockPad.close
clean-Pooled cache_nodes memory object fuel send_blocks handler p store v some_nodes fresh ne
      apart =
    give_back-Pooled (kind_of send_blocks handler p) cache_nodes memory object
      (clean fuel (store object)).0 store p.eventers v some_nodes fresh ne apart
      (close-is_valid (store object).skpad).0
