-- ===== src/SockSpray/Pool/Kept.antt =====
-- lne/SockSpray.cpp and lne/SockEventer.cpp: what a pool of connections keeps true from one call to
-- the next, and what its destruction leaves.
use lne.Ring.Distinct.{without, without-absent}
use lne.Prelude.{
  ℕ, suc, ◌+◌, ◌<◌, ◌==◌, ◌≡◌, ◌⊎◌, refl, sym, subst, ap, ◌∙◌, Bool, true, false, none, List, [],
  ◌∷◌, ◌++◌, arith, length, length-append, update, Bool-cases, inl, inr, if◌then◌else◌, ==_of_ne,
  ==_self,
}
use lne.Ring.{Ptr, null, has, Distinct}
use lne.Ring.Relink.{has-append}
use lne.Ring.Distinct.{
  Distinct-apart, Distinct-apart_right, Distinct-append_left, Distinct-append_right,
}
use lne.ExtendObject.{add_ref, release}
use lne.ObjectStack.{Holds}
use lne.ObjectQueue.{ObjectQueue}
use lne.SockPad.{SockPad, closing}
use lne.SockPad.Accounts.{count, count-append, close-is_valid}
use lne.SockEventer.{push_object, delete_loop}
use lne.SockSpray.{SockSpray, clean}
use lne.SockSpray.Pool.{alloc_spray}
use lne.SockSpray.Pool.Life.{
  Life, allocs, ends, delete_sprays, destroy_pool, destroy_if, alloc_step, taken_back, fail_step,
  IsAllowed,
}
use lne.SockSpray.Pool.Items.{
  sockets, has-without, length-without, Distinct-without, sockets-update, count-sockets-without,
  count-sockets-update, Distinct-moved, Distinct-without_right, null_absent, delete_sprays_lem,
  length-delete_loop,
}
use lne.SockSpray.Pool.Given.{alloc_spray-cases, push_object-Pushed}

-- What holds of a pool that is not destroyed; `base` is how many references to the data pool others
-- have.
pub record Live (base : ℕ) (l : Life) : Type 0 where
  pub alive : l.alive ≡ true
  pub distinct : Distinct (l.users ++ l.cached)
  pub clean_cached : (a : Ptr) → has a l.cached ≡ true → (l.store a).skpad.socket ≡ none
  pub held : Holds l.pool.eventers.objects l.cached
  pub balance : (x : ℕ) → count x l.opened ≡ count x l.closed + count x (sockets l.store l.users)
  pub pool_refs : l.pool.eventers.ref.reference ≡ l.holders + length l.users
  pub data_refs : l.data_ref.reference ≡ base + suc (length l.users + length l.cached)

-- What holds of one that is.
pub record Dead (base : ℕ) (l : Life) : Type 0 where
  pub alive : l.alive ≡ false
  pub unused : (l.holders ≡ 0) × (l.users ≡ [])
  pub balance : (x : ℕ) → count x l.opened ≡ count x l.closed
  pub data_refs : l.data_ref.reference ≡ base

abbrev pub Inv : ℕ → Life → Type 0
Inv base l = (Live base l × (0 < l.holders + length l.users)) ⊎ Dead base l

clean_socket :
    (fuel : ℕ) (s : SockSpray)
    → ((clean fuel s).0.skpad.socket ≡ none) × ((clean fuel s).2 ≡ closing s.skpad.socket)
unfolding clean
clean_socket fuel s = close-is_valid s.skpad

none_left : (us : List Ptr) → length us ≡ 0 → us ≡ []
none_left [] h = refl
none_left (u ∷ us) h = absurd (omega (arith, h))

-- Where the last reference is given back the pool is destroyed.
destroy-Dead :
    (base : ℕ) (l : Life)
    → Live base l
    → l.holders + length l.users ≡ 0
    → Dead base (destroy_pool l)
unfolding destroy_pool release
destroy-Dead base l v none_use =
    let users = none_left l.users (omega arith) in
    let n =
      length-delete_loop (suc (length l.cached)) null l.pool.eventers.objects l.cached (omega arith)
        v.held in
    record {
      alive = refl;
      unused = (omega arith, users);
      balance = λ x. v.balance x ∙ rw users (omega arith);
      data_refs = ground (
        arith,
        n,
        v.data_refs,
        delete_sprays_lem (delete_loop (suc (length l.cached)) null l.pool.eventers.objects)
            (release l.data_ref).0,
      );
    }

pub settle-Inv :
    (base : ℕ) (l : Life) (last : Bool)
    → Live base l
    → last ≡ (if l.holders + length l.users == 0 then true else false)
    → Inv base (destroy_if last l)
unfolding destroy_if
settle-Inv base l last v e = elim (Bool-cases (l.holders + length l.users == 0)) [
  | inl z ↦
      let t : last ≡ true = ground (arith, e, z) in
      simp t (inr (destroy-Dead base l v (ground (arith, z))))
  | inr z ↦ let t : last ≡ false = ground (arith, e, z) in simp t (inl (v, ground (arith, z)))
]

-- A connection is cleaned while it is in use.
pub fail-Live :
    (base : ℕ) (l : Life) (fuel : ℕ) (a : Ptr)
    → has a l.users ≡ true
    → Live base l
    → Live base (fail_step fuel a l)
unfolding fail_step closing
fail-Live base l fuel a h v = record {
  alive = v.alive;
  distinct = v.distinct;
  clean_cached =
      λ b i. ground (arith, v.clean_cached b, Distinct-apart l.users l.cached a v.distinct);
  held = v.held;
  balance = λ x.
      let c = clean_socket fuel (l.store a) in
      let users = Distinct-append_left l.users l.cached v.distinct in
      ground (
        arith,
        v.balance x,
        count-append x (clean fuel (l.store a)).2 l.closed,
        ap (count x) c.1,
        ap (λ o. count x (closing o)) c.0,
        count-sockets-update x l.store a (clean fuel (l.store a)).0 l.users h users,
      );
  pool_refs = v.pool_refs;
  data_refs = v.data_refs;
}

-- The last `Release` of a connection, before the pool is settled.
pub taken_back-Live :
    (base : ℕ) (l : Life) (cache_nodes : ℕ) (nodes : Ptr) (fuel : ℕ) (a : Ptr)
    → IsAllowed (ends cache_nodes nodes fuel a) l
    → Live base l
    → Live base (taken_back cache_nodes nodes fuel a l)
      × ((push_object cache_nodes nodes a l.pool.eventers).2
          ≡ (if l.holders + length (without a l.users) == 0 then true else false))
unfolding taken_back delete_sprays release closing
taken_back-Live base l cache_nodes nodes fuel a (h, pos, fresh) v =
    let out = push_object cache_nodes nodes a l.pool.eventers in
    let fewer = length-without a l.users h (Distinct-append_left l.users l.cached v.distinct) in
    let pushed =
      push_object-Pushed cache_nodes nodes a l.pool.eventers l.cached v.held pos (fresh v.held) in
    let c = clean_socket fuel (l.store a) in
    let users = Distinct-append_left l.users l.cached v.distinct in
    let balanced : (x : ℕ)
        → count x l.opened
          ≡ count x ((clean fuel (l.store a)).2 ++ l.closed)
            + count x (sockets (update l.store a (clean fuel (l.store a)).0) (without a l.users)) =
      λ x. ground (
        arith,
        v.balance x,
        count-append x (clean fuel (l.store a)).2 l.closed,
        ap (count x) c.1,
        count-sockets-without x l.store a l.users h users,
        ap (count x) (
            sockets-update l.store a (clean fuel (l.store a)).0 (without a l.users)
              (has-without a a l.users ∙ simp (==_self a) refl)),
      ) in
    (
      elim pushed.2 [
        | inl (gone, held) ↦
            simp (gone, ==_self a)
              (record {
                alive = v.alive;
                distinct = Distinct-without a l.users l.cached v.distinct;
                clean_cached = λ b i.
                    ground (arith, v.clean_cached b, Distinct-apart l.users l.cached a v.distinct);
                held = held;
                balance = balanced;
                pool_refs = ground (arith, ap (λ r. r.reference) pushed.0, v.pool_refs, fewer);
                data_refs = ground (arith, v.data_refs, fewer);
              })
        | inr (kept, held) ↦ simp kept (record {
          alive = v.alive;
          distinct = Distinct-moved a l.users l.cached h v.distinct;
          clean_cached =
              λ b i. ground (arith, c.0, v.clean_cached b, has-append b l.cached (a ∷ []));
          held = held;
          balance = balanced;
          pool_refs = ground (arith, ap (λ r. r.reference) pushed.0, v.pool_refs, fewer);
          data_refs = ground (arith, v.data_refs, fewer, length-append l.cached (a ∷ []));
        })
      ],
      ground (arith, pushed.1, v.pool_refs, fewer),
    )

-- A call of `Alloc`.
pub alloc-Live :
    (base : ℕ) (l : Life) (memory : Ptr) (send_blocks : ObjectQueue Ptr) (skpad : SockPad)
    (handler : Ptr)
    → IsAllowed (allocs memory send_blocks skpad handler) l
    → Live base l
    → Live base (alloc_step memory send_blocks skpad handler l)
unfolding alloc_step add_ref
alloc-Live base l memory send_blocks skpad handler (some_holder, fresh, few, room) v =
    let same =
      without-absent null l.cached
        (null_absent l.cached (Distinct-append_right l.users l.cached v.distinct)) in
    elim (alloc_spray-cases memory send_blocks l.data_ref skpad handler l.pool l.store l.cached
      v.held (Distinct-append_right l.users l.cached v.distinct) v.clean_cached room) [
        | inl (none_out, pool, store, closed, refs) ↦
            simp (none_out, pool, store, closed, refs)
              (record {
                alive = v.alive;
                distinct = subst (λ c. Distinct (l.users ++ c)) (sym same) v.distinct;
                clean_cached =
                    subst (λ k. (a : Ptr) → has a k ≡ true → (l.store a).skpad.socket ≡ none)
                      (sym same) v.clean_cached;
                held = subst (Holds l.pool.eventers.objects) (sym same) v.held;
                balance = λ x. ground (
                  arith,
                  v.balance x,
                  count-append x (closing skpad.socket) l.opened,
                  count-append x (closing skpad.socket) l.closed,
                );
                pool_refs = v.pool_refs;
                data_refs = ground (arith, v.data_refs, same);
              })
        | inr g ↦
            (let a =
                (alloc_spray memory send_blocks l.data_ref skpad handler l.pool l.store).0.object in
              let used : has a l.users ≡ false = elim g.source [
                | inl i ↦ Distinct-apart_right l.users l.cached a v.distinct i
                | inr e ↦
                    subst (λ b. has b l.users ≡ false) (sym e)
                      (ground (arith, fresh, has-append memory l.users l.cached))
              ] in
              let some_object = ==_of_ne a null g.some_object in
              simp (some_object, g.stored, g.none_closed)
                (record {
                  alive = v.alive;
                  distinct = (
                    g.some_object,
                    has-append a l.users (without a l.cached)
                        ∙ ground (arith, used, has-without a a l.cached),
                    Distinct-without_right a l.users l.cached v.distinct,
                  );
                  clean_cached = λ b i. ground (arith, has-without b a l.cached, v.clean_cached b);
                  held = g.kept;
                  balance = λ x. ground (
                    arith,
                    v.balance x,
                    count-append x (closing skpad.socket) l.opened,
                    count-append x (closing g.made.skpad.socket) (sockets l.store l.users),
                    ap (λ o. count x (closing o)) g.moved,
                    ap (count x) (sockets-update l.store a g.made l.users used),
                    ==_self a,
                    count-append x (closing g.made.skpad.socket)
                        (sockets (update l.store a g.made) l.users),
                  );
                  pool_refs = ground (arith, ap (λ r. r.reference) g.held_more, v.pool_refs, few);
                  data_refs = ground (arith, g.counted, v.data_refs);
                }))
      ]
