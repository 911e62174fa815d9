-- ===== src/SockSpray/Pool/Given.antt =====
-- lne/SockSpray.cpp and lne/SockEventer.cpp: what `Alloc` takes from a pool of which it is known
-- which connections it keeps, and what `PushObject` adds to it.
use lne.Ring.Distinct.{without}
use lne.Prelude.{
  ℕ, ◌+◌, ◌<◌, ◌==◌, ◌≡◌, ◌≢◌, ◌⊎◌, refl, sym, subst, ap, true, false, none, List, [], ◌∷◌, ◌++◌,
  arith, length, length-append, update, snoc-cases, Bool-cases, Bool, ◌&&◌, not, ltb, inl, inr,
  ==_of_ne,
}
use mathlib.Core.List.{append-nil}
use lne.Ring.{Ptr, null, has, Distinct}
use lne.Ring.Relink.{has-append}
use lne.Ring.Distinct.{Distinct-middle}
use lne.ExtendObject.{RefObject, u32_mod, add_ref, release}
use lne.ObjectList.Free.{Fresh}
use lne.ObjectStack
use lne.ObjectStack.{ObjectStack, Holds, push-Holds, pop-Holds}
use lne.ObjectQueue.{ObjectQueue}
use lne.SockPad
use lne.SockPad.{SockPad, closing}
use lne.SockEventer.{SockEventerPool, push_object, pop_object}
use lne.SockEventer.Reuse.{pop_object-some, pop_object-empty}
use lne.SockEventer.Alloc.{Allocated, alloc, pop_or_new, is_new}
use lne.SockSpray.{SockSpray, new_sock_spray}
use lne.SockSpray.Pool.{SockSprayPool, alloc_spray, sprays}
use lne.SockSpray.Pool.Life.{}
use lne.SockSpray.Pool.Items.{without-last}

-- The connection that the pool kept last is taken out of it.
abbrev pub Popped : SockEventerPool → List Ptr → SockEventerPool × Ptr → Type 0
Popped p cached out =
    (has out.1 cached ≡ true)
    × (out.1 ≢ null)
    × (length (without out.1 cached) + 1 ≡ length cached)
    × Holds out.0.objects (without out.1 cached)
    × (out.0.ref ≡ add_ref p.ref)

pop_object-last :
    (p : SockEventerPool) (ys : List Ptr) (z : Ptr)
    → Holds p.objects (ys ++ z ∷ [])
    → Distinct (ys ++ z ∷ [])
    → Popped p (ys ++ z ∷ []) (pop_object p)
pop_object-last p ys z h d =
    let m = Distinct-middle ys z [] d in
    let apart : has z ys ≡ false = subst (λ l. has z l ≡ false) (append-nil ys) m.1 in
    let out = pop-Holds null z p.objects ys h in
    let rest = sym (without-last z ys apart) in
    subst (Popped p (ys ++ z ∷ [])) (sym (pop_object-some p z m.0 out.1 out.2)) (
      ground (arith, has-append z ys (z ∷ [])),
      m.0,
      ground (arith, ap length rest, length-append ys (z ∷ [])),
      subst (Holds (ObjectStack.pop null p.objects).0) rest out.0,
      refl,
    )

-- Either the pool is empty, or `PopObject` answers the connection that it kept last.
pub pop_object-cases :
    (p : SockEventerPool) (cached : List Ptr)
    → Holds p.objects cached
    → Distinct cached
    → ((cached ≡ []) × (pop_object p ≡ (p, null))) ⊎ Popped p cached (pop_object p)
pop_object-cases p cached h d = elim (snoc-cases cached) [
  | inl e ↦ inl (e, pop_object-empty p (subst (Holds p.objects) e h))
  | inr (ys, z, e) ↦ inr (
      subst (λ l. Popped p l (pop_object p)) (sym e)
        (pop_object-last p ys z (subst (Holds p.objects) e h) (subst Distinct e d)))
]

-- `PushObject` keeps the connection or deletes it, and gives one reference to the pool back.
abbrev pub Pushed : SockEventerPool → Ptr → List Ptr → SockEventerPool × List Ptr × Bool → Type 0
Pushed p object cached out =
    (out.0.ref ≡ (release p.ref).0)
    × (out.2 ≡ (release p.ref).1)
    × (((out.1 ≡ object ∷ []) × Holds out.0.objects cached)
        ⊎ ((out.1 ≡ []) × Holds out.0.objects (cached ++ object ∷ [])))

pub push_object-Pushed :
    (cache_nodes : ℕ) (nodes object : Ptr) (p : SockEventerPool) (cached : List Ptr)
    (h : Holds p.objects cached)
    → 0 < cache_nodes
    → (nodes ≢ null → Fresh 0 cache_nodes nodes h.nodes)
    → Pushed p object cached (push_object cache_nodes nodes object p)
unfolding push_object
push_object-Pushed cache_nodes nodes object p cached h pos fresh =
    elim (Bool-cases (ltb p.limit_cache (ObjectStack.count p.objects))) [
      | inl full ↦ simp full (refl, refl, inl (refl, h))
      | inr room ↦ (elim (push-Holds cache_nodes nodes object p.objects cached h pos fresh) [
        | inl (_, e) ↦ simp (room, e) (refl, refl, inl (refl, h))
        | inr (h', done) ↦ simp (room, done) (refl, refl, inr (refl, h'))
      ])
    ]

-- `Alloc` gives a connection out, from the pool or new, with the socket that it was given.
pub record Given (memory : Ptr) (skpad : SockPad) (p : SockEventerPool) (cached : List Ptr)
    (store : Ptr → SockSpray) (data_ref : RefObject) (out : Allocated SockSpray × RefObject)
    : Type 0 where
  pub some_object : out.0.object ≢ null
  pub source : (has out.0.object cached ≡ true) ⊎ (out.0.object ≡ memory)
  pub kept : Holds out.0.pool.objects (without out.0.object cached)
  pub held_more : out.0.pool.ref ≡ add_ref p.ref
  pub none_closed : out.0.closed ≡ []
  pub made : SockSpray
  pub stored : out.0.store ≡ update store out.0.object made
  pub moved : made.skpad.socket ≡ skpad.socket
  pub counted :
      out.1.reference + length cached
      ≡ data_ref.reference + 1 + length (without out.0.object cached)

-- `Alloc` gives none out, and closes the socket.
abbrev pub Refused :
    SockPad
    → SockEventerPool
    → (Ptr → SockSpray)
    → RefObject
    → Allocated SockSpray × RefObject
    → Type 0
Refused skpad p store data_ref out =
    (out.0.object ≡ null)
    × (out.0.pool ≡ p)
    × (out.0.store ≡ store)
    × (out.0.closed ≡ closing skpad.socket)
    × (out.1 ≡ data_ref)

module _ (memory : Ptr) (send_blocks : ObjectQueue Ptr) (data_ref : RefObject) (skpad : SockPad)
    (handler : Ptr) (p : SockSprayPool) (store : Ptr → SockSpray) (cached : List Ptr)
    (held : Holds p.eventers.objects cached) (distinct : Distinct cached)
    (clean : (a : Ptr) → has a cached ≡ true → (store a).skpad.socket ≡ none)
    (room : data_ref.reference + 1 < u32_mod) where
  pub alloc_spray-cases :
      let out = alloc_spray memory send_blocks data_ref skpad handler p store in
      Refused skpad p.eventers store data_ref out
      ⊎ Given memory skpad p.eventers cached store data_ref out
  unfolding alloc_spray alloc pop_or_new is_new sprays new_sock_spray SockPad.new_sock_pad
      SockPad.close SockPad.assign SockPad.attach closing add_ref
  alloc_spray-cases = elim (Bool-cases (SockPad.is_valid skpad && not (handler == null))) [
    | inr bad ↦ inl (simp bad (refl, refl, refl, refl, refl))
    | inl good ↦ (elim (pop_object-cases p.eventers cached held distinct) [
      | inl (e, emp) ↦ (elim (Bool-cases (memory == null)) [
        | inl gone ↦ inl (simp (good, emp, gone) (refl, refl, refl, refl, refl))
        | inr there ↦ inr (
            simp (good, emp, there, e)
              (record {
                some_object = ground (arith, there);
                source = inr refl;
                kept = subst (Holds p.eventers.objects) e held;
                held_more = refl;
                none_closed = refl;
                made = record (new_sock_spray p.limit_write_cache send_blocks) {
                  skpad = skpad;
                  handler = handler;
                };
                stored = refl;
                moved = refl;
                counted = omega arith;
              }))
      ])
      | inr (among, ne, fewer, kept, ref) ↦ inr (
          simp
            (
              good,
              ==_of_ne (pop_object p.eventers).1 null ne,
              clean (pop_object p.eventers).1 among,
            )
            (record {
              some_object = ne;
              source = inl among;
              kept = kept;
              held_more = ref;
              none_closed = refl;
              made = record (store (pop_object p.eventers).1) { skpad = skpad; handler = handler };
              stored = refl;
              moved = refl;
              counted = omega (arith, fewer);
            }))
    ])
  ]
