-- ===== src/SockEventer/Pooled.antt =====
-- lne/SockEventer.cpp: the eventers that a pool keeps, for the two `Alloc` that take them.
use lne.Prelude.{
  snoc-cases, ℕ, ◌<◌, ◌==◌, ==_self, ◌≡◌, ◌≢◌, ◌⊎◌, refl, sym, subst, ap, ◌∙◌, Bool-cases, inl, inr,
  false, List, [], ◌∷◌, ◌++◌, none, update, arith, if◌then◌else◌,
}
use lne.Ring.{Ptr, null, has}
use lne.Ring.Relink.{has-append}
use lne.ObjectList.Free.{Fresh}
use lne.ObjectStack
use lne.ObjectStack.{Holds, push-Holds, pop-Holds, pop-empty}
use lne.SockPad
use lne.SockPad.{SockPad}
use lne.SockEventer.{SockEventerPool, push_object, pop_object}
use lne.SockEventer.Reuse.{pop_object-some, pop_object-empty}
use lne.SockEventer.Alloc.{Kind, IsClean, alloc, pop_or_new}

module _ {S : Type 0} (k : Kind S) where
  -- The eventers of a pool, none twice and none null, without a socket.
  abbrev pub AllClean : (Ptr → S) → List Ptr → Type 0
  AllClean store [] = Unit {0}
  AllClean store (x ∷ xs) =
      (x ≢ null) × (has x xs ≡ false) × ((k.get_pad (store x)).socket ≡ none) × AllClean store xs

  pub record Pooled (store : Ptr → S) (p : SockEventerPool) : Type 0 where
    pub items : List Ptr
    pub held : Holds p.objects items
    pub clean : AllClean store items

  AllClean-last :
      (store : Ptr → S) (ys : List Ptr) (z : Ptr)
      → AllClean store (ys ++ z ∷ [])
      → (z ≢ null) × (has z ys ≡ false) × ((k.get_pad (store z)).socket ≡ none) × AllClean store ys
  AllClean-last store [] z c = (c.0, refl, c.2, tt)
  AllClean-last store (y ∷ ys) z c =
      let r = AllClean-last store ys z c.3 in
      (
        r.0,
        ground (arith, c.1, r.1, has-append y ys (z ∷ [])),
        r.2,
        (c.0, ground (arith, c.1, has-append y ys (z ∷ [])), c.2, r.3),
      )

  -- What a pool holds is what `Alloc` relies on.
  pub Pooled-IsClean : (store : Ptr → S) (p : SockEventerPool) → Pooled store p → IsClean k store p
  Pooled-IsClean store p v = elim (snoc-cases v.items) [
    | inl e ↦ λ ne.
        absurd (ne (ap (λ out. out.1) (pop_object-empty p (subst (Holds p.objects) e v.held))))
    | inr (ys, z, e) ↦
        let c = AllClean-last store ys z (subst (AllClean store) e v.clean) in
        let h = pop-Holds null z p.objects ys (subst (Holds p.objects) e v.held) in
        let same = ap (λ out. out.1) (pop_object-some p z c.0 h.1 h.2) in
        λ ne. subst (λ x. (k.get_pad (store x)).socket ≡ none) (sym same) c.2
  ]

  AllClean-update :
      (store : Ptr → S) (a : Ptr) (v : S) (xs : List Ptr)
      → has a xs ≡ false
      → AllClean store xs
      → AllClean (update store a v) xs
  AllClean-update store a v [] h c = tt
  AllClean-update store a v (x ∷ xs) h c =
      let apart : (x == a) ≡ false = ground (arith, h) in
      (c.0, c.1, simp apart c.2, AllClean-update store a v xs (ground (arith, h)) c.3)

  -- What `PopObject` leaves, and that it answers none only when there is none.
  pop_object-Pooled :
      (store : Ptr → S) (p : SockEventerPool)
      → Pooled store p
      → (((pop_object p).1 ≡ null) × Holds (pop_object p).0.objects [])
        ⊎ ((items : List Ptr) × Holds (pop_object p).0.objects items
            × (has (pop_object p).1 items ≡ false)
            × ((pop_object p).1 ≢ null)
            × AllClean store items)
  pop_object-Pooled store p v = elim (snoc-cases v.items) [
    | inl e ↦
        let h = subst (Holds p.objects) e v.held in
        let same = pop_object-empty p h in
        inl (ap (λ out. out.1) same, subst (λ out. Holds out.0.objects []) (sym same) h)
    | inr (ys, z, e) ↦
        let c = AllClean-last store ys z (subst (AllClean store) e v.clean) in
        let h = pop-Holds null z p.objects ys (subst (Holds p.objects) e v.held) in
        let same = pop_object-some p z c.0 h.1 h.2 in
        inr (
          ys,
          subst (λ out. Holds out.0.objects ys) (sym same) h.0,
          subst (λ out. has out.1 ys ≡ false) (sym same) c.1,
          subst (λ out. out.1 ≢ null) (sym same) c.0,
          c.3,
        )
  ]

  pop_or_new-objects :
      (memory : Ptr) (p : SockEventerPool)
      → (pop_or_new memory p).0.objects ≡ (pop_object p).0.objects
  unfolding pop_or_new
  pop_or_new-objects memory p = ground arith

  alloc_store :
      (memory : Ptr) (skpad : SockPad) (p : SockEventerPool) (store : Ptr → S)
      → let out = alloc k memory skpad p store in
        (out.pool ≡ (pop_or_new memory p).0)
        × ((out.store ≡ store) ⊎ ((v : S) × (out.store ≡ update store (pop_or_new memory p).1 v)))
  unfolding alloc
  alloc_store memory skpad p store =
      let object = if (pop_object p).1 == null then k.fresh else store (pop_or_new memory p).1 in
      let made = k.set_pad (SockPad.assign (k.get_pad object) skpad).0 object in
      elim (Bool-cases ((pop_or_new memory p).1 == null)) [
        | inl e ↦ simp e (refl, inl refl)
        | inr e ↦ simp e (refl, inr (made, refl))
      ]

  pop_or_new-popped :
      (memory : Ptr) (p : SockEventerPool)
      → (pop_object p).1 ≢ null
      → (pop_or_new memory p).1 ≡ (pop_object p).1
  unfolding pop_or_new
  pop_or_new-popped memory p ne = ground (arith, ne)

  -- `Alloc` leaves a pool of clean eventers.
  pub alloc-Pooled :
      (memory : Ptr) (skpad : SockPad) (store : Ptr → S) (p : SockEventerPool)
      → Pooled store p
      → let out = alloc k memory skpad p store in Pooled out.store out.pool
  alloc-Pooled memory skpad store p v =
      let out = alloc k memory skpad p store in
      let (pool, written) = alloc_store memory skpad p store in
      let objects = ap (λ q. q.objects) pool ∙ pop_or_new-objects memory p in
      elim (pop_object-Pooled store p v) [
        | inl (_, h) ↦ record {
          items = [];
          held = subst (λ q. Holds q []) (sym objects) h;
          clean = tt;
        }
        | inr (ys, h, apart, some_object, c) ↦
            let other = ap (λ a. has a ys) (pop_or_new-popped memory p some_object) ∙ apart in
            record {
              items = ys;
              held = subst (λ q. Holds q ys) (sym objects) h;
              clean = elim written [
                | inl e ↦ subst (λ t. AllClean t ys) (sym e) c
                | inr (v', e) ↦
                    subst (λ t. AllClean t ys) (sym e)
                      (AllClean-update store (pop_or_new memory p).1 v' ys other c)
              ];
            }
      ]

  push_object-objects :
      (cache_nodes : ℕ) (memory object : Ptr) (p : SockEventerPool)
      → ((push_object cache_nodes memory object p).0.objects ≡ p.objects)
        ⊎ ((push_object cache_nodes memory object p).0.objects
            ≡ (ObjectStack.push cache_nodes memory object p.objects).0)
  unfolding push_object
  push_object-objects cache_nodes memory object p = ground arith

  AllClean-snoc :
      (store : Ptr → S) (xs : List Ptr) (z : Ptr)
      → has z xs ≡ false
      → z ≢ null
      → (k.get_pad (store z)).socket ≡ none
      → AllClean store xs
      → AllClean store (xs ++ z ∷ [])
  AllClean-snoc store [] z h ne e c = (ne, refl, e, tt)
  AllClean-snoc store (x ∷ xs) z h ne e c = (
    c.0,
    ground (arith, c.1, h, has-append x xs (z ∷ [])),
    c.2,
    AllClean-snoc store xs z (ground (arith, h)) ne e c.3,
  )

  -- `PushObject` of an eventer without a socket that the pool does not have leaves a pool of clean
  -- eventers, whether it keeps the eventer or not.
  pub push_object-Pooled :
      (cache_nodes : ℕ) (memory object : Ptr) (store : Ptr → S) (p : SockEventerPool)
      (v : Pooled store p)
      → 0 < cache_nodes
      → (memory ≢ null → Fresh 0 cache_nodes memory v.held.nodes)
      → object ≢ null
      → has object v.items ≡ false
      → (k.get_pad (store object)).socket ≡ none
      → Pooled store (push_object cache_nodes memory object p).0
  push_object-Pooled cache_nodes memory object store p v some_nodes fresh ne apart free =
      elim (push_object-objects cache_nodes memory object p) [
        | inl e ↦ record {
          items = v.items;
          held = subst (λ q. Holds q v.items) (sym e) v.held;
          clean = v.clean;
        }
        | inr e ↦
            (elim (push-Holds cache_nodes memory object p.objects v.items v.held some_nodes fresh) [
              | inl (_, same) ↦ record {
                items = v.items;
                held = subst (λ q. Holds q v.items) (sym (e ∙ ap (λ out. out.0) same)) v.held;
                clean = v.clean;
              }
              | inr (h, _) ↦ record {
                items = v.items ++ object ∷ [];
                held = subst (λ q. Holds q (v.items ++ object ∷ [])) (sym e) h;
                clean = AllClean-snoc store v.items object apart ne free v.clean;
              }
            ])
      ]

  -- `ObjectDestroy` cleans the eventer and pushes it, after which the pool is one of clean eventers.
  pub give_back-Pooled :
      (cache_nodes : ℕ) (memory object : Ptr) (cleaned : S) (store : Ptr → S) (p : SockEventerPool)
      (v : Pooled store p)
      → 0 < cache_nodes
      → (memory ≢ null → Fresh 0 cache_nodes memory v.held.nodes)
      → object ≢ null
      → has object v.items ≡ false
      → (k.get_pad cleaned).socket ≡ none
      → Pooled (update store object cleaned) (push_object cache_nodes memory object p).0
  give_back-Pooled cache_nodes memory object cleaned store p v some_nodes fresh ne apart free =
      push_object-Pooled cache_nodes memory object (update store object cleaned) p
        (record {
          items = v.items;
          held = v.held;
          clean = AllClean-update store object cleaned v.items apart v.clean;
        })
        some_nodes fresh ne apart (simp (==_self object) free)
