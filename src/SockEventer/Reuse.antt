-- ===== src/SockEventer/Reuse.antt =====
-- lne/SockEventer.cpp: an eventer that the pool keeps is the next one that it gives out.
use lne.Prelude.{
  ℕ, ◌<◌, ◌≡◌, ◌≢◌, refl, sym, subst, ap, ◌∙◌, true, false, List, [], arith, inl, inr, ==_of_ne,
}
use lne.Config.{Status, is_ok, lnerr_ok}
use lne.Ring.{Ptr, null}
use lne.ExtendObject.{u32_mod, add_ref, release}
use lne.ObjectList.Free.{Fresh}
use lne.ObjectStack
use lne.ObjectStack.{ObjectStack, Holds, push-Holds, pop-Holds, pop-empty}
use lne.SockEventer.{SockEventerPool, push_object, pop_object}

module _ (cache_nodes : ℕ) (memory object : Ptr) (p : SockEventerPool) where
  -- The pool after it kept the object.
  abbrev keeping : SockEventerPool
  keeping = record p {
    ref = (release p.ref).0;
    objects = (ObjectStack.push cache_nodes memory object p.objects).0;
  }

  push_object-keeping :
      (push_object cache_nodes memory object p).1 ≡ []
      → ((push_object cache_nodes memory object p).0 ≡ keeping)
        × (is_ok (ObjectStack.push cache_nodes memory object p.objects).1 ≡ true)
  unfolding push_object
  push_object-keeping e = ground (arith, e)

pub pop_object-some :
    (p : SockEventerPool) (object : Ptr)
    → object ≢ null
    → (ObjectStack.pop null p.objects).1 ≡ object
    → (ObjectStack.pop null p.objects).2 ≡ lnerr_ok
    → pop_object p
      ≡ (record p { objects = (ObjectStack.pop null p.objects).0; ref = add_ref p.ref }, object)
unfolding pop_object
pop_object-some p object ne same done = rw (done, same, ==_of_ne object null ne) refl

pub pop_object-empty : (p : SockEventerPool) → Holds p.objects [] → pop_object p ≡ (p, null)
unfolding pop_object
pop_object-empty p h = simp (pop-empty null p.objects h) refl

add_ref-release :
    (p : SockEventerPool)
    → 0 < p.ref.reference
    → p.ref.reference < u32_mod
    → (add_ref (release p.ref).0).reference ≡ p.ref.reference
unfolding add_ref release
add_ref-release p pos small = ground arith

-- If `PushObject` keeps the object, the next `PopObject` answers it, and the pool has the objects and
-- the references that it had before.
pub push_object-pop_object :
    (cache_nodes : ℕ) (memory object : Ptr) (p : SockEventerPool) (items : List Ptr)
    (h : Holds p.objects items)
    → 0 < cache_nodes
    → (memory ≢ null → Fresh 0 cache_nodes memory h.nodes)
    → object ≢ null
    → 0 < p.ref.reference
    → p.ref.reference < u32_mod
    → (push_object cache_nodes memory object p).1 ≡ []
    → let back = pop_object (push_object cache_nodes memory object p).0 in
      (back.1 ≡ object) × Holds back.0.objects items × (back.0.ref.reference ≡ p.ref.reference)
push_object-pop_object cache_nodes memory object p items h some_nodes fresh ne pos small kept =
    let k = push_object-keeping cache_nodes memory object p kept in
    let q = keeping cache_nodes memory object p in
    elim (push-Holds cache_nodes memory object p.objects items h some_nodes fresh) [
      | inl (_, e) ↦
          absurd (false_true (sym (ap (λ (o : ObjectStack Ptr × Status). is_ok o.1) e) ∙ k.1))
      | inr (h', done) ↦
          let b = pop-Holds null object q.objects items h' in
          subst
            (λ (r : SockEventerPool).
              ((pop_object r).1 ≡ object)
              × Holds (pop_object r).0.objects items
              × ((pop_object r).0.ref.reference ≡ p.ref.reference))
            (sym k.0)
            (subst
              (λ (o : SockEventerPool × Ptr).
                (o.1 ≡ object) × Holds o.0.objects items × (o.0.ref.reference ≡ p.ref.reference))
              (sym (pop_object-some q object ne b.1 b.2)) (refl, b.0, add_ref-release p pos small))
    ]
  where
    false_true : false ≡ true → ⊥
    false_true e = cc
