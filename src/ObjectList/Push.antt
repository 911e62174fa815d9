-- ===== src/ObjectList/Push.antt =====
-- The links that `PushFront` and `PushBack` of lne/ObjectList_T.h write for a spare node.
use lne.Prelude.{
  ◌≡◌, ◌≢◌, refl, false, List, [], ◌∷◌, ◌++◌, map, arith, ◌==◌, update, sym, ap, ◌∙◌, ==_self,
  ==_of_ne,
}
use mathlib.Core.List.{append_assoc, map-append}
use lne.Ring.{Ptr, null, has, Distinct, last, Dll, Ring}
use lne.Ring.Relink.{last-append, has-last, Dll-ext, Dll-relink, Dll-join, Dll-first}
use lne.ObjectList.{ObjectList, push_front_node, push_back_node, link_node}
use lne.Ring.Distinct.{Distinct-append_left, Distinct-middle}
use lne.ObjectList.Repr.{Repr, Spares, Spares-FreeChain, Circle, contents, map-update}

module _ {ℓ} {T : Type ℓ} where
  -- The new node stands between the last and the first: before `x`, and also behind the last.
  link_node-Dll :
      (l : ObjectList T) (n x : Ptr) (xs : List Ptr)
      → l.nodes_circle ≡ x
      → Ring l.prev l.next x xs
      → Distinct (n ∷ x ∷ xs)
      → let l' = link_node n l in
        (l'.prev n ≡ last x xs) × (l'.next n ≡ x) × Dll l'.prev l'.next n x xs n
  unfolding link_node
  link_node-Dll l n x xs here r d =
      let tail : l.prev x ≡ last x xs = Dll-first l.prev l.next _ x xs x r in
      let there : (x == null) ≡ false = ==_of_ne x null d.2.0 in
      let apart : (n == last x xs) ≡ false = ground (arith, d.1, has-last x xs) in
      let ne : (n == x) ≡ false = ground (arith, d.1) in
      rw (here, there, tail, ==_self n, apart, ne)
        (
          refl,
          refl,
          Dll-relink (update l.prev n (last x xs)) (update l.next n x) (last x xs) n x xs x n d.2
              (Dll-ext l.prev l.next _ _ (last x xs) x xs x (λ a i. ground (arith, d.1)) r),
        )

  link_node-nil :
      (l : ObjectList T) (n : Ptr)
      → l.nodes_circle ≡ null
      → Circle (link_node n l).prev (link_node n l).next (link_node n l).nodes_circle (n ∷ [])
  unfolding link_node
  link_node-nil l n here = ground arith

  -- Linking keeps the objects, the free list's head, and the `next` fields outside the circle.
  link_node-Spares :
      (l : ObjectList T) (n : Ptr) (xs : List Ptr)
      → Circle l.prev l.next l.nodes_circle xs
      → Spares (n ∷ xs) l (link_node n l)
  unfolding link_node
  link_node-Spares l n [] c = record {
    object = ground arith;
    free = ground arith;
    next = λ a i. ground arith;
  }
  link_node-Spares l n (x ∷ xs) c =
      let tail : l.prev x ≡ last x xs = Dll-first l.prev l.next _ x xs x c.1 in
      record {
        object = ground arith;
        free = ground arith;
        next = λ a i. ground (arith, c.0, tail, has-last x xs);
      }

  link_node-circle :
      (l : ObjectList T) (n : Ptr)
      → l.nodes_circle ≢ null
      → (link_node n l).nodes_circle ≡ l.nodes_circle
  unfolding link_node
  link_node-circle l n h = ground arith

  -- The circle of `xs` after the node `n` is linked, read from `n` or from the old first.
  link_node-front :
      (l : ObjectList T) (n : Ptr) (xs : List Ptr)
      → Circle l.prev l.next l.nodes_circle xs
      → Distinct (n ∷ xs)
      → Ring (link_node n l).prev (link_node n l).next n xs
  link_node-front l n [] c d = (link_node-nil l n c).1
  link_node-front l n (x ∷ xs) c d = link_node-Dll l n x xs c.0 c.1 d

  link_node-back :
      (l : ObjectList T) (n : Ptr) (xs : List Ptr)
      → Circle l.prev l.next l.nodes_circle xs
      → Distinct (n ∷ xs)
      → Circle (link_node n l).prev (link_node n l).next (link_node n l).nodes_circle (xs ++ n ∷ [])
  link_node-back l n [] c d = link_node-nil l n c
  link_node-back l n (x ∷ xs) c d =
      let r = link_node-Dll l n x xs c.0 c.1 d in
      (
        link_node-circle l n (λ e. d.2.0 (sym c.0 ∙ e)) ∙ c.0,
        rw (last-append x n xs [])
            (Dll-join (link_node n l).prev (link_node n l).next n x xs n [] x r.2 (r.0, r.1)),
      )

  -- Storing an object in a node outside `xs` leaves the objects of `xs`.
  map-stored :
      (o o' : Ptr → T) (n : Ptr) (object : T) (xs : List Ptr)
      → has n xs ≡ false
      → o' ≡ o
      → map (update o' n object) xs ≡ map o xs
  map-stored o o' n object xs new e = map-update o' n object xs new ∙ ap (λ o. map o xs) e

  pub push_front_node-Repr :
      (object : T) (l : ObjectList T) (n : Ptr) (xs fs : List Ptr)
      → Repr l xs (n ∷ fs)
      → let l' = push_front_node n object l in
        Repr l' (n ∷ xs) fs × (contents l' (n ∷ xs) ≡ object ∷ contents l xs)
  unfolding push_front_node push_back_node
  push_front_node-Repr object l n xs fs r =
      let d : Distinct (n ∷ xs ++ fs) = Distinct-middle xs n fs r.distinct in
      let taken = record l { nodes_free = l.next n } in
      let spares = link_node-Spares taken n xs r.circle in
      let new : has n xs ≡ false = (Distinct-append_left (n ∷ xs) fs d).1 in
      (
        record {
          circle = (refl, link_node-front taken n xs r.circle (Distinct-append_left (n ∷ xs) fs d));
          free = Spares-FreeChain (n ∷ xs) fs spares d r.free.1;
          distinct = d;
        },
        rw (==_self n)
            (ap (λ os. object ∷ os) (map-stored taken.object _ n object xs new spares.object)),
      )

  pub push_back_node-Repr :
      (object : T) (l : ObjectList T) (n : Ptr) (xs fs : List Ptr)
      → Repr l xs (n ∷ fs)
      → let l' = push_back_node n object l in
        Repr l' (xs ++ n ∷ []) fs × (contents l' (xs ++ n ∷ []) ≡ contents l xs ++ object ∷ [])
  unfolding push_back_node
  push_back_node-Repr object l n xs fs r =
      let d : Distinct (n ∷ xs ++ fs) = Distinct-middle xs n fs r.distinct in
      let taken = record l { nodes_free = l.next n } in
      let spares = link_node-Spares taken n xs r.circle in
      let new : has n xs ≡ false = (Distinct-append_left (n ∷ xs) fs d).1 in
      let o' = update (link_node n taken).object n object in
      (
        record {
          circle = link_node-back taken n xs r.circle (Distinct-append_left (n ∷ xs) fs d);
          free = Spares-FreeChain (n ∷ xs) fs spares d r.free.1;
          distinct = rw append_assoc r.distinct;
        },
        map-append o' xs (n ∷ [])
            ∙ rw (==_self n) (
                ap (λ os. os ++ object ∷ [])
                  (map-stored taken.object _ n object xs new spares.object)),
      )
