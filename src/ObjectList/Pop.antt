-- ===== src/ObjectList/Pop.antt =====
-- `PopFront` and `PopBack` of lne/ObjectList_T.h take the first and the last object.
use lne.Prelude.{
  ◌≡◌, ◌≢◌, refl, false, List, [], ◌∷◌, ◌++◌, map, arith, ◌==◌, sym, ap, ◌∙◌, subst, ==_self,
  ==_of_ne,
}
use mathlib.Core.List.{append_assoc, map-append}
use lne.Config.{Status, lnerr_ok, lnerr_nodata}
use lne.Ring.{Ptr, null, Distinct, last, Ring}
use lne.Ring.Relink.{has-append, last-append, has-last, Dll-relink, Dll-split, Dll-first}
use lne.ObjectList.{ObjectList, pop_front, pop_back, put_free, unlink_front, unlink_back}
use lne.ObjectList.Free.{put_free-Repr}
use lne.Ring.Distinct.{Distinct-append_left, Distinct-apart, Distinct-unmiddle}
use lne.ObjectList.Repr.{Repr, Circle, contents, Spares, Spares-FreeChain}

module _ {ℓ} {T : Type ℓ} where
  -- On an empty list `PopFront` answers `LNERR_NODATA` and changes nothing.
  pub pop_front-nil :
      (object : T) (l : ObjectList T) (fs : List Ptr)
      → Repr l [] fs
      → pop_front object l ≡ (l, object, lnerr_nodata)
  unfolding pop_front
  pop_front-nil object l fs r = ground (arith, r.circle)

  pub pop_back-nil :
      (object : T) (l : ObjectList T) (fs : List Ptr)
      → Repr l [] fs
      → pop_back object l ≡ (l, object, lnerr_nodata)
  unfolding pop_back
  pop_back-nil object l fs r = ground (arith, r.circle)

  unlink_front-Circle :
      (l : ObjectList T) (x : Ptr) (xs : List Ptr)
      → Ring l.prev l.next x xs
      → Distinct (x ∷ xs)
      → Circle (unlink_front x l).prev (unlink_front x l).next (unlink_front x l).nodes_circle xs
  unfolding unlink_front
  unlink_front-Circle l x [] r d = ground arith
  unlink_front-Circle l x (y ∷ ys) r d =
      let ne : (y == x) ≡ false = ground arith in
      let step : l.next x ≡ y = r.1 in
      let back : l.prev x ≡ last y ys = r.0 in
      rw (step, ne, back, ==_self y) (refl, Dll-relink l.prev l.next x (last y ys) y ys x y d.2 r.2)

  unlink_front-Spares :
      (l : ObjectList T) (x : Ptr) (xs : List Ptr)
      → Ring l.prev l.next x xs
      → Spares (x ∷ xs) l (unlink_front x l)
  unfolding unlink_front
  unlink_front-Spares l x [] r = record {
    object = ground arith;
    free = ground arith;
    next = λ a i. ground arith;
  }
  unlink_front-Spares l x (y ∷ ys) r = record {
    object = ground arith;
    free = ground arith;
    next = λ a i. ground (arith, r.0, has-last y ys, ==_self y);
  }

  pop_front_eq :
      (object : T) (l : ObjectList T) (x : Ptr)
      → l.nodes_circle ≢ null
      → l.nodes_circle ≡ x
      → pop_front object l ≡ (put_free x (unlink_front x l), l.object x, lnerr_ok)
  unfolding pop_front
  pop_front_eq object l x there here =
      rw (==_of_ne l.nodes_circle null there)
        (ap (λ c. (put_free c (unlink_front c l), l.object c, lnerr_ok)) here)

  -- `PopFront` on a list whose first node is `x` answers `LNERR_OK` and the first object; the other
  -- nodes and objects stay in order, and `x` becomes the first spare node.
  pub pop_front-cons :
      (object : T) (l : ObjectList T) (x : Ptr) (xs fs : List Ptr)
      → Repr l (x ∷ xs) fs
      → let out = pop_front object l in
        Repr out.0 xs (x ∷ fs)
        × (contents l (x ∷ xs) ≡ out.1 ∷ contents out.0 xs)
        × (out.2 ≡ lnerr_ok)
  unfolding put_free
  pop_front-cons object l x xs fs r =
      let here : l.nodes_circle ≡ x = r.circle.0 in
      let there : l.nodes_circle ≢ null = λ e. r.distinct.0 (sym here ∙ e) in
      let spares = unlink_front-Spares l x xs r.circle.1 in
      subst
        (λ (out : ObjectList T × T × Status).
          Repr out.0 xs (x ∷ fs)
          × (contents l (x ∷ xs) ≡ out.1 ∷ contents out.0 xs)
          × (out.2 ≡ lnerr_ok))
        (sym (pop_front_eq object l x there here))
        (
          put_free-Repr (unlink_front x l) x xs fs
              (unlink_front-Circle l x xs r.circle.1 (Distinct-append_left (x ∷ xs) fs r.distinct))
              (Spares-FreeChain (x ∷ xs) fs spares r.distinct r.free)
              (Distinct-unmiddle xs x fs r.distinct),
          ap (λ o. l.object x ∷ map o xs) (sym spares.object),
          refl,
        )

  unlink_back-Circle :
      (l : ObjectList T) (x : Ptr) (xs : List Ptr) (z : Ptr)
      → l.nodes_circle ≡ x
      → Ring l.prev l.next x (xs ++ z ∷ [])
      → Distinct (x ∷ xs ++ z ∷ [])
      → Circle (unlink_back z l).prev (unlink_back z l).next (unlink_back z l).nodes_circle (x ∷ xs)
  unfolding unlink_back
  unlink_back-Circle l x xs z here r d =
      let parts = Dll-split l.prev l.next (last x (xs ++ z ∷ [])) x xs z [] x r in
      let back : l.prev z ≡ last x xs = parts.1.0 in
      let ne : (last x xs == z) ≡ false =
        ground (arith, Distinct-apart (x ∷ xs) (z ∷ []) (last x xs) d (has-last x xs)) in
      rw (here, back, ne, ==_self x)
        (
          refl,
          Dll-relink l.prev l.next (last x (xs ++ z ∷ [])) (last x xs) x xs z x
              (Distinct-append_left (x ∷ xs) (z ∷ []) d) parts.0,
        )

  unlink_back-Spares :
      (l : ObjectList T) (x : Ptr) (xs : List Ptr) (z : Ptr)
      → l.nodes_circle ≡ x
      → Ring l.prev l.next x (xs ++ z ∷ [])
      → Spares (x ∷ xs ++ z ∷ []) l (unlink_back z l)
  unfolding unlink_back
  unlink_back-Spares l x xs z here r =
      let parts = Dll-split l.prev l.next (last x (xs ++ z ∷ [])) x xs z [] x r in
      let back : l.prev z ≡ last x xs = parts.1.0 in
      rw (here, back)
        (record {
          object = ground arith;
          free = ground arith;
          next = λ a i. ground (arith, ==_self x, has-last x xs, has-append a (x ∷ xs) (z ∷ []));
        })

  pop_back_eq :
      (object : T) (l : ObjectList T) (z : Ptr)
      → l.nodes_circle ≢ null
      → l.prev l.nodes_circle ≡ z
      → pop_back object l ≡ (put_free z (unlink_back z l), l.object z, lnerr_ok)
  unfolding pop_back
  pop_back_eq object l z there back = rw (==_of_ne l.nodes_circle null there, back)

  unlink_back-one :
      (l : ObjectList T) (z : Ptr)
      → l.prev z ≡ z
      → unlink_back z l ≡ record l { nodes_circle = null }
  unfolding unlink_back
  unlink_back-one l z back = ground arith

  -- `PopBack` on a list whose last node is `z` answers `LNERR_OK` and the last object; the other
  -- nodes and objects stay in order, and `z` becomes the first spare node.
  pub pop_back-append :
      (object : T) (l : ObjectList T) (ys : List Ptr) (z : Ptr) (fs : List Ptr)
      → Repr l (ys ++ z ∷ []) fs
      → let out = pop_back object l in
        Repr out.0 ys (z ∷ fs)
        × (contents l (ys ++ z ∷ []) ≡ contents out.0 ys ++ out.1 ∷ [])
        × (out.2 ≡ lnerr_ok)
  unfolding put_free
  pop_back-append object l [] z fs r =
      let here : l.nodes_circle ≡ z = r.circle.0 in
      let back : l.prev l.nodes_circle ≡ z = ap l.prev here ∙ r.circle.1.0 in
      let there : l.nodes_circle ≢ null = λ e. r.distinct.0 (sym here ∙ e) in
      rw (pop_back_eq object l z there back, unlink_back-one l z r.circle.1.0)
        (
          put_free-Repr (record l { nodes_circle = null }) z [] fs refl r.free r.distinct,
          refl,
          refl,
        )
  pop_back-append object l (x ∷ xs) z fs r =
      let here : l.nodes_circle ≡ x = r.circle.0 in
      let ring = r.circle.1 in
      let back : l.prev l.nodes_circle ≡ z =
        ap l.prev here
        ∙ Dll-first l.prev l.next _ x (xs ++ z ∷ []) x ring
        ∙ last-append x z xs [] in
      let there : l.nodes_circle ≢ null = λ e. r.distinct.0 (sym here ∙ e) in
      let spares = unlink_back-Spares l x xs z here ring in
      subst
        (λ (out : ObjectList T × T × Status).
          Repr out.0 (x ∷ xs) (z ∷ fs)
          × (contents l (x ∷ xs ++ z ∷ []) ≡ contents out.0 (x ∷ xs) ++ out.1 ∷ [])
          × (out.2 ≡ lnerr_ok))
        (sym (pop_back_eq object l z there back))
        (
          put_free-Repr (unlink_back z l) z (x ∷ xs) fs
              (unlink_back-Circle l x xs z here ring
                (Distinct-append_left (x ∷ xs ++ z ∷ []) fs r.distinct))
              (Spares-FreeChain (x ∷ xs ++ z ∷ []) fs spares r.distinct r.free)
              (rw append_assoc at r.distinct),
          map-append l.object (x ∷ xs) (z ∷ [])
              ∙ ap (λ o. map o (x ∷ xs) ++ l.object z ∷ []) (sym spares.object),
          refl,
        )
