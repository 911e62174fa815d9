-- ===== src/ObjectList/Deque.antt =====
-- The pushes of lne/ObjectList_T.h against a list of objects.
use lne.Prelude.{
  ℕ, ◌<◌, ◌≡◌, ◌≢◌, refl, List, [], ◌∷◌, ◌++◌, map, arith, ◌⊎◌, inl, inr, sym, ap, ◌∙◌, subst,
}
use lne.Config.{Status, lnerr_ok, lnerr_nomemory}
use lne.Ring.{Ptr, null}
use lne.ObjectList.{
  ObjectList, push_front, push_back, push_front_node, push_back_node, ready_memory,
}
use lne.ObjectList.Free.{Fresh}
use lne.Ring.Distinct.{Distinct-append_right}
use lne.ObjectList.Repr.{Repr, contents}
use lne.ObjectList.Push.{push_front_node-Repr, push_back_node-Repr}
use lne.ObjectList.Ready.{ready_memory_lem}

module _ {ℓ} {T : Type ℓ} where
  push_back-full :
      (cache_nodes : ℕ) (memory : Ptr) (object : T) (l : ObjectList T)
      → l.nodes_free ≡ null
      → ready_memory cache_nodes memory l ≡ l
      → push_back cache_nodes memory object l ≡ (l, lnerr_nomemory)
  unfolding push_back
  push_back-full cache_nodes memory object l empty e = rw e (ground arith)

  push_back-ready :
      (cache_nodes : ℕ) (memory : Ptr) (object : T) (l m : ObjectList T) (n : Ptr)
      → ready_memory cache_nodes memory l ≡ m
      → m.nodes_free ≡ n
      → n ≢ null
      → push_back cache_nodes memory object l ≡ (push_back_node n object m, lnerr_ok)
  unfolding push_back
  push_back-ready cache_nodes memory object l m n e f ne = rw e (ground arith)

  push_front-full :
      (cache_nodes : ℕ) (memory : Ptr) (object : T) (l : ObjectList T)
      → l.nodes_free ≡ null
      → ready_memory cache_nodes memory l ≡ l
      → push_front cache_nodes memory object l ≡ (l, lnerr_nomemory)
  unfolding push_front
  push_front-full cache_nodes memory object l empty e = rw e (ground arith)

  push_front-ready :
      (cache_nodes : ℕ) (memory : Ptr) (object : T) (l m : ObjectList T) (n : Ptr)
      → ready_memory cache_nodes memory l ≡ m
      → m.nodes_free ≡ n
      → n ≢ null
      → push_front cache_nodes memory object l ≡ (push_front_node n object m, lnerr_ok)
  unfolding push_front
  push_front-ready cache_nodes memory object l m n e f ne = rw e (ground arith)

  -- What a push answers: no memory and an unchanged list, or the object at the end of the contents.
  abbrev pub PushedBack : ObjectList T → List Ptr → Ptr → T → ObjectList T × Status → Type ℓ
  PushedBack l xs memory object out =
      ((l.nodes_free ≡ null) × (memory ≡ null) × (out ≡ (l, lnerr_nomemory)))
      ⊎ ((n : Ptr) × (fs : List Ptr) × Repr out.0 (xs ++ n ∷ []) fs
          × (contents out.0 (xs ++ n ∷ []) ≡ contents l xs ++ object ∷ [])
          × (out.1 ≡ lnerr_ok))

  abbrev pub PushedFront : ObjectList T → List Ptr → Ptr → T → ObjectList T × Status → Type ℓ
  PushedFront l xs memory object out =
      ((l.nodes_free ≡ null) × (memory ≡ null) × (out ≡ (l, lnerr_nomemory)))
      ⊎ ((n : Ptr) × (fs : List Ptr) × Repr out.0 (n ∷ xs) fs
          × (contents out.0 (n ∷ xs) ≡ object ∷ contents l xs)
          × (out.1 ≡ lnerr_ok))

  module _ (cache_nodes : ℕ) (memory : Ptr) (object : T) (l : ObjectList T) (xs fs : List Ptr)
      (pos : 0 < cache_nodes) (fresh : memory ≢ null → Fresh 0 cache_nodes memory xs)
      (r : Repr l xs fs) where
    -- `PushBack` fails only when no node is spare and `malloc` fails, and then changes nothing. Else
    -- the object stands behind all others.
    pub push_back-PushedBack : PushedBack l xs memory object (push_back cache_nodes memory object l)
    push_back-PushedBack = elim (ready_memory_lem cache_nodes memory l xs fs pos fresh r) [
      | inl (empty, none_left, e) ↦
          inl (empty, none_left, push_back-full cache_nodes memory object l empty e)
      | inr (n, rest, r', same) ↦
          let m = ready_memory cache_nodes memory l in
          let ne = (Distinct-append_right xs (n ∷ rest) r'.distinct).0 in
          let done = push_back_node-Repr object m n xs rest r' in
          subst (PushedBack l xs memory object)
            (sym (push_back-ready cache_nodes memory object l m n refl r'.free.0 ne))
            (inr (n, rest, done.0, done.1 ∙ ap (λ o. map o xs ++ object ∷ []) same, refl))
    ]

    -- `PushFront` fails only when no node is spare and `malloc` fails, and then changes nothing. Else
    -- the object stands before all others.
    pub push_front-PushedFront :
        PushedFront l xs memory object (push_front cache_nodes memory object l)
    push_front-PushedFront = elim (ready_memory_lem cache_nodes memory l xs fs pos fresh r) [
      | inl (empty, none_left, e) ↦
          inl (empty, none_left, push_front-full cache_nodes memory object l empty e)
      | inr (n, rest, r', same) ↦
          let m = ready_memory cache_nodes memory l in
          let ne = (Distinct-append_right xs (n ∷ rest) r'.distinct).0 in
          let done = push_front_node-Repr object m n xs rest r' in
          subst (PushedFront l xs memory object)
            (sym (push_front-ready cache_nodes memory object l m n refl r'.free.0 ne))
            (inr (n, rest, done.0, done.1 ∙ ap (λ o. object ∷ map o xs) same, refl))
    ]
