-- ===== src/ObjectStack.antt =====
-- lne/ObjectStack_T.h: a stack is an object list that pushes and pops at the back.
use lne.Prelude.{
  ℕ, ◌<◌, ◌≡◌, ◌≢◌, refl, Bool, List, [], ◌∷◌, ◌++◌, ◌==◌, ◌⊎◌, inl, inr, ◌∙◌, sym, ap, snoc-cases,
}
use lne.Config.{Status, lnerr_ok, lnerr_nomemory, lnerr_nodata}
use lne.Ring.{Ptr, null}
use lne.ObjectList
use lne.ObjectList.{ObjectList}
use lne.ObjectList.Repr.{Repr, contents}
use lne.ObjectList.Free.{Fresh}
use lne.ObjectList.Deque.{push_back-PushedBack}
use lne.ObjectList.Pop.{pop_back-append, pop_back-nil}

pub record ObjectStack {ℓ} (T : Type ℓ) : Type ℓ where
  pub list : ObjectList T

snoc-injective {ℓ} :
    {A : Type ℓ} (xs ys : List A) (a b : A) → xs ++ a ∷ [] ≡ ys ++ b ∷ [] → (xs ≡ ys) × (a ≡ b)
snoc-injective [] [] a b e = (refl, cc)
snoc-injective [] (y ∷ []) a b e = (cc, cc)
snoc-injective [] (y ∷ z ∷ ys) a b e = (cc, cc)
snoc-injective (x ∷ []) [] a b e = (cc, cc)
snoc-injective (x ∷ z ∷ xs) [] a b e = (cc, cc)
snoc-injective (x ∷ xs) (y ∷ ys) a b e = let r = snoc-injective xs ys a b (cc) in (cc (r.0, e), r.1)

snoc-ne-nil {ℓ} : {A : Type ℓ} (xs : List A) (a : A) → xs ++ a ∷ [] ≢ []
snoc-ne-nil [] a e = cc
snoc-ne-nil (x ∷ xs) a e = cc

module _ {ℓ} {T : Type ℓ} where
  unfoldable pub pop : T → ObjectStack T → ObjectStack T × T × Status
  pop object s =
      let out = ObjectList.pop_back object s.list in (record { list = out.0 }, out.1, out.2)

  unfoldable pub push : ℕ → Ptr → T → ObjectStack T → ObjectStack T × Status
  push cache_nodes memory object s =
      let out = ObjectList.push_back cache_nodes memory object s.list in
      (record { list = out.0 }, out.1)

  unfoldable pub count : ObjectStack T → ℕ
  count s = ObjectList.count s.list

  pub is_empty : ObjectStack T → Bool
  is_empty s = count s == 0

  -- The stack holds `items`, the top last.
  pub record Holds (s : ObjectStack T) (items : List T) : Type ℓ where
    pub nodes : List Ptr
    pub spare : List Ptr
    pub repr : Repr s.list nodes spare
    pub objects : contents s.list nodes ≡ items

  -- `Push` puts the object on top, or the memory ran out and nothing changed.
  pub push-Holds :
      (cache_nodes : ℕ) (memory : Ptr) (object : T) (s : ObjectStack T) (items : List T)
      (h : Holds s items)
      → 0 < cache_nodes
      → (memory ≢ null → Fresh 0 cache_nodes memory h.nodes)
      → let out = push cache_nodes memory object s in
        ((memory ≡ null) × (out ≡ (s, lnerr_nomemory)))
        ⊎ (Holds out.0 (items ++ object ∷ []) × (out.1 ≡ lnerr_ok))
  unfolding push
  push-Holds cache_nodes memory object s items h pos fresh =
      elim (push_back-PushedBack cache_nodes memory object s.list h.nodes h.spare pos fresh
        h.repr) [
          | inl (_, none_left, e) ↦
              inl (
                none_left,
                ap (λ (out : ObjectList T × Status). (record { list = out.0 }, out.1)) e,
              )
          | inr (n, rest, r, same, done) ↦ inr (
            record {
              nodes = h.nodes ++ n ∷ [];
              spare = rest;
              repr = r;
              objects = same ∙ ap (λ os. os ++ object ∷ []) h.objects;
            },
            done,
          )
        ]

  pop-snoc :
      (old object : T) (s : ObjectStack T) (items : List T) (ys : List Ptr) (z : Ptr)
      (spare : List Ptr)
      → Repr s.list (ys ++ z ∷ []) spare
      → contents s.list (ys ++ z ∷ []) ≡ items ++ object ∷ []
      → let out = pop old s in Holds out.0 items × (out.1 ≡ object) × (out.2 ≡ lnerr_ok)
  unfolding pop
  pop-snoc old object s items ys z spare r e =
      let p = pop_back-append old s.list ys z spare r in
      let same = snoc-injective _ _ _ _ (sym p.1 ∙ e) in
      (record { nodes = ys; spare = z ∷ spare; repr = p.0; objects = same.0 }, same.1, p.2)

  -- `Pop` takes the top object and leaves the others.
  pub pop-Holds :
      (old object : T) (s : ObjectStack T) (items : List T)
      → Holds s (items ++ object ∷ [])
      → let out = pop old s in Holds out.0 items × (out.1 ≡ object) × (out.2 ≡ lnerr_ok)
  pop-Holds old object s items h = elim (snoc-cases h.nodes) [
    | inl e ↦ absurd (snoc-ne-nil items object (sym h.objects ∙ ap (contents s.list) e))
    | inr (ys, z, e) ↦
        pop-snoc old object s items ys z h.spare (rw e at h.repr)
          (sym (ap (contents s.list) e) ∙ h.objects)
  ]

  pop-no_nodes :
      (old : T) (s : ObjectStack T) (nodes spare : List Ptr)
      → Repr s.list nodes spare
      → contents s.list nodes ≡ []
      → pop old s ≡ (s, old, lnerr_nodata)
  unfolding pop
  pop-no_nodes old s [] spare r e =
      ap (λ (out : ObjectList T × T × Status). (record { list = out.0 }, out.1, out.2))
        (pop_back-nil old s.list spare r)
  pop-no_nodes old s (x ∷ xs) spare r e = cc

  -- On an empty stack `Pop` answers `LNERR_NODATA` and changes nothing.
  pub pop-empty : (old : T) (s : ObjectStack T) → Holds s [] → pop old s ≡ (s, old, lnerr_nodata)
  pop-empty old s h = pop-no_nodes old s h.nodes h.spare h.repr h.objects
