-- ===== src/ObjectQueue.antt =====
-- lne/ObjectQueue_T.h: a queue is an object list that appends at the back and extracts at the front.
use lne.Prelude.{ℕ, ◌<◌, ◌≡◌, ◌≢◌, Bool, List, [], ◌∷◌, ◌++◌, ◌==◌, ◌⊎◌, inl, inr, ◌∙◌, ap}
use lne.Config.{Status, lnerr_ok, lnerr_nomemory, lnerr_nodata}
use lne.Ring.{Ptr, null}
use lne.ObjectList
use lne.ObjectList.{ObjectList}
use lne.ObjectList.Repr.{Repr, contents}
use lne.ObjectList.Free.{Fresh}
use lne.ObjectList.Deque.{push_back-PushedBack}
use lne.ObjectList.Pop.{pop_front-cons, pop_front-nil}

pub record ObjectQueue {ℓ} (T : Type ℓ) : Type ℓ where
  pub list : ObjectList T

module _ {ℓ} {T : Type ℓ} where
  pub extract : T → ObjectQueue T → ObjectQueue T × T × Status
  extract object q =
      let out = ObjectList.pop_front object q.list in (record { list = out.0 }, out.1, out.2)

  pub append : ℕ → Ptr → T → ObjectQueue T → ObjectQueue T × Status
  append cache_nodes memory object q =
      let out = ObjectList.push_back cache_nodes memory object q.list in
      (record { list = out.0 }, out.1)

  unfoldable pub count : ObjectQueue T → ℕ
  count q = ObjectList.count q.list

  unfoldable pub is_empty : ObjectQueue T → Bool
  is_empty q = count q == 0

  -- The queue holds `items`, oldest first.
  pub record Holds (q : ObjectQueue T) (items : List T) : Type ℓ where
    pub nodes : List Ptr
    pub spare : List Ptr
    pub repr : Repr q.list nodes spare
    pub objects : contents q.list nodes ≡ items

  -- `Append` puts the object behind all others, or the memory ran out and nothing changed.
  pub append-Holds :
      (cache_nodes : ℕ) (memory : Ptr) (object : T) (q : ObjectQueue T) (items : List T)
      (h : Holds q items)
      → 0 < cache_nodes
      → (memory ≢ null → Fresh 0 cache_nodes memory h.nodes)
      → let out = append cache_nodes memory object q in
        ((memory ≡ null) × (out ≡ (q, lnerr_nomemory)))
        ⊎ (Holds out.0 (items ++ object ∷ []) × (out.1 ≡ lnerr_ok))
  unfolding append
  append-Holds cache_nodes memory object q items h pos fresh =
      elim (push_back-PushedBack cache_nodes memory object q.list h.nodes h.spare pos fresh
        h.repr) [
          | inl (_, none_left, e) ↦
              inl (
                none_left,
                ap (λ (out : ObjectList T × Status). (record { list = out.0 }, out.1)) e,
              )
          | inr (n, rest, r, same, done) ↦ inr (
            record {
              nodes = h.nodes ++ n ∷ [];
              spare = rest;
              repr = r;
              objects = same ∙ ap (λ os. os ++ object ∷ []) h.objects;
            },
            done,
          )
        ]

  extract-nodes :
      (old object : T) (q : ObjectQueue T) (items : List T) (nodes spare : List Ptr)
      → Repr q.list nodes spare
      → contents q.list nodes ≡ object ∷ items
      → let out = extract old q in Holds out.0 items × (out.1 ≡ object) × (out.2 ≡ lnerr_ok)
  unfolding extract
  extract-nodes old object q items [] spare r e = cc
  extract-nodes old object q items (x ∷ xs) spare r e =
      let p = pop_front-cons old q.list x xs spare r in
      (
        record { nodes = xs; spare = x ∷ spare; repr = p.0; objects = cc (p.1, e) },
        cc (p.1, e),
        p.2,
      )

  -- `Extract` takes the oldest object and leaves the others in order.
  pub extract-Holds :
      (old object : T) (q : ObjectQueue T) (items : List T)
      → Holds q (object ∷ items)
      → let out = extract old q in Holds out.0 items × (out.1 ≡ object) × (out.2 ≡ lnerr_ok)
  extract-Holds old object q items h =
      extract-nodes old object q items h.nodes h.spare h.repr h.objects

  extract-no_nodes :
      (old : T) (q : ObjectQueue T) (nodes spare : List Ptr)
      → Repr q.list nodes spare
      → contents q.list nodes ≡ []
      → extract old q ≡ (q, old, lnerr_nodata)
  unfolding extract
  extract-no_nodes old q [] spare r e =
      ap (λ (out : ObjectList T × T × Status). (record { list = out.0 }, out.1, out.2))
        (pop_front-nil old q.list spare r)
  extract-no_nodes old q (x ∷ xs) spare r e = cc

  -- On an empty queue `Extract` answers `LNERR_NODATA` and changes nothing.
  pub extract-empty :
      (old : T) (q : ObjectQueue T) → Holds q [] → extract old q ≡ (q, old, lnerr_nodata)
  extract-empty old q h = extract-no_nodes old q h.nodes h.spare h.repr h.objects
