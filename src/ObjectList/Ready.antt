-- ===== src/ObjectList/Ready.antt =====
-- The first step of both pushes of lne/ObjectList_T.h: find a spare node, with more memory if there
-- is none.
use lne.Prelude.{
  ℕ, ◌<◌, ◌≡◌, ◌≢◌, refl, List, [], ◌∷◌, arith, ◌==◌, ◌⊎◌, inl, inr, sym, ap, ◌∙◌, Bool-cases,
}
use mathlib.Core.List.{append-nil}
use lne.Ring.{Ptr, null}
use lne.ObjectList.{ObjectList, ready_memory, extend_memory}
use lne.ObjectList.Free.{Fresh, block-head, extend_memory-Repr, extend_memory-object}
use lne.Ring.Distinct.{Distinct-append_right}
use lne.ObjectList.Repr.{Repr}

module _ {ℓ} {T : Type ℓ} where
  -- What both pushes find after their first step: a spare node, or no memory.
  abbrev pub Ready : ℕ → Ptr → ObjectList T → List Ptr → Type ℓ
  Ready cache_nodes memory l xs =
      ((l.nodes_free ≡ null) × (memory ≡ null) × (ready_memory cache_nodes memory l ≡ l))
      ⊎ ((n : Ptr) × (fs : List Ptr) × Repr (ready_memory cache_nodes memory l) xs (n ∷ fs)
          × ((ready_memory cache_nodes memory l).object ≡ l.object))

  ready_memory-eq_extend :
      (cache_nodes : ℕ) (memory : Ptr) (l : ObjectList T)
      → l.nodes_free ≡ null
      → ready_memory cache_nodes memory l ≡ extend_memory cache_nodes memory l
  unfolding ready_memory
  ready_memory-eq_extend cache_nodes memory l e = ground arith

  ready_memory-eq_self :
      (cache_nodes : ℕ) (memory : Ptr) (l : ObjectList T)
      → l.nodes_free ≢ null
      → ready_memory cache_nodes memory l ≡ l
  unfolding ready_memory
  ready_memory-eq_self cache_nodes memory l e = ground arith

  extend_memory-null : (cache_nodes : ℕ) (l : ObjectList T) → extend_memory cache_nodes null l ≡ l
  unfolding extend_memory
  extend_memory-null cache_nodes l = refl

  pub ready_memory_lem :
      (cache_nodes : ℕ) (memory : Ptr) (l : ObjectList T) (xs fs : List Ptr)
      → 0 < cache_nodes
      → (memory ≢ null → Fresh 0 cache_nodes memory xs)
      → Repr l xs fs
      → Ready cache_nodes memory l xs
  ready_memory_lem cache_nodes memory l xs [] pos fresh r =
      let extends = ready_memory-eq_extend cache_nodes memory l r.free in
      elim (Bool-cases (memory == null)) [
        | inl e ↦
            let e' : memory ≡ null = ground arith in
            inl (r.free, e', extends ∙ rw e' (extend_memory-null cache_nodes l))
        | inr e ↦
            let ne : memory ≢ null = ground arith in
            let b = block-head cache_nodes memory pos in
            inr (
              b.0,
              b.1,
              rw (extends, ← b.2)
                  (extend_memory-Repr cache_nodes memory l xs [] ne (rw append-nil (fresh ne)) r),
              ap (λ (m : ObjectList T). m.object) extends
                  ∙ extend_memory-object cache_nodes memory l,
            )
      ]
  ready_memory_lem cache_nodes memory l xs (n ∷ fs) pos fresh r =
      let ne : l.nodes_free ≢ null =
        λ e. (Distinct-append_right xs (n ∷ fs) r.distinct).0 (sym r.free.0 ∙ e) in
      let same = ready_memory-eq_self cache_nodes memory l ne in
      inr (n, fs, rw same r, ap (λ (m : ObjectList T). m.object) same)
