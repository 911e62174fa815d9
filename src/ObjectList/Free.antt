-- ===== src/ObjectList/Free.antt =====
-- The free list: a node given back, and the nodes of a fresh block of memory.
use lne.Prelude.{
  ℕ, zero, suc, ◌+◌, ◌<◌, ◌≤◌, ◌≡◌, ◌≢◌, refl, false, List, [], ◌∷◌, ◌++◌, arith, ==_of_ne,
}
use lne.Ring.{Ptr, null, has, Distinct}
use lne.Ring.Relink.{has-append}
use lne.ObjectList.{
  ObjectList, new_object_list, init_nodes_loop, extend_memory_loop, extend_memory, put_free,
}
use lne.Ring.Distinct.{Distinct-append_right, Distinct-apart, Distinct-unmiddle}
use lne.ObjectList.Repr.{Repr, Circle, FreeChain, Circle-ext, FreeChain-ext}

-- The free list after `rounds` nodes from `memory + i` on were put before `fs`.
unfoldable pub block : ℕ → ℕ → Ptr → List Ptr → List Ptr
block zero i memory fs = fs
block (suc rounds) i memory fs = block rounds (i + 1) memory ((memory + i) ∷ fs)

-- None of the nodes from `memory + i` up to `memory + k` is among `xs`: what `malloc` promises.
abbrev pub Fresh : ℕ → ℕ → Ptr → List Ptr → Type 0
Fresh i k memory xs = (j : ℕ) → i ≤ j → j < k → has (memory + j) xs ≡ false

module _ {ℓ} {T : Type ℓ} where
  -- `put_free` gives the node to the free list: the rest of the circle does not see it.
  pub put_free-Repr :
      (l : ObjectList T) (node : Ptr) (xs fs : List Ptr)
      → Circle l.prev l.next l.nodes_circle xs
      → FreeChain l.next l.nodes_free fs
      → Distinct (xs ++ node ∷ fs)
      → Repr (put_free node l) xs (node ∷ fs)
  unfolding put_free
  put_free-Repr l node xs fs c f d = record {
    circle =
        Circle-ext l.prev l.next _ _ l.nodes_circle xs
          (λ a i. ground (arith, Distinct-apart xs (node ∷ fs) a d i)) c;
    free = (
      refl,
      FreeChain-ext l.next _ _ fs (λ a i. ground (arith, Distinct-append_right xs (node ∷ fs) d))
          (ground arith),
    );
    distinct = d;
  }

  extend_memory_loop-Repr :
      (rounds i k : ℕ) (memory : Ptr) (l : ObjectList T) (xs fs : List Ptr)
      → i + rounds ≡ k
      → memory ≢ null
      → Fresh i k memory (xs ++ fs)
      → Repr l xs fs
      → Repr (extend_memory_loop rounds i memory l) xs (block rounds i memory fs)
  unfolding extend_memory_loop block
  extend_memory_loop-Repr zero i k memory l xs fs e ne fresh r = r
  extend_memory_loop-Repr (suc rounds) i k memory l xs fs e ne fresh r =
      extend_memory_loop-Repr rounds (i + 1) k memory _ xs ((memory + i) ∷ fs) (omega arith) ne
        (λ j from to. ground (
          arith,
          has-append (memory + j) xs ((memory + i) ∷ fs),
          has-append (memory + j) xs fs,
          fresh j,
        ))
        (unfold put_free in
          put_free-Repr l (memory + i) xs fs r.circle r.free (
            Distinct-unmiddle xs (memory + i) fs
              (omega arith, fresh i (omega arith) (omega arith), r.distinct)))

  -- A block of memory makes all its nodes spare.
  pub extend_memory-Repr :
      (cache_nodes : ℕ) (memory : Ptr) (l : ObjectList T) (xs fs : List Ptr)
      → memory ≢ null
      → Fresh 0 cache_nodes memory (xs ++ fs)
      → Repr l xs fs
      → Repr (extend_memory cache_nodes memory l) xs (block cache_nodes 0 memory fs)
  unfolding extend_memory
  extend_memory-Repr cache_nodes memory l xs fs ne fresh r = rw (==_of_ne memory null ne) (
      extend_memory_loop-Repr cache_nodes 0 cache_nodes memory _ xs fs (omega arith) ne fresh
        (record { circle = r.circle; free = r.free; distinct = r.distinct }))

  init_nodes_loop-Repr :
      (rounds i k : ℕ) (nodes : Ptr) (l : ObjectList T) (fs : List Ptr)
      → i + rounds ≡ k
      → nodes ≢ null
      → Fresh i k nodes fs
      → Repr l [] fs
      → Repr (init_nodes_loop rounds i nodes l) [] (block rounds i nodes fs)
  unfolding init_nodes_loop block
  init_nodes_loop-Repr zero i k nodes l fs e ne fresh r = r
  init_nodes_loop-Repr (suc rounds) i k nodes l fs e ne fresh r =
      init_nodes_loop-Repr rounds (i + 1) k nodes _ ((nodes + i) ∷ fs) (omega arith) ne
        (λ j from to. ground (arith, fresh j))
        (record {
          circle = r.circle;
          free = (
            refl,
            FreeChain-ext l.next _ _ fs (λ a m. ground (arith, fresh i)) (ground (arith, r.free)),
          );
          distinct = (omega arith, fresh i (omega arith) (omega arith), r.distinct);
        })

  -- A new list is empty, with all its own nodes spare.
  pub new_object_list-Repr :
      (cache_nodes : ℕ) (nodes : Ptr) (prev next : Ptr → Ptr) (object : Ptr → T)
      → nodes ≢ null
      → Repr (new_object_list cache_nodes nodes prev next object) [] (block cache_nodes 0 nodes [])
  unfolding new_object_list
  new_object_list-Repr cache_nodes nodes prev next object ne =
      init_nodes_loop-Repr cache_nodes 0 cache_nodes nodes _ [] (omega arith) ne (λ j from to. refl)
        (record { circle = refl; free = refl; distinct = tt })

  extend_memory_loop-object :
      (rounds i : ℕ) (memory : Ptr) (l : ObjectList T)
      → (extend_memory_loop rounds i memory l).object ≡ l.object
  unfolding extend_memory_loop
  extend_memory_loop-object zero i memory l = refl
  extend_memory_loop-object (suc rounds) i memory l =
      extend_memory_loop-object rounds (i + 1) memory _

  pub extend_memory-object :
      (cache_nodes : ℕ) (memory : Ptr) (l : ObjectList T)
      → (extend_memory cache_nodes memory l).object ≡ l.object
  unfolding extend_memory
  extend_memory-object cache_nodes memory l = ground (
    arith,
    extend_memory_loop-object cache_nodes 0 memory
        (record l { memory_head = memory ∷ l.memory_head }),
  )

block-cons :
    (rounds i : ℕ) (memory : Ptr) (f : Ptr) (fs : List Ptr)
    → (n : Ptr) × (rest : List Ptr) × (block rounds i memory (f ∷ fs) ≡ n ∷ rest)
unfolding block
block-cons zero i memory f fs = (f, fs, refl)
block-cons (suc rounds) i memory f fs = block-cons rounds (i + 1) memory (memory + i) (f ∷ fs)

-- A block of at least one node has a first one.
pub block-head :
    (cache_nodes : ℕ) (memory : Ptr)
    → 0 < cache_nodes
    → (n : Ptr) × (rest : List Ptr) × (block cache_nodes 0 memory [] ≡ n ∷ rest)
unfolding block
block-head zero memory h = absurd (omega arith)
block-head (suc rounds) memory h = block-cons rounds (0 + 1) memory (memory + 0) []
