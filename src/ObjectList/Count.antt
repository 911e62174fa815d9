-- ===== src/ObjectList/Count.antt =====
-- `nodes_count_` of lne/ObjectList_T.h: no operation writes it after the constructor.
use lne.Prelude.{ℕ, zero, suc, ◌+◌, ◌≡◌, refl, true, List, [], ◌∷◌, arith, ◌∙◌}
use lne.Ring.{Ptr}
use lne.ObjectList.{
  ObjectList, new_object_list, init_nodes_loop, extend_memory_loop, extend_memory, ready_memory,
  push_front, push_back, push_front_node, push_back_node, link_node, pop_front, pop_back,
  unlink_front, unlink_back, put_free, count, is_empty,
}

-- One call, with what `malloc` answers where it is called.
pub data Op {ℓ} (T : Type ℓ) : Type ℓ where
  pushes_front pushes_back : Ptr → T → Op T
  pops_front pops_back : T → Op T

module _ {ℓ} {T : Type ℓ} where
  unfoldable pub apply : ℕ → Op T → ObjectList T → ObjectList T
  apply cache_nodes (pushes_front memory object) l = (push_front cache_nodes memory object l).0
  apply cache_nodes (pushes_back memory object) l = (push_back cache_nodes memory object l).0
  apply cache_nodes (pops_front object) l = (pop_front object l).0
  apply cache_nodes (pops_back object) l = (pop_back object l).0

  unfoldable pub run : ℕ → List (Op T) → ObjectList T → ObjectList T
  run cache_nodes [] l = l
  run cache_nodes (o ∷ ops) l = run cache_nodes ops (apply cache_nodes o l)

  extend_memory_loop-count :
      (rounds i : ℕ) (memory : Ptr) (l : ObjectList T)
      → (extend_memory_loop rounds i memory l).nodes_count ≡ l.nodes_count
  unfolding extend_memory_loop
  extend_memory_loop-count zero i memory l = refl
  extend_memory_loop-count (suc rounds) i memory l =
      extend_memory_loop-count rounds (i + 1) memory _

  ready_memory-count :
      (cache_nodes : ℕ) (memory : Ptr) (l : ObjectList T)
      → (ready_memory cache_nodes memory l).nodes_count ≡ l.nodes_count
  unfolding ready_memory extend_memory
  ready_memory-count cache_nodes memory l = ground (
    arith,
    extend_memory_loop-count cache_nodes 0 memory
        (record l { memory_head = memory ∷ l.memory_head }),
  )

  push_back_node-count :
      (n : Ptr) (object : T) (l : ObjectList T)
      → (push_back_node n object l).nodes_count ≡ l.nodes_count
  unfolding push_back_node link_node
  push_back_node-count n object l = ground arith

  apply-count :
      (cache_nodes : ℕ) (o : Op T) (l : ObjectList T)
      → (apply cache_nodes o l).nodes_count ≡ l.nodes_count
  unfolding apply push_front push_back push_front_node pop_front pop_back unlink_front unlink_back
      put_free
  apply-count cache_nodes (pushes_front memory object) l =
      let m = ready_memory cache_nodes memory l in
      ground
        (arith, ready_memory-count cache_nodes memory l, push_back_node-count m.nodes_free object m)
  apply-count cache_nodes (pushes_back memory object) l =
      let m = ready_memory cache_nodes memory l in
      ground
        (arith, ready_memory-count cache_nodes memory l, push_back_node-count m.nodes_free object m)
  apply-count cache_nodes (pops_front object) l = ground arith
  apply-count cache_nodes (pops_back object) l = ground arith

  pub run-count :
      (cache_nodes : ℕ) (ops : List (Op T)) (l : ObjectList T)
      → (run cache_nodes ops l).nodes_count ≡ l.nodes_count
  unfolding run
  run-count cache_nodes [] l = refl
  run-count cache_nodes (o ∷ ops) l =
      run-count cache_nodes ops (apply cache_nodes o l) ∙ apply-count cache_nodes o l

  init_nodes_loop-count :
      (rounds i : ℕ) (nodes : Ptr) (l : ObjectList T)
      → (init_nodes_loop rounds i nodes l).nodes_count ≡ l.nodes_count
  unfolding init_nodes_loop
  init_nodes_loop-count zero i nodes l = refl
  init_nodes_loop-count (suc rounds) i nodes l = init_nodes_loop-count rounds (i + 1) nodes _

  -- After any history of pushes and pops on a new list, `count` is 0 and `IsEmpty` is true,
  -- whatever the list holds.
  pub is_empty-run :
      (cache_nodes : ℕ) (nodes : Ptr) (prev next : Ptr → Ptr) (object : Ptr → T) (ops : List (Op T))
      → let l = run cache_nodes ops (new_object_list cache_nodes nodes prev next object) in
        (count l ≡ 0) × (is_empty l ≡ true)
  unfolding count is_empty new_object_list
  is_empty-run cache_nodes nodes prev next object ops =
      let l = new_object_list cache_nodes nodes prev next object in
      let e : (run cache_nodes ops l).nodes_count ≡ 0 =
        run-count cache_nodes ops l ∙ init_nodes_loop-count cache_nodes 0 nodes _ in
      (e, rw e)
