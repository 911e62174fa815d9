-- ===== src/ObjectList.antt =====
-- lne/ObjectList_T.h: a deque of objects in a circle of nodes, with a free list of spare nodes.
-- Nodes stand at addresses; `memory` is the address that `malloc` returns, zero when it fails, and
-- is read only where the source calls it. Addresses count in nodes: `&memory->nodes[i]` is
-- `memory + i`.
pub mod Repr
pub mod Free
pub mod Pop
pub mod Push
pub mod Ready
pub mod Deque
pub mod Count
use lne.Prelude.{ℕ, zero, suc, ◌+◌, Bool, List, [], ◌∷◌, ◌==◌, if◌then◌else◌, update}
use lne.Config.{Status, lnerr_ok, lnerr_nomemory, lnerr_nodata}
use lne.Ring.{Ptr, null}

pub record ObjectList {ℓ} (T : Type ℓ) : Type ℓ where
  pub memory_head : List Ptr
  pub nodes_count : ℕ
  pub nodes_circle : Ptr
  pub nodes_free : Ptr
  pub prev : Ptr → Ptr
  pub next : Ptr → Ptr
  pub object : Ptr → T

module _ {ℓ} {T : Type ℓ} where
  -- The constructor's loop over `init_nodes_`: round `i` puts node `i` before the free list.
  unfoldable pub init_nodes_loop : ℕ → ℕ → Ptr → ObjectList T → ObjectList T
  init_nodes_loop zero i init_nodes l = l
  init_nodes_loop (suc rounds) i init_nodes l =
      init_nodes_loop rounds (i + 1) init_nodes (record l {
        next = update l.next (init_nodes + i) l.nodes_free;
        nodes_free = init_nodes + i;
      })

  -- The fields hold whatever the memory held before.
  unfoldable pub new_object_list : ℕ → Ptr → (prev next : Ptr → Ptr) → (Ptr → T) → ObjectList T
  unfolding init_nodes_loop
  new_object_list cache_nodes init_nodes prev next object =
      init_nodes_loop cache_nodes 0 init_nodes (record {
        memory_head = [];
        nodes_count = 0;
        nodes_circle = null;
        nodes_free = null;
        prev = prev;
        next = next;
        object = object;
      })

  unfoldable pub extend_memory_loop : ℕ → ℕ → Ptr → ObjectList T → ObjectList T
  extend_memory_loop zero i memory l = l
  extend_memory_loop (suc rounds) i memory l = extend_memory_loop rounds (i + 1) memory (record l {
    prev = update l.prev (memory + i) null;
    next = update l.next (memory + i) l.nodes_free;
    nodes_free = memory + i;
  })

  unfoldable pub extend_memory : ℕ → Ptr → ObjectList T → ObjectList T
  extend_memory cache_nodes memory l =
      if memory == null
      then l
      else extend_memory_loop cache_nodes 0 memory
          (record l { memory_head = memory ∷ l.memory_head })

  -- Every popped node goes back to the free list.
  unfoldable pub put_free : Ptr → ObjectList T → ObjectList T
  put_free node l = record l {
    prev = update l.prev node null;
    next = update l.next node l.nodes_free;
    nodes_free = node;
  }

  pub unlink_front : Ptr → ObjectList T → ObjectList T
  unlink_front node l =
      if l.next node == node
      then record l { nodes_circle = null }
      else let circle = l.next node in
        let prev' = update l.prev circle (l.prev node) in
        record l { nodes_circle = circle; prev = prev'; next = update l.next (prev' circle) circle }

  -- The out parameter `object` keeps its value when there is no data.
  pub pop_front : T → ObjectList T → ObjectList T × T × Status
  pop_front object l =
      if l.nodes_circle == null
      then (l, object, lnerr_nodata)
      else let node = l.nodes_circle in
        (put_free node (unlink_front node l), l.object node, lnerr_ok)

  unfoldable pub unlink_back : Ptr → ObjectList T → ObjectList T
  unlink_back node l =
      if l.prev node == node
      then record l { nodes_circle = null }
      else let prev' = update l.prev l.nodes_circle (l.prev node) in
        record l { prev = prev'; next = update l.next (prev' l.nodes_circle) l.nodes_circle }

  unfoldable pub pop_back : T → ObjectList T → ObjectList T × T × Status
  pop_back object l =
      if l.nodes_circle == null
      then (l, object, lnerr_nodata)
      else let node = l.prev l.nodes_circle in
        (put_free node (unlink_back node l), l.object node, lnerr_ok)

  -- The links that a push writes: a circle of its own, or a place between the last and the first.
  unfoldable pub link_node : Ptr → ObjectList T → ObjectList T
  link_node node l =
      if l.nodes_circle == null
      then record l {
        next = update l.next node node;
        prev = update l.prev node node;
        nodes_circle = node;
      }
      else let next' = update l.next node l.nodes_circle in
        let prev' = update l.prev node (l.prev l.nodes_circle) in
        let next'' = update next' (prev' node) node in
        record l { next = next''; prev = update prev' (next'' node) node }

  -- What both pushes do before they link: more memory when no node is spare.
  unfoldable pub ready_memory : ℕ → Ptr → ObjectList T → ObjectList T
  ready_memory cache_nodes memory l =
      if l.nodes_free == null then extend_memory cache_nodes memory l else l

  unfoldable pub push_back_node : Ptr → T → ObjectList T → ObjectList T
  push_back_node node object l =
      let linked = link_node node (record l { nodes_free = l.next node }) in
      record linked { object = update linked.object node object }

  pub push_front_node : Ptr → T → ObjectList T → ObjectList T
  push_front_node node object l =
      let linked = push_back_node node object l in record linked { nodes_circle = node }

  pub push_front : ℕ → Ptr → T → ObjectList T → ObjectList T × Status
  push_front cache_nodes memory object l =
      let m = ready_memory cache_nodes memory l in
      if m.nodes_free == null
      then (m, lnerr_nomemory)
      else (push_front_node m.nodes_free object m, lnerr_ok)

  unfoldable pub push_back : ℕ → Ptr → T → ObjectList T → ObjectList T × Status
  push_back cache_nodes memory object l =
      let m = ready_memory cache_nodes memory l in
      if m.nodes_free == null
      then (m, lnerr_nomemory)
      else (push_back_node m.nodes_free object m, lnerr_ok)

  -- What the destructor hands to `free`, in order.
  pub freed_memory : ObjectList T → List Ptr
  freed_memory l = l.memory_head

  unfoldable pub count : ObjectList T → ℕ
  count l = l.nodes_count

  pub is_empty : ObjectList T → Bool
  unfolding count
  is_empty l = count l == 0
