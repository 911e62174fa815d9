-- ===== src/Examples/Pools.antt =====
-- The pool of the connections over several calls, and the program that makes one.
use lne.Prelude.{ℕ, ◌≡◌, ◌≢◌, ◌⊎◌, refl, sym, subst, true, false, some, List, [], ◌∷◌, arith}
use lne.Ring.{Ptr, null}
use lne.ExtendObject.{new_ref_object, add_ref, release}
use lne.ObjectList
use lne.ObjectList.{
  ObjectList, pop_back, push_back, ready_memory, extend_memory, extend_memory_loop, push_back_node,
  link_node, unlink_back, put_free,
}
use lne.ObjectList.Free.{Fresh}
use lne.ObjectList.Repr.{contents}
use lne.ObjectStack
use lne.ObjectStack.{ObjectStack, Holds}
use lne.ObjectQueue.{ObjectQueue}
use lne.SockPad
use lne.SockPad.{SockPad, closing}
use lne.SockEventer.{push_object, pop_object}
use lne.SockEventer.Alloc.{alloc, pop_or_new, is_new}
use lne.SockSpray.{SockSpray, new_sock_spray, clean}
use lne.SockSpray.Pool.{SockSprayPool, new_instance, alloc_spray, sprays}
use lne.Pproxy.Main
use lne.Pproxy.Main.{
  IsReady, main, exits, serves, created, data_pool, spray_pool, spring_pool, connector, reactor,
  main_lem,
}
use lne.SockSpray.Pool.Life.{
  Op, allocs, ends, fails, holds, leaves, apply, run, alloc_step, end_step, taken_back, given_up,
  fail_step, delete_sprays, destroy_pool, destroy_if, AreAllowed,
}
use lne.SockSpray.Pool.History.{start, Settled, run-new_instance}

abbrev no_nodes : ObjectList Ptr
no_nodes = record {
  memory_head = [];
  nodes_count = 0;
  nodes_circle = 0;
  nodes_free = 0;
  prev = λ _. 0;
  next = λ _. 0;
  object = λ _. 0;
}

no_nodes-Holds : Holds (record { list = no_nodes }) []
no_nodes-Holds = record {
  nodes = [];
  spare = [];
  repr = record { circle = refl; free = refl; distinct = tt };
  objects = refl;
}

-- What `NewInstance` makes for a data pool at address 40.
abbrev pool : SockSprayPool
pool = record {
  eventers = record {
    ref = record { reference = 1 };
    limit_cache = 128;
    objects = record { list = no_nodes };
  };
  data_pool = 40;
  limit_write_cache = 10;
}

abbrev queue : ObjectQueue Ptr
queue = record { list = no_nodes }

abbrev pad : ℕ → SockPad
pad s = record { family = 2; socket = some s }

abbrev unused : Ptr → SockSpray
unused p = new_sock_spray 10 queue

-- A connection is made, given back, taken again, cleaned and given back; the holders leave.
abbrev calls : List Op
calls =
    allocs 90 queue (pad 5) 50
    ∷ holds
    ∷ ends 2 200 1 90
    ∷ allocs 91 queue (pad 6) 50
    ∷ fails 1 90
    ∷ leaves
    ∷ ends 2 0 1 90
    ∷ leaves
    ∷ []

none_of : (l : ObjectList Ptr) (xs : List Ptr) → contents l xs ≡ [] → xs ≡ []
none_of l [] e = refl
none_of l (x ∷ xs) e = cc

-- Nodes are no others where there are none.
nodes-Fresh :
    (s : ObjectStack Ptr) (k : ℕ) (nodes : Ptr) (h : Holds s [])
    → nodes ≢ null
    → Fresh 0 k nodes h.nodes
nodes-Fresh s k nodes h ne =
    subst (Fresh 0 k nodes) (sym (none_of s.list h.nodes h.objects)) (λ j from to. refl)

calls_allowed : AreAllowed calls (start unused pool (record { reference = 2 }))
unfolding apply alloc_step end_step taken_back given_up fail_step delete_sprays destroy_pool
    destroy_if start alloc_spray alloc pop_or_new is_new sprays SockPad.is_valid SockPad.assign
    SockPad.attach SockPad.close closing push_object pop_object release add_ref ObjectStack.push
    ObjectStack.pop ObjectStack.count pop_back push_back ready_memory extend_memory
    extend_memory_loop push_back_node link_node unlink_back put_free ObjectList.count clean
    new_sock_spray
calls_allowed = (
  (omega arith, refl, omega arith, omega arith),
  (
    (omega arith, omega arith),
    (
      (refl, omega arith, nodes-Fresh _ 2 200),
      (
        (omega arith, refl, omega arith, omega arith),
        (refl, (omega arith, ((refl, omega arith, nodes-Fresh _ 2 0), (omega arith, tt)))),
      ),
    ),
  ),
)

made :
    new_instance true 40 10 128 (record { list = no_nodes }) (record { reference = 1 })
    ≡ (some pool, record { reference = 2 })
unfolding new_instance new_ref_object add_ref
made = refl

run-new_instance_example : Settled 1 (run calls (start unused pool (record { reference = 2 })))
run-new_instance_example =
    run-new_instance unused 40 10 128 (record { list = no_nodes }) (record { reference = 1 })
      (record { reference = 2 }) pool calls no_nodes-Holds (omega arith) made calls_allowed

-- Everything can be made, and the reactor cannot bind the spring.
main_lem_example :
    let out = main (some 7) (λ _. true) true false (Main.start (λ _. new_ref_object)) in
    (¬ IsReady (some 7) (λ _. true) true
      × (out.0 ≡ exits)
      × (out.1.destroyed ≡ created (some 7) (λ _. true))
      × (out.1.closed ≡ closing (some 7))
      × (out.1.bound ≡ false))
    ⊎ (IsReady (some 7) (λ _. true) true
        × (out.0 ≡ serves)
        × (out.1.destroyed ≡ [])
        × (out.1.closed ≡ closing (some 7))
        × (out.1.bound ≡ false)
        × ((out.1.ref data_pool).reference ≡ 2)
        × ((out.1.ref spray_pool).reference ≡ 2)
        × ((out.1.ref spring_pool).reference ≡ 1)
        × ((out.1.ref connector).reference ≡ 1)
        × ((out.1.ref reactor).reference ≡ 1))
main_lem_example = main_lem (some 7) (λ _. true) true false (λ _. new_ref_object)
