-- ===== src/Examples/Lists.antt =====
-- Object lists, queues and stacks of lne/ObjectList_T.h, lne/ObjectQueue_T.h and
-- lne/ObjectStack_T.h at concrete inputs.
use lne.Prelude.{ℕ, ◌≡◌, ◌⊎◌, refl, true, [], ◌∷◌, arith, ◌==◌, if◌then◌else◌}
use lne.Config.{lnerr_ok, lnerr_nomemory}
use lne.Ring.{Ptr, null}
use lne.ObjectList.{ObjectList, new_object_list, count, is_empty}
use lne.ObjectList.Repr.{Repr}
use lne.ObjectList.Count
use lne.ObjectList.Count.{Op, pushes_front, pushes_back, pops_front, is_empty-run}
use lne.ObjectQueue
use lne.ObjectQueue.{ObjectQueue, append-Holds, extract-Holds}
use lne.ObjectStack
use lne.ObjectStack.{ObjectStack, push-Holds, pop-Holds}

abbrev other : Ptr → Ptr
other p = if p == 100 then 101 else 100

-- A list of the objects 7 and 8, in the nodes at 100 and 101, with the node at 102 spare.
abbrev pub two : ObjectList ℕ
two = record {
  memory_head = [];
  nodes_count = 0;
  nodes_circle = 100;
  nodes_free = 102;
  prev = λ p. if p == 102 then 0 else other p;
  next = λ p. if p == 102 then 0 else other p;
  object = λ p. if p == 100 then 7 else 8;
}

pub two-Repr : Repr two (100 ∷ 101 ∷ []) (102 ∷ [])
two-Repr = record { circle = ground arith; free = ground arith; distinct = ground arith }

abbrev pub two_queue : ObjectQueue ℕ
two_queue = record { list = two }

pub two_queue-Holds : ObjectQueue.Holds two_queue (7 ∷ 8 ∷ [])
two_queue-Holds = record {
  nodes = 100 ∷ 101 ∷ [];
  spare = 102 ∷ [];
  repr = two-Repr;
  objects = refl;
}

abbrev two_stack : ObjectStack ℕ
two_stack = record { list = two }

two_stack-Holds : ObjectStack.Holds two_stack (7 ∷ 8 ∷ [])
two_stack-Holds = record {
  nodes = 100 ∷ 101 ∷ [];
  spare = 102 ∷ [];
  repr = two-Repr;
  objects = refl;
}

append-Holds_example :
    let out = ObjectQueue.append 128 null 9 two_queue in
    ((null ≡ null) × (out ≡ (two_queue, lnerr_nomemory)))
    ⊎ (ObjectQueue.Holds out.0 (7 ∷ 8 ∷ 9 ∷ []) × (out.1 ≡ lnerr_ok))
append-Holds_example =
    append-Holds 128 null 9 two_queue (7 ∷ 8 ∷ []) two_queue-Holds (omega arith)
      (λ ne. absurd (ne refl))

extract-Holds_example :
    let out = ObjectQueue.extract 0 two_queue in
    ObjectQueue.Holds out.0 (8 ∷ []) × (out.1 ≡ 7) × (out.2 ≡ lnerr_ok)
extract-Holds_example = extract-Holds 0 7 two_queue (8 ∷ []) two_queue-Holds

is_empty-run_example :
    let l =
      Count.run 2
        (pushes_back null 7 ∷ pushes_front null 8 ∷ pops_front 0 ∷ [])
        (new_object_list 2 100 other other other) in
    (count l ≡ 0) × (is_empty l ≡ true)
is_empty-run_example =
    is_empty-run 2 100 other other other
      (pushes_back null 7 ∷ pushes_front null 8 ∷ pops_front 0 ∷ [])
