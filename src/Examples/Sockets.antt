-- ===== src/Examples/Sockets.antt =====
-- Socket pads and the circle of eventers of lne/SockPad.h and lne/SockReactor.cpp at concrete inputs.
use lne.Prelude.{
  ℕ, ◌<◌, ◌≤◌, ◌⊎◌, ◌++◌, Bool, ltb, ◌≡◌, refl, true, false, none, some, List, [], ◌∷◌, arith, ◌==◌,
  if◌then◌else◌,
}
use lne.Ring.{Ptr, null, has}
use lne.SockPad.{attach, assign, close, closing}
use lne.SockPad.Ownership
use lne.SockPad.Ownership.{Pads, Op, attaches, moves, closes, AreNew, Inv, run-Inv}
use lne.SockReactor.{SockReactor, terminate_loop, unbind, timer_round}
use lne.SockReactor.History
use lne.SockReactor.History.{binds, unbinds, times, still, run-Holds}
use lne.SockReactor.Idle.{Due, timer_round-Due}
use lne.SockReactor.Start.{
  new_instance, joins_below, memory_calls, poller_calls, new_instance_lem, Started,
}
use lne.SockReactor.Terminate.{terminate_loop-Bound}
use lne.ObjectList
use lne.ObjectStack
use lne.ObjectStack.{Holds}
use lne.SockEventer.{SockEventerPool, push_object, pop_object}
use lne.SockEventer.Reuse.{push_object-pop_object}
use lne.SockReactor.Circle.{Bound, Left, unbind-Left}

abbrev no_pads : Pads
no_pads = record { pad = λ _. record { family = 0; socket = none }; opened = []; closed = [] }

no_pads-Inv : Inv no_pads
no_pads-Inv = record {
  alone = λ i j s e f. cc e;
  live = λ i s e. cc e;
  known = λ s e. cc e;
  once = tt;
}

abbrev handover : List Op
handover = attaches 0 2 5 ∷ moves 1 0 ∷ attaches 0 2 6 ∷ closes 1 ∷ []

handover-AreNew : AreNew handover no_pads
unfolding Ownership.apply attach assign close closing
handover-AreNew = ground arith

run-Inv_example : Inv (Ownership.run handover no_pads)
run-Inv_example = run-Inv handover no_pads handover-AreNew no_pads-Inv

-- A reactor with the eventers at 10, 11 and 12.
abbrev three : SockReactor
three = record {
  available = true;
  poller = some 3;
  idle_timeout = 60;
  exit_check_interval = 10;
  eventer_circle = 10;
  prev = λ p. if p == 10 then 12 else if p == 11 then 10 else 11;
  next = λ p. if p == 10 then 11 else if p == 11 then 12 else 10;
  active = λ _. 0;
  has_threads = true;
  exit_request = false;
  thread_workers = 2;
}

three-Bound : Bound three (10 ∷ 11 ∷ 12 ∷ [])
three-Bound = ground arith

unbind-Left_example : Left (unbind 11 three) (12 ∷ 10 ∷ [])
unbind-Left_example = unbind-Left 11 three (10 ∷ []) (12 ∷ []) (ground arith) three-Bound

-- A pool of eventers with one eventer, at 10, and a node to spare.
abbrev eventers : SockEventerPool
eventers = record {
  ref = record { reference = 3 };
  limit_cache = 128;
  objects = record {
    list = record {
      memory_head = [];
      nodes_count = 0;
      nodes_circle = 100;
      nodes_free = 101;
      prev = λ p. if p == 101 then 0 else 100;
      next = λ p. if p == 101 then 0 else 100;
      object = λ _. 10;
    };
  };
}

eventers-Holds : Holds eventers.objects (10 ∷ [])
eventers-Holds = record {
  nodes = 100 ∷ [];
  spare = 101 ∷ [];
  repr = record { circle = ground arith; free = ground arith; distinct = ground arith };
  objects = refl;
}

eleven_kept : (push_object 128 null 11 eventers).1 ≡ []
unfolding push_object ObjectStack.push ObjectStack.count ObjectList.push_back
    ObjectList.ready_memory ObjectList.count
eleven_kept = refl

push_object-pop_object_example :
    let back = pop_object (push_object 128 null 11 eventers).0 in
    (back.1 ≡ 11) × Holds back.0.objects (10 ∷ []) × (back.0.ref.reference ≡ 3)
push_object-pop_object_example =
    push_object-pop_object 128 null 11 eventers (10 ∷ []) eventers-Holds (omega arith)
      (λ ne. absurd (ne refl)) (omega arith) (omega arith) (omega arith) eleven_kept

terminate_loop-Bound_example : terminate_loop 3 10 three ≡ 10 ∷ 11 ∷ 12 ∷ []
terminate_loop-Bound_example =
    terminate_loop-Bound 3 three 10 (11 ∷ 12 ∷ []) (ground arith) three-Bound (omega arith)

-- The three eventers, then one more, and one of the three less, with a round of `Timer` between.
abbrev bound : Ptr → Bool
bound p = has p (10 ∷ 11 ∷ 12 ∷ [])

abbrev calls : List History.Op
calls = binds 13 90 ∷ times 9 (λ e. e == 11) 100 (100 ∷ 100 ∷ 101 ∷ []) ∷ unbinds 11 ∷ []

three-Holds : History.Holds three bound
three-Holds = record {
  eventers = 10 ∷ 11 ∷ 12 ∷ [];
  circle = three-Bound;
  distinct = ground arith;
  members = λ p. refl;
}

run-Holds_example : History.Holds (History.run calls three) (λ p. still p calls (bound p))
run-Holds_example = run-Holds calls three bound (ground arith) three-Holds

timer_round-Due_example :
    Due (λ e. e == 11) 100 three (timer_round 9 (λ e. e == 11) 100 (100 ∷ 100 ∷ 101 ∷ []) three).1
timer_round-Due_example =
    timer_round-Due 9 (λ e. e == 11) 100 (100 ∷ 100 ∷ 101 ∷ []) three (ground arith)

-- Three workers are asked for, and the third thread is not made.
abbrev two_threads : ℕ → Bool
two_threads i = ltb i 2

new_instance_lem_example :
    let out = new_instance 3 60 5 (some 4) true two_threads three.prev three.next three.active in
    ((r : SockReactor) × (out ≡ (some r, []))
      × (r.thread_workers ≡ 4)
      × ((j : ℕ) → j < 4 → two_threads j ≡ true)
      × (5 ≤ r.idle_timeout))
    ⊎ ((n : ℕ) × Started 3 (some 4) true two_threads n
        × (out ≡ (none, joins_below n ++ (memory_calls (some 4) true ++ poller_calls (some 4)))))
new_instance_lem_example =
    new_instance_lem 3 60 5 (some 4) true two_threads three.prev three.next three.active
      (ground arith) (omega arith) (ground arith) (ground arith)
