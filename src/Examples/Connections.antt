-- ===== src/Examples/Connections.antt =====
-- Connections of lne/SockSpray.cpp at concrete inputs.
use lne.Prelude.{
  ℕ, ◌≤◌, ◌<◌, ◌≡◌, ◌≢◌, ◌⊎◌, true, false, refl, List, [], ◌∷◌, ◌++◌, arith, ◌==◌, map, length,
  if◌then◌else◌,
}
use lne.Ring.{Ptr, null}
use lne.ObjectList.{
  new_object_list, init_nodes_loop, push_back, ready_memory, push_back_node, link_node,
}
use lne.ObjectList.Count.{run, apply, pushes_back}
use lne.ObjectQueue.{ObjectQueue, Holds}
use lne.SockSpray.{SockSpray, new_sock_spray, clean, no_send, block_release, socket_shutdown}
use lne.SockSpray.Clean.{at_hand, clean-Holds, shutdown-run}
use lne.SockSpray.Write.{shutdown, interrupted, entering, claiming, write_step}
use lne.SockSpray.System.{System, Reach, here, later, starts_write, writes, write}
use lne.SockSpray.System.Inv.{total, writing, reading, cached, Sent}
use lne.SockSpray.System.Start.{start, new_sock_spray-Reach}

-- A queue with the blocks 7 and 8 in the nodes at 100 and 101, and one with its node spare.
abbrev other : Ptr → Ptr
other p = if p == 100 then 101 else 100

abbrev two_blocks : ObjectQueue Ptr
two_blocks = record {
  list = record {
    memory_head = [];
    nodes_count = 0;
    nodes_circle = 100;
    nodes_free = 0;
    prev = other;
    next = other;
    object = λ p. if p == 100 then 7 else 8;
  };
}

two_blocks-Holds : Holds two_blocks (7 ∷ 8 ∷ [])
two_blocks-Holds = record {
  nodes = 100 ∷ 101 ∷ [];
  spare = [];
  repr = record { circle = ground arith; free = refl; distinct = ground arith };
  objects = refl;
}

abbrev no_blocks : ObjectQueue Ptr
no_blocks = record { list = record (two_blocks.list) { nodes_circle = 0 } }

no_blocks-Holds : Holds no_blocks []
no_blocks-Holds = record {
  nodes = [];
  spare = [];
  repr = record { circle = refl; free = refl; distinct = tt };
  objects = refl;
}

abbrev waiting : SockSpray
waiting = new_sock_spray 10 two_blocks

waiting-length : length {A = Ptr} (7 ∷ 8 ∷ []) < 3
waiting-length = omega arith

still_two : Holds waiting.send_blocks (7 ∷ 8 ∷ [])
unfolding new_sock_spray
still_two = two_blocks-Holds

clean-Holds_example :
    let out = clean 3 waiting in
    Holds out.0.send_blocks []
    × (out.0.send ≡ no_send)
    × (out.1 ≡ map block_release (at_hand waiting.send.cache_buf ++ 7 ∷ 8 ∷ []))
clean-Holds_example = clean-Holds 3 waiting (7 ∷ 8 ∷ []) waiting-length still_two

abbrev pushed : SockSpray
pushed =
    new_sock_spray 10
      (record { list = run 2 (pushes_back null 7 ∷ []) (new_object_list 2 100 other other other) })

pushed-list :
    pushed.send_blocks.list
    ≡ run 2 (pushes_back null 7 ∷ []) (new_object_list 2 100 other other other)
unfolding new_sock_spray
pushed-list = refl

pushed-Holds : Holds pushed.send_blocks (7 ∷ [])
unfolding new_sock_spray run apply push_back ready_memory push_back_node link_node new_object_list
    init_nodes_loop
pushed-Holds = record {
  nodes = 101 ∷ [];
  spare = 100 ∷ [];
  repr = record { circle = (refl, ground arith); free = (refl, refl); distinct = ground arith };
  objects = refl;
}

shutdown-run_example :
    let out = shutdown pushed in
    Holds out.0.send_blocks (7 ∷ [])
    × (out.0.send ≡ pushed.send)
    × (((pushed.send.cache_buf ≡ null)
          × (out.1 ≡ socket_shutdown ∷ [])
          × (out.0.shut ≡ record { query = true; invoke = true; already = false }))
        ⊎ ((pushed.send.cache_buf ≢ null)
            × (out.1 ≡ [])
            × (out.0.shut ≡ record { query = true; invoke = false; already = false })))
unfolding new_sock_spray
shutdown-run_example =
    shutdown-run 2 100 other other other (pushes_back null 7 ∷ []) pushed 7 [] pushed-list
      pushed-Holds refl

-- A writer that starts, goes past the first test and takes the send process.
abbrev begun : System
begun = start (new_sock_spray 10 no_blocks)

abbrev size : Ptr → ℕ
size _ = 50

abbrev entered : System
entered = record begun { writers = entering ∷ begun.writers }

abbrev passed : System
passed = write size interrupted [] entering [] entered

abbrev taken : System
taken = write size interrupted [] claiming [] passed

three_steps : Reach size begun taken
unfolding start new_sock_spray write write_step
three_steps =
    later (later (later here (starts_write refl)) (writes interrupted [] entering [] refl tt refl))
      (writes interrupted [] claiming [] refl tt refl)

new_sock_spray-Reach_example :
    (total writing taken.writers ≤ 1)
    × (total reading taken.readers ≤ 1)
    × (taken.shutdowns ≤ 1)
    × ((queue : List Ptr) × Holds taken.spray.send_blocks queue
        × (taken.appended ≡ taken.released ++ (cached taken.spray.send.cache_buf ++ queue)))
    × Sent size taken.wire taken.released taken.spray.send.cache_buf taken.spray.send.cache_len
new_sock_spray-Reach_example =
    new_sock_spray-Reach 10 no_blocks size taken no_blocks-Holds three_steps
