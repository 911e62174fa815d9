-- ===== src/Examples/Tasks.antt =====
-- The thread pool of lne/ThreadPool.cpp at concrete inputs.
use lne.Prelude.{
  ◌+◌, ◌≤◌, ◌≡◌, refl, true, false, some, [], ◌∷◌, ◌++◌, arith, length, ◌==◌, if◌then◌else◌,
}
use lne.Ring.{Ptr, null}
use lne.ThreadPool.{
  ThreadPool, new_instance, new_thread_pool, create_loop, min_uint, enqueue, post_task, auto_create,
}
use lne.ThreadPool.Queue.{Queued, enqueue-Queued}
use lne.ThreadPool.Run.{
  System, Reach, here, later, posts, works, post, work, waiting, polling, service_step, note,
}
use lne.ThreadPool.Run.Inv.{serving_count, in_service}
use lne.SockPad.Accounts.{count}
use lne.ThreadPool.Run.Start.{start, new_instance-Reach}

-- A pool with the tasks at 20 and 21 queued.
abbrev two_tasks : ThreadPool
two_tasks = record {
  available = true;
  exit_request = false;
  num_thread = 1;
  run_thread = 0;
  limit_thread = 4;
  num_tasks = 2;
  tasks_head = 20;
  tasks_rear = 21;
  next = λ p. if p == 20 then 21 else 0;
}

two_tasks-Queued : Queued two_tasks (20 ∷ 21 ∷ [])
two_tasks-Queued = record {
  head = ground arith;
  rear_is = refl;
  distinct = ground arith;
  count = refl;
}

enqueue-Queued_example : Queued (enqueue 22 two_tasks) (20 ∷ 21 ∷ 22 ∷ [])
enqueue-Queued_example =
    enqueue-Queued 22 two_tasks (20 ∷ 21 ∷ []) refl (ground arith) (omega arith) two_tasks-Queued

-- A pool for at most four threads, in which every thread can be created.
abbrev fresh : ThreadPool
fresh = new_thread_pool 1 4 true 500 (λ _. true) (λ _. null)

fresh-made : new_instance 4 true 500 (λ _. true) (λ _. null) ≡ some fresh
unfolding new_instance new_thread_pool create_loop min_uint
fresh-made = refl

-- A task is posted, and the thread takes it.
abbrev posted : System
posted = post true 20 (start fresh)

abbrev woken : System
woken = work true [] waiting [] posted

abbrev busy_one : System
busy_one = work true [] polling [] woken

three_steps : Reach (start fresh) busy_one
unfolding start new_thread_pool create_loop min_uint post work post_task enqueue auto_create
    service_step note
three_steps =
    later
      (later (later here (posts true 20 refl (ground arith) (ground arith) refl))
        (works true [] waiting [] refl refl))
      (works true [] polling [] refl refl)

new_instance-Reach_example :
    Queued busy_one.pool busy_one.queue
    × (busy_one.posted ≡ busy_one.taken ++ busy_one.queue)
    × ((x : Ptr)
        → count x busy_one.taken
          ≡ count x busy_one.served
            + count x busy_one.discarded
            + count x (in_service busy_one.workers))
    × (busy_one.pool.num_tasks ≡ length busy_one.queue)
    × (busy_one.pool.run_thread ≡ serving_count busy_one.workers)
    × (busy_one.pool.run_thread ≤ busy_one.pool.num_thread)
    × (busy_one.pool.num_thread ≤ busy_one.pool.limit_thread)
new_instance-Reach_example =
    new_instance-Reach 4 true 500 (λ _. true) (λ _. null) fresh busy_one (omega arith) fresh-made
      three_steps
