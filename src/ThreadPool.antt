-- ===== src/ThreadPool.antt =====
-- lne/ThreadPool.h and lne/ThreadPool.cpp: worker threads that take tasks from a linked queue. What
-- `pthread_create` answers is an argument. Each critical section is one step.
pub mod Queue
pub mod Run
use lne.Prelude.{
  ℕ, zero, suc, ◌+◌, ◌-◌, ◌/◌, ◌%◌, Bool, true, false, Option, none, some, List, [], ◌∷◌, ◌==◌, ltb,
  if◌then◌else◌, not, update, ◌&&◌,
}
use lne.Config.{Status, lnerr_unknow}
use lne.Ring.{Ptr, null}
use lne.ExtendObject.{u32_mod}

-- `next` holds the `next_` field of every task.
pub record ThreadPool : Type 0 where
  pub available : Bool
  pub exit_request : Bool
  pub num_thread : ℕ
  pub run_thread : ℕ
  pub limit_thread : ℕ
  pub num_tasks : ℕ
  pub tasks_head : Ptr
  pub tasks_rear : Ptr
  pub next : Ptr → Ptr

unfoldable pub min_uint : ℕ → ℕ → ℕ
min_uint a b = if ltb b a then b else a

-- The constructor's loop: threads are created until one fails. `created i` says that thread `i` is.
unfoldable pub create_loop : ℕ → ℕ → (ℕ → Bool) → ThreadPool → ThreadPool
create_loop zero i created p = p
create_loop (suc rounds) i created p =
    let rest = create_loop rounds (i + 1) created (record p { num_thread = p.num_thread + 1 }) in
    if created i then rest else p

-- The constructor. `condition` says that the condition variable is available, `memory` is what
-- `malloc` returns for the threads.
unfoldable pub new_thread_pool :
    ℕ → ℕ → (condition : Bool) → (memory : Ptr) → (ℕ → Bool) → (Ptr → Ptr) → ThreadPool
new_thread_pool init limit condition memory created next =
    let init' = min_uint init limit in
    let p : ThreadPool = record {
      available = condition && not (memory == null);
      exit_request = false;
      num_thread = 0;
      run_thread = 0;
      limit_thread = limit;
      num_tasks = 0;
      tasks_head = null;
      tasks_rear = null;
      next = next;
    } in
    let q = create_loop init' 0 created p in
    if p.available
    then (if ltb q.num_thread init' then record q { available = false } else q)
    else p

-- `NewInstance`, where `new` itself does not fail: no pool for a limit of zero, and none that is
-- not available.
unfoldable pub new_instance :
    ℕ → (condition : Bool) → (memory : Ptr) → (ℕ → Bool) → (Ptr → Ptr) → Option ThreadPool
new_instance limit condition memory created next =
    let init = if ltb (limit / 5) 1 then 1 else limit / 5 in
    let p = new_thread_pool init limit condition memory created next in
    if ltb 0 limit then (if p.available then some p else none) else none

-- `PostTask` behind the queue: a new thread if there are more tasks than idle threads.
unfoldable pub auto_create : Bool → ThreadPool → ThreadPool
auto_create created p =
    if ltb p.num_thread p.limit_thread
    then (if ltb ((p.num_thread + u32_mod - p.run_thread) % u32_mod) p.num_tasks
        then (if created then record p { num_thread = p.num_thread + 1 } else p)
        else p)
    else p

unfoldable pub enqueue : Ptr → ThreadPool → ThreadPool
enqueue task p =
    if p.tasks_rear == null
    then record p { num_tasks = (p.num_tasks + 1) % u32_mod; tasks_head = task; tasks_rear = task }
    else record p {
      num_tasks = (p.num_tasks + 1) % u32_mod;
      next = update p.next p.tasks_rear task;
      tasks_rear = task;
    }

-- The critical section of `PostTask`, and its result.
unfoldable pub post_task : Bool → Ptr → ThreadPool → ThreadPool × Status
post_task created task p = (auto_create created (enqueue task p), lnerr_unknow)

-- The critical section in which `Service` takes a task out of the queue, null when there is none.
pub dequeue : ThreadPool → ThreadPool × Ptr
dequeue p =
    if p.tasks_head == null
    then (p, null)
    else let task = p.tasks_head in
      let head = p.next task in
      (
        record p {
          num_tasks = (p.num_tasks + u32_mod - 1) % u32_mod;
          tasks_head = head;
          tasks_rear = if head == null then null else p.tasks_rear;
          next = update p.next task null;
        },
        task,
      )

-- In the first loop of `Service` the thread that takes a task is counted as running.
pub take_task : ThreadPool → ThreadPool × Ptr
take_task p =
    let out = dequeue p in
    if p.tasks_head == null
    then out
    else (record out.0 { run_thread = (out.0.run_thread + 1) % u32_mod }, out.1)

pub finish_task : ThreadPool → ThreadPool
finish_task p = record p { run_thread = (p.run_thread + u32_mod - 1) % u32_mod }

-- The destructor asks the threads to end.
pub request_exit : ThreadPool → ThreadPool
request_exit p = record p { exit_request = true }

-- The loop of the destructor that discards what is left. On fuel; the Boolean says that it ended.
pub discard_loop : ℕ → ThreadPool → List Ptr × Bool
discard_loop zero p = ([], p.tasks_head == null)
discard_loop (suc fuel) p =
    let rest = discard_loop fuel (record p { tasks_head = p.next p.tasks_head }) in
    if p.tasks_head == null then ([], true) else (p.tasks_head ∷ rest.0, rest.1)
