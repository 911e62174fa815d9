-- ===== src/ThreadPool/Run/Start.antt =====
-- A thread pool from its constructor in lne/ThreadPool.cpp on, under every interleaving.
use lne.Prelude.{
  ℕ, zero, suc, ◌+◌, ◌<◌, ◌≤◌, ◌≡◌, ◌/◌, refl, Bool, true, false, some, List, [], ◌∷◌, ◌++◌, arith,
  ◌==◌, ◌&&◌, not, if◌then◌else◌, length, inl, inr, ltb, ap,
}
use lne.Config.{code, lne_failed}
use lne.Ring.{Ptr, null, Distinct}
use lne.ExtendObject.{u32_mod}
use lne.SockPad.Accounts.{count}
use lne.ThreadPool.{
  ThreadPool, post_task, enqueue, create_loop, new_instance, new_thread_pool, min_uint,
}
use lne.ThreadPool.Queue.{Queued, enqueue-Queued}
use lne.ThreadPool.Run.{Worker, waiting, System, Reach}
use lne.ThreadPool.Run.Inv.{Inv, serving_count, serving_count-le, in_service}
use lne.ThreadPool.Run.Safety.{Inv-Reach, auto_create-cases}

create_loop-fields :
    (rounds i : ℕ) (created : ℕ → Bool) (p : ThreadPool)
    → let q = create_loop rounds i created p in
      (q.tasks_head ≡ p.tasks_head)
      × (q.tasks_rear ≡ p.tasks_rear)
      × (q.num_tasks ≡ p.num_tasks)
      × (q.run_thread ≡ p.run_thread)
      × (q.limit_thread ≡ p.limit_thread)
      × (q.available ≡ p.available)
      × (q.num_thread ≤ p.num_thread + rounds)
unfolding create_loop
create_loop-fields zero i created p = ground arith
create_loop-fields (suc rounds) i created p =
    ground (
      arith,
      create_loop-fields rounds (i + 1) created (record p { num_thread = p.num_thread + 1 }),
    )

waiters : ℕ → List Worker
waiters zero = []
waiters (suc n) = waiting ∷ waiters n

waiters_lem :
    (n : ℕ)
    → (length (waiters n) ≡ n) × (serving_count (waiters n) ≡ 0) × (in_service (waiters n) ≡ [])
unfolding waiters
waiters_lem zero = (refl, refl, refl)
waiters_lem (suc n) =
    let (threads, busy, tasks) = waiters_lem n in
    (omega (arith, threads), omega (arith, busy), tasks)

-- A new pool, before its threads have done anything.
unfoldable pub start : ThreadPool → System
unfolding waiters
start p = record {
  pool = p;
  workers = waiters p.num_thread;
  queue = [];
  posted = [];
  taken = [];
  served = [];
  discarded = [];
}

min_uint-le : (a b : ℕ) → min_uint a b ≤ b
unfolding min_uint
min_uint-le a b = ground arith

abbrev IsFresh : ℕ → ThreadPool → Type 0
IsFresh limit p =
    (p.tasks_head ≡ null)
    × (p.tasks_rear ≡ null)
    × (p.num_tasks ≡ 0)
    × (p.run_thread ≡ 0)
    × (p.limit_thread ≡ limit)
    × (p.num_thread ≤ limit)

-- What the constructor makes.
module _ (init limit : ℕ) (condition : Bool) (memory : Ptr) (created : ℕ → Bool)
    (next : Ptr → Ptr) where
  new_thread_pool-IsFresh : IsFresh limit (new_thread_pool init limit condition memory created next)
  unfolding new_thread_pool
  new_thread_pool-IsFresh = ground (
    arith,
    min_uint-le init limit,
    create_loop-fields (min_uint init limit) 0 created (record {
      available = condition && not (memory == null);
      exit_request = false;
      num_thread = 0;
      run_thread = 0;
      limit_thread = limit;
      num_tasks = 0;
      tasks_head = null;
      tasks_rear = null;
      next = next;
    }),
  )

new_instance-some :
    (limit : ℕ) (condition : Bool) (memory : Ptr) (created : ℕ → Bool) (next : Ptr → Ptr)
    (p : ThreadPool)
    → new_instance limit condition memory created next ≡ some p
    → (init : ℕ) × (p ≡ new_thread_pool init limit condition memory created next)
unfolding new_instance
new_instance-some limit condition memory created next p made =
    ((if ltb (limit / 5) 1 then 1 else limit / 5), ground arith)

start-Inv : (p : ThreadPool) (limit : ℕ) → limit < u32_mod → IsFresh limit p → Inv (start p)
unfolding start
start-Inv p limit small f =
    let w = waiters_lem p.num_thread in
    record {
      queued = record { head = f.0; rear_is = f.1; distinct = tt; count = f.2 };
      fifo = refl;
      running = omega (arith, w.1, f.3);
      threads = w.0;
      limit = omega (arith, f.4, f.5);
      small = omega (arith, f.4, small);
      tasks = omega (arith, f.2);
      accounted = λ x. omega (arith, ap (count x) w.2);
    }

-- However clients and threads interleave on a pool that `NewInstance` made, the linked queue is the
-- tasks that were posted and not yet taken, in the order of posting; every task was taken as often as
-- it was served, was discarded and is in service; the counters of tasks and running threads are
-- right; and no more threads run than exist, nor exist than the limit.
pub new_instance-Reach :
    (limit : ℕ) (condition : Bool) (memory : Ptr) (created : ℕ → Bool) (next : Ptr → Ptr)
    (p : ThreadPool) (s : System)
    → limit < u32_mod
    → new_instance limit condition memory created next ≡ some p
    → Reach (start p) s
    → Queued s.pool s.queue
      × (s.posted ≡ s.taken ++ s.queue)
      × ((x : Ptr)
          → count x s.taken
            ≡ count x s.served + count x s.discarded + count x (in_service s.workers))
      × (s.pool.num_tasks ≡ length s.queue)
      × (s.pool.run_thread ≡ serving_count s.workers)
      × (s.pool.run_thread ≤ s.pool.num_thread)
      × (s.pool.num_thread ≤ s.pool.limit_thread)
new_instance-Reach limit condition memory created next p s small made r =
    let m = new_instance-some limit condition memory created next p made in
    let f : IsFresh limit p =
      rw m.1 (new_thread_pool-IsFresh m.0 limit condition memory created next) in
    let v = Inv-Reach (start-Inv p limit small f) r in
    (
      v.queued,
      v.fifo,
      v.accounted,
      v.queued.count,
      v.running,
      omega (arith, v.running, v.threads, serving_count-le s.workers),
      v.limit,
    )

-- `PostTask` queues the task behind all others, and reports failure all the same.
pub post_task-Queued :
    (created : Bool) (task : Ptr) (p : ThreadPool) (tasks : List Ptr)
    → p.next task ≡ null
    → Distinct (tasks ++ task ∷ [])
    → p.num_tasks + 1 < u32_mod
    → Queued p tasks
    → let out = post_task created task p in
      Queued out.0 (tasks ++ task ∷ []) × (lne_failed (code out.1) ≡ true)
unfolding post_task code
post_task-Queued created task p tasks free new room q =
    let r = enqueue-Queued task p tasks free new room q in
    elim (auto_create-cases created (enqueue task p)) [
      | inl same ↦ rw same (r, refl)
      | inr (more, grown) ↦ rw grown (
        record { head = r.head; rear_is = r.rear_is; distinct = r.distinct; count = r.count },
        refl,
      )
    ]
