-- ===== src/ThreadPool/Run/Inv.antt =====
-- Invariants of the threads of lne/ThreadPool.cpp under every interleaving.
use lne.Prelude.{
  ℕ, ◌+◌, ◌%◌, ◌<◌, ◌≤◌, ◌≡◌, Bool, false, List, [], ◌∷◌, ◌++◌, arith, ◌==◌, length, length-append,
  refl, sym, ◌∙◌, ap, subst,
}
use mathlib.Core.List.{append_assoc}
use lne.Ring.{Ptr, null}
use lne.ExtendObject.{u32_mod}
use lne.SockPad.Accounts.{count, count-append}
use lne.ThreadPool.{ThreadPool, take_task, dequeue}
use lne.ThreadPool.Queue.{Queued, dequeue-cons}
use lne.ThreadPool.Run.{
  Worker, waiting, polling, cleaning, ended, serving, looping, nothing, takes, discards, System,
  service_step,
}

abbrev pub busy : Worker → ℕ
busy (serving t) = 1
busy _ = 0

abbrev pub serving_count : List Worker → ℕ
serving_count [] = 0
serving_count (w ∷ ws) = busy w + serving_count ws

-- The tasks in service.
abbrev pub at_work : Worker → List Ptr
at_work (serving t) = t ∷ []
at_work _ = []

abbrev pub in_service : List Worker → List Ptr
in_service [] = []
in_service (w ∷ ws) = at_work w ++ in_service ws

pub record Inv (s : System) : Type 0 where
  pub queued : Queued s.pool s.queue
  pub fifo : s.posted ≡ s.taken ++ s.queue
  pub running : s.pool.run_thread ≡ serving_count s.workers
  pub threads : length s.workers ≡ s.pool.num_thread
  pub limit : s.pool.num_thread ≤ s.pool.limit_thread
  pub small : s.pool.limit_thread < u32_mod
  pub tasks : s.pool.num_tasks < u32_mod
  pub accounted :
      (x : Ptr)
      → count x s.taken ≡ count x s.served + count x s.discarded + count x (in_service s.workers)

pub serving_count-append :
    (ws vs : List Worker) → serving_count (ws ++ vs) ≡ serving_count ws + serving_count vs
serving_count-append [] vs = omega arith
serving_count-append (w ∷ ws) vs = omega (arith, serving_count-append ws vs)

pub serving_count-le : (ws : List Worker) → serving_count ws ≤ length ws
serving_count-le [] = omega arith
serving_count-le (serving t ∷ ws) = omega (arith, serving_count-le ws)
serving_count-le (waiting ∷ ws) = omega (arith, serving_count-le ws)
serving_count-le (polling ∷ ws) = omega (arith, serving_count-le ws)
serving_count-le (looping had_task ∷ ws) = omega (arith, serving_count-le ws)
serving_count-le (cleaning ∷ ws) = omega (arith, serving_count-le ws)
serving_count-le (ended ∷ ws) = omega (arith, serving_count-le ws)

pub in_service-append :
    (x : Ptr) (ws vs : List Worker)
    → count x (in_service (ws ++ vs)) ≡ count x (in_service ws) + count x (in_service vs)
in_service-append x [] vs = omega arith
in_service-append x (w ∷ ws) vs = omega (
  arith,
  in_service-append x ws vs,
  count-append x (at_work w) (in_service ws),
  count-append x (at_work w) (in_service (ws ++ vs)),
)

pub at_work-idle : (w : Worker) → busy w ≡ 0 → at_work w ≡ []
at_work-idle waiting e = refl
at_work-idle polling e = refl
at_work-idle cleaning e = refl
at_work-idle ended e = refl
at_work-idle (looping had_task) e = refl
at_work-idle (serving t) e = absurd (omega (arith, e))

-- A worker that serves nothing does not count.
pub idle-middle :
    (ws : List Worker) (w : Worker) (vs : List Worker)
    → busy w ≡ 0
    → (x : Ptr)
    → count x (in_service (ws ++ w ∷ vs)) ≡ count x (in_service ws) + count x (in_service vs)
idle-middle ws w vs idle x = omega (
  arith,
  in_service-append x ws (w ∷ vs),
  count-append x (at_work w) (in_service vs),
  ap (count x) (at_work-idle w idle),
)

-- One worker of a list in another state.
module _ (ws : List Worker) (w : Worker) (vs : List Worker) where
  pub serving_count-middle :
      serving_count (ws ++ w ∷ vs) ≡ serving_count ws + busy w + serving_count vs
  serving_count-middle = omega (arith, serving_count-append ws (w ∷ vs))

  pub in_service-middle :
      (x : Ptr)
      → count x (in_service (ws ++ w ∷ vs))
        ≡ count x (in_service ws) + count x (at_work w) + count x (in_service vs)
  in_service-middle x =
      omega (arith, in_service-append x ws (w ∷ vs), count-append x (at_work w) (in_service vs))

  pub length-middle : length (ws ++ w ∷ vs) ≡ length ws + 1 + length vs
  length-middle = omega (arith, length-append ws (w ∷ vs))

module _ (s : System) (ws : List Worker) (w : Worker) (vs : List Worker) (v : Inv s)
    (e : s.workers ≡ ws ++ w ∷ vs) where
  pub before : serving_count s.workers ≡ serving_count ws + busy w + serving_count vs
  before = ap serving_count e ∙ serving_count-middle ws w vs

  pub in_service_before :
      (x : Ptr)
      → count x (in_service s.workers)
        ≡ count x (in_service ws) + count x (at_work w) + count x (in_service vs)
  in_service_before x = ap (λ l. count x (in_service l)) e ∙ in_service-middle ws w vs x

  -- Where the worker serves nothing.
  pub idle_before :
      busy w ≡ 0
      → (x : Ptr)
      → count x (in_service s.workers) ≡ count x (in_service ws) + count x (in_service vs)
  idle_before idle x = omega (arith, in_service_before x, ap (count x) (at_work-idle w idle))

  pub threads_before : length s.workers ≡ length ws + 1 + length vs
  threads_before = ap length e ∙ length-middle ws w vs

  -- A step that moves a worker between states in which it serves nothing.
  pub move-Inv :
      (w' : Worker) → busy w' ≡ 0 → busy w ≡ 0 → Inv (record s { workers = ws ++ w' ∷ vs })
  move-Inv w' b idle = record {
    queued = v.queued;
    fifo = v.fifo;
    running = omega (arith, v.running, before, serving_count-middle ws w' vs, b, idle);
    threads = omega (arith, v.threads, threads_before, length-middle ws w' vs);
    limit = v.limit;
    small = v.small;
    tasks = v.tasks;
    accounted = λ x. omega (arith, v.accounted x, idle_before idle x, idle-middle ws w' vs b x);
  }

dequeue-threads :
    (p : ThreadPool)
    → ((dequeue p).0.run_thread ≡ p.run_thread)
      × ((dequeue p).0.num_thread ≡ p.num_thread)
      × ((dequeue p).0.limit_thread ≡ p.limit_thread)
unfolding dequeue
dequeue-threads p = ground arith

-- A pool with one more running thread.
abbrev pub counted : ThreadPool → ThreadPool
counted p = record p { run_thread = (p.run_thread + 1) % u32_mod }

module _ (p : ThreadPool) (t : Ptr) (ts : List Ptr) (small : p.num_tasks < u32_mod)
    (q : Queued p (t ∷ ts)) where
  head-ne_null : (p.tasks_head == null) ≡ false
  head-ne_null = ground (arith, q.head, q.distinct)

  pub polling-cons :
      (ok : Bool) → service_step ok polling p ≡ (serving t, counted (dequeue p).0, takes t)
  unfolding service_step take_task
  polling-cons ok =
      rw (head-ne_null)
        (ap (λ u. (serving u, counted (dequeue p).0, takes u)) (dequeue-cons p t ts small q).0)

  pub cleaning-cons :
      (ok : Bool) → service_step ok cleaning p ≡ (cleaning, (dequeue p).0, discards t)
  unfolding service_step
  cleaning-cons ok =
      rw (head-ne_null)
        (ap (λ u. (cleaning, (dequeue p).0, discards u)) (dequeue-cons p t ts small q).0)

module _ (p : ThreadPool) (q : Queued p []) (ok : Bool) where
  pub polling-nil : service_step ok polling p ≡ (looping false, p, nothing)
  unfolding service_step
  polling-nil = ground (arith, q.head)

  pub cleaning-nil : service_step ok cleaning p ≡ (ended, p, nothing)
  unfolding service_step
  cleaning-nil = ground (arith, q.head)

-- The state after a task left the queue for a worker that is in `w'` now.
abbrev pub gone : System → ThreadPool → List Worker → List Ptr → Ptr → List Ptr → System
gone s p workers ts t discarded = record s {
  pool = p;
  workers = workers;
  queue = ts;
  taken = s.taken ++ t ∷ [];
  discarded = discarded;
}

module _ (s : System) (ws : List Worker) (w : Worker) (vs : List Worker) (v : Inv s)
    (e : s.workers ≡ ws ++ w ∷ vs) (t : Ptr) (ts : List Ptr) (f : s.queue ≡ t ∷ ts)
    (idle : busy w ≡ 0) where
  full : Queued s.pool (t ∷ ts)
  full = subst (Queued s.pool) f v.queued

  fifo-gone : s.posted ≡ (s.taken ++ t ∷ []) ++ ts
  fifo-gone = v.fifo ∙ ap (λ q. s.taken ++ q) f ∙ sym (append_assoc s.taken (t ∷ []) ts)

  tasks-gone : (dequeue s.pool).0.num_tasks < u32_mod
  tasks-gone =
      let d = dequeue-cons s.pool t ts v.tasks full in omega (arith, d.1.count, full.count, v.tasks)

  pub take-Inv : Inv (gone s (counted (dequeue s.pool).0) (ws ++ serving t ∷ vs) ts t s.discarded)
  take-Inv =
      let d = (dequeue-cons s.pool t ts v.tasks full).1 in
      let k = dequeue-threads s.pool in
      let workers = before s ws w vs v e in
      let after = serving_count-middle ws (serving t) vs in
      let threads = threads_before s ws w vs v e in
      let bound = serving_count-le (ws ++ serving t ∷ vs) in
      let threads' = length-middle ws (serving t) vs in
      record {
        queued = record {
          head = d.head;
          rear_is = d.rear_is;
          distinct = d.distinct;
          count = d.count;
        };
        fifo = fifo-gone;
        running = omega (
          arith, v.running, k.0, idle, workers, after, bound, threads, threads', v.threads, v.limit,
          v.small,
        );
        threads = omega (arith, v.threads, threads, threads', k.1);
        limit = omega (arith, v.limit, k.1, k.2);
        small = omega (arith, v.small, k.2);
        tasks = tasks-gone;
        accounted = λ x. omega (
          arith,
          v.accounted x,
          idle_before s ws w vs v e idle x,
          in_service-middle ws (serving t) vs x,
          count-append x s.taken (t ∷ []),
        );
      }

  pub discard-Inv :
      (w' : Worker)
      → busy w' ≡ 0
      → Inv (gone s (dequeue s.pool).0 (ws ++ w' ∷ vs) ts t (s.discarded ++ t ∷ []))
  discard-Inv w' idle' =
      let d = (dequeue-cons s.pool t ts v.tasks full).1 in
      let k = dequeue-threads s.pool in
      let workers = before s ws w vs v e in
      let after = serving_count-middle ws w' vs in
      record {
        queued = d;
        fifo = fifo-gone;
        running = omega (arith, v.running, k.0, idle, idle', workers, after);
        threads =
            omega (arith, v.threads, threads_before s ws w vs v e, length-middle ws w' vs, k.1);
        limit = omega (arith, v.limit, k.1, k.2);
        small = omega (arith, v.small, k.2);
        tasks = tasks-gone;
        accounted = λ x. omega (
          arith,
          v.accounted x,
          idle_before s ws w vs v e idle x,
          idle-middle ws w' vs idle' x,
          count-append x s.taken (t ∷ []),
          count-append x s.discarded (t ∷ []),
        );
      }
