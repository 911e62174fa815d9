-- ===== src/ThreadPool/Run/Safety.antt =====
-- What no interleaving of lne/ThreadPool.cpp breaks.
use lne.Prelude.{
  ℕ, ◌+◌, ◌<◌, ◌≤◌, ◌≡◌, refl, Bool, true, false, List, [], ◌∷◌, ◌++◌, arith, ◌==◌, ◌&&◌, not,
  if◌then◌else◌, length, length-append, sym, ◌∙◌, ap, inl, inr, ◌⊎◌, subst, ==_self,
}
use mathlib.Core.List.{append_assoc}
use lne.Ring.{Ptr, null, Distinct}
use lne.ExtendObject.{u32_mod}
use lne.SockPad.Accounts.{count, count-append}
use lne.ThreadPool.{ThreadPool, post_task, dequeue, finish_task, request_exit, auto_create, enqueue}
use lne.ThreadPool.Queue.{Queued, enqueue-Queued}
use lne.ThreadPool.Run.{
  Worker, waiting, polling, cleaning, ended, serving, looping, System, service_step, note, work,
  post, Step, works, posts, exits, Reach, here, later, tail,
}
use lne.ThreadPool.Run.Inv.{
  Inv, busy, serving_count, before, threads_before, move-Inv, take-Inv, discard-Inv, polling-cons,
  cleaning-cons, polling-nil, cleaning-nil, serving_count-middle, length-middle, counted, gone,
  serving_count-append, serving_count-le, in_service, in_service-append, in_service_before,
  idle-middle,
}

busy-if : (b : Bool) (w w' : Worker) → busy w ≡ 0 → busy w' ≡ 0 → busy (if b then w else w') ≡ 0
busy-if true w w' e e' = e
busy-if false w w' e e' = e'

module _ (s : System) (ok : Bool) (ws vs : List Worker) (v : Inv s) where
  work_polling-Inv :
      (qs : List Ptr)
      → s.queue ≡ qs
      → s.workers ≡ ws ++ polling ∷ vs
      → Inv (work ok ws polling vs s)
  unfolding work note
  work_polling-Inv [] f e =
      let q = subst (Queued s.pool) f v.queued in
      rw (polling-nil s.pool q ok) (move-Inv s ws polling vs v e (looping false) refl refl)
  work_polling-Inv (t ∷ ts) f e =
      let q = subst (Queued s.pool) f v.queued in
      rw (polling-cons s.pool t ts v.tasks q ok) (
        subst
          (λ rest.
            Inv (gone s (counted (dequeue s.pool).0) (ws ++ serving t ∷ vs) rest t s.discarded))
          (sym (ap tail f)) (take-Inv s ws polling vs v e t ts f refl))

  work_cleaning-Inv :
      (qs : List Ptr)
      → s.queue ≡ qs
      → s.workers ≡ ws ++ cleaning ∷ vs
      → Inv (work ok ws cleaning vs s)
  unfolding work note
  work_cleaning-Inv [] f e =
      let q = subst (Queued s.pool) f v.queued in
      rw (cleaning-nil s.pool q ok) (move-Inv s ws cleaning vs v e ended refl refl)
  work_cleaning-Inv (t ∷ ts) f e =
      let q = subst (Queued s.pool) f v.queued in
      rw (cleaning-cons s.pool t ts v.tasks q ok) (
        subst
          (λ rest.
            Inv (gone s (dequeue s.pool).0 (ws ++ cleaning ∷ vs) rest t (s.discarded ++ t ∷ [])))
          (sym (ap tail f)) (discard-Inv s ws cleaning vs v e t ts f refl cleaning refl))

  work_serving-Inv :
      (t : Ptr) (w' : Worker)
      → busy w' ≡ 0
      → s.workers ≡ ws ++ serving t ∷ vs
      → Inv (record s {
        pool = finish_task s.pool;
        workers = ws ++ w' ∷ vs;
        served = s.served ++ t ∷ [];
      })
  unfolding finish_task
  work_serving-Inv t w' idle e =
      let workers = before s ws (serving t) vs v e in
      let after = serving_count-middle ws w' vs in
      let threads = threads_before s ws (serving t) vs v e in
      let bound = serving_count-le (ws ++ serving t ∷ vs) in
      let now = serving_count-middle ws (serving t) vs in
      record {
        queued = record {
          head = v.queued.head;
          rear_is = v.queued.rear_is;
          distinct = v.queued.distinct;
          count = v.queued.count;
        };
        fifo = v.fifo;
        running = omega (
          arith,
          v.running,
          workers,
          after,
          idle,
          bound,
          now,
          length-middle ws (serving t) vs,
          threads,
          v.threads,
          v.limit,
          v.small,
        );
        threads = omega (arith, v.threads, threads, length-middle ws w' vs);
        limit = v.limit;
        small = v.small;
        tasks = v.tasks;
        accounted = λ x. omega (
          arith,
          v.accounted x,
          in_service_before s ws (serving t) vs v e x,
          idle-middle ws w' vs idle x,
          count-append x s.served (t ∷ []),
        );
      }

  work-Inv : (w : Worker) → s.workers ≡ ws ++ w ∷ vs → Inv (work ok ws w vs s)
  unfolding work note service_step
  work-Inv waiting e =
      move-Inv s ws waiting vs v e _
        (busy-if (ok && not s.pool.exit_request) polling cleaning refl refl) refl
  work-Inv polling e = work_polling-Inv s.queue refl e
  work-Inv cleaning e = work_cleaning-Inv s.queue refl e
  work-Inv ended e = move-Inv s ws ended vs v e ended refl refl
  work-Inv (serving t) e = work_serving-Inv t (looping true) refl e
  work-Inv (looping had_task) e =
      move-Inv s ws (looping had_task) vs v e _
        (busy-if s.pool.exit_request cleaning (if had_task then polling else waiting) refl
          (busy-if had_task polling waiting refl refl))
        refl

pub auto_create-cases :
    (created : Bool) (p : ThreadPool)
    → (auto_create created p ≡ p)
      ⊎ ((p.num_thread < p.limit_thread)
          × (auto_create created p ≡ record p { num_thread = p.num_thread + 1 }))
unfolding auto_create
auto_create-cases created p = ground arith

enqueue-threads :
    (task : Ptr) (p : ThreadPool)
    → ((enqueue task p).run_thread ≡ p.run_thread)
      × ((enqueue task p).num_thread ≡ p.num_thread)
      × ((enqueue task p).limit_thread ≡ p.limit_thread)
unfolding enqueue
enqueue-threads task p = ground arith

module _ (s : System) (task : Ptr) (v : Inv s) (free : s.pool.next task ≡ null)
    (new : Distinct (s.queue ++ task ∷ [])) (room : s.pool.num_tasks + 1 < u32_mod) where
  -- The pool behind the queue, with the workers that it has then.
  posted-Inv :
      (n : ℕ) (workers : List Worker)
      → n ≤ s.pool.limit_thread
      → length workers ≡ n
      → serving_count workers ≡ serving_count s.workers
      → ((x : Ptr) → count x (in_service workers) ≡ count x (in_service s.workers))
      → Inv (record s {
        pool = record (enqueue task s.pool) { num_thread = n };
        workers = workers;
        queue = s.queue ++ task ∷ [];
        posted = s.posted ++ task ∷ [];
      })
  posted-Inv n workers limit threads same same_tasks =
      let q = enqueue-Queued task s.pool s.queue free new room v.queued in
      let k = enqueue-threads task s.pool in
      record {
        queued = record {
          head = q.head;
          rear_is = q.rear_is;
          distinct = q.distinct;
          count = q.count;
        };
        fifo = ap (λ l. l ++ task ∷ []) v.fifo ∙ append_assoc s.taken s.queue (task ∷ []);
        running = omega (arith, v.running, k.0, same);
        threads = threads;
        limit = omega (arith, limit, k.2);
        small = omega (arith, v.small, k.2);
        tasks = omega (arith, q.count, length-append s.queue (task ∷ []), v.queued.count);
        accounted = λ x. omega (arith, v.accounted x, same_tasks x);
      }

  post-Inv : (created : Bool) → Inv (post created task s)
  unfolding post post_task
  post-Inv created =
      let k = enqueue-threads task s.pool in
      elim (auto_create-cases created (enqueue task s.pool)) [
        | inl same ↦
            rw (same, k.1, ==_self s.pool.num_thread)
              (posted-Inv s.pool.num_thread s.workers v.limit v.threads refl (λ x. refl))
        | inr (more, grown) ↦
            let n = s.pool.num_thread in
            let ne : (n + 1 == n) ≡ false = ground arith in
            rw (grown, k.1, ne)
              (posted-Inv (n + 1) (s.workers ++ waiting ∷ []) (omega (arith, more, k.1, k.2))
                (omega (arith, v.threads, length-append s.workers (waiting ∷ [])))
                (omega (arith, serving_count-append s.workers (waiting ∷ [])))
                (λ x. omega (arith, in_service-append x s.workers (waiting ∷ []))))
      ]

Step-Inv : {s s' : System} → Step s s' → Inv s → Inv s'
unfolding request_exit
Step-Inv {s} (works ok ws w vs e f) v = subst Inv (sym f) (work-Inv s ok ws vs v w e)
Step-Inv {s} (posts created task free new room f) v =
    subst Inv (sym f) (post-Inv s task v free new room created)
Step-Inv {s} (exits f) v = subst Inv (sym f) (record {
  queued = record {
    head = v.queued.head;
    rear_is = v.queued.rear_is;
    distinct = v.queued.distinct;
    count = v.queued.count;
  };
  fifo = v.fifo;
  running = v.running;
  threads = v.threads;
  limit = v.limit;
  small = v.small;
  tasks = v.tasks;
  accounted = v.accounted;
})

pub Inv-Reach : {s s' : System} → Inv s → Reach s s' → Inv s'
Inv-Reach v here = v
Inv-Reach v (later r st) = Step-Inv st (Inv-Reach v r)
