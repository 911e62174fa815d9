-- ===== src/ThreadPool/Queue.antt =====
-- The task queue of lne/ThreadPool.cpp as a list of tasks, first to last.
use lne.Prelude.{
  ◌+◌, ◌-◌, ◌%◌, ◌<◌, ◌≡◌, ◌≢◌, refl, true, false, List, [], ◌∷◌, ◌++◌, arith, ◌==◌, if◌then◌else◌,
  update, length, length-append, subst, sym, ◌∙◌, ==_self,
}
use lne.Ring.{Ptr, null, has, Distinct, last}
use lne.Ring.Relink.{has-append, has-last, last-append}
use lne.ExtendObject.{u32_mod}
use lne.ThreadPool.{ThreadPool, enqueue, dequeue}

-- The `next_` fields lead from `p` through `tasks` to null.
abbrev pub Chain : (Ptr → Ptr) → Ptr → List Ptr → Type 0
Chain next p [] = p ≡ null
Chain next p (t ∷ ts) = (p ≡ t) × Chain next (next t) ts

abbrev pub rear : List Ptr → Ptr
rear [] = null
rear (t ∷ ts) = last t ts

-- The pool's queue is `tasks`.
pub record Queued (p : ThreadPool) (tasks : List Ptr) : Type 0 where
  pub head : Chain p.next p.tasks_head tasks
  pub rear_is : p.tasks_rear ≡ rear tasks
  pub distinct : Distinct tasks
  pub count : p.num_tasks ≡ length tasks

Chain-ext :
    (next next' : Ptr → Ptr) (p : Ptr) (ts : List Ptr)
    → ((a : Ptr) → has a ts ≡ true → next' a ≡ next a)
    → Chain next p ts
    → Chain next' p ts
Chain-ext next next' p [] same c = c
Chain-ext next next' p (t ∷ ts) same c =
    (c.0, Chain-ext next next' (next' t) ts (λ a i. same a (ground arith)) (ground (arith, same t)))

-- A task behind the last one.
Chain-snoc :
    (next : Ptr → Ptr) (p t : Ptr) (ts : List Ptr) (task : Ptr)
    → next task ≡ null
    → Distinct (t ∷ ts ++ task ∷ [])
    → Chain next p (t ∷ ts)
    → Chain (update next (last t ts) task) p (t ∷ ts ++ task ∷ [])
Chain-snoc next p t [] task free d c = ground arith
Chain-snoc next p t (u ∷ us) task free d c =
    let ne : (t == last u us) ≡ false =
      ground (arith, d.1, has-append t (u ∷ us) (task ∷ []), has-last u us) in
    (c.0, rw ne (Chain-snoc next (next t) u us task free d.2 c.1))

last-ne_null : (t : Ptr) (ts : List Ptr) → Distinct (t ∷ ts) → last t ts ≢ null
last-ne_null t [] d = d.0
last-ne_null t (u ∷ us) d = last-ne_null u us d.2

enqueue-behind :
    (task : Ptr) (p : ThreadPool)
    → p.tasks_rear ≢ null
    → enqueue task p ≡ record p {
      num_tasks = (p.num_tasks + 1) % u32_mod;
      next = update p.next p.tasks_rear task;
      tasks_rear = task;
    }
unfolding enqueue
enqueue-behind task p ne = ground arith

-- The pool after the task `t` was taken.
without : ThreadPool → Ptr → ThreadPool
without p t = record p {
  num_tasks = (p.num_tasks + u32_mod - 1) % u32_mod;
  tasks_head = p.next t;
  tasks_rear = if p.next t == null then null else p.tasks_rear;
  next = update p.next t null;
}

dequeue-some :
    (p : ThreadPool) (t : Ptr) → p.tasks_head ≡ t → t ≢ null → dequeue p ≡ (without p t, t)
unfolding dequeue without
dequeue-some p t e ne = ground arith

-- `PostTask` puts the task behind all others.
pub enqueue-Queued :
    (task : Ptr) (p : ThreadPool) (tasks : List Ptr)
    → p.next task ≡ null
    → Distinct (tasks ++ task ∷ [])
    → p.num_tasks + 1 < u32_mod
    → Queued p tasks
    → Queued (enqueue task p) (tasks ++ task ∷ [])
unfolding enqueue
enqueue-Queued task p [] free d small q =
    rw (q.rear_is)
      (record { head = (refl, free); rear_is = refl; distinct = d; count = omega (arith, q.count) })
enqueue-Queued task p (t ∷ ts) free d small q =
    let ne : p.tasks_rear ≢ null = λ e. last-ne_null t ts q.distinct (sym q.rear_is ∙ e) in
    rw (enqueue-behind task p ne) (record {
      head =
          subst (λ r. Chain (update p.next r task) p.tasks_head (t ∷ ts ++ task ∷ []))
            (sym q.rear_is) (Chain-snoc p.next p.tasks_head t ts task free d q.head);
      rear_is = sym (last-append t task ts []);
      distinct = d;
      count = omega (arith, q.count, length-append ts (task ∷ []));
    })

without-rear :
    (p : ThreadPool) (t : Ptr) (ts : List Ptr)
    → Queued p (t ∷ ts)
    → (without p t).tasks_rear ≡ rear ts
unfolding without
without-rear p t [] q = ground (arith, q.head)
without-rear p t (u ∷ us) q = ground (arith, q.head, q.distinct, q.rear_is)

without-Queued :
    (p : ThreadPool) (t : Ptr) (ts : List Ptr)
    → p.num_tasks < u32_mod
    → Queued p (t ∷ ts)
    → Queued (without p t) ts
without-Queued p t ts small q = record {
  head =
      unfold without in
      Chain-ext p.next _ (p.next t) ts (λ a i. ground (arith, q.distinct.1)) q.head.1;
  rear_is = without-rear p t ts q;
  distinct = q.distinct.2;
  count = unfold without in omega (arith, q.count);
}

-- Taking the first task leaves the others in order, and that task with no successor.
pub dequeue-cons :
    (p : ThreadPool) (t : Ptr) (ts : List Ptr)
    → p.num_tasks < u32_mod
    → Queued p (t ∷ ts)
    → ((dequeue p).1 ≡ t) × Queued (dequeue p).0 ts × ((dequeue p).0.next t ≡ null)
unfolding without
dequeue-cons p t ts small q =
    rw (dequeue-some p t q.head.0 q.distinct.0)
      (refl, without-Queued p t ts small q, ground (arith, ==_self t))

pub dequeue-nil : (p : ThreadPool) → Queued p [] → dequeue p ≡ (p, null)
unfolding dequeue
dequeue-nil p q = ground (arith, q.head)
