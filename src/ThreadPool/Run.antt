-- ===== src/ThreadPool/Run.antt =====
-- The threads of lne/ThreadPool.cpp together: clients post tasks while workers run `Service`.
pub mod Inv
pub mod Safety
pub mod Start
use lne.Prelude.{
  ℕ, ◌+◌, ◌<◌, ◌≡◌, Bool, true, false, List, [], ◌∷◌, ◌++◌, ◌==◌, ◌&&◌, not, if◌then◌else◌, length,
}
use lne.Ring.{Ptr, null, Distinct}
use lne.ExtendObject.{u32_mod}
use lne.ThreadPool.{ThreadPool, post_task, take_task, dequeue, finish_task, request_exit}

-- Where a thread is in `Service`: at `Wait`, before the inner loop's lock, in the task's own
-- `Service`, at the conditions of the loops, with whether there was a task, in the loop that
-- discards, or at the end.
pub data Worker : Type 0 where
  waiting polling cleaning ended : Worker
  serving : Ptr → Worker
  looping : (had_task : Bool) → Worker

-- What a step of `Service` does with a task.
pub data Effect : Type 0 where
  nothing : Effect
  takes serves discards : Ptr → Effect

-- One step of `Service`. The Boolean is whether `Wait` answered `LNERR_OK`.
unfoldable pub service_step : Bool → Worker → ThreadPool → Worker × ThreadPool × Effect
service_step ok waiting p = (if ok && not p.exit_request then polling else cleaning, p, nothing)
service_step ok polling p =
    let out = take_task p in
    if p.tasks_head == null
    then (looping false, p, nothing)
    else (serving out.1, out.0, takes out.1)
service_step ok (serving task) p = (looping true, finish_task p, serves task)
service_step ok (looping had_task) p =
    (if p.exit_request then cleaning else (if had_task then polling else waiting), p, nothing)
service_step ok cleaning p =
    let out = dequeue p in
    if p.tasks_head == null then (ended, p, nothing) else (cleaning, out.0, discards out.1)
service_step ok ended p = (ended, p, nothing)

-- The pool with its threads, and what happened so far: the tasks in the order in which they were
-- posted, those taken out of the queue, to be served or discarded, in that order, and those whose
-- `Service` came back and those discarded.
pub record System : Type 0 where
  pub pool : ThreadPool
  pub workers : List Worker
  pub queue : List Ptr
  pub posted : List Ptr
  pub taken : List Ptr
  pub served : List Ptr
  pub discarded : List Ptr

abbrev pub tail : List Ptr → List Ptr
tail [] = []
tail (t ∷ ts) = ts

unfoldable pub note : Effect → System → System
note nothing s = s
note (takes t) s = record s { queue = tail s.queue; taken = s.taken ++ t ∷ [] }
note (serves t) s = record s { served = s.served ++ t ∷ [] }
note (discards t) s = record s {
  queue = tail s.queue;
  taken = s.taken ++ t ∷ [];
  discarded = s.discarded ++ t ∷ [];
}

unfoldable pub work : Bool → List Worker → Worker → List Worker → System → System
work ok ws w vs s =
    let out = service_step ok w s.pool in
    note out.2 (record s { pool = out.1; workers = ws ++ out.0 ∷ vs })

-- A post; the thread that it may create starts at `Wait`.
unfoldable pub post : Bool → Ptr → System → System
post created task s =
    let p = (post_task created task s.pool).0 in
    record s {
      pool = p;
      workers = if p.num_thread == s.pool.num_thread then s.workers else s.workers ++ waiting ∷ [];
      queue = s.queue ++ task ∷ [];
      posted = s.posted ++ task ∷ [];
    }

-- Any thread may step, a client may post a task that is in no queue, and the owner may ask for the
-- end.
pub data Step (s : System) (s' : System) : Type 0 where
  works :
      (ok : Bool) (ws : List Worker) (w : Worker) (vs : List Worker)
      → s.workers ≡ ws ++ w ∷ vs
      → s' ≡ work ok ws w vs s
      → Step s s'
  posts :
      (created : Bool) (task : Ptr)
      → s.pool.next task ≡ null
      → Distinct (s.queue ++ task ∷ [])
      → s.pool.num_tasks + 1 < u32_mod
      → s' ≡ post created task s
      → Step s s'
  exits : s' ≡ record s { pool = request_exit s.pool } → Step s s'

pub data Reach (s : System) : System → Type 0 where
  here : Reach s s
  later : {t u : System} → Reach s t → Step t u → Reach s u
