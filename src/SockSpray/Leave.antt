-- ===== src/SockSpray/Leave.antt =====
-- lne/SockSpray.cpp: the threads that enter and leave a connection, each critical section a step, and
-- who releases it.
use lne.Prelude.{
  ℕ, ◌+◌, ◌-◌, ◌%◌, ◌<◌, ◌≡◌, ◌≢◌, refl, sym, subst, ap, ◌∙◌, Bool, true, false, some, List, [],
  ◌∷◌, ◌++◌, ◌==◌, if◌then◌else◌, arith,
}
use lne.Ring.{null}
use lne.ExtendObject.{u32_mod}
use lne.SockSpray.{SockSpray, Event, unbound, handle_shutdown, released}
use lne.SockSpray.System.Inv.{total, total-middle}
use lne.SockSpray.Thread.{enter_thread_safe, leave_count, leave_last, mark_shutdown}

-- Where a thread is: between the two calls, between the two critical sections of `LeaveThreadSafe`
-- (and whether it was the last), or beyond them.
pub data Thread : Type 0 where
  inside gone : Thread
  counted : (last_thread : Bool) → Thread

pub record Threads : Type 0 where
  pub spray : SockSpray
  pub threads : List Thread
  pub releases : ℕ

abbrev pub is_inside : Thread → ℕ
is_inside inside = 1
is_inside _ = 0

abbrev pub is_last : Thread → ℕ
is_last (counted true) = 1
is_last _ = 0

abbrev pub release_count : List Event → ℕ
release_count [] = 0
release_count (released ∷ es) = 1 + release_count es
release_count (_ ∷ es) = release_count es

-- `HandleRead`, `HandleWrite` and `HandleShutdown` enter; the last of them marks the shutdown inside;
-- all leave.
pub data Step (s : Threads) (s' : Threads) : Type 0 where
  enters :
      s.spray.thread_count + 1 < u32_mod
      → s' ≡ record s { spray = enter_thread_safe s.spray; threads = inside ∷ s.threads }
      → Step s s'
  marks :
      (ts us : List Thread)
      → s.threads ≡ ts ++ inside ∷ us
      → s' ≡ record s { spray = mark_shutdown s.spray }
      → Step s s'
  counts :
      (ts us : List Thread)
      → s.threads ≡ ts ++ inside ∷ us
      → s' ≡ record s {
        spray = (leave_count s.spray).0;
        threads = ts ++ counted (leave_count s.spray).1 ∷ us;
      }
      → Step s s'
  leaves :
      (ts : List Thread) (last_thread : Bool) (us : List Thread) (events : List Event)
      → s.threads ≡ ts ++ counted last_thread ∷ us
      → leave_last last_thread s.spray ≡ some events
      → s' ≡ record s { threads = ts ++ gone ∷ us; releases = s.releases + release_count events }
      → Step s s'

pub data Reach (s : Threads) : Threads → Type 0 where
  here : Reach s s
  later : {t u : Threads} → Reach s t → Step t u → Reach s u

pub record Inv (s : Threads) : Type 0 where
  pub count : s.spray.thread_count ≡ total is_inside s.threads
  pub small : s.spray.thread_count < u32_mod
  pub kept :
      s.spray.shut.already ≡ true
      → 0 < total is_inside s.threads + total is_last s.threads + s.releases

leave_count_lem :
    (s : SockSpray)
    → 0 < s.thread_count
    → s.thread_count < u32_mod
    → ((leave_count s).0.thread_count + 1 ≡ s.thread_count)
      × ((leave_count s).0.shut ≡ s.shut)
      × (is_last (counted (leave_count s).1) ≡ (if s.thread_count == 1 then 1 else 0))
unfolding leave_count
leave_count_lem s pos small =
    let e : (s.thread_count + (u32_mod - 1)) % u32_mod + 1 ≡ s.thread_count = omega arith in
    (e, refl, ground (arith, e))

leave_last-events :
    (last_thread : Bool) (s : SockSpray) (events : List Event)
    → leave_last last_thread s ≡ some events
    → s.shut.already ≡ true
    → events ≡ (if last_thread then unbound ∷ handle_shutdown ∷ released ∷ [] else [])
unfolding leave_last
leave_last-events last_thread s events e f = ground (arith, e, f)

leave_last-already :
    (last_thread : Bool) (s : SockSpray) (events : List Event)
    → leave_last last_thread s ≡ some events
    → s.shut.already ≡ true
    → release_count events ≡ is_last (counted last_thread)
leave_last-already true s events e f = ap release_count (leave_last-events true s events e f)
leave_last-already false s events e f = ap release_count (leave_last-events false s events e f)

Step-Inv : {s s' : Threads} → Step s s' → Inv s → Inv s'
unfolding enter_thread_safe mark_shutdown
Step-Inv {s} (enters room f) v =
    subst Inv (sym f)
      (record { count = omega (arith, v.count); small = omega arith; kept = λ h. omega arith })
Step-Inv {s} (marks ts us e f) v = subst Inv (sym f) (record {
  count = v.count;
  small = v.small;
  kept = λ h. omega (arith, ap (total is_inside) e, total-middle is_inside ts inside us);
})
Step-Inv {s} (counts ts us e f) v =
    let c = (leave_count s.spray).1 in
    let before = ap (total is_inside) e ∙ total-middle is_inside ts inside us in
    let lasts = ap (total is_last) e ∙ total-middle is_last ts inside us in
    let k = leave_count_lem s.spray (omega (arith, v.count, before)) v.small in
    let after = total-middle is_inside ts (counted c) us in
    subst Inv (sym f) (record {
      count = omega (arith, k.0, v.count, before, after);
      small = omega (arith, k.0, v.small);
      kept =
          λ h. ground (arith, k.2, v.count, before, after, total-middle is_last ts (counted c) us);
    })
Step-Inv {s} (leaves ts b us events e l f) v =
    let before = ap (total is_inside) e ∙ total-middle is_inside ts (counted b) us in
    let lasts = ap (total is_last) e ∙ total-middle is_last ts (counted b) us in
    subst Inv (sym f) (record {
      count = omega (arith, v.count, before, total-middle is_inside ts gone us);
      small = v.small;
      kept = λ h. omega (
        arith,
        v.kept h,
        leave_last-already b s.spray events l h,
        before,
        lasts,
        total-middle is_inside ts gone us,
        total-middle is_last ts gone us,
      );
    })

pub Reach-Inv : {s s' : Threads} → Reach s s' → Inv s → Inv s'
Reach-Inv here v = v
Reach-Inv (later r st) v = Step-Inv st (Reach-Inv r v)

-- A connection with no thread inside.
unfoldable pub alone : SockSpray → Threads
alone s = record { spray = s; threads = []; releases = 0 }

-- However threads enter a connection, mark its shutdown and leave: when the shutdown is marked, a
-- thread is still inside, or the last one is about to release the connection, or it is released.
-- So no connection is left over once all threads are gone.
pub alone-Reach :
    (spray : SockSpray) (s : Threads)
    → spray.thread_count ≡ 0
    → spray.shut.already ≡ false
    → Reach (alone spray) s
    → s.spray.shut.already ≡ true
    → total is_inside s.threads ≡ 0
    → total is_last s.threads ≡ 0
    → 0 < s.releases
unfolding alone
alone-Reach spray s none_inside unmarked r marked gone_in gone_last =
    let v = Reach-Inv r (record {
      count = none_inside;
      small = omega arith;
      kept = λ h. absurd (false_true (sym unmarked ∙ h));
    }) in
    omega (arith, v.kept marked)
  where
    false_true : false ≡ true → ⊥
    false_true e = cc

-- The shutdown can also be handled twice. When the only thread inside has taken the count to 0, and
-- `HandleShutdown` then runs up to its last step on another thread before the first one looks at the
-- flag, both unbind the connection, call the handler and release.
pub leave_last-twice :
    (s : SockSpray)
    → s.thread_count ≡ 1
    → s.handler ≢ null
    → s.poller ≢ null
    → let first = leave_count s in
      let second = leave_count (mark_shutdown (enter_thread_safe first.0)) in
      (leave_last first.1 second.0 ≡ some (unbound ∷ handle_shutdown ∷ released ∷ []))
      × (leave_last second.1 second.0 ≡ some (unbound ∷ handle_shutdown ∷ released ∷ []))
unfolding leave_count leave_last mark_shutdown enter_thread_safe
leave_last-twice s one has_handler has_poller = ground arith
