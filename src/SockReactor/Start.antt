-- ===== src/SockReactor/Start.antt =====
-- lne/SockReactor.cpp: the threads that the constructor starts, and what the destructor gives back.
use lne.Prelude.{
  ℕ, zero, suc, ◌+◌, ◌≤◌, ◌<◌, ◌≡◌, ◌≢◌, ◌⊎◌, refl, sym, subst, ap, ◌∙◌, ==_iff, Bool, true, false,
  ◌&&◌, Option, none, some, List, [], ◌∷◌, ◌++◌, ltb, ◌==◌, if◌then◌else◌, arith, map, Bool-cases,
  inl, inr,
}
use lne.Ring.{Ptr, null}
use lne.ExtendObject.{u32_mod}
use lne.SockReactor.{SockReactor, create_loop, new_sock_reactor, terminate_loop}

-- What the destructor does to the system: the threads joined, the memory freed, the eventers ended
-- and the poller closed.
pub data SystemCall : Type 0 where
  joins : (i : ℕ) → SystemCall
  frees : SystemCall
  terminates : (eventer : Ptr) → SystemCall
  closes_poller : (poller : ℕ) → SystemCall

unfoldable pub join_loop : ℕ → ℕ → List SystemCall
join_loop zero i = []
join_loop (suc rounds) i = joins i ∷ join_loop rounds (i + 1)

-- The destructor, with fuel for the walk around the circle.
unfoldable pub destroy : ℕ → SockReactor → List SystemCall
unfolding join_loop
destroy fuel r =
    let closes : List SystemCall = elim (r.poller) [ none ↦ [] | some p ↦ closes_poller p ∷ [] ] in
    join_loop r.thread_workers 0
    ++ ((if r.has_threads then frees ∷ [] else [])
        ++ ((if r.eventer_circle == null
              then []
              else map terminates (terminate_loop fuel r.eventer_circle r))
            ++ closes))

-- `NewInstance`, where the object's own memory can be had, and what its `delete` does.
unfoldable pub new_instance :
    ℕ
    → ℕ
    → ℕ
    → Option ℕ
    → Bool
    → (ℕ → Bool)
    → (prev next active : Ptr → ℕ) → Option SockReactor × List SystemCall
unfolding destroy
new_instance workers idle_timeout exit_check_interval poller memory created prev next active =
    let timeout =
      if ltb idle_timeout exit_check_interval then exit_check_interval else idle_timeout in
    let r =
      new_sock_reactor workers timeout exit_check_interval poller memory created prev next active in
    if ltb 0 workers && ltb 0 idle_timeout && ltb 0 exit_check_interval
    then (if r.available then (some r, []) else (none, destroy 0 r))
    else (none, [])

-- The first threads, in their order.
abbrev pub joins_below : ℕ → List SystemCall
joins_below zero = []
joins_below (suc n) = joins_below n ++ joins n ∷ []

join_loop-snoc :
    (rounds i : ℕ) → join_loop (suc rounds) i ≡ join_loop rounds i ++ joins (i + rounds) ∷ []
unfolding join_loop
join_loop-snoc zero i = let e : i ≡ i + 0 = omega arith in ap (λ j. joins j ∷ []) e
join_loop-snoc (suc rounds) i =
    let e : i + 1 + rounds ≡ i + suc rounds = omega arith in
    ap (λ l. joins i ∷ l) (join_loop-snoc rounds (i + 1))
    ∙ ap (λ j. joins i ∷ (join_loop rounds (i + 1) ++ joins j ∷ [])) e

join_loop-joins_below : (n : ℕ) → join_loop n 0 ≡ joins_below n
join_loop-joins_below zero = unfold join_loop in refl
join_loop-joins_below (suc n) =
    let e : 0 + n ≡ n = omega arith in
    join_loop-snoc n 0
    ∙ ap (λ l. l ++ joins (0 + n) ∷ []) (join_loop-joins_below n)
    ∙ ap (λ j. joins_below n ++ joins j ∷ []) e

-- What the constructor took of the system besides its threads.
abbrev pub poller_calls : Option ℕ → List SystemCall
poller_calls none = []
poller_calls (some p) = closes_poller p ∷ []

abbrev pub memory_calls : Option ℕ → Bool → List SystemCall
memory_calls none memory = []
memory_calls (some p) memory = if memory then frees ∷ [] else []

create_loop_lem :
    (rounds i : ℕ) (created : ℕ → Bool)
    → let n = create_loop rounds i created i in
      (i ≤ n)
      × (n ≤ i + rounds)
      × ((j : ℕ) → i ≤ j → j < n → created j ≡ true)
      × (n < i + rounds → created n ≡ false)
unfolding create_loop
create_loop_lem zero i created =
    (omega arith, omega arith, (λ j h k. absurd (omega arith)), λ h. absurd (omega arith))
create_loop_lem (suc rounds) i created =
    let ih = create_loop_lem rounds (i + 1) created in
    elim (Bool-cases (created i)) [
      | inl e ↦ simp e (
        omega (arith, ih.0),
        omega (arith, ih.1),
        λ j h k. elim (Bool-cases (j == i)) [
          | inl f ↦ subst (λ x. created x ≡ true) (sym ((==_iff j i).0 f)) e
          | inr f ↦ ih.2 j (ground (arith, f, h)) k
        ],
        λ h. ih.3 (omega (arith, h)),
      )
      | inr e ↦ simp e (omega arith, omega arith, (λ j h k. absurd (omega arith)), λ h. refl)
    ]

-- The constructor started `n` threads and no more: none without a poller or memory, else all up to
-- the first one that the system refused.
abbrev pub Started : ℕ → Option ℕ → Bool → (ℕ → Bool) → ℕ → Type 0
Started workers poller memory created n =
    ((n ≡ 0) × ((poller ≡ none) ⊎ (memory ≡ false)))
    ⊎ ((poller ≢ none)
        × (memory ≡ true)
        × (n ≤ workers)
        × (created n ≡ false)
        × ((j : ℕ) → j < n → created j ≡ true))

module _ (workers timeout exit_check_interval : ℕ) (poller : Option ℕ) (memory : Bool)
    (created : ℕ → Bool) (prev next active : Ptr → ℕ) where
  abbrev made : SockReactor
  made = new_sock_reactor workers timeout exit_check_interval poller memory created prev next active

  first_created : (j : ℕ) → j < made.thread_workers → created 0 ≡ true
  unfolding new_sock_reactor
  first_created j h = ground (arith, h)

  -- As many threads as the constructor counts were started, and all of them if it is available.
  made-threads :
      (made.thread_workers ≤ workers + 1)
      × ((j : ℕ) → j < made.thread_workers → created j ≡ true)
      × (made.available ≡ true → made.thread_workers ≡ workers + 1)
      × (made.idle_timeout ≡ timeout)
      × (made.eventer_circle ≡ null)
  unfolding new_sock_reactor
  made-threads =
      let k = create_loop_lem workers 1 created in
      (
        ground (arith, k.1),
        λ j h. elim (Bool-cases (j == 0)) [
          | inl f ↦ subst (λ x. created x ≡ true) (sym ((==_iff j 0).0 f)) (first_created j h)
          | inr f ↦ k.2 j (ground (arith, f)) (ground (arith, h))
        ],
        ground (arith, k.1),
        refl,
        refl,
      )

  -- Where it is not available, no more threads were started than it counts either.
  made-Started : made.available ≡ false → Started workers poller memory created made.thread_workers
  unfolding new_sock_reactor
  made-Started e =
      let k = create_loop_lem workers 1 created in
      let all = made-threads.1 in ground (arith, e, k.0, k.1, k.3, all)

  destroy-made :
      destroy 0 made
      ≡ joins_below made.thread_workers ++ (memory_calls poller memory ++ poller_calls poller)
  unfolding destroy
  destroy-made =
      let freed = memory_calls poller memory ++ poller_calls poller in
      let rest : destroy 0 made ≡ join_loop made.thread_workers 0 ++ freed =
        unfold new_sock_reactor in ground arith in
      rest ∙ ap (λ l. l ++ freed) (join_loop-joins_below made.thread_workers)

-- `NewInstance` with three numbers above 0 and fewer workers than the largest number, whatever the
-- system answers: it answers a reactor, all of whose threads run, for the service of `workers` and
-- the timer, and whose idle time is not below the interval of its checks; or it answers none, and
-- then exactly the threads that were started, up to the first that the system refused, are joined in
-- their order, and the memory and the poller are given back.
pub new_instance_lem :
    (workers idle_timeout exit_check_interval : ℕ) (poller : Option ℕ) (memory : Bool)
    (created : ℕ → Bool) (prev next active : Ptr → ℕ)
    → 0 < workers
    → workers + 1 < u32_mod
    → 0 < idle_timeout
    → 0 < exit_check_interval
    → let out =
        new_instance workers idle_timeout exit_check_interval poller memory created prev next
          active in
      ((r : SockReactor) × (out ≡ (some r, []))
        × (r.thread_workers ≡ workers + 1)
        × ((j : ℕ) → j < workers + 1 → created j ≡ true)
        × (exit_check_interval ≤ r.idle_timeout))
      ⊎ ((n : ℕ) × Started workers poller memory created n
          × (out ≡ (none, joins_below n ++ (memory_calls poller memory ++ poller_calls poller))))
unfolding new_instance
new_instance_lem workers idle_timeout exit_check_interval poller memory created prev next active a
      bound b c =
    let timeout =
      if ltb idle_timeout exit_check_interval then exit_check_interval else idle_timeout in
    let k =
      made-threads workers timeout exit_check_interval poller memory created prev next active in
    let r = made workers timeout exit_check_interval poller memory created prev next active in
    let guard : ltb 0 workers && ltb 0 idle_timeout && ltb 0 exit_check_interval ≡ true =
      ground (arith, a, b, c) in
    elim (Bool-cases r.available) [
      | inl e ↦ inl (
        r,
        simp (guard, e) refl,
        k.2 e,
        λ j h. k.1 j (ground (arith, k.2 e, h)),
        ground (arith, k.3),
      )
      | inr e ↦ inr (
        r.thread_workers,
        made-Started workers timeout exit_check_interval poller memory created prev next active e,
        simp
            (
              guard,
              e,
              destroy-made workers timeout exit_check_interval poller memory created prev next
                  active,
            )
            refl,
      )
    ]
