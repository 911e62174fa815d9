-- ===== src/Pproxy/Main.antt =====
-- apps/pproxy/main.cpp and apps/pproxy/PPSpringHandler.cpp: the objects that the program makes before
-- it serves, and what becomes of them where it cannot. `AutoRelease` of lne/ExtendObject.h releases
-- each at the end of its scope.
use lne.Prelude.{
  ℕ, ◌==◌, ◌≡◌, ◌≢◌, ◌⊎◌, refl, Bool, true, false, Bool-cases, inl, inr, Option, none, some, List,
  [], ◌∷◌, ◌++◌, update, if◌then◌else◌,
}
use lne.Ring.{Ptr}
use lne.ExtendObject.{RefObject, new_ref_object, add_ref, release, auto_release}
use lne.SockPad.{closing}

-- The addresses of the five objects.
abbrev pub data_pool : Ptr
data_pool = 1

abbrev pub spray_pool : Ptr
spray_pool = 2

abbrev pub spring_pool : Ptr
spring_pool = 3

abbrev pub connector : Ptr
connector = 4

abbrev pub reactor : Ptr
reactor = 5

-- `pool` is the handler's `pool_`, `destroyed` the objects in the order of their destruction, and
-- `bound` whether the spring was given to the reactor.
pub record World : Type 0 where
  pub ref : Ptr → RefObject
  pub pool : Option Ptr
  pub destroyed : List Ptr
  pub closed : List ℕ
  pub bound : Bool

-- `PPSpringHandler::PPSpringHandler`.
unfoldable pub start : (Ptr → RefObject) → World
start ref = record { ref = ref; pool = none; destroyed = []; closed = []; bound = false }

unfoldable pub hold : Ptr → World → World
hold o w = record w { ref = update w.ref o (add_ref (w.ref o)) }

-- `NewInstance` that succeeds: the pool of the connections holds the data pool.
unfoldable pub create : Ptr → World → World
unfolding hold
create o w =
    let made = record w { ref = update w.ref o new_ref_object } in
    if o == spray_pool then hold data_pool made else made

unfoldable pub drop_once : Ptr → World → World × Bool
drop_once o w =
    let out = release (w.ref o) in
    (
      record w {
        ref = update w.ref o out.0;
        destroyed = if out.1 then w.destroyed ++ o ∷ [] else w.destroyed;
      },
      out.1,
    )

-- `Release`, with the destructor of the pool of the connections, none of which was made.
unfoldable pub drop : Ptr → World → World
unfolding drop_once
drop o w =
    let out = drop_once o w in
    if o == spray_pool then (if out.1 then (drop_once data_pool out.0).0 else out.0) else out.0

-- The definitions one after the other, each of which ends the program if there is no object. The list
-- is of the objects made, the latest first.
unfoldable pub create_all : List Ptr → (Ptr → Bool) → List Ptr → World → Bool × List Ptr × World
unfolding create
create_all [] made held w = (true, held, w)
create_all (o ∷ os) made held w =
    let rest = create_all os made (o ∷ held) (create o w) in
    if made o then rest else (false, held, w)

unfoldable pub release_all : List Ptr → World → World
unfolding drop auto_release
release_all [] w = w
release_all (o ∷ held) w = release_all held (auto_release drop (record { t = some o }) w)

-- `PPSpringHandler::Initialize`, and its destructor.
unfoldable pub initialize : Ptr → World → World
unfolding hold
initialize pool w = hold pool (record w { pool = some pool })

unfoldable pub end_handler : World → World
unfolding drop
end_handler w = elim w.pool [ none ↦ w | some pool ↦ drop pool w ]

-- The end of the scope of `main`, where `skpad` has the socket yet or has none.
unfoldable pub leave : Option ℕ → List Ptr → World → World
unfolding release_all end_handler
leave sock held w =
    let out = end_handler (release_all held w) in record out { closed = closing sock ++ out.closed }

pub data Outcome : Type 0 where
  exits serves : Outcome

abbrev pub all_objects : List Ptr
all_objects = data_pool ∷ spray_pool ∷ spring_pool ∷ connector ∷ reactor ∷ []

-- `Alloc` with the handler: the spring holds the pool of the springs and the socket, which is closed
-- otherwise.
unfoldable pub alloc_spring : Option ℕ → (spring : Bool) → World → World
unfolding hold
alloc_spring sock spring w =
    if spring then hold spring_pool w else record w { closed = closing sock ++ w.closed }

-- `Bind` of the reactor, where `binds` is what the spring's `HandleBind` answers. If it fails, its
-- `Clean` has closed the socket, and the `Release` in `HandleTerminate`, which is the last, gives the
-- spring back to its pool with the reference to it.
unfoldable pub bind_spring : Option ℕ → (binds : Bool) → World → World
unfolding drop
bind_spring sock binds w =
    if binds
    then record w { bound = true }
    else drop spring_pool (record w { closed = closing sock ++ w.closed })

-- `main` from the call of `SockAcceptor::NewInstance` on. `sock` is the listening socket if it
-- succeeds, `made` which of the objects `NewInstance` answers, `spring` whether `Alloc` answers a
-- spring, and `binds` whether the reactor can bind it, at which the program does not look.
unfoldable pub main : Option ℕ → (Ptr → Bool) → (spring binds : Bool) → World → Outcome × World
unfolding create_all initialize alloc_spring bind_spring leave
main none made spring binds w = (exits, leave none [] w)
main (some sock) made spring binds w =
    let out = create_all all_objects made [] w in
    let ready = alloc_spring (some sock) spring (initialize spray_pool out.2) in
    if out.0
    then (if spring
        then (serves, bind_spring (some sock) binds ready)
        else (exits, leave none out.1 ready))
    else (exits, leave (some sock) out.1 out.2)

-- Which objects are made, the latest first.
abbrev pub made_first : List Ptr → (Ptr → Bool) → List Ptr → List Ptr
made_first [] made held = held
made_first (o ∷ os) made held =
    let rest = made_first os made (o ∷ held) in if made o then rest else held

abbrev pub created : Option ℕ → (Ptr → Bool) → List Ptr
created none made = []
created (some sock) made = made_first all_objects made []

unmade : false ≡ true → ⊥
unmade e = cc

-- The program has a listening socket, each of its objects and a spring.
abbrev pub IsReady : Option ℕ → (Ptr → Bool) → Bool → Type 0
IsReady sock made spring =
    (sock ≢ none)
    × (made data_pool ≡ true)
    × (made spray_pool ≡ true)
    × (made spring_pool ≡ true)
    × (made connector ≡ true)
    × (made reactor ≡ true)
    × (spring ≡ true)

-- Where the program cannot make its listening socket, an object or the spring, it gives up: it has
-- destroyed each object that it made once, the latest first, and has closed the listening socket once
-- if there was one. Else it serves, has destroyed nothing, and the pools that another object uses are
-- held by it too. If the reactor could bind the spring, nothing was closed and the spring holds its
-- pool; if not, the program serves all the same, with the listening socket closed and the spring
-- given back.
pub main_lem :
    (sock : Option ℕ) (made : Ptr → Bool) (spring binds : Bool) (ref : Ptr → RefObject)
    → let out = main sock made spring binds (start ref) in
      (¬ IsReady sock made spring
        × (out.0 ≡ exits)
        × (out.1.destroyed ≡ created sock made)
        × (out.1.closed ≡ closing sock)
        × (out.1.bound ≡ false))
      ⊎ (IsReady sock made spring
          × (out.0 ≡ serves)
          × (out.1.destroyed ≡ [])
          × (out.1.closed ≡ (if binds then [] else closing sock))
          × (out.1.bound ≡ binds)
          × ((out.1.ref data_pool).reference ≡ 2)
          × ((out.1.ref spray_pool).reference ≡ 2)
          × ((out.1.ref spring_pool).reference ≡ (if binds then 2 else 1))
          × ((out.1.ref connector).reference ≡ 1)
          × ((out.1.ref reactor).reference ≡ 1))
unfolding main start create_all create hold initialize alloc_spring bind_spring leave release_all
    end_handler drop drop_once auto_release release add_ref new_ref_object closing
main_lem none made spring binds ref = inl ((λ r. r.0 refl), refl, refl, refl, refl)
main_lem (some sock) made spring binds ref = (elim (Bool-cases (made data_pool)) [
  | inr none_made ↦ inl (simp none_made ((λ r. unmade r.1), refl, refl, refl, refl))
  | inl e0 ↦ (elim (Bool-cases (made spray_pool)) [
    | inr none_made ↦ inl (simp (e0, none_made) ((λ r. unmade r.2), refl, refl, refl, refl))
    | inl e1 ↦ (elim (Bool-cases (made spring_pool)) [
      | inr none_made ↦ inl (simp (e0, e1, none_made) ((λ r. unmade r.3), refl, refl, refl, refl))
      | inl e2 ↦ (elim (Bool-cases (made connector)) [
        | inr none_made ↦
            inl (simp (e0, e1, e2, none_made) ((λ r. unmade r.4), refl, refl, refl, refl))
        | inl e3 ↦ (elim (Bool-cases (made reactor)) [
          | inr none_made ↦
              inl (simp (e0, e1, e2, e3, none_made) ((λ r. unmade r.5), refl, refl, refl, refl))
          | inl e4 ↦ (elim (Bool-cases spring) [
            | inr no_spring ↦
                inl
                  (simp (e0, e1, e2, e3, e4, no_spring) ((λ r. unmade r.6), refl, refl, refl, refl))
            | inl got ↦ (elim (Bool-cases binds) [
              | inl bound ↦ inr (
                  simp (e0, e1, e2, e3, e4, got, bound)
                    (
                      ((λ e. cc), refl, refl, refl, refl, refl, refl),
                      refl,
                      refl,
                      refl,
                      refl,
                      refl,
                      refl,
                      refl,
                      refl,
                      refl,
                    ))
              | inr unbound ↦ inr (
                  simp (e0, e1, e2, e3, e4, got, unbound)
                    (
                      ((λ e. cc), refl, refl, refl, refl, refl, refl),
                      refl,
                      refl,
                      refl,
                      refl,
                      refl,
                      refl,
                      refl,
                      refl,
                      refl,
                    ))
            ])
          ])
        ])
      ])
    ])
  ])
])
