-- ===== src/SockSpring/Life/Bound.antt =====
-- lne/SockSpring.cpp: a spring from `SockReactor::Bind` on, also when `HandleBind` fails.
use lne.Prelude.{
  ℕ, ◌≡◌, ◌≢◌, refl, sym, subst, Bool, true, false, ◌&&◌, Bool-cases, inl, inr, Option, none, some,
  List, [], ◌∷◌, if◌then◌else◌, arith,
}
use lne.Ring.{Ptr, null}
use lne.ExtendObject.{release}
use lne.SockPad
use lne.SockSpring.{
  SockSpring, Event, closed, handle_terminated, handle_bind, handle_terminate, clean, closed_all,
}
use lne.SockSpring.Life.{Op, before, terminate_events, life, Foreign}
use lne.SockSpring.Life.Whole.{Ended, life-Ended, terminate_shut}

-- `SockReactor::Bind` calls `HandleTerminate` when `HandleBind` fails; else the spring lives.
unfoldable pub bound_life :
    (fcntl_ok epoll_ok : Bool) → Ptr → List Op → SockSpring → Option (SockSpring × List Event)
bound_life fcntl_ok epoll_ok binder ops s =
    let out = handle_bind fcntl_ok epoll_ok binder s in
    if out.1 then life ops out.0 else before out.2 (terminate_events (handle_terminate out.0))

module _ (fcntl_ok epoll_ok : Bool) (binder : Ptr) (listener : ℕ) (ops : List Op)
    (s : SockSpring) where
  bound_life-bound :
      fcntl_ok && epoll_ok ≡ true
      → bound_life fcntl_ok epoll_ok binder ops s ≡ life ops (record s { poller = binder })
  unfolding bound_life handle_bind
  bound_life-bound e = ground (arith, e)

  abbrev refused : SockSpring
  refused = record s {
    poller = null;
    skpad = record { family = 0; socket = none };
    shutdown_already = false;
  }

  bound_life-cleaned :
      handle_bind fcntl_ok epoll_ok binder s ≡ (refused, false, closed listener ∷ [])
      → s.handler ≢ null
      → (r : SockSpring) × (r.skpad.socket ≡ none)
        × (bound_life fcntl_ok epoll_ok binder ops s
            ≡ some (r, closed listener ∷ handle_terminated ∷ []))
  unfolding bound_life before
  bound_life-cleaned e h = (
    record refused {
      ref = (release s.ref).0;
      skpad = record { family = 0; socket = none };
      shutdown_already = true;
    },
    refl,
    simp (e, terminate_shut refused h refl) refl,
  )

handle_bind-refused :
    (fcntl_ok epoll_ok : Bool) (binder : Ptr) (listener : ℕ) (s : SockSpring)
    → fcntl_ok && epoll_ok ≡ false
    → s.skpad.socket ≡ some listener
    → handle_bind fcntl_ok epoll_ok binder s ≡ (
      record s {
        poller = null;
        skpad = record { family = 0; socket = none };
        shutdown_already = false;
      },
      false,
      closed listener ∷ [],
    )
unfolding handle_bind clean closed_all SockPad.is_valid SockPad.close SockPad.closing
handle_bind-refused true epoll_ok binder listener s e l = ground (arith, e, l)
handle_bind-refused false epoll_ok binder listener s e l = ground (arith, e, l)

-- A spring that is not shut, with a listening socket and a handler, is given to `SockReactor::Bind`:
-- whether `HandleBind` succeeds or not, and however the spring is then shut and reads until it is
-- terminated, no call faults, and the listening socket is closed exactly once and held no more. Its
-- clients are other sockets.
pub bound_life-Ended :
    (fcntl_ok epoll_ok : Bool) (binder : Ptr) (listener : ℕ) (ops : List Op) (s : SockSpring)
    → s.skpad.socket ≡ some listener
    → s.shutdown_already ≡ false
    → s.handler ≢ null
    → binder ≢ null
    → Foreign listener ops
    → Ended listener s (bound_life fcntl_ok epoll_ok binder ops s)
bound_life-Ended fcntl_ok epoll_ok binder listener ops s l running h b foreign =
    elim (Bool-cases (fcntl_ok && epoll_ok)) [
      | inl e ↦
          subst (Ended listener s)
            (sym (bound_life-bound fcntl_ok epoll_ok binder listener ops s e))
            (Ended-poller s binder (life ops (record s { poller = binder })) (
              life-Ended listener ops (record s { poller = binder })
                (record { bound = b; has_handler = h; either = inl (l, running) }) foreign))
      | inr e ↦
          let (r, gone, same) =
            bound_life-cleaned fcntl_ok epoll_ok binder listener ops s
              (handle_bind-refused fcntl_ok epoll_ok binder listener s e l) h in
          subst (Ended listener s) (sym same) (ground (arith, running), gone, λ q. refl)
    ]
  where
    Ended-poller :
        (s : SockSpring) (binder : Ptr) (out : Option (SockSpring × List Event))
        → Ended listener (record s { poller = binder }) out
        → Ended listener s out
    Ended-poller s binder none k = elim k [ ]
    Ended-poller s binder (some (s', es)) k = k
