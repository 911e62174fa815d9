-- ===== src/SockSpring/Pool.antt =====
-- lne/SockSpring.h and lne/SockSpring.cpp: the pool of the listening sockets.
use lne.Prelude.{ℕ, ◌≡◌, ltb, refl, ap, List, Bool, some, none, Option, if◌then◌else◌}
use lne.Ring.{Ptr, null}
use lne.ExtendObject.{new_ref_object, set_ref}
use lne.ObjectStack.{ObjectStack}
use lne.SockPad.{SockPad, new_sock_pad, closing}
use lne.SockPad.Accounts.{close-is_valid}
use lne.SockEventer.{SockEventerPool}
use lne.SockEventer.Alloc.{Kind, Allocated, alloc, IsClean, Gives, alloc-Gives}
use lne.SockSpring.{SockSpring, Event, new_sock_spring, clean, closed_all}

-- `SockSpringPool::NewInstance`, the stack made. The Boolean is whether `new` gets memory.
unfoldable pub new_instance : Bool → ℕ → ObjectStack Ptr → Option SockEventerPool
new_instance memory limit_cache objects =
    if ltb 0 limit_cache
    then (if memory
        then some (record { ref = new_ref_object; limit_cache = limit_cache; objects = objects })
        else none)
    else none

unfoldable pub springs : Ptr → Kind SockSpring
springs handler = record {
  fresh = new_sock_spring new_ref_object;
  get_pad = λ s. s.skpad;
  set_pad = λ pad s. record s { skpad = pad; handler = handler };
}

-- `SockSpringPool::Alloc`.
unfoldable pub alloc_spring :
    Ptr → SockPad → Ptr → SockEventerPool → (Ptr → SockSpring) → Allocated SockSpring
alloc_spring memory skpad handler p store = alloc (springs handler) memory skpad p store

-- The listening socket that `Alloc` is given is in the spring that it answers, or it is closed.
pub alloc_spring-Gives :
    (memory : Ptr) (skpad : SockPad) (sock : ℕ) (handler : Ptr) (p : SockEventerPool)
    (store : Ptr → SockSpring)
    → IsClean (springs handler) store p
    → skpad.socket ≡ some sock
    → Gives (springs handler) skpad sock p (alloc_spring memory skpad handler p store)
unfolding alloc_spring springs new_sock_spring new_sock_pad
alloc_spring-Gives memory skpad sock handler p store clean e =
    alloc-Gives (springs handler) memory skpad sock p store (refl, λ pad s. refl) clean e

-- `SockEventer::ObjectDestroy` of a spring that has a pool, before it is pushed there.
unfoldable pub recycle : SockSpring → SockSpring × List Event
recycle s = let out = clean s in (record out.0 { ref = set_ref 1 out.0.ref; poller = null }, out.1)

-- A spring that went through its pool is as good as a new one: `Alloc` makes the same of both, and
-- the listening socket was closed.
pub recycle-as_new :
    (handler : Ptr) (pad : SockPad) (s : SockSpring)
    → ((springs handler).set_pad pad (recycle s).0
        ≡ (springs handler).set_pad pad (springs handler).fresh)
      × (((springs handler).get_pad (recycle s).0).socket ≡ none)
      × ((recycle s).1 ≡ closed_all (closing s.skpad.socket))
unfolding recycle clean springs new_sock_spring set_ref new_ref_object
recycle-as_new handler pad s =
    (refl, (close-is_valid s.skpad).0, ap closed_all (close-is_valid s.skpad).1)
