-- ===== src/SockEventer/Alloc.antt =====
-- lne/SockSpray.cpp and lne/SockSpring.cpp: what the two `Alloc` have in common, over the objects of
-- a pool as a store by address. `memory` is what `new` answers, zero when it throws.
use lne.Prelude.{
  ℕ, ◌==◌, ◌&&◌, not, Bool, ◌≡◌, ◌≢◌, ◌⊎◌, refl, inl, inr, List, [], ◌∷◌, none, some, if◌then◌else◌,
  update, arith, ==_of_ne, ==_self,
}
use lne.Ring.{Ptr, null}
use lne.ExtendObject.{add_ref}
use lne.SockPad
use lne.SockPad.{SockPad}
use lne.SockEventer.{SockEventerPool, pop_object}

-- The object to give out: one of the pool's, or a new one, for which the pool is held too.
unfoldable pub pop_or_new : Ptr → SockEventerPool → SockEventerPool × Ptr
pop_or_new memory p =
    let out = pop_object p in
    if out.1 == null
    then (if memory == null then out else (record out.0 { ref = add_ref out.0.ref }, memory))
    else out

-- Whether the object is a new one.
unfoldable pub is_new : Ptr → SockEventerPool → Bool
is_new memory p = (pop_object p).1 == null && not (memory == null)

pub pop_or_new-cases :
    (memory : Ptr) (p : SockEventerPool)
    → let out = pop_or_new memory p in
      ((out.1 ≡ null) × (out.0.ref ≡ p.ref))
      ⊎ ((out.1 ≢ null) × ((pop_object p).1 ≡ null) × (out.0.ref ≡ add_ref p.ref))
      ⊎ ((out.1 ≢ null)
          × ((pop_object p).1 ≢ null)
          × (out.1 ≡ (pop_object p).1)
          × (out.0.ref ≡ add_ref p.ref))
unfolding pop_or_new pop_object
pop_or_new-cases memory p = ground arith

pub record Allocated (S : Type 0) : Type 0 where
  pub pool : SockEventerPool
  pub object : Ptr
  pub store : Ptr → S
  pub closed : List ℕ

-- How a kind of eventer is made, and where it keeps its socket.
pub record Kind (S : Type 0) : Type 0 where
  pub fresh : S
  pub get_pad : S → SockPad
  pub set_pad : SockPad → S → S

module _ {S : Type 0} (k : Kind S) where
  -- The pad is moved into the object, after `get_pad` and `set_pad` of its kind; without an object
  -- the argument goes out of scope with its socket.
  unfoldable pub alloc : Ptr → SockPad → SockEventerPool → (Ptr → S) → Allocated S
  unfolding pop_or_new
  alloc memory skpad p store =
      let out = pop_or_new memory p in
      let object = if (pop_object p).1 == null then k.fresh else store out.1 in
      let moved = SockPad.assign (k.get_pad object) skpad in
      if out.1 == null
      then record { pool = out.0; object = null; store = store; closed = (SockPad.close skpad).1 }
      else record {
        pool = out.0;
        object = out.1;
        store = update store out.1 (k.set_pad moved.0 object);
        closed = moved.2;
      }

  -- The objects that a pool keeps are clean, and `set_pad` is where `get_pad` looks.
  abbrev pub IsClean : (Ptr → S) → SockEventerPool → Type 0
  IsClean store p = (pop_object p).1 ≢ null → (k.get_pad (store (pop_object p).1)).socket ≡ none

  abbrev pub IsKind : Type 0
  IsKind =
      ((k.get_pad k.fresh).socket ≡ none)
      × ((pad : SockPad) (s : S) → k.get_pad (k.set_pad pad s) ≡ pad)

  -- What `Alloc` makes of a socket: an object holds it and the pool is held once more, or it is
  -- closed and the pool is held as before.
  abbrev pub Gives : SockPad → ℕ → SockEventerPool → Allocated S → Type 0
  Gives skpad sock p out =
      ((out.object ≡ null) × (out.closed ≡ sock ∷ []) × (out.pool.ref ≡ p.ref))
      ⊎ ((out.object ≢ null)
          × (out.closed ≡ [])
          × ((k.get_pad (out.store out.object)).socket ≡ some sock)
          × (out.pool.ref ≡ add_ref p.ref))

  alloc_failed :
      (memory : Ptr) (skpad : SockPad) (sock : ℕ) (p : SockEventerPool) (store : Ptr → S)
      → skpad.socket ≡ some sock
      → (pop_or_new memory p).1 ≡ null
      → (pop_or_new memory p).0.ref ≡ p.ref
      → let out = alloc memory skpad p store in
        (out.object ≡ null) × (out.closed ≡ sock ∷ []) × (out.pool.ref ≡ p.ref)
  unfolding alloc SockPad.close SockPad.closing
  alloc_failed memory skpad sock p store e none_out refs =
      simp (none_out, e, refs) (refl, refl, refl)

  alloc_given :
      (memory : Ptr) (skpad : SockPad) (sock : ℕ) (p : SockEventerPool) (store : Ptr → S)
      (object : S)
      → ((pad : SockPad) (s : S) → k.get_pad (k.set_pad pad s) ≡ pad)
      → skpad.socket ≡ some sock
      → (pop_or_new memory p).1 ≢ null
      → (pop_or_new memory p).0.ref ≡ add_ref p.ref
      → (if (pop_object p).1 == null then k.fresh else store (pop_or_new memory p).1) ≡ object
      → (k.get_pad object).socket ≡ none
      → let out = alloc memory skpad p store in
        (out.object ≢ null)
        × (out.closed ≡ [])
        × ((k.get_pad (out.store out.object)).socket ≡ some sock)
        × (out.pool.ref ≡ add_ref p.ref)
  unfolding alloc SockPad.assign SockPad.attach SockPad.close SockPad.closing
  alloc_given memory skpad sock p store object law e some_out refs is clean =
      simp (==_of_ne (pop_or_new memory p).1 null some_out, is, clean, e, law, refs, ==_self)
        (some_out, refl, refl, refl)

  pub alloc-Gives :
      (memory : Ptr) (skpad : SockPad) (sock : ℕ) (p : SockEventerPool) (store : Ptr → S)
      → IsKind
      → IsClean store p
      → skpad.socket ≡ some sock
      → Gives skpad sock p (alloc memory skpad p store)
  alloc-Gives memory skpad sock p store (clean_fresh, law) clean e =
      elim (pop_or_new-cases memory p) [
        | inl (none_out, refs) ↦ inl (alloc_failed memory skpad sock p store e none_out refs)
        | inr (inl (some_out, none_popped, refs)) ↦ inr (
            alloc_given memory skpad sock p store k.fresh law e some_out refs
              (simp none_popped refl) clean_fresh)
        | inr (inr (some_out, popped, same, refs)) ↦ inr (
            alloc_given memory skpad sock p store (store (pop_object p).1) law e some_out refs
              (simp (same, ==_of_ne (pop_object p).1 null popped) refl) (clean popped))
      ]
