-- ===== src/SockSpray/Pool/Items.antt =====
-- lne/SockSpray.cpp and lne/SockEventer.cpp: lists of connections, the sockets that they hold, and
-- what deleting them gives back.
use lne.Ring.Distinct.{without-absent, without}
use lne.Prelude.{
  ℕ, zero, suc, ◌+◌, ◌<◌, ◌≤◌, ◌==◌, ◌≡◌, ◌≢◌, refl, sym, subst, ap, ◌∙◌, true, false, List, [],
  ◌∷◌, ◌++◌, arith, length, length-append, update, snoc-cases, inl, inr, if◌then◌else◌, ==_self,
}
use mathlib.Core.List.{append-nil, append_assoc}
use lne.Ring.{Ptr, null, has, Distinct}
use lne.Ring.Distinct.{Distinct-unmiddle, Distinct-apart}
use lne.Ring.Relink.{has-append}
use lne.ExtendObject.{RefObject, release}
use lne.ObjectStack
use lne.ObjectStack.{ObjectStack, Holds, pop-Holds, pop-empty}
use lne.SockPad.{closing}
use lne.SockPad.Accounts.{count, count-append}
use lne.SockEventer.{delete_loop}
use lne.SockSpray.{SockSpray}
use lne.SockSpray.Pool.Life.{delete_sprays}

pub without-last : (z : Ptr) (ys : List Ptr) → has z ys ≡ false → without z (ys ++ z ∷ []) ≡ ys
without-last z [] h = ground arith
without-last z (y ∷ ys) h = ground (arith, without-last z ys)

pub has-without :
    (b a : Ptr) (xs : List Ptr) → has b (without a xs) ≡ (if b == a then false else has b xs)
has-without b a [] = ground arith
has-without b a (x ∷ xs) = ground (arith, has-without b a xs)

pub length-without :
    (a : Ptr) (xs : List Ptr)
    → has a xs ≡ true
    → Distinct xs
    → length (without a xs) + 1 ≡ length xs
length-without a [] h d = cc
length-without a (x ∷ xs) h d = ground (arith, length-without a xs, without-absent a xs)

pub Distinct-without :
    (a : Ptr) (xs ys : List Ptr) → Distinct (xs ++ ys) → Distinct (without a xs ++ ys)
Distinct-without a [] ys d = d
Distinct-without a (x ∷ xs) ys d = ground (
  arith,
  Distinct-without a xs ys d.2,
  has-append x xs ys,
  has-append x (without a xs) ys,
  has-without x a xs,
)

pub ne-null : (a : Ptr) (xs : List Ptr) → Distinct xs → has a xs ≡ true → a ≢ null
ne-null a [] d h = cc
ne-null a (x ∷ xs) d h = ground (arith, ne-null a xs d.2)

pub null_absent : (xs : List Ptr) → Distinct xs → has null xs ≡ false
null_absent [] d = refl
null_absent (x ∷ xs) d = ground (arith, null_absent xs d.2)

pub Distinct-without_right :
    (a : Ptr) (xs ys : List Ptr) → Distinct (xs ++ ys) → Distinct (xs ++ without a ys)
Distinct-without_right a [] [] d = d
Distinct-without_right a [] (y ∷ ys) d =
    ground (arith, Distinct-without_right a [] ys d.2, has-without y a ys)
Distinct-without_right a (x ∷ xs) ys d = (
  d.0,
  ground (arith, d.1, has-append x xs ys, has-append x xs (without a ys), has-without x a ys),
  Distinct-without_right a xs ys d.2,
)

-- A connection goes from those in use to the end of those that are kept.
pub Distinct-moved :
    (a : Ptr) (xs ys : List Ptr)
    → has a xs ≡ true
    → Distinct (xs ++ ys)
    → Distinct (without a xs ++ (ys ++ a ∷ []))
Distinct-moved a xs ys h d =
    let gone =
      has-append a (without a xs) ys
      ∙ ground (arith, has-without a a xs, Distinct-apart xs ys a d h) in
    let front : Distinct (a ∷ without a xs ++ ys) = (
      ne-null a (xs ++ ys) d (has-append a xs ys ∙ simp h refl),
      gone,
      Distinct-without a xs ys d,
    ) in
    let back =
      Distinct-unmiddle (without a xs ++ ys) a []
        (subst (λ l. Distinct (a ∷ l)) (sym (append-nil (without a xs ++ ys))) front) in
    subst Distinct (append_assoc (without a xs) ys (a ∷ [])) back

-- The sockets of some connections.
abbrev pub sockets : (Ptr → SockSpray) → List Ptr → List ℕ
sockets store [] = []
sockets store (u ∷ us) = closing (store u).skpad.socket ++ sockets store us

pub sockets-update :
    (store : Ptr → SockSpray) (a : Ptr) (v : SockSpray) (us : List Ptr)
    → has a us ≡ false
    → sockets (update store a v) us ≡ sockets store us
sockets-update store a v [] h = refl
sockets-update store a v (u ∷ us) h =
    let apart : (u == a) ≡ false = ground (arith, h) in
    simp (apart, sockets-update store a v us (ground (arith, h))) refl

pub count-sockets-without :
    (x : ℕ) (store : Ptr → SockSpray) (a : Ptr) (us : List Ptr)
    → has a us ≡ true
    → Distinct us
    → count x (sockets store us)
      ≡ count x (closing (store a).skpad.socket) + count x (sockets store (without a us))
count-sockets-without x store a [] h d = cc
count-sockets-without x store a (u ∷ us) h d = ground (
  arith,
  count-sockets-without x store a us,
  without-absent a us,
  count-append x (closing (store u).skpad.socket) (sockets store us),
  count-append x (closing (store u).skpad.socket) (sockets store (without a us)),
)

-- A connection that changes its socket.
pub count-sockets-update :
    (x : ℕ) (store : Ptr → SockSpray) (a : Ptr) (v : SockSpray) (us : List Ptr)
    → has a us ≡ true
    → Distinct us
    → count x (sockets (update store a v) us) + count x (closing (store a).skpad.socket)
      ≡ count x (sockets store us) + count x (closing v.skpad.socket)
count-sockets-update x store a v us h d =
    let before = count-sockets-without x store a us h d in
    let after = count-sockets-without x (update store a v) a us h d in
    let others =
      sockets-update store a v (without a us) (has-without a a us ∙ simp (==_self a) refl) in
    ground (arith, before, after, ap (count x) others, ==_self a)

-- Each connection that is deleted gives one reference back.
pub delete_sprays_lem :
    (objects : List Ptr) (data_ref : RefObject)
    → length objects ≤ data_ref.reference
    → (delete_sprays objects data_ref).reference + length objects ≡ data_ref.reference
unfolding delete_sprays release
delete_sprays_lem [] data_ref h = omega arith
delete_sprays_lem (o ∷ objects) data_ref h =
    ground (arith, delete_sprays_lem objects (release data_ref).0)

-- The pool's destructor deletes as many connections as the pool keeps.
pub length-delete_loop :
    (fuel : ℕ) (old : Ptr) (s : ObjectStack Ptr) (items : List Ptr)
    → length items < fuel
    → Holds s items
    → length (delete_loop fuel old s) ≡ length items
unfolding delete_loop
length-delete_loop zero old s items h k = absurd (omega arith)
length-delete_loop (suc fuel) old s items h k = elim (snoc-cases items) [
  | inl e ↦ simp (pop-empty old s (subst (Holds s) e k), e) refl
  | inr (ys, z, e) ↦
      let p = pop-Holds old z s ys (subst (Holds s) e k) in
      let n = length-append ys (z ∷ []) ∙ refl in
      let ih = length-delete_loop fuel (ObjectStack.pop old s).1 (ObjectStack.pop old s).0 ys in
      simp (p.2) (ground (arith, ih, n, e, p.0))
]
