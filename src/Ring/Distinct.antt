-- ===== src/Ring/Distinct.antt =====
-- Lists of distinct addresses.
use lne.Prelude.{
  ◌≡◌, true, false, List, [], ◌∷◌, ◌++◌, arith, Bool-cases, inl, inr, ◌==◌, if◌then◌else◌, refl,
}
use lne.Ring.{Ptr, has, Distinct}
use lne.Ring.Relink.{has-append}

pub Distinct-append_left : (xs ys : List Ptr) → Distinct (xs ++ ys) → Distinct xs
Distinct-append_left [] ys d = tt
Distinct-append_left (x ∷ xs) ys d =
    (d.0, ground (arith, has-append x xs ys), Distinct-append_left xs ys d.2)

pub Distinct-append_right : (xs ys : List Ptr) → Distinct (xs ++ ys) → Distinct ys
Distinct-append_right [] ys d = d
Distinct-append_right (x ∷ xs) ys d = Distinct-append_right xs ys d.2

pub Distinct-apart :
    (xs ys : List Ptr) (a : Ptr) → Distinct (xs ++ ys) → has a xs ≡ true → has a ys ≡ false
Distinct-apart [] ys a d i = elim (false_true i) [ ]
  where
    false_true : false ≡ true → ⊥
    false_true e = cc
Distinct-apart (x ∷ xs) ys a d i = ground (arith, has-append x xs ys, Distinct-apart xs ys a d.2)

pub Distinct-apart_right :
    (xs ys : List Ptr) (a : Ptr) → Distinct (xs ++ ys) → has a ys ≡ true → has a xs ≡ false
Distinct-apart_right xs ys a d i = elim (Bool-cases (has a xs)) [
  | inl e ↦ cc (Distinct-apart xs ys a d e)
  | inr e ↦ e
]

-- A node moves from the middle to the front.
pub Distinct-middle :
    (xs : List Ptr) (y : Ptr) (ys : List Ptr) → Distinct (xs ++ y ∷ ys) → Distinct (y ∷ xs ++ ys)
Distinct-middle [] y ys d = d
Distinct-middle (x ∷ xs) y ys d =
    let r = Distinct-middle xs y ys d.2 in
    (
      r.0,
      ground (arith, has-append x xs (y ∷ ys)),
      (d.0, ground (arith, has-append x xs (y ∷ ys), has-append x xs ys), r.2),
    )

pub Distinct-unmiddle :
    (xs : List Ptr) (y : Ptr) (ys : List Ptr) → Distinct (y ∷ xs ++ ys) → Distinct (xs ++ y ∷ ys)
Distinct-unmiddle [] y ys d = d
Distinct-unmiddle (x ∷ xs) y ys d = (
  d.2.0,
  ground (arith, has-append x xs (y ∷ ys), has-append x xs ys),
  Distinct-unmiddle xs y ys (d.0, ground arith, d.2.2),
)

-- The list without an address.
abbrev pub without : Ptr → List Ptr → List Ptr
without a [] = []
without a (x ∷ xs) = let rest = without a xs in if x == a then rest else x ∷ rest

pub without-absent : (a : Ptr) (xs : List Ptr) → has a xs ≡ false → without a xs ≡ xs
without-absent a [] h = refl
without-absent a (x ∷ xs) h = ground (arith, without-absent a xs)
