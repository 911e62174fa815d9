-- ===== src/Ring/Relink.antt =====
-- How a segment changes when its ends are linked elsewhere, and when others' fields are written.
use lne.Prelude.{◌≡◌, refl, true, ◌||◌, List, [], ◌∷◌, ◌++◌, arith, update}
use lne.Ring.{Ptr, has, Distinct, last, Dll}

pub has-append : (a : Ptr) (xs ys : List Ptr) → has a (xs ++ ys) ≡ (has a xs || has a ys)
has-append a [] ys = refl
has-append a (x ∷ xs) ys = ground (arith, has-append a xs ys)

pub last-append : (x y : Ptr) (xs ys : List Ptr) → last x (xs ++ y ∷ ys) ≡ last y ys
last-append x y [] ys = refl
last-append x y (z ∷ zs) ys = last-append z y zs ys

pub has-last : (x : Ptr) (xs : List Ptr) → has (last x xs) (x ∷ xs) ≡ true
has-last x [] = ground arith
has-last x (y ∷ ys) = ground (arith, has-last y ys)

-- A segment depends on the fields of its own nodes only.
pub Dll-ext :
    (prev next prev' next' : Ptr → Ptr) (p x : Ptr) (xs : List Ptr) (q : Ptr)
    → ((a : Ptr) → has a (x ∷ xs) ≡ true → (prev' a ≡ prev a) × (next' a ≡ next a))
    → Dll prev next p x xs q
    → Dll prev' next' p x xs q
Dll-ext prev next prev' next' p x [] q same d = ground (arith, same x)
Dll-ext prev next prev' next' p x (y ∷ ys) q same d = (
  ground (arith, same x),
  ground (arith, same x),
  Dll-ext prev next prev' next' x y ys q (λ a i. same a (ground arith)) d.2,
)

-- A new node before the first.
pub Dll-relink_first :
    (prev next : Ptr → Ptr) (p p' x : Ptr) (xs : List Ptr) (q : Ptr)
    → Distinct (x ∷ xs)
    → Dll prev next p x xs q
    → Dll (update prev x p') next p' x xs q
Dll-relink_first prev next p p' x [] q u d = ground arith
Dll-relink_first prev next p p' x (y ∷ ys) q u d =
    (ground arith, d.1, Dll-ext _ _ _ _ x y ys q (λ a i. ground arith) d.2)

-- A new node behind the last.
pub Dll-relink_last :
    (prev next : Ptr → Ptr) (p x : Ptr) (xs : List Ptr) (q q' : Ptr)
    → Distinct (x ∷ xs)
    → Dll prev next p x xs q
    → Dll prev (update next (last x xs) q') p x xs q'
Dll-relink_last prev next p x [] q q' u d = ground arith
Dll-relink_last prev next p x (y ∷ ys) q q' u d =
    (d.0, ground (arith, has-last y ys), Dll-relink_last prev next x y ys q q' u.2 d.2)

-- Both ends at once.
pub Dll-relink :
    (prev next : Ptr → Ptr) (p p' x : Ptr) (xs : List Ptr) (q q' : Ptr)
    → Distinct (x ∷ xs)
    → Dll prev next p x xs q
    → Dll (update prev x p') (update next (last x xs) q') p' x xs q'
Dll-relink prev next p p' x xs q q' u d =
    Dll-relink_last (update prev x p') next p' x xs q q' u
      (Dll-relink_first prev next p p' x xs q u d)

pub Dll-split :
    (prev next : Ptr → Ptr) (p x : Ptr) (xs : List Ptr) (y : Ptr) (ys : List Ptr) (q : Ptr)
    → Dll prev next p x (xs ++ y ∷ ys) q
    → Dll prev next p x xs y × Dll prev next (last x xs) y ys q
Dll-split prev next p x [] y ys q d = ((d.0, d.1), d.2)
Dll-split prev next p x (z ∷ zs) y ys q d =
    let r = Dll-split prev next x z zs y ys q d.2 in ((d.0, d.1, r.0), r.1)

pub Dll-join :
    (prev next : Ptr → Ptr) (p x : Ptr) (xs : List Ptr) (y : Ptr) (ys : List Ptr) (q : Ptr)
    → Dll prev next p x xs y
    → Dll prev next (last x xs) y ys q
    → Dll prev next p x (xs ++ y ∷ ys) q
Dll-join prev next p x [] y ys q d e = (d.0, d.1, e)
Dll-join prev next p x (z ∷ zs) y ys q d e = (d.0, d.1, Dll-join prev next x z zs y ys q d.2 e)

-- The fields at the two ends.
pub Dll-first :
    (prev next : Ptr → Ptr) (p x : Ptr) (xs : List Ptr) (q : Ptr)
    → Dll prev next p x xs q
    → prev x ≡ p
Dll-first prev next p x [] q d = d.0
Dll-first prev next p x (y ∷ ys) q d = d.0

pub Dll-last :
    (prev next : Ptr → Ptr) (p x : Ptr) (xs : List Ptr) (q : Ptr)
    → Dll prev next p x xs q
    → next (last x xs) ≡ q
Dll-last prev next p x [] q d = d.1
Dll-last prev next p x (y ∷ ys) q d = Dll-last prev next x y ys q d.2
