-- ===== src/Ring.antt =====
-- Circular doubly linked lists over a store of `prev` and `next` fields, as lne/ObjectList_T.h and
-- lne/SockReactor.cpp build them: what it means that the fields form a ring, and how a ring changes.
pub mod Relink
pub mod Distinct
use lne.Prelude.{ℕ, ◌≡◌, ◌≢◌, Bool, true, false, ◌||◌, List, [], ◌∷◌, ◌==◌}

-- An address. Zero is `NULL`.
abbrev pub Ptr : Type 0
Ptr = ℕ

abbrev pub null : Ptr
null = 0

abbrev pub has : Ptr → List Ptr → Bool
has a [] = false
has a (x ∷ xs) = (a == x) || has a xs

-- No address twice, and none of them null.
abbrev pub Distinct : List Ptr → Type 0
Distinct [] = Unit {0}
Distinct (x ∷ xs) = (x ≢ null) × (has x xs ≡ false) × Distinct xs

abbrev pub last : Ptr → List Ptr → Ptr
last x [] = x
last x (y ∷ ys) = last y ys

-- From `x` the `next` fields lead through `xs` to `q`, and the `prev` fields back to `p`.
abbrev pub Dll : (prev next : Ptr → Ptr) → Ptr → Ptr → List Ptr → Ptr → Type 0
Dll prev next p x [] q = (prev x ≡ p) × (next x ≡ q)
Dll prev next p x (y ∷ ys) q = (prev x ≡ p) × (next x ≡ y) × Dll prev next x y ys q

-- The nodes `x ∷ xs` form a circle that starts at `x`.
abbrev pub Ring : (prev next : Ptr → Ptr) → Ptr → List Ptr → Type 0
Ring prev next x xs = Dll prev next (last x xs) x xs x
