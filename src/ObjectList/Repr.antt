-- ===== src/ObjectList/Repr.antt =====
-- What an object list stands for: the nodes of its circle, and those of its free list.
use lne.Prelude.{◌≡◌, refl, true, false, List, [], ◌∷◌, ◌++◌, map, arith, update}
use lne.Ring.{Ptr, null, has, Distinct, last, Ring}
use lne.Ring.Relink.{Dll-ext}
use lne.Ring.Distinct.{Distinct-apart_right}
use lne.ObjectList.{ObjectList}

-- The `next` fields lead from `p` through `fs` to null.
abbrev pub FreeChain : (Ptr → Ptr) → Ptr → List Ptr → Type 0
FreeChain next p [] = p ≡ null
FreeChain next p (f ∷ fs) = (p ≡ f) × FreeChain next (next f) fs

abbrev pub Circle : (prev next : Ptr → Ptr) → Ptr → List Ptr → Type 0
Circle prev next c [] = c ≡ null
Circle prev next c (x ∷ xs) = (c ≡ x) × Ring prev next x xs

-- The circle holds the nodes `xs`, the free list the nodes `fs`, and no node stands twice.
pub record Repr {ℓ} {T : Type ℓ} (l : ObjectList T) (xs fs : List Ptr) : Type 0 where
  pub circle : Circle l.prev l.next l.nodes_circle xs
  pub free : FreeChain l.next l.nodes_free fs
  pub distinct : Distinct (xs ++ fs)

-- The objects, first to last.
abbrev pub contents {ℓ} : {T : Type ℓ} → ObjectList T → List Ptr → List T
contents l xs = map l.object xs

pub FreeChain-ext :
    (next next' : Ptr → Ptr) (p : Ptr) (fs : List Ptr)
    → ((a : Ptr) → has a fs ≡ true → next' a ≡ next a)
    → FreeChain next p fs
    → FreeChain next' p fs
FreeChain-ext next next' p [] same c = c
FreeChain-ext next next' p (f ∷ fs) same c = (
  c.0,
  FreeChain-ext next next' (next' f) fs (λ a i. same a (ground arith)) (ground (arith, same f)),
)

pub map-update {ℓ} :
    {T : Type ℓ} (f : Ptr → T) (n : Ptr) (v : T) (xs : List Ptr)
    → has n xs ≡ false
    → map (update f n v) xs ≡ map f xs
map-update f n v [] h = refl
map-update f n v (x ∷ xs) h = ground (arith, map-update f n v xs)

pub Circle-ext :
    (prev next prev' next' : Ptr → Ptr) (c : Ptr) (xs : List Ptr)
    → ((a : Ptr) → has a xs ≡ true → (prev' a ≡ prev a) × (next' a ≡ next a))
    → Circle prev next c xs
    → Circle prev' next' c xs
Circle-ext prev next prev' next' c [] same r = r
Circle-ext prev next prev' next' c (x ∷ xs) same r =
    (r.0, Dll-ext prev next prev' next' (last x xs) x xs x same r.1)

-- Unlinking touches the nodes of the circle only, and neither the objects nor the free list's head.
pub record Spares {ℓ} {T : Type ℓ} (xs : List Ptr) (l l' : ObjectList T) : Type ℓ where
  pub object : l'.object ≡ l.object
  pub free : l'.nodes_free ≡ l.nodes_free
  pub next : (a : Ptr) → has a xs ≡ false → l'.next a ≡ l.next a

pub Spares-FreeChain {ℓ} :
    {T : Type ℓ} {l l' : ObjectList T} (xs fs : List Ptr)
    → Spares xs l l'
    → Distinct (xs ++ fs)
    → FreeChain l.next l.nodes_free fs
    → FreeChain l'.next l'.nodes_free fs
Spares-FreeChain {l} {l'} xs fs s d f = rw s.free (
    FreeChain-ext l.next l'.next l.nodes_free fs
      (λ a i. s.next a (Distinct-apart_right xs fs a d i)) f)
