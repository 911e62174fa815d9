-- ===== src/SockReactor/Circle.antt =====
-- lne/SockReactor.cpp: `Bind` and `UnBind` keep the eventers in one circle.
use lne.Prelude.{
  ℕ, ◌≡◌, ◌≢◌, refl, sym, subst, ap, ◌∙◌, false, List, [], ◌∷◌, ◌++◌, ◌==◌, if◌then◌else◌, arith,
  update, ==_self, ==_of_ne, cons-cases, length-append,
}
use mathlib.Core.List.{append-nil}
use lne.Ring.{Ptr, null, Distinct, last, Dll, Ring}
use lne.Ring.Relink.{
  has-append, last-append, has-last, Dll-ext, Dll-relink, Dll-join, Dll-split, Dll-first,
}
use lne.Ring.Distinct.{Distinct-middle, Distinct-unmiddle}
use lne.ObjectList.Repr.{Circle}
use lne.SockReactor.{SockReactor, bind, unbind}

-- The eventers `xs`, from the one that the reactor points at.
abbrev pub Bound : SockReactor → List Ptr → Type 0
Bound r xs = Circle r.prev r.next r.eventer_circle xs

-- A circle, wherever it is read from.
abbrev pub Cyclic : (prev next : Ptr → Ptr) → List Ptr → Type 0
Cyclic prev next [] = Unit {0}
Cyclic prev next (x ∷ xs) = Ring prev next x xs

pub Cyclic-rotate :
    (prev next : Ptr → Ptr) (us vs : List Ptr)
    → Cyclic prev next (us ++ vs)
    → Cyclic prev next (vs ++ us)
Cyclic-rotate prev next [] vs c = subst (Cyclic prev next) (sym (append-nil vs)) c
Cyclic-rotate prev next (u ∷ us) [] c = subst (Cyclic prev next) (append-nil (u ∷ us)) c
Cyclic-rotate prev next (u ∷ us) (v ∷ vs) c =
    let s = Dll-split prev next (last u (us ++ v ∷ vs)) u us v vs u c in
    subst (λ p. Dll prev next p v (vs ++ u ∷ us) v) (sym (last-append v u vs us))
      (Dll-join prev next (last u us) v vs u us v s.1
        (subst (λ p. Dll prev next p u us v) (last-append u v us vs) s.0))

-- The reactor with the eventer between `l` and `x`.
abbrev linked : Ptr → Ptr → Ptr → ℕ → SockReactor → SockReactor
linked e l x time r = record r {
  next = update (update r.next e x) l e;
  prev = update (update r.prev e l) x e;
  eventer_circle = e;
  active = update r.active e time;
}

bind-linked :
    (e l x : Ptr) (time : ℕ) (r : SockReactor)
    → r.eventer_circle ≡ x
    → r.prev x ≡ l
    → (x == null) ≡ false
    → (e == l) ≡ false
    → bind e time r ≡ linked e l x time r
unfolding bind
bind-linked e l x time r here tail there apart = simp (here, tail, there, apart, ==_self e) refl

bind-first :
    (e : Ptr) (time : ℕ) (r : SockReactor)
    → r.eventer_circle ≡ null
    → Bound (bind e time r) (e ∷ []) × ((bind e time r).active e ≡ time)
unfolding bind
bind-first e time r c = ground arith

-- `Bind` puts the eventer in front of the others, where the reactor then points.
pub bind-Bound :
    (eventer : Ptr) (time : ℕ) (r : SockReactor) (xs : List Ptr)
    → Distinct (eventer ∷ xs)
    → Bound r xs
    → Bound (bind eventer time r) (eventer ∷ xs) × ((bind eventer time r).active eventer ≡ time)
bind-Bound e time r [] d c = bind-first e time r c
bind-Bound e time r (x ∷ xs) d c =
    let l = last x xs in
    let apart : (e == l) ≡ false = ground (arith, d.1, has-last x xs) in
    let ne : (e == x) ≡ false = ground (arith, d.1) in
    subst (λ out. Bound out (e ∷ x ∷ xs) × (out.active e ≡ time))
      (sym (
        bind-linked e l x time r c.0 (Dll-first r.prev r.next _ x xs x c.1) (==_of_ne x null d.2.0)
          apart))
      (
        (
          refl,
          (
            ground (arith, ne),
            ground (arith, apart),
            Dll-relink (update r.prev e l) (update r.next e x) l e x xs x e d.2
                (Dll-ext r.prev r.next _ _ l x xs x (λ a i. ground (arith, d.1)) c.1),
          ),
        ),
        ground arith,
      )

last-ne_null : (w : Ptr) (ws : List Ptr) → Distinct (w ∷ ws) → last w ws ≢ null
last-ne_null w [] d = d.0
last-ne_null w (v ∷ vs) d = last-ne_null v vs d.2

unbind_eq :
    (e : Ptr) (r : SockReactor) (w : Ptr) (ws : List Ptr)
    → Distinct (e ∷ w ∷ ws)
    → Ring r.prev r.next e (w ∷ ws)
    → (Cyclic (unbind e r).prev (unbind e r).next (w ∷ ws))
      × ((unbind e r).eventer_circle
          ≡ (if r.eventer_circle == e then last w ws else r.eventer_circle))
      × ((unbind e r).prev e ≡ null)
      × ((unbind e r).next e ≡ null)
unfolding unbind
unbind_eq e r w ws d c =
    let l = last w ws in
    let apart : (l == e) ≡ false = ground (arith, d.1, has-last w ws) in
    let there : (l == null) ≡ false = ==_of_ne l null (last-ne_null w ws d.2) in
    let ne : (w == null) ≡ false = ==_of_ne w null d.2.0 in
    rw (c.0, c.1, there, ne, apart, ==_self l, ==_self e)
      (
        Dll-ext (update r.prev w l) (update r.next l w) _ _ l w ws w (λ a i. ground (arith, d.1))
            (Dll-relink r.prev r.next e l w ws e w d.2 c.2),
        refl,
        refl,
        refl,
      )

-- The circle that is left after `UnBind`: the others in their order, read from where the
-- reactor then points.
unfoldable pub Left : SockReactor → List Ptr → Type 0
Left r' others = (us : List Ptr) × (vs : List Ptr) × (others ≡ us ++ vs) × Bound r' (vs ++ us)

snoc-cases : (w : Ptr) (ws : List Ptr) → (us : List Ptr) × (w ∷ ws ≡ us ++ last w ws ∷ [])
snoc-cases w [] = ([], refl)
snoc-cases w (v ∷ vs) = let r = snoc-cases v vs in (w ∷ r.0, ap (λ l. w ∷ l) r.1)

pub Distinct-swap : (xs ys : List Ptr) → Distinct (xs ++ ys) → Distinct (ys ++ xs)
Distinct-swap [] ys d = subst Distinct (sym (append-nil ys)) d
Distinct-swap (x ∷ xs) ys d =
    Distinct-unmiddle ys x xs
      (d.0, ground (arith, d.1, has-append x xs ys, has-append x ys xs), Distinct-swap xs ys d.2)

unbind-last :
    (e : Ptr) (r : SockReactor) → e ≢ null → Bound r (e ∷ []) → (unbind e r).eventer_circle ≡ null
unfolding unbind
unbind-last e r ne c = ground (arith, c, ==_of_ne e null ne)

unbind-front :
    (e : Ptr) (r : SockReactor) (w : Ptr) (ws : List Ptr)
    → Distinct (e ∷ w ∷ ws)
    → Bound r (e ∷ w ∷ ws)
    → Left (unbind e r) (w ∷ ws)
unfolding Left
unbind-front e r w ws d c =
    let u = unbind_eq e r w ws d c.1 in
    let s = snoc-cases w ws in
    let out = unbind e r in
    let here : out.eventer_circle ≡ last w ws = u.1 ∙ ground (arith, c.0) in
    (
      s.0,
      last w ws ∷ [],
      s.1,
      (
        here,
        Cyclic-rotate out.prev out.next s.0 (last w ws ∷ [])
            (subst (Cyclic out.prev out.next) s.1 u.0),
      ),
    )

unbind-behind :
    (e : Ptr) (r : SockReactor) (y : Ptr) (ys zs : List Ptr) (w : Ptr) (ws : List Ptr)
    → zs ++ y ∷ ys ≡ w ∷ ws
    → Distinct (e ∷ zs ++ y ∷ ys)
    → r.eventer_circle ≡ y
    → Cyclic r.prev r.next (e ∷ zs ++ y ∷ ys)
    → (e == y) ≡ false
    → Left (unbind e r) (zs ++ y ∷ ys)
unfolding Left
unbind-behind e r y ys zs w ws same d here c ne =
    let u =
      unbind_eq e r w ws (subst (λ l. Distinct (e ∷ l)) same d)
        (subst (λ l. Cyclic r.prev r.next (e ∷ l)) same c) in
    let out = unbind e r in
    (
      zs,
      y ∷ ys,
      refl,
      (
        u.1 ∙ ground (arith, here, ne),
        Cyclic-rotate out.prev out.next zs (y ∷ ys)
            (subst (Cyclic out.prev out.next) (sym same) u.0),
      ),
    )

-- `UnBind` of an eventer in the circle leaves the others in their cyclic order; the reactor then
-- points at one of them, or at none when there are none.
pub unbind-Left :
    (e : Ptr) (r : SockReactor) (ys zs : List Ptr)
    → Distinct (ys ++ e ∷ zs)
    → Bound r (ys ++ e ∷ zs)
    → Left (unbind e r) (zs ++ ys)
unfolding Left
unbind-Left e r [] [] d c = ([], [], refl, unbind-last e r d.0 c)
unbind-Left e r [] (w ∷ ws) d c =
    subst (Left (unbind e r)) (sym (append-nil (w ∷ ws))) (unbind-front e r w ws d c)
unbind-Left e r (y ∷ ys) zs d c =
    let m = Distinct-middle (y ∷ ys) e zs d in
    let cyclic = Cyclic-rotate r.prev r.next (y ∷ ys) (e ∷ zs) c.1 in
    let k = cons-cases (zs ++ y ∷ ys) (omega (arith, length-append zs (y ∷ ys))) in
    unbind-behind e r y ys zs k.0 k.1 k.2 (Distinct-swap (y ∷ ys) (e ∷ zs) d) c.0 cyclic
      (ground (arith, m.1))
