-- ===== src/SockPad/Ownership.antt =====
-- No program over the pads of lne/SockPad.h closes a socket twice or holds it in two pads.
use lne.Prelude.{
  ℕ, ◌≡◌, ◌≢◌, refl, true, false, Option, none, some, List, [], ◌∷◌, ◌++◌, arith, ◌==◌,
  if◌then◌else◌, update, Bool-cases, inl, inr, ==_self, ==_of_ne, ==_iff, subst,
}
use lne.Ring.{has}
use lne.SockPad.{SockPad, closing, attach, close, assign, assign_self}

-- Sockets are numbered as they are opened, so that a number is never used again.
pub record Pads : Type 0 where
  pub pad : ℕ → SockPad
  pub opened : List ℕ
  pub closed : List ℕ

-- Pad `i` is given a new socket, pad `i` is assigned pad `j`, or pad `i` is closed.
pub data Op : Type 0 where
  attaches : (i family s : ℕ) → Op
  moves : (i j : ℕ) → Op
  closes : (i : ℕ) → Op

unfoldable pub apply : Op → Pads → Pads
apply (attaches i family s) p =
    let out = attach family (some s) (p.pad i) in
    record { pad = update p.pad i out.0; opened = s ∷ p.opened; closed = out.1 ++ p.closed }
apply (moves i j) p =
    if i == j
    then (let out = assign_self (p.pad i) in
        record p { pad = update p.pad i out.0; closed = out.1 ++ p.closed })
    else let out = assign (p.pad i) (p.pad j) in
      record p { pad = update (update p.pad i out.0) j out.1; closed = out.2 ++ p.closed }
apply (closes i) p =
    let out = close (p.pad i) in record p { pad = update p.pad i out.0; closed = out.1 ++ p.closed }

pub run : List Op → Pads → Pads
run [] p = p
run (o ∷ ops) p = run ops (apply o p)

-- Every new socket of the history is one that was never opened before.
abbrev pub AreNew : List Op → Pads → Type 0
AreNew [] p = Unit {0}
AreNew (attaches i family s ∷ ops) p =
    (has s p.opened ≡ false) × AreNew ops (apply (attaches i family s) p)
AreNew (moves i j ∷ ops) p = AreNew ops (apply (moves i j) p)
AreNew (closes i ∷ ops) p = AreNew ops (apply (closes i) p)

abbrev pub Once : List ℕ → Type 0
Once [] = Unit {0}
Once (x ∷ xs) = (has x xs ≡ false) × Once xs

pub record Inv (p : Pads) : Type 0 where
  pub alone : (i j s : ℕ) → (p.pad i).socket ≡ some s → (p.pad j).socket ≡ some s → i ≡ j
  pub live :
      (i s : ℕ) → (p.pad i).socket ≡ some s → (has s p.opened ≡ true) × (has s p.closed ≡ false)
  pub known : (s : ℕ) → has s p.closed ≡ true → has s p.opened ≡ true
  pub once : Once p.closed

-- What closing the socket of pad `i` does to the record of closed sockets.
module _ (p : Pads) (v : Inv p) (i : ℕ) where
  Once-closing : (o : Option ℕ) → (p.pad i).socket ≡ o → Once (closing o ++ p.closed)
  unfolding closing
  Once-closing none e = v.once
  Once-closing (some s) e = ((v.live i s e).1, v.once)

  known-closing :
      (o : Option ℕ) (s : ℕ)
      → (p.pad i).socket ≡ o
      → has s (closing o ++ p.closed) ≡ true
      → has s p.opened ≡ true
  unfolding closing
  known-closing none s e h = v.known s h
  known-closing (some t) s e h = ground (arith, v.known s, v.live i t)

  -- Another pad's socket stays open.
  live-closing :
      (o : Option ℕ) (j s : ℕ)
      → (p.pad i).socket ≡ o
      → i ≢ j
      → (p.pad j).socket ≡ some s
      → has s (closing o ++ p.closed) ≡ false
  unfolding closing
  live-closing none j s e ne h = (v.live j s h).1
  live-closing (some t) j s e ne h = ground (arith, v.live j s, v.alone i j s)

attaches-Inv :
    (i family s : ℕ) (p : Pads)
    → has s p.opened ≡ false
    → Inv p
    → Inv (apply (attaches i family s) p)
unfolding apply attach
attaches-Inv i family s p new v = record {
  alone = λ j k t h g. ground (arith, v.alone j k t, v.live j t, v.live k t);
  live = λ j t h. ground (
    arith,
    v.live j t,
    v.known s,
    live-closing p v i (p.pad i).socket j t refl,
    known-closing p v i (p.pad i).socket s refl,
  );
  known = λ t h. ground (arith, known-closing p v i (p.pad i).socket t refl);
  once = Once-closing p v i (p.pad i).socket refl;
}

closes-Inv : (i : ℕ) (p : Pads) → Inv p → Inv (apply (closes i) p)
unfolding apply close
closes-Inv i p v = record {
  alone = λ j k t h g. ground (arith, v.alone j k t);
  live = λ j t h. ground (arith, v.live j t, live-closing p v i (p.pad i).socket j t refl);
  known = λ t h. known-closing p v i (p.pad i).socket t refl h;
  once = Once-closing p v i (p.pad i).socket refl;
}

moves_self-Inv : (i : ℕ) (p : Pads) → Inv p → Inv (apply (moves i i) p)
unfolding apply assign_self
moves_self-Inv i p v = rw (==_self i) (record {
  alone = λ j k t h g. ground (arith, v.alone j k t);
  live = λ j t h. ground (arith, v.live j t, live-closing p v i (p.pad i).socket j t refl);
  known = λ t h. known-closing p v i (p.pad i).socket t refl h;
  once = Once-closing p v i (p.pad i).socket refl;
})

moves-Inv : (i j : ℕ) (p : Pads) → i ≢ j → Inv p → Inv (apply (moves i j) p)
unfolding apply assign
moves-Inv i j p ne v = rw (==_of_ne i j ne) (record {
  alone = λ k l t h g. ground (arith, v.alone k l t, v.alone j l t, v.alone k j t);
  live = λ k t h. ground (
    arith,
    v.live k t,
    v.live j t,
    live-closing p v i (p.pad i).socket k t refl,
    live-closing p v i (p.pad i).socket j t refl,
  );
  known = λ t h. known-closing p v i (p.pad i).socket t refl h;
  once = Once-closing p v i (p.pad i).socket refl;
})

-- Whatever pads are given, assigned to one another (or to themselves) or closed, two pads never
-- hold one socket, no socket is closed twice, and none that a pad holds was closed.
pub run-Inv : (ops : List Op) (p : Pads) → AreNew ops p → Inv p → Inv (run ops p)
unfolding run
run-Inv [] p new v = v
run-Inv (attaches i family s ∷ ops) p new v =
    run-Inv ops (apply (attaches i family s) p) new.1 (attaches-Inv i family s p new.0 v)
run-Inv (moves i j ∷ ops) p new v = elim (Bool-cases (i == j)) [
  | inl e ↦
      run-Inv ops (apply (moves i j) p) new
        (subst (λ k. Inv (apply (moves i k) p)) ((==_iff i j).0 e) (moves_self-Inv i p v))
  | inr e ↦ run-Inv ops (apply (moves i j) p) new (moves-Inv i j p (ground arith) v)
]
run-Inv (closes i ∷ ops) p new v = run-Inv ops (apply (closes i) p) new (closes-Inv i p v)
