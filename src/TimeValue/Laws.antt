-- ===== src/TimeValue/Laws.antt =====
-- lne/TimeValue.cpp and lne/TimeValue.h: what `Normalize` keeps and reaches, and what the
-- comparisons and the conversions mean.
use lne.Prelude.{
  ℕ, zero, suc, ◌+◌, ◌*◌, ◌/◌, ◌≤◌, ◌<◌, ◌≡◌, ◌↔◌, ◌⊎◌, true, false, arith, Bool-cases, inl, inr,
}
use lne.Prelude.Int.{ℤ, pos, negsuc, pos_part, neg_part, ◌+ℤ◌, ◌-ℤ◌, ltb_ℤ, +ℤ_parts, -ℤ_parts}
use lne.TimeValue.{
  TimeValue, carry_loop, borrow_loop, borrow_once, normalize, add, sub, to_u64, u64_mod,
  to_millisecond, to_microseconds, less, less_equal, greater, greater_equal, equal, not_equal,
}

-- The microseconds of two values, compared: `ahead a` counts what is above zero.
abbrev pub ahead : TimeValue → ℕ
ahead a = pos_part a.sec * 1000000 + pos_part a.usec

abbrev pub behind : TimeValue → ℕ
behind a = neg_part a.sec * 1000000 + neg_part a.usec

abbrev pub SameInstant : TimeValue → TimeValue → Type 0
SameInstant a b = ahead a + behind b ≡ ahead b + behind a

abbrev pub Before : TimeValue → TimeValue → Type 0
Before a b = ahead a + behind b < ahead b + behind a

-- The microseconds are less than a second, and not below zero when the seconds are above it.
abbrev pub IsNormal : TimeValue → Type 0
IsNormal a =
    (pos_part a.usec < 1000000)
    × (neg_part a.usec < 1000000)
    × ((pos_part a.sec ≡ 0) ⊎ (neg_part a.usec ≡ 0))

carried-parts :
    (a : ℤ)
    → 1000000 ≤ pos_part a
    → (pos_part (a -ℤ pos 1000000) + 1000000 ≡ pos_part a) × (neg_part (a -ℤ pos 1000000) ≡ 0)
unfolding ◌-ℤ◌
carried-parts a h = ground arith

borrowed-parts :
    (a : ℤ)
    → 1000000 ≤ neg_part a
    → (neg_part (a +ℤ pos 1000000) + 1000000 ≡ neg_part a) × (pos_part (a +ℤ pos 1000000) ≡ 0)
unfolding ◌+ℤ◌
borrowed-parts a h = ground arith

one_sign : (a : ℤ) → (pos_part a ≡ 0) ⊎ (neg_part a ≡ 0)
one_sign a = ground arith

carry_loop_lem :
    (fuel : ℕ) (a : TimeValue)
    → pos_part a.usec < (fuel + 1) * 1000000
    → neg_part a.usec ≡ 0
    → SameInstant (carry_loop fuel a) a
      × (pos_part (carry_loop fuel a).usec < 1000000)
      × (neg_part (carry_loop fuel a).usec ≡ 0)
unfolding carry_loop
carry_loop_lem zero a h k = ground arith
carry_loop_lem (suc fuel) a h k = elim (Bool-cases (ltb_ℤ a.usec (pos 1000000))) [
  | inl e ↦ ground (arith, e)
  | inr e ↦
      let c = carried-parts a.usec (ground arith) in
      let ih =
        carry_loop_lem fuel (record { sec = a.sec +ℤ pos 1; usec = a.usec -ℤ pos 1000000 })
          (omega (arith, c)) c.1 in
      ground (arith, e, ih, c, +ℤ_parts a.sec (pos 1))
]

borrow_loop_lem :
    (fuel : ℕ) (a : TimeValue)
    → neg_part a.usec < (fuel + 1) * 1000000
    → pos_part a.usec ≡ 0
    → SameInstant (borrow_loop fuel a) a
      × (neg_part (borrow_loop fuel a).usec < 1000000)
      × (pos_part (borrow_loop fuel a).usec ≡ 0)
unfolding borrow_loop
borrow_loop_lem zero a h k = ground arith
borrow_loop_lem (suc fuel) a h k = elim (Bool-cases (ltb_ℤ (negsuc 999999) a.usec)) [
  | inl e ↦ ground (arith, e)
  | inr e ↦
      let c = borrowed-parts a.usec (ground arith) in
      let ih =
        borrow_loop_lem fuel (record { sec = a.sec -ℤ pos 1; usec = a.usec +ℤ pos 1000000 })
          (omega (arith, c)) c.1 in
      ground (arith, e, ih, c, -ℤ_parts a.sec (pos 1))
]

borrow_once_lem :
    (a : TimeValue)
    → pos_part a.usec < 1000000
    → neg_part a.usec < 1000000
    → SameInstant (borrow_once a) a × IsNormal (borrow_once a)
unfolding borrow_once ◌+ℤ◌ ◌-ℤ◌
borrow_once_lem a h k = ground arith

-- `Normalize` ends, keeps the instant, and leaves less than a second of microseconds, not below
-- zero where the seconds are above it.
pub normalize-IsNormal : (a : TimeValue) → SameInstant (normalize a) a × IsNormal (normalize a)
unfolding normalize
normalize-IsNormal a = elim (Bool-cases (ltb_ℤ a.usec (pos 1000000))) [
  | inr e ↦
      let c = carry_loop_lem (pos_part a.usec) a (omega arith) (ground arith) in
      let b = borrow_once_lem (carry_loop (pos_part a.usec) a) c.1 (omega (arith, c.2)) in
      rw e ((omega (arith, c.0, b.0), b.1))
  | inl e ↦ elim (Bool-cases (ltb_ℤ (negsuc 999999) a.usec)) [
    | inr f ↦
        let c = borrow_loop_lem (neg_part a.usec) a (omega arith) (ground arith) in
        let b = borrow_once_lem (borrow_loop (neg_part a.usec) a) (omega (arith, c.2)) c.1 in
        rw (e, f) ((omega (arith, c.0, b.0), b.1))
    | inl f ↦ rw (e, f) (borrow_once_lem a (ground arith) (ground arith))
  ]
]

-- `+=` and `-=` add and subtract instants, and their result is normal.
pub add_sub_lem :
    (a b : TimeValue)
    → (ahead (add a b) + behind a + behind b ≡ behind (add a b) + ahead a + ahead b)
      × IsNormal (add a b)
      × (ahead (sub a b) + behind a + ahead b ≡ behind (sub a b) + ahead a + behind b)
      × IsNormal (sub a b)
unfolding add sub
add_sub_lem a b =
    let s = normalize-IsNormal (record { sec = a.sec +ℤ b.sec; usec = a.usec +ℤ b.usec }) in
    let d = normalize-IsNormal (record { sec = a.sec -ℤ b.sec; usec = a.usec -ℤ b.usec }) in
    (
      omega (arith, s.0, +ℤ_parts a.sec b.sec, +ℤ_parts a.usec b.usec),
      s.1,
      omega (arith, d.0, -ℤ_parts a.sec b.sec, -ℤ_parts a.usec b.usec),
      d.1,
    )

-- Of two values whose microseconds are at least 0 and less than a second, the six comparisons
-- compare the instants.
pub less-Before :
    (a b : TimeValue)
    → neg_part a.usec ≡ 0
    → neg_part b.usec ≡ 0
    → pos_part a.usec < 1000000
    → pos_part b.usec < 1000000
    → ((less a b ≡ true) ↔ Before a b)
      × ((greater b a ≡ true) ↔ Before a b)
      × ((equal a b ≡ true) ↔ SameInstant a b)
      × ((less_equal b a ≡ false) ↔ Before a b)
      × ((greater_equal a b ≡ false) ↔ Before a b)
      × ((not_equal a b ≡ false) ↔ SameInstant a b)
unfolding less equal greater less_equal greater_equal not_equal
less-Before a b h k l m = ground arith

-- A value that is not below zero converts to its milliseconds, rounded down, and its microseconds,
-- as long as these fit into 64 bits.
pub to_millisecond_lem :
    (s u : ℕ)
    → u < 1000000
    → s * 1000000 + u < u64_mod
    → let a : TimeValue = record { sec = pos s; usec = pos u } in
      (to_microseconds a ≡ s * 1000000 + u) × (to_millisecond a ≡ to_microseconds a / 1000)
unfolding to_microseconds to_millisecond to_u64
to_millisecond_lem s u h k = omega arith
