-- ===== src/ThreadCondition/Deadline.antt =====
-- lne/ThreadCondition.cpp, lne/ThreadMutex.cpp and lne/ThreadSemaphore.cpp: the deadline of a wait.
use lne.Prelude.{ℕ, ◌+◌, ◌-◌, ◌*◌, ◌<◌, ◌≤◌, ◌≡◌, arith, refl, ap}
use lne.Prelude.Int.{ℤ, pos, negsuc, ◌*ℤ◌}
use lne.TimeValue
use lne.TimeValue.{TimeValue, set_timespec}
use lne.TimeValue.Make.{quotient_mul}
use lne.TimeValue.Laws.{ahead, behind, IsNormal, add_sub_lem}
use lne.ThreadCondition.{deadline}

-- A normal value that is not before the epoch, in nanoseconds.
in_nanoseconds :
    (sec usec : ℤ) (total : ℕ)
    → let a : TimeValue = record { sec = sec; usec = usec } in
      IsNormal a
      → ahead a ≡ behind a + total
      → (s n : ℕ) × (sec ≡ pos s)
        × (usec *ℤ pos 1000 ≡ pos n)
        × (n < 1000000000)
        × (s * 1000000000 + n ≡ 1000 * total)
unfolding ◌*ℤ◌
in_nanoseconds (pos s) (pos u) total v e =
    (s, u * 1000, refl, ground arith, omega (arith, v.0), omega (arith, e))
in_nanoseconds (pos s) (negsuc u) total v e = absurd (ground (arith, v, e))
in_nanoseconds (negsuc s) (pos u) total v e = absurd (omega (arith, v.0, e))
in_nanoseconds (negsuc s) (negsuc u) total v e = absurd (omega (arith, e))

-- For every time now and every time to wait that together are not before the epoch, the seconds and
-- the nanoseconds are at least 0 and the nanoseconds less than a second, as the system asks, and
-- they are the instant now plus the wait.
pub deadline_lem :
    (now tv : TimeValue)
    → behind now + behind tv ≤ ahead now + ahead tv
    → (s n : ℕ) × ((deadline now tv).0 ≡ pos s)
      × ((deadline now tv).1 ≡ pos n)
      × (n < 1000000000)
      × (s * 1000000000 + n + 1000 * (behind now + behind tv) ≡ 1000 * (ahead now + ahead tv))
unfolding deadline
deadline_lem now tv h =
    let k = add_sub_lem now tv in
    let total = ahead now + ahead tv - (behind now + behind tv) in
    let (s, n, e, f, small, value) =
      in_nanoseconds (TimeValue.add now tv).sec (TimeValue.add now tv).usec total k.1
        (omega (arith, k.0)) in
    (s, n, e, f, small, omega (arith, value))

-- `Set` from the deadline's `timespec` gives the sum back that the deadline was made of, for every
-- time now and every time to wait, of either sign.
pub set_timespec-deadline :
    (now tv : TimeValue)
    → set_timespec (deadline now tv).0 (deadline now tv).1 ≡ TimeValue.add now tv
unfolding set_timespec TimeValue.set deadline
set_timespec-deadline now tv =
    ap (λ u. TimeValue.set (TimeValue.add now tv).sec u) (quotient_mul (TimeValue.add now tv).usec)
