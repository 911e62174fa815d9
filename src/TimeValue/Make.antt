-- ===== src/TimeValue/Make.antt =====
-- lne/TimeValue.h: the constructors, `Now`, the assignments, and `Set` from a `timespec` that
-- lne/ThreadCondition.cpp makes of a value.
use lne.Prelude.{ℕ, suc, ◌+◌, ◌*◌, ◌/◌, ◌≡◌, arith, ap, ◌∙◌}
use lne.Prelude.Int.{ℤ, pos, negsuc, ◌*ℤ◌, ◌-ℤ◌}
use lne.TimeValue.{TimeValue, set, set_timespec, quotient}

unfoldable pub new_time_value : TimeValue
new_time_value = record { sec = pos 0; usec = pos 0 }

unfoldable pub copy_of : TimeValue → TimeValue
copy_of tv = record { sec = tv.sec; usec = tv.usec }

unfoldable pub from_numbers : ℤ → ℤ → TimeValue
from_numbers sec usec = set sec usec

-- `Set` from a `timeval`, and the constructor.
unfoldable pub set_timeval : ℤ → ℤ → TimeValue
set_timeval tv_sec tv_usec = record { sec = tv_sec; usec = tv_usec }

unfoldable pub from_timeval : ℤ → ℤ → TimeValue
from_timeval tv_sec tv_usec = set_timeval tv_sec tv_usec

unfoldable pub from_timespec : ℤ → ℤ → TimeValue
from_timespec tv_sec tv_nsec = set_timespec tv_sec tv_nsec

-- `Now`, from what `gettimeofday` writes.
unfoldable pub now : ℤ × ℤ → TimeValue
now (tv_sec, tv_usec) = record { sec = tv_sec; usec = tv_usec }

unfoldable pub assign : TimeValue → TimeValue → TimeValue
assign a tv = record { sec = tv.sec; usec = tv.usec }

pos_mul : (n : ℕ) → pos n *ℤ pos 1000 ≡ pos (n * 1000)
unfolding ◌*ℤ◌
pos_mul n = ground arith

negsuc_mul : (n : ℕ) → negsuc n *ℤ pos 1000 ≡ negsuc (n * 1000 + 999)
unfolding ◌*ℤ◌
negsuc_mul n = ground arith

-- Dividing by 1000 what was multiplied by it.
pub quotient_mul : (u : ℤ) → quotient (u *ℤ pos 1000) 1000 ≡ u
unfolding ◌-ℤ◌
quotient_mul (pos n) = ap (λ u. quotient u 1000) (pos_mul n) ∙ ap pos (omega arith)
quotient_mul (negsuc n) =
    let whole : suc (n * 1000 + 999) / 1000 ≡ suc n = omega arith in
    ap (λ u. quotient u 1000) (negsuc_mul n) ∙ ap (λ k. pos 0 -ℤ pos k) whole ∙ ground arith
