-- ===== src/TimeValue.antt =====
-- lne/TimeValue.h and lne/TimeValue.cpp: a time of seconds and microseconds. Both are signed and as
-- wide as the platform's `long`, whose overflow C++ leaves undefined, so they are integers here.
pub mod Laws
pub mod Make
use lne.Prelude.{ℕ, zero, suc, ◌+◌, ◌-◌, ◌*◌, ◌/◌, ◌%◌, ◌^◌, Bool, ◌&&◌, ◌||◌, not, if◌then◌else◌}
use lne.Prelude.Int.{ℤ, pos, negsuc, pos_part, neg_part, ◌+ℤ◌, ◌-ℤ◌, ltb_ℤ}

pub record TimeValue : Type 0 where
  pub sec : ℤ
  pub usec : ℤ

abbrev pub one_second_in_usecs : ℕ
one_second_in_usecs = 1000000

-- The three ways to set a value: from two numbers, or from a `timespec`, whose nanoseconds are
-- divided with the remainder's sign that of the dividend.
abbrev pub quotient : ℤ → ℕ → ℤ
quotient (pos n) d = pos (n / d)
quotient (negsuc n) d = pos 0 -ℤ pos (suc n / d)

unfoldable pub set : ℤ → ℤ → TimeValue
set sec usec = record { sec = sec; usec = usec }

unfoldable pub set_timespec : ℤ → ℤ → TimeValue
set_timespec tv_sec tv_nsec = set tv_sec (quotient tv_nsec 1000)

-- The two loops of `Normalize`, on fuel.
unfoldable pub carry_loop : ℕ → TimeValue → TimeValue
carry_loop zero tv = tv
carry_loop (suc fuel) tv =
    let next =
      carry_loop fuel
        (record { sec = tv.sec +ℤ pos 1; usec = tv.usec -ℤ pos one_second_in_usecs }) in
    if not (ltb_ℤ tv.usec (pos one_second_in_usecs)) then next else tv

unfoldable pub borrow_loop : ℕ → TimeValue → TimeValue
borrow_loop zero tv = tv
borrow_loop (suc fuel) tv =
    let next =
      borrow_loop fuel
        (record { sec = tv.sec -ℤ pos 1; usec = tv.usec +ℤ pos one_second_in_usecs }) in
    if not (ltb_ℤ (negsuc 999999) tv.usec) then next else tv

-- The last test of `Normalize`.
unfoldable pub borrow_once : TimeValue → TimeValue
borrow_once tv =
    if not (ltb_ℤ tv.sec (pos 1)) && ltb_ℤ tv.usec (pos 0)
    then record { sec = tv.sec -ℤ pos 1; usec = tv.usec +ℤ pos one_second_in_usecs }
    else tv

unfoldable pub normalize : TimeValue → TimeValue
normalize tv =
    if not (ltb_ℤ tv.usec (pos one_second_in_usecs))
    then borrow_once (carry_loop (pos_part tv.usec) tv)
    else (if not (ltb_ℤ (negsuc 999999) tv.usec)
        then borrow_once (borrow_loop (neg_part tv.usec) tv)
        else borrow_once tv)

-- `+=` and `-=`.
unfoldable pub add : TimeValue → TimeValue → TimeValue
add a b = normalize (record { sec = a.sec +ℤ b.sec; usec = a.usec +ℤ b.usec })

unfoldable pub sub : TimeValue → TimeValue → TimeValue
sub a b = normalize (record { sec = a.sec -ℤ b.sec; usec = a.usec -ℤ b.usec })

-- A signed number as a `LNE_UINT64`.
abbrev pub u64_mod : ℕ
u64_mod = 18446744073709551616

unfoldable pub to_u64 : ℤ → ℕ
to_u64 (pos n) = n % u64_mod
to_u64 (negsuc n) = u64_mod - 1 - n % u64_mod

unfoldable pub to_millisecond : TimeValue → ℕ
to_millisecond tv = (to_u64 tv.sec * 1000 + to_u64 (quotient tv.usec 1000)) % u64_mod

unfoldable pub to_microseconds : TimeValue → ℕ
to_microseconds tv = (to_u64 tv.sec * 1000 * 1000 + to_u64 tv.usec) % u64_mod

-- The comparisons.
abbrev pub same_ℤ : ℤ → ℤ → Bool
same_ℤ a b = not (ltb_ℤ a b) && not (ltb_ℤ b a)

unfoldable pub greater : TimeValue → TimeValue → Bool
greater a b = ltb_ℤ b.sec a.sec || (same_ℤ a.sec b.sec && ltb_ℤ b.usec a.usec)

unfoldable pub greater_equal : TimeValue → TimeValue → Bool
greater_equal a b = ltb_ℤ b.sec a.sec || (same_ℤ a.sec b.sec && not (ltb_ℤ a.usec b.usec))

unfoldable pub less : TimeValue → TimeValue → Bool
less a b = ltb_ℤ a.sec b.sec || (same_ℤ a.sec b.sec && ltb_ℤ a.usec b.usec)

unfoldable pub less_equal : TimeValue → TimeValue → Bool
less_equal a b = ltb_ℤ a.sec b.sec || (same_ℤ a.sec b.sec && not (ltb_ℤ b.usec a.usec))

unfoldable pub equal : TimeValue → TimeValue → Bool
equal a b = same_ℤ a.sec b.sec && same_ℤ a.usec b.usec

unfoldable pub not_equal : TimeValue → TimeValue → Bool
not_equal a b = not (same_ℤ a.sec b.sec) || not (same_ℤ a.usec b.usec)
