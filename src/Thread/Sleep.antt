-- ===== src/Thread/Sleep.antt =====
-- lne/Thread.h: the two `Sleep`, by what they ask of `usleep` in the variant for Linux, whose
-- argument is an `useconds_t` of 32 bits.
use lne.Prelude.{ℕ, ◌*◌, ◌%◌, ◌<◌, ◌≤◌, ◌≡◌, ◌↔◌, arith}
use lne.Prelude.Int.{pos}
use lne.TimeValue.{TimeValue, u64_mod, to_u64, to_microseconds, to_millisecond}

abbrev pub useconds_mod : ℕ
useconds_mod = 4294967296

-- `Sleep` of milliseconds: the product is a `LNE_UINT64`.
unfoldable pub sleep_msec : ℕ → ℕ
sleep_msec msec = (msec * 1000) % u64_mod % useconds_mod

unfoldable pub sleep_time : TimeValue → ℕ
sleep_time tv = to_microseconds tv % useconds_mod

-- `Sleep` of a number of milliseconds that a `LNE_UINT64` can hold asks for that time if and only if
-- it is at most 4294967 milliseconds, about 71 minutes; it asks for less otherwise.
pub sleep_msec_exact :
    (msec : ℕ)
    → msec < u64_mod
    → ((sleep_msec msec ≡ msec * 1000) ↔ (msec ≤ 4294967)) × (sleep_msec msec ≤ msec * 1000)
unfolding sleep_msec
sleep_msec_exact msec h = (((λ e. omega arith), (λ k. omega arith)), omega arith)

-- `Sleep` of a time that is not negative, in whole milliseconds, is `Sleep` of its `ToMillisecond`.
pub sleep_time-to_millisecond :
    (sec msec : ℕ)
    → let tv : TimeValue = record { sec = pos sec; usec = pos (msec * 1000) } in
      sleep_time tv ≡ sleep_msec (to_millisecond tv)
unfolding sleep_time sleep_msec to_microseconds to_millisecond to_u64
sleep_time-to_millisecond sec msec = omega arith
