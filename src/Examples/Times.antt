-- ===== src/Examples/Times.antt =====
-- Times of lne/TimeValue.h at concrete inputs.
use lne.Prelude.{◌≡◌, ◌↔◌, refl, true, false, arith}
use lne.Prelude.Int.{pos, negsuc}
use lne.TimeValue.{TimeValue, normalize, less, less_equal, greater, greater_equal, equal, not_equal}
use lne.TimeValue.Laws.{SameInstant, Before, IsNormal, normalize-IsNormal, less-Before}

abbrev over : TimeValue
over = record { sec = pos 3; usec = pos 2500000 }

abbrev under : TimeValue
under = record { sec = pos 1; usec = negsuc 4 }

normalize-IsNormal_example : SameInstant (normalize over) over × IsNormal (normalize over)
normalize-IsNormal_example = normalize-IsNormal over

abbrev early : TimeValue
early = record { sec = negsuc 0; usec = pos 5 }

abbrev late : TimeValue
late = record { sec = pos 2; usec = pos 3 }

less-Before_example :
    ((less early late ≡ true) ↔ Before early late)
    × ((greater late early ≡ true) ↔ Before early late)
    × ((equal early late ≡ true) ↔ SameInstant early late)
    × ((less_equal late early ≡ false) ↔ Before early late)
    × ((greater_equal early late ≡ false) ↔ Before early late)
    × ((not_equal early late ≡ false) ↔ SameInstant early late)
less-Before_example = less-Before early late refl refl (omega arith) (omega arith)

-- Two normal values of the same instant, below zero, that `==` tells apart and `<` puts in an order.
abbrev half_below : TimeValue
half_below = record { sec = pos 0; usec = negsuc 999994 }

two_forms :
    SameInstant early half_below
    × IsNormal early
    × IsNormal half_below
    × (equal early half_below ≡ false)
    × (less early half_below ≡ true)
unfolding equal less
two_forms = ground arith
