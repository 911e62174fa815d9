-- ===== src/SockAddr/Text.antt =====
-- What lne/SockAddr.cpp uses of C's library on texts: `strrchr` with the cut behind it, `atoi`, and
-- `%u` of `sprintf`.
use lne.Prelude.{
  ℕ, zero, suc, ◌+◌, ◌-◌, ◌*◌, ◌/◌, ◌%◌, ◌<◌, ◌≤◌, ◌≡◌, refl, ap, ◌∙◌, Bool, true, ◌&&◌, ◌||◌,
  Option, none, some, List, [], ◌∷◌, ◌++◌, ◌==◌, ltb, leb, if◌then◌else◌, arith, length, Bool-cases,
  inl, inr,
}
use lne.Prelude.Int.{ℤ, pos, ◌-ℤ◌}

-- The text before the last `c`, and the text behind it.
unfoldable pub split_last : ℕ → List ℕ → Option (List ℕ × List ℕ)
split_last c [] = none
split_last c (x ∷ xs) = elim (split_last c xs) [
  | some (before, after) ↦ some (x ∷ before, after)
  | none ↦ if x == c then some ([], xs) else none
]

abbrev pub is_digit : ℕ → Bool
is_digit c = leb b'0' c && leb c b'9'

abbrev pub is_space : ℕ → Bool
is_space c = c == b' ' || (leb 9 c && leb c 13)

unfoldable pub read_digits : ℕ → List ℕ → ℕ
read_digits n [] = n
read_digits n (c ∷ cs) =
    let rest = read_digits (n * 10 + (c - b'0')) cs in if is_digit c then rest else n

unfoldable pub read_sign : List ℕ → ℤ
read_sign [] = pos 0
read_sign (c ∷ cs) =
    if c == b'-'
    then pos 0 -ℤ pos (read_digits 0 cs)
    else (if c == b'+' then pos (read_digits 0 cs) else pos (read_digits 0 (c ∷ cs)))

-- `atoi`, where the number fits into an `int`.
unfoldable pub atoi : List ℕ → ℤ
atoi [] = pos 0
atoi (c ∷ cs) = let rest = atoi cs in if is_space c then rest else read_sign (c ∷ cs)

unfoldable pub digits : ℕ → ℕ → List ℕ → List ℕ
digits zero n acc = acc
digits (suc fuel) n acc =
    let rest = digits fuel (n / 10) ((b'0' + n % 10) ∷ acc) in
    if ltb n 10 then (b'0' + n % 10) ∷ acc else rest

-- A number in decimal; as many rounds as the number and one more are enough.
unfoldable pub decimal : ℕ → List ℕ
decimal n = digits (suc n) n []

read_digits-digit :
    (m d : ℕ) (acc : List ℕ)
    → d < 10
    → read_digits m ((b'0' + d) ∷ acc) ≡ read_digits (m * 10 + d) acc
unfolding read_digits
read_digits-digit m d acc h =
    let e : m * 10 + (b'0' + d - b'0') ≡ m * 10 + d = omega arith in
    let digit : is_digit (b'0' + d) ≡ true = ground arith in rw (digit, e) refl

read_digits-digits :
    (fuel n : ℕ) (acc : List ℕ) → n < fuel → read_digits 0 (digits fuel n acc) ≡ read_digits n acc
unfolding digits
read_digits-digits zero n acc h = absurd (omega arith)
read_digits-digits (suc fuel) n acc h = elim (Bool-cases (ltb n 10)) [
  | inl small ↦
      let e : 0 * 10 + n % 10 ≡ n = ground arith in
      rw small (read_digits-digit 0 (n % 10) acc (omega arith) ∙ ap (λ m. read_digits m acc) e)
  | inr large ↦
      let e : n / 10 * 10 + n % 10 ≡ n = omega arith in
      rw large (
        read_digits-digits fuel (n / 10) _ (ground arith)
        ∙ read_digits-digit (n / 10) (n % 10) acc (omega arith)
        ∙ ap (λ m. read_digits m acc) e)
]

-- Every byte of a text is a digit.
abbrev pub AllDigits : List ℕ → Type 0
AllDigits [] = Unit {0}
AllDigits (c ∷ cs) = (b'0' ≤ c) × (c ≤ b'9') × AllDigits cs

digits-AllDigits : (fuel n : ℕ) (acc : List ℕ) → AllDigits acc → AllDigits (digits fuel n acc)
unfolding digits
digits-AllDigits zero n acc h = h
digits-AllDigits (suc fuel) n acc h = elim (Bool-cases (ltb n 10)) [
  | inl small ↦ rw small (omega arith, omega arith, h)
  | inr large ↦
      rw large
        (digits-AllDigits fuel (n / 10) ((b'0' + n % 10) ∷ acc) (omega arith, omega arith, h))
]

pub decimal-AllDigits : (n : ℕ) → AllDigits (decimal n)
unfolding decimal
decimal-AllDigits n = digits-AllDigits (suc n) n [] tt

-- Ten to the power of one more.
abbrev tens : ℕ → ℕ
tens zero = 10
tens (suc k) = 10 * tens k

length-digits :
    (fuel n k : ℕ) (acc : List ℕ)
    → n < tens k
    → n < fuel
    → length (digits fuel n acc) ≤ k + 1 + length acc
unfolding digits
length-digits zero n k acc h enough = absurd (omega arith)
length-digits (suc fuel) n zero acc h enough = ground arith
length-digits (suc fuel) n (suc k) acc h enough = elim (Bool-cases (ltb n 10)) [
  | inl small ↦ rw small (omega arith)
  | inr large ↦
      let ih = length-digits fuel (n / 10) k ((b'0' + n % 10) ∷ acc) (omega arith) (ground arith) in
      rw large (omega (arith, ih))
]

-- A port has at most five digits.
pub length-decimal : (n : ℕ) → n < 65536 → length (decimal n) ≤ 5
unfolding decimal
length-decimal n h = omega (arith, length-digits (suc n) n 4 [] (omega arith) (omega arith))

atoi-AllDigits : (cs : List ℕ) → AllDigits cs → atoi cs ≡ pos (read_digits 0 cs)
unfolding atoi read_sign
atoi-AllDigits [] h = unfold read_digits in refl
atoi-AllDigits (c ∷ cs) h = ground (arith, h)

-- `atoi` reads back what `%u` prints.
pub atoi-decimal : (n : ℕ) → atoi (decimal n) ≡ pos n
unfolding decimal
atoi-decimal n =
    atoi-AllDigits (decimal n) (decimal-AllDigits n)
    ∙ ap pos (read_digits-digits (suc n) n [] (omega arith) ∙ (unfold read_digits in refl))

split_last-AllDigits : (cs : List ℕ) → AllDigits cs → split_last b':' cs ≡ none
unfolding split_last
split_last-AllDigits [] h = refl
split_last-AllDigits (c ∷ cs) h = ground (arith, split_last-AllDigits cs h.2)

-- A text that ends with a colon and digits is cut there, whatever stands before.
pub split_last-append :
    (xs cs : List ℕ) → AllDigits cs → split_last b':' (xs ++ (b':' ∷ cs)) ≡ some (xs, cs)
unfolding split_last
split_last-append [] cs h = ground (arith, split_last-AllDigits cs h)
split_last-append (x ∷ xs) cs h = ground (arith, split_last-append xs cs h)
