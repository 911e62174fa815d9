-- ===== src/SockPad/Accounts.antt =====
-- lne/SockPad.h: whether a call lost a socket or closed one too many. What was opened or held before
-- is closed or held after it, each socket as often.
use lne.Prelude.{ℕ, ◌+◌, ◌==◌, ◌≡◌, arith, Option, none, List, [], ◌∷◌, ◌++◌, if◌then◌else◌}
use lne.SockPad.{SockPad, is_valid, close, closing, attach}

abbrev pub count : ℕ → List ℕ → ℕ
count x [] = 0
count x (y ∷ ys) = let rest = count x ys in if y == x then 1 + rest else rest

pub count-append : (x : ℕ) (xs ys : List ℕ) → count x (xs ++ ys) ≡ count x xs + count x ys
count-append x [] ys = omega arith
count-append x (z ∷ xs) ys = ground (arith, count-append x xs ys)

abbrev pub Balanced : List ℕ → SockPad → SockPad → List ℕ → Type 0
Balanced opened before after closed =
    (x : ℕ)
    → count x opened + count x (closing before.socket)
      ≡ count x closed + count x (closing after.socket)

pub attach-Balanced :
    (family : ℕ) (sock : Option ℕ) (p : SockPad)
    → Balanced (closing sock) p (attach family sock p).0 (attach family sock p).1
unfolding attach
attach-Balanced family sock p x = omega arith

-- `Close` where the pad holds a socket: it holds none then, and the one that it held is closed.
pub close-is_valid :
    (p : SockPad)
    → let out = if is_valid p then close p else (p, []) in
      (out.0.socket ≡ none) × (out.1 ≡ closing p.socket)
unfolding close is_valid closing
close-is_valid p = ground arith
