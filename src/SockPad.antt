-- ===== src/SockPad.antt =====
-- lne/SockPad.h: a socket with its address family, owned by one pad. `none` is `INVALID_SOCKET`.
-- Every operation answers the sockets that it closes.
pub mod Ownership
pub mod Accounts
use lne.Prelude.{ℕ, Bool, true, false, Option, none, some, List, [], ◌∷◌}

pub record SockPad : Type 0 where
  pub family : ℕ
  pub socket : Option ℕ

abbrev pub af_unspec : ℕ
af_unspec = 0

unfoldable pub new_sock_pad : SockPad
new_sock_pad = record { family = af_unspec; socket = none }

unfoldable pub closing : Option ℕ → List ℕ
closing none = []
closing (some s) = s ∷ []

unfoldable pub is_valid : SockPad → Bool
is_valid p = elim p.socket [ none ↦ false | some s ↦ true ]

unfoldable pub attach : ℕ → Option ℕ → SockPad → SockPad × List ℕ
unfolding closing
attach family sock p = (record { family = family; socket = sock }, closing p.socket)

unfoldable pub close : SockPad → SockPad × List ℕ
unfolding closing
close p = (record { family = af_unspec; socket = none }, closing p.socket)

-- `a = b` of two pads: the new `a`, the new `b`, and what was closed.
unfoldable pub assign : SockPad → SockPad → SockPad × SockPad × List ℕ
unfolding attach
assign a b =
    let out = attach b.family b.socket a in
    (out.0, record { family = af_unspec; socket = none }, out.1)

-- `a = a`: one object in both roles, so the last writes win.
unfoldable pub assign_self : SockPad → SockPad × List ℕ
unfolding attach
assign_self a =
    let out = attach a.family a.socket a in (record { family = af_unspec; socket = none }, out.1)

-- The copy constructor takes the socket out of `other`.
unfoldable pub copy : SockPad → SockPad × SockPad × List ℕ
unfolding new_sock_pad assign
copy other = assign new_sock_pad other
