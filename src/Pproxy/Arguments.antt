-- ===== src/Pproxy/Arguments.antt =====
-- apps/pproxy/main.cpp: what the arguments of the program mean.
use lne.Prelude.{
  ℕ, ◌==◌, ◌&&◌, ◌≡◌, refl, Bool, true, false, Option, none, some, List, [], ◌∷◌, if◌then◌else◌,
}
use lne.Prelude.Int.{ℤ}
use lne.SockAddr.{Bytes, SockAddr, Resolver, af_inet, af_inet6, reset, to_u16, set_port, set_host}
use lne.SockAddr.Text.{atoi}

-- `strcmp` that answers 0.
abbrev pub same : Bytes → Bytes → Bool
same [] [] = true
same (x ∷ xs) (y ∷ ys) = let rest = same xs ys in x == y && rest
same _ _ = false

pub record Arguments : Type 0 where
  pub address_family : ℕ
  pub local_port : ℤ
  pub remote_port : ℤ
  pub remote_addr : Bytes

-- `argv` without the program's name; `none` is the text on its usage.
unfoldable pub parse : List Bytes → Option Arguments
parse (port ∷ addr ∷ []) = some (record {
  address_family = af_inet;
  local_port = atoi port;
  remote_port = atoi port;
  remote_addr = addr;
})
parse (port ∷ addr ∷ remote ∷ []) = some (record {
  address_family = af_inet;
  local_port = atoi port;
  remote_port = atoi remote;
  remote_addr = addr;
})
parse (port ∷ addr ∷ remote ∷ flag ∷ []) = some (record {
  address_family = if same flag (b'-' ∷ b'6' ∷ []) then af_inet6 else af_inet;
  local_port = atoi port;
  remote_port = atoi port;
  remote_addr = addr;
})
parse _ = none

-- The address that is listened on and the one that is connected to.
unfoldable pub addresses : Resolver → Arguments → SockAddr × SockAddr
addresses r a = (
  (set_port (to_u16 a.local_port) a.address_family reset).0,
  (set_host r (to_u16 a.remote_port) (some a.remote_addr) a.address_family reset).0,
)

-- With the flag `-6` the third argument, which is the port to connect to, is read no more: the
-- program connects to the port that it listens on.
pub parse-ignores :
    (port addr remote other : Bytes)
    → parse (port ∷ addr ∷ remote ∷ (b'-' ∷ b'6' ∷ []) ∷ [])
      ≡ parse (port ∷ addr ∷ other ∷ (b'-' ∷ b'6' ∷ []) ∷ [])
unfolding parse
parse-ignores port addr remote other = refl
