-- ===== src/SockAddr.antt =====
-- lne/SockAddr.h and lne/SockAddr.cpp, in the variant for Linux: a socket address with its text. A
-- text is the list of its bytes, without the NUL at its end.
pub mod Text
pub mod Port
pub mod Host
pub mod Make
use lne.Prelude.{
  ℕ, ◌+◌, ◌-◌, ◌%◌, ◌<◌, Bool, true, false, ◌&&◌, ◌||◌, not, Option, none, some, List, [], ◌∷◌,
  ◌++◌, ◌==◌, ltb, if◌then◌else◌, length,
}
use lne.Config.{Status, lnerr_ok, lnerr_unknow, lnerr_parameter, lnerr_nosupport, lnerr_nomemory}
use lne.Prelude.Int.{ℤ, pos, negsuc}
use lne.SockAddr.Text.{split_last, atoi, decimal}

abbrev pub Bytes : Type 0
Bytes = List ℕ

-- The system's address families, and the sizes of their structures.
abbrev pub af_unspec : ℕ
af_unspec = 0

abbrev pub af_inet : ℕ
af_inet = 2

abbrev pub af_inet6 : ℕ
af_inet6 = 10

abbrev pub sizeof_in4 : ℕ
sizeof_in4 = 16

abbrev pub sizeof_in6 : ℕ
sizeof_in6 = 28

-- What a `sockaddr` says: its family, its port and its host address, and for IPv6 what flow and what
-- scope it is of, which are 0 for IPv4. The port stands in the order of the network, which `htons`
-- and `ntohs` convert to and from; here it is the number itself.
pub record Raw : Type 0 where
  pub family : ℕ
  pub port : ℕ
  pub host : Bytes
  pub flowinfo : ℕ
  pub scope_id : ℕ

-- A `sockaddr` of which all else was set to 0.
abbrev pub plain : ℕ → ℕ → Bytes → Raw
plain family port host = record {
  family = family;
  port = port;
  host = host;
  flowinfo = 0;
  scope_id = 0;
}

abbrev pub no_raw : Raw
no_raw = plain af_unspec 0 []

pub record SockAddr : Type 0 where
  pub size : ℕ
  pub addr : Raw
  pub addr_text : Bytes

-- `Reset`.
unfoldable pub reset : SockAddr
reset = record { size = 0; addr = no_raw; addr_text = [] }

-- `operator bool`.
unfoldable pub is_set : SockAddr → Bool
is_set a = not (a.addr.family == af_unspec) && ltb 0 a.size

-- `operator =` copies each of the three.
unfoldable pub assign : SockAddr → SockAddr → SockAddr
assign a other = record { size = other.size; addr = other.addr; addr_text = other.addr_text }

-- A number of C's `int` as a `LNE_UINT16`.
unfoldable pub to_u16 : ℤ → ℕ
to_u16 (pos n) = n % 65536
to_u16 (negsuc n) = 65535 - n % 65536

-- `Set` from a port: any address of this machine. It leaves the text as it was.
unfoldable pub set_port : ℕ → ℕ → SockAddr → SockAddr × Status
set_port port address_family a =
    if not (address_family == af_inet6)
    then (record a { addr = plain af_inet port (0 ∷ 0 ∷ 0 ∷ 0 ∷ []); size = sizeof_in4 }, lnerr_ok)
    else (if not (address_family == af_inet)
        then (
          record a {
            addr =
                plain af_inet6 port
                  (0 ∷ 0 ∷ 0 ∷ 0 ∷ 0 ∷ 0 ∷ 0 ∷ 0 ∷ 0 ∷ 0 ∷ 0 ∷ 0 ∷ 0 ∷ 0 ∷ 0 ∷ 0 ∷ []);
            size = sizeof_in6;
          },
          lnerr_ok,
        )
        else (a, lnerr_parameter))

-- What the system converts: `inet_ntop` and `inet_pton` for a family, and `getaddrinfo` for the
-- family that the hints ask for. `none` is failure.
pub record Resolver : Type 0 where
  pub inet_ntop : ℕ → Bytes → Option Bytes
  pub inet_pton : ℕ → Bytes → Option Bytes
  pub getaddrinfo : ℕ → Bytes → Option Raw

module _ (r : Resolver) where
  -- `generate_addr_text`: a colon and the port behind the host's text.
  unfoldable pub generate_addr_text : SockAddr → SockAddr
  generate_addr_text a =
      if a.addr.family == af_inet || a.addr.family == af_inet6
      then (elim (r.inet_ntop a.addr.family a.addr.host) [
        | none ↦ a
        | some text ↦ record a { addr_text = text ++ (b':' ∷ decimal a.addr.port) }
      ])
      else a

  -- The private `Set`, from a `sockaddr` of a length.
  unfoldable pub set_raw : Option Raw → ℕ → SockAddr → SockAddr × Status
  set_raw none len a = (a, lnerr_parameter)
  set_raw (some raw) len a =
      let copied = generate_addr_text (record a { size = len; addr = raw }) in
      if len == 0
      then (a, lnerr_parameter)
      else (if raw.family == af_inet
          then (if ltb len sizeof_in4 then (a, lnerr_parameter) else (copied, lnerr_ok))
          else (if raw.family == af_inet6
              then (if ltb len sizeof_in6 then (a, lnerr_parameter) else (copied, lnerr_ok))
              else (a, lnerr_nosupport)))

  -- One family's half of `Set` from a port and a host: the numeric form first, then the name. The
  -- answer of the inner `Set` is dropped, as the code drops it.
  unfoldable pub try_family : ℕ → ℕ → ℕ → Bytes → SockAddr → Option SockAddr
  try_family family size port address a =
      let of_bytes = λ (host : Bytes). (set_raw (some (plain family port host)) size a).0 in
      let of_raw = λ (raw : Raw). (set_raw (some (record raw { port = port })) size a).0 in
      let by_name : Option SockAddr = elim (r.getaddrinfo family address) [
        | none ↦ none
        | some raw ↦ some (of_raw raw)
      ] in
      elim (r.inet_pton family address) [ none ↦ by_name | some host ↦ some (of_bytes host) ]

  -- `Set` from a port and a host.
  unfoldable pub set_host : ℕ → Option Bytes → ℕ → SockAddr → SockAddr × Status
  set_host port none address_family a = (a, lnerr_parameter)
  set_host port (some address) address_family a =
      let in6 =
        if not (address_family == af_inet)
        then try_family af_inet6 sizeof_in6 port address reset
        else none in
      let in4 =
        if not (address_family == af_inet6)
        then try_family af_inet sizeof_in4 port address reset
        else none in
      let tried : Option SockAddr = elim in4 [ none ↦ in6 | some b ↦ some b ] in
      if port == 0
        || not
            (address_family == af_unspec || address_family == af_inet || address_family == af_inet6)
      then (a, lnerr_parameter)
      else elim tried [ none ↦ (reset, lnerr_unknow) | some b ↦ (b, lnerr_ok) ]

  -- `Set` from `host:port`. The Boolean is whether `strdup` gets memory.
  unfoldable pub set_text : Bool → Option Bytes → ℕ → SockAddr → SockAddr × Status
  set_text memory none address_family a = (a, lnerr_parameter)
  set_text memory (some address) address_family a =
      let parsed : SockAddr × Status = elim (split_last b':' address) [
        | none ↦ (a, lnerr_parameter)
        | some (hostname, p) ↦ set_host (to_u16 (atoi p)) (some hostname) address_family a
      ] in
      if memory then parsed else (a, lnerr_nomemory)
