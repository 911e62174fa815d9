-- ===== src/SockAddr/Port.antt =====
-- lne/SockAddr.cpp: what every address holds to, and `Set` from a port or from a `sockaddr`.
use lne.Prelude.{
  ℕ, ◌+◌, ◌≤◌, ◌<◌, ◌≡◌, ◌≢◌, ◌⊎◌, refl, ◌||◌, true, Option, none, some, ◌∷◌, ◌++◌, ◌==◌,
  if◌then◌else◌, arith, inr, length, length-append,
}
use lne.Config.{lnerr_ok}
use lne.SockAddr.{
  SockAddr, Raw, Resolver, Bytes, af_unspec, af_inet, af_inet6, sizeof_in4, sizeof_in6, is_set,
  set_port, generate_addr_text, set_raw,
}
use lne.SockAddr.Text.{decimal, length-decimal}

-- An address is unset and empty, or of one of the two families and long enough for it.
abbrev pub IsValid : SockAddr → Type 0
IsValid a =
    ((a.addr.family ≡ af_unspec) × (a.size ≡ 0))
    ⊎ ((a.addr.family ≡ af_inet) × (sizeof_in4 ≤ a.size))
    ⊎ ((a.addr.family ≡ af_inet6) × (sizeof_in6 ≤ a.size))

-- `Set` from a port never fails. Every family but IPv6 gives IPv4, also one that is neither; the
-- text stays the one of the address that was there before.
pub set_port_lem :
    (port address_family : ℕ) (a : SockAddr)
    → let out = set_port port address_family a in
      IsValid out.0
      × (out.1 ≡ lnerr_ok)
      × (is_set out.0 ≡ true)
      × (out.0.addr.port ≡ port)
      × (out.0.addr.family ≡ (if address_family == af_inet6 then af_inet6 else af_inet))
      × (out.0.addr_text ≡ a.addr_text)
unfolding set_port is_set
set_port_lem port address_family a = ground arith

module _ (r : Resolver) where
  pub generate_addr_text_frame :
      (a : SockAddr)
      → ((generate_addr_text r a).size ≡ a.size) × ((generate_addr_text r a).addr ≡ a.addr)
  unfolding generate_addr_text
  generate_addr_text_frame a = ground arith

  -- The text is the host's with a colon and the port, and with its NUL it fits into `addr_text_`, as
  -- long as the system's text of a host has at most 40 bytes and the port 16 bits.
  pub generate_addr_text-fits :
      (a : SockAddr) (text : Bytes)
      → (a.addr.family ≡ af_inet) ⊎ (a.addr.family ≡ af_inet6)
      → r.inet_ntop a.addr.family a.addr.host ≡ some text
      → length text ≤ 40
      → a.addr.port < 65536
      → ((generate_addr_text r a).addr_text ≡ text ++ (b':' ∷ decimal a.addr.port))
        × (length (generate_addr_text r a).addr_text + 1 ≤ 46 + 1)
  unfolding generate_addr_text
  generate_addr_text-fits a text family e short small =
      let known : (a.addr.family == af_inet || a.addr.family == af_inet6) ≡ true = ground arith in
      simp (known, e)
        (
          refl,
          omega (
            arith,
            length-append text (b':' ∷ decimal a.addr.port),
            length-decimal a.addr.port small,
          ),
        )

  -- `Set` from a `sockaddr`, for every family, length and null pointer: it takes an IPv4 or IPv6
  -- address that is long enough, and then it copies as many bytes as the caller says, without a
  -- bound; else it says so and changes nothing.
  pub set_raw_lem :
      (raw : Option Raw) (len : ℕ) (a : SockAddr)
      → IsValid a
      → let out = set_raw r raw len a in
        IsValid out.0
        × (((out.1 ≡ lnerr_ok) × (out.0.size ≡ len) × (some out.0.addr ≡ raw))
            ⊎ ((out.1 ≢ lnerr_ok) × (out.0 ≡ a)))
  unfolding set_raw
  set_raw_lem none len a v = (v, inr (ground arith, refl))
  set_raw_lem (some raw) len a v =
      ground (arith, generate_addr_text_frame (record a { size = len; addr = raw }))
