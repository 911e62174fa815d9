-- ===== src/SockStream.antt =====
-- lne/SockStream.h and lne/SockStream.cpp: the addresses of a connected socket, and lne/SockAddr.h
-- for the raw address and size that the system writes into.
use lne.Prelude.{ℕ, ◌≡◌, ◌⊎◌, refl, inl, inr, Option, none, some}
use lne.Config.{Status, lnerr_ok, lnerr_unknow}
use lne.SockAddr.{SockAddr, Raw, Resolver, sizeof_in6, generate_addr_text}
use lne.SockAddr.Port.{generate_addr_text_frame}

-- `ready_raw_size` sets the size to the room of the union before the system reads it.
unfoldable pub ready_raw : SockAddr → SockAddr
ready_raw a = record a { size = sizeof_in6 }

-- `GetSockAddr` and `GetPeerAddr`, which differ in the function of the system that they call. Its
-- answer is the address that it wrote and the size that it set, or `none`.
unfoldable pub get_addr : Resolver → Option (Raw × ℕ) → SockAddr → SockAddr × Status
unfolding ready_raw
get_addr r none a = (ready_raw a, lnerr_unknow)
get_addr r (some (raw, len)) a =
    (generate_addr_text r (record (ready_raw a) { size = len; addr = raw }), lnerr_ok)

-- `GetSockAddr` answers `LNERR_OK` with the address and the size that the system gave; when the
-- system fails, the address keeps its bytes and its text, and its size is that of the largest one.
pub get_addr_lem :
    (r : Resolver) (answer : Option (Raw × ℕ)) (a : SockAddr)
    → let out = get_addr r answer a in
      ((out.1 ≡ lnerr_ok) × (answer ≡ some (out.0.addr, out.0.size)))
      ⊎ ((out.1 ≡ lnerr_unknow)
          × (out.0.addr ≡ a.addr)
          × (out.0.addr_text ≡ a.addr_text)
          × (out.0.size ≡ sizeof_in6))
unfolding get_addr ready_raw
get_addr_lem r none a = inr (refl, refl, refl, refl)
get_addr_lem r (some (raw, len)) a =
    let k = generate_addr_text_frame r (record a { size = len; addr = raw }) in
    inl (refl, simp (k.0, k.1) refl)
