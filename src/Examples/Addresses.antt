-- ===== src/Examples/Addresses.antt =====
-- Addresses of lne/SockAddr.cpp and pools of lne/SockSpray.cpp at concrete inputs.
use lne.Prelude.{
  ◌≡◌, ◌↔◌, refl, Bool, true, false, ◌&&◌, none, some, List, [], ◌∷◌, ◌==◌, if◌then◌else◌, arith,
  inr,
}
use lne.Config.{lnerr_ok}
use lne.SockAddr.{
  plain, SockAddr, Raw, Resolver, Bytes, af_unspec, reset, is_set, generate_addr_text, set_text,
  set_host,
}
use lne.SockAddr.Port.{IsValid}
use lne.SockAddr.Make.{
  Op, makes_port, makes_host, assigns, sets_text, run, new_sock_addr, run-IsValid,
}
use lne.SockAddr.Host.{scoped, unscoped, set_text-generate_addr_text, Answers}

-- A system that knows one IPv4 host by its numbers and one by its name.
abbrev loopback : Bytes
loopback = 127 ∷ 0 ∷ 0 ∷ 1 ∷ []

abbrev loopback_text : Bytes
loopback_text = b'1' ∷ b'2' ∷ b'7' ∷ b'.' ∷ b'0' ∷ b'.' ∷ b'0' ∷ b'.' ∷ b'1' ∷ []

abbrev same : Bytes → Bytes → Bool
same [] [] = true
same (x ∷ xs) (y ∷ ys) = let rest = same xs ys in x == y && rest
same _ _ = false

abbrev system : Resolver
system = record {
  inet_ntop = λ family host. if same host loopback then some loopback_text else none;
  inet_pton = λ family text. if same text loopback_text then some loopback else none;
  getaddrinfo =
      λ family name. if family == 2 then some (plain family 0 (10 ∷ 0 ∷ 0 ∷ 7 ∷ [])) else none;
}

-- An address of IPv6 whose scope is lost on the way.
abbrev here6 : SockAddr
here6 = scoped 10 8080 loopback 0 3

set_text-generate_addr_text_example :
    let b = generate_addr_text system here6 in
    set_text system true (some b.addr_text) 10 reset ≡ (unscoped b, lnerr_ok)
set_text-generate_addr_text_example =
    set_text-generate_addr_text system loopback loopback_text 8080 10 0 3 reset (inr refl) refl refl
      (ground arith) (ground arith)

system-Answers : Answers system
system-Answers family name raw e = ground (arith, e)

abbrev name : Bytes
name = b'l' ∷ b'n' ∷ b'e' ∷ []

-- The host's name was resolved to an IPv4 address.
set_host_test :
    (set_host system 80 (some (b'l' ∷ b'n' ∷ b'e' ∷ [])) 0 reset).0.addr
    ≡ plain 2 80 (10 ∷ 0 ∷ 0 ∷ 7 ∷ [])
unfolding set_host lne.SockAddr.try_family lne.SockAddr.set_raw generate_addr_text reset
set_host_test = refl

-- An address is made for a port, another one from a host, and copied; a text that is none fails.
abbrev calls : List Op
calls =
    makes_port 0 8080 10
    ∷ makes_host 1 80 (some (b'l' ∷ b'n' ∷ b'e' ∷ [])) 0
    ∷ assigns 0 1
    ∷ sets_text 0 true (some (b'x' ∷ [])) 2
    ∷ []

run-IsValid_example :
    let a = run system calls (λ _. new_sock_addr) 0 in
    IsValid a × ((is_set a ≡ false) ↔ (a.addr.family ≡ af_unspec))
run-IsValid_example = run-IsValid system calls 0 system-Answers
