-- ===== src/SockAddr/Host.antt =====
-- lne/SockAddr.cpp: `Set` from a host, and the way from a text and back.
use lne.Prelude.{
  ℕ, ◌%◌, ◌||◌, ◌<◌, ◌≡◌, ◌≢◌, ◌⊎◌, refl, sym, subst, ◌∙◌, true, false, Option, none, some, [], ◌∷◌,
  ◌++◌, ◌==◌, if◌then◌else◌, arith, inl, inr, ap, Option-cases,
}
use lne.Config.{lnerr_ok, lnerr_parameter, lnerr_unknow}
use lne.SockAddr.{
  SockAddr, Raw, plain, Resolver, Bytes, af_unspec, af_inet, af_inet6, sizeof_in4, sizeof_in6,
  reset, to_u16, generate_addr_text, set_raw, try_family, set_host, set_text,
}
use lne.SockAddr.Text.{decimal, decimal-AllDigits, atoi-decimal, split_last-append}
use lne.SockAddr.Port.{IsValid, generate_addr_text_frame}

abbrev pub size_of : ℕ → ℕ
size_of family = if family == af_inet then sizeof_in4 else sizeof_in6

-- The address of a numeric host and a port, before its text is made.
abbrev pub numeric : ℕ → ℕ → Bytes → SockAddr
numeric family port host = record {
  size = size_of family;
  addr = plain family port host;
  addr_text = [];
}

module _ (r : Resolver) (host text : Bytes) (port : ℕ) where
  abbrev Sets : ℕ → Type 0
  Sets family =
      r.inet_pton family text ≡ some host
      → (a : SockAddr)
      → set_host r port (some text) family a
        ≡ (generate_addr_text r (numeric family port host), lnerr_ok)

  try_in4 :
      r.inet_pton af_inet text ≡ some host
      → try_family r af_inet sizeof_in4 port text reset
        ≡ some (generate_addr_text r (numeric af_inet port host))
  unfolding try_family set_raw reset
  try_in4 parsed = ground (arith, parsed)

  try_in6 :
      r.inet_pton af_inet6 text ≡ some host
      → try_family r af_inet6 sizeof_in6 port text reset
        ≡ some (generate_addr_text r (numeric af_inet6 port host))
  unfolding try_family set_raw reset
  try_in6 parsed = ground (arith, parsed)

  set_in4 : (port == 0) ≡ false → Sets af_inet
  unfolding set_host
  set_in4 some_port parsed a = rw (some_port, try_in4 parsed) refl

  set_in6 : (port == 0) ≡ false → Sets af_inet6
  unfolding set_host
  set_in6 some_port parsed a = rw (some_port, try_in6 parsed) refl

  set_either :
      (family : ℕ) → (family ≡ af_inet) ⊎ (family ≡ af_inet6) → (port == 0) ≡ false → Sets family
  set_either family (inl e) some_port = subst Sets (sym e) (set_in4 some_port)
  set_either family (inr e) some_port = subst Sets (sym e) (set_in6 some_port)

text_of-numeric :
    (r : Resolver) (host text : Bytes) (port family : ℕ)
    → (family ≡ af_inet) ⊎ (family ≡ af_inet6)
    → r.inet_ntop family host ≡ some text
    → (generate_addr_text r (numeric family port host)).addr_text ≡ text ++ (b':' ∷ decimal port)
unfolding generate_addr_text
text_of-numeric r host text port family one_of printed =
    let known : (family == af_inet || family == af_inet6) ≡ true = ground arith in
    simp (known, printed) refl

set_text-port :
    (r : Resolver) (text : Bytes) (port family : ℕ) (a : SockAddr)
    → port < 65536
    → set_text r true (some (text ++ (b':' ∷ decimal port))) family a
      ≡ set_host r port (some text) family a
unfolding set_text to_u16
set_text-port r text port family a small =
    let e : port % 65536 ≡ port = omega arith in
    rw (split_last-append text (decimal port) (decimal-AllDigits port), atoi-decimal port, e) refl

-- An address with any flow and scope, before its text is made.
abbrev pub scoped : ℕ → ℕ → Bytes → ℕ → ℕ → SockAddr
scoped family port host flowinfo scope_id = record {
  size = size_of family;
  addr = record {
    family = family;
    port = port;
    host = host;
    flowinfo = flowinfo;
    scope_id = scope_id;
  };
  addr_text = [];
}

-- The same address, of no flow and no scope.
abbrev pub unscoped : SockAddr → SockAddr
unscoped a = record a { addr = record (a.addr) { flowinfo = 0; scope_id = 0 } }

unscoped-generate_addr_text :
    (r : Resolver) (host : Bytes) (port family flowinfo scope_id : ℕ)
    → let b = generate_addr_text r (scoped family port host flowinfo scope_id) in
      let c = generate_addr_text r (numeric family port host) in
      (c ≡ unscoped b) × (c.addr_text ≡ b.addr_text)
unfolding generate_addr_text
unscoped-generate_addr_text r host port family flowinfo scope_id = ground arith

-- The text of an address reads back as that address, but for the flow and the scope of an IPv6
-- address, which come back as 0: for either family and every port but 0, when `inet_pton` reads what
-- `inet_ntop` prints, `Set` from the text that `generate_addr_text` made answers `LNERR_OK` and gives
-- the same family, port and host with the same size and text, whatever was there before.
pub set_text-generate_addr_text :
    (r : Resolver) (host text : Bytes) (port family flowinfo scope_id : ℕ) (a : SockAddr)
    → (family ≡ af_inet) ⊎ (family ≡ af_inet6)
    → r.inet_ntop family host ≡ some text
    → r.inet_pton family text ≡ some host
    → 0 < port
    → port < 65536
    → let b = generate_addr_text r (scoped family port host flowinfo scope_id) in
      set_text r true (some b.addr_text) family a ≡ (unscoped b, lnerr_ok)
set_text-generate_addr_text r host text port family flowinfo scope_id a one_of printed parsed
      pos_port small =
    let (same, same_text) = unscoped-generate_addr_text r host port family flowinfo scope_id in
    ap (λ t. set_text r true (some t) family a)
      (sym same_text ∙ text_of-numeric r host text port family one_of printed)
    ∙ set_text-port r text port family a small
    ∙ set_either r host text port family one_of (ground arith) parsed a
    ∙ ap (λ c. (c, lnerr_ok)) same

-- What `getaddrinfo` answers is of the family it was asked for.
abbrev pub Answers : Resolver → Type 0
Answers r =
    (family : ℕ) (name : Bytes) (raw : Raw)
    → r.getaddrinfo family name ≡ some raw
    → raw.family ≡ family

abbrev Tried : ℕ → ℕ → Option SockAddr → Type 0
Tried family port none = Unit
Tried family port (some b) =
    (b.addr.port ≡ port) × (b.addr.family ≡ family) × (b.size ≡ size_of family)

set_raw-Tried :
    (r : Resolver) (raw : Raw) (family : ℕ)
    → (family ≡ af_inet) ⊎ (family ≡ af_inet6)
    → raw.family ≡ family
    → Tried family raw.port (some (set_raw r (some raw) (size_of family) reset).0)
unfolding set_raw
set_raw-Tried r raw family one_of e =
    ground (arith, generate_addr_text_frame r (record reset { size = size_of family; addr = raw }))

module _ (r : Resolver) (family port : ℕ) (text : Bytes) where
  abbrev made : Raw → SockAddr
  made raw = (set_raw r (some raw) (size_of family) reset).0

  abbrev tried : Option SockAddr
  tried = try_family r family (size_of family) port text reset

  try_none : r.inet_pton family text ≡ none → r.getaddrinfo family text ≡ none → tried ≡ none
  unfolding try_family
  try_none e e2 = ground (arith, e, e2)

  try_name :
      (raw : Raw)
      → r.inet_pton family text ≡ none
      → r.getaddrinfo family text ≡ some raw
      → tried ≡ some (made (record raw { port = port }))
  unfolding try_family
  try_name raw e e2 = ground (arith, e, e2)

  try_numeric :
      (host : Bytes)
      → r.inet_pton family text ≡ some host
      → tried ≡ some (made (plain family port host))
  unfolding try_family
  try_numeric host e = ground (arith, e)

  try_family-Tried : (family ≡ af_inet) ⊎ (family ≡ af_inet6) → Answers r → Tried family port tried
  try_family-Tried one_of answers = elim (Option-cases (r.inet_pton family text)) [
    | inl e ↦ (elim (Option-cases (r.getaddrinfo family text)) [
      | inl e2 ↦ subst (Tried family port) (sym (try_none e e2)) tt
      | inr (raw, e2) ↦
          subst (Tried family port) (sym (try_name raw e e2)) (
            set_raw-Tried r (record raw { port = port }) family one_of (answers family text raw e2))
    ])
    | inr (host, e) ↦
        subst (Tried family port) (sym (try_numeric host e))
          (set_raw-Tried r (plain family port host) family one_of refl)
  ]

-- The port, the host and the family that `Set` refuses.
abbrev pub Refused : ℕ → Option Bytes → ℕ → Type 0
Refused port address family =
    (port ≡ 0)
    ⊎ (address ≡ none)
    ⊎ ((family ≢ af_unspec) × (family ≢ af_inet) × (family ≢ af_inet6))

-- A name that the system does not know for a family, and is no numeric address of it either.
abbrev pub Unknown : Resolver → ℕ → Option Bytes → Type 0
Unknown r family none = ⊥
Unknown r family (some text) = (r.inet_pton family text ≡ none) × (r.getaddrinfo family text ≡ none)

try_family-none :
    (r : Resolver) (family port : ℕ) (text : Bytes)
    → try_family r family (size_of family) port text reset ≡ none
    → Unknown r family (some text)
unfolding try_family
try_family-none r family port text e = ground (arith, e)

pub set_host_lem :
    (r : Resolver) (port : ℕ) (address : Option Bytes) (address_family : ℕ) (a : SockAddr)
    → Answers r
    → let out = set_host r port address address_family a in
      (Refused port address address_family × (out.1 ≡ lnerr_parameter) × (out.0 ≡ a))
      ⊎ (¬ Refused port address address_family
          × (out.1 ≡ lnerr_unknow)
          × (out.0 ≡ reset)
          × ((address_family ≢ af_inet6) → Unknown r af_inet address)
          × ((address_family ≢ af_inet) → Unknown r af_inet6 address))
      ⊎ (¬ Refused port address address_family
          × (out.1 ≡ lnerr_ok)
          × (out.0.addr.port ≡ port)
          × IsValid out.0
          × (((out.0.addr.family ≡ af_inet) × (address_family ≢ af_inet6))
              ⊎ ((out.0.addr.family ≡ af_inet6)
                  × ((address_family ≡ af_inet6)
                      ⊎ ((address_family ≡ af_unspec) × Unknown r af_inet address)))))
unfolding set_host
set_host_lem r port none address_family a answers = inl (inr (inl refl), refl, refl)
set_host_lem r port (some text) address_family a answers =
    let in4 = try_family-Tried r af_inet port text (inl refl) answers in
    let in6 = try_family-Tried r af_inet6 port text (inr refl) answers in
    let none4 = try_family-none r af_inet port text in
    let none6 = try_family-none r af_inet6 port text in ground (arith, in4, in6, none4, none6)
