-- ===== src/SockAddr/Make.antt =====
-- lne/SockAddr.h and lne/SockAddr.cpp: the constructors, and histories of several addresses that are
-- made, set and copied.
use lne.Prelude.{
  ℕ, ◌==◌, ◌≡◌, refl, subst, sym, Bool, Bool-cases, inl, inr, Option, none, some, List, [], ◌∷◌,
  Option-cases, false, ◌↔◌, update, arith,
}
use lne.SockAddr.{
  SockAddr, Raw, Resolver, Bytes, af_unspec, sizeof_in4, sizeof_in6, reset, is_set, assign,
  set_port, set_raw, set_host, set_text, to_u16,
}
use lne.SockAddr.Text.{split_last, atoi}
use lne.SockAddr.Port.{IsValid, set_port_lem, set_raw_lem}
use lne.SockAddr.Host.{Answers, set_host_lem}

-- The constructors: each resets the address and then sets it, without a look at the answer.
unfoldable pub new_sock_addr : SockAddr
new_sock_addr = reset

unfoldable pub from_port : ℕ → ℕ → SockAddr
from_port port address_family = (set_port port address_family reset).0

unfoldable pub copy_of : SockAddr → SockAddr
copy_of other = assign reset other

module _ (r : Resolver) where
  unfoldable pub from_in4 : Raw → SockAddr
  from_in4 in4 = (set_raw r (some in4) sizeof_in4 reset).0

  unfoldable pub from_in6 : Raw → SockAddr
  from_in6 in6 = (set_raw r (some in6) sizeof_in6 reset).0

  unfoldable pub from_raw : Option Raw → ℕ → SockAddr
  from_raw addr len = (set_raw r addr len reset).0

  unfoldable pub from_text : (memory : Bool) → Option Bytes → ℕ → SockAddr
  from_text memory address address_family = (set_text r memory address address_family reset).0

  unfoldable pub from_host : ℕ → Option Bytes → ℕ → SockAddr
  from_host port address address_family = (set_host r port address address_family reset).0

-- A call on address `i`: a constructor, or `Set`, `Reset` or `=`.
pub data Op : Type 0 where
  makes resets : (i : ℕ) → Op
  makes_in4 makes_in6 : (i : ℕ) (raw : Raw) → Op
  makes_raw sets_raw : (i : ℕ) (addr : Option Raw) (len : ℕ) → Op
  makes_port sets_port : (i port address_family : ℕ) → Op
  makes_text sets_text : (i : ℕ) (memory : Bool) (address : Option Bytes) (address_family : ℕ) → Op
  makes_host sets_host : (i port : ℕ) (address : Option Bytes) (address_family : ℕ) → Op
  makes_copy assigns : (i j : ℕ) → Op

module _ (r : Resolver) where
  unfoldable pub apply : Op → (ℕ → SockAddr) → ℕ → SockAddr
  apply (makes i) s = update s i new_sock_addr
  apply (resets i) s = update s i reset
  apply (makes_in4 i raw) s = update s i (from_in4 r raw)
  apply (makes_in6 i raw) s = update s i (from_in6 r raw)
  apply (makes_raw i addr len) s = update s i (from_raw r addr len)
  apply (sets_raw i addr len) s = update s i (set_raw r addr len (s i)).0
  apply (makes_port i port f) s = update s i (from_port port f)
  apply (sets_port i port f) s = update s i (set_port port f (s i)).0
  apply (makes_text i memory address f) s = update s i (from_text r memory address f)
  apply (sets_text i memory address f) s = update s i (set_text r memory address f (s i)).0
  apply (makes_host i port address f) s = update s i (from_host r port address f)
  apply (sets_host i port address f) s = update s i (set_host r port address f (s i)).0
  apply (makes_copy i j) s = update s i (copy_of (s j))
  apply (assigns i j) s = update s i (assign (s i) (s j))

  unfoldable pub run : List Op → (ℕ → SockAddr) → ℕ → SockAddr
  run [] s = s
  run (o ∷ ops) s = run ops (apply o s)

  reset-IsValid : IsValid reset
  unfolding reset
  reset-IsValid = inl (refl, refl)

  set_host-IsValid :
      (port : ℕ) (address : Option Bytes) (f : ℕ) (a : SockAddr)
      → Answers r
      → IsValid a
      → IsValid (set_host r port address f a).0
  set_host-IsValid port address f a answers v = elim (set_host_lem r port address f a answers) [
    | inl (_, _, same) ↦ subst IsValid (sym same) v
    | inr (inl (_, _, same, _, _)) ↦ subst IsValid (sym same) reset-IsValid
    | inr (inr out) ↦ out.3
  ]

  set_text-IsValid :
      (memory : Bool) (address : Option Bytes) (f : ℕ) (a : SockAddr)
      → Answers r
      → IsValid a
      → IsValid (set_text r memory address f a).0
  unfolding set_text
  set_text-IsValid memory none f a answers v = v
  set_text-IsValid memory (some address) f a answers v = elim (Bool-cases memory) [
    | inr m ↦ simp m v
    | inl m ↦ (elim (Option-cases (split_last b':' address)) [
      | inl e ↦ simp (m, e) v
      | inr ((name, p), e) ↦
          simp (m, e) (set_host-IsValid (to_u16 (atoi p)) (some name) f a answers v)
    ])
  ]

  update-IsValid :
      (s : ℕ → SockAddr) (i : ℕ) (a : SockAddr)
      → IsValid a
      → ((k : ℕ) → IsValid (s k))
      → (k : ℕ) → IsValid (update s i a k)
  update-IsValid s i a new old k = elim (Bool-cases (k == i)) [
    | inl e ↦ simp e new
    | inr e ↦ simp e (old k)
  ]

  apply-IsValid :
      (o : Op) (s : ℕ → SockAddr)
      → Answers r
      → ((k : ℕ) → IsValid (s k))
      → (k : ℕ) → IsValid (apply o s k)
  unfolding apply new_sock_addr from_port copy_of from_in4 from_in6 from_raw from_text from_host
      assign
  apply-IsValid (makes i) s q v = update-IsValid s i reset reset-IsValid v
  apply-IsValid (resets i) s q v = update-IsValid s i reset reset-IsValid v
  apply-IsValid (makes_in4 i raw) s q v =
      update-IsValid s i _ (set_raw_lem r (some raw) sizeof_in4 reset reset-IsValid).0 v
  apply-IsValid (makes_in6 i raw) s q v =
      update-IsValid s i _ (set_raw_lem r (some raw) sizeof_in6 reset reset-IsValid).0 v
  apply-IsValid (makes_raw i addr len) s q v =
      update-IsValid s i _ (set_raw_lem r addr len reset reset-IsValid).0 v
  apply-IsValid (sets_raw i addr len) s q v =
      update-IsValid s i _ (set_raw_lem r addr len (s i) (v i)).0 v
  apply-IsValid (makes_port i port f) s q v = update-IsValid s i _ (set_port_lem port f reset).0 v
  apply-IsValid (sets_port i port f) s q v = update-IsValid s i _ (set_port_lem port f (s i)).0 v
  apply-IsValid (makes_text i memory address f) s q v =
      update-IsValid s i _ (set_text-IsValid memory address f reset q reset-IsValid) v
  apply-IsValid (sets_text i memory address f) s q v =
      update-IsValid s i _ (set_text-IsValid memory address f (s i) q (v i)) v
  apply-IsValid (makes_host i port address f) s q v =
      update-IsValid s i _ (set_host-IsValid port address f reset q reset-IsValid) v
  apply-IsValid (sets_host i port address f) s q v =
      update-IsValid s i _ (set_host-IsValid port address f (s i) q (v i)) v
  apply-IsValid (makes_copy i j) s q v = update-IsValid s i (copy_of (s j)) (v j) v
  apply-IsValid (assigns i j) s q v = update-IsValid s i (assign (s i) (s j)) (v j) v

  run_from-IsValid :
      (ops : List Op) (s : ℕ → SockAddr)
      → Answers r
      → ((k : ℕ) → IsValid (s k))
      → (k : ℕ) → IsValid (run ops s k)
  unfolding run
  run_from-IsValid [] s q v k = v k
  run_from-IsValid (o ∷ ops) s q v k = run_from-IsValid ops (apply o s) q (apply-IsValid o s q v) k

  -- However addresses are made, set, reset and copied, also where that fails, each of them is unset
  -- and empty or of one of the two families and long enough for it, and the conversion to `bool`
  -- tells the two apart, as long as `getaddrinfo` answers an address of the family it was asked for.
  pub run-IsValid :
      (ops : List Op) (k : ℕ)
      → Answers r
      → let a = run ops (λ _. new_sock_addr) k in
        IsValid a × ((is_set a ≡ false) ↔ (a.addr.family ≡ af_unspec))
  unfolding is_set new_sock_addr
  run-IsValid ops k q =
      let v = run_from-IsValid ops (λ _. new_sock_addr) q (λ _. reset-IsValid) k in
      (v, ((λ e. ground (arith, v, e)), (λ e. ground (arith, v, e))))
