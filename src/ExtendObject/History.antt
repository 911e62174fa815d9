-- ===== src/ExtendObject/History.antt =====
-- Histories of `AddRef` and `Release` of lne/ExtendObject.h against the number of holders.
use lne.Prelude.{
  ℕ, ◌+◌, ◌-◌, ◌<◌, ◌≡◌, refl, true, false, Option, none, some, List, [], ◌∷◌, arith, ltb,
  if◌then◌else◌, ◌==◌, ◌∙◌,
}
use lne.ExtendObject.{RefObject, new_ref_object, u32_mod, add_ref, release}

pub data RefOp : Type 0 where
  adds releases : RefOp

-- What the holders may do: only a holder adds a reference or releases one, and there are never
-- more of them than the counter can hold. `none` is a breach of that.
unfoldable pub holders : ℕ → List RefOp → Option ℕ
holders k [] = some k
holders k (adds ∷ ops) =
    let rest = holders (k + 1) ops in
    if ltb 0 k then (if ltb (k + 1) u32_mod then rest else none) else none
holders k (releases ∷ ops) = let rest = holders (k - 1) ops in if ltb 0 k then rest else none

-- The object after a history, and how often `ObjectDestroy` was called.
unfoldable pub run : List RefOp → RefObject → RefObject × ℕ
run [] r = (r, 0)
run (adds ∷ ops) r = run ops (add_ref r)
run (releases ∷ ops) r =
    let out = release r in let rest = run ops out.0 in (rest.0, (if out.1 then 1 else 0) + rest.1)

add_ref_lem : (r : RefObject) → r.reference + 1 < u32_mod → (add_ref r).reference ≡ r.reference + 1
unfolding add_ref
add_ref_lem r h = omega arith

release_lem :
    (r : RefObject)
    → 0 < r.reference
    → ((release r).0.reference ≡ r.reference - 1)
      × ((release r).1 ≡ (if r.reference == 1 then true else false))
unfolding release
release_lem r h = ground arith

holders-adds :
    (k n : ℕ) (ops : List RefOp)
    → holders k (adds ∷ ops) ≡ some n
    → (0 < k) × (k + 1 < u32_mod) × (holders (k + 1) ops ≡ some n)
unfolding holders
holders-adds k n ops h = ground arith

holders-releases :
    (k n : ℕ) (ops : List RefOp)
    → holders k (releases ∷ ops) ≡ some n
    → (0 < k) × (holders (k - 1) ops ≡ some n)
unfolding holders
holders-releases k n ops h = ground arith

holders-zero : (n : ℕ) (ops : List RefOp) → holders 0 ops ≡ some n → n ≡ 0
unfolding holders
holders-zero n [] h = ground arith
holders-zero n (adds ∷ ops) h = cc
holders-zero n (releases ∷ ops) h = cc

abbrev destroy_count : ℕ → ℕ → ℕ
destroy_count k n = if k == 0 then 0 else (if n == 0 then 1 else 0)

run-holders :
    (ops : List RefOp) (k n : ℕ) (r : RefObject)
    → r.reference ≡ k
    → k < u32_mod
    → holders k ops ≡ some n
    → ((run ops r).0.reference ≡ n) × ((run ops r).1 ≡ destroy_count k n)
unfolding run
run-holders [] k n r e small h = unfold holders in ground arith
run-holders (adds ∷ ops) k n r e small h =
    let g = holders-adds k n ops h in
    let ih = run-holders ops (k + 1) n (add_ref r) (omega (arith, add_ref_lem r)) g.1 g.2 in
    (ih.0, ih.1 ∙ ground arith)
run-holders (releases ∷ ops) k n r e small h =
    let g = holders-releases k n ops h in
    let d = release_lem r (omega arith) in
    let ih = run-holders ops (k - 1) n (release r).0 (omega arith) (omega arith) g.1 in
    (ih.0, ground (arith, ih.1, d.1, holders-zero n ops))

-- From a new object and any history in which only holders call, the counter is the number of
-- holders, and `ObjectDestroy` was called once if none is left and never otherwise.
pub run-new_ref_object :
    (ops : List RefOp) (n : ℕ)
    → holders 1 ops ≡ some n
    → ((run ops new_ref_object).0.reference ≡ n)
      × ((run ops new_ref_object).1 ≡ (if n == 0 then 1 else 0))
unfolding new_ref_object
run-new_ref_object ops n h = run-holders ops 1 n new_ref_object refl (omega arith) h
