-- ===== src/ExtendObject.antt =====
-- lne/ExtendObject.h and lne/ExtendObject.cpp: objects that count their references, under a lock.
-- Every method holds the lock for its whole body, so a method is one step, and what threads do
-- together is a sequence of steps. The build is the one with NDEBUG: `LNE_ASSERT_IF` is an `if`.
pub mod History
pub mod Atomic
use lne.Prelude.{ℕ, ◌+◌, ◌-◌, ◌%◌, ◌^◌, Bool, true, false, Option, none, some, ltb, if◌then◌else◌}

-- `reference_`, a `LNE_UINT` of 32 bits.
pub record RefObject : Type 0 where
  pub reference : ℕ

abbrev pub u32_mod : ℕ
u32_mod = 2 ^ 32

unfoldable pub new_ref_object : RefObject
new_ref_object = record { reference = 1 }

unfoldable pub add_ref : RefObject → RefObject
add_ref r = record { reference = (r.reference + 1) % u32_mod }

unfoldable pub set_ref : ℕ → RefObject → RefObject
set_ref ref r = record { reference = ref }

-- The Boolean says that `ObjectDestroy` is called, after the lock is given back.
unfoldable pub release : RefObject → RefObject × Bool
release r =
    if ltb 0 r.reference
    then (record { reference = r.reference - 1 }, ltb (r.reference - 1) 1)
    else (r, false)

-- `AutoRelease` holds a pointer, and its destructor releases the object if there is one.
pub record AutoRelease {ℓ} (T : Type ℓ) : Type ℓ where
  pub t : Option T

module _ {ℓ} {T : Type ℓ} where
  pub is_held : AutoRelease T → Bool
  is_held a = elim a.t [ none ↦ false | some _ ↦ true ]

  -- The object's own `Release` is an argument: it is given the object and the state that it changes.
  unfoldable pub auto_release {κ} : {S : Type κ} → (T → S → S) → AutoRelease T → S → S
  auto_release release_object a s = elim a.t [ none ↦ s | some t ↦ release_object t s ]
