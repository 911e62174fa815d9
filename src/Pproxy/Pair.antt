-- ===== src/Pproxy/Pair.antt =====
-- apps/pproxy: the references of a pair of connections, and what each end of a connection does to
-- them.
use lne.Prelude.{
  ℕ, ◌+◌, ◌==◌, ◌≡◌, ◌≢◌, ◌⊎◌, refl, sym, subst, ap, ◌∙◌, Bool, true, false, inl, inr,
  if◌then◌else◌, arith, update, ==_of_ne,
}
use lne.Ring.{Ptr, null}
use lne.ExtendObject.{release}
use lne.Pproxy.{Objects, set_context, drop_ref, handle_shutdown, handle_terminate}

-- `told p` is whether the handler was called for the end of the connection at `p`, `held p` whether
-- that has not yet released itself, which it does after the handler.
pub record System : Type 0 where
  pub objects : Objects
  pub told : Ptr → Bool
  pub held : Ptr → Bool

pub data Step (a b : Ptr) (s s' : System) : Type 0 where
  shuts_down :
      (p : Ptr)
      → (p ≡ a) ⊎ (p ≡ b)
      → s.held p ≡ true
      → s' ≡ record s { objects = (handle_shutdown p s.objects).0; told = update s.told p true }
      → Step a b s s'
  terminates :
      (p : Ptr)
      → (p ≡ a) ⊎ (p ≡ b)
      → s.held p ≡ true
      → s' ≡ record s { objects = (handle_terminate p s.objects).0; told = update s.told p true }
      → Step a b s s'
  leaves :
      (p : Ptr)
      → (p ≡ a) ⊎ (p ≡ b)
      → s.held p ≡ true
      → s.told p ≡ true
      → s' ≡ record s { objects = (drop_ref p s.objects).0; held = update s.held p false }
      → Step a b s s'

pub data Reach (a b : Ptr) (s : System) : System → Type 0 where
  here : Reach a b s s
  later : {t u : System} → Reach a b s t → Step a b t u → Reach a b s u

abbrev pub number : Bool → ℕ
number b = if b then 1 else 0

-- The references of one of the pair: its own, and that of the other's context.
pub record Half (p other : Ptr) (s : System) : Type 0 where
  pub count :
      (s.objects.ref p).reference ≡ number (s.held p) + number (s.objects.context other == p)
  pub either :
      ((s.objects.context p ≡ null) × (p ≢ null))
      ⊎ ((s.objects.context p ≡ other) × (s.told p ≡ false))
  pub gone : s.held p ≡ false → s.told p ≡ true

handle_terminate-objects :
    (p : Ptr) (o : Objects) → (handle_terminate p o).0 ≡ (handle_shutdown p o).0
unfolding handle_terminate handle_shutdown
handle_terminate-objects p o = ground arith

module _ (a b : Ptr) (s : System) (a_null : a ≢ null) (b_null : b ≢ null) (apart : a ≢ b) where
  -- `a` gives up its context, which is `b`.
  shutdown_first :
      s.objects.context a ≡ b
      → (handle_shutdown a s.objects).0 ≡ record {
        ref = update s.objects.ref b (release (s.objects.ref b)).0;
        context = update s.objects.context a null;
      }
  unfolding handle_shutdown set_context drop_ref
  shutdown_first e = simp (e, ==_of_ne b null b_null) refl

  shutdown_null : s.objects.context a ≡ null → (handle_shutdown a s.objects).0 ≡ s.objects
  unfolding handle_shutdown
  shutdown_null e = simp e refl

  abbrev after : Objects → System
  after o = record s { objects = o; told = update s.told a true }

  abbrev Both : System → Type 0
  Both t = Half a b t × Half b a t

  shutdown-Both : Both s → Both (after (handle_shutdown a s.objects).0)
  unfolding release
  shutdown-Both (v, w) = elim (v.either) [
    | inl (e, _) ↦
        subst (λ o. Both (after o)) (sym (shutdown_null e))
          (
            record { count = v.count; either = inl (e, a_null); gone = λ h. ground arith },
            record {
              count = w.count;
              either = ground (arith, w.either);
              gone = ground (arith, w.gone);
            },
          )
    | inr (e, _) ↦
        subst (λ o. Both (after o)) (sym (shutdown_first e))
          (
            record {
              count = ground (arith, v.count);
              either = ground arith;
              gone = λ h. ground arith;
            },
            record {
              count = ground (arith, w.count, e);
              either = ground (arith, w.either);
              gone = ground (arith, w.gone);
            },
          )
  ]

  leave-Both :
      s.held a ≡ true
      → s.told a ≡ true
      → Both s
      → Both (record s { objects = (drop_ref a s.objects).0; held = update s.held a false })
  unfolding release drop_ref
  leave-Both held told (v, w) = (
    record {
      count = ground (arith, v.count, held);
      either = v.either;
      gone = λ h. ground (arith, told);
    },
    record { count = ground (arith, w.count); either = w.either; gone = ground (arith, w.gone) },
  )

module _ {a b : Ptr} (a_null : a ≢ null) (b_null : b ≢ null) (apart : a ≢ b) where
  told_to : Ptr → System → System
  told_to p s = record s { objects = (handle_shutdown p s.objects).0; told = update s.told p true }

  left_by : Ptr → System → System
  left_by p s = record s { objects = (drop_ref p s.objects).0; held = update s.held p false }

  told_to-Both :
      (p : Ptr) (s : System)
      → (p ≡ a) ⊎ (p ≡ b)
      → Half a b s × Half b a s
      → Half a b (told_to p s) × Half b a (told_to p s)
  unfolding told_to
  told_to-Both p s (inl e) v =
      subst (λ q. Half a b (told_to q s) × Half b a (told_to q s)) (sym e)
        (shutdown-Both a b s a_null b_null apart v)
  told_to-Both p s (inr e) v =
      let w = shutdown-Both b a s b_null a_null (λ q. apart (sym q)) (v.1, v.0) in
      subst (λ q. Half a b (told_to q s) × Half b a (told_to q s)) (sym e) (w.1, w.0)

  left_by-Both :
      (p : Ptr) (s : System)
      → (p ≡ a) ⊎ (p ≡ b)
      → s.held p ≡ true
      → s.told p ≡ true
      → Half a b s × Half b a s
      → Half a b (left_by p s) × Half b a (left_by p s)
  unfolding left_by
  left_by-Both p s (inl e) held told v =
      subst (λ q. Half a b (left_by q s) × Half b a (left_by q s)) (sym e)
        (leave-Both a b s a_null b_null apart (subst (λ q. s.held q ≡ true) e held)
          (subst (λ q. s.told q ≡ true) e told) v)
  left_by-Both p s (inr e) held told v =
      let w =
        leave-Both b a s b_null a_null (λ q. apart (sym q)) (subst (λ q. s.held q ≡ true) e held)
          (subst (λ q. s.told q ≡ true) e told) (v.1, v.0) in
      subst (λ q. Half a b (left_by q s) × Half b a (left_by q s)) (sym e) (w.1, w.0)

  Step-Both : {s t : System} → Step a b s t → Half a b s × Half b a s → Half a b t × Half b a t
  unfolding told_to left_by
  Step-Both {s} (shuts_down p which held e) v =
      subst (λ t. Half a b t × Half b a t) (sym e) (told_to-Both p s which v)
  Step-Both {s} (terminates p which held e) v =
      subst (λ t. Half a b t × Half b a t)
        (sym (
          e
          ∙ ap (λ o. record s { objects = o; told = update s.told p true })
              (handle_terminate-objects p s.objects)))
        (told_to-Both p s which v)
  Step-Both {s} (leaves p which held told e) v =
      subst (λ t. Half a b t × Half b a t) (sym e) (left_by-Both p s which held told v)

  pub Reach-Both :
      {s t : System} → Reach a b s t → Half a b s × Half b a s → Half a b t × Half b a t
  Reach-Both here v = v
  Reach-Both (later r st) v = Step-Both st (Reach-Both r v)
