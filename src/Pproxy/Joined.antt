-- ===== src/Pproxy/Joined.antt =====
-- apps/pproxy: the references of a pair of connections from `HandleClient` on.
use lne.Prelude.{ℕ, ◌<◌, ◌≡◌, ◌≢◌, refl, sym, subst, true, false, arith, ==_of_ne}
use lne.Ring.{Ptr, null}
use lne.ExtendObject.{add_ref}
use lne.Pproxy.{Objects, set_context, hold, handle_client}
use lne.Pproxy.Pair.{System, Reach, Half, Reach-Both}

-- The pair that `HandleClient` makes of two new connections.
unfoldable pub start : Ptr → Ptr → ℕ → Objects → System
start a b count o = record {
  objects = (handle_client true a b count o).0;
  told = λ p. false;
  held = λ p. true;
}

handle_client-joined :
    (a b : Ptr) (count : ℕ) (o : Objects)
    → a ≢ null
    → b ≢ null
    → (handle_client true a b count o).0 ≡ hold b (hold a (set_context b a (set_context a b o)))
unfolding handle_client
handle_client-joined a b count o a_null b_null =
    simp (==_of_ne a null a_null, ==_of_ne b null b_null) refl

start-Both :
    (a b : Ptr) (count : ℕ) (o : Objects)
    → a ≢ null
    → b ≢ null
    → a ≢ b
    → (o.ref a).reference ≡ 1
    → (o.ref b).reference ≡ 1
    → Half a b (start a b count o) × Half b a (start a b count o)
unfolding start hold set_context add_ref
start-Both a b count o a_null b_null apart one_a one_b =
    subst
      (λ q.
        let t : System = record { objects = q; told = λ p. false; held = λ p. true } in
        Half a b t × Half b a t)
      (sym (handle_client-joined a b count o a_null b_null))
      (
        record {
          count = ground (arith, one_a);
          either = ground arith;
          gone = λ h. ground (arith, h);
        },
        record {
          count = ground (arith, one_b);
          either = ground arith;
          gone = λ h. ground (arith, h);
        },
      )

-- However the two new connections that `HandleClient` joins shut down, terminate and then leave:
-- neither is destroyed while it has not left or while the other's context points to it, and that
-- context is the other one or null; once both have left, neither has a reference left.
pub handle_client-Reach :
    (a b : Ptr) (count : ℕ) (o : Objects) (s : System)
    → a ≢ null
    → b ≢ null
    → a ≢ b
    → (o.ref a).reference ≡ 1
    → (o.ref b).reference ≡ 1
    → Reach a b (start a b count o) s
    → (s.held a ≡ true → 0 < (s.objects.ref a).reference)
      × (s.held b ≡ true → 0 < (s.objects.ref b).reference)
      × (s.objects.context a ≢ null → (s.objects.context a ≡ b) × (0 < (s.objects.ref b).reference))
      × (s.objects.context b ≢ null → (s.objects.context b ≡ a) × (0 < (s.objects.ref a).reference))
      × (s.held a ≡ false
          → s.held b ≡ false
          → ((s.objects.ref a).reference ≡ 0) × ((s.objects.ref b).reference ≡ 0))
handle_client-Reach a b count o s a_null b_null apart one_a one_b r =
    let v =
      Reach-Both a_null b_null apart r (start-Both a b count o a_null b_null apart one_a one_b) in
    (
      λ h. ground (arith, v.0.count, h),
      λ h. ground (arith, v.1.count, h),
      λ h. ground (arith, v.0.either, v.1.count, h),
      λ h. ground (arith, v.1.either, v.0.count, h),
      λ h k.
          ground
            (arith, v.0.count, v.0.either, v.1.either, v.1.count, v.0.gone h, v.1.gone k, h, k),
    )
