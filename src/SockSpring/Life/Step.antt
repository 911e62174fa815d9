-- ===== src/SockSpring/Life/Step.antt =====
-- lne/SockSpring.cpp: what one `Shutdown` or one `HandleRead` does to the listening socket.
use lne.Prelude.{
  ℕ, ◌+◌, ◌≡◌, refl, sym, subst, ap, ◌∙◌, Bool, true, false, inl, inr, Option, none, some, List, [],
  ◌∷◌, ◌++◌, if◌then◌else◌, arith,
}
use lne.ExtendObject.{add_ref, release}
use lne.SockPad
use lne.SockPad.Accounts.{count, count-append}
use lne.SockSpring.{
  SockSpring, Event, closed, unbound, Turn, accept_loop, shutdown, shutdown_locked, shutdown_once,
  handle_read, handle_read_inner, release_read, closed_all,
}
use lne.SockSpring.Accept.{
  Served, accept_loop-Served, live_turns, live_turns-cases, clients, dropped, any_shuts,
  accepted_sock, closes,
}
use lne.SockSpring.Life.{shuts, reads, read_events, apply, Inv, Done}

module _ (listener : ℕ) where
  count-dropped-cons :
      (t : Turn) (ts : List Turn)
      → count listener (clients (t ∷ ts)) ≡ 0
      → (count listener (clients ts) ≡ 0)
        × (count listener (dropped listener (t ∷ ts))
            ≡ (if t.shuts then 1 else 0) + count listener (dropped listener ts))
  count-dropped-cons t ts foreign = ground (
    arith,
    foreign,
    count-append listener (accepted_sock t.answer) (clients ts),
    count-append listener (if t.keeps then [] else accepted_sock t.answer)
        ((if t.shuts then listener ∷ [] else []) ++ dropped listener ts),
    count-append listener (if t.shuts then listener ∷ [] else []) (dropped listener ts),
  )

  count-dropped :
      (ts : List Turn)
      → count listener (clients ts) ≡ 0
      → count listener (dropped listener (live_turns ts))
        ≡ (if any_shuts (live_turns ts) then 1 else 0)
  count-dropped [] foreign = refl
  count-dropped (t ∷ ts) foreign =
      let k = count-dropped-cons t ts foreign in
      let k0 = count-dropped-cons t [] in
      elim (live_turns-cases t ts) [
        | inl e ↦ simp e refl
        | inr (inl (b, e)) ↦
            simp (e, b)
              (ground (
                arith,
                k,
                b,
                foreign,
                k0,
                count-append listener (accepted_sock t.answer) (clients ts),
              ))
        | inr (inr (b, e)) ↦ simp (e, b) (ground (arith, k, b, count-dropped ts k.0))
      ]

module _ (listener : ℕ) (s : SockSpring) (v : Inv listener s) where
  closed_spring : SockSpring
  closed_spring = record s { skpad = record { family = 0; socket = none }; shutdown_already = true }

  shutdown_open :
      s.skpad.socket ≡ some listener
      → s.shutdown_already ≡ false
      → shutdown s ≡ some (closed_spring, closed listener ∷ unbound ∷ [])
  unfolding shutdown shutdown_locked shutdown_once SockPad.close SockPad.closing closed_all
      closed_spring
  shutdown_open e f = ground (arith, e, f, v.bound)

  shutdown_again :
      s.skpad.socket ≡ none → s.shutdown_already ≡ true → shutdown s ≡ some (s, unbound ∷ [])
  unfolding shutdown shutdown_locked
  shutdown_again e f = ground (arith, e, f, v.bound)

  shutdown-Done : Done listener s (shutdown s)
  unfolding closed_spring
  shutdown-Done = elim (v.either) [
    | inl (e, f) ↦ subst (Done listener s) (sym (shutdown_open e f)) (
      record { bound = v.bound; has_handler = v.has_handler; either = inr (refl, refl) },
      ground (arith, f),
      λ h. (refl, refl),
    )
    | inr (e, f) ↦
        subst (Done listener s) (sym (shutdown_again e f)) (v, ground (arith, f), λ h. (refl, f))
  ]

  abbrev reading : SockSpring
  reading = record s { ref = add_ref s.ref }

  read-Done :
      (ts : List Turn) (s' : SockSpring) (es : List Event)
      → s.shutdown_already ≡ false
      → count listener (clients ts) ≡ 0
      → closes es ≡ dropped listener (live_turns ts)
      → s'.skpad.socket ≡ (if any_shuts (live_turns ts) then none else some listener)
      → s'.shutdown_already ≡ any_shuts (live_turns ts)
      → s'.poller ≡ s.poller
      → s'.handler ≡ s.handler
      → Done listener s (some (s', es))
  read-Done ts s' es f foreign drops still already to by =
      let c = ap (count listener) drops ∙ count-dropped listener ts foreign in
      (
        record {
          bound = λ q. v.bound (sym to ∙ q);
          has_handler = λ q. v.has_handler (sym by ∙ q);
          either = ground (arith, still, already);
        },
        ground (arith, c, already, f),
        λ q. absurd (false_true (sym f ∙ q)),
      )
    where
      false_true : false ≡ true → ⊥
      false_true e = cc

  release_read-Done :
      (ts : List Turn) (out : Option (SockSpring × List Event × Bool))
      → s.shutdown_already ≡ false
      → count listener (clients ts) ≡ 0
      → Served listener reading (live_turns ts) out
      → Done listener s (read_events (release_read out))
  unfolding release_read read_events
  release_read-Done ts none f foreign k = elim k [ ]
  release_read-Done ts (some (s', es, true)) f foreign
        (hands, drops, still, already, to, by, refs) =
      read-Done ts (record s' { ref = (release s'.ref).0 }) es f foreign drops still already to by
  release_read-Done ts (some (s', es, false)) f foreign
        (hands, drops, still, already, to, by, refs) =
      read-Done ts s' es f foreign drops still already to by

  read_inner :
      (ts : List Turn)
      → s.shutdown_already ≡ false
      → handle_read ts s ≡ release_read (accept_loop ts reading)
  unfolding handle_read handle_read_inner
  read_inner ts f = simp f refl

  read_again :
      (ts : List Turn)
      → s.shutdown_already ≡ true
      → let rel = release (add_ref s.ref) in
        handle_read ts s ≡ some (record s { ref = rel.0 }, [], true, rel.1)
  unfolding handle_read handle_read_inner release_read
  read_again ts f = simp f refl

  pub apply_shuts-Done : Done listener s (apply shuts s)
  unfolding apply
  apply_shuts-Done = shutdown-Done

  pub apply_reads-Done :
      (ts : List Turn) → count listener (clients ts) ≡ 0 → Done listener s (apply (reads ts) s)
  unfolding apply
  apply_reads-Done ts foreign = elim (v.either) [
    | inl (e, f) ↦
        subst (λ q. Done listener s (read_events q)) (sym (read_inner ts f))
          (release_read-Done ts (accept_loop ts reading) f foreign
            (accept_loop-Served listener ts reading (e, v.bound, f)))
    | inr (e, f) ↦
        subst (λ q. Done listener s (read_events q)) (sym (read_again ts f))
          (
            record { bound = v.bound; has_handler = v.has_handler; either = inr (e, f) },
            ground (arith, f),
            λ q. (refl, f),
          )
  ]
