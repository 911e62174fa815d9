-- ===== src/SockSpray/System/Queue.antt =====
-- What one step of `__HandleWrite` in lne/SockSpray.cpp does to the block at hand and the queue.
use lne.Prelude.{
  ℕ, ◌+◌, ◌%◌, ◌≡◌, ◌≢◌, refl, sym, subst, true, false, List, [], ◌∷◌, ◌++◌, ◌==◌, arith,
  Bool-cases, inl, inr, ==_of_ne,
}
use lne.Ring.{Ptr, null}
use lne.ObjectQueue
use lne.ExtendObject.{u32_mod}
use lne.ObjectQueue.{Holds, extract-Holds, extract-empty}
use lne.SockSpray.{SockSpray, Event}
use lne.SockSpray.Write
use lne.SockSpray.Write.{
  SendResult, sent, interrupted, not_sent, WriteLocals, Writer, write_step, extract_block, transmit,
}
use lne.SockSpray.Write.{
  entering, claiming, finished, extracting, transmitting, checking, unlocking,
}
use lne.SockSpray.System.{releases}
use lne.SockSpray.System.Lane.{again-sending, shutdown_once_frame}
use lne.SockSpray.System.Inv.{sending, cached, NoNull}

-- What a step does to the block at hand and to the queue.
pub record Moved (s : SockSpray) (queue : List Ptr) (out : Writer × SockSpray × List Event)
    : Type 0 where
  pub at_hand : out.1.send.cache_buf ≡ null → sending out.0 ≡ 0
  pub rest : List Ptr
  pub holds : Holds out.1.send_blocks rest
  pub no_null : NoNull rest
  pub same :
      cached s.send.cache_buf ++ queue ≡ releases out.2 ++ (cached out.1.send.cache_buf ++ rest)

module _ (s : SockSpray) (queue : List Ptr) (holds : Holds s.send_blocks queue)
    (no_null : NoNull queue) where
  -- A step that leaves both.
  stays :
      (out : Writer × SockSpray × List Event)
      → out.1.send_blocks ≡ s.send_blocks
      → out.1.send.cache_buf ≡ s.send.cache_buf
      → releases out.2 ≡ []
      → (out.1.send.cache_buf ≡ null → sending out.0 ≡ 0)
      → Moved s queue out
  stays out blocks buf none_released h = record {
    at_hand = h;
    rest = queue;
    holds = subst (λ q. Holds q queue) (sym blocks) holds;
    no_null = no_null;
    same = rw (none_released, buf) refl;
  }

  pub extract_block-empty :
      (l : WriteLocals)
      → queue ≡ []
      → extract_block l s ≡ (
        Write.again (record l { continue_send = false; block_empty = true }),
        record s { send = record (s.send) { ready = true } },
      )
  unfolding extract_block
  extract_block-empty l e =
      rw (extract-empty null s.send_blocks (subst (Holds s.send_blocks) e holds)) refl

  pub extract_block-cons :
      (l : WriteLocals) (b : Ptr) (bs : List Ptr)
      → queue ≡ b ∷ bs
      → extract_block l s ≡ (
        transmitting l,
        record s {
          send_blocks = (ObjectQueue.extract null s.send_blocks).0;
          send = record (s.send) { cache_buf = b; cache_len = 0 };
        },
      )
  unfolding extract_block
  extract_block-cons l b bs e =
      let p = extract-Holds null b s.send_blocks bs (subst (Holds s.send_blocks) e holds) in
      let ne : b ≢ null = (subst NoNull e no_null).0 in rw (p.2, p.1, ==_of_ne b null ne) refl

  extracts :
      (size : Ptr → ℕ) (r : SendResult) (l : WriteLocals) (qs : List Ptr)
      → queue ≡ qs
      → s.send.cache_buf ≡ null
      → Moved s queue ((extract_block l s).0, (extract_block l s).1, [])
  extracts size r l [] e none_left =
      subst (λ (o : Writer × SockSpray). Moved s queue (o.0, o.1, []))
        (sym (extract_block-empty l e)) (stays _ refl refl refl (λ _. again-sending _))
  extracts size r l (b ∷ bs) e none_left =
      let p = extract-Holds null b s.send_blocks bs (subst (Holds s.send_blocks) e holds) in
      let ne = subst NoNull e no_null in
      subst (λ (o : Writer × SockSpray). Moved s queue (o.0, o.1, []))
        (sym (extract_block-cons l b bs e))
        (record {
          at_hand = λ z. absurd (ne.0 z);
          rest = bs;
          holds = p.0;
          no_null = ne.1;
          same = rw (none_left, e, ==_of_ne b null ne.0) refl;
        })

  transmits :
      (size : Ptr → ℕ) (r : SendResult) (l : WriteLocals)
      → s.send.cache_buf ≢ null
      → Moved s queue (transmit size r l s)
  unfolding transmit
  transmits size (sent n) l ne =
      elim (Bool-cases ((s.send.cache_len + n) % u32_mod == size s.send.cache_buf)) [
        | inl e ↦ rw e (record {
          at_hand = λ _. again-sending _;
          rest = queue;
          holds = holds;
          no_null = no_null;
          same = rw (==_of_ne s.send.cache_buf null ne) refl;
        })
        | inr e ↦ rw e (stays _ refl refl refl (λ z. absurd (ne z)))
      ]
  transmits size interrupted l ne = stays _ refl refl refl (λ z. absurd (ne z))
  transmits size (not_sent would_block) l ne = stays _ refl refl refl (λ z. absurd (ne z))

  pub extracting-null :
      (size : Ptr → ℕ) (r : SendResult) (l : WriteLocals)
      → (s.send.cache_buf == null) ≡ true
      → write_step size r (extracting l) s ≡ ((extract_block l s).0, (extract_block l s).1, [])
  unfolding write_step
  extracting-null size r l e = ground (arith, e)

  pub write_step-Moved :
      (size : Ptr → ℕ) (r : SendResult) (w : Writer)
      → (s.send.cache_buf ≡ null → sending w ≡ 0)
      → Moved s queue (write_step size r w s)
  unfolding write_step
  write_step-Moved size r entering h =
      stays _ (ground arith) (ground arith) (ground arith) (ground arith)
  write_step-Moved size r claiming h =
      stays _ (ground arith) (ground arith) (ground arith) (ground arith)
  write_step-Moved size r (extracting l) h = elim (Bool-cases (s.send.cache_buf == null)) [
    | inl e ↦
        subst (Moved s queue) (sym (extracting-null size r l e))
          (extracts size r l queue refl (ground arith))
    | inr e ↦
        stays _ (ground (arith, e)) (ground (arith, e)) (ground (arith, e)) (ground (arith, e))
  ]
  write_step-Moved size r (transmitting l) h = transmits size r l (λ z. absurd (omega (arith, h z)))
  write_step-Moved size r (checking l) h =
      let k = shutdown_once_frame s in
      stays _ (ground (arith, k)) (ground (arith, k)) (ground (arith, k)) (ground (arith, k))
  write_step-Moved size r (unlocking l) h =
      stays _ (ground arith) (ground arith) (ground arith) (ground arith)
  write_step-Moved size r finished h = stays _ refl refl refl (λ _. refl)
