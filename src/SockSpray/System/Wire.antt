-- ===== src/SockSpray/System/Wire.antt =====
-- What one step of `__HandleWrite` in lne/SockSpray.cpp sends.
use lne.Prelude.{
  ℕ, ◌+◌, ◌%◌, ◌≡◌, ◌≢◌, refl, sym, subst, List, [], ◌∷◌, ◌++◌, ◌==◌, arith, Bool-cases, inl, inr,
}
use mathlib.Core.List.{append-nil}
use lne.Ring.{Ptr, null}
use lne.ExtendObject.{u32_mod}
use lne.ObjectQueue.{Holds}
use lne.SockSpray.{SockSpray, Event}
use lne.SockSpray.Write.{
  SendResult, sent, interrupted, not_sent, WriteLocals, Writer, write_step, extract_block, transmit,
  entering, claiming, finished, extracting, transmitting, checking, unlocking,
}
use lne.SockSpray.System.{Piece, Answered, pieces, releases}
use lne.SockSpray.System.Inv.{Sent, none_sent, begins, continues, completes, sending, NoNull}
use lne.SockSpray.System.Lane.{shutdown_once_frame}
use lne.SockSpray.System.Queue.{extract_block-empty, extract_block-cons, extracting-null}

-- Nothing is sent of no block.
none_at_hand :
    {size : Ptr → ℕ} {wire : List Piece} {released : List Ptr} {b : Ptr} {len : ℕ}
    → Sent size wire released b len
    → b ≡ null
    → len ≡ 0
none_at_hand none_sent e = refl
none_at_hand (begins b ne h) e = refl
none_at_hand (continues b len n ne pos part h) e = absurd (ne e)
none_at_hand (completes b len n ne pos whole h) e = refl

module _ (size : Ptr → ℕ) (wire : List Piece) (released : List Ptr) (s : SockSpray)
    (h : Sent size wire released s.send.cache_buf s.send.cache_len) where
  abbrev SentBy : Writer × SockSpray × List Event → Type 0
  SentBy out =
      Sent size (wire ++ pieces out.2) (released ++ releases out.2) out.1.send.cache_buf
        out.1.send.cache_len

  silent :
      (out : Writer × SockSpray × List Event)
      → out.1.send.cache_buf ≡ s.send.cache_buf
      → out.1.send.cache_len ≡ s.send.cache_len
      → pieces out.2 ≡ []
      → releases out.2 ≡ []
      → SentBy out
  silent out buf len unsent kept =
      rw (buf, len, unsent, kept, append-nil wire, append-nil released) h

  extracts-Sent :
      (l : WriteLocals) (queue qs : List Ptr)
      → Holds s.send_blocks queue
      → NoNull queue
      → queue ≡ qs
      → s.send.cache_buf ≡ null
      → SentBy ((extract_block l s).0, (extract_block l s).1, [])
  extracts-Sent l queue [] holds no_null e none_left =
      rw (extract_block-empty s queue holds no_null l e)
        (rw (append-nil wire, append-nil released) h)
  extracts-Sent l queue (b ∷ bs) holds no_null e none_left =
      let ne : b ≢ null = (subst NoNull e no_null).0 in
      let len : s.send.cache_len ≡ 0 = none_at_hand h none_left in
      rw (extract_block-cons s queue holds no_null l b bs e, append-nil wire, append-nil released)
        (begins b ne (rw len at (rw none_left at h)))

  transmit-Sent :
      (r : SendResult) (l : WriteLocals)
      → s.send.cache_buf ≢ null
      → Answered size r s
      → SentBy (transmit size r l s)
  unfolding transmit
  transmit-Sent (sent n) l ne (pos, fits, small) =
      let value : (s.send.cache_len + n) % u32_mod ≡ s.send.cache_len + n =
        omega (arith, fits, small) in
      elim (Bool-cases (s.send.cache_len + n == size s.send.cache_buf)) [
        | inl e ↦
            simp (value, e)
              (completes s.send.cache_buf s.send.cache_len n ne pos (ground (arith, e)) h)
        | inr e ↦
            simp (value, e, append-nil released)
              (continues s.send.cache_buf s.send.cache_len n ne pos (ground (arith, e, fits)) h)
      ]
  transmit-Sent interrupted l ne a = rw (append-nil wire, append-nil released) h
  transmit-Sent (not_sent would_block) l ne a = rw (append-nil wire, append-nil released) h

  pub write_step-Sent :
      (queue : List Ptr) (r : SendResult) (w : Writer)
      → Holds s.send_blocks queue
      → NoNull queue
      → (s.send.cache_buf ≡ null → sending w ≡ 0)
      → Answered size r s
      → SentBy (write_step size r w s)
  unfolding write_step
  write_step-Sent queue r entering holds no_null at_hand a =
      silent (write_step size r entering s) (ground arith) (ground arith) (ground arith)
        (ground arith)
  write_step-Sent queue r claiming holds no_null at_hand a =
      silent (write_step size r claiming s) (ground arith) (ground arith) (ground arith)
        (ground arith)
  write_step-Sent queue r (extracting l) holds no_null at_hand a =
      elim (Bool-cases (s.send.cache_buf == null)) [
        | inl e ↦
            subst SentBy (sym (extracting-null s queue holds no_null size r l e))
              (extracts-Sent l queue queue holds no_null refl (ground arith))
        | inr e ↦
            silent (write_step size r (extracting l) s) (ground (arith, e)) (ground (arith, e))
              (ground (arith, e)) (ground (arith, e))
      ]
  write_step-Sent queue r (transmitting l) holds no_null at_hand a =
      transmit-Sent r l (λ z. absurd (omega (arith, at_hand z))) a
  write_step-Sent queue r (checking l) holds no_null at_hand a =
      let k = shutdown_once_frame s in
      silent (write_step size r (checking l) s) (ground (arith, k)) (ground (arith, k))
        (ground (arith, k)) (ground (arith, k))
  write_step-Sent queue r (unlocking l) holds no_null at_hand a =
      silent (write_step size r (unlocking l) s) (ground arith) (ground arith) (ground arith)
        (ground arith)
  write_step-Sent queue r finished holds no_null at_hand a =
      rw (append-nil wire, append-nil released) h
