-- ===== src/SockSpray/System/Safety.antt =====
-- Every step of the threads of lne/SockSpray.cpp keeps the invariant.
use lne.Prelude.{
  ℕ, zero, suc, ◌≤◌, ◌<◌, ◌≡◌, ◌≢◌, refl, sym, subst, ap, ◌∙◌, Bool, List, [], ◌∷◌, ◌++◌,
  if◌then◌else◌, arith, inl, inr, ◌⊎◌,
}
use mathlib.Core.List.{append_assoc}
use lne.Ring.{Ptr, null}
use lne.DataBlock.{DataBlock}
use lne.ObjectQueue
use lne.ObjectQueue.{Holds, append-Holds}
use lne.SockSpray.{SockSpray, SendState, RecvState, shutdown_once}
use lne.SockSpray.Thread.{mark_shutdown}
use lne.Config.{Status, is_ok}
use lne.ObjectList.Free.{Fresh}
use lne.SockSpray.Write
use lne.SockSpray.Write.{shutdown_query, SendResult, Writer, write_step}
use lne.SockSpray.Read.{RecvResult, Reader, read_step}
use lne.SockSpray.System.{
  System, Answered, write, read, append, close, releases, Step, Reach, here, later, writes, reads,
  starts_write, starts_read, appends, queries, closes, marks,
}
use lne.SockSpray.System.Inv.{
  flag, writing, sending, reading, total, total-middle, cached, NoNull, Inv, Sent,
}
use lne.SockSpray.System.Lane.{
  write_step-writing, write_step-shut, write_step-outside, shutdown_once_frame, send_append_frame,
  shutdown_query_frame,
}
use lne.SockSpray.System.Queue.{write_step-Moved}
use lne.SockSpray.System.Wire.{write_step-Sent}
use lne.SockSpray.System.Receive.{read_step-reading}

sending-writing : (w : Writer) → sending w ≤ writing w
sending-writing Write.entering = omega arith
sending-writing Write.claiming = omega arith
sending-writing Write.finished = omega arith
sending-writing (Write.extracting l) = omega arith
sending-writing (Write.transmitting l) = omega arith
sending-writing (Write.checking l) = omega arith
sending-writing (Write.unlocking l) = omega arith

total-le : (ws : List Writer) → total sending ws ≤ total writing ws
total-le [] = omega arith
total-le (w ∷ ws) = omega (arith, total-le ws, sending-writing w)

pub flag-le : (b : Bool) → flag b ≤ 1
flag-le b = ground arith

NoNull-snoc : (bs : List Ptr) (b : Ptr) → NoNull bs → b ≢ null → NoNull (bs ++ b ∷ [])
NoNull-snoc [] b nn ne = (ne, tt)
NoNull-snoc (c ∷ bs) b nn ne = (nn.0, NoNull-snoc bs b nn.1 ne)

Nat-cases : (n : ℕ) → (n ≡ 0) ⊎ (0 < n)
Nat-cases zero = inl refl
Nat-cases (suc n) = inr (omega arith)

module _ (size : Ptr → ℕ) (s : System) (v : Inv size s) where
  write-Inv :
      (r : SendResult) (ws : List Writer) (w : Writer) (vs : List Writer)
      → s.writers ≡ ws ++ w ∷ vs
      → Answered size r s.spray
      → Inv size (write size r ws w vs s)
  unfolding write
  write-Inv r ws w vs e a =
      let out = write_step size r w s.spray in
      let inside = ap (total writing) e ∙ total-middle writing ws w vs in
      let sends = ap (total sending) e ∙ total-middle sending ws w vs in
      let m =
        write_step-Moved s.spray v.queue v.holds v.no_null size r w
          (λ z. omega (arith, v.at_hand z, sends)) in
      let k = write_step-writing size r w s.spray (omega (arith, inside, v.one_writer)) in
      let c = write_step-shut size r w s.spray in
      record {
        one_writer = omega (arith, v.one_writer, inside, k, total-middle writing ws out.0 vs);
        one_reader = v.one_reader ∙ ap flag (ap (λ (x : RecvState). x.already) (sym c.0));
        once = omega (arith, v.once, c.1);
        at_hand = λ z. elim (Nat-cases (writing w)) [
          | inl outside ↦
              let before = v.at_hand (sym (write_step-outside size r w s.spray outside) ∙ z) in
              omega (arith, before, sends, m.at_hand z, total-middle sending ws out.0 vs)
          | inr is_inside ↦ omega (
            arith,
            v.one_writer,
            inside,
            is_inside,
            flag-le s.spray.send.already,
            total-le ws,
            total-le vs,
            m.at_hand z,
            total-middle sending ws out.0 vs,
          )
        ];
        queue = m.rest;
        holds = m.holds;
        no_null = m.no_null;
        fifo =
            v.fifo
            ∙ ap (λ l. s.released ++ l) m.same
            ∙ sym (append_assoc s.released (releases out.2) _);
        whole =
            write_step-Sent size s.wire s.released s.spray v.whole v.queue r w v.holds v.no_null
              (λ z. omega (arith, v.at_hand z, sends)) a;
      }

  read-Inv :
      (block : Ptr × DataBlock) (r : RecvResult) (ws : List Reader) (w : Reader) (vs : List Reader)
      → s.readers ≡ ws ++ w ∷ vs
      → Inv size (read block r ws w vs s)
  unfolding read
  read-Inv block r ws w vs e =
      let out = read_step block r w s.spray in
      let inside = ap (total reading) e ∙ total-middle reading ws w vs in
      let k = read_step-reading block r w s.spray (omega (arith, inside, v.one_reader)) in
      record {
        one_writer = v.one_writer ∙ ap (λ (x : SendState). flag x.already) (sym k.1);
        one_reader = omega (arith, v.one_reader, inside, k.0, total-middle reading ws out.0 vs);
        once = omega (arith, v.once, k.3);
        at_hand = λ z. v.at_hand (ap (λ (x : SendState). x.cache_buf) (sym k.1) ∙ z);
        queue = v.queue;
        holds = subst (λ q. Holds q v.queue) (sym k.2) v.holds;
        no_null = v.no_null;
        fifo =
            v.fifo
            ∙ ap (λ (x : SendState). s.released ++ (cached x.cache_buf ++ v.queue)) (sym k.1);
        whole =
            subst (λ (x : SendState). Sent size s.wire s.released x.cache_buf x.cache_len) (sym k.1)
              v.whole;
      }

  -- A step that changes the queue, and neither the processes nor the call of `shutdown`.
  changed-Inv :
      (spray : SockSpray) (appended : List Ptr) (shutdowns : ℕ) (queue : List Ptr)
      → spray.send ≡ s.spray.send
      → spray.recv ≡ s.spray.recv
      → shutdowns ≡ flag spray.shut.invoke
      → Holds spray.send_blocks queue
      → NoNull queue
      → appended ≡ s.released ++ (cached s.spray.send.cache_buf ++ queue)
      → Inv size (record s { spray = spray; appended = appended; shutdowns = shutdowns })
  changed-Inv spray appended shutdowns queue send recv count h nn f = record {
    one_writer = v.one_writer ∙ ap (λ (x : SendState). flag x.already) (sym send);
    one_reader = v.one_reader ∙ ap (λ (x : RecvState). flag x.already) (sym recv);
    once = count;
    at_hand = λ z. v.at_hand (ap (λ (x : SendState). x.cache_buf) (sym send) ∙ z);
    queue = queue;
    holds = h;
    no_null = nn;
    fifo = f ∙ ap (λ (x : SendState). s.released ++ (cached x.cache_buf ++ queue)) (sym send);
    whole =
        subst (λ (x : SendState). Sent size s.wire s.released x.cache_buf x.cache_len) (sym send)
          v.whole;
  }

  append-Inv :
      (cache_nodes : ℕ) (memory block : Ptr)
      → block ≢ null
      → 0 < cache_nodes
      → (memory ≢ null → Fresh 0 cache_nodes memory v.holds.nodes)
      → Inv size (append cache_nodes memory block s)
  unfolding append
  append-Inv cache_nodes memory block ne pos fresh =
      let k = send_append_frame cache_nodes memory block s.spray in
      elim (append-Holds cache_nodes memory block s.spray.send_blocks v.queue v.holds pos fresh) [
        | inl (_, e) ↦
            changed-Inv _ _ s.shutdowns v.queue k.0 k.1 (v.once ∙ ap flag (sym k.2))
              (subst (λ q. Holds q v.queue)
                (sym (k.3 ∙ ap (λ (o : ObjectQueue.ObjectQueue Ptr × Status). o.0) e)) v.holds)
              v.no_null
              (ap
                  (λ (o : ObjectQueue.ObjectQueue Ptr × Status).
                    if is_ok o.1 then s.appended ++ block ∷ [] else s.appended)
                  e
                ∙ v.fifo)
        | inr (h, done) ↦
            changed-Inv _ _ s.shutdowns (v.queue ++ block ∷ []) k.0 k.1 (v.once ∙ ap flag (sym k.2))
              (subst (λ q. Holds q (v.queue ++ block ∷ [])) (sym k.3) h)
              (NoNull-snoc v.queue block v.no_null ne)
              (ap (λ o. if is_ok o then s.appended ++ block ∷ [] else s.appended) done
                ∙ ap (λ l. l ++ block ∷ []) v.fifo
                ∙ append_assoc s.released _ _
                ∙ ap (λ l. s.released ++ l)
                    (append_assoc (cached s.spray.send.cache_buf) v.queue (block ∷ [])))
      ]

  close-Inv : Inv size (close s)
  unfolding close
  close-Inv =
      let k = shutdown_once_frame s.spray in
      changed-Inv (shutdown_once s.spray).0 s.appended _ v.queue k.0 k.1
        (omega (arith, v.once, k.3)) (subst (λ q. Holds q v.queue) (sym k.2) v.holds) v.no_null
        v.fifo

Step-Inv : {size : Ptr → ℕ} {s s' : System} → Step size s s' → Inv size s → Inv size s'
unfolding mark_shutdown
Step-Inv {size} {s} (writes r ws w vs e a f) v =
    subst (Inv size) (sym f) (write-Inv size s v r ws w vs e a)
Step-Inv {size} {s} (reads block r ws w vs e f) v =
    subst (Inv size) (sym f) (read-Inv size s v block r ws w vs e)
Step-Inv {size} {s} (starts_write f) v = subst (Inv size) (sym f) (record {
  one_writer = omega (arith, v.one_writer);
  one_reader = omega (arith, v.one_reader);
  once = v.once;
  at_hand = λ z. omega (arith, v.at_hand z);
  queue = v.queue;
  holds = v.holds;
  no_null = v.no_null;
  fifo = v.fifo;
  whole = v.whole;
})
Step-Inv {size} {s} (starts_read f) v = subst (Inv size) (sym f) (record {
  one_writer = omega (arith, v.one_writer);
  one_reader = omega (arith, v.one_reader);
  once = v.once;
  at_hand = λ z. omega (arith, v.at_hand z);
  queue = v.queue;
  holds = v.holds;
  no_null = v.no_null;
  fifo = v.fifo;
  whole = v.whole;
})
Step-Inv {size} {s} (appends cache_nodes memory block ne pos fresh f) v =
    subst (Inv size) (sym f)
      (append-Inv size s v cache_nodes memory block ne pos (fresh v.queue v.holds))
Step-Inv {size} {s} (queries f) v =
    let k = shutdown_query_frame s.spray in
    subst (Inv size) (sym f) (
      changed-Inv size s v (shutdown_query s.spray).0 s.appended s.shutdowns v.queue k.0 k.1
        (v.once ∙ ap flag (sym k.2)) (subst (λ q. Holds q v.queue) (sym k.3) v.holds) v.no_null
        v.fifo)
Step-Inv {size} {s} (closes f) v = subst (Inv size) (sym f) (close-Inv size s v)
Step-Inv {size} {s} (marks f) v = subst (Inv size) (sym f) (
    changed-Inv size s v (mark_shutdown s.spray) s.appended s.shutdowns v.queue refl refl v.once
      v.holds v.no_null v.fifo)

pub Reach-Inv : {size : Ptr → ℕ} {s s' : System} → Reach size s s' → Inv size s → Inv size s'
Reach-Inv here v = v
Reach-Inv (later r st) v = Step-Inv st (Reach-Inv r v)
