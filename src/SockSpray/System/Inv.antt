-- ===== src/SockSpray/System/Inv.antt =====
-- The invariant of the threads of lne/SockSpray.cpp, and the counts of those inside `__HandleWrite`
-- and `__HandleRead`.
use lne.Prelude.{ℕ, ◌+◌, ◌<◌, ◌≡◌, ◌≢◌, Bool, List, [], ◌∷◌, ◌++◌, ◌==◌, if◌then◌else◌, arith}
use lne.Ring.{Ptr, null}
use lne.ObjectQueue.{Holds}
use lne.SockSpray.Write
use lne.SockSpray.Write.{
  SendResult, sent, interrupted, not_sent, WriteLocals, Writer, write_step, extract_block, transmit,
}
use lne.SockSpray.Read
use lne.SockSpray.Read.{RecvResult, ReadLocals, Reader, read_step, receive, process_data}
use lne.SockSpray.System.{System, Piece}

abbrev pub flag : Bool → ℕ
flag b = if b then 1 else 0

-- Whether a writer is between taking and leaving the send process, and whether it sends.
abbrev pub writing : Writer → ℕ
writing Write.entering = 0
writing Write.claiming = 0
writing Write.finished = 0
writing _ = 1

abbrev pub sending : Writer → ℕ
sending (Write.transmitting l) = 1
sending _ = 0

abbrev pub reading : Reader → ℕ
reading Read.entering = 0
reading Read.claiming = 0
reading Read.finished = 0
reading _ = 1

module _ {T : Type 0} (f : T → ℕ) where
  abbrev pub total : List T → ℕ
  total [] = 0
  total (x ∷ xs) = f x + total xs

  total-append : (xs ys : List T) → total (xs ++ ys) ≡ total xs + total ys
  total-append [] ys = omega arith
  total-append (x ∷ xs) ys = omega (arith, total-append xs ys)

  pub total-middle :
      (xs : List T) (x : T) (ys : List T) → total (xs ++ x ∷ ys) ≡ total xs + f x + total ys
  total-middle xs x ys = omega (arith, total-append xs (x ∷ ys))

-- The block that is being sent, if any.
abbrev pub cached : Ptr → List Ptr
cached b = if b == null then [] else b ∷ []

abbrev pub NoNull : List Ptr → Type 0
NoNull [] = Unit
NoNull (b ∷ bs) = (b ≢ null) × NoNull bs

-- What went out, the blocks given back, and the block at hand with how much of it went out: every
-- block goes out from its beginning, each piece where the one before ended, and is given back once
-- all of it did, before the next one begins.
pub data Sent (size : Ptr → ℕ) : List Piece → List Ptr → Ptr → ℕ → Type 0 where
  none_sent : Sent size [] [] null 0
  begins :
      {wire : List Piece} {released : List Ptr} (b : Ptr)
      → b ≢ null
      → Sent size wire released null 0
      → Sent size wire released b 0
  continues :
      {wire : List Piece} {released : List Ptr} (b : Ptr) (len n : ℕ)
      → b ≢ null
      → 0 < n
      → len + n < size b
      → Sent size wire released b len
      → Sent size (wire ++ record { block = b; from = len; bytes = n } ∷ []) released b (len + n)
  completes :
      {wire : List Piece} {released : List Ptr} (b : Ptr) (len n : ℕ)
      → b ≢ null
      → 0 < n
      → len + n ≡ size b
      → Sent size wire released b len
      → Sent size
          (wire ++ record { block = b; from = len; bytes = n } ∷ [])
          (released ++ b ∷ [])
          null
          0

pub record Inv (size : Ptr → ℕ) (s : System) : Type 0 where
  pub one_writer : total writing s.writers ≡ flag s.spray.send.already
  pub one_reader : total reading s.readers ≡ flag s.spray.recv.already
  pub once : s.shutdowns ≡ flag s.spray.shut.invoke
  pub at_hand : s.spray.send.cache_buf ≡ null → total sending s.writers ≡ 0
  pub queue : List Ptr
  pub holds : Holds s.spray.send_blocks queue
  pub no_null : NoNull queue
  pub fifo : s.appended ≡ s.released ++ (cached s.spray.send.cache_buf ++ queue)
  pub whole : Sent size s.wire s.released s.spray.send.cache_buf s.spray.send.cache_len
