-- ===== src/WebSocket/Threads/Knows.antt =====
-- What each thread knows of the size while the other one runs.
use ken_code_de_bridge.Base.{Outcome, arith, length, ok, ℕ, ◌+◌, ◌≡◌, ◌≤◌}
use ken_code_de_bridge.WebSocket.Buffer.{Inbox, recv_capacity}
use ken_code_de_bridge.WebSocket.Threads.{
  Reader, Receiver, Threads, adding, emptied, handled, loaded, lowering, moved, moving, part,
  placed, placing, returned, roomy, starting, testing,
}

-- What the callback knows: there is room for its message, and no reader has added to the size.
abbrev pub ReceiverKnows : ℕ → Receiver → Type 0
ReceiverKnows size (testing msg) = Unit
ReceiverKnows size (roomy msg) = size + length msg ≤ recv_capacity
ReceiverKnows size (placing msg offset) =
    (size + length msg ≤ recv_capacity) × (offset + length msg ≤ recv_capacity)
ReceiverKnows size (placed msg) = size + length msg ≤ recv_capacity
ReceiverKnows size (adding msg old) = (old + length msg ≤ recv_capacity) × (size ≤ old)
ReceiverKnows size handled = Unit

-- What a reader knows: the callback only adds to the size, and no more is given than was asked for.
abbrev pub ReaderKnows : ℕ → Reader → Type 0
ReaderKnows size (starting wanted) = Unit
ReaderKnows size (loaded wanted len) = len ≤ size
ReaderKnows size (part wanted given) = (length given ≤ wanted) × (wanted ≤ size)
ReaderKnows size (moving wanted old given) =
    (length given ≤ wanted) × ((wanted ≤ old) × (old ≤ size))
ReaderKnows size (moved wanted given) = (length given ≤ wanted) × (wanted ≤ size)
ReaderKnows size (lowering wanted old given) =
    (length given ≤ wanted) × ((wanted ≤ old) × (old ≤ size))
ReaderKnows size (emptied wanted given) = length given ≤ wanted
ReaderKnows size (returned wanted given) = length given ≤ wanted

pub record Inside (s : Threads) : Type 0 where
  pub whole : length s.inbox.recv_buf ≡ recv_capacity
  pub small : s.inbox.recv_size ≤ recv_capacity
  pub receiver_knows : ReceiverKnows s.inbox.recv_size s.receiver
  pub reader_knows : ReaderKnows s.inbox.recv_size s.reader

-- A larger size is no loss to the reader, and a smaller one none to the callback.
pub ReaderKnows-more : (m n : ℕ) (r : Reader) → m ≤ n → ReaderKnows m r → ReaderKnows n r
ReaderKnows-more m n (starting size) h k = tt
ReaderKnows-more m n (loaded wanted len) h k = omega arith
ReaderKnows-more m n (part wanted given) h (g, k) = (g, omega arith)
ReaderKnows-more m n (moving wanted old given) h (g, (a, b)) = (g, (a, omega arith))
ReaderKnows-more m n (moved wanted given) h (g, k) = (g, omega arith)
ReaderKnows-more m n (lowering wanted old given) h (g, (a, b)) = (g, (a, omega arith))
ReaderKnows-more m n (emptied wanted given) h k = k
ReaderKnows-more m n (returned wanted given) h k = k

pub ReceiverKnows-less : (m n : ℕ) (r : Receiver) → m ≤ n → ReceiverKnows n r → ReceiverKnows m r
ReceiverKnows-less m n (testing msg) h k = tt
ReceiverKnows-less m n (roomy msg) h k = omega arith
ReceiverKnows-less m n (placing msg offset) h (a, b) = (omega arith, b)
ReceiverKnows-less m n (placed msg) h k = omega arith
ReceiverKnows-less m n (adding msg old) h (a, b) = (a, omega arith)
ReceiverKnows-less m n handled h k = tt

abbrev pub at_turn : Inbox → Receiver → Reader → Threads
at_turn ws receiver reader = record { inbox = ws; receiver = receiver; reader = reader }

-- The outcome is a state, of which this holds.
abbrev pub Gives {ℓ} : {A : Type ℓ} → (A → Type 0) → Outcome A → Type 0
Gives P (ok a) = P a
Gives P _ = ⊥
