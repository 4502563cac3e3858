-- ===== src/WebSocket/Threads.antt =====
-- utils/websocket.c: `on_msg_recv_callback`, which runs in the thread of the events, and
-- `websocket_recv`, which runs in the client's, interleaved in any order. A step is one access of the
-- shared fields; the copies of bytes are one access each.
pub mod Knows
mod Moves
pub mod Bounds
pub mod Lost
use ken_code_de_bridge.Base.{
  Bytes, List, Outcome, [], if◌then◌else◌, leb, length, ltb, ok, ℕ, ◌+◌, ◌-◌, ◌>>=◌, ◌∷◌,
}
use ken_code_de_bridge.WebSocket.Buffer.{Inbox, memcpy_from, memcpy_to, memmove_down, recv_capacity}

-- Where the callback stands, with the variables that live there.
pub data Receiver : Type 0 where
  testing : (msg : Bytes) → Receiver  -- the test of the loop
  roomy : (msg : Bytes) → Receiver  -- behind the loop
  placing : (msg : Bytes) (offset : ℕ) → Receiver  -- before `memcpy`
  placed : (msg : Bytes) → Receiver  -- before `+=` reads
  adding : (msg : Bytes) (old : ℕ) → Receiver  -- before `+=` writes
  handled : Receiver

-- Where `websocket_recv` stands.
pub data Reader : Type 0 where
  starting : (size : ℕ) → Reader
  loaded : (size len : ℕ) → Reader  -- behind `int len = ws->recv_size`
  part : (size : ℕ) (given : Bytes) → Reader  -- `len > size`: behind `memcpy`
  moving : (size old : ℕ) (given : Bytes) → Reader  -- before `memmove`
  moved : (size : ℕ) (given : Bytes) → Reader  -- before `-=` reads
  lowering : (size old : ℕ) (given : Bytes) → Reader  -- before `-=` writes
  emptied : (size : ℕ) (given : Bytes) → Reader  -- before `ws->recv_size = 0`
  returned : (size : ℕ) (given : Bytes) → Reader

unfoldable pub receiver_turn : Inbox → Receiver → Outcome (Inbox × Receiver)
unfolding memcpy_to
receiver_turn ws (testing msg) =
    ok (ws, if leb (length msg) (recv_capacity - ws.recv_size) then roomy msg else testing msg)
receiver_turn ws (roomy msg) = ok (ws, placing msg ws.recv_size)
receiver_turn ws (placing msg offset) = do
  recv_buf ← memcpy_to offset msg ws.recv_buf
  ok (record ws { recv_buf = recv_buf }, placed msg)
receiver_turn ws (placed msg) = ok (ws, adding msg ws.recv_size)
receiver_turn ws (adding msg old) = ok (record ws { recv_size = old + length msg }, handled)
receiver_turn ws handled = ok (ws, handled)

unfoldable pub reader_turn : Inbox → Reader → Outcome (Inbox × Reader)
unfolding memcpy_from memmove_down
reader_turn ws (starting size) =
    ok (ws, if ltb 0 ws.recv_size then loaded size ws.recv_size else returned size [])
reader_turn ws (loaded size len) =
    if ltb size len
    then (do given ← memcpy_from size ws.recv_buf; ok (ws, part size given))
    else (do given ← memcpy_from len ws.recv_buf; ok (ws, emptied size given))
reader_turn ws (part size given) = ok (ws, moving size ws.recv_size given)
reader_turn ws (moving size old given) = do
  recv_buf ← memmove_down size (old - size) ws.recv_buf
  ok (record ws { recv_buf = recv_buf }, moved size given)
reader_turn ws (moved size given) = ok (ws, lowering size ws.recv_size given)
reader_turn ws (lowering size old given) =
    ok (record ws { recv_size = old - size }, returned size given)
reader_turn ws (emptied size given) = ok (record ws { recv_size = 0 }, returned size given)
reader_turn ws (returned size given) = ok (ws, returned size given)

pub record Threads : Type 0 where
  pub inbox : Inbox
  pub receiver : Receiver
  pub reader : Reader

-- Who runs next. A thread that is done may get a new message, or a new call.
pub data Turn : Type 0 where
  receives : Turn
  reads : Turn
  message : Bytes → Turn
  call : ℕ → Turn

abbrev pub next_message : Bytes → Receiver → Receiver
next_message msg handled = testing msg
next_message msg other = other

abbrev pub next_call : ℕ → Reader → Reader
next_call size (returned old given) = starting size
next_call size other = other

unfoldable pub turn : Threads → Turn → Outcome Threads
unfolding receiver_turn reader_turn
turn s receives = do
  (inbox, receiver) ← receiver_turn s.inbox s.receiver
  ok (record s { inbox = inbox; receiver = receiver })
turn s reads = do
  (inbox, reader) ← reader_turn s.inbox s.reader
  ok (record s { inbox = inbox; reader = reader })
turn s (message msg) = ok (record s { receiver = next_message msg s.receiver })
turn s (call size) = ok (record s { reader = next_call size s.reader })

-- A schedule.
unfoldable pub run : Threads → List Turn → Outcome Threads
unfolding turn
run s [] = ok s
run s (t ∷ schedule) = do after ← turn s t; run after schedule
