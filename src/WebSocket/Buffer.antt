-- ===== src/WebSocket/Buffer.antt =====
-- utils/websocket.c: the received bytes that `websocket_recv` has not given out yet, as the two
-- functions that change them do it when no other thread runs.
pub mod Contents
pub mod Queue
use ken_code_de_bridge.Base.{
  Bool, Bytes, Outcome, [], drop, fault, if◌then◌else◌, leb, length, ltb, negsuc, ok, out_of_fuel,
  pos, take, ℕ, ℤ, ◌++◌, ◌+◌, ◌-◌, ◌>>=◌,
}

-- The fields of `struct WebSocketClient`. `recv_size` is an int that no step makes negative.
pub record Inbox : Type 0 where
  pub recv_buf : Bytes
  pub recv_size : ℕ

-- `sizeof (ws->recv_buf)`
abbrev pub recv_capacity : ℕ
recv_capacity = 8192

-- `struct wslay_event_on_msg_recv_arg`, as far as it is read.
pub record MsgArg : Type 0 where
  pub opcode : ℕ
  pub msg : Bytes

-- `memcpy` of all of `from` to an offset of an array.
unfoldable pub memcpy_to : ℕ → Bytes → Bytes → Outcome Bytes
memcpy_to offset from array =
    if leb (offset + length from) (length array)
    then ok (take offset array ++ (from ++ drop (offset + length from) array))
    else fault

-- `memcpy` of the first `len` bytes of an array.
unfoldable pub memcpy_from : ℕ → Bytes → Outcome Bytes
memcpy_from len array = if leb len (length array) then ok (take len array) else fault

-- `memmove (array, array + len, n)`
unfoldable pub memmove_down : ℕ → ℕ → Bytes → Outcome Bytes
memmove_down len n array =
    if leb (len + n) (length array) then ok (take n (drop len array) ++ drop n array) else fault

-- Without room for the message it sleeps, and alone it sleeps for ever. `wslay_is_ctrl_frame` is a
-- parameter.
unfoldable pub on_msg_recv_callback : (ℕ → Bool) → Inbox → MsgArg → Outcome Inbox
unfolding memcpy_to
on_msg_recv_callback is_ctrl_frame ws arg =
    if is_ctrl_frame arg.opcode
    then ok ws
    else if leb (length arg.msg) (recv_capacity - ws.recv_size)
    then (do
      recv_buf ← memcpy_to ws.recv_size arg.msg ws.recv_buf
      ok (record { recv_buf = recv_buf; recv_size = ws.recv_size + length arg.msg }))
    else out_of_fuel

-- What is copied to `data`, whose length is what is returned.
unfoldable pub websocket_recv : Inbox → ℤ → Outcome (Bytes × Inbox)
unfolding memcpy_from memmove_down
websocket_recv ws (negsuc _) = if ltb 0 ws.recv_size then fault else ok ([], ws)
websocket_recv ws (pos size) =
    if ltb 0 ws.recv_size
    then if ltb size ws.recv_size
      then (do
        out ← memcpy_from size ws.recv_buf
        recv_buf ← memmove_down size (ws.recv_size - size) ws.recv_buf
        ok (out, record { recv_buf = recv_buf; recv_size = ws.recv_size - size }))
      else (do out ← memcpy_from ws.recv_size ws.recv_buf; ok (out, record ws { recv_size = 0 }))
    else ok ([], ws)
