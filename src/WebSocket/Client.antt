-- ===== src/WebSocket/Client.antt =====
-- utils/websocket.c: a client from its connection to its calls. The rest of wslay is a parameter.
pub mod Calls
pub mod First
pub mod Leaks
pub mod Thread
use ken_code_de_bridge.WebSocket.{Write, http_handshake}
use ken_code_de_bridge.Base.{
  Bool, Bytes, List, Option, Outcome, [], false, fault, if◌then◌else◌, leb, length, ltb, negsuc,
  none, ok, out_of_fuel, pos, some, suc, true, zero, ℕ, ℤ, ◌+◌, ◌>>=◌, ◌||◌, ◌∷◌,
}
use ken_code_de_bridge.WebSocket.Buffer.{Inbox, MsgArg, on_msg_recv_callback, websocket_recv}
use ken_code_de_bridge.WebSocket.Sockets.{
  Address, Descriptors, Sys, close, connect_to, make_non_block,
}

-- `struct WebSocketClient`, without the thread; `/dev/urandom` may be nothing, for -1.
pub record WebSocketClient : Type 0 where
  pub fd : ℕ
  pub body : Bytes
  pub body_off : ℕ
  pub dev_urand : Option ℕ
  pub inbox : Inbox

-- The memory that `malloc` gives for the client, with what its array holds, and for its body.
pub record Memory : Type 0 where
  pub client : Option Bytes
  pub body_there : Bool

abbrev pub and_open : Option ℕ → Descriptors → Descriptors
and_open none fds = fds
and_open (some fd) fds = fd ∷ fds

client_in :
    Option Bytes → Bool → Option ℕ → ℕ → Bytes → Descriptors → Option WebSocketClient × Descriptors
client_in none body_there urandom fd body fds = (none, fds)
client_in (some array) false urandom fd body fds = (none, fds)
client_in (some array) true urandom fd body fds = (
  some (record {
    fd = fd;
    body = body;
    body_off = 0;
    dev_urand = urandom;
    inbox = record { recv_buf = array; recv_size = 0 };
  }),
  and_open urandom fds,
)

unfoldable pub websocket_client_new :
    Memory → Option ℕ → ℕ → Bytes → Descriptors → Option WebSocketClient × Descriptors
unfolding client_in
websocket_client_new memory = client_in memory.client memory.body_there

-- The socket is shut down, and not closed. `pth` must be a thread.
unfoldable pub websocket_client_free : Bool → WebSocketClient → Descriptors → Outcome Descriptors
unfolding close
websocket_client_free is_thread client fds =
    if is_thread then ok (elim client.dev_urand [ none ↦ fds | some fd ↦ close fd fds ]) else fault

-- What the first `wslay_event_recv` does with the body: its result, `body_off` behind it, and the
-- messages that it hands to `on_msg_recv_callback`, in order.
pub record FirstRead : Type 0 where
  pub result : ℤ
  pub body_off : ℕ
  pub messages : List MsgArg

-- What the rest of the system answers to `websocket_connect`.
pub record World : Type 0 where
  pub addresses : Option (List Address)
  pub writes : List Write
  pub reads : List (Option Bytes)
  pub sha1 : Bytes → Bytes
  pub random16 : Bytes
  pub getfl : List (Sys ℕ)
  pub setfl : List (Sys (Unit {0}))
  pub nodelay : Bool
  pub memory : Memory
  pub urandom : Option ℕ
  pub wslay_event_recv : Bytes → FirstRead
  pub wslay_is_ctrl_frame : ℕ → Bool
  pub pthread_created : Bool

abbrev pub is_minus_one : ℤ → Bool
is_minus_one (negsuc zero) = true
is_minus_one other = false

-- Without room in the array the callback sleeps, and no other thread empties it yet.
unfoldable pub delivered : (ℕ → Bool) → Inbox → List MsgArg → Outcome Inbox
unfolding on_msg_recv_callback
delivered is_ctrl_frame inbox [] = ok inbox
delivered is_ctrl_frame inbox (arg ∷ messages) = do
  after ← on_msg_recv_callback is_ctrl_frame inbox arg
  delivered is_ctrl_frame after messages

module _ (w : World) where
  started : WebSocketClient → Descriptors → Outcome (Option WebSocketClient × Descriptors)
  unfolding websocket_client_free
  started ws fds =
      if w.pthread_created
      then ok (some ws, fds)
      else (do after ← websocket_client_free false ws fds; ok (none, after))

  first_read : Option WebSocketClient × Descriptors → Outcome (Option WebSocketClient × Descriptors)
  unfolding started delivered
  first_read (none, fds) = fault
  first_read (some ws, fds) =
      let read = w.wslay_event_recv ws.body in
      do
        inbox ← delivered w.wslay_is_ctrl_frame ws.inbox read.messages
        if is_minus_one read.result
            then ok (none, fds)
            else started (record ws { body_off = read.body_off; inbox = inbox }) fds

  shaken : ℕ → Descriptors → Option Bytes → Outcome (Option WebSocketClient × Descriptors)
  unfolding first_read make_non_block websocket_client_new close
  shaken fd fds none = ok (none, close fd fds)
  shaken fd fds (some body) = do
    _ ← make_non_block w.getfl w.setfl
    if w.nodelay
        then first_read (websocket_client_new w.memory w.urandom fd body fds)
        else ok (none, fds)

  reached :
      Bytes
      → Bytes
      → Bytes
      → Option ℕ × Descriptors
      → Outcome (Option WebSocketClient × Descriptors)
  unfolding shaken http_handshake
  reached host service path (none, fds) = ok (none, fds)
  reached host service path (some fd, fds) = do
    (request, body) ← http_handshake w.sha1 w.writes w.reads host service path w.random16
    shaken fd fds body

  -- The client, or nothing for NULL, and the descriptors that are open.
  unfoldable pub websocket_connect :
      Bytes → Bytes → Bytes → Descriptors → Outcome (Option WebSocketClient × Descriptors)
  unfolding reached connect_to
  websocket_connect host service path fds = do
    found ← connect_to w.addresses fds
    reached host service path found

-- A message is queued, as a binary frame, whose opcode is 2.
unfoldable pub websocket_send : {Q : Type 0} → (Q → ℕ → Bytes → Q) → Q → Bytes → Q × ℕ
websocket_send wslay_event_queue_msg queue message =
    (wslay_event_queue_msg queue 2 message, length message)

-- `size - 1`
abbrev pub one_less : ℕ → ℤ
one_less zero = negsuc 0
one_less (suc n) = pos n

-- The loop: what a poll finds in the client, and the second of the clock behind it. What is there is
-- taken, as far as it leaves a byte for the NUL.
unfoldable pub call_loop : ℕ → ℕ → List (Inbox × ℕ) → Outcome (Bytes × Inbox)
unfolding websocket_recv
call_loop size deadline [] = out_of_fuel
call_loop size deadline ((ws, now) ∷ polls) =
    let rest = call_loop size deadline polls in
    do
      (text, after) ← websocket_recv ws (one_less size)
      if ltb 0 (length text) || leb deadline now then ok (text, after) else rest

-- The messages that are left to send, and the answer.
unfoldable pub websocket_call :
    {Q : Type 0}
    → (Q → ℕ → Bytes → Q)
    → Q
    → Bytes
    → ℕ
    → ℕ
    → ℕ
    → List (Inbox × ℕ)
    → Outcome (Q × (Bytes × Inbox))
unfolding websocket_send call_loop
websocket_call wslay_event_queue_msg queue json size timeout init polls =
    let (sent, _) = websocket_send wslay_event_queue_msg queue json in
    do answer ← call_loop size (init + timeout) polls; ok (sent, answer)
