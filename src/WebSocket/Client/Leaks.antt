-- ===== src/WebSocket/Client/Leaks.antt =====
-- The descriptors that `websocket_connect` leaves open.
use ken_code_de_bridge.WebSocket.Buffer.{Inbox}
use ken_code_de_bridge.Base.{Bytes, Option, Outcome, if◌then◌else◌, none, ok, some, ℕ, ◌∷◌}
use ken_code_de_bridge.WebSocket.Sockets.{Descriptors}
use ken_code_de_bridge.WebSocket.{http_handshake}
use ken_code_de_bridge.WebSocket.Client.{WebSocketClient, World, and_open}

module _ (w : World) (host service path : Bytes) (fds : Descriptors) where
  abbrev handshake : Outcome (Bytes × Option Bytes)
  handshake = http_handshake w.sha1 w.writes w.reads host service path w.random16

  -- What is left open: nothing without a handshake, and the socket behind one, whatever fails. The
  -- client has the bytes in `inbox`.
  pub connect_result :
      Option ℕ → Option Bytes → Inbox → Outcome (Option WebSocketClient × Descriptors)
  connect_result none h inbox = ok (none, fds)
  connect_result (some fd) none inbox = ok (none, fds)
  connect_result (some fd) (some body) inbox =
      if w.nodelay
      then ok (
        some (record {
          fd = fd;
          body = body;
          body_off = (w.wslay_event_recv body).body_off;
          dev_urand = w.urandom;
          inbox = inbox;
        }),
        and_open w.urandom (fd ∷ fds),
      )
      else ok (none, fd ∷ fds)
