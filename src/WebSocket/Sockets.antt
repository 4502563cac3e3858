-- ===== src/WebSocket/Sockets.antt =====
-- utils/websocket.c: the calls on a socket, from the connection to what wslay reads and writes by its
-- callbacks. What the system answers is a list, in order; a call that no answer is left for waits for
-- ever. The open descriptors are a list, the last one opened in front.
pub mod Answers
use ken_code_de_bridge.Base.{
  Bool, Bytes, List, Option, Outcome, [], false, if◌then◌else◌, none, ok, out_of_fuel, some, true,
  ℕ, ◌==◌, ◌>>=◌, ◌∷◌,
}

-- `errno` behind a -1.
pub data Errno : Type 0 where
  eintr : Errno
  eagain : Errno
  ewouldblock : Errno
  other_errno : Errno

-- -1, or what a call gives.
pub data Sys (A : Type 0) : Type 0 where
  failed_with : Errno → Sys A
  gave : A → Sys A

-- The loops that try again after a signal.
unfoldable pub retried : {A : Type 0} → List (Sys A) → Outcome (Sys A)
retried [] = out_of_fuel
retried (failed_with eintr ∷ answers) = retried answers
retried (answer ∷ answers) = ok answer

-- `wslay_event_set_error`, with the errors that are set.
pub data WslayError : Type 0 where
  err_wouldblock : WslayError
  err_callback_failure : WslayError

abbrev pub error_of : Errno → WslayError
error_of eagain = err_wouldblock
error_of ewouldblock = err_wouldblock
error_of other = err_callback_failure

-- `send`, with `MSG_MORE` where wslay has more to send; `MSG_MORE` is defined.
unfoldable pub websocket_client_send_data : (Bool → List (Sys ℕ)) → Bool → Outcome (Sys ℕ)
unfolding retried
websocket_client_send_data send more = retried (send more)

sent_result : Sys ℕ → Option ℕ × Option WslayError
sent_result (failed_with e) = (none, some (error_of e))
sent_result (gave r) = (some r, none)

-- What is returned, with nothing for -1, and the error that is set.
unfoldable pub send_callback : (Bool → List (Sys ℕ)) → Bool → Outcome (Option ℕ × Option WslayError)
unfolding websocket_client_send_data sent_result
send_callback send more = do r ← websocket_client_send_data send more; ok (sent_result r)

-- `recv`, which gives no byte at the end of the stream.
unfoldable pub websocket_client_recv_data : List (Sys Bytes) → Outcome (Sys Bytes)
unfolding retried
websocket_client_recv_data recv = retried recv

received_result : Sys Bytes → Option Bytes × Option WslayError
received_result (failed_with e) = (none, some (error_of e))
received_result (gave []) = (none, some err_callback_failure)
received_result (gave (c ∷ bytes)) = (some (c ∷ bytes), none)

unfoldable pub recv_callback : List (Sys Bytes) → Outcome (Option Bytes × Option WslayError)
unfolding websocket_client_recv_data received_result
recv_callback recv = do r ← websocket_client_recv_data recv; ok (received_result r)

-- An address that `getaddrinfo` gives: what `socket` gives for it, and `connect`.
pub record Address : Type 0 where
  pub socket : Option ℕ
  pub connect : List (Sys (Unit {0}))

abbrev pub Descriptors : Type 0
Descriptors = List ℕ

unfoldable pub close : ℕ → Descriptors → Descriptors
close fd [] = []
close fd (other ∷ fds) = let later = close fd fds in if other == fd then fds else other ∷ later

-- The loop over the addresses, up to the first that a connection to succeeds.
module _ (next : Descriptors → Outcome (Option ℕ × Descriptors)) where
  connected : ℕ → Descriptors → Sys (Unit {0}) → Outcome (Option ℕ × Descriptors)
  unfolding close
  connected fd fds (failed_with e) = next (close fd (fd ∷ fds))
  connected fd fds (gave _) = ok (some fd, fd ∷ fds)

  tried : List (Sys (Unit {0})) → Descriptors → Option ℕ → Outcome (Option ℕ × Descriptors)
  unfolding retried connected
  tried connect fds none = next fds
  tried connect fds (some fd) = do r ← retried connect; connected fd fds r

unfoldable pub connect_loop : List Address → Descriptors → Outcome (Option ℕ × Descriptors)
unfolding tried
connect_loop [] fds = ok (none, fds)
connect_loop (rp ∷ res) fds = tried (λ rest. connect_loop res rest) rp.connect fds rp.socket

-- The connected socket, with nothing for -1; `getaddrinfo` gives nothing where it fails.
unfoldable pub connect_to : Option (List Address) → Descriptors → Outcome (Option ℕ × Descriptors)
unfolding connect_loop
connect_to none fds = ok (none, fds)
connect_to (some res) fds = connect_loop res fds

set_flags : List (Sys (Unit {0})) → Sys ℕ → Outcome Bool
unfolding retried
set_flags setfl (failed_with e) = ok false
set_flags setfl (gave flags) = do
  r ← retried setfl
  ok (elim r [ failed_with e ↦ false | gave _ ↦ true ])

-- Whether the socket no longer blocks.
unfoldable pub make_non_block : List (Sys ℕ) → List (Sys (Unit {0})) → Outcome Bool
unfolding retried set_flags
make_non_block getfl setfl = do flags ← retried getfl; set_flags setfl flags
