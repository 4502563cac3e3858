-- ===== src/WebSocket.antt =====
-- utils/websocket.c: the handshake of the client. A socket is the results of the calls on it, in
-- order; a call that none is left for waits for ever. SHA-1 is a parameter, and so are the sixteen
-- random bytes of the key.
pub mod Sends
pub mod Search
pub mod Requests
pub mod Checks
pub mod Buffer
pub mod Threads
pub mod Random
pub mod Digest
pub mod Sockets
pub mod Client
mod Tests
mod Runs
use ken_code_de_bridge.Base.{
  Bool, Bytes, List, Option, Outcome, [], codes, drop, equal, false, fault, if◌then◌else◌,
  is_prefix, leb, length, ltb, none, ok, out_of_fuel, snprintf, some, take, true, ℕ, ◌++◌, ◌+◌,
  ◌>>=◌, ◌∷◌,
}
use ken_code_de_bridge.Base64.{base64_encode}

-- `write`: interrupted (EINTR), another error, or the number of bytes that were taken.
pub data Write : Type 0 where
  interrupted : Write
  failed : Write
  wrote : ℕ → Write

-- What is left is sent, as long as anything is: the flag is the returned 0, beside the bytes sent.
unfoldable pub send_http_handshake : List Write → Bytes → Bytes → Outcome (Bool × Bytes)
send_http_handshake writes [] sent = ok (true, sent)
send_http_handshake [] (c ∷ left) sent = out_of_fuel
send_http_handshake (interrupted ∷ writes) (c ∷ left) sent =
    send_http_handshake writes (c ∷ left) sent
send_http_handshake (failed ∷ writes) (c ∷ left) sent = ok (false, sent)
send_http_handshake (wrote r ∷ writes) (c ∷ left) sent =
    send_http_handshake writes (drop r (c ∷ left)) (sent ++ take r (c ∷ left))

-- `strstr`: what stands in front of the first occurrence, and behind it.
abbrev in_front : ℕ → Option (Bytes × Bytes) → Option (Bytes × Bytes)
in_front c none = none
in_front c (some (front, behind)) = some (c ∷ front, behind)

unfoldable pub strstr : Bytes → Bytes → Option (Bytes × Bytes)
unfolding is_prefix
strstr needle [] = if is_prefix needle [] then some ([], []) else none
strstr needle (c ∷ text) =
    let later = strstr needle text in
    if is_prefix needle (c ∷ text)
    then some ([], drop (length needle) (c ∷ text))
    else in_front c later

abbrev pub line_end : Bytes
line_end = 13 ∷ 10 ∷ []

abbrev pub header_end : Bytes
header_end = 13 ∷ 10 ∷ 13 ∷ 10 ∷ []

abbrev is_found : Option (Bytes × Bytes) → Bool
is_found none = false
is_found (some parts) = true

-- `read` into 4096 bytes, by what it gives but for interruptions; `none` is an error. The NUL behind
-- a read that fills the array is written past its end.
unfoldable pub recv_http_handshake : List (Option Bytes) → Bytes → Outcome (Bool × Bytes)
unfolding strstr
recv_http_handshake [] resheader = out_of_fuel
recv_http_handshake (none ∷ reads) resheader = ok (false, resheader)
recv_http_handshake (some [] ∷ reads) resheader = ok (false, resheader)
recv_http_handshake (some (c ∷ buf) ∷ reads) resheader =
    let rest = recv_http_handshake reads (resheader ++ c ∷ buf) in
    if leb 4096 (length (c ∷ buf))
    then fault
    else if ltb 8192 (length resheader + length (c ∷ buf) + 1)
    then ok (false, resheader)
    else if is_found (strstr header_end (resheader ++ c ∷ buf))
    then ok (true, resheader ++ c ∷ buf)
    else rest

-- The key of the server, from the client's.
unfoldable pub websocket_create_acceptkey : (Bytes → Bytes) → Bytes → Bytes
unfolding base64_encode
websocket_create_acceptkey sha1 clientkey =
    base64_encode
      (sha1 (
        snprintf (length clientkey + 40)
          (clientkey ++ codes "258EAFA5-E914-47DA-95CA-C5AB0DC85B11")))
      false

abbrev request_text : Bytes → Bytes → Bytes → Bytes → Bytes
request_text host service path client_key =
    codes "GET "
    ++ path
    ++ codes " HTTP/1.1"
    ++ line_end
    ++ codes "Host: "
    ++ host
    ++ codes ":"
    ++ service
    ++ line_end
    ++ codes "Upgrade: websocket"
    ++ line_end
    ++ codes "Connection: Upgrade"
    ++ line_end
    ++ codes "Sec-WebSocket-Key: "
    ++ client_key
    ++ line_end
    ++ codes "Sec-WebSocket-Version: 13"
    ++ line_end
    ++ line_end

-- The body behind the header, where the key of the answer is the one that is asked for.
body_behind : Option (Bytes × Bytes) → Option Bytes
body_behind none = none
body_behind (some (header, body)) = some body

key_checked : Bytes → Bytes → Option (Bytes × Bytes) → Option Bytes
key_checked accept resheader none = none
key_checked accept resheader (some (accept_key, after)) =
    if equal accept_key accept then body_behind (strstr header_end resheader) else none

checked_body : Bytes → Bytes → Option (Bytes × Bytes) → Option Bytes
checked_body accept resheader none = none
checked_body accept resheader (some (front, behind)) =
    key_checked accept resheader (strstr line_end behind)

-- What is written to the socket, and the body, or nothing where the function returns -1.
unfoldable pub http_handshake :
    (Bytes → Bytes)
    → List Write
    → List (Option Bytes)
    → Bytes
    → Bytes
    → Bytes
    → Bytes
    → Outcome (Bytes × Option Bytes)
unfolding checked_body key_checked body_behind send_http_handshake recv_http_handshake
    websocket_create_acceptkey strstr equal base64_encode
http_handshake sha1 writes reads host service path random16 =
    let client_key = base64_encode random16 false in
    do
      (sent, request) ←
          send_http_handshake writes (snprintf 4096 (request_text host service path client_key)) []
      (received, resheader) ← if sent then recv_http_handshake reads [] else ok (false, [])
      ok (
        request,
        if received
            then checked_body (websocket_create_acceptkey sha1 client_key) resheader
                (strstr (codes "Sec-WebSocket-Accept: ") resheader)
            else none,
      )

-- What the body still gives, and the offset behind it. As many bytes as were asked for are copied,
-- from the start of the body, whose NUL is the last byte that is there.
unfoldable pub websocket_client_feed_body : Bytes → ℕ → ℕ → Outcome (Bytes × ℕ)
websocket_client_feed_body body body_off len =
    let copied =
      if leb len (length body + 1) then ok (take len (body ++ 0 ∷ []), body_off + len) else fault in
    if ltb body_off (length body) then copied else ok ([], body_off)
