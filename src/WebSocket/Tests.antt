-- ===== src/WebSocket/Tests.antt =====
-- utils/websocket.c at small texts.
use mathlib.Core.Path.{refl, ◌≡◌}
use ken_code_de_bridge.Base.{Bytes, [], arith, codes, ok, some, true, ◌++◌, ◌∷◌}
use ken_code_de_bridge.WebSocket.{
  header_end, http_handshake, interrupted, line_end, recv_http_handshake, send_http_handshake,
  websocket_create_acceptkey, wrote,
}
use ken_code_de_bridge.WebSocket.Checks.{Accepts, http_handshake-Accepts}
use ken_code_de_bridge.WebSocket.Requests.{AsksWith}
use ken_code_de_bridge.Base64.{base64_encode}
use ken_code_de_bridge.WebSocket.Sends.{send_http_handshake-all}

send_http_handshake-all_example :
    send_http_handshake (wrote 2 ∷ interrupted ∷ wrote 3 ∷ []) (codes "hello") []
    ≡ ok (true, codes "hello")
send_http_handshake-all_example =
    send_http_handshake-all (wrote 2 ∷ interrupted ∷ wrote 3 ∷ []) (codes "hello") []
      (ground arith, (ground arith, tt)) (ground arith)

-- The header may come in pieces.
header_in_pieces :
    recv_http_handshake (some (codes "a" ++ 13 ∷ 10 ∷ []) ∷ some (13 ∷ 10 ∷ codes "b") ∷ []) []
    ≡ ok (true, codes "a" ++ header_end ++ codes "b")
unfolding recv_http_handshake
header_in_pieces = refl

-- A digest that is always the same, and an answer with its text in the field.
abbrev pub constant : Bytes → Bytes
constant text = 1 ∷ 2 ∷ 3 ∷ []

abbrev pub answer_read : Bytes
answer_read =
    codes "HTTP/1.1 101"
    ++ (13 ∷ 10 ∷ codes "Sec-WebSocket-Accept: AQID" ++ (13 ∷ 10 ∷ 13 ∷ 10 ∷ codes "hi"))

abbrev pub key_sent : Bytes
key_sent = codes "MDEyMzQ1Njc4OWFiY2RlZg=="

abbrev pub request_sent : Bytes
request_sent =
    codes "GET / HTTP/1.1"
    ++ line_end
    ++ codes "Host: host:80"
    ++ line_end
    ++ codes "Upgrade: websocket"
    ++ line_end
    ++ codes "Connection: Upgrade"
    ++ line_end
    ++ codes "Sec-WebSocket-Key: "
    ++ key_sent
    ++ line_end
    ++ codes "Sec-WebSocket-Version: 13"
    ++ header_end

pub shakes :
    http_handshake constant
      (wrote 4096 ∷ [])
      (some answer_read ∷ [])
      (codes "host")
      (codes "80")
      (codes "/")
      (codes "0123456789abcdef")
    ≡ ok (request_sent, some (codes "hi"))
unfolding http_handshake
shakes = refl

http_handshake-Accepts_example :
    AsksWith key_sent request_sent
    × ((header : Bytes) × (recv_http_handshake (some answer_read ∷ []) [] ≡ ok (true, header))
        × Accepts (websocket_create_acceptkey constant key_sent) header (codes "hi"))
unfolding base64_encode
http_handshake-Accepts_example =
    http_handshake-Accepts constant (wrote 4096 ∷ []) (some answer_read ∷ []) (codes "host")
      (codes "80") (codes "/") (codes "0123456789abcdef") request_sent (codes "hi") shakes
      (ground arith)
