-- ===== src/WebSocket/Requests.antt =====
-- `send_http_handshake` and the request of `http_handshake`: what has been written.
use ken_code_de_bridge.Base.{
  Bytes, List, [], ap, append-nil, append_assoc, codes, drop, ok, take, take-append-drop, true,
  ◌++◌, ◌∙◌, ◌∷◌, ◌≡◌,
}
use ken_code_de_bridge.WebSocket.{
  Write, failed, interrupted, line_end, request_text, send_http_handshake, wrote,
}

-- What a successful loop has written is the whole text.
pub send_http_handshake-whole :
    (writes : List Write) (left sent out : Bytes)
    → send_http_handshake writes left sent ≡ ok (true, out)
    → out ≡ sent ++ left
unfolding send_http_handshake
send_http_handshake-whole writes [] sent out h = rw append-nil (cc h)
send_http_handshake-whole [] (c ∷ left) sent out h = cc h
send_http_handshake-whole (interrupted ∷ writes) (c ∷ left) sent out h =
    send_http_handshake-whole writes (c ∷ left) sent out h
send_http_handshake-whole (failed ∷ writes) (c ∷ left) sent out h = cc h
send_http_handshake-whole (wrote r ∷ writes) (c ∷ left) sent out h =
    send_http_handshake-whole writes (drop r (c ∷ left)) (sent ++ take r (c ∷ left)) out h
    ∙ append_assoc sent (take r (c ∷ left)) (drop r (c ∷ left))
    ∙ ap (λ x. sent ++ x) (take-append-drop r (c ∷ left))

-- The request has a key in its field, which is a line of its own.
pub record AsksWith (key request : Bytes) : Type 0 where
  pub front : Bytes
  pub after : Bytes
  pub field :
      request ≡ front ++ (line_end ++ (codes "Sec-WebSocket-Key: " ++ (key ++ (line_end ++ after))))

pub request_text-AsksWith :
    (host service path key : Bytes) → AsksWith key (request_text host service path key)
request_text-AsksWith host service path key = record {
  front =
      codes "GET "
      ++ path
      ++ codes " HTTP/1.1"
      ++ line_end
      ++ codes "Host: "
      ++ host
      ++ codes ":"
      ++ service
      ++ line_end
      ++ codes "Upgrade: websocket"
      ++ line_end
      ++ codes "Connection: Upgrade";
  after = codes "Sec-WebSocket-Version: 13" ++ line_end ++ line_end;
  field = simp append_assoc;
}
