-- ===== src/WebSocket/Checks.antt =====
-- What a successful handshake has seen.
use mathlib.Core.Path.{subst}
use ken_code_de_bridge.WebSocket.Search.{Earliest, strstr-Earliest, strstr-split}
use ken_code_de_bridge.WebSocket.Requests.{
  AsksWith, request_text-AsksWith, send_http_handshake-whole,
}
use ken_code_de_bridge.Base64.{base64_encode}
use ken_code_de_bridge.Base.{
  >>=-eq-ok, Bool, Bool-cases, Bytes, List, Option, Outcome, [], ap, arith, codes, equal, equal_iff,
  false, if◌then◌else◌, inl, inr, length, none, ok, refl, snprintf, some, sym, take-all, true, ◌++◌,
  ◌<◌, ◌>>=◌, ◌∙◌, ◌≡◌,
}
use ken_code_de_bridge.WebSocket.{
  Write, body_behind, checked_body, header_end, http_handshake, key_checked, line_end,
  recv_http_handshake, request_text, send_http_handshake, strstr, websocket_create_acceptkey,
}

-- The first field of the answer has the key that is asked for, up to the end of its line, and the body
-- is what stands behind the first empty line.
pub record Accepts (accept resheader body : Bytes) : Type 0 where
  pub front : Bytes
  pub after : Bytes
  pub field :
      resheader ≡ front ++ (codes "Sec-WebSocket-Accept: " ++ (accept ++ (line_end ++ after)))
  pub header : Bytes
  pub ended : resheader ≡ header ++ (header_end ++ body)
  pub first_field :
      Earliest
        (codes "Sec-WebSocket-Accept: ")
        front
        (codes "Sec-WebSocket-Accept: " ++ (accept ++ (line_end ++ after)))
  pub first_end : Earliest header_end header (header_end ++ body)

body_behind-there :
    (end : Option (Bytes × Bytes)) (body : Bytes)
    → body_behind end ≡ some body
    → (header : Bytes) × (end ≡ some (header, body))
unfolding body_behind
body_behind-there none body h = cc
body_behind-there (some (header, body')) body h = (header, cc h)

key_checked-there :
    (accept resheader body : Bytes) (line : Option (Bytes × Bytes))
    → key_checked accept resheader line ≡ some body
    → (after : Bytes) × (header : Bytes) × (line ≡ some (accept, after))
      × (strstr header_end resheader ≡ some (header, body))
unfolding key_checked
key_checked-there accept resheader body none h = cc
key_checked-there accept resheader body (some (accept_key, after)) h =
    elim (Bool-cases (equal accept_key accept)) [
      | inr f ↦ cc (rw f at h)
      | inl t ↦
          let (header, e) = body_behind-there (strstr header_end resheader) body (rw t at h) in
          let key : accept_key ≡ accept = (equal_iff accept_key accept).0 t in
          (after, header, ap (λ x. some (x, after)) key, e)
    ]

checked_body-Accepts :
    (accept resheader body : Bytes) (field : Option (Bytes × Bytes))
    → strstr (codes "Sec-WebSocket-Accept: ") resheader ≡ field
    → checked_body accept resheader field ≡ some body
    → Accepts accept resheader body
unfolding checked_body
checked_body-Accepts accept resheader body none found h = cc
checked_body-Accepts accept resheader body (some (front, behind)) found h =
    let (after, header, line, end) =
      key_checked-there accept resheader body (strstr line_end behind) h in
    record {
      front = front;
      after = after;
      field =
          strstr-split (codes "Sec-WebSocket-Accept: ") resheader front behind found
          ∙ ap (λ x. front ++ (codes "Sec-WebSocket-Accept: " ++ x))
              (strstr-split line_end behind accept after line);
      header = header;
      ended = strstr-split header_end resheader header body end;
      first_field =
          subst
            (λ x.
              Earliest (codes "Sec-WebSocket-Accept: ") front (codes "Sec-WebSocket-Accept: " ++ x))
            (strstr-split line_end behind accept after line)
            (strstr-Earliest (codes "Sec-WebSocket-Accept: ") resheader front behind found);
      first_end = strstr-Earliest header_end resheader header body end;
    }

module _ (reads : List (Option Bytes)) (accept body : Bytes) where
  received-Accepts :
      (received : Bool) (resheader : Bytes)
      → recv_http_handshake reads [] ≡ ok (received, resheader)
      → ◌≡◌ {A = Outcome (Option Bytes)}
          (ok (
            if received
            then checked_body accept resheader (strstr (codes "Sec-WebSocket-Accept: ") resheader)
            else none))
          (ok (some body))
      → (header : Bytes) × (recv_http_handshake reads [] ≡ ok (true, header))
        × Accepts accept header body
  received-Accepts false resheader e h = cc
  received-Accepts true resheader e h =
      (resheader, e, checked_body-Accepts accept resheader body _ refl (cc h))

  -- What the handshake makes of the text that it has read.
  abbrev behind_read : Bytes → Bool × Bytes → Outcome (Bytes × Option Bytes)
  behind_read request (received, resheader) = ok (
    request,
    if received
        then checked_body accept resheader (strstr (codes "Sec-WebSocket-Accept: ") resheader)
        else none,
  )

  sent-Accepts :
      (sent : Bool) (request out : Bytes)
      → ((if sent then recv_http_handshake reads [] else ok (false, [])) >>= behind_read request)
        ≡ ok (out, some body)
      → (sent ≡ true)
        × (out ≡ request)
        × ((header : Bytes) × (recv_http_handshake reads [] ≡ ok (true, header))
            × Accepts accept header body)
  sent-Accepts false request out h = cc
  sent-Accepts true request out h =
      let ((received, resheader), e, h') = >>=-eq-ok (recv_http_handshake reads []) _ h in
      (refl, same_out _ _ h', received-Accepts received resheader e (same_body _ _ h'))
    where
      same_out :
          (r b : Option Bytes)
          → ◌≡◌ {A = Outcome (Bytes × Option Bytes)} (ok (request, r)) (ok (out, b))
          → out ≡ request
      same_out r b e = cc e

      same_body :
          (r b : Option Bytes)
          → ◌≡◌ {A = Outcome (Bytes × Option Bytes)} (ok (request, r)) (ok (out, b))
          → ◌≡◌ {A = Outcome (Option Bytes)} (ok r) (ok b)
      same_body r b e = cc e

-- A handshake that gives a body has sent a request with the base64 text of the sixteen random bytes as
-- its key, if its text fits the array of 4096 bytes, and has read a text whose first field for the
-- server's key has the one that belongs to it, up to the end of its line; the body is what stands
-- behind the first empty line.
pub http_handshake-Accepts :
    (sha1 : Bytes → Bytes) (writes : List Write) (reads : List (Option Bytes))
    (host service path random16 request body : Bytes)
    → http_handshake sha1 writes reads host service path random16 ≡ ok (request, some body)
    → length (request_text host service path (base64_encode random16 false)) < 4096
    → AsksWith (base64_encode random16 false) request
      × ((header : Bytes) × (recv_http_handshake reads [] ≡ ok (true, header))
          × Accepts (websocket_create_acceptkey sha1 (base64_encode random16 false)) header body)
unfolding http_handshake
http_handshake-Accepts sha1 writes reads host service path random16 request body h room =
    let key = base64_encode random16 false in
    let text = snprintf 4096 (request_text host service path key) in
    let ((sent, out), e, h') = >>=-eq-ok (send_http_handshake writes text []) _ h in
    let (done_, same, accepted) =
      sent-Accepts reads (websocket_create_acceptkey sha1 key) body sent out request h' in
    let whole : request ≡ text =
      same ∙ send_http_handshake-whole writes text [] out (e ∙ ap (λ b. ok (b, out)) done_) in
    let uncut : text ≡ request_text host service path key =
      take-all 4095 (request_text host service path key) (omega arith) in
    (
      subst (AsksWith key) (sym (whole ∙ uncut)) (request_text-AsksWith host service path key),
      accepted,
    )
