-- ===== src/WebSocket/Sends.antt =====
-- The loop of `send_http_handshake`.
use ken_code_de_bridge.Base.{
  Bytes, List, [], ap, append-nil, append_assoc, arith, drop, length, length-drop, ok, refl, take,
  take-append-drop, true, ℕ, ◌++◌, ◌+◌, ◌<◌, ◌∙◌, ◌∷◌, ◌≡◌, ◌≤◌,
}
use ken_code_de_bridge.WebSocket.{Write, failed, interrupted, send_http_handshake, wrote}

-- No write fails, and each that is not interrupted takes a byte at least.
abbrev pub AllTake : List Write → Type 0
AllTake [] = Unit
AllTake (interrupted ∷ writes) = AllTake writes
AllTake (failed ∷ writes) = ⊥
AllTake (wrote r ∷ writes) = (0 < r) × AllTake writes

abbrev pub taken : List Write → ℕ
taken [] = 0
taken (wrote r ∷ writes) = r + taken writes
taken (_ ∷ writes) = taken writes

send_round :
    (writes : List Write) (r c : ℕ) (left sent : Bytes)
    → send_http_handshake (wrote r ∷ writes) (c ∷ left) sent
      ≡ send_http_handshake writes (drop r (c ∷ left)) (sent ++ take r (c ∷ left))
unfolding send_http_handshake
send_round writes r c left sent = refl

send_round_interrupted :
    (writes : List Write) (c : ℕ) (left sent : Bytes)
    → send_http_handshake (interrupted ∷ writes) (c ∷ left) sent
      ≡ send_http_handshake writes (c ∷ left) sent
unfolding send_http_handshake
send_round_interrupted writes c left sent = refl

-- Writes that do not fail, and that take as many bytes as there are, send them all, however they
-- cut them, and however often they are interrupted.
pub send_http_handshake-all :
    (writes : List Write) (left sent : Bytes)
    → AllTake writes
    → length left ≤ taken writes
    → send_http_handshake writes left sent ≡ ok (true, sent ++ left)
send_http_handshake-all writes [] sent h enough = unfold send_http_handshake in rw append-nil
send_http_handshake-all [] (c ∷ left) sent h enough = absurd (omega arith)
send_http_handshake-all (interrupted ∷ writes) (c ∷ left) sent h enough =
    send_round_interrupted writes c left sent
    ∙ send_http_handshake-all writes (c ∷ left) sent h enough
send_http_handshake-all (failed ∷ writes) (c ∷ left) sent h enough = absurd h
send_http_handshake-all (wrote r ∷ writes) (c ∷ left) sent (hr, h) enough =
    send_round writes r c left sent
    ∙ send_http_handshake-all writes (drop r (c ∷ left)) (sent ++ take r (c ∷ left)) h
        (omega (arith, length-drop r (c ∷ left)))
    ∙ ap (λ x. ok (true, x))
        (append_assoc sent (take r (c ∷ left)) (drop r (c ∷ left))
          ∙ ap (λ x. sent ++ x) (take-append-drop r (c ∷ left)))
