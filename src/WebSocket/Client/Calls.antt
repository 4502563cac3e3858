-- ===== src/WebSocket/Client/Calls.antt =====
-- The loop of `websocket_call`.
use ken_code_de_bridge.Base.{
  Bytes, List, [], arith, drop, false, inl, inr, leb, length, length-take, ltb, ok, suc, take, true,
  ℕ, ◌++◌, ◌+◌, ◌<◌, ◌||◌, ◌∙◌, ◌∷◌, ◌≡◌, ◌≤◌, ◌⊎◌,
}
use ken_code_de_bridge.WebSocket.Buffer.{Inbox, websocket_recv}
use ken_code_de_bridge.WebSocket.Buffer.Contents.{Holds, Holds-length}
use ken_code_de_bridge.WebSocket.Buffer.Queue.{websocket_recv-Holds}
use ken_code_de_bridge.WebSocket.Client.{call_loop, websocket_call, websocket_send}

-- A poll that finds nothing, before the deadline.
abbrev pub AllEarly : ℕ → List (Inbox × ℕ) → Type 0
AllEarly deadline [] = Unit
AllEarly deadline ((ws, now) ∷ polls) =
    (ws.recv_size ≡ 0) × ((now < deadline) × AllEarly deadline polls)

early_round :
    (recv_buf : Bytes) (recv_size size deadline now : ℕ) (polls : List (Inbox × ℕ))
    → recv_size ≡ 0
    → now < deadline
    → call_loop
        (suc size)
        deadline
        ((record { recv_buf = recv_buf; recv_size = recv_size }, now) ∷ polls)
      ≡ call_loop (suc size) deadline polls
unfolding call_loop websocket_recv
early_round recv_buf recv_size size deadline now polls nothing early =
    let none_there : ltb 0 recv_size ≡ false = ground arith in
    let in_time : leb deadline now ≡ false = ground arith in rw (none_there, in_time)

stops_by : (n deadline now : ℕ) → (0 < n) ⊎ (deadline ≤ now) → (ltb 0 n || leb deadline now) ≡ true
stops_by n deadline now (inl h) = ground arith
stops_by n deadline now (inr h) = ground arith

deciding_poll :
    (ws : Inbox) (queue : Bytes) (size deadline now : ℕ) (later : List (Inbox × ℕ))
    → Holds ws queue
    → (0 < ws.recv_size) ⊎ (deadline ≤ now)
    → 0 < size
    → (after : Inbox) × (call_loop (suc size) deadline ((ws, now) ∷ later)
        ≡ ok (take size queue, after))
      × Holds after (drop size queue)
unfolding call_loop
deciding_poll ws queue size deadline now later holds ends room =
    let (after, given, kept) = websocket_recv-Holds ws queue size holds in
    let sized = Holds-length ws queue holds in
    let taken_size = length-take size queue in
    let stops : (ltb 0 (length (take size queue)) || leb deadline now) ≡ true =
      stops_by (length (take size queue)) deadline now
        (elim ends [ inl some_there ↦ inl (omega arith) | inr late ↦ inr late ]) in
    (after, rw (given, stops), kept)

-- The poll that ends a loop, behind those that find nothing.
pub call_loop-first :
    (early : List (Inbox × ℕ)) (ws : Inbox) (queue : Bytes) (size deadline now : ℕ)
    (later : List (Inbox × ℕ))
    → AllEarly deadline early
    → Holds ws queue
    → (0 < ws.recv_size) ⊎ (deadline ≤ now)
    → 0 < size
    → (after : Inbox) × (call_loop (suc size) deadline (early ++ (ws, now) ∷ later)
        ≡ ok (take size queue, after))
      × Holds after (drop size queue)
call_loop-first [] ws queue size deadline now later h holds ends room =
    deciding_poll ws queue size deadline now later holds ends room
call_loop-first ((w, n) ∷ early) ws queue size deadline now later (nothing, (in_time, h)) holds ends
      room =
    let (after, e, kept) =
      call_loop-first early ws queue size deadline now later h holds ends room in
    (
      after,
      early_round w.recv_buf w.recv_size size deadline n (early ++ (ws, now) ∷ later) nothing
            in_time
          ∙ e,
      kept,
    )

call_round :
    {Q : Type 0} (queue_msg : Q → ℕ → Bytes → Q) (unsent : Q) (json : Bytes) (size timeout init : ℕ)
    (polls : List (Inbox × ℕ)) (answer : Bytes × Inbox)
    → call_loop size (init + timeout) polls ≡ ok answer
    → websocket_call queue_msg unsent json size timeout init polls
      ≡ ok (queue_msg unsent 2 json, answer)
unfolding websocket_call websocket_send
call_round queue_msg unsent json size timeout init polls answer e = rw e

-- A call with a size of 2 or more queues its text as one message, and ends with the first poll that
-- finds a byte or comes `timeout` seconds behind the start: it gives the first bytes of what that poll
-- finds, one less than the size at most, and leaves the others; a poll before it takes nothing.
pub websocket_call-first :
    {Q : Type 0} (queue_msg : Q → ℕ → Bytes → Q) (unsent : Q) (json : Bytes) (size timeout init : ℕ)
    (early : List (Inbox × ℕ)) (ws : Inbox) (queue : Bytes) (now : ℕ) (later : List (Inbox × ℕ))
    → AllEarly (init + timeout) early
    → Holds ws queue
    → (0 < ws.recv_size) ⊎ (init + timeout ≤ now)
    → 0 < size
    → (after : Inbox) × (websocket_call queue_msg unsent json
          (suc size)
          timeout
          init
          (early ++ (ws, now) ∷ later)
        ≡ ok (queue_msg unsent 2 json, (take size queue, after)))
      × Holds after (drop size queue)
websocket_call-first queue_msg unsent json size timeout init early ws queue now later h holds ends
      room =
    let (after, e, kept) =
      call_loop-first early ws queue size (init + timeout) now later h holds ends room in
    (
      after,
      call_round queue_msg unsent json (suc size) timeout init (early ++ (ws, now) ∷ later)
          (take size queue, after) e,
      kept,
    )
