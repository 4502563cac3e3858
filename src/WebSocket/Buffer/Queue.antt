-- ===== src/WebSocket/Buffer/Queue.antt =====
-- The received bytes as a queue of at most 8192 bytes.
use mathlib.Core.Path.{subst}
use ken_code_de_bridge.Base.{
  Bool, Bool-cases, Bytes, List, Outcome, [], ap, arith, drop, drop-all, false, fault,
  if◌then◌else◌, inl, inr, leb, length, ltb, ok, out_of_fuel, pos, refl, sym, take, take-all,
  take-take, true, ℕ, ◌++◌, ◌+◌, ◌-◌, ◌>>=◌, ◌∙◌, ◌∷◌, ◌≡◌, ◌≤◌,
}
use ken_code_de_bridge.WebSocket.Buffer.{
  Inbox, MsgArg, memcpy_from, memcpy_to, memmove_down, on_msg_recv_callback, recv_capacity,
  websocket_recv,
}
use ken_code_de_bridge.WebSocket.Buffer.Contents.{Holds, Holds-arrived, Holds-length, Holds-lowered}

-- What happens to a client: a message arrives, or `size` bytes at most are asked for.
pub data Event : Type 0 where
  arrives : MsgArg → Event
  asks : ℕ → Event

module _ (is_ctrl_frame : ℕ → Bool) where
  -- The bytes that are given out, and the state behind it.
  unfoldable pub inbox_turn : Inbox → Event → Outcome (Bytes × Inbox)
  inbox_turn ws (arrives arg) = do after ← on_msg_recv_callback is_ctrl_frame ws arg; ok ([], after)
  inbox_turn ws (asks size) = websocket_recv ws (pos size)

  -- The same of a queue: a message that does not fit is waited for.
  abbrev pub queue_turn : Bytes → Event → Outcome (Bytes × Bytes)
  queue_turn queue (arrives arg) =
      if is_ctrl_frame arg.opcode
      then ok ([], queue)
      else if leb (length queue + length arg.msg) recv_capacity
      then ok ([], queue ++ arg.msg)
      else out_of_fuel
  queue_turn queue (asks size) = ok (take size queue, drop size queue)

abbrev pub turns :
    {S : Type 0} → (S → Event → Outcome (Bytes × S)) → S → List Event → Outcome (Bytes × S)
turns turn s [] = ok ([], s)
turns turn s (e ∷ events) = do
  (out, mid) ← turn s e
  (later, last) ← turns turn mid events
  ok (out ++ later, last)

-- The same is given out, or both wait; there is no fault.
abbrev pub Agrees : Outcome (Bytes × Inbox) → Outcome (Bytes × Bytes) → Type 0
Agrees (ok (out, ws)) (ok (expected, queue)) = (out ≡ expected) × Holds ws queue
Agrees out_of_fuel out_of_fuel = Unit
Agrees _ _ = ⊥

arrives-Agrees :
    (is_ctrl_frame : ℕ → Bool) (ws : Inbox) (queue : Bytes) (arg : MsgArg)
    → Holds ws queue
    → Agrees
        (inbox_turn is_ctrl_frame ws (arrives arg))
        (queue_turn is_ctrl_frame queue (arrives arg))
unfolding inbox_turn on_msg_recv_callback memcpy_to
arrives-Agrees is_ctrl_frame ws queue arg holds = elim (Bool-cases (is_ctrl_frame arg.opcode)) [
  | inl e ↦ rw e (refl, holds)
  | inr e ↦
      let sized = Holds-length ws queue holds in
      elim (Bool-cases (leb (length arg.msg) (recv_capacity - ws.recv_size))) [
        | inl t ↦
            let inside = holds.inside in
            let whole = holds.whole in
            let fits : ws.recv_size + length arg.msg ≤ recv_capacity = ground arith in
            let room : leb (length queue + length arg.msg) recv_capacity ≡ true = ground arith in
            let copied : leb (ws.recv_size + length arg.msg) (length ws.recv_buf) ≡ true =
              ground arith in
            rw (e, t, room, copied) (refl, Holds-arrived ws queue arg.msg holds fits)
        | inr f ↦
            let inside = holds.inside in
            let room : leb (length queue + length arg.msg) recv_capacity ≡ false = ground arith in
            rw (e, f, room) tt
      ]
]

asks-Agrees :
    (is_ctrl_frame : ℕ → Bool) (ws : Inbox) (queue : Bytes) (size : ℕ)
    → Holds ws queue
    → Agrees (inbox_turn is_ctrl_frame ws (asks size)) (queue_turn is_ctrl_frame queue (asks size))
unfolding inbox_turn websocket_recv memcpy_from memmove_down
asks-Agrees is_ctrl_frame ws queue size holds = elim (Bool-cases (ltb 0 ws.recv_size)) [
  | inl t ↦ elim (Bool-cases (ltb size ws.recv_size)) [
    | inl more ↦
        let inside = holds.inside in
        let whole = holds.whole in
        let copied : leb size (length ws.recv_buf) ≡ true = ground arith in
        let moved : leb (size + (ws.recv_size - size)) (length ws.recv_buf) ≡ true = ground arith in
        rw (t, more, copied, moved)
          (
            sym (take-take size ws.recv_size ws.recv_buf (ground arith))
                ∙ ap (take size) holds.queued,
            Holds-lowered ws queue size holds (ground arith),
          )
    | inr f ↦
        let inside = holds.inside in
        let whole = holds.whole in
        let sized = Holds-length ws queue holds in
        let copied : leb ws.recv_size (length ws.recv_buf) ≡ true = ground arith in
        rw (t, f, copied)
          (
            holds.queued ∙ sym (take-all size queue (ground arith)),
            record {
              whole = whole;
              inside = omega arith;
              queued = sym (drop-all size queue (ground arith));
            },
          )
  ]
  | inr f ↦
      let sized = Holds-length ws queue holds in
      let empty : queue ≡ [] = sym (take-all 0 queue (ground arith)) in
      rw f (
        sym (take-all size queue (ground arith) ∙ empty),
        subst (Holds ws) (empty ∙ sym (drop-all size queue (ground arith))) holds,
      )
]

Agrees-ok :
    (m : Outcome (Bytes × Inbox)) (expected queue : Bytes)
    → Agrees m (ok (expected, queue))
    → (after : Inbox) × (m ≡ ok (expected, after)) × Holds after queue
Agrees-ok (ok (out, ws)) expected queue (same, holds) = (ws, ap (λ x. ok (x, ws)) same, holds)
Agrees-ok fault expected queue h = absurd h
Agrees-ok out_of_fuel expected queue h = absurd h

inbox_turn-asks :
    (ws : Inbox) (size : ℕ) → inbox_turn (λ _. false) ws (asks size) ≡ websocket_recv ws (pos size)
unfolding inbox_turn
inbox_turn-asks ws size = refl

-- The first bytes of the queue are given out.
pub websocket_recv-Holds :
    (ws : Inbox) (queue : Bytes) (size : ℕ)
    → Holds ws queue
    → (after : Inbox) × (websocket_recv ws (pos size) ≡ ok (take size queue, after))
      × Holds after (drop size queue)
websocket_recv-Holds ws queue size holds =
    Agrees-ok (websocket_recv ws (pos size)) (take size queue) (drop size queue) (
      subst (λ m. Agrees m (ok (take size queue, drop size queue))) (inbox_turn-asks ws size)
        (asks-Agrees (λ _. false) ws queue size holds))

module _ (is_ctrl_frame : ℕ → Bool) where
  turn-Agrees :
      (ws : Inbox) (queue : Bytes) (e : Event)
      → Holds ws queue
      → Agrees (inbox_turn is_ctrl_frame ws e) (queue_turn is_ctrl_frame queue e)
  turn-Agrees ws queue (arrives arg) = arrives-Agrees is_ctrl_frame ws queue arg
  turn-Agrees ws queue (asks size) = asks-Agrees is_ctrl_frame ws queue size

  Agrees-bind :
      (m : Outcome (Bytes × Inbox)) (n : Outcome (Bytes × Bytes))
      (f : Bytes × Inbox → Outcome (Bytes × Inbox)) (g : Bytes × Bytes → Outcome (Bytes × Bytes))
      → Agrees m n
      → ((out : Bytes) (ws : Inbox) (queue : Bytes)
          → Holds ws queue
          → Agrees (f (out, ws)) (g (out, queue)))
      → Agrees (m >>= f) (n >>= g)
  Agrees-bind (ok (out, ws)) (ok (expected, queue)) f g (same, holds) next =
      subst (λ x. Agrees (f (out, ws)) (g (x, queue))) same (next out ws queue holds)
  Agrees-bind out_of_fuel out_of_fuel f g h next = tt
  Agrees-bind (ok _) fault f g h next = absurd h
  Agrees-bind (ok _) out_of_fuel f g h next = absurd h
  Agrees-bind fault _ f g h next = absurd h
  Agrees-bind out_of_fuel (ok _) f g h next = absurd h
  Agrees-bind out_of_fuel fault f g h next = absurd h

  -- Whatever messages arrive and are asked for, one at a time, the client gives out the same bytes
  -- as a queue of at most 8192 bytes, in the order of the messages, and it waits where the queue has
  -- no room; no access is outside of its array.
  pub turns-Agrees :
      (ws : Inbox) (queue : Bytes) (events : List Event)
      → Holds ws queue
      → Agrees
          (turns (inbox_turn is_ctrl_frame) ws events)
          (turns (queue_turn is_ctrl_frame) queue events)
  turns-Agrees ws queue [] holds = (refl, holds)
  turns-Agrees ws queue (e ∷ events) holds =
      Agrees-bind _ _ _ _ (turn-Agrees ws queue e holds) (λ out mid left kept.
        Agrees-bind _ _ _ _ (turns-Agrees mid left events kept)
          (λ later last rest done. (refl, done)))
