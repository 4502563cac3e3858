-- ===== src/WebSocket/Client/First.antt =====
-- What the first `wslay_event_recv` of `websocket_connect` leaves in the array.
use mathlib.Core.Path.{subst}
use ken_code_de_bridge.Base.{
  Bool, Bool-cases, Bytes, List, Option, [], ap, append-nil, append_assoc, arith, false,
  if◌then◌else◌, inl, inr, leb, length, length-append, none, ok, refl, some, sym, true, ℕ, ◌++◌,
  ◌+◌, ◌-◌, ◌∙◌, ◌∷◌, ◌≡◌, ◌≤◌,
}
use ken_code_de_bridge.WebSocket.Buffer.{
  Inbox, MsgArg, memcpy_to, on_msg_recv_callback, recv_capacity,
}
use ken_code_de_bridge.WebSocket.Buffer.Contents.{Holds, Holds-arrived, Holds-length}
use ken_code_de_bridge.WebSocket.Client.{World, delivered}

-- The bytes of the messages that are no control frames.
abbrev pub texts_of : (ℕ → Bool) → List MsgArg → Bytes
texts_of is_ctrl_frame [] = []
texts_of is_ctrl_frame (arg ∷ messages) =
    let later = texts_of is_ctrl_frame messages in
    if is_ctrl_frame arg.opcode then later else arg.msg ++ later

pub empty-Holds :
    (array : Bytes)
    → length array ≡ recv_capacity
    → Holds (record { recv_buf = array; recv_size = 0 }) []
empty-Holds array whole = record { whole = whole; inside = omega arith; queued = refl }

-- The messages in the body, if there is one.
abbrev pub messages_in : World → Option Bytes → List MsgArg
messages_in w none = []
messages_in w (some body) = (w.wslay_event_recv body).messages

module _ (is_ctrl_frame : ℕ → Bool) where
  arrived_one :
      (ws : Inbox) (queue : Bytes) (arg : MsgArg) (messages : List MsgArg)
      → Holds ws queue
      → is_ctrl_frame arg.opcode ≡ false
      → ws.recv_size + length arg.msg ≤ recv_capacity
      → (after : Inbox) × (delivered is_ctrl_frame ws (arg ∷ messages)
          ≡ delivered is_ctrl_frame after messages)
        × Holds after (queue ++ arg.msg)
  unfolding delivered on_msg_recv_callback memcpy_to
  arrived_one ws queue arg messages holds text fits =
      let room : leb (length arg.msg) (recv_capacity - ws.recv_size) ≡ true = ground arith in
      let whole = holds.whole in
      let inside : leb (ws.recv_size + length arg.msg) (length ws.recv_buf) ≡ true = ground arith in
      (_, rw (text, room, inside) refl, Holds-arrived ws queue arg.msg holds fits)

  control_one :
      (ws : Inbox) (arg : MsgArg) (messages : List MsgArg)
      → is_ctrl_frame arg.opcode ≡ true
      → delivered is_ctrl_frame ws (arg ∷ messages) ≡ delivered is_ctrl_frame ws messages
  unfolding delivered on_msg_recv_callback
  control_one ws arg messages control = rw control

  pub delivered-Holds :
      (ws : Inbox) (queue : Bytes) (messages : List MsgArg)
      → Holds ws queue
      → ws.recv_size + length (texts_of is_ctrl_frame messages) ≤ recv_capacity
      → (after : Inbox) × (delivered is_ctrl_frame ws messages ≡ ok after)
        × Holds after (queue ++ texts_of is_ctrl_frame messages)
  delivered-Holds ws queue [] holds fits = (ws, unfold delivered in refl, rw append-nil holds)
  delivered-Holds ws queue (arg ∷ messages) holds fits =
      elim (Bool-cases (is_ctrl_frame arg.opcode)) [
        | inl control ↦
            let skipped = texts_of-control arg messages control in
            let (after, e, held) = delivered-Holds ws queue messages holds (rw skipped at fits) in
            (after, control_one ws arg messages control ∙ e, rw skipped held)
        | inr text ↦
            let taken = texts_of-text arg messages text in
            let sum = length-append {0} arg.msg (texts_of is_ctrl_frame messages) in
            let fits' : ws.recv_size + length (arg.msg ++ texts_of is_ctrl_frame messages)
                ≤ recv_capacity =
              rw taken at fits in
            let (mid, e, held) =
              arrived_one ws queue arg messages holds text (omega (arith, sum, fits')) in
            let sized = Holds-length mid (queue ++ arg.msg) held in
            let sized' = Holds-length ws queue holds in
            let (after, e', held') =
              delivered-Holds mid (queue ++ arg.msg) messages held
                (omega (arith, sum, fits', sized, sized', length-append {0} queue arg.msg)) in
            (
              after,
              e ∙ e',
              subst (Holds after)
                  (append_assoc queue arg.msg (texts_of is_ctrl_frame messages)
                    ∙ ap (λ x. queue ++ x) (sym taken))
                  held',
            )
      ]
    where
      texts_of-control :
          (arg : MsgArg) (messages : List MsgArg)
          → is_ctrl_frame arg.opcode ≡ true
          → texts_of is_ctrl_frame (arg ∷ messages) ≡ texts_of is_ctrl_frame messages
      texts_of-control arg messages e = rw e refl

      texts_of-text :
          (arg : MsgArg) (messages : List MsgArg)
          → is_ctrl_frame arg.opcode ≡ false
          → texts_of is_ctrl_frame (arg ∷ messages) ≡ arg.msg ++ texts_of is_ctrl_frame messages
      texts_of-text arg messages e = rw e refl
