-- ===== src/WebSocket/Threads/Moves.antt =====
-- What each thread knows, behind a step of either.
use ken_code_de_bridge.Base.{
  Bool-cases, [], arith, drop, inl, inr, leb, length, length-append, length-drop, length-take, ltb,
  take, true, ℕ, ◌++◌, ◌+◌, ◌-◌, ◌≡◌, ◌≤◌,
}
use ken_code_de_bridge.WebSocket.Buffer.{Inbox, memcpy_from, memcpy_to, memmove_down, recv_capacity}
use ken_code_de_bridge.WebSocket.Threads.{
  Reader, Receiver, adding, emptied, handled, loaded, lowering, moved, moving, part, placed,
  placing, reader_turn, reads, receiver_turn, receives, returned, roomy, starting, testing, turn,
}
use ken_code_de_bridge.WebSocket.Threads.Knows.{
  Gives, Inside, ReaderKnows, ReaderKnows-more, ReceiverKnows-less, at_turn,
}

module _ (ws : Inbox) where
  pub receives-Inside :
      (receiver : Receiver) (reader : Reader)
      → Inside (at_turn ws receiver reader)
      → Gives Inside (turn (at_turn ws receiver reader) receives)
  unfolding turn receiver_turn memcpy_to
  receives-Inside (testing msg) reader h =
      let small = h.small in
      elim (Bool-cases (leb (length msg) (recv_capacity - ws.recv_size))) [
        | inl t ↦
            let room : ws.recv_size + length msg ≤ recv_capacity = ground arith in
            rw t (record {
              whole = h.whole;
              small = h.small;
              receiver_knows = room;
              reader_knows = h.reader_knows;
            })
        | inr f ↦ rw f h
      ]
  receives-Inside (roomy msg) reader h = record {
    whole = h.whole;
    small = h.small;
    receiver_knows = (h.receiver_knows, h.receiver_knows);
    reader_knows = h.reader_knows;
  }
  receives-Inside (placing msg offset) reader h =
      let (room, fits) = h.receiver_knows in
      let whole = h.whole in
      let copied : leb (offset + length msg) (length ws.recv_buf) ≡ true = ground arith in
      let behind = drop (offset + length msg) ws.recv_buf in
      rw copied (record {
        whole = omega (
          arith,
          length-append (take offset ws.recv_buf) (msg ++ behind),
          length-append msg behind,
          length-take offset ws.recv_buf,
          length-drop (offset + length msg) ws.recv_buf,
        );
        small = h.small;
        receiver_knows = room;
        reader_knows = h.reader_knows;
      })
  receives-Inside (placed msg) reader h = record {
    whole = h.whole;
    small = h.small;
    receiver_knows = (h.receiver_knows, omega arith);
    reader_knows = h.reader_knows;
  }
  receives-Inside (adding msg old) reader h =
      let (fits, above) = h.receiver_knows in
      record {
        whole = h.whole;
        small = fits;
        receiver_knows = tt;
        reader_knows =
            ReaderKnows-more ws.recv_size (old + length msg) reader (omega arith) h.reader_knows;
      }
  receives-Inside handled reader h = h

  -- A reader only lowers the size.
  lowered-Inside :
      (receiver : Receiver) (reader after : Reader) (size : ℕ)
      → Inside (at_turn ws receiver reader)
      → size ≤ ws.recv_size
      → ReaderKnows size after
      → Inside (at_turn (record ws { recv_size = size }) receiver after)
  lowered-Inside receiver reader after size h less knows =
      let small = h.small in
      record {
        whole = h.whole;
        small = omega arith;
        receiver_knows = ReceiverKnows-less size ws.recv_size receiver less h.receiver_knows;
        reader_knows = knows;
      }

  -- A step of a reader that only changes where it stands.
  stays-Inside :
      (receiver : Receiver) (reader after : Reader)
      → Inside (at_turn ws receiver reader)
      → ReaderKnows ws.recv_size after
      → Inside (at_turn ws receiver after)
  stays-Inside receiver reader after h knows = record {
    whole = h.whole;
    small = h.small;
    receiver_knows = h.receiver_knows;
    reader_knows = knows;
  }

  pub reads-Inside :
      (receiver : Receiver) (reader : Reader)
      → Inside (at_turn ws receiver reader)
      → Gives Inside (turn (at_turn ws receiver reader) reads)
  unfolding turn reader_turn memcpy_from memmove_down
  reads-Inside receiver (starting size) h = elim (Bool-cases (ltb 0 ws.recv_size)) [
    | inl t ↦
        rw t (stays-Inside receiver (starting size) (loaded size ws.recv_size) h (omega arith))
    | inr f ↦ rw f (stays-Inside receiver (starting size) (returned size []) h (omega arith))
  ]
  reads-Inside receiver (loaded size len) h =
      let whole = h.whole in
      let small = h.small in
      let known : len ≤ ws.recv_size = h.reader_knows in
      elim (Bool-cases (ltb size len)) [
        | inl t ↦
            let copied : leb size (length ws.recv_buf) ≡ true = ground arith in
            let given = take size ws.recv_buf in
            rw (t, copied)
              (stays-Inside receiver (loaded size len) (part size given) h
                (omega (arith, length-take size ws.recv_buf), ground arith))
        | inr f ↦
            let copied : leb len (length ws.recv_buf) ≡ true = ground arith in
            let asked : len ≤ size = ground arith in
            rw (f, copied)
              (stays-Inside receiver (loaded size len) (emptied size (take len ws.recv_buf)) h
                (omega (arith, length-take len ws.recv_buf)))
      ]
  reads-Inside receiver (part size given) h =
      let (few, known) = h.reader_knows in
      stays-Inside receiver (part size given) _ h (few, (known, omega arith))
  reads-Inside receiver (moving size old given) h =
      let whole = h.whole in
      let small = h.small in
      let (few, (known, less)) = h.reader_knows in
      let moves : leb (size + (old - size)) (length ws.recv_buf) ≡ true = ground arith in
      let low = take (old - size) (drop size ws.recv_buf) in
      rw moves (record {
        whole = omega (
          arith,
          length-append low (drop (old - size) ws.recv_buf),
          length-take (old - size) (drop size ws.recv_buf),
          length-drop size ws.recv_buf,
          length-drop (old - size) ws.recv_buf,
        );
        small = h.small;
        receiver_knows = h.receiver_knows;
        reader_knows = (few, omega arith);
      })
  reads-Inside receiver (moved size given) h =
      let (few, known) = h.reader_knows in
      stays-Inside receiver (moved size given) _ h (few, (known, omega arith))
  reads-Inside receiver (lowering size old given) h =
      let (few, (known, less)) = h.reader_knows in
      lowered-Inside receiver (lowering size old given) (returned size given) (old - size) h
        (omega arith) few
  reads-Inside receiver (emptied size given) h =
      lowered-Inside receiver (emptied size given) (returned size given) 0 h (omega arith)
        h.reader_knows
  reads-Inside receiver (returned size given) h = h
