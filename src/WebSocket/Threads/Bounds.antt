-- ===== src/WebSocket/Threads/Bounds.antt =====
-- What holds of the array and its size, whichever thread runs.
use ken_code_de_bridge.Base.{Bytes, List, Outcome, [], fault, ok, out_of_fuel, ℕ, ◌>>=◌, ◌∷◌}
use ken_code_de_bridge.WebSocket.Threads.{
  Reader, Receiver, Threads, Turn, adding, call, emptied, handled, loaded, lowering, message, moved,
  moving, next_call, next_message, part, placed, placing, reads, receives, returned, roomy, run,
  starting, testing, turn,
}
use ken_code_de_bridge.WebSocket.Threads.Knows.{Gives, Inside, ReaderKnows, ReceiverKnows}
use ken_code_de_bridge.WebSocket.Threads.Moves.{reads-Inside, receives-Inside}

next_message-Knows :
    (size : ℕ) (msg : Bytes) (receiver : Receiver)
    → ReceiverKnows size receiver
    → ReceiverKnows size (next_message msg receiver)
next_message-Knows size msg handled k = tt
next_message-Knows size msg (testing m) k = k
next_message-Knows size msg (roomy m) k = k
next_message-Knows size msg (placing m offset) k = k
next_message-Knows size msg (placed m) k = k
next_message-Knows size msg (adding m old) k = k

next_call-Knows :
    (size wanted : ℕ) (reader : Reader)
    → ReaderKnows size reader
    → ReaderKnows size (next_call wanted reader)
next_call-Knows size wanted (starting m) k = k
next_call-Knows size wanted (loaded m len) k = k
next_call-Knows size wanted (part m given) k = k
next_call-Knows size wanted (moving m old given) k = k
next_call-Knows size wanted (moved m given) k = k
next_call-Knows size wanted (lowering m old given) k = k
next_call-Knows size wanted (emptied m given) k = k
next_call-Knows size wanted (returned m given) k = tt

turn-Inside : (s : Threads) (t : Turn) → Inside s → Gives Inside (turn s t)
turn-Inside s receives h = receives-Inside s.inbox s.receiver s.reader h
turn-Inside s reads h = reads-Inside s.inbox s.receiver s.reader h
turn-Inside s (message msg) h =
    unfold turn in
    record {
      whole = h.whole;
      small = h.small;
      receiver_knows = next_message-Knows s.inbox.recv_size msg s.receiver h.receiver_knows;
      reader_knows = h.reader_knows;
    }
turn-Inside s (call size) h =
    unfold turn in
    record {
      whole = h.whole;
      small = h.small;
      receiver_knows = h.receiver_knows;
      reader_knows = next_call-Knows s.inbox.recv_size size s.reader h.reader_knows;
    }

Gives-bind :
    {A B : Type 0} (P : A → Type 0) (Q : B → Type 0) (m : Outcome A) (f : A → Outcome B)
    → Gives P m
    → ((a : A) → P a → Gives Q (f a))
    → Gives Q (m >>= f)
Gives-bind P Q (ok a) f h next = next a h
Gives-bind P Q fault f h next = absurd h
Gives-bind P Q out_of_fuel f h next = absurd h

run_round :
    (s : Threads) (t : Turn) (schedule : List Turn)
    → Gives Inside (turn s t >>= λ after. run after schedule)
    → Gives Inside (run s (t ∷ schedule))
unfolding run
run_round s t schedule h = h

-- However the thread of the events and the one that calls `websocket_recv` are interleaved, no copy
-- reaches out of the array, whose size stays at most 8192, and no call gives more bytes than it was
-- asked for: a schedule has no fault, and where it starts with what the two threads know of the size,
-- they know it at its end.
pub run-Inside : (s : Threads) (schedule : List Turn) → Inside s → Gives Inside (run s schedule)
run-Inside s [] h = unfold run in h
run-Inside s (t ∷ schedule) h = run_round s t schedule (
    Gives-bind Inside Inside (turn s t) _ (turn-Inside s t h)
      (λ after inside. run-Inside after schedule inside))
