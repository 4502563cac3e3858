-- ===== src/WebSocket/Runs.antt =====
-- utils/websocket.c: a client, its buffer and its threads at small texts.
use ken_code_de_bridge.Base.{
  Bool, Bytes, List, [], arith, codes, inl, length, length-replicate, none, ok, pos, refl,
  replicate, some, take, true, ℕ, ◌%◌, ◌++◌, ◌/◌, ◌==◌, ◌∷◌, ◌≡◌,
}
use ken_code_de_bridge.WebSocket.{wrote}
use ken_code_de_bridge.WebSocket.Buffer.{Inbox, MsgArg, recv_capacity}
use ken_code_de_bridge.WebSocket.Buffer.Contents.{Holds}
use ken_code_de_bridge.WebSocket.Buffer.Queue.{
  Agrees, Event, arrives, asks, inbox_turn, queue_turn, turns, turns-Agrees,
}
use ken_code_de_bridge.WebSocket.Threads.{
  Threads, call, handled, message, reads, receives, returned, run, starting, testing,
}
use ken_code_de_bridge.WebSocket.Threads.Knows.{Gives, Inside}
use ken_code_de_bridge.WebSocket.Threads.Bounds.{run-Inside}
use ken_code_de_bridge.WebSocket.Threads.Lost.{overtaken, run-overtaken}
use ken_code_de_bridge.WebSocket.Sockets.{
  Address, Sys, connect_to, eagain, eintr, err_callback_failure, failed_with, gave, other_errno,
  recv_callback, send_callback,
}
use ken_code_de_bridge.WebSocket.Sockets.Answers.{
  Found, IsReported, accepted, again, callbacks-IsReported, connect_to-Found, fails, gives, refused,
}
use ken_code_de_bridge.WebSocket.Client.{World, websocket_call}
use ken_code_de_bridge.WebSocket.Client.Calls.{websocket_call-first}
use ken_code_de_bridge.WebSocket.Tests.{answer_read, constant}

abbrev empty_array : Bytes
empty_array = replicate recv_capacity 0

abbrev empty_inbox : Inbox
empty_inbox = record { recv_buf = empty_array; recv_size = 0 }

empty-Holds : Holds empty_inbox []
empty-Holds = record {
  whole = length-replicate {A = ℕ} recv_capacity 0;
  inside = ground arith;
  queued = refl;
}

abbrev is_control : ℕ → Bool
is_control opcode = opcode / 8 % 2 == 1

abbrev hello : MsgArg
hello = record { opcode = 2; msg = codes "hello" }

abbrev ping : MsgArg
ping = record { opcode = 9; msg = codes "ping" }

abbrev hello_and_reads : List Event
hello_and_reads = arrives hello ∷ asks 3 ∷ arrives ping ∷ arrives hello ∷ asks 10 ∷ []

-- What the queue gives out.
hello_queue : turns (queue_turn is_control) [] hello_and_reads ≡ ok (codes "hellohello", [])
hello_queue = refl

turns-Agrees_example :
    Agrees
      (turns (inbox_turn is_control) empty_inbox hello_and_reads)
      (turns (queue_turn is_control) [] hello_and_reads)
turns-Agrees_example = turns-Agrees is_control empty_inbox [] hello_and_reads empty-Holds

abbrev both_start : Threads
both_start = record { inbox = empty_inbox; receiver = testing (codes "hello"); reader = starting 3 }

both_start-Inside : Inside both_start
both_start-Inside = record {
  whole = length-replicate {A = ℕ} recv_capacity 0;
  small = ground arith;
  receiver_knows = tt;
  reader_knows = tt;
}

run-Inside_example : Gives Inside (
    run both_start
      (receives ∷ reads ∷ call 9 ∷ receives ∷ receives ∷ message (codes "x") ∷ reads ∷ []))
run-Inside_example =
    run-Inside both_start
      (receives ∷ reads ∷ call 9 ∷ receives ∷ receives ∷ message (codes "x") ∷ reads ∷ [])
      both_start-Inside

abbrev two_bytes : Bytes
two_bytes = 7 ∷ 8 ∷ replicate 8190 0

length-two_bytes : length two_bytes ≡ recv_capacity
length-two_bytes = omega (arith, length-replicate {A = ℕ} 8190 0)

run-overtaken_example :
    (last : Threads) × (run
        (record {
          inbox = record { recv_buf = two_bytes; recv_size = 2 };
          receiver = testing (codes "hello");
          reader = starting 10;
        })
        (overtaken 2)
      ≡ ok last)
    × ((last.inbox.recv_size ≡ 0)
        × (last.receiver ≡ handled)
        × (last.reader ≡ returned 10 (take 2 two_bytes)))
run-overtaken_example =
    run-overtaken two_bytes (codes "hello") 2 10 2 (ground arith) (ground arith) length-two_bytes
      (ground arith) (ground arith)

abbrev two_inbox : Inbox
two_inbox = record { recv_buf = two_bytes; recv_size = 2 }

two-Holds : Holds two_inbox (7 ∷ 8 ∷ [])
two-Holds = record { whole = length-two_bytes; inside = ground arith; queued = refl }

abbrev queued_frame : List (ℕ × Bytes) → ℕ → Bytes → List (ℕ × Bytes)
queued_frame frames opcode body = frames ++ (opcode, body) ∷ []

websocket_call-first_example :
    (after : Inbox) × (websocket_call queued_frame []
        (codes "{}")
        100
        2
        3
        ((empty_inbox, 3) ∷ (two_inbox, 4) ∷ [])
      ≡ ok ((2, codes "{}") ∷ [], (7 ∷ 8 ∷ [], after)))
    × Holds after []
websocket_call-first_example =
    websocket_call-first queued_frame [] (codes "{}") 99 2 3 ((empty_inbox, 3) ∷ []) two_inbox
      (7 ∷ 8 ∷ []) 4 [] (refl, (ground arith, tt)) two-Holds (inl (ground arith)) (ground arith)

abbrev would_block : List (Sys ℕ)
would_block = failed_with eintr ∷ failed_with eagain ∷ []

callbacks-IsReported_example :
    IsReported {B = ℕ} (failed_with eagain) (send_callback (λ _. would_block) true)
    × (IsReported (gave (codes "hi")) (recv_callback (gave (codes "hi") ∷ []))
        × (recv_callback (gave [] ∷ []) ≡ ok (none, some err_callback_failure)))
callbacks-IsReported_example =
    callbacks-IsReported true (λ _. would_block) (gave (codes "hi") ∷ []) (failed_with eagain)
      (gave (codes "hi")) [] (again (fails (λ e. cc e))) gives

abbrev two_addresses : List Address
two_addresses =
    record { socket = some 5; connect = failed_with other_errno ∷ [] }
    ∷ record { socket = some 5; connect = failed_with eintr ∷ gave tt ∷ [] }
    ∷ []

second-Found : Found two_addresses (some 5)
second-Found = refused (fails (λ e. cc e)) (accepted (again gives))

connect_to-Found_example : connect_to (some two_addresses) (1 ∷ []) ≡ ok (some 5, 5 ∷ 1 ∷ [])
connect_to-Found_example = connect_to-Found (1 ∷ []) second-Found

abbrev small_world : World
small_world = record {
  addresses = some two_addresses;
  writes = wrote 4096 ∷ [];
  reads = some answer_read ∷ [];
  sha1 = constant;
  random16 = codes "0123456789abcdef";
  getfl = gave 0 ∷ [];
  setfl = gave tt ∷ [];
  nodelay = true;
  memory = record { client = some empty_array; body_there = true };
  urandom = some 6;
  wslay_event_recv =
      λ body. record { result = pos 0; body_off = length body; messages = ping ∷ hello ∷ [] };
  wslay_is_ctrl_frame = is_control;
  pthread_created = true;
}
