-- ===== src/WebSocket/Threads/Lost.antt =====
-- What happens to a message that is added while `websocket_recv` runs.
use ken_code_de_bridge.Base.{
  Bytes, List, [], ap, arith, drop, false, leb, length, length-append, length-drop, length-take,
  ltb, ok, refl, suc, take, take-append-exact, true, zero, ℕ, ◌++◌, ◌+◌, ◌-◌, ◌<◌, ◌∙◌, ◌∷◌, ◌≡◌,
  ◌≤◌,
}
use ken_code_de_bridge.WebSocket.Buffer.{memcpy_from, memcpy_to, recv_capacity}
use ken_code_de_bridge.WebSocket.Threads.{
  Threads, Turn, handled, reader_turn, reads, receiver_turn, receives, returned, run, starting,
  testing, turn,
}

abbrev many_receives : ℕ → List Turn
many_receives zero = []
many_receives (suc k) = receives ∷ many_receives k

-- The reader takes the size; the five steps of the callback follow, `k` of them before the reader
-- copies the bytes and the others behind the copy; the reader sets the size to 0.
abbrev pub overtaken : ℕ → List Turn
overtaken k = reads ∷ (many_receives k ++ reads ∷ (many_receives (5 - k) ++ reads ∷ []))

module _ (recv_buf msg : Bytes) (n size : ℕ) where
  abbrev start : Threads
  start = record {
    inbox = record { recv_buf = recv_buf; recv_size = n };
    receiver = testing msg;
    reader = starting size;
  }

  abbrev array : Bytes
  array = take n recv_buf ++ (msg ++ drop (n + length msg) recv_buf)

  abbrev last_with : Bytes → Threads
  last_with given = record {
    inbox = record { recv_buf = array; recv_size = 0 };
    receiver = handled;
    reader = returned size given;
  }

  module _ (some_there : 0 < n) (all_asked : n ≤ size) (whole : length recv_buf ≡ recv_capacity)
      (room : n + length msg ≤ recv_capacity) where
    fits : leb (length msg) (recv_capacity - n) ≡ true
    fits = ground arith

    there : ltb 0 n ≡ true
    there = ground arith

    all : ltb size n ≡ false
    all = ground arith

    placed_in : leb (n + length msg) (length recv_buf) ≡ true
    placed_in = ground arith

    copied_before : leb n (length recv_buf) ≡ true
    copied_before = ground arith

    copied_behind : leb n (length array) ≡ true
    copied_behind =
        let same : length array ≡ recv_capacity = omega (
          arith,
          length-append (take n recv_buf) (msg ++ drop (n + length msg) recv_buf),
          length-append msg (drop (n + length msg) recv_buf),
          length-take n recv_buf,
          length-drop (n + length msg) recv_buf,
        ) in
        ground arith

    given_behind : take n array ≡ take n recv_buf
    given_behind =
        take-append-exact n (take n recv_buf) (msg ++ drop (n + length msg) recv_buf)
          (omega (arith, length-take n recv_buf))

    -- The callback adds its bytes behind the copy of the reader, or before it.
    copy-first :
        run start (overtaken 0) ≡ ok (last_with (take n recv_buf))
        × ((run start (overtaken 1) ≡ ok (last_with (take n recv_buf)))
            × (run start (overtaken 2) ≡ ok (last_with (take n recv_buf))))
    unfolding run turn receiver_turn reader_turn memcpy_to memcpy_from
    copy-first = (
      rw (there, all, copied_before, fits, placed_in) refl,
      (
        rw (there, fits, all, copied_before, placed_in) refl,
        rw (there, fits, all, copied_before, placed_in) refl,
      ),
    )

    message-first :
        run start (overtaken 3) ≡ ok (last_with (take n array))
        × ((run start (overtaken 4) ≡ ok (last_with (take n array)))
            × (run start (overtaken 5) ≡ ok (last_with (take n array))))
    unfolding run turn receiver_turn reader_turn memcpy_to memcpy_from
    message-first = (
      rw (there, fits, placed_in, all, copied_behind) refl,
      (
        rw (there, fits, placed_in, all, copied_behind) refl,
        rw (there, fits, placed_in, all, copied_behind) refl,
      ),
    )

    overtaken-last : (k : ℕ) → k ≤ 5 → run start (overtaken k) ≡ ok (last_with (take n recv_buf))
    overtaken-last zero k≤5 = copy-first.0
    overtaken-last (suc zero) k≤5 = copy-first.1.0
    overtaken-last (suc (suc zero)) k≤5 = copy-first.1.1
    overtaken-last (suc (suc (suc zero))) k≤5 =
        message-first.0 ∙ ap (λ g. ok (last_with g)) given_behind
    overtaken-last (suc (suc (suc (suc zero)))) k≤5 =
        message-first.1.0 ∙ ap (λ g. ok (last_with g)) given_behind
    overtaken-last (suc (suc (suc (suc (suc zero))))) k≤5 =
        message-first.1.1 ∙ ap (λ g. ok (last_with g)) given_behind
    overtaken-last (suc (suc (suc (suc (suc (suc k)))))) k≤5 = ground arith

-- A message that the callback tests, places and counts between the first step of a `websocket_recv`
-- that asks for all that is there (it reads the size) and the last one (it sets the size to 0) is lost,
-- wherever the copy of the bytes falls between these five steps, whenever there is a byte to give out
-- and room for the message: the reader gives out the bytes that were there, and the size is 0 behind
-- both.
pub run-overtaken :
    (recv_buf msg : Bytes) (n size k : ℕ)
    → 0 < n
    → n ≤ size
    → length recv_buf ≡ recv_capacity
    → n + length msg ≤ recv_capacity
    → k ≤ 5
    → (last : Threads) × (run
          (record {
            inbox = record { recv_buf = recv_buf; recv_size = n };
            receiver = testing msg;
            reader = starting size;
          })
          (overtaken k)
        ≡ ok last)
      × ((last.inbox.recv_size ≡ 0)
          × (last.receiver ≡ handled)
          × (last.reader ≡ returned size (take n recv_buf)))
run-overtaken recv_buf msg n size k some_there all_asked whole room k≤5 = (
  last_with recv_buf msg n size (take n recv_buf),
  overtaken-last recv_buf msg n size some_there all_asked whole room k k≤5,
  (refl, refl, refl),
)
