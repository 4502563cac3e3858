-- ===== src/WebSocket/Buffer/Contents.antt =====
-- What the array of received bytes holds.
use ken_code_de_bridge.Base.{
  Bytes, ap, append_assoc, arith, drop, length, length-append, length-drop, length-take, sym, take,
  take-append-exact, take-drop, ℕ, ◌++◌, ◌+◌, ◌-◌, ◌<◌, ◌∙◌, ◌≡◌, ◌≤◌,
}
use ken_code_de_bridge.WebSocket.Buffer.{Inbox, recv_capacity}

-- The first `recv_size` bytes of the array are the queue.
pub record Holds (ws : Inbox) (queue : Bytes) : Type 0 where
  pub whole : length ws.recv_buf ≡ recv_capacity
  pub inside : ws.recv_size ≤ recv_capacity
  pub queued : take ws.recv_size ws.recv_buf ≡ queue

pub Holds-length : (ws : Inbox) (queue : Bytes) → Holds ws queue → length queue ≡ ws.recv_size
Holds-length ws queue holds =
    ap length (sym holds.queued)
    ∙ omega (arith, length-take ws.recv_size ws.recv_buf, holds.whole, holds.inside)

pub Holds-arrived :
    (ws : Inbox) (queue msg : Bytes)
    → Holds ws queue
    → ws.recv_size + length msg ≤ recv_capacity
    → Holds
        (record {
          recv_buf =
              take ws.recv_size ws.recv_buf
              ++ (msg ++ drop (ws.recv_size + length msg) ws.recv_buf);
          recv_size = ws.recv_size + length msg;
        })
        (queue ++ msg)
Holds-arrived ws queue msg holds fits = record {
  whole = omega (
    arith,
    length-append (take n array) (msg ++ drop (n + length msg) array),
    length-append msg (drop (n + length msg) array),
    length-take n array,
    length-drop (n + length msg) array,
    holds.whole,
  );
  inside = fits;
  queued =
      ap (λ x. take (n + length msg) (x ++ (msg ++ drop (n + length msg) array))) holds.queued
      ∙ ap (take (n + length msg)) (sym (append_assoc queue msg (drop (n + length msg) array)))
      ∙ take-append-exact (n + length msg) (queue ++ msg) (drop (n + length msg) array)
          (omega (arith, length-append queue msg, Holds-length ws queue holds));
}
  where
    n : ℕ
    n = ws.recv_size

    array : Bytes
    array = ws.recv_buf

pub Holds-lowered :
    (ws : Inbox) (queue : Bytes) (size : ℕ)
    → Holds ws queue
    → size < ws.recv_size
    → Holds
        (record {
          recv_buf =
              take (ws.recv_size - size) (drop size ws.recv_buf)
              ++ drop (ws.recv_size - size) ws.recv_buf;
          recv_size = ws.recv_size - size;
        })
        (drop size queue)
Holds-lowered ws queue size holds more =
    let inside = holds.inside in
    let moved : length (take (n - size) (drop size array)) ≡ n - size =
      omega
        (arith, length-take (n - size) (drop size array), length-drop size array, holds.whole) in
    record {
      whole = omega (
        arith,
        length-append (take (n - size) (drop size array)) (drop (n - size) array),
        moved,
        length-drop (n - size) array,
        holds.whole,
      );
      inside = omega arith;
      queued =
          take-append-exact (n - size) (take (n - size) (drop size array)) (drop (n - size) array)
            moved
          ∙ take-drop size (n - size) n array (omega arith)
          ∙ ap (drop size) holds.queued;
    }
  where
    n : ℕ
    n = ws.recv_size

    array : Bytes
    array = ws.recv_buf
