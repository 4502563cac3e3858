-- ===== src/Server.antt =====
-- main/main.c: what is made of a connection. A socket is the results of its reads, in order, with
-- nothing for a read that fails, and no byte from their end on; the answer is what is written.
pub mod Reads
pub mod Answers
pub mod Service
pub mod Start
mod Tests
use ken_code_de_bridge.Base.{
  Bytes, Floats, List, Option, Outcome, [], codes, fault, if◌then◌else◌, is_prefix, length, ltb,
  none, ok, some, ◌++◌, ◌==◌, ◌>>=◌, ◌∷◌,
}
use ken_code_de_bridge.Book.{Market}
use ken_code_de_bridge.MarketCodec.{
  Protobuf, market_list_protobuf_encode, market_list_protobuf_encode_size,
}
use ken_code_de_bridge.Vendors.{Khash, Vendor, vendor_get_all_trading_pairs}

-- The buffer, without the NUL behind it. A failed read gives `n` = -1, and as a `size_t` that is the
-- number of bytes to copy.
unfoldable pub buffer_append : Bytes → Option Bytes → Outcome Bytes
buffer_append buffer none = fault
buffer_append buffer (some incoming) = ok (buffer ++ incoming)

-- The loop over the reads: it goes on behind a read of 255 bytes, up to 65535 in all.
unfoldable pub read_request : List (Option Bytes) → Bytes → Outcome Bytes
unfolding buffer_append
read_request [] buffer = ok buffer
read_request (none ∷ reads) buffer = fault
read_request (some incoming ∷ reads) buffer =
    let rest = read_request reads (buffer ++ incoming) in
    do
      longer ← buffer_append buffer (some incoming)
      if ltb 65535 (length longer)
          then ok longer
          else if length incoming == 255
          then rest
          else ok longer

-- What is written to the socket; `stops` is the end of the whole server.
pub data Answer : Type 0 where
  stops : Answer
  no_results : Answer
  sends : Bytes → Answer
  silent : Answer

-- `getCommand`: the only command.
pub data Command : Type 0 where
  trading_pairs : Command

unfoldable pub get_command : Bytes → Option Command
unfolding is_prefix
get_command buffer = if is_prefix (codes "trading_pairs") buffer then some trading_pairs else none

module _ {D : Type 0} (floats : Floats D) (pb : Protobuf) (khash : Khash (Market D)) where
  encoded : List (Market D) → Outcome (Option Bytes)
  encoded [] = ok none
  encoded (m ∷ ms) = do
    market_protobuf_len ← market_list_protobuf_encode_size floats (m ∷ ms)
    (flag, written) ← market_list_protobuf_encode floats pb (m ∷ ms) market_protobuf_len
    ok (some written)

  unfoldable pub get_trading_pairs : List (Vendor D) → Outcome (Option Bytes)
  unfolding encoded vendor_get_all_trading_pairs
  get_trading_pairs vendor_list = do
    market_head ← vendor_get_all_trading_pairs floats khash vendor_list
    encoded market_head

  abbrev result_answer : Option Bytes → Answer
  result_answer none = no_results
  result_answer (some []) = no_results
  result_answer (some (c ∷ result)) = sends (c ∷ result)

  run_command : List (Vendor D) → Option Command → Outcome Answer
  run_command vendor_list none = ok silent
  run_command vendor_list (some trading_pairs) = do
    result ← get_trading_pairs vendor_list
    ok (result_answer result)

  -- Without a byte read, the buffer is memory that nothing has written.
  handle : List (Vendor D) → Bytes → Outcome Answer
  handle vendor_list [] = fault
  handle vendor_list (c ∷ buffer) =
      if is_prefix (codes "EXIT") (c ∷ buffer)
      then ok stops
      else run_command vendor_list (get_command (c ∷ buffer))

  unfoldable pub do_connect : List (Vendor D) → List (Option Bytes) → Outcome Answer
  unfolding handle run_command read_request get_trading_pairs get_command
  do_connect vendor_list reads = do buffer ← read_request reads []; handle vendor_list buffer
