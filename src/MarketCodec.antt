-- ===== src/MarketCodec.antt =====
-- book/market.c: markets as protobuf messages, and the search in a list of markets. The protobuf
-- library ("protobuf.h" is not in the repository) is the parameter `pb`: a record of the functions
-- called, each giving nothing where the C function returns 0. A buffer is the bytes written so far.
mod Wire
pub mod Fits
pub mod RoundTrip
pub mod Search
pub mod Plain
mod Tests
pub use Wire.{WireType, length_delimited, varint, Protobuf, Encodes, IsProtobuf}
use ken_code_de_bridge.Base.{
  Bool, Bytes, Floats, List, Option, Outcome, [], deref, drop, equal, false, if◌then◌else◌, length,
  ltb, none, ok, out_of_fuel, set, some, suc, true, zero, ℕ, ◌++◌, ◌+◌, ◌-◌, ◌==◌, ◌>>=◌, ◌∷◌,
}
use ken_code_de_bridge.Book.{Market, market_new}

module _ {D : Type 0} (floats : Floats D) where
  -- `strlen` of NULL is undefined.
  unfoldable pub market_protobuf_encode_size : Market D → Outcome ℕ
  market_protobuf_encode_size market = do
    base ← deref market.base_currency
    quoted ← deref market.market_currency
    ok (length base + 11 + (length quoted + 11) + 11)

  unfoldable pub market_list_protobuf_encode_size : List (Market D) → Outcome ℕ
  unfolding market_protobuf_encode_size
  market_list_protobuf_encode_size [] = ok 0
  market_list_protobuf_encode_size (current ∷ rest) = do
    size ← market_protobuf_encode_size current
    later ← market_list_protobuf_encode_size rest
    ok (size + 11 + later)

  -- `(unsigned long long)(market->fee * 1000)`, and back.
  abbrev pub fee_as_int : D → ℕ
  fee_as_int fee = floats.to_u64 (floats.mul fee (floats.literal 1000 0))

  abbrev pub fee_of_int : ℕ → D
  fee_of_int n = floats.div (floats.of_u64 n) (floats.literal 1000 0)

module _ {D : Type 0} (floats : Floats D) (pb : Protobuf) where
  -- A call that appends to the buffer: without room the function returns 0 there.
  write_then : Option Bytes → Bytes → (Bytes → Outcome (Bool × Bytes)) → Outcome (Bool × Bytes)
  write_then none written next = ok (false, written)
  write_then (some used) written next = next (written ++ used)

  -- The returned flag, and the bytes written into the buffer.
  unfoldable pub market_protobuf_encode : Market D → ℕ → Outcome (Bool × Bytes)
  unfolding write_then
  market_protobuf_encode market max = do
    base ← deref market.base_currency
    write_then (pb.encode_string 1 length_delimited base max) [] λ b. do
      quoted ← deref market.market_currency
      write_then (pb.encode_string 2 length_delimited quoted (max - length b)) b λ c.
          write_then (pb.encode_varint 3 varint (fee_as_int floats market.fee) (max - length c)) c
            λ d. ok (true, d)

  -- What the loop does with the message of one market.
  append_message :
      Bool × Bytes → ℕ → Bytes → (Bytes → Outcome (Bool × Bytes)) → Outcome (Bool × Bytes)
  append_message (false, message) max written next = ok (false, written)
  append_message (true, message) max written next =
      write_then (pb.encode_length_delimited 1 length_delimited message (max - length written))
        written next

  encode_loop : List (Market D) → ℕ → Bytes → Outcome (Bool × Bytes)
  encode_loop [] max written = ok (true, written)
  encode_loop (current ∷ rest) max written = do
    market_len ← market_protobuf_encode_size floats current
    encoded ← market_protobuf_encode current market_len
    append_message encoded max written λ longer. encode_loop rest max longer

  unfoldable pub market_list_protobuf_encode : List (Market D) → ℕ → Outcome (Bool × Bytes)
  unfolding encode_loop append_message write_then market_protobuf_encode_size market_protobuf_encode
  market_list_protobuf_encode head max = encode_loop head max []

  -- The switch on the field's number: the market, and how many bytes were read; any other field
  -- reads none.
  string_field : Option (Bytes × ℕ) → (Bytes → Market D) → Option (Market D × ℕ)
  string_field none set = none
  string_field (some (str, read)) set = some (set str, read)

  fee_field : Option (ℕ × ℕ) → Market D → Option (Market D × ℕ)
  fee_field none m = none
  fee_field (some (n, read)) m = some (record m { fee = fee_of_int floats n }, read)

  decode_field : ℕ → Bytes → ℕ → Market D → Option (Market D × ℕ)
  decode_field field_no bytes len m =
      if field_no == 1
      then string_field (pb.decode_string bytes len) (λ str. record m { base_currency = some str })
      else if field_no == 2
      then string_field (pb.decode_string bytes len)
          (λ str. record m { market_currency = some str })
      else if field_no == 3
      then fee_field (pb.decode_varint bytes len) m
      else some (m, 0)

  -- The loop. `decode_field_and_type` is told the length of the whole buffer. A failure gives
  -- `none`.
  decode_loop : ℕ → Bytes → ℕ → ℕ → Market D → Outcome (Option (Market D))
  decode_loop zero buffer buffer_length at m = out_of_fuel
  decode_loop (suc fuel) buffer buffer_length at m =
      let round : Outcome (Option (Market D)) =
        elim (pb.decode_field_and_type (drop at buffer) buffer_length) [
          | none ↦ ok none
          | some (field_no, type, bytes_read) ↦
              let inner = at + bytes_read in
              elim (decode_field field_no (drop inner buffer) (buffer_length - inner) m) [
                | none ↦ ok none
                | some (m', more) ↦ decode_loop fuel buffer buffer_length (inner + more) m'
              ]
        ] in
      if ltb at buffer_length then round else ok (some m)

  unfoldable pub market_protobuf_decode : Bytes → ℕ → Outcome (Option (Market D))
  unfolding decode_loop decode_field string_field fee_field
  market_protobuf_decode buffer buffer_length =
      decode_loop (suc buffer_length) buffer buffer_length 0 (market_new floats)

  with_length : Option (Market D) → ℕ → Option (Market D × ℕ)
  with_length none n = none
  with_length (some m) n = some (m, n)

  -- One "market" object of the list.
  take_market : Option (Bytes × ℕ) → Outcome (Option (Market D × ℕ))
  take_market none = ok none
  take_market (some (market_buffer, bytes_read)) = do
    decoded ← market_protobuf_decode market_buffer (length market_buffer)
    ok (with_length decoded bytes_read)

  append_taken : Option (Market D × ℕ) → List (Market D) → Option (List (Market D) × ℕ)
  append_taken none markets = none
  append_taken (some (m, read)) markets = some (markets ++ m ∷ [], read)

  -- Any other field leaves `bytes_read` as the header set it, which is then added once more.
  list_field : ℕ → Bytes → ℕ → ℕ → List (Market D) → Outcome (Option (List (Market D) × ℕ))
  list_field field_no bytes len header_read markets =
      let appended = do
        taken ← take_market (pb.decode_length_delimited bytes len)
        ok (append_taken taken markets)
      in if field_no == 1 then appended else ok (some (markets, header_read))

  list_loop : ℕ → Bytes → ℕ → ℕ → List (Market D) → Outcome (Option (List (Market D)))
  list_loop zero buffer buffer_length at markets = out_of_fuel
  list_loop (suc fuel) buffer buffer_length at markets =
      let round : Outcome (Option (List (Market D))) =
        elim (pb.decode_field_and_type (drop at buffer) buffer_length) [
          | none ↦ ok none
          | some (field_no, type, bytes_read) ↦ do
            let inner = at + bytes_read
            taken ←
                list_field field_no (drop inner buffer) (buffer_length - inner) bytes_read markets
            elim taken [
              | none ↦ ok none
              | some (markets', more) ↦ list_loop fuel buffer buffer_length (inner + more) markets'
            ]
        ] in
      if ltb at buffer_length then round else ok (some markets)

  unfoldable pub market_list_protobuf_decode : Bytes → ℕ → Outcome (Option (List (Market D)))
  unfolding list_loop list_field append_taken take_market with_length market_protobuf_decode
  market_list_protobuf_decode buffer buffer_length =
      list_loop (suc buffer_length) buffer buffer_length 0 []

-- The search stops at the first market with both names; a NULL name faults in `strcmp`. The second
-- name is compared only where the first is equal.
unfoldable pub market_get :
    {D : Type 0} → List (Market D) → Bytes → Bytes → Outcome (Option (Market D))
unfolding equal
market_get [] base_currency market_currency = ok none
market_get (current ∷ next) base_currency market_currency =
    let rest = market_get next base_currency market_currency in
    let second = do
      quoted ← deref current.market_currency
      if equal quoted market_currency then ok (some current) else rest
    in do base ← deref current.base_currency; if equal base base_currency then second else rest
