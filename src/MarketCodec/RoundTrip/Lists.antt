-- ===== src/MarketCodec/RoundTrip/Lists.antt =====
-- `market_list_protobuf_decode` reads back what `market_list_protobuf_encode` writes.
use ken_code_de_bridge.MarketCodec.Wire.{Encodes, IsProtobuf, Protobuf, WireType, length_delimited}
use ken_code_de_bridge.Base.{
  Bytes, Floats, List, [], ap, append-nil, append_assoc, arith, drop, false, length, length-append,
  ltb, lt→ltb, map, ok, refl, some, suc, sym, true, zero, ℕ, ◌++◌, ◌+◌, ◌-◌, ◌<◌, ◌^◌, ◌∙◌, ◌∷◌,
  ◌≡◌, ◌≤◌,
}
use ken_code_de_bridge.Book.{Market, market_new}
use ken_code_de_bridge.MarketCodec.{
  append_taken, fee_as_int, fee_of_int, list_field, list_loop, market_list_protobuf_decode,
  market_list_protobuf_encode, market_list_protobuf_encode_size, take_market, with_length,
}
use ken_code_de_bridge.MarketCodec.Fits.{
  AllNamed, IsMessage, IsMessages, IsNamed, market_list_protobuf_encode-IsMessages,
}
use ken_code_de_bridge.MarketCodec.RoundTrip.{
  decoded, header_read, length_field, market_protobuf_decode-message, payload_read,
}

-- What a message keeps of a market: both names, and the fee in thousandths.
abbrev pub kept : {D : Type 0} → Floats D → Market D → Market D
kept floats m = record (market_new floats) {
  base_currency = m.base_currency;
  market_currency = m.market_currency;
  fee = fee_of_int floats (fee_as_int floats m.fee);
}

module _ {D : Type 0} (floats : Floats D) (pb : Protobuf) where
  take_market-message :
      (base quoted message rest : Bytes) (n len more : ℕ)
      → IsMessage pb base quoted n message
      → pb.decode_length_delimited rest len ≡ some (message, more)
      → (markets : List (Market D)) (header_read : ℕ)
      → list_field floats pb 1 rest len header_read markets
        ≡ ok (some (markets ++ decoded floats pb message base quoted n ∷ [], more))
  unfolding list_field take_market with_length append_taken
  take_market-message base quoted message rest n len more is e markets header_read =
      rw (e, market_protobuf_decode-message floats pb message base quoted n is)

  -- One round of the loop, in a buffer of which `len` bytes are told.
  list_round :
      (buffer : Bytes) (len fuel at k more : ℕ) (type : WireType)
      (markets markets' : List (Market D))
      → at < len
      → pb.decode_field_and_type (drop at buffer) len ≡ some (1, type, k)
      → list_field floats pb 1 (drop (at + k) buffer) (len - (at + k)) k markets
        ≡ ok (some (markets', more))
      → list_loop floats pb (suc fuel) buffer len at markets
        ≡ list_loop floats pb fuel buffer len (at + k + more) markets'
  unfolding list_loop
  list_round buffer len fuel at k more type markets markets' h e f = rw (lt→ltb _ _ h, e, f)

  list_end :
      (buffer : Bytes) (len fuel at : ℕ) (markets : List (Market D))
      → at ≡ len
      → list_loop floats pb (suc fuel) buffer len at markets ≡ ok (some markets)
  unfolding list_loop
  list_end buffer len fuel at markets e = let test : ltb at len ≡ false = ground arith in rw test

  module _ (base quoted message : Bytes) (n : ℕ) (is : IsMessage pb base quoted n message)
      (field before rest buffer : Bytes) (len : ℕ)
      (enc : Encodes pb Bytes pb.decode_length_delimited 1 length_delimited message field)
      (stands : buffer ≡ before ++ (field ++ rest))
      (fits : length before + length field ≤ len) where
    market_round :
        (fuel : ℕ) (markets : List (Market D))
        → list_loop floats pb (suc fuel) buffer len (length before) markets
          ≡ list_loop floats pb fuel buffer len
              (length (before ++ field))
              (markets ++ decoded floats pb message base quoted n ∷ [])
    market_round fuel markets =
        let both =
          length_field pb pb.decode_length_delimited 1 length_delimited message field enc before
            rest buffer (length before) len stands refl fits in
        let next : length before + length enc.header + length enc.payload
            ≡ length (before ++ field) =
          omega (arith, length-append before field, both) in
        list_round buffer len fuel (length before) (length enc.header) (length enc.payload)
          length_delimited markets _ (omega (arith, fits, both, enc.not_empty))
          (header_read pb pb.decode_length_delimited 1 length_delimited message field enc before
            rest buffer (length before) len stands refl fits)
          (take_market-message base quoted message _ n _ (length enc.payload) is
            (payload_read pb pb.decode_length_delimited 1 length_delimited message field enc before
              rest buffer (length before) len stands refl fits)
            markets (length enc.header))
        ∙ ap
            (λ at.
              list_loop floats pb fuel buffer len at
                (markets ++ decoded floats pb message base quoted n ∷ []))
            next

  module _ (laws : IsProtobuf pb) (u64 : (x : D) → floats.to_u64 x < 2 ^ 64) where
    decoded-kept :
        (m : Market D) (named : IsNamed m) (message : Bytes)
        → decoded floats pb message named.base named.quoted (fee_as_int floats m.fee)
          ≡ kept floats m
    decoded-kept m named message = rw (named.has_base, named.has_quoted)

    list_loop-kept :
        (ms : List (Market D)) (named : AllNamed ms) (fuel : ℕ) (before out behind buffer : Bytes)
        (len : ℕ) (markets : List (Market D))
        → buffer ≡ before ++ (out ++ behind)
        → IsMessages pb floats laws u64 ms named out
        → length out < fuel
        → len ≡ length before + length out
        → list_loop floats pb fuel buffer len (length before) markets
          ≡ ok (some (markets ++ map (kept floats) ms))
    list_loop-kept [] named zero before out behind buffer len markets e is h told =
        absurd (omega arith)
    list_loop-kept [] named (suc fuel) before out behind buffer len markets e is h told =
        list_end buffer len fuel (length before) markets (omega (arith, ap length is, told))
        ∙ rw append-nil
    list_loop-kept (m ∷ ms) (named, later) zero before out behind buffer len markets e is h told =
        absurd (omega arith)
    list_loop-kept (m ∷ ms) (named, later) (suc fuel) before out behind buffer len markets e
          (message, field, rest, splits, is, enc, more) h told =
        let stands : buffer ≡ before ++ (field ++ (rest ++ behind)) =
          e
          ∙ ap (λ x. before ++ (x ++ behind)) splits
          ∙ ap (λ x. before ++ x) (append_assoc field rest behind) in
        let sizes = length-append field rest in
        let size = ap length splits in
        let shorter : length rest < fuel = omega (
          arith,
          size,
          sizes,
          ap length enc.splits,
          length-append enc.header enc.payload,
          enc.not_empty,
        ) in
        let told_on : len ≡ length (before ++ field) + length rest =
          omega (arith, told, size, sizes, length-append before field) in
        market_round named.base named.quoted message (fee_as_int floats m.fee) is field before
          (rest ++ behind) buffer len enc stands (omega (arith, told, size, sizes)) fuel markets
        ∙ list_loop-kept ms later fuel (before ++ field) rest behind buffer len _
            (stands ∙ sym (append_assoc before field (rest ++ behind))) more shorter told_on
        ∙ ap (λ x. ok (some x))
            (append_assoc markets (decoded floats pb message named.base named.quoted _ ∷ []) _
              ∙ ap (λ x. markets ++ x ∷ map (kept floats) ms) (decoded-kept m named message))

    -- Bytes behind those that are told are not read.
    pub market_list_protobuf_decode-behind :
        (ms : List (Market D)) (named : AllNamed ms)
        → (size : ℕ) × (out : Bytes) × (market_list_protobuf_encode_size floats ms ≡ ok size)
          × (market_list_protobuf_encode floats pb ms size ≡ ok (true, out))
          × (length out ≤ size)
          × ((behind : Bytes)
              → market_list_protobuf_decode floats pb (out ++ behind) (length out)
                ≡ ok (some (map (kept floats) ms)))
    unfolding market_list_protobuf_decode
    market_list_protobuf_decode-behind ms named =
        let (size, out, es, ee, le, is) =
          market_list_protobuf_encode-IsMessages pb floats laws u64 ms named in
        (
          size,
          out,
          es,
          ee,
          le,
          λ behind.
              list_loop-kept ms named (suc (length out)) [] out behind (out ++ behind) (length out)
                [] refl is (omega arith) (omega arith),
        )

    -- The round trip of a list. Where every market has both names, a buffer of the size that
    -- `market_list_protobuf_encode_size` gives takes the encoded list, and decoding what was
    -- written gives the list again, in order: each market with its two names and its fee cut to
    -- thousandths, and with no name and no smallest trade.
    pub market_list_protobuf_decode-encode :
        (ms : List (Market D)) (named : AllNamed ms)
        → (size : ℕ) × (out : Bytes) × (market_list_protobuf_encode_size floats ms ≡ ok size)
          × (market_list_protobuf_encode floats pb ms size ≡ ok (true, out))
          × (length out ≤ size)
          × (market_list_protobuf_decode floats pb out (length out)
              ≡ ok (some (map (kept floats) ms)))
    market_list_protobuf_decode-encode ms named =
        let (size, out, es, ee, le, reads) = market_list_protobuf_decode-behind ms named in
        (
          size,
          out,
          es,
          ee,
          le,
          ap (λ x. market_list_protobuf_decode floats pb x (length out)) (sym (append-nil out))
              ∙ reads [],
        )

pub market_list_protobuf_decode-nothing :
    {D : Type 0} (floats : Floats D) (pb : Protobuf)
    → market_list_protobuf_decode floats pb [] 0 ≡ ok (some [])
unfolding market_list_protobuf_decode list_loop
market_list_protobuf_decode-nothing floats pb = refl
