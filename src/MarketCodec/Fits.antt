-- ===== src/MarketCodec/Fits.antt =====
-- The buffers of the encoders of book/market.c: what `…_encode_size` estimates is room enough.
use ken_code_de_bridge.Base.{
  Bool, Bytes, Floats, List, Outcome, [], ap, append-nil, append_assoc, arith, length,
  length-append, ok, refl, some, true, ℕ, ◌++◌, ◌+◌, ◌-◌, ◌<◌, ◌^◌, ◌∙◌, ◌∷◌, ◌≡◌, ◌≤◌,
}
use ken_code_de_bridge.Book.{Market}
use ken_code_de_bridge.MarketCodec.{
  Encodes, IsProtobuf, Protobuf, append_message, encode_loop, fee_as_int, length_delimited,
  market_list_protobuf_encode, market_list_protobuf_encode_size, market_protobuf_encode,
  market_protobuf_encode_size, varint, write_then,
}

-- Both names of a market are there.
pub record IsNamed {D : Type 0} (m : Market D) : Type 0 where
  pub base : Bytes
  pub has_base : m.base_currency ≡ some base
  pub quoted : Bytes
  pub has_quoted : m.market_currency ≡ some quoted

abbrev pub AllNamed : {D : Type 0} → List (Market D) → Type 0
AllNamed [] = Unit
AllNamed (m ∷ ms) = IsNamed m × AllNamed ms

-- The estimate for a market with these names, and for the list.
abbrev pub estimate : Bytes → Bytes → ℕ
estimate base quoted = length base + 11 + (length quoted + 11) + 11

abbrev pub list_estimate : {D : Type 0} → (ms : List (Market D)) → AllNamed ms → ℕ
list_estimate [] named = 0
list_estimate (m ∷ ms) (named, later) =
    estimate named.base named.quoted + 11 + list_estimate ms later

module _ (pb : Protobuf) where
  -- Three fields in order: base currency, market currency and fee.
  pub record IsMessage (base quoted : Bytes) (fee : ℕ) (bytes : Bytes) : Type 0 where
    pub first : Bytes
    pub second : Bytes
    pub third : Bytes
    pub parts : bytes ≡ first ++ second ++ third
    pub base_field : Encodes pb Bytes pb.decode_string 1 length_delimited base first
    pub quoted_field : Encodes pb Bytes pb.decode_string 2 length_delimited quoted second
    pub fee_field : Encodes pb ℕ pb.decode_varint 3 varint fee third

  module _ {D : Type 0} (floats : Floats D) (laws : IsProtobuf pb)
      (u64 : (x : D) → floats.to_u64 x < 2 ^ 64) where
    pub market_protobuf_encode-IsMessage :
        (m : Market D) (named : IsNamed m) (max : ℕ)
        → estimate named.base named.quoted ≤ max
        → (bytes : Bytes) × (market_protobuf_encode floats pb m max ≡ ok (true, bytes))
          × (length bytes ≤ estimate named.base named.quoted)
          × IsMessage named.base named.quoted (fee_as_int floats m.fee) bytes
    unfolding market_protobuf_encode
    market_protobuf_encode-IsMessage m named max h =
        let (b, eb, lb) =
          laws.string_fits 1 length_delimited named.base max (omega arith) (omega arith) in
        let (c, ec, lc) =
          laws.string_fits 2 length_delimited named.quoted (max - length b) (omega arith)
            (omega arith) in
        let lbc = length-append b c in
        let (d, ed, ld) =
          laws.varint_fits 3 varint (fee_as_int floats m.fee) (max - length (b ++ c)) (omega arith)
            (u64 _) (omega arith) in
        (
          b ++ c ++ d,
          rw (named.has_base, eb, named.has_quoted, ec, ed),
          omega (arith, length-append (b ++ c) d),
          record {
            first = b;
            second = c;
            third = d;
            parts = refl;
            base_field = laws.string_encodes 1 length_delimited named.base max b eb;
            quoted_field =
                laws.string_encodes 2 length_delimited named.quoted (max - length b) c ec;
            fee_field =
                laws.varint_encodes 3 varint (fee_as_int floats m.fee) (max - length (b ++ c)) d
                  (u64 _) ed;
          },
        )

    -- The list as a row of fields, each with the message of its market.
    abbrev pub IsMessages : (ms : List (Market D)) → AllNamed ms → Bytes → Type 0
    IsMessages [] named out = out ≡ []
    IsMessages (m ∷ ms) (named, later) out =
        (message : Bytes) × (field : Bytes) × (rest : Bytes) × (out ≡ field ++ rest)
        × IsMessage named.base named.quoted (fee_as_int floats m.fee) message
        × Encodes pb Bytes pb.decode_length_delimited 1 length_delimited message field
        × IsMessages ms later rest

    encode_size-estimate :
        (m : Market D) (named : IsNamed m)
        → market_protobuf_encode_size floats m ≡ ok (estimate named.base named.quoted)
    unfolding market_protobuf_encode_size
    encode_size-estimate m named = rw (named.has_base, named.has_quoted)

    -- One round of the loop.
    encode_loop-round :
        (m : Market D) (ms : List (Market D)) (max size : ℕ) (written message field : Bytes)
        → market_protobuf_encode_size floats m ≡ ok size
        → market_protobuf_encode floats pb m size ≡ ok (true, message)
        → pb.encode_length_delimited 1 length_delimited message (max - length written) ≡ some field
        → encode_loop floats pb (m ∷ ms) max written
          ≡ encode_loop floats pb ms max (written ++ field)
    unfolding encode_loop append_message write_then
    encode_loop-round m ms max size written message field es em ef = rw (es, em, ef)

    rejoin :
        (written field rest : Bytes) (x y : Outcome (Bool × Bytes))
        → x ≡ y
        → y ≡ ok (true, written ++ field ++ rest)
        → x ≡ ok (true, written ++ (field ++ rest))
    rejoin written field rest x y e f =
        e ∙ f ∙ ap (λ z. ok (true, z)) (append_assoc written field rest)

    encode_loop-IsMessages :
        (ms : List (Market D)) (named : AllNamed ms) (max : ℕ) (written : Bytes)
        → length written + list_estimate ms named ≤ max
        → (out : Bytes) × (encode_loop floats pb ms max written ≡ ok (true, written ++ out))
          × (length out ≤ list_estimate ms named)
          × IsMessages ms named out
    encode_loop-IsMessages [] named max written h =
        ([], unfold encode_loop in rw append-nil, omega arith, refl)
    encode_loop-IsMessages (m ∷ ms) (named, later) max written h =
        let size = estimate named.base named.quoted in
        let (message, em, lm, is) = market_protobuf_encode-IsMessage m named size (omega arith) in
        let (field, ef, lf) =
          laws.delimited_fits 1 length_delimited message (max - length written) (omega arith)
            (omega arith) in
        let (rest, er, lr, more) =
          encode_loop-IsMessages ms later max (written ++ field)
            (omega (arith, length-append written field)) in
        let encodes =
          laws.delimited_encodes 1 length_delimited message (max - length written) field ef in
        (
          field ++ rest,
          rejoin written field rest _ _
              (encode_loop-round m ms max size written message field (encode_size-estimate m named)
                em ef)
              er,
          omega (arith, length-append field rest),
          (message, field, rest, refl, is, encodes, more),
        )

    size_of :
        (ms : List (Market D)) (named : AllNamed ms)
        → market_list_protobuf_encode_size floats ms ≡ ok (list_estimate ms named)
    unfolding market_list_protobuf_encode_size
    size_of [] named = refl
    size_of (m ∷ ms) (named, later) = rw (named.has_base, named.has_quoted, size_of ms later)

    -- Where every market has both names, `market_list_protobuf_encode_size` is computed, a buffer of
    -- that size takes the whole list, and what is written is a field for each market in order,
    -- which holds its names and its fee; not more bytes are written than were estimated.
    pub market_list_protobuf_encode-IsMessages :
        (ms : List (Market D)) (named : AllNamed ms)
        → (size : ℕ) × (out : Bytes) × (market_list_protobuf_encode_size floats ms ≡ ok size)
          × (market_list_protobuf_encode floats pb ms size ≡ ok (true, out))
          × (length out ≤ size)
          × IsMessages ms named out
    unfolding market_list_protobuf_encode
    market_list_protobuf_encode-IsMessages ms named =
        let (out, e, l, is) =
          encode_loop-IsMessages ms named (list_estimate ms named) [] (omega arith) in
        (list_estimate ms named, out, size_of ms named, e, l, is)
