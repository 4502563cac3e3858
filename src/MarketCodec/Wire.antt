-- ===== src/MarketCodec/Wire.antt =====
-- What book/market.c uses of the protobuf library, and what it relies on.
use ken_code_de_bridge.Base.{Bytes, Option, length, some, ℕ, ◌++◌, ◌+◌, ◌<◌, ◌^◌, ◌≡◌, ◌≤◌}

-- The wire types of `enum WireType` that the program names.
pub data WireType : Type 0 where
  length_delimited varint : WireType

-- An encoder takes the field's number and type, the value and the room in the buffer, and gives the
-- bytes that it writes; `none` is a returned 0. A decoder takes the bytes from a position on and the
-- length that it is told, and gives the value with the number of bytes read.
pub record Protobuf : Type 0 where
  pub encode_string : ℕ → WireType → Bytes → ℕ → Option Bytes
  pub encode_varint : ℕ → WireType → ℕ → ℕ → Option Bytes
  pub encode_length_delimited : ℕ → WireType → Bytes → ℕ → Option Bytes
  pub decode_field_and_type : Bytes → ℕ → Option (ℕ × WireType × ℕ)
  pub decode_string : Bytes → ℕ → Option (Bytes × ℕ)
  pub decode_varint : Bytes → ℕ → Option (ℕ × ℕ)
  pub decode_length_delimited : Bytes → ℕ → Option (Bytes × ℕ)

-- `bytes` are a field: a header that reads as number and type, and a payload that `decode` reads
-- as the value, whatever follows, if the length told covers them.
pub record Encodes (pb : Protobuf) (V : Type 0) (decode : Bytes → ℕ → Option (V × ℕ)) (field : ℕ)
    (type : WireType) (value : V) (bytes : Bytes) : Type 0 where
  pub header : Bytes
  pub payload : Bytes
  pub splits : bytes ≡ header ++ payload
  pub not_empty : 0 < length header
  pub reads_header :
      (rest : Bytes) (len : ℕ)
      → length header ≤ len
      → pb.decode_field_and_type (header ++ rest) len ≡ some (field, type, length header)
  pub reads_payload :
      (rest : Bytes) (len : ℕ)
      → length payload ≤ len
      → decode (payload ++ rest) len ≡ some (value, length payload)

-- The library's contract. A header of a field below 16 takes one byte and a length or a number at
-- most ten, so that eleven bytes more than the text are room enough.
pub record IsProtobuf (pb : Protobuf) : Type 0 where
  pub string_fits :
      (field : ℕ) (type : WireType) (str : Bytes) (max : ℕ)
      → field < 16
      → length str + 11 ≤ max
      → (bytes : Bytes) × (pb.encode_string field type str max ≡ some bytes)
        × (length bytes ≤ length str + 11)
  pub varint_fits :
      (field : ℕ) (type : WireType) (n max : ℕ)
      → field < 16
      → n < 2 ^ 64
      → 11 ≤ max
      → (bytes : Bytes) × (pb.encode_varint field type n max ≡ some bytes) × (length bytes ≤ 11)
  pub delimited_fits :
      (field : ℕ) (type : WireType) (str : Bytes) (max : ℕ)
      → field < 16
      → length str + 11 ≤ max
      → (bytes : Bytes) × (pb.encode_length_delimited field type str max ≡ some bytes)
        × (length bytes ≤ length str + 11)
  pub string_encodes :
      (field : ℕ) (type : WireType) (str : Bytes) (max : ℕ) (bytes : Bytes)
      → pb.encode_string field type str max ≡ some bytes
      → Encodes pb Bytes pb.decode_string field type str bytes
  pub varint_encodes :
      (field : ℕ) (type : WireType) (n max : ℕ) (bytes : Bytes)
      → n < 2 ^ 64
      → pb.encode_varint field type n max ≡ some bytes
      → Encodes pb ℕ pb.decode_varint field type n bytes
  pub delimited_encodes :
      (field : ℕ) (type : WireType) (str : Bytes) (max : ℕ) (bytes : Bytes)
      → pb.encode_length_delimited field type str max ≡ some bytes
      → Encodes pb Bytes pb.decode_length_delimited field type str bytes
