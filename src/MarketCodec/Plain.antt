-- ===== src/MarketCodec/Plain.antt =====
-- A protobuf library in small: one byte for number and type, one for a length or a number. It meets
-- the contract of `IsProtobuf`, so that the theorems over it speak of something.
use ken_code_de_bridge.Base.{
  Bool, Bytes, List, Option, [], ap, arith, false, if◌then◌else◌, leb, length, ltb, lt→ltb, none,
  refl, some, suc, take, true, ℕ, ◌%◌, ◌*◌, ◌++◌, ◌+◌, ◌/◌, ◌==◌, ◌∷◌, ◌≡◌, ◌≤◌,
}
use ken_code_de_bridge.MarketCodec.{
  Encodes, IsProtobuf, Protobuf, WireType, length_delimited, varint,
}

abbrev type_code : WireType → ℕ
type_code length_delimited = 0
type_code varint = 1

abbrev tag_byte : ℕ → WireType → ℕ
tag_byte field type = field * 2 + type_code type

abbrev write_text : ℕ → WireType → Bytes → ℕ → Option Bytes
write_text field type str max =
    if leb (length str + 2) max then some (tag_byte field type ∷ length str ∷ str) else none

abbrev write_number : ℕ → WireType → ℕ → ℕ → Option Bytes
write_number field type n max = if leb 2 max then some (tag_byte field type ∷ n ∷ []) else none

abbrev read_tag : Bytes → ℕ → Option (ℕ × WireType × ℕ)
read_tag [] len = none
read_tag (b ∷ rest) len =
    if len == 0 then none else some (b / 2, (if b % 2 == 0 then length_delimited else varint), 1)

abbrev read_text : Bytes → ℕ → Option (Bytes × ℕ)
read_text [] len = none
read_text (n ∷ rest) len = if ltb n len then some (take n rest, suc n) else none

abbrev read_number : Bytes → ℕ → Option (ℕ × ℕ)
read_number [] len = none
read_number (n ∷ rest) len = if len == 0 then none else some (n, 1)

abbrev pub plain : Protobuf
plain = record {
  encode_string = write_text;
  encode_varint = write_number;
  encode_length_delimited = write_text;
  decode_field_and_type = read_tag;
  decode_string = read_text;
  decode_varint = read_number;
  decode_length_delimited = read_text;
}

take-length_append {ℓ} : {A : Type ℓ} (xs ys : List A) → take (length xs) (xs ++ ys) ≡ xs
take-length_append [] ys = refl
take-length_append (x ∷ xs) ys = ap (λ r. x ∷ r) (take-length_append xs ys)

tag-read :
    (field : ℕ) (type : WireType) (rest : Bytes) (len : ℕ)
    → 1 ≤ len
    → read_tag (tag_byte field type ∷ rest) len ≡ some (field, type, 1)
tag-read field length_delimited rest len h = ground arith
tag-read field varint rest len h = ground arith

text-read :
    (str rest : Bytes) (len : ℕ)
    → suc (length str) ≤ len
    → read_text (length str ∷ (str ++ rest)) len ≡ some (str, suc (length str))
text-read str rest len h = rw (lt→ltb _ _ h, take-length_append)

number-read : (n : ℕ) (rest : Bytes) (len : ℕ) → 1 ≤ len → read_number (n ∷ rest) len ≡ some (n, 1)
number-read n rest len h = ground arith

le→leb : (a b : ℕ) → a ≤ b → leb a b ≡ true
le→leb a b h = ground arith

text_fits :
    (field : ℕ) (type : WireType) (str : Bytes) (max : ℕ)
    → length str + 11 ≤ max
    → (bytes : Bytes) × (write_text field type str max ≡ some bytes)
      × (length bytes ≤ length str + 11)
text_fits field type str max h = (
  tag_byte field type ∷ length str ∷ str,
  rw (le→leb (length str + 2) max (omega arith)),
  omega arith,
)

if-some : (b : Bool) (x bytes : Bytes) → (if b then some x else none) ≡ some bytes → bytes ≡ x
if-some true x bytes e = cc
if-some false x bytes e = cc

text_encodes :
    (field : ℕ) (type : WireType) (str : Bytes) (max : ℕ) (bytes : Bytes)
    → write_text field type str max ≡ some bytes
    → Encodes plain Bytes read_text field type str bytes
text_encodes field type str max bytes e = record {
  header = tag_byte field type ∷ [];
  payload = length str ∷ str;
  splits = if-some (leb (length str + 2) max) _ bytes e;
  not_empty = omega arith;
  reads_header = λ rest len h. tag-read field type rest len h;
  reads_payload = λ rest len h. text-read str rest len h;
}

number_encodes :
    (field : ℕ) (type : WireType) (n max : ℕ) (bytes : Bytes)
    → write_number field type n max ≡ some bytes
    → Encodes plain ℕ read_number field type n bytes
number_encodes field type n max bytes e = record {
  header = tag_byte field type ∷ [];
  payload = n ∷ [];
  splits = if-some (leb 2 max) _ bytes e;
  not_empty = omega arith;
  reads_header = λ rest len h. tag-read field type rest len h;
  reads_payload = λ rest len h. number-read n rest len h;
}

pub plain-IsProtobuf : IsProtobuf plain
plain-IsProtobuf = record {
  string_fits = λ field type str max f h. text_fits field type str max h;
  varint_fits = λ field type n max f u h.
      (tag_byte field type ∷ n ∷ [], rw (le→leb 2 max (omega arith)), omega arith);
  delimited_fits = λ field type str max f h. text_fits field type str max h;
  string_encodes = text_encodes;
  varint_encodes = λ field type n max bytes u e. number_encodes field type n max bytes e;
  delimited_encodes = text_encodes;
}
