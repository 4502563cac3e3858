-- ===== src/MarketCodec/RoundTrip.antt =====
-- The decoders of book/market.c read back what its encoders write.
pub mod Lists
use ken_code_de_bridge.MarketCodec.Wire.{Encodes, Protobuf, WireType, length_delimited, varint}
use ken_code_de_bridge.Base.{
  Bytes, Floats, List, Option, [], ap, append-nil, append_assoc, arith, drop, false, length,
  length-append, ltb, lt→ltb, ok, refl, some, suc, sym, ℕ, ◌++◌, ◌+◌, ◌-◌, ◌<◌, ◌∙◌, ◌∷◌, ◌≡◌, ◌≤◌,
}
use ken_code_de_bridge.Book.{Market, market_new}
use ken_code_de_bridge.MarketCodec.{
  decode_field, decode_loop, fee_field, fee_of_int, market_protobuf_decode, string_field,
}
use ken_code_de_bridge.MarketCodec.Fits.{IsMessage}

pub drop-append_length {ℓ} : {A : Type ℓ} (xs ys : List A) → drop (length xs) (xs ++ ys) ≡ ys
drop-append_length [] ys = refl
drop-append_length (x ∷ xs) ys = drop-append_length xs ys

-- A field that stands behind `before` in a buffer: where its header and its payload are read.
module _ (pb : Protobuf) {V : Type 0} (decode : Bytes → ℕ → Option (V × ℕ)) (field : ℕ)
    (type : WireType) (value : V) (bytes : Bytes) (enc : Encodes pb V decode field type value bytes)
    (before rest buffer : Bytes) (at len : ℕ) (stands : buffer ≡ before ++ (bytes ++ rest))
    (here : at ≡ length before) (fits : at + length bytes ≤ len) where
  split_buffer : buffer ≡ before ++ (enc.header ++ (enc.payload ++ rest))
  split_buffer =
      stands
      ∙ ap (λ x. before ++ (x ++ rest)) enc.splits
      ∙ ap (λ x. before ++ x) (append_assoc enc.header enc.payload rest)

  length_field : length bytes ≡ length enc.header + length enc.payload
  length_field = omega (arith, ap length enc.splits, length-append enc.header enc.payload)

  header_read :
      pb.decode_field_and_type (drop at buffer) len ≡ some (field, type, length enc.header)
  header_read =
      let tail = drop-append_length before (enc.header ++ (enc.payload ++ rest)) in
      let split = split_buffer in
      let from : drop at buffer ≡ enc.header ++ (enc.payload ++ rest) = rw (here, split) tail in
      rw from (enc.reads_header (enc.payload ++ rest) len (omega (arith, fits, length_field)))

  payload_read :
      decode (drop (at + length enc.header) buffer) (len - (at + length enc.header))
      ≡ some (value, length enc.payload)
  payload_read =
      let split : buffer ≡ (before ++ enc.header) ++ (enc.payload ++ rest) =
        split_buffer ∙ sym (append_assoc before enc.header (enc.payload ++ rest)) in
      let place : at + length enc.header ≡ length (before ++ enc.header) =
        omega (arith, length-append before enc.header) in
      let from : drop (at + length enc.header) buffer ≡ enc.payload ++ rest =
        rw (place, split) (drop-append_length (before ++ enc.header) (enc.payload ++ rest)) in
      rw from (enc.reads_payload rest _ (omega (arith, fits, length_field)))

-- A field of a buffer ends in it.
pub fits_in :
    (before bytes rest buffer : Bytes)
    → buffer ≡ before ++ (bytes ++ rest)
    → length before + length bytes ≤ length buffer
fits_in before bytes rest buffer stands =
    omega (arith, ap length stands, length-append before (bytes ++ rest), length-append bytes rest)

module _ {D : Type 0} (floats : Floats D) (pb : Protobuf) (buffer : Bytes) where
  -- One round of `market_protobuf_decode`.
  decode_round :
      (fuel at field k more : ℕ) (type : WireType) (m m' : Market D)
      → at < length buffer
      → pb.decode_field_and_type (drop at buffer) (length buffer) ≡ some (field, type, k)
      → decode_field floats pb field (drop (at + k) buffer) (length buffer - (at + k)) m
        ≡ some (m', more)
      → decode_loop floats pb (suc fuel) buffer (length buffer) at m
        ≡ decode_loop floats pb fuel buffer (length buffer) (at + k + more) m'
  unfolding decode_loop
  decode_round fuel at field k more type m m' h e f = rw (lt→ltb _ _ h, e, f)

  decode_end :
      (fuel at : ℕ) (m : Market D)
      → at ≡ length buffer
      → decode_loop floats pb (suc fuel) buffer (length buffer) at m ≡ ok (some m)
  unfolding decode_loop
  decode_end fuel at m e = let test : ltb at (length buffer) ≡ false = ground arith in rw test

  -- A round over a field that stands behind `before`, by what the switch makes of its payload.
  module _ (before bytes rest : Bytes) (stands : buffer ≡ before ++ (bytes ++ rest)) where
    field_round :
        {V : Type 0} (decode : Bytes → ℕ → Option (V × ℕ)) (field : ℕ) (type : WireType) (value : V)
        (enc : Encodes pb V decode field type value bytes) (fuel : ℕ) (m m' : Market D)
        → ((rest : Bytes) (len : ℕ) (more : ℕ)
            → decode rest len ≡ some (value, more)
            → decode_field floats pb field rest len m ≡ some (m', more))
        → decode_loop floats pb (suc fuel) buffer (length buffer) (length before) m
          ≡ decode_loop floats pb fuel buffer (length buffer) (length (before ++ bytes)) m'
    field_round decode field type value enc fuel m m' switch =
        let fits = fits_in before bytes rest buffer stands in
        let both =
          length_field pb decode field type value bytes enc before rest buffer (length before)
            (length buffer) stands refl fits in
        let next : length before + length enc.header + length enc.payload
            ≡ length (before ++ bytes) =
          omega (arith, length-append before bytes, both) in
        decode_round fuel (length before) field (length enc.header) (length enc.payload) type m m'
          (omega (arith, fits, both, enc.not_empty))
          (header_read pb decode field type value bytes enc before rest buffer (length before)
            (length buffer) stands refl fits)
          (switch _ _ _ (
            payload_read pb decode field type value bytes enc before rest buffer (length before)
              (length buffer) stands refl fits))
        ∙ ap (λ at. decode_loop floats pb fuel buffer (length buffer) at m') next

  switch_base :
      (m : Market D) (str rest : Bytes) (len more : ℕ)
      → pb.decode_string rest len ≡ some (str, more)
      → decode_field floats pb 1 rest len m ≡ some (record m { base_currency = some str }, more)
  unfolding decode_field string_field
  switch_base m str rest len more e = rw e

  switch_quoted :
      (m : Market D) (str rest : Bytes) (len more : ℕ)
      → pb.decode_string rest len ≡ some (str, more)
      → decode_field floats pb 2 rest len m ≡ some (record m { market_currency = some str }, more)
  unfolding decode_field string_field
  switch_quoted m str rest len more e = rw e

  switch_fee :
      (m : Market D) (n : ℕ) (rest : Bytes) (len more : ℕ)
      → pb.decode_varint rest len ≡ some (n, more)
      → decode_field floats pb 3 rest len m ≡ some (record m { fee = fee_of_int floats n }, more)
  unfolding decode_field fee_field
  switch_fee m n rest len more e = rw e

  -- The market of a message: names and fee, all else as `market_new` left it.
  abbrev pub decoded : Bytes → Bytes → ℕ → Market D
  decoded base quoted n = record (market_new floats) {
    base_currency = some base;
    market_currency = some quoted;
    fee = fee_of_int floats n;
  }

  message_rounds :
      (base quoted : Bytes) (n : ℕ)
      → IsMessage pb base quoted n buffer
      → (fuel : ℕ)
      → decode_loop floats pb
          (suc (suc (suc (suc fuel))))
          buffer
          (length buffer)
          0
          (market_new floats)
        ≡ ok (some (decoded base quoted n))
  message_rounds base quoted n is fuel =
      let inner = is.parts ∙ append_assoc is.first is.second is.third in
      let outer = is.parts ∙ ap (λ x. is.first ++ is.second ++ x) (sym (append-nil is.third)) in
      field_round [] is.first (is.second ++ is.third) inner pb.decode_string 1 length_delimited base
        is.base_field _ _ _ (switch_base _ base)
      ∙ field_round is.first is.second is.third inner pb.decode_string 2 length_delimited quoted
          is.quoted_field _ _ _ (switch_quoted _ quoted)
      ∙ field_round (is.first ++ is.second) is.third [] outer pb.decode_varint 3 varint n
          is.fee_field _ _ _ (switch_fee _ n)
      ∙ decode_end fuel _ _ (ap length (sym is.parts))

  long_enough :
      (base quoted : Bytes) (n : ℕ) → IsMessage pb base quoted n buffer → 3 ≤ length buffer
  long_enough base quoted n is =
      let a = length-append is.base_field.header is.base_field.payload in
      let b = length-append is.quoted_field.header is.quoted_field.payload in
      let c = length-append is.fee_field.header is.fee_field.payload in
      let d = length-append (is.first ++ is.second) is.third in
      let e = length-append is.first is.second in
      omega (
        arith,
        a,
        b,
        c,
        d,
        e,
        ap length is.parts,
        ap length is.base_field.splits,
        ap length is.quoted_field.splits,
        ap length is.fee_field.splits,
      )

  pub market_protobuf_decode-message :
      (base quoted : Bytes) (n : ℕ)
      → IsMessage pb base quoted n buffer
      → market_protobuf_decode floats pb buffer (length buffer) ≡ ok (some (decoded base quoted n))
  unfolding market_protobuf_decode
  market_protobuf_decode-message base quoted n is =
      let fuel : suc (length buffer) ≡ suc (suc (suc (suc (length buffer - 3)))) =
        omega (arith, long_enough base quoted n is) in
      ap (λ k. decode_loop floats pb k buffer (length buffer) 0 (market_new floats)) fuel
      ∙ message_rounds base quoted n is (length buffer - 3)
