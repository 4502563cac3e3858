-- ===== src/Base64/Length.antt =====
-- The length of an encoded text.
use ken_code_de_bridge.Base.{Bytes, [], arith, false, length, refl, ℕ, ◌*◌, ◌+◌, ◌/◌, ◌∷◌, ◌≡◌}
use ken_code_de_bridge.Base64.{base64_encode, encode_from}

length-encode_from :
    (i : ℕ) (bytes : Bytes) → length (encode_from i false bytes) ≡ 4 * ((length bytes + 2) / 3)
unfolding encode_from
length-encode_from i [] = refl
length-encode_from i (a ∷ []) = refl
length-encode_from i (a ∷ b ∷ []) = refl
length-encode_from i (a ∷ b ∷ c ∷ rest) = ground (arith, length-encode_from (i + 4) rest)

-- Four characters for each block of three bytes that has begun.
pub length-base64_encode :
    (bytes : Bytes) → length (base64_encode bytes false) ≡ 4 * ((length bytes + 2) / 3)
unfolding base64_encode
length-base64_encode bytes = length-encode_from 0 bytes
