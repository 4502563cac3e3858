-- ===== src/Https/Hex.antt =====
-- Bytes to hexadecimal text and back.
use ken_code_de_bridge.Base.{
  Bytes, [], arith, length, ok, refl, some, ℕ, ◌%◌, ◌*◌, ◌+◌, ◌/◌, ◌<◌, ◌∷◌, ◌≡◌,
}
use ken_code_de_bridge.Https.{
  hex_digit, hex_pairs, hex_value, utils_https_bytes_to_hex_string, utils_https_hex_string_to_bytes,
}

hex_value-digit : (n : ℕ) → n < 16 → hex_value (hex_digit n) ≡ some n
unfolding hex_value hex_digit
hex_value-digit n h = ground arith

abbrev pub AllBytes : Bytes → Type 0
AllBytes [] = Unit
AllBytes (b ∷ bytes) = (b < 256) × AllBytes bytes

hex_pairs-bytes :
    (bytes : Bytes) → AllBytes bytes → hex_pairs (utils_https_bytes_to_hex_string bytes) ≡ ok bytes
unfolding hex_pairs utils_https_bytes_to_hex_string
hex_pairs-bytes [] h = refl
hex_pairs-bytes (b ∷ bytes) (hb, h) =
    let high = hex_value-digit (b / 16) (omega arith) in
    let low = hex_value-digit (b % 16) (omega arith) in
    let whole : b / 16 * 16 + b % 16 ≡ b = omega arith in
    rw (high, low, whole, hex_pairs-bytes bytes h)

length-hex : (bytes : Bytes) → length (utils_https_bytes_to_hex_string bytes) ≡ 2 * length bytes
unfolding utils_https_bytes_to_hex_string
length-hex [] = omega arith
length-hex (b ∷ bytes) = omega (arith, length-hex bytes)

-- The text of any bytes is two digits for each, and reading it with the length of the text gives the
-- bytes again.
pub utils_https_hex_string_to_bytes-bytes_to_hex_string :
    (bytes : Bytes)
    → AllBytes bytes
    → (length (utils_https_bytes_to_hex_string bytes) ≡ 2 * length bytes)
      × (utils_https_hex_string_to_bytes
            (utils_https_bytes_to_hex_string bytes)
            (length (utils_https_bytes_to_hex_string bytes))
          ≡ ok (some bytes))
unfolding utils_https_hex_string_to_bytes
utils_https_hex_string_to_bytes-bytes_to_hex_string bytes h =
    let twice = length-hex bytes in
    let even : length (utils_https_bytes_to_hex_string bytes) % 2 ≡ 0 = omega (arith, twice) in
    (twice, rw (even, hex_pairs-bytes bytes h))
