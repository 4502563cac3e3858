-- ===== src/Https/Tests.antt =====
-- utils/https.c at small values.
use mathlib.Core.Path.{refl, ◌≡◌}
use ken_code_de_bridge.Base.{Bytes, [], arith, codes, length, none, ok, some, ◌∷◌}
use ken_code_de_bridge.Https.{
  Curl, Parameter, utils_https_build_postfield, utils_https_bytes_to_hex_string,
  utils_https_hex_string_to_bytes, utils_https_new,
}
use ken_code_de_bridge.Https.Hex.{utils_https_hex_string_to_bytes-bytes_to_hex_string}
use ken_code_de_bridge.Https.Post.{add_all, utils_https_build_postfield-add}

abbrev digest : Bytes
digest = 0 ∷ 10 ∷ 255 ∷ 160 ∷ []

utils_https_hex_string_to_bytes-bytes_to_hex_string_example :
    (length (utils_https_bytes_to_hex_string digest) ≡ 8)
    × (utils_https_hex_string_to_bytes
          (utils_https_bytes_to_hex_string digest)
          (length (utils_https_bytes_to_hex_string digest))
        ≡ ok (some digest))
utils_https_hex_string_to_bytes-bytes_to_hex_string_example =
    utils_https_hex_string_to_bytes-bytes_to_hex_string digest
      (ground arith, (ground arith, (ground arith, (ground arith, tt))))

digest_text : utils_https_bytes_to_hex_string digest ≡ codes "000affa0"
unfolding utils_https_bytes_to_hex_string
digest_text = refl

-- A library that never connects, and escapes nothing.
abbrev silent : Curl
silent = record { perform = λ request. none; escape = λ text. text }

abbrev command : Parameter
command = record { name = codes "command"; value = codes "returnTicker" }

abbrev nonce : Parameter
nonce = record { name = codes "nonce"; value = codes "7" }

utils_https_build_postfield-add_example :
    ((add_all utils_https_new (command ∷ nonce ∷ [])).post_parameters
      ≡ some (codes "command=returnTicker&nonce=7"))
    × (utils_https_build_postfield silent (command ∷ nonce ∷ [])
        ≡ ok (codes "command=returnTicker&nonce=7"))
utils_https_build_postfield-add_example =
    utils_https_build_postfield-add silent command (nonce ∷ [])
