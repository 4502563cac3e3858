-- ===== src/Base64/Tests.antt =====
-- include/utils/base64.h at small values.
use mathlib.Core.Path.{refl, ◌≡◌}
use ken_code_de_bridge.Base.{[], arith, codes, false, ok, true, ◌++◌, ◌∷◌}
use ken_code_de_bridge.Base64.{base64_decode, base64_encode}
use ken_code_de_bridge.Base64.RoundTrip.{base64_decode-encode}

base64_decode-encode_example :
    base64_decode (base64_encode (codes "Bridge!") false) ≡ ok (codes "Bridge!" ++ 0 ∷ [])
base64_decode-encode_example = base64_decode-encode b'B' (codes "ridge!") (
  ground arith,
  (
    ground arith,
    (ground arith, (ground arith, (ground arith, (ground arith, (ground arith, tt))))),
  ),
)

encoded_text : base64_encode (codes "Bridge!") false ≡ codes "QnJpZGdlIQ=="
unfolding base64_encode
encoded_text = refl

-- The line break stands behind the first block.
broken_text : base64_encode (codes "Bridge!") true ≡ codes "QnJp" ++ 10 ∷ codes "ZGdlIQ=="
unfolding base64_encode
broken_text = refl
