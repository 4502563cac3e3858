-- ===== src/WebSocket/Digest.antt =====
-- utils/websocket.c: `base64` and `sha1`, which allocate what they return, and the callbacks that pass
-- their client on. `memory` is whether `malloc` finds some.
use ken_code_de_bridge.Base.{
  Bool, Bytes, Option, Outcome, arith, false, fault, if◌then◌else◌, leb, length, none, ok, refl,
  some, true, ℕ, ◌*◌, ◌+◌, ◌/◌, ◌≡◌,
}
use ken_code_de_bridge.Base64.{base64_encode}
use ken_code_de_bridge.Base64.Length.{length-base64_encode}

-- The text and its NUL are written into an array of `size` bytes.
abbrev stored : ℕ → Bytes → Outcome (Option Bytes)
stored size text = if leb (length text + 1) size then ok (some text) else fault

unfoldable pub base64 : Bool → Bytes → Outcome (Option Bytes)
unfolding base64_encode
base64 memory bytes =
    if memory then stored ((length bytes / 3 + 1) * 4 + 1) (base64_encode bytes false) else ok none

-- The digest has no NUL behind it.
unfoldable pub sha1 : (Bytes → Bytes) → Bool → Bytes → Option Bytes
sha1 digest memory text = if memory then some (digest text) else none

-- The array of `base64` has room for the text of any bytes and its NUL, in which the text has four
-- characters for each block of three bytes that has begun.
pub base64-fits :
    (bytes : Bytes)
    → (text : Bytes) × (base64 true bytes ≡ ok (some text))
      × (length text ≡ 4 * ((length bytes + 2) / 3))
unfolding base64
base64-fits bytes =
    let e = length-base64_encode bytes in
    let room : leb (length (base64_encode bytes false) + 1) ((length bytes / 3 + 1) * 4 + 1)
        ≡ true =
      ground (arith, e) in
    (base64_encode bytes false, rw room refl, e)
