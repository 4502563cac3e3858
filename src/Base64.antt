-- ===== src/Base64.antt =====
-- include/utils/base64.h. A `char` is signed there, and no character of a valid text is past 127.
pub mod RoundTrip
pub mod Length
mod Tests
use ken_code_de_bridge.Base.{
  Bool, Bytes, Outcome, [], codes, fault, get_or, if◌then◌else◌, leb, ok, ℕ, ◌%◌, ◌&&◌, ◌*◌, ◌+◌,
  ◌-◌, ◌/◌, ◌==◌, ◌>>=◌, ◌∷◌,
}

abbrev pub charset : Bytes
charset = codes "ABCDEFGHIJKLMNOPQRSTUVWXYZabcdefghijklmnopqrstuvwxyz0123456789+/"

-- `charset[n]`, for n below 64
abbrev char_of : ℕ → ℕ
char_of n = get_or charset n 0

unfoldable pub revchar : ℕ → ℕ
revchar ch =
    if leb b'A' ch && leb ch b'Z'
    then ch - b'A'
    else if leb b'a' ch && leb ch b'z'
    then ch - b'a' + 26
    else if leb b'0' ch && leb ch b'9'
    then ch - b'0' + 52
    else if ch == b'+'
    then 62
    else if ch == b'/'
    then 63
    else ch

-- The blocks from the output position `idx2` on, and what is left over. (Shifts and masks are
-- written with / and %.)
encode_from : ℕ → Bool → Bytes → Bytes
encode_from idx2 newline_flag [] = []
encode_from idx2 newline_flag (a ∷ []) = char_of (a / 4) ∷ char_of (a % 4 * 16) ∷ b'=' ∷ b'=' ∷ []
encode_from idx2 newline_flag (a ∷ b ∷ []) =
    char_of (a / 4) ∷ char_of (a % 4 * 16 + b / 16) ∷ char_of (b % 16 * 4) ∷ b'=' ∷ []
encode_from idx2 newline_flag (a ∷ b ∷ c ∷ rest) =
    char_of (a / 4)
    ∷ char_of (a % 4 * 16 + b / 16)
    ∷ char_of (b % 16 * 4 + c / 64)
    ∷ char_of (c % 64)
    ∷ (if idx2 % 77 == 0 && newline_flag
        then 10 ∷ encode_from (idx2 + 5) newline_flag rest
        else encode_from (idx2 + 4) newline_flag rest)

-- The text; its length is what the function returns.
unfoldable pub base64_encode : Bytes → Bool → Bytes
unfolding encode_from
base64_encode bytes newline_flag = encode_from 0 newline_flag bytes

-- `if (in[len-1] == '=') len--;`, which needs a character.
without_last : Bytes → Bytes
without_last [] = []
without_last (c ∷ []) = if c == b'=' then [] else c ∷ []
without_last (c ∷ d ∷ text) = c ∷ without_last (d ∷ text)

unpad : Bytes → Outcome Bytes
unfolding without_last
unpad [] = fault
unpad (c ∷ text) = ok (without_last (c ∷ text))

-- What is left over behind the blocks of four gives as many bytes as it has characters.
decode_from : Bytes → Bytes
unfolding revchar
decode_from (p ∷ q ∷ r ∷ s ∷ text) =
    (revchar p * 4 + revchar q / 16 % 4) % 256
    ∷ (revchar q * 16 + revchar r / 4) % 256
    ∷ (revchar r * 64 + revchar s) % 256
    ∷ decode_from text
decode_from (p ∷ q ∷ r ∷ []) =
    (revchar p * 4 + revchar q / 16 % 4) % 256
    ∷ (revchar q * 16 + revchar r / 4) % 256
    ∷ revchar r * 64 % 256
    ∷ []
decode_from (p ∷ q ∷ []) = (revchar p * 4 + revchar q / 16 % 4) % 256 ∷ revchar q * 16 % 256 ∷ []
decode_from _ = []

unfoldable pub base64_decode : Bytes → Outcome Bytes
unfolding decode_from unpad
base64_decode text = do once ← unpad text; twice ← unpad once; ok (decode_from twice)
