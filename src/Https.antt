-- ===== src/Https.antt =====
-- utils/https.c. libcurl is a record of the functions called (`Curl`), mbedtls the parameter `hmac`,
-- and the clock the parameter `nonce` of the callers. A transfer fails, or it hands over its body in
-- pieces, which hold no NUL.
pub mod Nonce
pub mod Hex
pub mod Post
mod Tests
use ken_code_de_bridge.Base.{
  Bytes, List, Option, Outcome, [], codes, deref, fault, if◌then◌else◌, leb, length, ltb, negsuc,
  none, ok, pos, some, ℕ, ℤ, ◌%◌, ◌&&◌, ◌*◌, ◌++◌, ◌+◌, ◌-◌, ◌/◌, ◌==◌, ◌>>=◌, ◌||◌, ◌∷◌,
}

-- The parts of a `HttpConnection` that are not libcurl's.
pub record HttpConnection : Type 0 where
  pub headers : List Bytes
  pub post_parameters : Option Bytes
  pub encoded_post_parameters : Option Bytes

-- What a transfer depends on: the address, the fields to post, and the headers.
pub record Request : Type 0 where
  pub url : Bytes
  pub fields : Option Bytes
  pub with_headers : List Bytes

pub record Curl : Type 0 where
  -- `curl_easy_perform`; `none` stands for a result other than CURLE_OK
  pub perform : Request → Option (List Bytes)
  -- `curl_easy_escape`
  pub escape : Bytes → Bytes

abbrev pub utils_https_new : HttpConnection
utils_https_new = record { headers = []; post_parameters = none; encoded_post_parameters = none }

-- The memory that a transfer fills: `none` is the one byte of the start, which nothing has written.
abbrev pub write_memory_callback : Option Bytes → Bytes → Option Bytes
write_memory_callback none contents = some contents
write_memory_callback (some memory) contents = some (memory ++ contents)

abbrev pub write_all : Option Bytes → List Bytes → Option Bytes
write_all memory [] = memory
write_all memory (contents ∷ rest) = write_all (write_memory_callback memory contents) rest

-- The returned code, and `*results`: `none` is memory that nothing has written.
abbrev answered : Option (List Bytes) → ℤ × Option Bytes
answered none = (negsuc 0, none)
answered (some pieces) = (pos 0, write_all none pieces)

unfoldable pub utils_https_get : Curl → HttpConnection → Bytes → ℤ × Option Bytes
utils_https_get curl connection url =
    answered (curl.perform (record { url = url; fields = none; with_headers = connection.headers }))

unfoldable pub utils_https_post : Curl → HttpConnection → Bytes → ℤ × Option Bytes
utils_https_post curl connection url = answered (
    curl.perform (record {
      url = url;
      fields = connection.post_parameters;
      with_headers = connection.headers;
    }))

-- `strcat` into an array of `size` bytes, with the NUL behind the text.
abbrev pub strcat : ℕ → Bytes → Bytes → Outcome Bytes
strcat size text more = if ltb (length text + length more) size then ok (text ++ more) else fault

pub record Parameter : Type 0 where
  pub name : Bytes
  pub value : Bytes

unfoldable pub postfield_length : List Parameter → ℕ
postfield_length [] = 0
postfield_length (p ∷ parameters) = length p.name + length p.value + 2 + postfield_length parameters

postfield_loop : ℕ → List Parameter → Bytes → Outcome Bytes
postfield_loop size [] postfield = ok postfield
postfield_loop size (p ∷ parameters) postfield = do
  begun ← if ltb 0 (length postfield) then strcat size postfield (b'&' ∷ []) else ok postfield
  named ← strcat size begun p.name
  equals ← strcat size named (b'=' ∷ [])
  done ← strcat size equals p.value
  postfield_loop size parameters done

-- Without a parameter the array has no byte, and `strlen` of it is undefined.
unfoldable pub utils_https_build_postfield : Curl → List Parameter → Outcome Bytes
unfolding postfield_loop postfield_length
utils_https_build_postfield curl [] = fault
utils_https_build_postfield curl (p ∷ parameters) = do
  postfield ← postfield_loop (postfield_length (p ∷ parameters)) (p ∷ parameters) []
  ok (curl.escape postfield)

-- `snprintf` into the memory that was sized for it.
abbrev pub parameter_text : Bytes → Bytes → Bytes
parameter_text name value = name ++ b'=' ∷ value

unfoldable pub utils_https_add_post_parameter : HttpConnection → Bytes → Bytes → HttpConnection
utils_https_add_post_parameter connection name value = elim connection.post_parameters [
  | none ↦ record connection { post_parameters = some (parameter_text name value) }
  | some old ↦ record connection {
    post_parameters = some (old ++ b'&' ∷ parameter_text name value);
  }
]

abbrev header_text : Bytes → Option Bytes → Bytes
header_text name none = name ++ codes ":"
header_text name (some value) = name ++ codes ": " ++ value

unfoldable pub utils_https_add_header : HttpConnection → Bytes → Option Bytes → HttpConnection
utils_https_add_header connection name value = record connection {
  headers = connection.headers ++ header_text name value ∷ [];
}

unfoldable pub utils_https_encode_parameters : Curl → HttpConnection → Outcome HttpConnection
utils_https_encode_parameters curl connection = do
  parameters ← deref connection.post_parameters
  ok (record connection { encoded_post_parameters = some (curl.escape parameters) })

-- The digits of a number in base 16, and back as `strtol` reads them.
unfoldable pub hex_digit : ℕ → ℕ
hex_digit n = if ltb n 10 then n + 48 else n + 87

unfoldable pub hex_value : ℕ → Option ℕ
hex_value c =
    if leb 48 c && leb c 57
    then some (c - 48)
    else if leb 97 c && leb c 102
    then some (c - 87)
    else if leb 65 c && leb c 70
    then some (c - 55)
    else none

-- `strtol(item, NULL, 16)` of two characters, cut to a byte. A blank or a sign may come first.
abbrev strtol_second : ℕ → Option ℕ → ℕ
strtol_second c none = 0
strtol_second c (some d) =
    if c == b'-'
    then (256 - d) % 256
    else if c == b'+' || c == b' ' || (leb 9 c && leb c 13)
    then d
    else 0

abbrev strtol_pair : ℕ → Option ℕ → Option ℕ → ℕ
strtol_pair c none second = strtol_second c second
strtol_pair c (some n) none = n
strtol_pair c (some n) (some m) = n * 16 + m

-- The loop over the pairs. At an odd end it writes behind the array.
hex_pairs : Bytes → Outcome Bytes
hex_pairs [] = ok []
hex_pairs (c ∷ []) = fault
hex_pairs (c ∷ d ∷ string) = do
  array ← hex_pairs string
  ok (strtol_pair c (hex_value c) (hex_value d) ∷ array)

-- `len` is `*len` on entry. NULL is `none`.
unfoldable pub utils_https_hex_string_to_bytes : Bytes → ℕ → Outcome (Option Bytes)
unfolding hex_pairs hex_value
utils_https_hex_string_to_bytes string len =
    let converted = hex_pairs string >>= λ array. ok (some array) in
    if len % 2 == 0 then converted else ok none

unfoldable pub utils_https_bytes_to_hex_string : Bytes → Bytes
unfolding hex_digit
utils_https_bytes_to_hex_string [] = []
utils_https_bytes_to_hex_string (b ∷ bytes) =
    hex_digit (b / 16) ∷ hex_digit (b % 16) ∷ utils_https_bytes_to_hex_string bytes

-- `hmac` is `mbedtls_md_hmac` with SHA-512: the 64 bytes, or nothing.
unfoldable pub utils_https_sign : (Bytes → Bytes → Option Bytes) → Bytes → Bytes → Option Bytes
unfolding utils_https_bytes_to_hex_string
utils_https_sign hmac private_key message = elim (hmac private_key message) [
  | none ↦ none
  | some digest ↦ some (utils_https_bytes_to_hex_string digest)
]
