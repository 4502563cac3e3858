-- ===== src/Json/Numbers.antt =====
-- `json_get_double` and `json_get_string` at a token whose text is known.
use ken_code_de_bridge.Base.{Bytes, Floats, Option, ok, refl, some, ◌≡◌}
use ken_code_de_bridge.Json.{
  Token, TokenType, double_of, double_of_text, json_get_double, json_get_string, primitive, string,
  string_of, token_text,
}
use ken_code_de_bridge.Json.Views.{View}

module _ {D : Type 0} (floats : Floats D) where
  -- What is stored where a number is read: a primitive or a string counts as one, and any other
  -- token leaves what was there.
  abbrev pub number_or : D → View → D
  number_or old (primitive, str) = double_of_text floats str
  number_or old (string, str) = double_of_text floats str
  number_or old _ = old

  double_of-view :
      (json : Bytes) (t : Token) (type : TokenType) (str : Bytes) (old : D)
      → token_text json t ≡ ok str
      → double_of floats json t type old ≡ ok (number_or old (type, str))
  unfolding double_of
  double_of-view json t primitive str old reads = rw reads
  double_of-view json t string str old reads = rw reads
  double_of-view json t _ str old reads = refl

  pub json_get_double-view :
      (json : Bytes) (t : Token) (v : View) (old : D)
      → t.type ≡ v.0
      → token_text json t ≡ ok v.1
      → json_get_double floats json t old ≡ ok (number_or old v)
  unfolding json_get_double
  json_get_double-view json t v old is reads = rw is (double_of-view json t v.0 v.1 old reads)

-- A string is copied, and any other token leaves what was there.
abbrev pub string_or : Option Bytes → View → Option Bytes
string_or old (string, str) = some str
string_or old _ = old

string_of-view :
    (json : Bytes) (t : Token) (type : TokenType) (str : Bytes) (old : Option Bytes)
    → token_text json t ≡ ok str
    → string_of json t type old ≡ ok (string_or old (type, str))
unfolding string_of
string_of-view json t string str old reads = rw reads
string_of-view json t _ str old reads = refl

pub json_get_string-view :
    (json : Bytes) (t : Token) (v : View) (old : Option Bytes)
    → t.type ≡ v.0
    → token_text json t ≡ ok v.1
    → json_get_string json t old ≡ ok (string_or old v)
unfolding json_get_string
json_get_string-view json t v old is reads = rw is (string_of-view json t v.0 v.1 old reads)
