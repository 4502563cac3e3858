-- ===== src/Json.antt =====
-- utils/json.c over the tokens of include/utils/jsmn.h. The tokenizer itself (jsmn, a library kept in
-- the tree) is a parameter: from the text and the size of the token array it gives the returned
-- `int` and the tokens that it wrote. An index past those is a cell that nothing has written.
-- `malloc` succeeds, and no key or position comes near the range of `int`.
pub mod Find
pub mod Values
pub mod Progress
pub mod Views
pub mod Check
pub mod Seek
pub mod Numbers
mod Tests
use ken_code_de_bridge.Base.{
  Bool, Bytes, Floats, List, Option, Outcome, atoi, codes, deref, drop, equal, false, fault,
  get_elem?, if◌then◌else◌, leb, length, negsuc, none, ok, pos, some, suc, take, zero, ℕ, ℤ, ◌&&◌,
  ◌+◌, ◌-◌, ◌>>=◌,
}

-- `jsmntype_t`
pub data TokenType : Type 0 where
  undefined object array string primitive : TokenType

-- `jsmntok_t`
pub record Token : Type 0 where
  pub type : TokenType
  pub start : ℤ
  pub end : ℤ
  pub size : ℤ

-- `jsmn_parse` on a fresh parser: text and length of the token array to return code and tokens.
abbrev pub Tokenizer : Type 0
Tokenizer = Bytes → ℕ → ℤ × List Token

unfoldable pub json_parse : Tokenizer → Bytes → ℕ → ℤ × List Token
json_parse jsmn json max_length = jsmn json max_length

-- `tokens[i]`
abbrev pub read_token : List Token → ℕ → Outcome Token
read_token tokens i = deref (get_elem? tokens i)

-- The copy that each function makes: `str_len = end - start` bytes by `strncpy` from
-- `&data[start]`, which stops at the end of the text. A negative length or start is undefined.
text_between : Bytes → ℤ → ℤ → Outcome Bytes
text_between json (pos s) (pos e) =
    if leb s e && leb s (length json) then ok (take (e - s) (drop s json)) else fault
text_between json _ _ = fault

unfoldable pub token_text : Bytes → Token → Outcome Bytes
unfolding text_between
token_text json t = text_between json t.start t.end

-- The test in the loop of `json_find_token`.
names_tag : Bytes → Token → TokenType → Bytes → Outcome Bool
names_tag json t string tag = do str ← token_text json t; ok (equal str tag)
names_tag json t _ tag = ok false

-- The loop, with the rounds left.
find_from : Bytes → List Token → Bytes → ℕ → ℕ → Outcome ℤ
find_from json tokens tag i zero = ok (negsuc 0)
find_from json tokens tag i (suc rounds) =
    let rest = find_from json tokens tag (i + 1) rounds in
    do
      curr_token ← read_token tokens i
      hit ← names_tag json curr_token curr_token.type tag
      if hit then ok (pos i) else rest

unfoldable pub json_find_token : Bytes → List Token → ℕ → ℕ → Bytes → Outcome ℤ
unfolding find_from names_tag token_text equal
json_find_token json tokens tok_length start_from tag =
    find_from json tokens tag start_from (tok_length - start_from)

-- The `json_get_…_value` functions return the position of the value, or 0, beside what `*result`
-- then holds; `result` is what it held before.
string_value : Bytes → Token → TokenType → ℕ → Option Bytes → Outcome (ℕ × Option Bytes)
string_value json t primitive at result = ok (0, none)
string_value json t string at result = do str ← token_text json t; ok (at, some str)
string_value json t _ at result = ok (0, result)

string_value_at : Bytes → List Token → ℤ → Option Bytes → Outcome (ℕ × Option Bytes)
string_value_at json tokens (negsuc _) result = ok (0, result)
string_value_at json tokens (pos i) result = do
  curr_token ← read_token tokens (i + 1)
  string_value json curr_token curr_token.type (i + 1) result

unfoldable pub json_get_string_value :
    Bytes → List Token → ℕ → ℕ → Bytes → Option Bytes → Outcome (ℕ × Option Bytes)
unfolding json_find_token string_value_at string_value
json_get_string_value json tokens tok_length search_from tag result = do
  at ← json_find_token json tokens tok_length search_from tag
  string_value_at json tokens at result

-- The value that the text of a primitive stands for.
unfoldable pub int_of_text : Bytes → ℤ
unfolding equal atoi
int_of_text str =
    if equal str (codes "true")
    then pos 1
    else if equal str (codes "false")
    then pos 0
    else if equal str (codes "null")
    then pos 0
    else atoi str

int_value : Bytes → Token → TokenType → ℕ → ℤ → Outcome (ℕ × ℤ)
int_value json t primitive at result = do str ← token_text json t; ok (at, int_of_text str)
int_value json t _ at result = ok (0, result)

int_value_at : Bytes → List Token → ℤ → ℤ → Outcome (ℕ × ℤ)
int_value_at json tokens (negsuc _) result = ok (0, result)
int_value_at json tokens (pos i) result = do
  curr_token ← read_token tokens (i + 1)
  int_value json curr_token curr_token.type (i + 1) result

unfoldable pub json_get_int_value : Bytes → List Token → ℕ → ℕ → Bytes → ℤ → Outcome (ℕ × ℤ)
unfolding json_find_token int_value_at int_value int_of_text
json_get_int_value json tokens tok_length search_from tag result = do
  at ← json_find_token json tokens tok_length search_from tag
  int_value_at json tokens at result

module _ {D : Type 0} (floats : Floats D) where
  unfoldable pub double_of_text : Bytes → D
  unfolding equal
  double_of_text str =
      if equal str (codes "true")
      then floats.literal 1 0
      else if equal str (codes "false")
      then floats.literal 0 0
      else if equal str (codes "null")
      then floats.literal 0 0
      else floats.atof str

  double_value : Bytes → Token → TokenType → ℕ → D → Outcome (ℕ × D)
  double_value json t primitive at result = do str ← token_text json t; ok (at, double_of_text str)
  double_value json t _ at result = ok (0, result)

  double_value_at : Bytes → List Token → ℤ → D → Outcome (ℕ × D)
  double_value_at json tokens (negsuc _) result = ok (0, result)
  double_value_at json tokens (pos i) result = do
    curr_token ← read_token tokens (i + 1)
    double_value json curr_token curr_token.type (i + 1) result

  unfoldable pub json_get_double_value : Bytes → List Token → ℕ → ℕ → Bytes → D → Outcome (ℕ × D)
  unfolding json_find_token double_value_at double_value double_of_text
  json_get_double_value json tokens tok_length search_from tag result = do
    at ← json_find_token json tokens tok_length search_from tag
    double_value_at json tokens at result

  -- `*result` after `json_get_double`: a string is read as a number too.
  double_of : Bytes → Token → TokenType → D → Outcome D
  double_of json t primitive result = do str ← token_text json t; ok (double_of_text str)
  double_of json t string result = do str ← token_text json t; ok (double_of_text str)
  double_of json t _ result = ok result

  unfoldable pub json_get_double : Bytes → Token → D → Outcome D
  unfolding double_of token_text double_of_text
  json_get_double json curr_token result = double_of json curr_token curr_token.type result

-- `*result` after `json_get_string`.
string_of : Bytes → Token → TokenType → Option Bytes → Outcome (Option Bytes)
string_of json t string result = do str ← token_text json t; ok (some str)
string_of json t _ result = ok result

unfoldable pub json_get_string : Bytes → Token → Option Bytes → Outcome (Option Bytes)
unfolding string_of token_text
json_get_string json curr_token result = string_of json curr_token curr_token.type result

-- The parsers of balances: behind the key that a search found stands the value, and the next search
-- starts there. Without the key they return NULL.
abbrev pub after_key {ℓ} :
    {A : Type ℓ} → List Token → ℤ → (ℕ → Token → Outcome (Option A)) → Outcome (Option A)
after_key tokens (negsuc _) next = ok none
after_key tokens (pos i) next = do t ← read_token tokens (i + 1); next (i + 1) t
