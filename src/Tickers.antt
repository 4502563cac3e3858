-- ===== src/Tickers.antt =====
-- How book/btc38.c and book/poloniex.c find the next market of an answer, each in its own copy of
-- the function: by a key that every market has, two tokens behind the market's name.
pub mod Rows
use ken_code_de_bridge.Base.{
  Bytes, List, Option, Outcome, fault, negsuc, none, ok, pos, some, suc, zero, ℕ, ℤ, ◌>>=◌,
}
use ken_code_de_bridge.Json.{Token, TokenType, json_find_token, read_token, string, token_text}

name_text : Bytes → Token → TokenType → ℕ → Outcome (ℕ × Option Bytes)
name_text json t string at = do str ← token_text json t; ok (at, some str)
name_text json t _ at = ok (0, none)

-- The text of the string two tokens in front of a key that a search found: 0 if there is none.
-- `tokens[-1]` is read where the key is the token 1.
name_before : Bytes → List Token → ℤ → Outcome (ℕ × Option Bytes)
unfolding name_text
name_before json tokens (negsuc _) = ok (0, none)
name_before json tokens (pos zero) = ok (0, none)
name_before json tokens (pos (suc zero)) = fault
name_before json tokens (pos (suc (suc i))) = do
  curr_token ← read_token tokens i
  name_text json curr_token curr_token.type (suc (suc i))

unfoldable pub find_next : Bytes → Bytes → List Token → ℕ → ℕ → Outcome (ℕ × Option Bytes)
unfolding name_before json_find_token
find_next key json tokens tokens_length start_pos = do
  at ← json_find_token json tokens tokens_length start_pos key
  name_before json tokens at
