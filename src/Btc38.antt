-- ===== src/Btc38.antt =====
-- book/btc38.c: what it makes of the answers of api.btc38.com.

pub mod Books
pub mod Markets
pub mod Ends
pub mod Account
mod Tests
use ken_code_de_bridge.Base.{
  Bytes, Floats, List, Option, Outcome, [], codes, deref, fault, if◌then◌else◌, length, ltb, negsuc,
  none, ok, out_of_fuel, pos, some, suc, to_lower, to_upper, zero, ℕ, ℤ, ◌++◌, ◌+◌, ◌/◌, ◌==◌,
  ◌>>=◌, ◌∷◌,
}
use ken_code_de_bridge.Book.{
  Balance, Book, Cursor, Market, set_ask, set_bid, set_current, whole, zero_double,
}
use ken_code_de_bridge.Json.{
  Token, Tokenizer, after_key, json_find_token, json_get_double, json_parse,
}
use ken_code_de_bridge.Tickers.{find_next}
use ken_code_de_bridge.Levels.{first_loop, or_all, read_number, three_behind}

unfoldable pub btc38_all_upper : Bytes → Bytes
unfolding to_upper
btc38_all_upper [] = []
btc38_all_upper (c ∷ cs) = to_upper c ∷ btc38_all_upper cs

unfoldable pub find_next_market_type : Bytes → List Token → ℕ → ℕ → Outcome (ℕ × Option Bytes)
unfolding find_next
find_next_market_type json tokens tokens_length start_pos =
    find_next (codes "ticker") json tokens tokens_length start_pos

module _ {D : Type 0} (floats : Floats D) where
  abbrev pub market_of : Bytes → Bytes → Market D
  market_of base_currency name = record {
    market_name = some (codes "?c=" ++ base_currency ++ codes "&mk_type=" ++ name);
    market_currency = some (btc38_all_upper name);
    base_currency = some (btc38_all_upper base_currency);
    min_trade_size = zero_double floats;
    fee = floats.literal 7 1;
  }

  module _ (json : Bytes) (tokens : List Token) (total : ℕ) (base_currency : Bytes) where
    markets_loop : ℕ → ℕ → List (Market D) → Outcome (List (Market D))
    markets_loop zero start_pos head = out_of_fuel
    markets_loop (suc fuel) start_pos head =
        let round = do
          (at, found) ← find_next_market_type json tokens total start_pos
          let added = do
            name ← deref found
            markets_loop fuel (at + 1) (head ++ market_of base_currency name ∷ [])
          if at == 0 then markets_loop fuel 0 head else added
        in if start_pos == 0 then ok head else round

  module _ (json : Bytes) (tokens : List Token) (tok_no : ℕ) where
    -- The loop for the asks looks for its end only behind what it has read.
    asks_loop : ℕ → ℕ → Cursor D → Outcome (List (Book D))
    asks_loop zero start_pos c = out_of_fuel
    asks_loop (suc fuel) start_pos c =
        let round = do
          quantity ← read_number floats json tokens start_pos
          rate ← read_number floats json tokens (start_pos + 1)
          if ltb tok_no (start_pos + 3)
              then asks_loop fuel 0 c
              else asks_loop fuel (start_pos + 3) (set_current floats (set_ask quantity rate) c)
        in if start_pos == 0 then ok (whole c) else round

    book_of_tokens : Outcome (List (Book D))
    unfolding asks_loop first_loop json_find_token
    book_of_tokens = do
      found ← json_find_token json tokens tok_no 0 (codes "asks")
      let sell_pos = or_all tok_no found
      bids_at ← json_find_token json tokens tok_no 0 (codes "bids")
      book ← first_loop floats json tokens set_bid (tok_no + 2) (three_behind bids_at) sell_pos []
      asks_loop (tok_no + 2) (three_behind sell_pos) (record { before = []; from_current = book })

    -- `currency_string`: three letters, and the suffix. A NUL among them ends it.
    abbrev currency_key : Bytes → Bytes → Outcome Bytes
    currency_key (a ∷ b ∷ c ∷ _) suffix = ok (to_lower a ∷ to_lower b ∷ to_lower c ∷ suffix)
    currency_key (a ∷ b ∷ []) suffix = ok (to_lower a ∷ to_lower b ∷ [])
    currency_key _ suffix = fault

    balance_of_tokens : Bytes → Outcome (Option (Balance D))
    unfolding json_find_token json_get_double to_lower
    balance_of_tokens currency = do
      key ← currency_key currency (codes "_balance")
      at ← json_find_token json tokens tok_no 0 key
      after_key tokens at λ i t. do
        balance ← json_get_double floats json t (zero_double floats)
        lock_key ← currency_key currency (codes "_balance_lock")
        lock_at ← json_find_token json tokens tok_no i lock_key
        after_key tokens lock_at λ j t'. do
          pending ← json_get_double floats json t' (zero_double floats)
          ok (
              some (record {
                currency = some currency;
                balance = balance;
                pending = pending;
                available = floats.sub balance pending;
              }))

module _ {D : Type 0} (floats : Floats D) (jsmn : Tokenizer) where
  parsed_markets : Bytes → Bytes → ℤ × List Token → Outcome (List (Market D))
  parsed_markets json base_currency (negsuc _, tokens) = ok []
  parsed_markets json base_currency (pos total, tokens) =
      markets_loop floats json tokens total base_currency (total + 2) 1 []

  unfoldable pub btc38_parse_market : Bytes → Bytes → Outcome (List (Market D))
  unfolding parsed_markets markets_loop json_parse
  btc38_parse_market json base_currency =
      parsed_markets json base_currency (json_parse jsmn json 65535)

  parsed_book : Bytes → ℤ × List Token → Outcome (List (Book D))
  parsed_book json (negsuc _, tokens) = ok []
  parsed_book json (pos tok_no, tokens) = book_of_tokens floats json tokens tok_no

  unfoldable pub btc38_parse_book : Bytes → Outcome (List (Book D))
  unfolding parsed_book book_of_tokens json_parse
  btc38_parse_book json = parsed_book json (json_parse jsmn json 65535)

  parsed_balance : Bytes → Bytes → ℤ × List Token → Outcome (Option (Balance D))
  parsed_balance json currency (negsuc _, tokens) = ok none
  parsed_balance json currency (pos num_tokens, tokens) =
      balance_of_tokens floats json tokens num_tokens currency

  -- A token takes four bytes of the text at least, the code reckons.
  unfoldable pub btc38_parse_balance : Bytes → Bytes → Outcome (Option (Balance D))
  unfolding parsed_balance balance_of_tokens json_parse
  btc38_parse_balance currency json =
      parsed_balance json currency (json_parse jsmn json (length json / 4))
