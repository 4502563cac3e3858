-- ===== src/Bittrex.antt =====
-- book/bittrex.c: what it makes of the answers of bittrex.com. A loop takes fuel, and the function
-- around it gives as much as there are tokens.
pub mod Rows
pub mod Markets
pub mod Total
pub mod Books
pub mod Missing
pub mod Account
pub mod Sample
mod Tests
use ken_code_de_bridge.Base.{
  Bool, Bytes, Floats, List, Option, Outcome, [], codes, false, fault, if◌then◌else◌, ltb, negsuc,
  none, not, ok, out_of_fuel, pos, some, suc, true, zero, ℕ, ℤ, ◌&&◌, ◌++◌, ◌+◌, ◌==◌, ◌>>=◌, ◌||◌,
  ◌∷◌,
}
use ken_code_de_bridge.Book.{
  Book, Cursor, Market, book_new, set_ask, set_bid, set_current, whole, zero_double,
}
use ken_code_de_bridge.Json.{
  Token, Tokenizer, json_find_token, json_get_double_value, json_get_int_value,
  json_get_string_value, json_parse,
}

abbrev pub is_zero : ℤ → Bool
is_zero (pos zero) = true
is_zero _ = false

abbrev no_name : Option Bytes
no_name = none

-- `last->next = current`, where a market was made.
abbrev appended {ℓ} : {A : Type ℓ} → List A → Option A → List A
appended head none = head
appended head (some m) = head ++ m ∷ []

module _ {D : Type 0} (floats : Floats D) (json : Bytes) (tokens : List Token) (total : ℕ) where
  -- One round of the loop over the markets: where the next search starts (0 ends the loop), and
  -- the market that is added to the list.
  read_market : ℕ → Outcome (ℕ × Option (Market D))
  read_market start_pos = do
    (p, market_currency) ←
        json_get_string_value json tokens total start_pos (codes "MarketCurrency") no_name
    if p == 0 then ok (0, none) else do
      (q, base_currency) ← json_get_string_value json tokens total p (codes "BaseCurrency") no_name
      if q == 0 then ok (0, none) else do
        (r, min_trade_size) ←
            json_get_double_value floats json tokens total q (codes "MinTradeSize")
              (zero_double floats)
        if r == 0 then ok (0, none) else do
          (s, market_name) ← json_get_string_value json tokens total r (codes "MarketName") no_name
          if s == 0 then ok (0, none) else do
            (t, active) ← json_get_int_value json tokens total s (codes "IsActive") (pos 0)
            if t == 0 || is_zero active
                then ok (t, none)
                else ok (
                  t,
                  some (record {
                    market_name = market_name;
                    market_currency = market_currency;
                    base_currency = base_currency;
                    min_trade_size = min_trade_size;
                    fee = floats.literal 7 1;
                  }),
                )

  markets_loop : ℕ → ℕ → List (Market D) → Outcome (List (Market D))
  markets_loop zero start_pos head = out_of_fuel
  markets_loop (suc fuel) start_pos head =
      let round = do
        (next, current) ← read_market start_pos
        markets_loop fuel next (appended head current)
      in if start_pos == 0 then ok head else round

  -- What `json_parse` returned is looked at, then the field "success".
  markets_from_start : Outcome (List (Market D))
  unfolding read_market markets_loop
  markets_from_start = do
    (start_pos, success) ← json_get_int_value json tokens total 0 (codes "success") (pos 0)
    if start_pos == 0 || is_zero success then ok [] else markets_loop (total + 2) start_pos []

module _ {D : Type 0} (floats : Floats D) (json : Bytes) (tokens : List Token) (tok_no : ℕ) where
  -- "Quantity" and "Rate" of the next entry, and the position behind them (0 if one is missing).
  read_entry : ℕ → Outcome (ℕ × D × D)
  read_entry start_pos = do
    (p, quantity) ←
        json_get_double_value floats json tokens tok_no start_pos (codes "Quantity")
          (zero_double floats)
    if p == 0 then ok (0, quantity, zero_double floats) else do
      (q, rate) ←
          json_get_double_value floats json tokens tok_no p (codes "Rate") (zero_double floats)
      ok (q, quantity, rate)

  -- `start_pos < sell_pos`, with `sell_pos` an `int`.
  abbrev is_below : ℕ → ℤ → Bool
  is_below start_pos (pos sell_pos) = ltb start_pos sell_pos
  is_below start_pos (negsuc _) = false

  abbrev bid_entry : D → D → List (Book D)
  bid_entry quantity rate = set_bid quantity rate (book_new floats) ∷ []

  -- "loop for the bid": `book` is the list so far.
  bids_loop : ℕ → ℕ → ℤ → List (Book D) → Outcome (List (Book D))
  bids_loop zero start_pos sell_pos book = out_of_fuel
  bids_loop (suc fuel) start_pos sell_pos book =
      let round = do
        (next, quantity, rate) ← read_entry start_pos
        if next == 0
            then bids_loop fuel 0 sell_pos book
            else bids_loop fuel next sell_pos
                (if is_below next sell_pos then book ++ bid_entry quantity rate else book)
      in if not (start_pos == 0) && is_below start_pos sell_pos then round else ok book

  -- "loop for the ask"
  asks_loop : ℕ → ℕ → Cursor D → Outcome (List (Book D))
  asks_loop zero start_pos c = out_of_fuel
  asks_loop (suc fuel) start_pos c =
      let round = do
        (next, quantity, rate) ← read_entry start_pos
        if next == 0
            then asks_loop fuel 0 c
            else asks_loop fuel next (set_current floats (set_ask quantity rate) c)
      in if start_pos == 0 then ok (whole c) else round

  -- The search of the first round from `sell_pos`; from -1 it reads `tokens[-1]`.
  asks_from : ℤ → List (Book D) → Outcome (List (Book D))
  asks_from (negsuc _) book = fault
  asks_from (pos sell_pos) book =
      asks_loop (tok_no + 2) sell_pos (record { before = []; from_current = book })

  book_from_start : Outcome (List (Book D))
  unfolding read_entry bids_loop asks_loop asks_from
  book_from_start = do
    (start_pos, success) ← json_get_int_value json tokens tok_no 0 (codes "success") (pos 0)
    if start_pos == 0 || is_zero success then ok [] else do
      sell_pos ← json_find_token json tokens tok_no start_pos (codes "sell")
      book ← bids_loop (tok_no + 2) start_pos sell_pos []
      asks_from sell_pos book

module _ {D : Type 0} (floats : Floats D) (jsmn : Tokenizer) where
  parse_market_tokens : Bytes → ℤ × List Token → Outcome (List (Market D))
  parse_market_tokens json (negsuc _, tokens) = ok []
  parse_market_tokens json (pos total, tokens) = markets_from_start floats json tokens total

  -- The list of markets in an answer; NULL, the empty list, on an error.
  pub book_bittrex_parse_market : Option Bytes → Outcome (List (Market D))
  unfolding parse_market_tokens markets_from_start json_parse
  book_bittrex_parse_market none = ok []
  book_bittrex_parse_market (some json) = parse_market_tokens json (json_parse jsmn json 65535)

  parse_book_tokens : Bytes → ℤ × List Token → Outcome (List (Book D))
  parse_book_tokens json (negsuc _, tokens) = ok []
  parse_book_tokens json (pos tok_no, tokens) = book_from_start floats json tokens tok_no

  -- The book in an answer; NULL, the empty list, on an error.
  pub book_bittrex_parse_book : Option Bytes → Outcome (List (Book D))
  unfolding parse_book_tokens book_from_start json_parse
  book_bittrex_parse_book none = ok []
  book_bittrex_parse_book (some json) = parse_book_tokens json (json_parse jsmn json 65535)
