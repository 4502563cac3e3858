-- ===== src/Poloniex.antt =====
-- book/poloniex.c: what it makes of the answers of poloniex.com.
pub mod Books
pub mod Markets
pub mod Endless
pub mod Ends
pub mod Account
mod Tests
use ken_code_de_bridge.Base.{
  Bytes, Floats, List, Option, Outcome, [], codes, deref, if◌then◌else◌, leb, length, ltb, negsuc,
  none, not, ok, out_of_fuel, pos, some, split_at, suc, zero, ℕ, ℤ, ◌&&◌, ◌++◌, ◌+◌, ◌/◌, ◌==◌,
  ◌>>=◌, ◌∷◌,
}
use ken_code_de_bridge.Book.{
  Balance, Book, Cursor, Market, set_ask, set_bid, set_current, whole, zero_double,
}
use ken_code_de_bridge.Json.{
  Token, Tokenizer, after_key, json_find_token, json_get_double, json_parse,
}
use ken_code_de_bridge.Tickers.{find_next}
use ken_code_de_bridge.Levels.{first_loop, or_all, read_number, three_behind}

unfoldable pub poloniex_find_next_market_type :
    Bytes → List Token → ℕ → ℕ → Outcome (ℕ × Option Bytes)
unfolding find_next
poloniex_find_next_market_type json tokens tokens_length start_pos =
    find_next (codes "id") json tokens tokens_length start_pos

module _ {D : Type 0} (floats : Floats D) where
  -- The market of a ticker whose parts stand around the first underscore.
  abbrev pub market_of : Bytes → Bytes × Bytes → Market D
  market_of full_ticker (base, quoted) = record {
    market_name = some full_ticker;
    market_currency = some quoted;
    base_currency = some base;
    min_trade_size = zero_double floats;
    fee = floats.literal 7 1;
  }

  -- Where the next search starts, and the list, for the parts of a ticker.
  abbrev start_behind : ℕ → Option (Bytes × Bytes) → ℕ
  start_behind at none = at
  start_behind at (some parts) = at + 1

  abbrev head_with : List (Market D) → Bytes → Option (Bytes × Bytes) → List (Market D)
  head_with head full_ticker none = head
  head_with head full_ticker (some parts) = head ++ market_of full_ticker parts ∷ []

  module _ (json : Bytes) (tokens : List Token) (total : ℕ) where
    -- A ticker with no underscore is passed over with `start_pos` where it was found.
    pub markets_loop : ℕ → ℕ → List (Market D) → Outcome (List (Market D))
    markets_loop zero start_pos head = out_of_fuel
    markets_loop (suc fuel) start_pos head =
        let round = do
          (at, found) ← poloniex_find_next_market_type json tokens total start_pos
          let added = do
            full_ticker ← deref found
            let parts = split_at b'_' full_ticker
            markets_loop fuel (start_behind at parts) (head_with head full_ticker parts)
          if at == 0 then markets_loop fuel 0 head else added
        in if start_pos == 0 then ok head else round

  module _ (json : Bytes) (tokens : List Token) (tok_no : ℕ) where
    -- The loop over the bids stops where a number, or the next level, would start behind the tokens.
    bids_loop : ℕ → ℕ → Cursor D → Outcome (List (Book D))
    bids_loop zero start_pos c = out_of_fuel
    bids_loop (suc fuel) start_pos c =
        let round = do
          quantity ← read_number floats json tokens start_pos
          let rated = do
            rate ← read_number floats json tokens (start_pos + 1)
            if leb tok_no (start_pos + 3)
                then bids_loop fuel 0 c
                else bids_loop fuel (start_pos + 3) (set_current floats (set_bid quantity rate) c)
          if leb tok_no (start_pos + 1) then bids_loop fuel 0 c else rated
        in if not (start_pos == 0) && ltb start_pos tok_no then round else ok (whole c)

    -- From what the search for "bids" returned.
    book_from_bids : ℤ → ℤ → Outcome (List (Book D))
    unfolding first_loop bids_loop
    book_from_bids sell_pos (pos zero) = ok []
    book_from_bids sell_pos bid_pos = do
      book ← first_loop floats json tokens set_ask (tok_no + 2) (three_behind sell_pos) bid_pos []
      bids_loop (tok_no + 2) (three_behind bid_pos) (record { before = []; from_current = book })

    book_of_tokens : Outcome (List (Book D))
    unfolding book_from_bids json_find_token
    book_of_tokens = do
      found ← json_find_token json tokens tok_no 0 (codes "asks")
      bid_pos ← json_find_token json tokens tok_no 0 (codes "bids")
      book_from_bids (or_all tok_no found) bid_pos

    double_after : ℕ → Bytes → (ℕ → D → Outcome (Option (Balance D))) → Outcome (Option (Balance D))
    unfolding json_find_token json_get_double
    double_after token_position key next = do
      at ← json_find_token json tokens tok_no token_position key
      after_key tokens at λ i t. json_get_double floats json t (zero_double floats) >>= next i

    -- Behind the currency itself the next search starts at its key.
    abbrev from_currency : ℤ → (ℕ → Outcome (Option (Balance D))) → Outcome (Option (Balance D))
    from_currency (negsuc _) next = ok none
    from_currency (pos i) next = next i

    balance_of_tokens : Bytes → Outcome (Option (Balance D))
    unfolding double_after json_find_token
    balance_of_tokens currency = do
      at ← json_find_token json tokens tok_no 0 currency
      from_currency at λ i. double_after i (codes "available") λ j available.
          double_after j (codes "onOrders") λ k pending.
            double_after k (codes "btcValue") λ l balance. ok (
              some (record {
                currency = some currency;
                balance = balance;
                pending = pending;
                available = available;
              }))

module _ {D : Type 0} (floats : Floats D) (jsmn : Tokenizer) where
  parsed_markets : Bytes → ℤ × List Token → Outcome (List (Market D))
  parsed_markets json (negsuc _, tokens) = ok []
  parsed_markets json (pos total, tokens) = markets_loop floats json tokens total (total + 2) 1 []

  unfoldable pub poloniex_parse_market : Bytes → Outcome (List (Market D))
  unfolding parsed_markets markets_loop json_parse
  poloniex_parse_market json = parsed_markets json (json_parse jsmn json 65535)

  parsed_book : Bytes → ℤ × List Token → Outcome (List (Book D))
  parsed_book json (negsuc _, tokens) = ok []
  parsed_book json (pos tok_no, tokens) = book_of_tokens floats json tokens tok_no

  unfoldable pub poloniex_parse_book : Bytes → Outcome (List (Book D))
  unfolding parsed_book book_of_tokens json_parse
  poloniex_parse_book json = parsed_book json (json_parse jsmn json 65535)

  parsed_balance : Bytes → Bytes → ℤ × List Token → Outcome (Option (Balance D))
  parsed_balance json currency (negsuc _, tokens) = ok none
  parsed_balance json currency (pos num_tokens, tokens) =
      balance_of_tokens floats json tokens num_tokens currency

  -- A token takes four bytes of the text at least, the code reckons.
  unfoldable pub poloniex_parse_balance : Bytes → Bytes → Outcome (Option (Balance D))
  unfolding parsed_balance balance_of_tokens json_parse
  poloniex_parse_balance json currency =
      parsed_balance json currency (json_parse jsmn json (length json / 4))
