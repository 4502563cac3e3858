-- ===== src/Btc38/Tests.antt =====
-- The parsers of book/btc38.c on answers of the service, and the theorems at them.
use mathlib.Core.Path.{refl, ◌≡◌}
use ken_code_de_bridge.Base.{Bytes, List, [], atoi, codes, equal, ok, some, to_upper, ℕ, ◌∷◌}
use ken_code_de_bridge.Fixtures.{clip, gives, micro, token}
use ken_code_de_bridge.Book.{Book}
use ken_code_de_bridge.Json.{Token, array, double_of_text, object, primitive, string, token_text}
use ken_code_de_bridge.Json.Views.{At}
use ken_code_de_bridge.Json.Check.{At-checked}
use ken_code_de_bridge.Levels.First.{Level}
use ken_code_de_bridge.Tickers.Rows.{Row, rows_views}
use ken_code_de_bridge.Btc38.{btc38_all_upper, btc38_parse_book, btc38_parse_market, market_of}
use ken_code_de_bridge.Btc38.Ends.{btc38_parse_book-Ends}
use ken_code_de_bridge.Json.Progress.{Ends}
use ken_code_de_bridge.Btc38.Books.{answer_views, btc38_parse_book-merged}
use ken_code_de_bridge.Btc38.Markets.{btc38_parse_market-rows}

abbrev book_json : Bytes
book_json = codes "{\"bids\":[[3,1],[2,5]],\"asks\":[[4,7],[5,8],[6,9]]}"

abbrev book_tokens : List Token
book_tokens =
    token object 0 49
    ∷ token string 2 6
    ∷ token array 8 21
    ∷ token array 9 14
    ∷ token primitive 10 11
    ∷ token primitive 12 13
    ∷ token array 15 20
    ∷ token primitive 16 17
    ∷ token primitive 18 19
    ∷ token string 23 27
    ∷ token array 29 48
    ∷ token array 30 35
    ∷ token primitive 31 32
    ∷ token primitive 33 34
    ∷ token array 36 41
    ∷ token primitive 37 38
    ∷ token primitive 39 40
    ∷ token array 42 47
    ∷ token primitive 43 44
    ∷ token primitive 45 46
    ∷ []

abbrev bid : Level
bid = record {
  bracket = clip book_json array 9 14;
  first = clip book_json primitive 10 11;
  second = clip book_json primitive 12 13;
}

abbrev last_bid : Level
last_bid = record {
  bracket = clip book_json array 15 20;
  first = clip book_json primitive 16 17;
  second = clip book_json primitive 18 19;
}

abbrev ask_one : Level
ask_one = record {
  bracket = clip book_json array 30 35;
  first = clip book_json primitive 31 32;
  second = clip book_json primitive 33 34;
}

abbrev ask_two : Level
ask_two = record {
  bracket = clip book_json array 36 41;
  first = clip book_json primitive 37 38;
  second = clip book_json primitive 39 40;
}

abbrev last_ask : Level
last_ask = record {
  bracket = clip book_json array 42 47;
  first = clip book_json primitive 43 44;
  second = clip book_json primitive 45 46;
}

book-At : At book_json book_tokens 20 0 (
    answer_views
      (clip book_json object 0 49 ∷ [])
      (clip book_json array 8 21)
      (bid ∷ [])
      last_bid
      (clip book_json array 29 48)
      (ask_one ∷ ask_two ∷ [])
      last_ask)
unfolding token_text equal
book-At = At-checked book_json book_tokens _ refl

-- Of two bids and three asks, one bid and two asks are kept.
abbrev kept_levels : List (Book ℕ)
kept_levels =
    record { bid_qty = 3000000; bid_price = 1000000; ask_qty = 4000000; ask_price = 7000000 }
    ∷ record { bid_qty = 0; bid_price = 0; ask_qty = 5000000; ask_price = 8000000 }
    ∷ []

btc38_parse_book-merged_example :
    btc38_parse_book micro (gives book_tokens) book_json ≡ ok kept_levels
unfolding equal double_of_text atoi
btc38_parse_book-merged_example =
    btc38_parse_book-merged micro (gives book_tokens) book_json book_tokens 20 refl
      (clip book_json object 0 49 ∷ []) (clip book_json array 8 21) (bid ∷ []) last_bid
      (clip book_json array 29 48) (ask_one ∷ ask_two ∷ []) last_ask book-At refl refl

abbrev markets_json : Bytes
markets_json = codes "{\"ltc\":{\"ticker\":{\"high\":2}},\"doge\":{\"ticker\":{\"high\":1}}}"

abbrev markets_tokens : List Token
markets_tokens =
    token object 0 58
    ∷ token string 2 5
    ∷ token object 7 28
    ∷ token string 9 15
    ∷ token object 17 27
    ∷ token string 19 23
    ∷ token primitive 25 26
    ∷ token string 30 34
    ∷ token object 36 57
    ∷ token string 38 44
    ∷ token object 46 56
    ∷ token string 48 52
    ∷ token primitive 54 55
    ∷ []

abbrev ltc_row : Row
ltc_row = record { gap = []; name = codes "ltc"; bracket = clip markets_json object 7 28 }

abbrev doge_row : Row
doge_row = record {
  gap =
      clip markets_json object 17 27
      ∷ clip markets_json string 19 23
      ∷ clip markets_json primitive 25 26
      ∷ [];
  name = codes "doge";
  bracket = clip markets_json object 36 57;
}

markets-At : At markets_json markets_tokens 13 0 (
    (clip markets_json object 0 58
      ∷ rows_views (codes "ticker") (ltc_row ∷ doge_row ∷ []) (
          clip markets_json object 46 56
          ∷ clip markets_json string 48 52
          ∷ clip markets_json primitive 54 55
          ∷ [])))
unfolding token_text equal
markets-At = At-checked markets_json markets_tokens _ refl

btc38_parse_market-rows_example :
    btc38_parse_market micro (gives markets_tokens) markets_json (codes "btc")
    ≡ ok (
        market_of micro (codes "btc") (codes "ltc")
        ∷ market_of micro (codes "btc") (codes "doge")
        ∷ [])
unfolding equal
btc38_parse_market-rows_example =
    btc38_parse_market-rows micro (gives markets_tokens) markets_json markets_tokens 13
      (codes "btc") (clip markets_json object 0 58) (ltc_row ∷ doge_row ∷ [])
      (clip markets_json object 46 56
        ∷ clip markets_json string 48 52
        ∷ clip markets_json primitive 54 55
        ∷ [])
      refl markets-At (refl, (refl, tt)) refl

ltc_in_upper_case : market_of micro (codes "btc") (codes "ltc") ≡ record {
  market_name = some (codes "?c=btc&mk_type=ltc");
  market_currency = some (codes "LTC");
  base_currency = some (codes "BTC");
  min_trade_size = 0;
  fee = 700000;
}
unfolding btc38_all_upper to_upper
ltc_in_upper_case = refl

btc38_parse_book-Ends_example : Ends (btc38_parse_book micro (gives book_tokens) book_json)
btc38_parse_book-Ends_example = btc38_parse_book-Ends micro (gives book_tokens) book_json
