-- ===== src/Bittrex/Sample.antt =====
-- Answers of bittrex.com: one that lists two markets, and one with a book of two levels.
use ken_code_de_bridge.Fixtures.{clip, token}
use ken_code_de_bridge.Base.{Bytes, List, [], codes, equal, refl, some, ℕ, ◌∷◌}
use ken_code_de_bridge.Json.{Token, array, object, primitive, string, token_text}
use ken_code_de_bridge.Book.{Market}
use ken_code_de_bridge.Json.Views.{At}
use ken_code_de_bridge.Json.Check.{At-checked}
use ken_code_de_bridge.Bittrex.Rows.{IsOrderly, Row, listing_views}
use ken_code_de_bridge.Bittrex.Books.{Entry}
use ken_code_de_bridge.Bittrex.Books.Bids.{answer_views}

abbrev pub markets_json : Bytes
markets_json =
    codes
      "{\"success\":true,\"result\":[{\"MarketCurrency\":\"LTC\",\"BaseCurrency\":\"BTC\",\"MinTradeSize\":1,\"MarketName\":\"BTC-LTC\",\"IsActive\":true},{\"MarketCurrency\":\"DOGE\",\"BaseCurrency\":\"BTC\",\"MinTradeSize\":2,\"MarketName\":\"BTC-DOGE\",\"IsActive\":false}]}"

abbrev pub markets_tokens : List Token
markets_tokens =
    token object 0 234
    ∷ token string 2 9
    ∷ token primitive 11 15
    ∷ token string 17 23
    ∷ token array 25 233
    ∷ token object 26 127
    ∷ token string 28 42
    ∷ token string 45 48
    ∷ token string 51 63
    ∷ token string 66 69
    ∷ token string 72 84
    ∷ token primitive 86 87
    ∷ token string 89 99
    ∷ token string 102 109
    ∷ token string 112 120
    ∷ token primitive 122 126
    ∷ token object 128 232
    ∷ token string 130 144
    ∷ token string 147 151
    ∷ token string 154 166
    ∷ token string 169 172
    ∷ token string 175 187
    ∷ token primitive 189 190
    ∷ token string 192 202
    ∷ token string 205 213
    ∷ token string 216 224
    ∷ token primitive 226 231
    ∷ []

abbrev pub ltc_row : Row
ltc_row = record {
  gap_currency =
      clip markets_json string 17 23
      ∷ clip markets_json array 25 233
      ∷ clip markets_json object 26 127
      ∷ [];
  currency = codes "LTC";
  gap_base = [];
  base = codes "BTC";
  gap_size = [];
  size = codes "1";
  gap_name = [];
  name = codes "BTC-LTC";
  gap_active = [];
  active = codes "true";
}

abbrev pub doge_row : Row
doge_row = record {
  gap_currency = clip markets_json object 128 232 ∷ [];
  currency = codes "DOGE";
  gap_base = [];
  base = codes "BTC";
  gap_size = [];
  size = codes "2";
  gap_name = [];
  name = codes "BTC-DOGE";
  gap_active = [];
  active = codes "false";
}

abbrev pub ltc_market : Market ℕ
ltc_market = record {
  market_name = some (codes "BTC-LTC");
  market_currency = some (codes "LTC");
  base_currency = some (codes "BTC");
  min_trade_size = 1000000;
  fee = 700000;
}

pub markets-At : At markets_json markets_tokens 27 0 (
    listing_views (clip markets_json object 0 234 ∷ []) (codes "true") (ltc_row ∷ doge_row ∷ []) [])
unfolding token_text equal
markets-At = At-checked markets_json markets_tokens _ refl

pub ltc_IsOrderly : IsOrderly ltc_row
unfolding equal
ltc_IsOrderly = record {
  currency_first = refl;
  base_first = refl;
  size_first = refl;
  name_first = refl;
  active_first = refl;
}

pub doge_IsOrderly : IsOrderly doge_row
unfolding equal
doge_IsOrderly = record {
  currency_first = refl;
  base_first = refl;
  size_first = refl;
  name_first = refl;
  active_first = refl;
}

abbrev pub book_json : Bytes
book_json =
    codes
      "{\"success\":true,\"result\":{\"buy\":[{\"Quantity\":12,\"Rate\":3},{\"Quantity\":5,\"Rate\":2}],\"sell\":[{\"Quantity\":7,\"Rate\":4}]}}"

abbrev pub book_tokens : List Token
book_tokens =
    token object 0 117
    ∷ token string 2 9
    ∷ token primitive 11 15
    ∷ token string 17 23
    ∷ token object 25 116
    ∷ token string 27 30
    ∷ token array 32 82
    ∷ token object 33 57
    ∷ token string 35 43
    ∷ token primitive 45 47
    ∷ token string 49 53
    ∷ token primitive 55 56
    ∷ token object 58 81
    ∷ token string 60 68
    ∷ token primitive 70 71
    ∷ token string 73 77
    ∷ token primitive 79 80
    ∷ token string 84 88
    ∷ token array 90 115
    ∷ token object 91 114
    ∷ token string 93 101
    ∷ token primitive 103 104
    ∷ token string 106 110
    ∷ token primitive 112 113
    ∷ []

abbrev pub first_bid : Entry
first_bid = record {
  gap_quantity =
      clip book_json string 17 23
      ∷ clip book_json object 25 116
      ∷ clip book_json string 27 30
      ∷ clip book_json array 32 82
      ∷ clip book_json object 33 57
      ∷ [];
  quantity = codes "12";
  gap_rate = [];
  rate = codes "3";
}

abbrev pub second_bid : Entry
second_bid = record {
  gap_quantity = clip book_json object 58 81 ∷ [];
  quantity = codes "5";
  gap_rate = [];
  rate = codes "2";
}

abbrev pub first_ask : Entry
first_ask = record {
  gap_quantity = clip book_json array 90 115 ∷ clip book_json object 91 114 ∷ [];
  quantity = codes "7";
  gap_rate = [];
  rate = codes "4";
}

pub book-At : At book_json book_tokens 24 0 (
    answer_views
      (clip book_json object 0 117 ∷ [])
      (codes "true")
      (first_bid ∷ second_bid ∷ [])
      []
      (first_ask ∷ [])
      [])
unfolding token_text equal
book-At = At-checked book_json book_tokens _ refl
